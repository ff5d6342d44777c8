-- ===== src/Download/Peers.antt =====
-- src/daemon.rs: `try_p2p_download`. The events for the dashboard are left out.
use guix_p2p.NarHash.{sha256_vec}
use guix_p2p.Prelude.{
  panics, returns, Outcome, ℕ, ◌*◌, not, ◌&&◌, Option, none, some, List, [], ◌∷◌, ◌++◌, ltb, leb,
  nat_beq, if◌then◌else◌, nat_eq, text_beq, text_eq, length, is_empty,
}
use guix_p2p.Crypto.{Bytes, Text, Crypto}
use guix_p2p.Text.{chars}
use guix_p2p.Config.{Config}
use guix_p2p.Protocol.{format_trace_started}
use guix_p2p.Swarm.Codec.{PeerId}
use guix_p2p.Swarm.Block.{BlockInfo, from_file_size, set_hashes}
use guix_p2p.Swarm.Downloader.{DownloadError}
use guix_p2p.Providers.{
  wait_for_providers, wait_for_providers_for_duration, select_provider_candidates,
  merge_provider_lists, exclude_peers, fallback_peer_candidates, Notice,
}
use guix_p2p.Reputation.{ReputationTracker, Scoring, record_success}
use guix_p2p.Connection.{ConnectionManager, on_active}
use guix_p2p.Download.Handshake.{PeerHandshake, HandshakeTurn, Handshakes, handshake_with_providers}
use guix_p2p.Download.Replies.{handshake_peers}
use guix_p2p.Download.Blocks.{
  BlockTurn, Downloaded, download_blocks_from_peers, downloaded, download_failed, crashed,
  unfinished,
}

-- What the network answers: the providers in the cache, the notices of the two waits, the turns of the
-- two rounds of handshakes and of the download, and the instants at which these begin.
pub record P2pWorld : Type 0 where
  pub cached : List PeerId
  pub lookup_start : ℕ
  pub lookup_notices : List (ℕ × ℕ × Notice)
  pub refresh_start : ℕ
  pub refresh_notices : List (ℕ × ℕ × Notice)
  pub handshake_start : ℕ
  pub handshake_turns : List HandshakeTurn
  pub fallback_start : ℕ
  pub fallback_turns : List HandshakeTurn
  pub download_start : ℕ
  pub download_turns : List BlockTurn
  pub wall : ℕ

-- What is wanted: the arguments of the call. The text of `hash` is the key of the DHT.
pub record P2pRequest : Type 0 where
  pub hash : Bytes
  pub nar_hash : Text
  pub store_path : Text
  pub nar_size : ℕ
  pub hash_part : Text
  pub provider_timeout : ℕ

pub data P2pResult : Type 0 where
  got : Bytes → Text → P2pResult
  not_enough : ℕ → ℕ → P2pResult
  no_handshakes : P2pResult
  swarm_failed : DownloadError → P2pResult
  p2p_crashed : P2pResult
  p2p_unfinished : P2pResult

-- The result, with the trackers and the traces behind it.
pub record P2pRun : Type 0 where
  pub result : P2pResult
  pub reputation : ReputationTracker
  pub connections : ConnectionManager
  pub traces : List Text

-- The handshakes so far, where they come from, and what has been sent.
pub record Contacted : Type 0 where
  pub handshakes : List PeerHandshake
  pub source : Text
  pub reputation : ReputationTracker
  pub connections : ConnectionManager
  pub traces : List Text

abbrev pub dht_source : Text
dht_source = chars "p2p-dht"

abbrev pub fallback_source : Text
fallback_source = chars "p2p-connected-fallback"

-- The success of a download counts for every peer of a handshake.
unfoldable pub credit :
    ℕ
    → ℕ
    → ℕ
    → ReputationTracker
    → ConnectionManager
    → List PeerHandshake
    → ReputationTracker × ConnectionManager
unfolding record_success on_active
credit wall now bytes reputation connections [] = (reputation, connections)
credit wall now bytes reputation connections (h ∷ handshakes) =
    credit wall now bytes (record_success wall reputation h.peer bytes)
      (on_active now connections h.peer) handshakes

module _ (c : Crypto) (scoring : Scoring) (peer_of : Text → Option PeerId)
    (sort : List PeerId → List PeerId) (config : Config) (w : P2pWorld) (r : P2pRequest) where
  abbrev pub select : ℕ → List PeerId → ReputationTracker → ConnectionManager → List PeerId
  select now providers reputation connections =
      select_provider_candidates scoring now providers reputation connections
        config.max_peers_per_download

  -- The second lookup, where the first one has too few usable providers and the time for it.
  unfoldable pub refresh :
      List PeerId → List PeerId → ReputationTracker → ConnectionManager → Option (List PeerId)
  unfolding select_provider_candidates wait_for_providers_for_duration merge_provider_lists
  refresh discovered selected reputation connections =
      if ltb (length selected) config.min_providers
        && leb (1000 * config.request_timeout_secs) r.provider_timeout
      then elim (wait_for_providers_for_duration w.refresh_start r.provider_timeout (c.hex r.hash)
          w.refresh_notices) [
            | none ↦ none
            | some refreshed ↦ some (
                select w.handshake_start (merge_provider_lists discovered refreshed) reputation
                  connections)
          ]
      else some selected

  unfoldable pub find_selected :
      Option (List PeerId) → ReputationTracker → ConnectionManager → Option (List PeerId)
  unfolding refresh select_provider_candidates
  find_selected none reputation connections = none
  find_selected (some discovered) reputation connections =
      refresh discovered (select w.lookup_start discovered reputation connections) reputation
        connections

  abbrev contact_of : Text → List Text → Option Handshakes → Option Contacted
  contact_of source traces none = none
  contact_of source traces (some h) = some (record {
    handshakes = h.results;
    source = source;
    reputation = h.reputation;
    connections = h.connections;
    traces = traces;
  })

  unfoldable pub contact_selected :
      List PeerId → ReputationTracker → ConnectionManager → Option Contacted
  unfolding handshake_with_providers
  contact_selected selected reputation connections =
      if leb config.min_providers (length selected)
      then contact_of dht_source [] (
          handshake_with_providers r.hash w.wall w.handshake_start selected
            config.max_peers_per_download reputation connections w.handshake_turns)
      else some (record {
        handshakes = [];
        source = dht_source;
        reputation = reputation;
        connections = connections;
        traces = [];
      })

  -- The handshakes of the fallback go behind those there are.
  unfoldable pub add_fallback : Contacted → Option Handshakes → Option Contacted
  unfolding format_trace_started
  add_fallback before none = none
  add_fallback before (some h) = some (record {
    handshakes = before.handshakes ++ h.results;
    source = if is_empty h.results then before.source else fallback_source;
    reputation = h.reputation;
    connections = h.connections;
    traces =
        before.traces
        ++ format_trace_started r.store_path (chars "p2p+connected-fallback://" ++ r.hash_part)
            r.nar_size
          ∷ [];
  })

  unfoldable pub fallback_candidates : List PeerId → Contacted → List PeerId
  unfolding merge_provider_lists fallback_peer_candidates exclude_peers select_provider_candidates
  fallback_candidates selected t =
      let pool =
        merge_provider_lists selected
          (fallback_peer_candidates peer_of sort config t.connections []) in
      select w.fallback_start (exclude_peers pool (handshake_peers t.handshakes)) t.reputation
        t.connections

  unfoldable pub contact_fallback : List PeerId → Option Contacted → Option Contacted
  unfolding fallback_candidates add_fallback handshake_with_providers
  contact_fallback selected none = none
  contact_fallback selected (some t) =
      let candidates = fallback_candidates selected t in
      if ltb (length t.handshakes) config.min_providers && not (is_empty candidates)
      then add_fallback t (
          handshake_with_providers r.hash w.wall w.fallback_start candidates
            config.max_peers_per_download t.reputation t.connections w.fallback_turns)
      else some t

  unfoldable pub finish_run : Contacted → P2pResult → P2pRun
  finish_run t result = record {
    result = result;
    reputation = t.reputation;
    connections = t.connections;
    traces = t.traces;
  }

  unfoldable pub after_download : Contacted → Downloaded → P2pRun
  unfolding finish_run credit
  after_download t (downloaded nar text) =
      let credited =
        credit w.wall w.download_start (length nar) t.reputation t.connections t.handshakes in
      record {
        result = got nar t.source;
        reputation = credited.0;
        connections = credited.1;
        traces = t.traces;
      }
  after_download t (download_failed e) = finish_run t (swarm_failed e)
  after_download t crashed = finish_run t p2p_crashed
  after_download t unfinished = finish_run t p2p_unfinished

  -- The requests name the bytes of the hash, which `nar_hash_bytes` reads from its text.
  unfoldable pub download_with : Contacted → BlockInfo → Outcome Bytes → P2pRun
  unfolding download_blocks_from_peers after_download finish_run
  download_with t info panics = finish_run t p2p_crashed
  download_with t info (returns hash) = after_download t (
      download_blocks_from_peers c config hash w.download_start t.handshakes r.nar_size info
        r.nar_hash w.download_turns)

  -- The layout: from the first handshake where no size is known, else from the size, with its hashes.
  unfoldable pub download_by : Contacted → Option BlockInfo → P2pRun
  unfolding download_with finish_run sha256_vec
  download_by t none = finish_run t p2p_crashed
  download_by t (some info) = download_with t info (sha256_vec c r.nar_hash)

  unfoldable pub with_first_hashes : List PeerHandshake → Option BlockInfo → Option BlockInfo
  unfolding set_hashes
  with_first_hashes handshakes none = none
  with_first_hashes [] (some info) = some info
  with_first_hashes (first ∷ _) (some info) = some (set_hashes info first.block_hashes)

  unfoldable pub layout_of : Contacted → List PeerHandshake → P2pRun
  unfolding download_by with_first_hashes from_file_size finish_run
  layout_of t [] =
      if nat_beq r.nar_size 0
      then finish_run t no_handshakes
      else download_by t (from_file_size r.nar_size config.block_size)
  layout_of t (first ∷ rest) =
      if nat_beq r.nar_size 0
      then download_by t (
          some (record {
            block_count = first.block_count;
            block_size = config.block_size;
            last_block_size = config.block_size;
            block_hashes = first.block_hashes;
          }))
      else download_by t
          (with_first_hashes (first ∷ rest) (from_file_size r.nar_size config.block_size))

  unfoldable pub after_contact : ReputationTracker → ConnectionManager → Option Contacted → P2pRun
  unfolding layout_of finish_run
  after_contact reputation connections none = record {
    result = p2p_unfinished;
    reputation = reputation;
    connections = connections;
    traces = [];
  }
  after_contact reputation connections (some t) =
      let enough = if text_beq t.source fallback_source then 1 else config.min_providers in
      if ltb (length t.handshakes) enough
      then finish_run t (not_enough (length t.handshakes) enough)
      else layout_of t t.handshakes

  unfoldable pub with_selected :
      ReputationTracker → ConnectionManager → Option (List PeerId) → P2pRun
  unfolding contact_selected contact_fallback after_contact
  with_selected reputation connections none = after_contact reputation connections none
  with_selected reputation connections (some selected) =
      after_contact reputation connections
        (contact_fallback selected (contact_selected selected reputation connections))

  unfoldable pub try_p2p_download : ReputationTracker → ConnectionManager → P2pRun
  unfolding wait_for_providers find_selected with_selected
  try_p2p_download reputation connections = with_selected reputation connections (
      find_selected
        (wait_for_providers config w.cached w.lookup_start r.provider_timeout (c.hex r.hash)
          w.lookup_notices)
        reputation connections)
