-- ===== src/Download/Blocks.antt =====
-- src/daemon.rs: `download_blocks_from_peers`, the loop that dispatches block requests and stores the
-- blocks that arrive.
use guix_p2p.Prelude.{
  collect_set, ℕ, ◌+◌, ◌*◌, max, Bool, true, false, not, ◌&&◌, ◌||◌, Option, none, some, List, [],
  ◌∷◌, ◌++◌, map, ltb, leb, nat_beq, if◌then◌else◌, nat_eq, text_eq, length, replicate, keep, all,
  sum, insert,
}
use guix_p2p.Crypto.{Bytes, Text, Crypto}
use guix_p2p.Text.{chars}
use guix_p2p.Config.{Config}
use guix_p2p.Swarm.Codec.{PeerId, BlockRequest, BlockData}
use guix_p2p.Swarm.Block.{BlockInfo}
use guix_p2p.Swarm.Downloader.{
  DownloadError, ActiveDownload, new, add_peer, is_complete, Assembled, assemble, incomplete,
  too_large, ok, err,
}
use guix_p2p.Scheduler.{
  BlockFetchState, PeerFetchState, PeerStates, requeue_expired_blocks,
  requeue_in_flight_blocks_for_peer, dispatch_block_requests, record_block_response, pending,
  in_flight, complete,
}
use guix_p2p.Providers.{block_download_overall_timeout_secs}
use guix_p2p.Download.Handshake.{PeerHandshake}

pub data BlockNotice : Type 0 where
  blocks_from : PeerId → List BlockData → BlockNotice
  request_failed : PeerId → BlockNotice
  nothing_new : BlockNotice
  bus_closed : BlockNotice

pub record BlockTurn : Type 0 where
  pub begins : ℕ
  pub received : ℕ
  pub notice : BlockNotice

-- The variables of the loop, with the requests that it has sent.
pub record Fetching : Type 0 where
  pub download : ActiveDownload
  pub peers : PeerStates
  pub states : List BlockFetchState
  pub stall_deadline : ℕ
  pub requests : List (PeerId × BlockRequest)

-- The loop goes on, is left, or has panicked in `record_blocks`.
pub data Looped : Type 0 where
  goes_on : Fetching → Looped
  left : Fetching → Looped
  panicked : Looped

pub data Downloaded : Type 0 where
  downloaded : Bytes → Text → Downloaded
  download_failed : DownloadError → Downloaded
  crashed : Downloaded
  unfinished : Downloaded

-- The blocks that a peer has, of those that there are.
unfoldable pub peer_state : ℕ → PeerHandshake → PeerFetchState
peer_state total hs = record {
  available = collect_set (keep (λ idx. ltb idx total) hs.blocks_available);
  in_flight = [];
  failures = 0;
  bytes_received = 0;
}

unfoldable pub peer_states : ℕ → PeerStates → List PeerHandshake → PeerStates
unfolding peer_state
peer_states total peers [] = peers
peer_states total peers (hs ∷ handshakes) =
    peer_states total (insert peers hs.peer (peer_state total hs)) handshakes

unfoldable pub add_peers : ActiveDownload → List PeerHandshake → ActiveDownload
unfolding add_peer
add_peers d [] = d
add_peers d (hs ∷ handshakes) = add_peers (add_peer d hs.peer) handshakes

abbrev pub is_finished : BlockFetchState → Bool
is_finished complete = true
is_finished pending = false
is_finished (in_flight peer at) = false

-- `hash` is `nar_hash_bytes(nar_hash)`.
module _ (c : Crypto) (config : Config) (hash : Bytes) where
  abbrev pub max_in_flight : ℕ
  max_in_flight = max config.max_in_flight_blocks_per_peer 1

  abbrev pub stall_timeout : ℕ
  stall_timeout = 1000 * config.stall_timeout_secs

  unfoldable pub dispatch : ℕ → Fetching → Fetching
  unfolding dispatch_block_requests
  dispatch now f =
      let (peers', states', sent) =
        dispatch_block_requests now f.peers f.states hash max_in_flight in
      record f { peers = peers'; states = states'; requests = f.requests ++ sent }

  unfoldable pub requeue_expired : ℕ → Fetching → Fetching
  unfolding requeue_expired_blocks
  requeue_expired now f =
      let (peers', states', _) = requeue_expired_blocks now stall_timeout f.peers f.states in
      record f { peers = peers'; states = states' }

  -- Nothing is in flight, and a block is missing.
  unfoldable pub is_stuck : Fetching → Bool
  is_stuck f =
      nat_beq (sum (map (λ (p : PeerId × PeerFetchState). length p.1.in_flight) f.peers)) 0
      && not (all is_finished f.states)

  -- After `record_block_response`: new blocks put off the stall, and a complete download ends the loop.
  unfoldable pub after_response :
      ℕ → Fetching → Option (ActiveDownload × PeerStates × List BlockFetchState × ℕ) → Looped
  unfolding is_complete
  after_response now f none = panicked
  after_response now f (some (download', peers', states', newly_accepted)) =
      let g : Fetching = record f {
        download = download';
        peers = peers';
        states = states';
        stall_deadline = if ltb 0 newly_accepted then now + stall_timeout else f.stall_deadline;
      } in
      if is_complete download' then left g else goes_on g

  unfoldable pub on_block_notice : ℕ → Fetching → BlockNotice → Looped
  unfolding after_response record_block_response requeue_in_flight_blocks_for_peer
  on_block_notice now f (blocks_from peer blks) =
      after_response now f (record_block_response c f.download f.peers f.states peer blks)
  on_block_notice now f (request_failed peer) =
      let (peers', states', _) = requeue_in_flight_blocks_for_peer f.peers f.states peer in
      goes_on (record f { peers = peers'; states = states' })
  on_block_notice now f nothing_new = goes_on f
  on_block_notice now f bus_closed = left f

  -- One turn before its deadline.
  unfoldable pub block_turn : Fetching → BlockTurn → Looped
  unfolding dispatch requeue_expired is_stuck on_block_notice
  block_turn f t =
      let g = dispatch t.begins (requeue_expired t.begins f) in
      if ltb g.stall_deadline t.begins || is_stuck g
      then left g
      else on_block_notice t.received g t.notice

  -- The loop; it goes on where the turns run out.
  unfoldable pub block_loop : ℕ → Looped → List BlockTurn → Looped
  unfolding block_turn
  block_loop overall_deadline (left f) turns = left f
  block_loop overall_deadline panicked turns = panicked
  block_loop overall_deadline (goes_on f) [] = goes_on f
  block_loop overall_deadline (goes_on f) (t ∷ turns) =
      block_loop overall_deadline (if leb overall_deadline t.begins then left f else block_turn f t)
        turns

  unfoldable pub conclude_download : Assembled → Downloaded
  conclude_download (ok nar) = downloaded nar (chars "sha256:" ++ c.hex (c.sha256 nar))
  conclude_download (err e) = download_failed e
  conclude_download too_large = crashed

  unfoldable pub after_loop : Looped → Downloaded
  unfolding is_complete assemble conclude_download
  after_loop (goes_on f) = unfinished
  after_loop panicked = crashed
  after_loop (left f) =
      if is_complete f.download
      then conclude_download (assemble c f.download)
      else download_failed incomplete

  -- The state before the loop.
  unfoldable pub begin_fetching : ℕ → List PeerHandshake → ℕ → BlockInfo → Text → Fetching
  unfolding new add_peers peer_states dispatch
  begin_fetching now handshakes nar_size info nar_hash = dispatch now (record {
    download = add_peers (new now nar_hash nar_size info [] []) handshakes;
    peers = peer_states info.block_count [] handshakes;
    states = replicate info.block_count pending;
    stall_deadline = now + stall_timeout;
    requests = [];
  })

  unfoldable pub overall_deadline : ℕ → ℕ → ℕ
  unfolding block_download_overall_timeout_secs
  overall_deadline now nar_size =
      now
      + 1000
        * block_download_overall_timeout_secs config.request_timeout_secs config.stall_timeout_secs
            nar_size

  unfoldable pub download_blocks_from_peers :
      ℕ → List PeerHandshake → ℕ → BlockInfo → Text → List BlockTurn → Downloaded
  unfolding begin_fetching overall_deadline block_loop after_loop
  download_blocks_from_peers now handshakes nar_size info nar_hash turns = after_loop (
      block_loop (overall_deadline now nar_size)
        (goes_on (begin_fetching now handshakes nar_size info nar_hash)) turns)
