-- ===== src/Download/Authentic.antt =====
-- src/daemon.rs: what `try_p2p_download` returns.
use guix_p2p.Prelude.{
  ℕ, ◌<◌, ◌≡◌, ◌⊎◌, Option, none, some, List, [], ◌∷◌, ◌++◌, ltb, nat_beq, if◌then◌else◌, ltb→lt,
  if_both, if_either, nat_beq_sound, nat_eq, text_beq, text_eq, Outcome, panics, returns, length,
}
use guix_p2p.Crypto.{Bytes, Text, Crypto}
use guix_p2p.Text.{chars}
use guix_p2p.Config.{Config}
use guix_p2p.NarHash.{sha256_vec}
use guix_p2p.Swarm.Codec.{PeerId}
use guix_p2p.Swarm.Block.{BlockInfo, from_file_size}
use guix_p2p.Providers.{wait_for_providers}
use guix_p2p.Reputation.{ReputationTracker, Scoring}
use guix_p2p.Connection.{ConnectionManager}
use guix_p2p.Download.Handshake.{PeerHandshake}
use guix_p2p.Download.Blocks.{
  Downloaded, overall_deadline, download_blocks_from_peers, downloaded, download_failed, crashed,
  unfinished,
}
use guix_p2p.Download.Verified.{Right, download_blocks_from_peers-Right}
use guix_p2p.Download.Peers.{
  contact_selected, find_selected, contact_fallback, P2pWorld, P2pRequest, P2pResult, P2pRun,
  Contacted, fallback_source, finish_run, after_download, download_with, download_by,
  with_first_hashes, layout_of, after_contact, with_selected, try_p2p_download, got, not_enough,
  no_handshakes, swarm_failed, p2p_crashed, p2p_unfinished,
}

module _ (c : Crypto) (scoring : Scoring) (peer_of : Text → Option PeerId)
    (sort : List PeerId → List PeerId) (config : Config) (w : P2pWorld) (r : P2pRequest) where
  -- A NAR of the wanted hash and size; a failure that is no NAR; too few handshakes.
  abbrev pub Authentic : P2pResult → Type 0
  Authentic (got nar source) =
      ((c.hex (c.sha256 nar) ≡ r.nar_hash) ⊎ (chars "sha256:" ++ c.hex (c.sha256 nar) ≡ r.nar_hash))
      × ((r.nar_size ≡ 0) ⊎ (length nar ≡ r.nar_size))
  Authentic (not_enough have_n need) = have_n < need
  Authentic no_handshakes = r.nar_size ≡ 0
  Authentic (swarm_failed e) = Unit
  Authentic p2p_crashed = Unit
  Authentic p2p_unfinished = Unit

  after_download-Authentic :
      (t : Contacted) (info : BlockInfo) (hash : Bytes) (deadline : ℕ) (d : Downloaded)
      → Right c r.nar_hash r.nar_size info config hash deadline w.download_turns d
      → Authentic (after_download c scoring peer_of sort config w r t d).result
  unfolding after_download finish_run
  after_download-Authentic t info hash deadline (downloaded nar text) h = (h.0, h.1)
  after_download-Authentic t info hash deadline (download_failed e) h = tt
  after_download-Authentic t info hash deadline crashed h = tt
  after_download-Authentic t info hash deadline unfinished h = tt

  download_with-Authentic :
      (t : Contacted) (info : BlockInfo) (o : Outcome Bytes)
      → Authentic (download_with c scoring peer_of sort config w r t info o).result
  unfolding download_with finish_run
  download_with-Authentic t info panics = tt
  download_with-Authentic t info (returns hash) =
      after_download-Authentic t info hash
        (overall_deadline c config hash w.download_start r.nar_size)
        (download_blocks_from_peers c config hash w.download_start t.handshakes r.nar_size info
          r.nar_hash w.download_turns)
        (download_blocks_from_peers-Right c r.nar_hash r.nar_size info config hash w.download_start
          t.handshakes w.download_turns)

  download_by-Authentic :
      (t : Contacted) (o : Option BlockInfo)
      → Authentic (download_by c scoring peer_of sort config w r t o).result
  unfolding download_by finish_run
  download_by-Authentic t none = tt
  download_by-Authentic t (some info) = download_with-Authentic t info (sha256_vec c r.nar_hash)

  abbrev Fine : P2pRun → Type 0
  Fine run = Authentic run.result

  layout_of-Authentic :
      (t : Contacted) (hs : List PeerHandshake)
      → Fine (layout_of c scoring peer_of sort config w r t hs)
  unfolding layout_of finish_run
  layout_of-Authentic t [] =
      if_either Fine (nat_beq r.nar_size 0) (λ e. nat_beq_sound r.nar_size 0 e)
        (λ e. download_by-Authentic t (from_file_size r.nar_size config.block_size))
  layout_of-Authentic t (first ∷ rest) =
      if_both Fine (nat_beq r.nar_size 0)
        (download_by-Authentic t (
          some (record {
            block_count = first.block_count;
            block_size = config.block_size;
            last_block_size = config.block_size;
            block_hashes = first.block_hashes;
          })))
        (download_by-Authentic t (
          with_first_hashes c scoring peer_of sort config w r (first ∷ rest)
            (from_file_size r.nar_size config.block_size)))

  after_contact-Authentic :
      (reputation : ReputationTracker) (connections : ConnectionManager) (o : Option Contacted)
      → Fine (after_contact c scoring peer_of sort config w r reputation connections o)
  unfolding after_contact finish_run
  after_contact-Authentic reputation connections none = tt
  after_contact-Authentic reputation connections (some t) =
      let enough = if text_beq t.source fallback_source then 1 else config.min_providers in
      if_either Fine (ltb (length t.handshakes) enough)
        (λ few. ltb→lt (length t.handshakes) enough few)
        (λ many. layout_of-Authentic t t.handshakes)

  with_selected-Authentic :
      (reputation : ReputationTracker) (connections : ConnectionManager) (o : Option (List PeerId))
      → Fine (with_selected c scoring peer_of sort config w r reputation connections o)
  unfolding with_selected
  with_selected-Authentic reputation connections none =
      after_contact-Authentic reputation connections none
  with_selected-Authentic reputation connections (some selected) =
      after_contact-Authentic reputation connections (
        contact_fallback c scoring peer_of sort config w r selected
          (contact_selected c scoring peer_of sort config w r selected reputation connections))

  -- Whatever the peers answer, `try_p2p_download` returns only a NAR whose SHA-256 text is the wanted
  -- one, with or without the prefix `sha256:`, and whose length is the stated size, where one is stated;
  -- where it gives up for too few handshakes, it has fewer than it names as needed, and where it gives
  -- up for no handshakes, no size is stated.
  pub try_p2p_download-Authentic :
      (reputation : ReputationTracker) (connections : ConnectionManager)
      → Authentic (try_p2p_download c scoring peer_of sort config w r reputation connections).result
  unfolding try_p2p_download
  try_p2p_download-Authentic reputation connections =
      let discovered =
        wait_for_providers config w.cached w.lookup_start r.provider_timeout (c.hex r.hash)
          w.lookup_notices in
      with_selected-Authentic reputation connections
        (find_selected c scoring peer_of sort config w r discovered reputation connections)
