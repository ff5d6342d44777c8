-- ===== src/Download/Verified.antt =====
-- src/daemon.rs: what `download_blocks_from_peers` returns, and that it ends by its deadline.
use guix_p2p.Prelude.{
  ◌≢◌, ltb→le, ltb, ◌||◌, ◌⊎◌, ◌++◌, refl, if_either, if_both, false, any, ℕ, ◌≤◌, ◌<◌, ◌≡◌, sym,
  subst, ◌∙◌, inl, inr, Option, none, some, List, [], ◌∷◌, arith, leb, leb→le, leb→lt, Bool-cases,
  Option-cases, nat_eq, text_eq, length, lookup,
}
use guix_p2p.Crypto.{Bytes, Text, Crypto}
use guix_p2p.Text.{chars}
use guix_p2p.Config.{Config}
use guix_p2p.Swarm.Codec.{PeerId}
use guix_p2p.Swarm.Block.{BlockInfo}
use guix_p2p.Swarm.Downloader.{
  new, ok, err, too_large, capacity_mod, gather, check_nar, check_joined, is_complete, assemble,
  Assembled, ActiveDownload, add_peer, accept_blocks, record_blocks,
}
use guix_p2p.Swarm.Downloader.Integrity.{IsVerified, add_peer-IsVerified, record_blocks-IsVerified}
use guix_p2p.Swarm.Downloader.Acceptance.{record_blocks_total}
use guix_p2p.Swarm.Downloader.Assembly.{assemble-verified}
use guix_p2p.Scheduler.{after_record, decode_block_data, record_block_response}
use guix_p2p.Download.Handshake.{PeerHandshake}
use guix_p2p.Download.Blocks.{
  unfinished, crashed, download_failed, nothing_new, request_failed, bus_closed, is_stuck,
  overall_deadline, blocks_from, requeue_expired, downloaded, begin_fetching, BlockNotice, dispatch,
  Downloaded, download_blocks_from_peers, conclude_download, BlockTurn, block_turn, after_loop,
  block_loop, on_block_notice, Fetching, Looped, add_peers, after_response, goes_on, left, panicked,
}

module _ (c : Crypto) (nar_hash : Text) (nar_size : ℕ) (info : BlockInfo) where
  -- The download is for this NAR, and has verified blocks only.
  pub record Holds (d : ActiveDownload) : Type 0 where
    pub verified : IsVerified c d
    pub hash_same : d.nar_hash_hex ≡ nar_hash
    pub size_same : d.nar_size ≡ nar_size
    pub layout_same : d.block_info ≡ info

  -- The layout has fewer hashes than blocks.
  abbrev pub IsShort : Type 0
  IsShort = length info.block_hashes < info.block_count

  record_blocks_keeps :
      (d d' : ActiveDownload) (peer : PeerId) (blocks : List (ℕ × Bytes)) (accepted : List ℕ)
      → record_blocks c d peer blocks ≡ some (d', accepted)
      → (d'.nar_hash_hex ≡ d.nar_hash_hex) × (d'.nar_size ≡ d.nar_size)
  unfolding record_blocks
  record_blocks_keeps d d' peer blocks accepted e = elim (Option-cases (lookup d.receivers peer)) [
    | inl stranger ↦ ground arith
    | inr (r, known) ↦ elim (Option-cases (accept_blocks c d.block_info.block_hashes r [] blocks)) [
      | inl fault ↦ absurd (ground arith)
      | inr ((r', a), step) ↦ ground arith
    ]
  ]

  record_blocks-Holds :
      (d d' : ActiveDownload) (peer : PeerId) (blocks : List (ℕ × Bytes)) (accepted : List ℕ)
      → Holds d
      → record_blocks c d peer blocks ≡ some (d', accepted)
      → Holds d'
  record_blocks-Holds d d' peer blocks accepted h e =
      let (verified, layout) = record_blocks-IsVerified c d d' peer blocks accepted h.verified e in
      let (hash, size) = record_blocks_keeps d d' peer blocks accepted e in
      record {
        verified = verified;
        hash_same = hash ∙ h.hash_same;
        size_same = size ∙ h.size_same;
        layout_same = layout ∙ h.layout_same;
      }

  record_blocks-IsShort :
      (d : ActiveDownload) (peer : PeerId) (blocks : List (ℕ × Bytes))
      → Holds d
      → record_blocks c d peer blocks ≡ none
      → IsShort
  record_blocks-IsShort d peer blocks h e =
      elim (Bool-cases (leb info.block_count (length info.block_hashes))) [
        | inl enough ↦
            let fits = leb→le info.block_count (length info.block_hashes) enough in
            let fits' =
              subst (λ (i : BlockInfo). i.block_count ≤ length i.block_hashes) (sym h.layout_same)
                fits in
            absurd (record_blocks_total c d peer blocks h.verified fits' e)
        | inr short ↦ leb→lt info.block_count (length info.block_hashes) short
      ]

  add_peers-Holds :
      (d : ActiveDownload) (hs : List PeerHandshake) → Holds d → Holds (add_peers d hs)
  unfolding add_peers add_peer
  add_peers-Holds d [] h = h
  add_peers-Holds d (x ∷ hs) h = add_peers-Holds (add_peer d x.peer) hs (record {
    verified = add_peer-IsVerified c d x.peer h.verified;
    hash_same = h.hash_same;
    size_same = h.size_same;
    layout_same = h.layout_same;
  })

  check_joined-returns : (d : ActiveDownload) (o : Option Bytes) → check_joined c d o ≢ too_large
  unfolding check_joined check_nar
  check_joined-returns d none e = ground (arith, e)
  check_joined-returns d (some nar) e = ground (arith, e)

  too_large-size : (d : ActiveDownload) → assemble c d ≡ too_large → capacity_mod ≤ d.nar_size
  unfolding assemble
  too_large-size d e = elim (Bool-cases (ltb d.nar_size capacity_mod)) [
    | inr large ↦ ltb→le d.nar_size capacity_mod large
    | inl small ↦ absurd (
        check_joined-returns d (gather d.receivers 0 d.block_info.block_count)
          (ground (arith, e, small)))
  ]

  -- What a turn leaves.
  abbrev Left : Looped → Type 0
  Left (goes_on f) = Holds f.download
  Left (left f) = Holds f.download
  Left panicked = IsShort

  module _ (config : Config) (hash : Bytes) where
    after_record-Left :
        (now : ℕ) (f : Fetching) (peer : PeerId) (blocks : List (ℕ × Bytes))
        (o : Option (ActiveDownload × List ℕ))
        → record_blocks c f.download peer blocks ≡ o
        → Holds f.download
        → Left (after_response c config hash now f (after_record f.peers f.states peer blocks o))
    unfolding after_response after_record
    after_record-Left now f peer blocks none e h = record_blocks-IsShort f.download peer blocks h e
    after_record-Left now f peer blocks (some (d', accepted)) e h =
        let h' = record_blocks-Holds f.download d' peer blocks accepted h e in
        if_both Left (is_complete d') h' h'

    on_block_notice-Left :
        (now : ℕ) (f : Fetching) (n : BlockNotice)
        → Holds f.download
        → Left (on_block_notice c config hash now f n)
    unfolding on_block_notice record_block_response
    on_block_notice-Left now f (blocks_from peer blks) h =
        let blocks = decode_block_data blks in
        after_record-Left now f peer blocks (record_blocks c f.download peer blocks) refl h
    on_block_notice-Left now f (request_failed peer) h = h
    on_block_notice-Left now f nothing_new h = h
    on_block_notice-Left now f bus_closed h = h

    block_turn-Left :
        (f : Fetching) (t : BlockTurn) → Holds f.download → Left (block_turn c config hash f t)
    unfolding block_turn dispatch requeue_expired
    block_turn-Left f t h =
        let g = dispatch c config hash t.begins (requeue_expired c config hash t.begins f) in
        if_both Left (ltb g.stall_deadline t.begins || is_stuck c config hash g) h
          (on_block_notice-Left t.received g t.notice h)

    -- What the loop leaves behind the turns; it goes on only where none of them begins late.
    abbrev Ended : ℕ → List BlockTurn → Looped → Type 0
    Ended deadline turns (goes_on f) =
        Holds f.download × (any (λ (t : BlockTurn). leb deadline t.begins) turns ≡ false)
    Ended deadline turns (left f) = Holds f.download
    Ended deadline turns panicked = IsShort

    Ended-cons :
        (deadline : ℕ) (t : BlockTurn) (turns : List BlockTurn) (l : Looped)
        → leb deadline t.begins ≡ false
        → Ended deadline turns l
        → Ended deadline (t ∷ turns) l
    Ended-cons deadline t turns (goes_on f) early (h, none_late) = (h, rw early none_late)
    Ended-cons deadline t turns (left f) early h = h
    Ended-cons deadline t turns panicked early h = h

    block_loop-Ended :
        (deadline : ℕ) (turns : List BlockTurn) (l : Looped)
        → Left l
        → Ended deadline turns (block_loop c config hash deadline l turns)
    unfolding block_loop
    block_loop-Ended deadline turns (left f) h = h
    block_loop-Ended deadline turns panicked h = h
    block_loop-Ended deadline [] (goes_on f) h = (h, refl)
    block_loop-Ended deadline (t ∷ turns) (goes_on f) h =
        if_either (λ l. Ended deadline (t ∷ turns) (block_loop c config hash deadline l turns))
          (leb deadline t.begins) (λ late. h)
          (λ early.
            Ended-cons deadline t turns
              (block_loop c config hash deadline (block_turn c config hash f t) turns) early
              (block_loop-Ended deadline turns (block_turn c config hash f t)
                (block_turn-Left f t h)))

    -- A NAR of the stated hash and size, with its hash as a text; or a failure; a panic on a layout with
    -- fewer hashes than blocks, or on a size that no vector can have; or no end, where no turn begins at the deadline.
    abbrev pub Right : ℕ → List BlockTurn → Downloaded → Type 0
    Right deadline turns (downloaded nar text) =
        ((c.hex (c.sha256 nar) ≡ nar_hash) ⊎ (chars "sha256:" ++ c.hex (c.sha256 nar) ≡ nar_hash))
        × ((nar_size ≡ 0) ⊎ (length nar ≡ nar_size))
        × (text ≡ chars "sha256:" ++ c.hex (c.sha256 nar))
    Right deadline turns (download_failed e) = Unit
    Right deadline turns crashed = IsShort ⊎ (capacity_mod ≤ nar_size)
    Right deadline turns unfinished = any (λ (t : BlockTurn). leb deadline t.begins) turns ≡ false

    conclude_download-Right :
        (deadline : ℕ) (turns : List BlockTurn) (d : ActiveDownload) (a : Assembled)
        → Holds d
        → assemble c d ≡ a
        → Right deadline turns (conclude_download c config hash a)
    unfolding conclude_download
    conclude_download-Right deadline turns d (err e) h assembled = tt
    conclude_download-Right deadline turns d too_large h assembled =
        inr (subst (λ n. capacity_mod ≤ n) h.size_same (too_large-size d assembled))
    conclude_download-Right deadline turns d (ok nar) h assembled =
        let (digest, size) = assemble-verified c d nar assembled in
        (
          subst (λ n. (c.hex (c.sha256 nar) ≡ n) ⊎ (chars "sha256:" ++ c.hex (c.sha256 nar) ≡ n))
              h.hash_same digest,
          subst (λ n. (n ≡ 0) ⊎ (length nar ≡ n)) h.size_same size,
          refl,
        )

    after_loop-Right :
        (deadline : ℕ) (turns : List BlockTurn) (l : Looped)
        → Ended deadline turns l
        → Right deadline turns (after_loop c config hash l)
    unfolding after_loop
    after_loop-Right deadline turns (goes_on f) (h, none_late) = none_late
    after_loop-Right deadline turns panicked h = inl h
    after_loop-Right deadline turns (left f) h =
        if_both (Right deadline turns) (is_complete f.download)
          (conclude_download-Right deadline turns f.download (assemble c f.download) h refl) tt

    pub download_blocks_from_peers-Right :
        (now : ℕ) (handshakes : List PeerHandshake) (turns : List BlockTurn)
        → Right
            (overall_deadline c config hash now nar_size)
            turns
            (download_blocks_from_peers c config hash now handshakes nar_size info nar_hash turns)
    unfolding download_blocks_from_peers begin_fetching dispatch new
    download_blocks_from_peers-Right now handshakes turns =
        let deadline = overall_deadline c config hash now nar_size in
        let f = begin_fetching c config hash now handshakes nar_size info nar_hash in
        let fresh : Holds (new now nar_hash nar_size info [] []) = record {
          verified = tt;
          hash_same = refl;
          size_same = refl;
          layout_same = refl;
        } in
        let h = add_peers-Holds (new now nar_hash nar_size info [] []) handshakes fresh in
        after_loop-Right deadline turns (block_loop c config hash deadline (goes_on f) turns)
          (block_loop-Ended deadline turns (goes_on f) h)
