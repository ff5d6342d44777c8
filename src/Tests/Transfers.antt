-- ===== src/Tests/Transfers.antt =====
-- src/nar_store.rs and src/swarm/downloader.rs: a NAR of five bytes that is served and downloaded.
use guix_p2p.Prelude.{
  ℕ, zero, suc, ◌<◌, ◌≡◌, refl, true, some, List, [], ◌∷◌, arith, nat_eq, text_eq, contains,
}
use guix_p2p.Crypto.{Bytes}
use guix_p2p.Swarm.Codec.{BlockData, BlockResponse, handshake, get_blocks}
use guix_p2p.Swarm.Downloader.{ActiveDownload, record_blocks, is_complete, assemble, ok}
use guix_p2p.Scheduler.{decode_block_data}
use guix_p2p.NarStore.{handle_request}
use guix_p2p.NarStore.Transfer.{IsServable, start, transfer}
use guix_p2p.Tests.Sample.{padding, nar, layout, layout_lem, hash, entry, store, files}

sample-IsServable : IsServable 2 nar layout
sample-IsServable = record {
  layout = layout_lem;
  not_empty = omega arith;
  positive = omega arith;
  in_memory = omega arith;
  allocatable = omega arith;
  few_blocks = omega arith;
}

covers : (i : ℕ) → i < 3 → contains (2 ∷ 0 ∷ 0 ∷ 1 ∷ []) i ≡ true
covers zero h = refl
covers (suc zero) h = refl
covers (suc (suc zero)) h = refl
covers (suc (suc (suc i))) h = absurd (omega arith)

transfer_example :
    (hs : List Bytes) × (blks : List BlockData) × (d : ActiveDownload) × (accepted : List ℕ)
    × (handle_request padding store files (handshake hash)
        ≡ some (BlockResponse.handshake_reply (0 ∷ 1 ∷ 2 ∷ []) 3 2 hs))
    × (handle_request padding store files (get_blocks hash (2 ∷ 0 ∷ 0 ∷ 1 ∷ []))
        ≡ some (BlockResponse.blocks blks))
    × (record_blocks padding (start padding 0 7 nar layout hs) 7 (decode_block_data blks)
        ≡ some (d, accepted))
    × (is_complete d ≡ true)
    × (assemble padding d ≡ ok nar)
transfer_example =
    transfer padding store files hash nar entry (2 ∷ 0 ∷ 0 ∷ 1 ∷ []) 0 7 sample-IsServable refl refl
      (omega arith) covers
