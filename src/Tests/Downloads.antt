-- ===== src/Tests/Downloads.antt =====
-- src/swarm/downloader.rs and src/daemon.rs: downloads of three blocks, and the dispatch of requests.
use guix_p2p.Prelude.{
  ℕ, zero, suc, ◌*◌, ◌<◌, ◌≡◌, refl, sym, ◌≢◌, ◌↔◌, ◌⊎◌, Option, none, some, List, [], ◌∷◌, ◌++◌,
  map, arith, nat_eq, text_eq, length, get_elem?, take, lookup,
}
use guix_p2p.Crypto.{Bytes}
use guix_p2p.Text.{chars}
use guix_p2p.Swarm.Block.{BlockInfo}
use guix_p2p.Swarm.Block.Chunks.{concat}
use guix_p2p.Swarm.Block.Layout.{block_count_iff}
use guix_p2p.Swarm.Downloader.{
  DownloadResult, ActiveDownload, is_some, record_blocks, is_complete, gather, assemble, ok,
}
use guix_p2p.Swarm.Downloader.Integrity.{IsVerified, record_blocks-IsVerified}
use guix_p2p.Swarm.Downloader.Acceptance.{
  Extends, record_blocks-Extends, record_blocks_total, record_blocks_panics,
}
use guix_p2p.Swarm.Downloader.Assembly.{is_complete-gather, assemble-verified, assemble-blocks}
use guix_p2p.Scheduler.{PeerStates}
use guix_p2p.Tests.Sample.{padding, nar, digest, layout, layout_lem}

-- A layout with its hashes, and one whose last hash is missing.
abbrev pub hashed : BlockInfo
hashed = record layout {
  block_hashes = digest (1 ∷ 2 ∷ []) ∷ digest (3 ∷ 4 ∷ []) ∷ digest (5 ∷ []) ∷ [];
}

abbrev unhashed : BlockInfo
unhashed = record layout { block_hashes = digest (1 ∷ 2 ∷ []) ∷ digest (3 ∷ 4 ∷ []) ∷ [] }

abbrev vacant : BlockInfo → ActiveDownload
vacant info = record {
  nar_hash_hex = padding.hex (padding.sha256 nar);
  nar_size = 5;
  block_info = info;
  dest_path = [];
  store_path = [];
  receivers = (7, record { blocks = none ∷ none ∷ none ∷ [] }) ∷ [];
  started = 0;
}

abbrev filled : ActiveDownload
filled = record (vacant hashed) {
  receivers =
      (7, record { blocks = some (1 ∷ 2 ∷ []) ∷ some (3 ∷ 4 ∷ []) ∷ some (5 ∷ []) ∷ [] }) ∷ [];
}

-- A block out of order, a corrupt one, the others, and one twice.
abbrev sent : List (ℕ × Bytes)
sent = (2, 5 ∷ []) ∷ (0, 9 ∷ 9 ∷ []) ∷ (0, 1 ∷ 2 ∷ []) ∷ (1, 3 ∷ 4 ∷ []) ∷ (0, 1 ∷ 2 ∷ []) ∷ []

run : record_blocks padding (vacant hashed) 7 sent ≡ some (filled, 2 ∷ 0 ∷ 1 ∷ [])
unfolding record_blocks
run = refl

no_block :
    (i : ℕ) (b : Bytes)
    → get_elem? {A = Option Bytes} (none ∷ none ∷ none ∷ []) i ≡ some (some b)
    → ⊥
no_block zero b e = ground arith
no_block (suc zero) b e = ground arith
no_block (suc (suc zero)) b e = ground arith
no_block (suc (suc (suc i))) b e = ground arith

vacant-IsVerified : (info : BlockInfo) → info.block_count ≡ 3 → IsVerified padding (vacant info)
vacant-IsVerified info e = (record { slots = sym e; stored = λ i b h. absurd (no_block i b h) }, tt)

record_blocks-IsVerified_example :
    IsVerified padding filled × (filled.block_info ≡ (vacant hashed).block_info)
record_blocks-IsVerified_example =
    record_blocks-IsVerified padding (vacant hashed) filled 7 sent (2 ∷ 0 ∷ 1 ∷ [])
      (vacant-IsVerified hashed refl) run

record_blocks-Extends_example :
    (r' : DownloadResult) × (lookup filled.receivers 7 ≡ some r')
    × Extends (record { blocks = none ∷ none ∷ none ∷ [] }) [] r' (2 ∷ 0 ∷ 1 ∷ [])
record_blocks-Extends_example =
    record_blocks-Extends padding (vacant hashed) filled 7
      (record { blocks = none ∷ none ∷ none ∷ [] }) sent (2 ∷ 0 ∷ 1 ∷ []) refl run

record_blocks_total_example : record_blocks padding (vacant hashed) 7 sent ≢ none
record_blocks_total_example =
    record_blocks_total padding (vacant hashed) 7 sent (vacant-IsVerified hashed refl) (omega arith)

record_blocks_panics_example : record_blocks padding (vacant unhashed) 7 ((2, 5 ∷ []) ∷ []) ≡ none
record_blocks_panics_example =
    record_blocks_panics padding (vacant unhashed) 7 (record { blocks = none ∷ none ∷ none ∷ [] }) 2
      (5 ∷ []) [] (vacant-IsVerified unhashed refl) refl (omega arith) (omega arith) (omega arith)

assembled : assemble padding filled ≡ ok nar
unfolding assemble
assembled = refl

filled-IsVerified : IsVerified padding filled
filled-IsVerified =
    (record_blocks-IsVerified padding (vacant hashed) filled 7 sent (2 ∷ 0 ∷ 1 ∷ [])
      (vacant-IsVerified hashed refl) run).0

is_complete-gather_example : is_complete filled ≡ is_some (gather filled.receivers 0 3)
is_complete-gather_example = is_complete-gather padding filled filled-IsVerified

assemble-verified_example :
    ((padding.hex (padding.sha256 nar) ≡ filled.nar_hash_hex)
      ⊎ (chars "sha256:" ++ padding.hex (padding.sha256 nar) ≡ filled.nar_hash_hex))
    × ((filled.nar_size ≡ 0) ⊎ (length nar ≡ filled.nar_size))
assemble-verified_example = assemble-verified padding filled nar assembled

assemble-blocks_example :
    (parts : List Bytes) × (nar ≡ concat parts)
    × (map padding.sha256 parts ≡ take 3 hashed.block_hashes)
assemble-blocks_example = assemble-blocks padding filled nar filled-IsVerified assembled

block_count_iff_example : (2 < layout.block_count) ↔ (2 * 2 < 5)
block_count_iff_example = block_count_iff 5 2 2 layout layout_lem (omega arith) (omega arith)

-- Two peers, one of them with a request out.
abbrev peers : PeerStates
peers =
    (1, record { available = 0 ∷ 1 ∷ []; in_flight = []; failures = 0; bytes_received = 0 })
    ∷ (2, record { available = 0 ∷ 2 ∷ []; in_flight = 5 ∷ []; failures = 0; bytes_received = 0 })
    ∷ []
