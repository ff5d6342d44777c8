-- ===== src/Swarm/Downloader.antt =====
-- src/swarm/downloader.rs: the verified blocks of one download, and their assembly. The clock of
-- `started` is a number that the caller passes in.
pub mod Integrity
pub mod Acceptance
pub mod Assembly
use guix_p2p.Prelude.{
  ◌^◌, nat_eq, text_eq, ℕ, zero, suc, ◌+◌, ◌-◌, ◌*◌, ◌/◌, ◌%◌, Bool, true, false, not, ◌&&◌, ◌||◌,
  Option, none, some, List, [], ◌∷◌, ◌++◌, ltb, if◌then◌else◌, ◌==◌, length, get_elem?, set,
  replicate, any, all, range_from, Map, lookup, insert, modify,
}
use guix_p2p.Crypto.{Bytes, Text, Crypto}
use guix_p2p.Text.{chars}
use guix_p2p.Swarm.Codec.{PeerId}
use guix_p2p.Swarm.Block.{BlockInfo, u32_mod}

pub data DownloadError : Type 0 where
  incomplete hash_mismatch : DownloadError

pub record DownloadResult : Type 0 where
  pub blocks : List (Option Bytes)

pub record ActiveDownload : Type 0 where
  pub nar_hash_hex : Text
  pub nar_size : ℕ
  pub block_info : BlockInfo
  pub dest_path : Text
  pub store_path : Text
  pub receivers : Map PeerId DownloadResult
  pub started : ℕ

unfoldable pub new : ℕ → Text → ℕ → BlockInfo → Text → Text → ActiveDownload
new now nar_hash_hex nar_size block_info dest_path store_path = record {
  nar_hash_hex = nar_hash_hex;
  nar_size = nar_size;
  block_info = block_info;
  dest_path = dest_path;
  store_path = store_path;
  receivers = [];
  started = now;
}

unfoldable pub add_peer : ActiveDownload → PeerId → ActiveDownload
add_peer d peer =
    let fresh : DownloadResult = record { blocks = replicate d.block_info.block_count none } in
    record d { receivers = insert d.receivers peer fresh }

-- `blocks[i].is_none()`, and `blocks[i].as_ref()`. The indices that the code uses are in range.
abbrev pub is_vacant : DownloadResult → ℕ → Bool
is_vacant r i = elim (get_elem? r.blocks i) [ some none ↦ true | _ ↦ false ]

abbrev pub block_of : DownloadResult → ℕ → Option Bytes
block_of r i = elim (get_elem? r.blocks i) [ some (some b) ↦ some b | _ ↦ none ]

abbrev pub is_some {ℓ} : {A : Type ℓ} → Option A → Bool
is_some none = false
is_some (some a) = true

module _ (c : Crypto) where
  -- One round of the loop of `record_blocks`. `none` is the panic of `block_hashes[idx]` where the
  -- layout has fewer hashes than blocks.
  unfoldable pub accept_block :
      List Bytes → DownloadResult → List ℕ → ℕ → Bytes → Option (DownloadResult × List ℕ)
  accept_block hashes r accepted idx bytes =
      if ltb idx (length r.blocks % u32_mod)
      then elim (get_elem? hashes idx) [
        | none ↦ none
        | some expected ↦
            if c.sha256 bytes == expected && is_vacant r idx
            then some (record r { blocks = set r.blocks idx (some bytes) }, accepted ++ idx ∷ [])
            else some (r, accepted)
      ]
      else some (r, accepted)

  unfoldable pub accept_blocks :
      List Bytes → DownloadResult → List ℕ → List (ℕ × Bytes) → Option (DownloadResult × List ℕ)
  unfolding accept_block
  accept_blocks hashes r accepted [] = some (r, accepted)
  accept_blocks hashes r accepted ((idx, bytes) ∷ blocks) =
      elim (accept_block hashes r accepted idx bytes) [
        | none ↦ none
        | some (r', accepted') ↦ accept_blocks hashes r' accepted' blocks
      ]

  -- `none` is a panic.
  unfoldable pub record_blocks :
      ActiveDownload → PeerId → List (ℕ × Bytes) → Option (ActiveDownload × List ℕ)
  unfolding accept_blocks
  record_blocks d peer blocks = elim (lookup d.receivers peer) [
    | none ↦ some (d, [])
    | some r ↦ elim (accept_blocks d.block_info.block_hashes r [] blocks) [
      | none ↦ none
      | some (r', accepted) ↦
          some (record d { receivers = modify d.receivers peer (λ _. r') }, accepted)
    ]
  ]

-- `receivers.values().any(|r| r.blocks[i].is_some())`, `receivers.values().find_map(..)`.
abbrev pub any_has : Map PeerId DownloadResult → ℕ → Bool
any_has receivers i = any (λ p. is_some (block_of p.1 i)) receivers

abbrev pub find_block : Map PeerId DownloadResult → ℕ → Option Bytes
find_block [] i = none
find_block ((p, r) ∷ receivers) i = elim (block_of r i) [
  | none ↦ find_block receivers i
  | some b ↦ some b
]

unfoldable pub is_complete : ActiveDownload → Bool
is_complete d =
    any (λ p. all is_some p.1.blocks) d.receivers
    || all (any_has d.receivers) (range_from 0 d.block_info.block_count)

-- The loop of `assemble`: `n` blocks from index `i` on.
unfoldable pub gather : Map PeerId DownloadResult → ℕ → ℕ → Option Bytes
gather receivers i zero = some []
gather receivers i (suc n) = elim (find_block receivers i) [
  | none ↦ none
  | some b ↦ elim (gather receivers (suc i) n) [ none ↦ none | some rest ↦ some (b ++ rest) ]
]

-- `too_large` is the panic of `Vec::with_capacity`.
pub data Assembled : Type 0 where
  ok : Bytes → Assembled
  err : DownloadError → Assembled
  too_large : Assembled

-- A vector of bytes has at most `isize::MAX` of them.
abbrev pub capacity_mod : ℕ
capacity_mod = 2 ^ 63

module _ (c : Crypto) where
  -- `got != expected && "sha256:" + got != expected` is the mismatch.
  unfoldable pub check_nar : ActiveDownload → Bytes → Assembled
  check_nar d nar =
      let got = c.hex (c.sha256 nar) in
      if ltb 0 d.nar_size && not (length nar == d.nar_size)
      then err incomplete
      else if not (got == d.nar_hash_hex) && not (chars "sha256:" ++ got == d.nar_hash_hex)
      then err hash_mismatch
      else ok nar

  -- The blocks that were joined, if none was missing.
  unfoldable pub check_joined : ActiveDownload → Option Bytes → Assembled
  unfolding check_nar
  check_joined d none = err incomplete
  check_joined d (some nar) = check_nar d nar

  unfoldable pub assemble : ActiveDownload → Assembled
  unfolding gather check_joined
  assemble d =
      if ltb d.nar_size capacity_mod
      then check_joined d (gather d.receivers 0 d.block_info.block_count)
      else too_large
