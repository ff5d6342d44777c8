-- ===== src/Swarm/Block.antt =====
-- src/swarm/block.rs: how a NAR is cut into blocks. `usize` has 64 bits.
pub mod Chunks
pub mod Layout
use guix_p2p.Prelude.{
  ℕ, zero, suc, ◌+◌, ◌/◌, ◌%◌, ◌^◌, ◌≡◌, ◌||◌, min, max, Bool, true, false, Option, none, some,
  List, [], ◌∷◌, ◌++◌, map, ltb, length, take, drop, if◌then◌else◌, ◌==◌, nat_eq, text_eq,
}
use guix_p2p.Crypto.{Bytes, Text, Crypto}
use guix_p2p.Text.{chars, strip_prefix}

abbrev pub u32_mod : ℕ
u32_mod = 2 ^ 32

abbrev pub usize_mod : ℕ
usize_mod = 2 ^ 64

abbrev pub default_block_size : ℕ
default_block_size = 262144

pub record BlockInfo : Type 0 where
  pub block_count : ℕ
  pub block_size : ℕ
  pub last_block_size : ℕ
  pub block_hashes : List Bytes

-- `none` is the failed assertion `block_size > 0`.
unfoldable pub from_file_size : ℕ → ℕ → Option BlockInfo
from_file_size file_size block_size =
    let effective = max file_size 1 in
    let bs = min block_size effective in
    let full_blocks = effective / bs in
    let remainder = effective % bs in
    if ltb 0 block_size
    then some (record {
      block_count = (if ltb 0 remainder then full_blocks + 1 else full_blocks) % u32_mod;
      block_size = bs;
      last_block_size = (if ltb 0 remainder then remainder else bs);
      block_hashes = [];
    })
    else none

unfoldable pub set_hashes : BlockInfo → List Bytes → BlockInfo
set_hashes info hashes = record info { block_hashes = hashes }

-- `data.chunks(n)`, for `n > 0`; the fuel is the number of bytes.
unfoldable pub chunks_fuel : ℕ → ℕ → Bytes → List Bytes
chunks_fuel zero n bytes = []
chunks_fuel (suc f) n [] = []
chunks_fuel (suc f) n (b ∷ bytes) = take n (b ∷ bytes) ∷ chunks_fuel f n (drop n (b ∷ bytes))

unfoldable pub chunks : ℕ → Bytes → List Bytes
unfolding chunks_fuel
chunks n bytes = chunks_fuel (length bytes) n bytes

module _ (c : Crypto) where
  unfoldable pub compute_block_hashes : Bytes → ℕ → List Bytes
  compute_block_hashes bytes block_size = map c.sha256 (chunks block_size bytes)

  unfoldable pub with_hashes : BlockInfo → Bytes → BlockInfo
  unfolding compute_block_hashes
  with_hashes info bytes = record info { block_hashes = compute_block_hashes bytes info.block_size }

  unfoldable pub verify_nar : Bytes → Text → Bool
  unfolding strip_prefix
  verify_nar bytes expected_hex_hash =
      let got = c.hex (c.sha256 bytes) in
      let expected : Text = elim (strip_prefix (chars "sha256:") expected_hex_hash) [
        | none ↦ expected_hex_hash
        | some rest ↦ rest
      ] in
      got == expected || chars "sha256:" ++ got == expected_hex_hash
