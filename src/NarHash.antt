-- ===== src/NarHash.antt =====
-- src/nar_hash.rs: the SHA-256 bytes of a `NarHash` field, in hexadecimal or Nix's base 32. Texts
-- are read as their UTF-8 bytes.
pub mod Bounds
use Prim.Native.Nat.{bit_and, bit_or}
use guix_p2p.Prelude.{
  ℕ, suc, ◌+◌, ◌-◌, ◌*◌, ◌/◌, ◌%◌, ◌^◌, Bool, ◌&&◌, ◌||◌, Option, none, some, [], ◌∷◌, reverse, leb,
  nat_beq, if◌then◌else◌, ◌==◌, nat_eq, text_eq, Outcome, panics, returns, length, get_elem?, set,
  replicate, all,
}
use guix_p2p.Crypto.{Bytes, Text, Crypto}
use guix_p2p.Text.{chars, strip_prefix, utf8}

abbrev pub alphabet : Bytes
alphabet = chars "0123456789abcdfghijklmnpqrsvwxyz"

-- `ALPHABET.iter().position(|&c| c == chr)`
abbrev pub position_from : ℕ → Bytes → ℕ → Option ℕ
position_from i [] chr = none
position_from i (c ∷ cs) chr = if nat_beq c chr then some i else position_from (suc i) cs chr

unfoldable pub position : ℕ → Option ℕ
position chr = position_from 0 alphabet chr

-- `out[offset] |= v` panics out of range; `set_byte` does nothing there. Bytes have 8 bits.
unfoldable pub or_at : Bytes → ℕ → ℕ → Option Bytes
or_at out offset v = elim (get_elem? out offset) [
  | none ↦ none
  | some byte ↦ some (set out offset (bit_or byte (v % 256)))
]

unfoldable pub set_byte : Bytes → ℕ → ℕ → Bytes
set_byte out offset v = elim (get_elem? out offset) [
  | none ↦ out
  | some byte ↦ set out offset (bit_or byte v)
]

abbrev pub then_set : Option Bytes → ℕ → ℕ → Option Bytes
then_set none offset v = none
then_set (some out) offset v = some (set_byte out offset v)

unfoldable pub set_nix_base32_quintet : Bytes → ℕ → ℕ → Option Bytes
unfolding or_at set_byte
set_nix_base32_quintet out index value =
    let offset = index * 5 / 8 in
    let v = bit_and value 0x1f in
    let k = index % 8 in
    if nat_beq k 0
    then or_at out offset v
    else if nat_beq k 1
    then then_set (or_at out offset (bit_and v 0x07 * 2 ^ 5)) (offset + 1) (v / 2 ^ 3)
    else if nat_beq k 2
    then or_at out offset (v * 2 ^ 2)
    else if nat_beq k 3
    then then_set (or_at out offset (bit_and v 0x01 * 2 ^ 7)) (offset + 1) (v / 2 ^ 1)
    else if nat_beq k 4
    then then_set (or_at out offset (bit_and v 0x0f * 2 ^ 4)) (offset + 1) (v / 2 ^ 4)
    else if nat_beq k 5
    then or_at out offset (v * 2 ^ 1)
    else if nat_beq k 6
    then then_set (or_at out offset (bit_and v 0x03 * 2 ^ 6)) (offset + 1) (v / 2 ^ 2)
    else or_at out offset (v * 2 ^ 3)

-- The loop of `decode_nix_base32` over the reversed bytes, from `index` on.
unfoldable pub decode_from : Bytes → ℕ → Bytes → Outcome (Option Bytes)
unfolding position set_nix_base32_quintet
decode_from out index [] = returns (some out)
decode_from out index (chr ∷ rest) = elim (position chr) [
  | none ↦ returns none
  | some value ↦ elim (set_nix_base32_quintet out index value) [
    | none ↦ panics
    | some out' ↦ decode_from out' (suc index) rest
  ]
]

unfoldable pub decode_nix_base32 : Bytes → Outcome (Option Bytes)
unfolding decode_from
decode_nix_base32 input = decode_from (replicate (length input * 5 / 8) 0) 0 (reverse input)

abbrev pub is_ascii_hexdigit : ℕ → Bool
is_ascii_hexdigit c =
    leb b'0' c && leb c b'9' || (leb b'A' c && leb c b'F' || leb b'a' c && leb c b'f')

-- `bytes.try_into()`, into an array of 32.
abbrev pub into_array : Option Bytes → Option Bytes
into_array none = none
into_array (some b) = if nat_beq (length b) 32 then some b else none

unfoldable pub sha256_bytes : Crypto → Text → Outcome (Option Bytes)
unfolding strip_prefix utf8 decode_nix_base32
sha256_bytes c nar_hash =
    let hash : Text = elim (strip_prefix (chars "sha256:") nar_hash) [
      | none ↦ nar_hash
      | some rest ↦ rest
    ] in
    if nat_beq (length (utf8 hash)) 64 && all is_ascii_hexdigit hash
    then returns (into_array (c.unhex hash))
    else elim (decode_nix_base32 (utf8 hash)) [
      | panics ↦ panics
      | returns decoded ↦ returns (into_array decoded)
    ]

unfoldable pub sha256_vec : Crypto → Text → Outcome Bytes
unfolding sha256_bytes
sha256_vec c nar_hash = elim (sha256_bytes c nar_hash) [
  | panics ↦ panics
  | returns none ↦ returns []
  | returns (some b) ↦ returns b
]
