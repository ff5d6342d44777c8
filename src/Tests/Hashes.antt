-- ===== src/Tests/Hashes.antt =====
-- src/nar_hash.rs: texts that are decoded, and a text that is not.
use guix_p2p.Prelude.{
  ℕ, ◌≡◌, refl, ◌≢◌, inl, inr, Option, none, some, arith, nat_eq, text_eq, panics, returns, length,
  All,
}
use guix_p2p.Crypto.{Bytes}
use guix_p2p.Text.{chars}
use guix_p2p.NarHash.{position, decode_nix_base32}
use guix_p2p.NarHash.Bounds.{decode_nix_base32_total, decode_nix_base32_panics}

-- A text of the test of the source, and one of three digits.
abbrev text : Bytes
text = chars "0qhasy0w9w9mfv0vacgzymxl4nww8cslyza5x2ci42v7i2b13lyl"

decode_nix_base32_total_example :
    (decoded : Option Bytes) × (decode_nix_base32 text ≡ returns decoded)
    × ((bytes : Bytes) → decoded ≡ some bytes → length bytes ≡ 32)
decode_nix_base32_total_example =
    decode_nix_base32_total text ((λ e. omega arith), (λ e. omega arith), (λ e. omega arith))

letter : (chr value : ℕ) → position chr ≡ some value → position chr ≢ none
letter chr value e n = ground (arith, e, n)

known : All (λ chr. position chr ≢ none) (chars "abc")
unfolding position
known = (letter b'a' 10 refl, (letter b'b' 11 refl, (letter b'c' 12 refl, tt)))

decode_nix_base32_panics_example : decode_nix_base32 (chars "abc") ≡ panics
decode_nix_base32_panics_example =
    decode_nix_base32_panics (chars "abc") (inr (inl (omega arith))) known
