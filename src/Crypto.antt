-- ===== src/Crypto.antt =====
-- The primitives that the source takes from third-party crates: `sha2`'s SHA-256, and the
-- hexadecimal text of bytes (`hex::encode` and `{:x}` on a digest, `hex::decode`). They are a
-- parameter of the model, with the documented facts that the code relies on.
use guix_p2p.Prelude.{
  ℕ, ◌+◌, ◌≡◌, ap, ◌&&◌, Option, some, List, map, leb, if◌then◌else◌, nat_eq, text_eq, length,
}

abbrev pub Bytes : Type 0
Bytes = List ℕ

-- Texts are lists of characters (code points).
abbrev pub Text : Type 0
Text = List ℕ

-- The digest has 32 bytes, `decode` reads what `encode` writes, `encode` writes no upper-case letter.
pub record Crypto : Type 0 where
  pub sha256 : Bytes → Bytes
  pub hex : Bytes → Text
  pub unhex : Text → Option Bytes
  pub length-sha256 : (b : Bytes) → length (sha256 b) ≡ 32
  pub unhex-hex : (b : Bytes) → unhex (hex b) ≡ some b
  pub lower-hex :
      (b : Bytes) → map (λ x. if leb b'A' x && leb x b'Z' then x + 32 else x) (hex b) ≡ hex b

pub hex_injective : (c : Crypto) (a b : Bytes) → c.hex a ≡ c.hex b → a ≡ b
hex_injective c a b e = cc (c.unhex-hex a, c.unhex-hex b, ap c.unhex e)
