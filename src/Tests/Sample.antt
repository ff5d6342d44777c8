-- ===== src/Tests/Sample.antt =====
-- Data that the tests share: stand-ins for the third-party primitives, and a small seeder.
use guix_p2p.Prelude.{
  ℕ, ◌≡◌, refl, ap, map, ◌∙◌, ◌+◌, ◌-◌, ◌&&◌, leb, if◌then◌else◌, none, some, [], ◌∷◌, ◌++◌, arith,
  nat_eq, text_eq, length, take, replicate, length-append, length-replicate, length-take,
}
use guix_p2p.Crypto.{Bytes, Text, Crypto}
use guix_p2p.Text.{chars}
use guix_p2p.Swarm.Block.{BlockInfo, from_file_size}
use guix_p2p.NarStore.{NarEntry, NarStore, Files, downloaded}

abbrev pub digest : Bytes → Bytes
digest b = take 32 (b ++ replicate 32 0)

pub length-digest : (b : Bytes) → length (digest b) ≡ 32
length-digest b =
    length-take 32 (b ++ replicate 32 0)
    ∙ omega (arith, length-append b (replicate 32 0), length-replicate {A = ℕ} 32 0)

-- A digest that pads to 32 bytes, and a text that moves bytes behind the upper-case letters.
abbrev pub spell : Bytes → Text
spell b = map (λ x. x + 97) b

abbrev pub unspell : Text → Bytes
unspell t = map (λ x. x - 97) t

pub unspell-spell : (b : Bytes) → unspell (spell b) ≡ b
unspell-spell [] = refl
unspell-spell (x ∷ b) = let h : x + 97 - 97 ≡ x = omega arith in cc (unspell-spell b, h)

stays : (x : ℕ) → (if leb b'A' (x + 97) && leb (x + 97) b'Z' then x + 97 + 32 else x + 97) ≡ x + 97
stays x = ground arith

pub lower-spell :
    (b : Bytes) → map (λ x. if leb b'A' x && leb x b'Z' then x + 32 else x) (spell b) ≡ spell b
lower-spell [] = refl
lower-spell (x ∷ b) = cc (lower-spell b, stays x)

abbrev pub padding : Crypto
padding = record {
  sha256 = digest;
  hex = spell;
  unhex = λ t. some (unspell t);
  length-sha256 = length-digest;
  unhex-hex = λ b. ap some (unspell-spell b);
  lower-hex = lower-spell;
}

abbrev pub nar : Bytes
nar = 1 ∷ 2 ∷ 3 ∷ 4 ∷ 5 ∷ []

abbrev pub layout : BlockInfo
layout = record { block_count = 3; block_size = 2; last_block_size = 1; block_hashes = [] }

pub layout_lem : from_file_size 5 2 ≡ some layout
unfolding from_file_size
layout_lem = refl

abbrev pub key : Text
key = 106 ∷ 106 ∷ []

-- The hash whose text is the key.
abbrev pub hash : Bytes
hash = 9 ∷ 9 ∷ []

abbrev pub entry : NarEntry
entry = record {
  path = chars "nar/99.nar";
  nar_size = 5;
  block_info = layout;
  store_path = none;
  source = downloaded;
  created_at = 0;
}

abbrev pub store : NarStore
store = record { cache_dir = chars "nar"; block_size = 2; index = (key, entry) ∷ [] }

abbrev pub files : Files
files = (chars "nar/99.nar", nar) ∷ []
