-- ===== src/StorePath.antt =====
-- src/store_path.rs: the hash part of a store path, and full paths for base names.
use guix_p2p.Prelude.{
  false, ℕ, arith, contains, ◌≡◌, text_eq, Option, none, some, [], ◌∷◌, ◌++◌, if◌then◌else◌, nat_eq,
  text_eq,
}
use guix_p2p.Crypto.{Text}
use guix_p2p.Text.{chars, strip_prefix, starts_with, split_once}

unfoldable pub hash_part : Text → Option Text
unfolding strip_prefix split_once
hash_part store_path = elim (strip_prefix (chars "/gnu/store/") store_path) [
  | none ↦ none
  | some rest ↦ elim (split_once b'-' rest) [ none ↦ none | some (hash, _) ↦ some hash ]
]

unfoldable pub from_narinfo_path : Text → Text
unfolding starts_with
from_narinfo_path [] = []
from_narinfo_path (c ∷ s) =
    if starts_with (chars "/gnu/store/") (c ∷ s) then c ∷ s else chars "/gnu/store/" ++ c ∷ s

split_once-append :
    (sep : ℕ) (a b : Text) → contains a sep ≡ false → split_once sep (a ++ sep ∷ b) ≡ some (a, b)
unfolding split_once
split_once-append sep [] b h = ground arith
split_once-append sep (x ∷ a) b h = ground (arith, h, split_once-append sep a b)

-- The hash part of a path in the store is what stands before the first dash.
pub hash_part-store_path :
    (hash name : Text)
    → contains hash b'-' ≡ false
    → hash_part (chars "/gnu/store/" ++ (hash ++ b'-' ∷ name)) ≡ some hash
unfolding hash_part strip_prefix
hash_part-store_path hash name h = ground (arith, split_once-append b'-' hash name h)
