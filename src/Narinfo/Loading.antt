-- ===== src/Narinfo/Loading.antt =====
-- src/narinfo.rs: the loop of `load_acl_keys` comes to its end.
use guix_p2p.Prelude.{
  ℕ, zero, suc, ◌≤◌, ◌<◌, ◌≡◌, refl, inl, inr, Bool, true, false, Option, none, some, [], ◌∷◌,
  arith, Option-cases, nat_eq, text_eq, length, drop, length-drop, keys,
}
use guix_p2p.Crypto.{Bytes, Text, Crypto}
use guix_p2p.Text.{chars, split_find, split_once}
use guix_p2p.Narinfo.Verify.{
  open_key, no_key, next_key, NextKey, key_at, find_key, key_after, turn, with_key, Keys, read_key,
  join_keys, acl_keys, load_acl_keys, out_of_fuel, loaded, refused,
}

length-split_once : (sep : ℕ) (s a b : Text) → split_once sep s ≡ some (a, b) → length b < length s
unfolding split_once
length-split_once sep [] a b h = ground arith
length-split_once sep (c ∷ s) a b h = elim (Option-cases (split_once sep s)) [
  | inl e ↦ ground (arith, h, e)
  | inr ((x, y), e) ↦ ground (arith, h, e, length-split_once sep s x y e)
]

length-split_find : (p s a b : Text) → split_find p s ≡ some (a, b) → length b ≤ length s
unfolding split_find
length-split_find p [] a b h = ground (arith, h)
length-split_find p (c ∷ s) a b h = elim (Option-cases (split_find p s)) [
  | inl e ↦ ground (arith, h, e)
  | inr ((x, y), e) ↦ ground (arith, h, e, length-split_find p s x y e)
]

length-key_at :
    (s : Text) (o : Option (Text × Text)) (hex_str rest : Text)
    → split_once b'#' s ≡ o
    → key_at o ≡ next_key hex_str rest
    → length rest < length s
unfolding key_at
length-key_at s none hex_str rest e h = ground (arith, h)
length-key_at s (some (a, b)) hex_str rest e h = ground (arith, h, length-split_once b'#' s a b e)

length-key_after :
    (raw : Text) (o : Option (Text × Text)) (hex_str rest : Text)
    → split_find (chars "(q #") raw ≡ o
    → key_after o ≡ next_key hex_str rest
    → length rest < length raw
unfolding key_after
length-key_after raw none hex_str rest e h = ground (arith, h)
length-key_after raw (some (a, found)) hex_str rest e h = omega (
  arith,
  length-split_find (chars "(q #") raw a found e,
  length-drop 4 found,
  length-key_at (drop 4 found) (split_once b'#' (drop 4 found)) hex_str rest refl h,
)

length-find_key :
    (raw hex_str rest : Text) → find_key raw ≡ next_key hex_str rest → length rest < length raw
unfolding find_key
length-find_key raw hex_str rest e =
    length-key_after raw (split_find (chars "(q #") raw) hex_str rest refl e

module _ (crypto : Crypto) (is_key : Bytes → Bool) where
  -- The loop was cut off.
  abbrev pub is_cut : Keys → Bool
  is_cut (loaded keys) = false
  is_cut (refused out_of_fuel) = true
  is_cut (refused _) = false

  is_cut-with_key :
      (key : Bytes) (rest : Keys) → is_cut rest ≡ false → is_cut (with_key key rest) ≡ false
  is_cut-with_key key (loaded keys) h = refl
  is_cut-with_key key (refused e) h = h

  is_cut-join_keys :
      (k rest : Keys)
      → is_cut k ≡ false
      → is_cut rest ≡ false
      → is_cut (join_keys crypto is_key k rest) ≡ false
  unfolding join_keys
  is_cut-join_keys (loaded []) rest h h' = h'
  is_cut-join_keys (loaded (key ∷ keys)) rest h h' = is_cut-with_key key rest h'
  is_cut-join_keys (refused e) rest h h' = h

  is_cut-read_key : (hex_str : Text) → is_cut (read_key crypto is_key hex_str) ≡ false
  unfolding read_key
  is_cut-read_key hex_str = ground arith

  is_cut-turn :
      (more : Text → Keys) (raw : Text) (n : NextKey)
      → find_key raw ≡ n
      → ((rest : Text) → length rest < length raw → is_cut (more rest) ≡ false)
      → is_cut (turn crypto is_key more n) ≡ false
  unfolding turn
  is_cut-turn more raw no_key e h = refl
  is_cut-turn more raw open_key e h = refl
  is_cut-turn more raw (next_key hex_str rest) e h =
      is_cut-join_keys (read_key crypto is_key hex_str) (more rest) (is_cut-read_key hex_str)
        (h rest (length-find_key raw hex_str rest e))

  is_cut-acl_keys :
      (fuel : ℕ) (raw : Text) → length raw < fuel → is_cut (acl_keys crypto is_key fuel raw) ≡ false
  unfolding acl_keys
  is_cut-acl_keys zero raw h = absurd (omega (arith, h))
  is_cut-acl_keys (suc fuel) raw h =
      is_cut-turn (acl_keys crypto is_key fuel) raw (find_key raw) refl
        (λ rest shorter. is_cut-acl_keys fuel rest (omega (arith, h, shorter)))

  -- `load_acl_keys` ends with keys or with an error of the file, for every text: its loop has the fuel
  -- it needs, one turn for each character and one more.
  pub load_acl_keys_total : (raw : Option Text) → is_cut (load_acl_keys crypto is_key raw) ≡ false
  unfolding load_acl_keys
  load_acl_keys_total none = refl
  load_acl_keys_total (some raw) = is_cut-acl_keys (suc (length raw)) raw (omega arith)
