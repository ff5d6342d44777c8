-- ===== src/NarHash/Bounds.antt =====
-- src/nar_hash.rs: when the base-32 decoder writes out of bounds, which panics.
use mathlib.Core.List.{reverse_aux}
use guix_p2p.Prelude.{
  sym, length-replicate, replicate, reverse, ltb, Bool-cases, ◌⊎◌, refl, subst, [], suc, false,
  true, All, ◌+◌, nat_beq, if◌then◌else◌, Bool, Option, ◌≢◌, ℕ, ◌*◌, ◌/◌, ◌%◌, ◌≤◌, ◌<◌, ◌≡◌, ap,
  ◌∙◌, inl, inr, none, some, arith, Option-cases, nat_eq, text_eq, panics, returns, length,
  get_elem?, set, length-set, get_elem?-some_of_lt, get_elem?-none_of_le,
}
use guix_p2p.Crypto.{Bytes}
use guix_p2p.NarHash.{
  replicate, reverse, decode_nix_base32, suc, position, ◌∷◌, nat_beq, decode_from, Option, Bool,
  bit_or, or_at, set_byte, then_set, set_nix_base32_quintet,
}

length-set_byte : (out : Bytes) (offset v : ℕ) → length (set_byte out offset v) ≡ length out
unfolding set_byte
length-set_byte out offset v = elim (Option-cases (get_elem? out offset)) [
  | inl e ↦ ground (arith, e)
  | inr (b, e) ↦ ground (arith, e, length-set out offset (bit_or b v))
]

-- A write inside the buffer returns a buffer of the same length.
or_at-inside :
    (out : Bytes) (offset v : ℕ)
    → offset < length out
    → (out' : Bytes) × (or_at out offset v ≡ some out') × (length out' ≡ length out)
unfolding or_at
or_at-inside out offset v h =
    let (b, e) = get_elem?-some_of_lt out offset h in
    (
      set out offset (bit_or b (v % 256)),
      ground (arith, e),
      length-set out offset (bit_or b (v % 256)),
    )

or_at-outside : (out : Bytes) (offset v : ℕ) → length out ≤ offset → or_at out offset v ≡ none
unfolding or_at
or_at-outside out offset v h = ground (arith, get_elem?-none_of_le out offset h)

then_set-inside :
    (out : Bytes) (offset v next u : ℕ)
    → offset < length out
    → (out' : Bytes) × (then_set (or_at out offset v) next u ≡ some out')
      × (length out' ≡ length out)
then_set-inside out offset v next u h =
    let (mid, e, l) = or_at-inside out offset v h in
    (set_byte mid next u, ap (λ o. then_set o next u) e, length-set_byte mid next u ∙ l)

abbrev pub offset_of : ℕ → ℕ
offset_of index = index * 5 / 8

if_elim {ℓ κ} :
    {A : Type ℓ} (P : A → Type κ) (b : Bool) (x y : A) → P x → P y → P (if b then x else y)
if_elim P true x y p q = p
if_elim P false x y p q = q

module _ (P : Option Bytes → Type 0) (out : Bytes) (index value : ℕ) where
  -- A property of the eight cases is one of the call.
  quintet-cases :
      ((v : ℕ) → P (or_at out (offset_of index) v))
      → ((v next u : ℕ) → P (then_set (or_at out (offset_of index) v) next u))
      → P (set_nix_base32_quintet out index value)
  unfolding set_nix_base32_quintet
  quintet-cases one two =
      let k = index % 8 in
      if_elim P (nat_beq k 0) _ _ (one _) (
        if_elim P (nat_beq k 1) _ _ (two _ _ _) (
          if_elim P (nat_beq k 2) _ _ (one _) (
            if_elim P (nat_beq k 3) _ _ (two _ _ _) (
              if_elim P (nat_beq k 4) _ _ (two _ _ _) (
                if_elim P (nat_beq k 5) _ _ (one _)
                  (if_elim P (nat_beq k 6) _ _ (two _ _ _) (one _)))))))

-- A write inside the buffer that keeps its length.
abbrev Kept : Bytes → Option Bytes → Type 0
Kept out o = (out' : Bytes) × (o ≡ some out') × (length out' ≡ length out)

quintet-inside :
    (out : Bytes) (index value : ℕ)
    → offset_of index < length out
    → Kept out (set_nix_base32_quintet out index value)
quintet-inside out index value h =
    quintet-cases (Kept out) out index value (λ v. or_at-inside out (offset_of index) v h)
      (λ v next u. then_set-inside out (offset_of index) v next u h)

quintet-outside :
    (out : Bytes) (index value : ℕ)
    → length out ≤ offset_of index
    → set_nix_base32_quintet out index value ≡ none
quintet-outside out index value h =
    quintet-cases (λ o. o ≡ none) out index value (λ v. or_at-outside out (offset_of index) v h)
      (λ v next u. ap (λ o. then_set o next u) (or_at-outside out (offset_of index) v h))

-- The lengths of base-32 text for which the last digit lies inside the buffer.
abbrev pub Fitting : ℕ → Type 0
Fitting n = (n % 8 ≢ 1) × (n % 8 ≢ 3) × (n % 8 ≢ 6)

decode_from-inside :
    (out : Bytes) (index : ℕ) (input : Bytes)
    → Fitting (index + length input)
    → length out ≡ (index + length input) * 5 / 8
    → (decoded : Option Bytes) × (decode_from out index input ≡ returns decoded)
      × ((bytes : Bytes) → decoded ≡ some bytes → length bytes ≡ length out)
unfolding decode_from
decode_from-inside out index [] f l = (some out, refl, λ bytes e. ap length (ground (arith, e)))
decode_from-inside out index (chr ∷ rest) f l = elim (Option-cases (position chr)) [
  | inl unknown ↦ (none, ground (arith, unknown), λ bytes e. absurd (ground (arith, e)))
  | inr (value, known) ↦
      let sum_suc : index + suc (length rest) ≡ suc index + length rest = omega arith in
      let inside : offset_of index < length out = omega (arith, l, f.0, f.1, f.2) in
      let (out', step, kept) = quintet-inside out index value inside in
      let (decoded, run, size) =
        decode_from-inside out' (suc index) rest (subst Fitting sum_suc f)
          (kept ∙ l ∙ ap (λ n. n * 5 / 8) sum_suc) in
      (decoded, ground (arith, known, step, run), λ bytes e. size bytes e ∙ kept)
]

-- The lengths for which it lies behind the buffer.
abbrev pub Overlong : ℕ → Type 0
Overlong n = (n % 8 ≡ 1) ⊎ ((n % 8 ≡ 3) ⊎ (n % 8 ≡ 6))

decode_from-panics :
    (out : Bytes) (index chr : ℕ) (rest : Bytes)
    → length out ≤ offset_of index
    → position chr ≢ none
    → decode_from out index (chr ∷ rest) ≡ panics
unfolding decode_from
decode_from-panics out index chr rest h known = elim (Option-cases (position chr)) [
  | inl unknown ↦ absurd (known unknown)
  | inr (value, e) ↦ ground (arith, e, quintet-outside out index value h)
]

decode_from-step :
    (out : Bytes) (index chr : ℕ) (rest : Bytes)
    → offset_of index < length out
    → position chr ≢ none
    → (out' : Bytes) × (decode_from out index (chr ∷ rest) ≡ decode_from out' (suc index) rest)
      × (length out' ≡ length out)
unfolding decode_from
decode_from-step out index chr rest h known = elim (Option-cases (position chr)) [
  | inl unknown ↦ absurd (known unknown)
  | inr (value, e) ↦
      let (out', step, kept) = quintet-inside out index value h in
      (out', ground (arith, e, step), kept)
]

decode_from-outside :
    (out : Bytes) (index : ℕ) (input : Bytes)
    → Overlong (index + length input)
    → 0 < length input
    → length out ≡ (index + length input) * 5 / 8
    → All (λ chr. position chr ≢ none) input
    → decode_from out index input ≡ panics
decode_from-outside out index [] bad some_input l known = absurd (omega (arith, some_input))
decode_from-outside out index (chr ∷ []) bad some_input l known =
    decode_from-panics out index chr [] (omega (arith, l, bad)) known.0
decode_from-outside out index (chr ∷ next ∷ rest) bad some_input l known =
    elim (Bool-cases (ltb (offset_of index) (length out))) [
      | inr behind ↦ decode_from-panics out index chr (next ∷ rest) (ground arith) known.0
      | inl inside ↦
          let (out', step, kept) =
            decode_from-step out index chr (next ∷ rest) (ground arith) known.0 in
          let sum_suc : index + suc (suc (length rest)) ≡ suc index + suc (length rest) =
            omega arith in
          step
          ∙ decode_from-outside out' (suc index) (next ∷ rest) (subst Overlong sum_suc bad)
              (omega arith) (kept ∙ l ∙ ap (λ n. n * 5 / 8) sum_suc) known.1
    ]

length-reverse_aux : (xs ys : Bytes) → length (reverse_aux xs ys) ≡ length xs + length ys
length-reverse_aux [] ys = omega arith
length-reverse_aux (x ∷ xs) ys = omega (arith, length-reverse_aux xs (x ∷ ys))

length-reverse : (xs : Bytes) → 0 + length (reverse xs) ≡ length xs
length-reverse xs = omega (arith, length-reverse_aux xs [])

All-reverse_aux : (P : ℕ → Type 0) (xs ys : Bytes) → All P xs → All P ys → All P (reverse_aux xs ys)
All-reverse_aux P [] ys a b = b
All-reverse_aux P (x ∷ xs) ys (p, a) b = All-reverse_aux P xs (x ∷ ys) a (p, b)

-- The decoder does not panic on a text whose length leaves none of the remainders 1, 3 and 6 on
-- division by 8, and where it decodes the text, of `n` bytes, it returns `n * 5 / 8` bytes: 32 for 52.
pub decode_nix_base32_total :
    (input : Bytes)
    → (length input % 8 ≢ 1) × (length input % 8 ≢ 3) × (length input % 8 ≢ 6)
    → (decoded : Option Bytes) × (decode_nix_base32 input ≡ returns decoded)
      × ((bytes : Bytes) → decoded ≡ some bytes → length bytes ≡ length input * 5 / 8)
unfolding decode_nix_base32
decode_nix_base32_total input fits =
    let out : Bytes = replicate (length input * 5 / 8) 0 in
    let size : length out ≡ length input * 5 / 8 =
      length-replicate {A = ℕ} (length input * 5 / 8) 0 in
    let (decoded, run, kept) =
      decode_from-inside out 0 (reverse input) (subst Fitting (sym (length-reverse input)) fits)
        (size ∙ ap (λ n. n * 5 / 8) (sym (length-reverse input))) in
    (decoded, run, λ bytes e. kept bytes e ∙ size)

-- The decoder panics on every text over its alphabet whose length leaves one of the remainders 1, 3
-- and 6 on division by 8.
pub decode_nix_base32_panics :
    (input : Bytes)
    → (length input % 8 ≡ 1) ⊎ ((length input % 8 ≡ 3) ⊎ (length input % 8 ≡ 6))
    → All (λ chr. position chr ≢ none) input
    → decode_nix_base32 input ≡ panics
unfolding decode_nix_base32
decode_nix_base32_panics input bad known =
    let out : Bytes = replicate (length input * 5 / 8) 0 in
    let size : length out ≡ length input * 5 / 8 =
      length-replicate {A = ℕ} (length input * 5 / 8) 0 in
    decode_from-outside out 0 (reverse input) (subst Overlong (sym (length-reverse input)) bad)
      (omega (arith, length-reverse input, bad))
      (size ∙ ap (λ n. n * 5 / 8) (sym (length-reverse input)))
      (All-reverse_aux (λ chr. position chr ≢ none) input [] known tt)
