-- ===== src/Prelude/Tests.antt =====
-- Boolean tests on the native numbers, the conditional, case lemmas, and equality tests as an
-- interface, for the keys and elements that the program compares.
use Prim.Native.Nat.{ℕ, ◌≤◌, ◌<◌, compare, Ordering}
use mathlib.Core.Path.{◌≡◌, refl, subst}
use mathlib.Core.Logic.{◌⊎◌, inl, inr}
use mathlib.Core.Bool.{Bool, true, false, ◌&&◌}
use mathlib.Core.List.{List, [], ◌∷◌}
use mathlib.Core.Option.{Option, none, some}
use native.Mathlib.Omega.{arith}

abbrev pub ltb : ℕ → ℕ → Bool
ltb a b = elim (compare a b) [ Ordering.lt ↦ true | _ ↦ false ]

abbrev pub leb : ℕ → ℕ → Bool
leb a b = elim (compare a b) [ Ordering.gt ↦ false | _ ↦ true ]

abbrev pub nat_beq : ℕ → ℕ → Bool
nat_beq a b = elim (compare a b) [ Ordering.eq ↦ true | _ ↦ false ]

infix 1 if◌then◌else◌
abbrev pub if◌then◌else◌ {ℓ} : {A : Type ℓ} → Bool → A → A → A
if true then x else y = x
if false then x else y = y

pub ltb→lt : (a b : ℕ) → ltb a b ≡ true → a < b
ltb→lt a b h = ground arith

pub ltb→le : (a b : ℕ) → ltb a b ≡ false → b ≤ a
ltb→le a b h = ground arith

pub lt→ltb : (a b : ℕ) → a < b → ltb a b ≡ true
lt→ltb a b h = ground arith

pub le→ltb : (a b : ℕ) → b ≤ a → ltb a b ≡ false
le→ltb a b h = ground arith

pub leb→le : (a b : ℕ) → leb a b ≡ true → a ≤ b
leb→le a b h = ground arith

pub leb→lt : (a b : ℕ) → leb a b ≡ false → b < a
leb→lt a b h = ground arith

pub ruleset tests = (arith, ltb→lt, ltb→le, lt→ltb, le→ltb, leb→le, leb→lt)

pub Bool-cases : (b : Bool) → (b ≡ true) ⊎ (b ≡ false)
Bool-cases true = inl refl
Bool-cases false = inr refl

-- What holds of both branches holds of the conditional.
pub if_both {ℓ κ} :
    {A : Type ℓ} (P : A → Type κ) (b : Bool) {x y : A} → P x → P y → P (if b then x else y)
if_both P true h k = h
if_both P false h k = k

-- Each branch may use what the test says.
pub if_either {ℓ κ} :
    {A : Type ℓ} (P : A → Type κ) (b : Bool) {x y : A}
    → (b ≡ true → P x)
    → (b ≡ false → P y)
    → P (if b then x else y)
if_either P true h k = h refl
if_either P false h k = k refl

pub Option-cases {ℓ} : {A : Type ℓ} (o : Option A) → (o ≡ none) ⊎ ((a : A) × (o ≡ some a))
Option-cases none = inl refl
Option-cases (some a) = inr (a, refl)

-- `PartialEq` and `Eq` of the types that serve as keys and elements: a test that holds of a value
-- and itself, and of equal values alone.
pub record Comparable {ℓ} (A : Type ℓ) : Type ℓ where
  pub same : A → A → Bool
  pub reflexive : (a : A) → same a a ≡ true
  pub sound : (a b : A) → same a b ≡ true → a ≡ b

abbrev pub ◌==◌ {ℓ} : {A : Type ℓ} ⦃k : Comparable A⦄ → A → A → Bool
◌==◌ ⦃k⦄ a b = k.same a b

infix 50 ◌==◌
pub nat_beq_refl : (a : ℕ) → nat_beq a a ≡ true
nat_beq_refl a = ground arith

pub nat_beq_sound : (a b : ℕ) → nat_beq a b ≡ true → a ≡ b
nat_beq_sound a b h = ground arith

instance abbrev pub nat_eq : Comparable ℕ
nat_eq = record { same = nat_beq; reflexive = nat_beq_refl; sound = nat_beq_sound }

abbrev pub text_beq : List ℕ → List ℕ → Bool
text_beq [] [] = true
text_beq [] (y ∷ ys) = false
text_beq (x ∷ xs) [] = false
text_beq (x ∷ xs) (y ∷ ys) = nat_beq x y && text_beq xs ys

pub text_beq_refl : (a : List ℕ) → text_beq a a ≡ true
text_beq_refl [] = refl
text_beq_refl (x ∷ xs) = ground (arith, text_beq_refl xs)

pub text_beq_sound : (a b : List ℕ) → text_beq a b ≡ true → a ≡ b
text_beq_sound [] [] h = refl
text_beq_sound [] (y ∷ ys) h = ground arith
text_beq_sound (x ∷ xs) [] h = ground arith
text_beq_sound (x ∷ xs) (y ∷ ys) h = ground (arith, text_beq_sound xs ys)

-- Texts are lists of characters, and byte strings lists of bytes; both are compared so.
instance abbrev pub text_eq : Comparable (List ℕ)
text_eq = record { same = text_beq; reflexive = text_beq_refl; sound = text_beq_sound }

module _ {ℓ} {A : Type ℓ} ⦃k : Comparable A⦄ where
  pub ==_refl : (a : A) → (a == a) ≡ true
  ==_refl a = k.reflexive a

  pub ==→≡ : (a b : A) → (a == b) ≡ true → a ≡ b
  ==→≡ a b h = k.sound a b h

  pub ≡→== : (a b : A) → a ≡ b → (a == b) ≡ true
  ≡→== a b h = subst (λ x. (a == x) ≡ true) h (k.reflexive a)

-- What a call does that may panic.
pub data Outcome {ℓ} (A : Type ℓ) : Type ℓ where
  panics : Outcome A
  returns : A → Outcome A
