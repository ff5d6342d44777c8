-- ===== src/Prelude/Maps.antt =====
-- `HashMap` as an association list: the order of the entries stands for the iteration order, which
-- the standard library leaves open, so a theorem about every list holds for every order.
use mathlib.Core.Path.{◌≡◌, refl}
use mathlib.Core.List.{List, [], ◌∷◌, map}
use mathlib.Core.Option.{Option, none, some}
use native.Mathlib.Omega.{arith}
use guix_p2p.Prelude.Tests.{Comparable, ◌==◌, if◌then◌else◌, ==→≡, ≡→==}

abbrev pub Map {ℓ κ} : Type ℓ → Type κ → Type (ℓ ⊔ κ)
Map K V = List (K × V)

module _ {ℓ κ} {K : Type ℓ} {V : Type κ} ⦃k : Comparable K⦄ where
  abbrev pub lookup : Map K V → K → Option V
  lookup [] k = none
  lookup ((j, v) ∷ m) k = if j == k then some v else lookup m k

  -- `map.insert(k, v)`: in place where the key is there, as a new entry where it is not.
  abbrev pub insert : Map K V → K → V → Map K V
  insert [] k v = (k, v) ∷ []
  insert ((j, w) ∷ m) k v = if j == k then (j, v) ∷ m else (j, w) ∷ insert m k v

  -- `if let Some(x) = map.get_mut(&k) { *x = f(x) }`.
  abbrev pub modify : Map K V → K → (V → V) → Map K V
  modify [] k f = []
  modify ((j, w) ∷ m) k f = if j == k then (j, f w) ∷ m else (j, w) ∷ modify m k f

  abbrev pub remove : Map K V → K → Map K V
  remove [] k = []
  remove ((j, w) ∷ m) k = if j == k then m else (j, w) ∷ remove m k

  abbrev pub keys : Map K V → List K
  keys = map (λ p. p.0)

  pub lookup-insert :
      (m : Map K V) (k j : K) (v : V)
      → lookup (insert m k v) j ≡ (if k == j then some v else lookup m j)
  lookup-insert [] k j v = refl
  lookup-insert ((i, w) ∷ m) k j v =
      ground
        (arith, ==→≡ i k, ==→≡ i j, ==→≡ k j, ≡→== i k, ≡→== i j, ≡→== k j, lookup-insert m k j v)

  pub lookup-modify :
      (m : Map K V) (k j : K) (f : V → V)
      → lookup (modify m k f) j
        ≡ (if k == j then elim (lookup m j) [ none ↦ none | some v ↦ some (f v) ] else lookup m j)
  lookup-modify [] k j f = ground arith
  lookup-modify ((i, w) ∷ m) k j f =
      ground
        (arith, ==→≡ i k, ==→≡ i j, ==→≡ k j, ≡→== i k, ≡→== i j, ≡→== k j, lookup-modify m k j f)

  pub keys-modify : (m : Map K V) (k : K) (f : V → V) → keys (modify m k f) ≡ keys m
  keys-modify [] k f = refl
  keys-modify ((i, w) ∷ m) k f = ground (arith, keys-modify m k f)
