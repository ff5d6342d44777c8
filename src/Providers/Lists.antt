-- ===== src/Providers/Lists.antt =====
-- src/daemon.rs: the lists of peers that `merge_provider_lists`, `exclude_peers` and the ranking of
-- src/reputation.rs make.
use guix_p2p.Prelude.{
  suc, ◌≡◌, refl, ap, inl, inr, Bool, false, not, ◌&&◌, ◌||◌, List, [], ◌∷◌, ◌++◌, arith, nat_beq,
  Bool-cases, nat_eq, text_eq, length, keep, contains,
}
use guix_p2p.Swarm.Codec.{PeerId}
use guix_p2p.Reputation.{insert_by, sort_by}
use guix_p2p.Providers.{distinct, merge_provider_lists}

pub contains-append :
    (xs ys : List PeerId) (p : PeerId) → contains (xs ++ ys) p ≡ (contains xs p || contains ys p)
contains-append [] ys p = refl
contains-append (x ∷ xs) ys p = ground (arith, contains-append xs ys p)

pub contains-keep :
    (f : PeerId → Bool) (xs : List PeerId) (p : PeerId)
    → contains (keep f xs) p ≡ (contains xs p && f p)
contains-keep f [] p = refl
contains-keep f (x ∷ xs) p = elim (Bool-cases (nat_beq x p)) [
  | inl e ↦
      let same : x ≡ p = ground arith in
      let fs : f x ≡ f p = ap f same in ground (arith, contains-keep f xs p, fs)
  | inr e ↦ ground (arith, contains-keep f xs p)
]

pub contains-distinct :
    (seen xs : List PeerId) (p : PeerId)
    → contains (distinct seen xs) p ≡ (contains xs p && not (contains seen p))
unfolding distinct
contains-distinct seen [] p = refl
contains-distinct seen (x ∷ xs) p = elim (Bool-cases (nat_beq x p)) [
  | inl e ↦
      let same : x ≡ p = ground arith in
      let cs : contains seen x ≡ contains seen p = ap (contains seen) same in
      ground (arith, contains-distinct (x ∷ seen) xs p, contains-distinct seen xs p, cs)
  | inr e ↦ ground (arith, contains-distinct (x ∷ seen) xs p, contains-distinct seen xs p)
]

-- No peer stands twice.
unfoldable pub AllDistinct : List PeerId → Type 0
AllDistinct [] = Unit
AllDistinct (x ∷ xs) = (contains xs x ≡ false) × AllDistinct xs

pub distinct-AllDistinct : (seen xs : List PeerId) → AllDistinct (distinct seen xs)
unfolding distinct AllDistinct
distinct-AllDistinct seen [] = tt
distinct-AllDistinct seen (x ∷ xs) = elim (Bool-cases (contains seen x)) [
  | inl e ↦ rw e (distinct-AllDistinct seen xs)
  | inr e ↦
      rw e (ground (arith, contains-distinct (x ∷ seen) xs x), distinct-AllDistinct (x ∷ seen) xs)
]

pub length-insert_by :
    (f : PeerId → PeerId → Bool) (x : PeerId) (xs : List PeerId)
    → length (insert_by f x xs) ≡ suc (length xs)
length-insert_by f x [] = refl
length-insert_by f x (y ∷ ys) = ground (arith, length-insert_by f x ys)

pub length-sort_by :
    (f : PeerId → PeerId → Bool) (xs : List PeerId) → length (sort_by f xs) ≡ length xs
length-sort_by f [] = refl
length-sort_by f (x ∷ xs) = omega (arith, length-insert_by f x (sort_by f xs), length-sort_by f xs)

pub contains-insert_by :
    (f : PeerId → PeerId → Bool) (x : PeerId) (xs : List PeerId) (p : PeerId)
    → contains (insert_by f x xs) p ≡ (nat_beq x p || contains xs p)
contains-insert_by f x [] p = refl
contains-insert_by f x (y ∷ ys) p = ground (arith, contains-insert_by f x ys p)

pub contains-sort_by :
    (f : PeerId → PeerId → Bool) (xs : List PeerId) (p : PeerId)
    → contains (sort_by f xs) p ≡ contains xs p
contains-sort_by f [] p = refl
contains-sort_by f (x ∷ xs) p =
    ground (arith, contains-insert_by f x (sort_by f xs) p, contains-sort_by f xs p)

-- The union of two lists of providers has the peers of both, each of them once.
pub merge_provider_lists-union :
    (left right : List PeerId)
    → AllDistinct (merge_provider_lists left right)
      × ((p : PeerId)
          → contains (merge_provider_lists left right) p ≡ (contains left p || contains right p))
unfolding merge_provider_lists
merge_provider_lists-union left right = (
  distinct-AllDistinct [] (left ++ right),
  λ p. ground (arith, contains-distinct [] (left ++ right) p, contains-append left right p),
)
