-- ===== src/PeerStore/Retained.antt =====
-- src/peer_store.rs: what `prune` retains: valid entries, no place twice.
use guix_p2p.Prelude.{
  inr, ap, text_beq_sound, inl, ltb→le, Bool-cases, refl, text_beq_refl, arith, text_beq, ◌&&◌,
  Bool, false, ℕ, ◌≤◌, ◌≡◌, true, not, ◌||◌, List, [], ◌∷◌, ltb, if_both, if_either, nat_eq,
  text_eq, All,
}
use guix_p2p.PeerStore.{
  text_beq, false, same_place, Bool, Network, PeerStoreEntry, has_place, is_dialable, retain_valid,
}
use guix_p2p.PeerStore.Order.{IsDistinct}

valid_of : (a b : Bool) → (a || not b) ≡ false → (a ≡ false) × (b ≡ true)
valid_of true b h = ground (arith, h)
valid_of false true h = (refl, refl)
valid_of false false h = ground (arith, h)

same_place_refl : (e : PeerStoreEntry) → same_place e e ≡ true
same_place_refl e = cc (text_beq_refl e.peer_id, text_beq_refl e.address)

both_true : (a b : Bool) → (a && b) ≡ true → (a ≡ true) × (b ≡ true)
both_true true b h = (refl, h)
both_true false b h = ground (arith, h)

-- A place is in a list or not, whichever of its entries asks.
has_place_of_same :
    (e f : PeerStoreEntry) (entries : List PeerStoreEntry)
    → same_place e f ≡ true
    → has_place e entries ≡ has_place f entries
has_place_of_same e f [] h = refl
has_place_of_same e f (g ∷ entries) h =
    let (peers, addresses) =
      both_true (text_beq e.peer_id f.peer_id) (text_beq e.address f.address) h in
    let peer : e.peer_id ≡ f.peer_id = text_beq_sound e.peer_id f.peer_id peers in
    let address : e.address ≡ f.address = text_beq_sound e.address f.address addresses in
    cc (
      ap (λ t. text_beq t g.peer_id) peer,
      ap (λ t. text_beq t g.address) address,
      has_place_of_same e f entries h,
    )

module _ (n : Network) where
  -- Seen since then, with a peer id and an address that can be dialled.
  abbrev pub IsValid : ℕ → PeerStoreEntry → Type 0
  IsValid since e = (since ≤ e.last_seen) × (is_dialable n e ≡ true)

  good_one :
      (min_seen : ℕ) (e : PeerStoreEntry)
      → (ltb e.last_seen min_seen || not (is_dialable n e)) ≡ false
      → IsValid min_seen e
  good_one min_seen e good =
      let (fresh, dialable) = valid_of (ltb e.last_seen min_seen) (is_dialable n e) good in
      (ltb→le e.last_seen min_seen fresh, dialable)

  pub retain_valid-IsValid :
      (min_seen : ℕ) (seen entries : List PeerStoreEntry)
      → All (IsValid min_seen) (retain_valid n min_seen seen entries)
  unfolding retain_valid
  retain_valid-IsValid min_seen seen [] = tt
  retain_valid-IsValid min_seen seen (e ∷ entries) =
      let skip = retain_valid-IsValid min_seen seen entries in
      if_either (All (IsValid min_seen)) (ltb e.last_seen min_seen || not (is_dialable n e))
        (λ bad. skip)
        (λ good.
          if_both (All (IsValid min_seen)) (has_place e seen) skip
            (good_one min_seen e good, retain_valid-IsValid min_seen (e ∷ seen) entries))

  -- A place that has been seen is not kept again.
  has_place-retain_valid :
      (min_seen : ℕ) (f : PeerStoreEntry) (seen entries : List PeerStoreEntry)
      → has_place f seen ≡ true
      → has_place f (retain_valid n min_seen seen entries) ≡ false
  unfolding retain_valid
  has_place-retain_valid min_seen f seen [] h = refl
  has_place-retain_valid min_seen f seen (e ∷ entries) h =
      let skip = has_place-retain_valid min_seen f seen entries h in
      let P : List PeerStoreEntry → Type 0 = λ es. has_place f es ≡ false in
      if_both P (ltb e.last_seen min_seen || not (is_dialable n e)) skip (
        if_either P (has_place e seen) (λ old. skip)
          (λ new. elim (Bool-cases (same_place f e)) [
            | inl same ↦ absurd (ground (arith, has_place_of_same f e seen same, h, new))
            | inr apart ↦
                let later : has_place f (e ∷ seen) ≡ true = rw apart h in
                rw apart (has_place-retain_valid min_seen f (e ∷ seen) entries later)
          ]))

  pub retain_valid-IsDistinct :
      (min_seen : ℕ) (seen entries : List PeerStoreEntry)
      → IsDistinct (retain_valid n min_seen seen entries)
  unfolding retain_valid
  retain_valid-IsDistinct min_seen seen [] = tt
  retain_valid-IsDistinct min_seen seen (e ∷ entries) =
      let skip = retain_valid-IsDistinct min_seen seen entries in
      let here : has_place e (e ∷ seen) ≡ true = rw (same_place_refl e) refl in
      if_both IsDistinct (ltb e.last_seen min_seen || not (is_dialable n e)) skip (
        if_both IsDistinct (has_place e seen) skip (
          has_place-retain_valid min_seen e (e ∷ seen) entries here,
          retain_valid-IsDistinct min_seen (e ∷ seen) entries,
        ))
