-- ===== src/PeerStore/Order.antt =====
-- src/peer_store.rs: order and distinctness of entries under sorting, truncation and filtering.
use guix_p2p.Prelude.{
  zero, ap, leb→lt, suc, keep, take, ◌∙◌, leb→le, if_both, if_either, Bool, ℕ, ◌≤◌, ◌≡◌, refl, inl,
  inr, false, ◌||◌, List, [], ◌∷◌, arith, leb, Bool-cases, nat_eq, text_beq, text_eq, All,
}
use guix_p2p.Crypto.{Text}
use guix_p2p.PeerStore.{
  take, keep, sort_entries, Bool, ℕ, PeerStoreEntry, same_place, has_place, insert_entry,
}

-- The newest entries come first.
abbrev pub IsSorted : List PeerStoreEntry → Type 0
IsSorted [] = Unit
IsSorted (e ∷ entries) =
    All (λ (f : PeerStoreEntry). f.last_seen ≤ e.last_seen) entries × IsSorted entries

-- No place stands twice.
abbrev pub IsDistinct : List PeerStoreEntry → Type 0
IsDistinct [] = Unit
IsDistinct (e ∷ entries) = (has_place e entries ≡ false) × IsDistinct entries

text_beq_sym : (a b : Text) → text_beq a b ≡ text_beq b a
text_beq_sym [] [] = refl
text_beq_sym [] (y ∷ b) = refl
text_beq_sym (x ∷ a) [] = refl
text_beq_sym (x ∷ a) (y ∷ b) = ground (arith, text_beq_sym a b)

same_place_sym : (a b : PeerStoreEntry) → same_place a b ≡ same_place b a
same_place_sym a b = cc (text_beq_sym a.peer_id b.peer_id, text_beq_sym a.address b.address)

has_place-insert_entry :
    (e f : PeerStoreEntry) (entries : List PeerStoreEntry)
    → has_place e (insert_entry f entries) ≡ (same_place e f || has_place e entries)
unfolding insert_entry
has_place-insert_entry e f [] = refl
has_place-insert_entry e f (g ∷ entries) = elim (Bool-cases (leb g.last_seen f.last_seen)) [
  | inl after ↦ rw after refl
  | inr before ↦ rw before (ground (arith, has_place-insert_entry e f entries))
]

module _ (P : PeerStoreEntry → Type 0) where
  All-insert_entry :
      (e : PeerStoreEntry) (entries : List PeerStoreEntry)
      → P e
      → All P entries
      → All P (insert_entry e entries)
  unfolding insert_entry
  All-insert_entry e [] h hs = (h, tt)
  All-insert_entry e (f ∷ entries) h (k, hs) =
      if_both (All P) (leb f.last_seen e.last_seen) (h, (k, hs))
        (k, All-insert_entry e entries h hs)

  pub All-sort_entries :
      (entries : List PeerStoreEntry) → All P entries → All P (sort_entries entries)
  unfolding sort_entries
  All-sort_entries [] hs = tt
  All-sort_entries (e ∷ entries) (h, hs) =
      All-insert_entry e (sort_entries entries) h (All-sort_entries entries hs)

  pub All-take : (k : ℕ) (entries : List PeerStoreEntry) → All P entries → All P (take k entries)
  All-take zero entries hs = tt
  All-take (suc k) [] hs = tt
  All-take (suc k) (e ∷ entries) (h, hs) = (h, All-take k entries hs)

  pub All-keep :
      (p : PeerStoreEntry → Bool) (entries : List PeerStoreEntry)
      → All P entries
      → All P (keep p entries)
  All-keep p [] hs = tt
  All-keep p (e ∷ entries) (h, hs) =
      let rest = All-keep p entries hs in if_both (All P) (p e) (h, rest) rest

pub All-map :
    (P Q : PeerStoreEntry → Type 0) (entries : List PeerStoreEntry)
    → ((e : PeerStoreEntry) → P e → Q e)
    → All P entries
    → All Q entries
All-map P Q [] f hs = tt
All-map P Q (e ∷ entries) f (h, hs) = (f e h, All-map P Q entries f hs)

insert_entry-IsSorted :
    (e : PeerStoreEntry) (entries : List PeerStoreEntry)
    → IsSorted entries
    → IsSorted (insert_entry e entries)
unfolding insert_entry
insert_entry-IsSorted e [] h = (tt, tt)
insert_entry-IsSorted e (f ∷ entries) (top, h) =
    if_either IsSorted (leb f.last_seen e.last_seen)
      (λ after.
        let le = leb→le f.last_seen e.last_seen after in
        (
          (
            le,
            All-map (λ g. g.last_seen ≤ f.last_seen) (λ g. g.last_seen ≤ e.last_seen) entries
                (λ g b. omega (arith, b, le)) top,
          ),
          (top, h),
        ))
      (λ before.
        let le = leb→lt f.last_seen e.last_seen before in
        (
          All-insert_entry (λ g. g.last_seen ≤ f.last_seen) e entries (omega (arith, le)) top,
          insert_entry-IsSorted e entries h,
        ))

pub sort_entries-IsSorted : (entries : List PeerStoreEntry) → IsSorted (sort_entries entries)
unfolding sort_entries
sort_entries-IsSorted [] = tt
sort_entries-IsSorted (e ∷ entries) =
    insert_entry-IsSorted e (sort_entries entries) (sort_entries-IsSorted entries)

pub take-IsSorted :
    (k : ℕ) (entries : List PeerStoreEntry) → IsSorted entries → IsSorted (take k entries)
take-IsSorted zero entries h = tt
take-IsSorted (suc k) [] h = tt
take-IsSorted (suc k) (e ∷ entries) (top, h) =
    (All-take (λ f. f.last_seen ≤ e.last_seen) k entries top, take-IsSorted k entries h)

pub keep-IsSorted :
    (p : PeerStoreEntry → Bool) (entries : List PeerStoreEntry)
    → IsSorted entries
    → IsSorted (keep p entries)
keep-IsSorted p [] h = tt
keep-IsSorted p (e ∷ entries) (top, h) =
    let rest = keep-IsSorted p entries h in
    if_both IsSorted (p e) (All-keep (λ f. f.last_seen ≤ e.last_seen) p entries top, rest) rest

insert_entry-IsDistinct :
    (e : PeerStoreEntry) (entries : List PeerStoreEntry)
    → has_place e entries ≡ false
    → IsDistinct entries
    → IsDistinct (insert_entry e entries)
unfolding insert_entry
insert_entry-IsDistinct e [] new h = (refl, tt)
insert_entry-IsDistinct e (f ∷ entries) new (there, h) =
    let apart : same_place e f ≡ false = ground (arith, new) in
    let beyond : has_place e entries ≡ false = ground (arith, new, apart) in
    if_both IsDistinct (leb f.last_seen e.last_seen) (new, (there, h))
      (
        has_place-insert_entry f e entries
            ∙ ap (λ b. b || has_place f entries) (same_place_sym f e ∙ apart)
            ∙ there,
        insert_entry-IsDistinct e entries beyond h,
      )

has_place-sort_entries :
    (e : PeerStoreEntry) (entries : List PeerStoreEntry)
    → has_place e (sort_entries entries) ≡ has_place e entries
unfolding sort_entries
has_place-sort_entries e [] = refl
has_place-sort_entries e (f ∷ entries) =
    has_place-insert_entry e f (sort_entries entries)
    ∙ ap (λ b. same_place e f || b) (has_place-sort_entries e entries)

pub sort_entries-IsDistinct :
    (entries : List PeerStoreEntry) → IsDistinct entries → IsDistinct (sort_entries entries)
unfolding sort_entries
sort_entries-IsDistinct [] h = tt
sort_entries-IsDistinct (e ∷ entries) (new, h) =
    insert_entry-IsDistinct e (sort_entries entries) (has_place-sort_entries e entries ∙ new)
      (sort_entries-IsDistinct entries h)

has_place-take :
    (e : PeerStoreEntry) (k : ℕ) (entries : List PeerStoreEntry)
    → has_place e entries ≡ false
    → has_place e (take k entries) ≡ false
has_place-take e zero entries h = refl
has_place-take e (suc k) [] h = refl
has_place-take e (suc k) (f ∷ entries) h = elim (Bool-cases (same_place e f)) [
  | inl same ↦ absurd (ground (arith, h, same))
  | inr apart ↦ rw apart (has_place-take e k entries (ground (arith, h, apart)))
]

pub take-IsDistinct :
    (k : ℕ) (entries : List PeerStoreEntry) → IsDistinct entries → IsDistinct (take k entries)
take-IsDistinct zero entries h = tt
take-IsDistinct (suc k) [] h = tt
take-IsDistinct (suc k) (e ∷ entries) (new, h) =
    (has_place-take e k entries new, take-IsDistinct k entries h)

has_place-keep :
    (e : PeerStoreEntry) (p : PeerStoreEntry → Bool) (entries : List PeerStoreEntry)
    → has_place e entries ≡ false
    → has_place e (keep p entries) ≡ false
has_place-keep e p [] h = refl
has_place-keep e p (f ∷ entries) h = elim (Bool-cases (same_place e f)) [
  | inl same ↦ absurd (ground (arith, h, same))
  | inr apart ↦
      let rest = has_place-keep e p entries (ground (arith, h, apart)) in
      if_both (λ es. has_place e es ≡ false) (p f) (rw apart rest) rest
]

pub keep-IsDistinct :
    (p : PeerStoreEntry → Bool) (entries : List PeerStoreEntry)
    → IsDistinct entries
    → IsDistinct (keep p entries)
keep-IsDistinct p [] h = tt
keep-IsDistinct p (e ∷ entries) (new, h) =
    let rest = keep-IsDistinct p entries h in
    if_both IsDistinct (p e) (has_place-keep e p entries new, rest) rest
