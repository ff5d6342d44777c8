-- ===== src/Swarm/Downloader/Acceptance.antt =====
-- Which blocks a call of `record_blocks` takes, and when it panics.
use guix_p2p.Prelude.{
  ltb→lt, tests, get_elem?-some_of_lt, ◌%◌, get_elem?-none_of_le, ltb, lookup-modify, length-set,
  ◌<◌, lookup, ◌≢◌, ◌≤◌, length, ℕ, ◌≡◌, refl, sym, ap, ◌∙◌, inl, inr, true, false, ◌||◌, none,
  some, List, [], ◌∷◌, ◌++◌, arith, nat_beq, Bool-cases, Option-cases, nat_eq, text_eq, get_elem?,
  keep, get_elem?-set_self, get_elem?-set_ne, contains,
}
use guix_p2p.Crypto.{Bytes, Crypto}
use guix_p2p.Swarm.Codec.{PeerId}
use guix_p2p.Swarm.Block.{u32_mod}
use guix_p2p.Swarm.Downloader.{
  ActiveDownload, record_blocks, accept_blocks, DownloadResult, block_of, is_some, accept_block,
}
use guix_p2p.Swarm.Downloader.Integrity.{All-lookup, IsVerified, accept_block_cases}

contains-append :
    (xs : List ℕ) (a i : ℕ) → contains (xs ++ a ∷ []) i ≡ (contains xs i || nat_beq a i)
contains-append [] a i = ground arith
contains-append (x ∷ xs) a i = ground (arith, contains-append xs a i)

-- From slots `r` and the indices `acc` taken so far, to slots `r'` and indices `acc'`: what is newly
-- listed was vacant and is stored, what is not listed is as it was, and no block is overwritten.
pub record Extends (r : DownloadResult) (acc : List ℕ) (r' : DownloadResult) (acc' : List ℕ)
    : Type 0 where
  pub listed : (i : ℕ) → contains acc i ≡ true → contains acc' i ≡ true
  pub taken :
      (i : ℕ)
      → contains acc i ≡ false
      → contains acc' i ≡ true
      → (get_elem? r.blocks i ≡ some none) × (is_some (block_of r' i) ≡ true)
  pub others : (i : ℕ) → contains acc' i ≡ false → get_elem? r'.blocks i ≡ get_elem? r.blocks i
  pub kept :
      (i : ℕ) (b : Bytes)
      → get_elem? r.blocks i ≡ some (some b)
      → get_elem? r'.blocks i ≡ some (some b)

Extends-refl : (r : DownloadResult) (acc : List ℕ) → Extends r acc r acc
Extends-refl r acc = record {
  listed = λ i h. h;
  taken = λ i h k. absurd (cc);
  others = λ i h. refl;
  kept = λ i b h. h;
}

Extends-trans :
    {r m r' : DownloadResult} {acc mid acc' : List ℕ}
    → Extends r acc m mid
    → Extends m mid r' acc'
    → Extends r acc r' acc'
Extends-trans {r} {m} {r'} {acc} {mid} {acc'} f g = record {
  listed = λ i h. g.listed i (f.listed i h);
  taken = λ i old now. elim (Bool-cases (contains mid i)) [
    | inl first ↦ (
      ((f.taken i old first).0),
      ground (arith, f.taken i old first, kept_block m r' i (f.taken i old first).1 (g.kept i)),
    )
    | inr second ↦ (sym (f.others i second) ∙ (g.taken i second now).0, (g.taken i second now).1)
  ];
  others = λ i h. elim (Bool-cases (contains mid i)) [
    | inl listed ↦ absurd (cc (g.listed i listed))
    | inr free ↦ g.others i h ∙ f.others i free
  ];
  kept = λ i b h. g.kept i b (f.kept i b h);
}
  where
    kept_block :
        (m r' : DownloadResult) (i : ℕ)
        → is_some (block_of m i) ≡ true
        → ((b : Bytes)
            → get_elem? m.blocks i ≡ some (some b)
            → get_elem? r'.blocks i ≡ some (some b))
        → is_some (block_of r' i) ≡ true
    kept_block m r' i has keep = elim (Option-cases (get_elem? m.blocks i)) [
      | inl out ↦ absurd (ground arith)
      | inr (none, vacant) ↦ absurd (ground arith)
      | inr (some b, there) ↦ ground (arith, keep b there)
    ]

module _ (c : Crypto) where
  Extends-accept_block :
      (hashes : List Bytes) (r r' : DownloadResult) (acc acc' : List ℕ) (idx : ℕ) (bytes : Bytes)
      → accept_block c hashes r acc idx bytes ≡ some (r', acc')
      → Extends r acc r' acc'
  Extends-accept_block hashes r r' acc acc' idx bytes e =
      elim (accept_block_cases c hashes r r' acc acc' idx bytes e) [
        | inl (same, same_acc) ↦ rw (same, same_acc) (Extends-refl r acc)
        | inr (room, hashed, vacant, written, grown) ↦
            rw (written, grown)
              (record {
                listed = λ i h. ground (arith, contains-append acc idx i);
                taken = λ i old now.
                    let here : idx ≡ i = ground (arith, contains-append acc idx i) in
                    (
                      rw (← here) vacant,
                      ground (arith, here, get_elem?-set_self r.blocks idx (some bytes) room),
                    );
                others = λ i h.
                    get_elem?-set_ne r.blocks idx i (some bytes)
                      (ground (arith, contains-append acc idx i));
                kept = λ i b h.
                    get_elem?-set_ne r.blocks idx i (some bytes)
                      (λ same. cc (ap (get_elem? r.blocks) same))
                    ∙ h;
              })
      ]

  pub Extends-accept_blocks :
      (hashes : List Bytes) (r r' : DownloadResult) (acc acc' : List ℕ) (blocks : List (ℕ × Bytes))
      → accept_blocks c hashes r acc blocks ≡ some (r', acc')
      → Extends r acc r' acc'
  unfolding accept_blocks
  Extends-accept_blocks hashes r r' acc acc' [] e =
      let same : r ≡ r' = ground arith in
      let same_acc : acc ≡ acc' = ground arith in rw (← same, ← same_acc) (Extends-refl r acc)
  Extends-accept_blocks hashes r r' acc acc' ((idx, bytes) ∷ blocks) e =
      elim (Option-cases (accept_block c hashes r acc idx bytes)) [
        | inl panic ↦ absurd (ground arith)
        | inr ((m, mid), step) ↦
            Extends-trans (Extends-accept_block hashes r m acc mid idx bytes step)
              (Extends-accept_blocks hashes m r' mid acc' blocks (ground arith))
      ]

  -- For a peer that takes part in the download, a call that returns answers with exactly the
  -- indices whose blocks are new: each listed slot of the peer was empty and is filled, each slot
  -- that is not listed is as it was, and a block that is stored is never replaced.
  pub record_blocks-Extends :
      (d d' : ActiveDownload) (peer : PeerId) (r : DownloadResult) (blocks : List (ℕ × Bytes))
      (accepted : List ℕ)
      → lookup d.receivers peer ≡ some r
      → record_blocks c d peer blocks ≡ some (d', accepted)
      → (r' : DownloadResult) × (lookup d'.receivers peer ≡ some r') × Extends r [] r' accepted
  unfolding record_blocks
  record_blocks-Extends d d' peer r blocks accepted known e =
      elim (Option-cases (accept_blocks c d.block_info.block_hashes r [] blocks)) [
        | inl panic ↦ absurd (ground arith)
        | inr ((r', acc), done) ↦
            let same : acc ≡ accepted = ground arith in
            (
              r',
              ground (arith, lookup-modify d.receivers peer peer (λ _. r')),
              rw (← same) (Extends-accept_blocks d.block_info.block_hashes r r' [] acc blocks done),
            )
      ]

  accept_block_total :
      (hashes : List Bytes) (r : DownloadResult) (acc : List ℕ) (idx : ℕ) (bytes : Bytes)
      → length r.blocks ≤ length hashes
      → accept_block c hashes r acc idx bytes ≢ none
  unfolding accept_block
  accept_block_total hashes r acc idx bytes enough panic =
      elim (Bool-cases (ltb idx (length r.blocks % u32_mod))) [
        | inl inside ↦
            let (h, found) = get_elem?-some_of_lt hashes idx (omega (tests, ltb→lt _ _ inside)) in
            ground arith
        | inr outside ↦ ground arith
      ]

  accept_blocks_total :
      (hashes : List Bytes) (r : DownloadResult) (acc : List ℕ) (blocks : List (ℕ × Bytes))
      → length r.blocks ≤ length hashes
      → accept_blocks c hashes r acc blocks ≢ none
  unfolding accept_blocks
  accept_blocks_total hashes r acc [] enough panic = ground arith
  accept_blocks_total hashes r acc ((idx, bytes) ∷ blocks) enough panic =
      elim (Option-cases (accept_block c hashes r acc idx bytes)) [
        | inl fault ↦ accept_block_total hashes r acc idx bytes enough fault
        | inr ((m, mid), step) ↦
            let slots : length m.blocks ≡ length r.blocks = ground (
              arith,
              accept_block_cases c hashes r m acc mid idx bytes step,
              length-set r.blocks idx (some bytes),
            ) in
            accept_blocks_total hashes m mid blocks (omega (arith, slots)) (ground arith)
      ]

  -- In a verified download with a hash for every block of the layout, no message of a peer makes `record_blocks` panic.
  pub record_blocks_total :
      (d : ActiveDownload) (peer : PeerId) (blocks : List (ℕ × Bytes))
      → IsVerified c d
      → d.block_info.block_count ≤ length d.block_info.block_hashes
      → record_blocks c d peer blocks ≢ none
  unfolding record_blocks
  record_blocks_total d peer blocks h enough panic = elim (Option-cases (lookup d.receivers peer)) [
    | inl stranger ↦ ground arith
    | inr (r, known) ↦
        let slots : length r.blocks ≡ d.block_info.block_count =
          (All-lookup c d.block_info d.receivers peer r h known).slots in
        accept_blocks_total d.block_info.block_hashes r [] blocks (omega (arith, slots))
          (ground arith)
  ]

  -- In a verified download whose layout has fewer hashes than blocks (a count that fits 32 bits), a
  -- message of a known peer that begins with a block for an index that has a slot and no hash makes
  -- `record_blocks` panic.
  pub record_blocks_panics :
      (d : ActiveDownload) (peer : PeerId) (r : DownloadResult) (idx : ℕ) (bytes : Bytes)
      (blocks : List (ℕ × Bytes))
      → IsVerified c d
      → lookup d.receivers peer ≡ some r
      → d.block_info.block_count < u32_mod
      → length d.block_info.block_hashes ≤ idx
      → idx < d.block_info.block_count
      → record_blocks c d peer ((idx, bytes) ∷ blocks) ≡ none
  unfolding record_blocks accept_blocks accept_block
  record_blocks_panics d peer r idx bytes blocks h known small few inside = ground (
    arith,
    (All-lookup c d.block_info d.receivers peer r h known).slots,
    get_elem?-none_of_le d.block_info.block_hashes idx few,
  )
