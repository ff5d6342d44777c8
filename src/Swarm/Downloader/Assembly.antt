-- ===== src/Swarm/Downloader/Assembly.antt =====
-- Completeness and assembly: when all blocks are there, and what the assembled bytes are.
use guix_p2p.Prelude.{
  ltb, ◌∙◌, sym, ap, ℕ, zero, suc, ◌+◌, ◌<◌, ◌≡◌, refl, ◌⊎◌, inl, inr, Bool, true, Option, none,
  some, List, [], ◌∷◌, ◌++◌, map, arith, Bool-cases, Option-cases, nat_eq, text_eq, ==→≡, length,
  get_elem?, take, drop, any, all, All, range_from, Map,
}
use guix_p2p.Crypto.{Bytes, Text, Crypto}
use guix_p2p.Text.{chars}
use guix_p2p.Swarm.Codec.{PeerId}
use guix_p2p.Swarm.Block.{BlockInfo}
use guix_p2p.Swarm.Block.Chunks.{concat}
use guix_p2p.Swarm.Downloader.{
  block_of, DownloadResult, ActiveDownload, is_some, any_has, find_block, is_complete, gather,
  check_nar, assemble, check_joined, capacity_mod, ok,
}
use guix_p2p.Swarm.Downloader.Integrity.{Fits, IsVerified}

any_has-find_block :
    (m : Map PeerId DownloadResult) (i : ℕ) → any_has m i ≡ is_some (find_block m i)
any_has-find_block [] i = refl
any_has-find_block ((p, r) ∷ m) i = ground (arith, any_has-find_block m i)

-- `gather` succeeds exactly if each of its indices has a block.
pub gather_total :
    (m : Map PeerId DownloadResult) (i n : ℕ)
    → is_some (gather m i n) ≡ all (any_has m) (range_from i n)
unfolding gather
gather_total m i zero = refl
gather_total m i (suc n) = ground (arith, gather_total m (suc i) n, any_has-find_block m i)

all_at :
    (blocks : List (Option Bytes)) (i : ℕ)
    → all is_some blocks ≡ true
    → i < length blocks
    → (b : Bytes) × (get_elem? blocks i ≡ some (some b))
all_at [] i h lt = elim lt [ ]
all_at (some b ∷ blocks) zero h lt = (b, refl)
all_at (none ∷ blocks) i h lt = absurd (ground arith)
all_at (some b ∷ blocks) (suc i) h lt = all_at blocks i h (omega arith)

-- A peer that has every block.
full_peer-any_has :
    (c : Crypto) (info : BlockInfo) (m : Map PeerId DownloadResult) (i : ℕ)
    → All (λ p. Fits c info p.1) m
    → any (λ p. all is_some p.1.blocks) m ≡ true
    → i < info.block_count
    → any_has m i ≡ true
full_peer-any_has c info [] i h full lt = absurd (ground arith)
full_peer-any_has c info ((p, r) ∷ m) i h full lt = elim (Bool-cases (all is_some r.blocks)) [
  | inl this ↦ let (b, there) = all_at r.blocks i this (omega (arith, h.0.slots)) in ground arith
  | inr later ↦ ground (arith, full_peer-any_has c info m i h.1 (ground arith) lt)
]

all_range :
    (p : ℕ → Bool) (lo n : ℕ) → ((i : ℕ) → i < lo + n → p i ≡ true) → all p (range_from lo n) ≡ true
all_range p lo zero h = refl
all_range p lo (suc n) h =
    ground (arith, h lo (omega arith), all_range p (suc lo) n (λ i lt. h i (omega arith)))

module _ (c : Crypto) where
  -- In a verified download, `is_complete` holds exactly if the loop of `assemble` finds a block for
  -- every index.
  pub is_complete-gather :
      (d : ActiveDownload)
      → IsVerified c d
      → is_complete d ≡ is_some (gather d.receivers 0 d.block_info.block_count)
  unfolding is_complete
  is_complete-gather d h = elim (Bool-cases (any (λ p. all is_some p.1.blocks) d.receivers)) [
    | inl full ↦ ground (
      arith,
      gather_total d.receivers 0 d.block_info.block_count,
      all_range (any_has d.receivers) 0 d.block_info.block_count
          (λ i lt. full_peer-any_has c d.block_info d.receivers i h full (omega arith)),
    )
    | inr partial ↦ ground (arith, gather_total d.receivers 0 d.block_info.block_count)
  ]

  -- The hashes of the blocks that were found are those of the layout, in order.
  record Hashed (hashes : List Bytes) (i n : ℕ) (nar : Bytes) : Type 0 where
    pub parts : List Bytes
    pub joined : nar ≡ concat parts
    pub digests : map c.sha256 parts ≡ take n (drop i hashes)

  -- What is returned was allocated, gathered and checked.
  assemble-ok :
      (d : ActiveDownload) (nar : Bytes)
      → assemble c d ≡ ok nar
      → (bytes : Bytes) × (gather d.receivers 0 d.block_info.block_count ≡ some bytes)
        × (check_nar c d bytes ≡ ok nar)
  unfolding assemble check_joined
  assemble-ok d nar e = elim (Bool-cases (ltb d.nar_size capacity_mod)) [
    | inr large ↦ absurd (ground (arith, e, large))
    | inl small ↦ elim (Option-cases (gather d.receivers 0 d.block_info.block_count)) [
      | inl missing ↦ absurd (ground (arith, e, small, missing))
      | inr (bytes, found) ↦ (bytes, found, ground (arith, e, small, found))
    ]
  ]

  -- `assemble` returns only bytes whose SHA-256 text is the one that the narinfo states, with or
  -- without the prefix `sha256:`, and whose length is the stated size, where one is stated.
  pub assemble-verified :
      (d : ActiveDownload) (nar : Bytes)
      → assemble c d ≡ ok nar
      → ((c.hex (c.sha256 nar) ≡ d.nar_hash_hex)
          ⊎ (chars "sha256:" ++ c.hex (c.sha256 nar) ≡ d.nar_hash_hex))
        × ((d.nar_size ≡ 0) ⊎ (length nar ≡ d.nar_size))
  unfolding check_nar
  assemble-verified d nar e =
      let (bytes, found, checked) = assemble-ok d nar e in
      ground (
        arith,
        checked,
        ==→≡ {A = Text} (c.hex (c.sha256 nar)) d.nar_hash_hex,
        ==→≡ {A = Text} (chars "sha256:" ++ c.hex (c.sha256 nar)) d.nar_hash_hex,
      )

  find_block-hash :
      (info : BlockInfo) (m : Map PeerId DownloadResult) (i : ℕ) (b : Bytes)
      → All (λ p. Fits c info p.1) m
      → find_block m i ≡ some b
      → get_elem? info.block_hashes i ≡ some (c.sha256 b)
  find_block-hash info [] i b h e = absurd (ground arith)
  find_block-hash info ((p, r) ∷ m) i b h e = elim (Option-cases (block_of r i)) [
    | inl lacks ↦ find_block-hash info m i b h.1 (ground arith)
    | inr (b', has) ↦ h.0.stored i b (ground arith)
  ]

  take-drop-suc :
      (hashes : List Bytes) (i n : ℕ) (x : Bytes)
      → get_elem? hashes i ≡ some x
      → take (suc n) (drop i hashes) ≡ x ∷ take n (drop (suc i) hashes)
  take-drop-suc [] i n x e = absurd (ground arith)
  take-drop-suc (y ∷ hashes) zero n x e = ground arith
  take-drop-suc (y ∷ hashes) (suc i) n x e = take-drop-suc hashes i n x e

  gather-Hashed :
      (info : BlockInfo) (m : Map PeerId DownloadResult) (i n : ℕ) (nar : Bytes)
      → All (λ p. Fits c info p.1) m
      → gather m i n ≡ some nar
      → Hashed info.block_hashes i n nar
  unfolding gather
  gather-Hashed info m i zero nar h e = record { parts = []; joined = ground arith; digests = refl }
  gather-Hashed info m i (suc n) nar h e = elim (Option-cases (find_block m i)) [
    | inl lacks ↦ absurd (ground arith)
    | inr (b, has) ↦ elim (Option-cases (gather m (suc i) n)) [
      | inl short ↦ absurd (ground arith)
      | inr (rest, more) ↦
          let t = gather-Hashed info m (suc i) n rest h more in
          record {
            parts = b ∷ t.parts;
            joined = ground (arith, t.joined);
            digests =
                ap (λ l. c.sha256 b ∷ l) t.digests
                ∙ sym (
                    take-drop-suc info.block_hashes i n (c.sha256 b)
                      (find_block-hash info m i b h has));
          }
    ]
  ]

  -- The bytes that `assemble` returns for a verified download are blocks joined in order, one for each index of the layout,
  -- whose SHA-256 digests are the hashes of the layout.
  pub assemble-blocks :
      (d : ActiveDownload) (nar : Bytes)
      → IsVerified c d
      → assemble c d ≡ ok nar
      → (parts : List Bytes) × (nar ≡ concat parts)
        × (map c.sha256 parts ≡ take d.block_info.block_count d.block_info.block_hashes)
  unfolding check_nar
  assemble-blocks d nar h e =
      let (bytes, found, checked) = assemble-ok d nar e in
      let same : bytes ≡ nar = ground (arith, checked) in
      let t = gather-Hashed d.block_info d.receivers 0 d.block_info.block_count bytes h found in
      (t.parts, sym same ∙ t.joined, t.digests)
