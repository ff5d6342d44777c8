-- ===== src/Swarm/Downloader/Integrity.antt =====
-- What a download has stored: every block fits its hash, and what is accepted is new.
use guix_p2p.Prelude.{
  get_elem?-replicate, Option, lookup, length-replicate, modify, insert, replicate, Map, [], ◌∷◌,
  ◌++◌, none, ◌⊎◌, Option-cases, subst, ap, get_elem?-set_self, get_elem?-set_ne, lt_of_get_elem?,
  Bool-cases, nat_beq, ◌∙◌, set, ◌<◌, ◌≢◌, inl, inr, sym, ==→≡, nat_eq, text_eq, ℕ, ◌≡◌, some, List,
  arith, length, get_elem?, All, length-set,
}
use guix_p2p.Crypto.{Bytes, Crypto}
use guix_p2p.Swarm.Codec.{PeerId}
use guix_p2p.Swarm.Block.{BlockInfo}
use guix_p2p.Swarm.Downloader.{
  add_peer, record_blocks, accept_blocks, DownloadResult, ActiveDownload, accept_block,
}

module _ (c : Crypto) where
  -- One slot for each block, and every stored block has the digest that the layout states.
  pub record Fits (info : BlockInfo) (r : DownloadResult) : Type 0 where
    pub slots : length r.blocks ≡ info.block_count
    pub stored :
        (i : ℕ) (b : Bytes)
        → get_elem? r.blocks i ≡ some (some b)
        → get_elem? info.block_hashes i ≡ some (c.sha256 b)

  abbrev pub IsVerified : ActiveDownload → Type 0
  IsVerified d = All (λ p. Fits d.block_info p.1) d.receivers

  -- A slot of the list after a write: the written value there, the old one elsewhere.
  Fits-set :
      (info : BlockInfo) (r : DownloadResult) (idx : ℕ) (bytes : Bytes)
      → Fits info r
      → get_elem? info.block_hashes idx ≡ some (c.sha256 bytes)
      → Fits info (record r { blocks = set r.blocks idx (some bytes) })
  Fits-set info r idx bytes h hashed = record {
    slots = length-set r.blocks idx (some bytes) ∙ h.slots;
    stored = λ i b got. elim (Bool-cases (nat_beq idx i)) [
      | inl same ↦
          let e : idx ≡ i = ground arith in
          let here : get_elem? (set r.blocks idx (some bytes)) idx ≡ some (some b) =
            ap (get_elem? (set r.blocks idx (some bytes))) e ∙ got in
          let room : idx < length r.blocks =
            omega
              (arith, length-set r.blocks idx (some bytes), lt_of_get_elem? _ idx (some b) here) in
          let same_bytes : bytes ≡ b =
            cc (here, get_elem?-set_self r.blocks idx (some bytes) room) in
          rw (← e, ← same_bytes) hashed
      | inr other ↦
          let ne : idx ≢ i = ground arith in
          h.stored i b (sym (get_elem?-set_ne r.blocks idx i (some bytes) ne) ∙ got)
    ];
  }

  -- The two ways in which a round that does not panic ends.
  pub accept_block_cases :
      (hashes : List Bytes) (r r' : DownloadResult) (accepted accepted' : List ℕ) (idx : ℕ)
      (bytes : Bytes)
      → accept_block c hashes r accepted idx bytes ≡ some (r', accepted')
      → ((r' ≡ r) × (accepted' ≡ accepted))
        ⊎ (idx < length r.blocks)
          × (get_elem? hashes idx ≡ some (c.sha256 bytes))
          × (get_elem? r.blocks idx ≡ some none)
          × (r' ≡ record r { blocks = set r.blocks idx (some bytes) })
          × (accepted' ≡ accepted ++ idx ∷ [])
  unfolding accept_block
  accept_block_cases hashes r r' accepted accepted' idx bytes e =
      elim (Option-cases (get_elem? hashes idx)) [
        | inl short ↦ ground arith
        | inr (expected, found) ↦ ground (arith, ==→≡ {A = Bytes} (c.sha256 bytes) expected)
      ]

  Fits-accept_block :
      (info : BlockInfo) (r r' : DownloadResult) (accepted accepted' : List ℕ) (idx : ℕ)
      (bytes : Bytes)
      → Fits info r
      → accept_block c info.block_hashes r accepted idx bytes ≡ some (r', accepted')
      → Fits info r'
  Fits-accept_block info r r' accepted accepted' idx bytes h e =
      elim (accept_block_cases info.block_hashes r r' accepted accepted' idx bytes e) [
        | inl (same, _) ↦ subst (Fits info) (sym same) h
        | inr (_, hashed, _, written, _) ↦
            subst (Fits info) (sym written) (Fits-set info r idx bytes h hashed)
      ]

  Fits-accept_blocks :
      (info : BlockInfo) (r r' : DownloadResult) (accepted accepted' : List ℕ)
      (blocks : List (ℕ × Bytes))
      → Fits info r
      → accept_blocks c info.block_hashes r accepted blocks ≡ some (r', accepted')
      → Fits info r'
  unfolding accept_blocks
  Fits-accept_blocks info r r' accepted accepted' [] h e =
      let same : r ≡ r' = ground arith in subst (Fits info) same h
  Fits-accept_blocks info r r' accepted accepted' ((idx, bytes) ∷ blocks) h e =
      elim (Option-cases (accept_block c info.block_hashes r accepted idx bytes)) [
        | inl panic ↦ absurd (ground arith)
        | inr ((mid, accepted''), step) ↦
            Fits-accept_blocks info mid r' accepted'' accepted' blocks
              (Fits-accept_block info r mid accepted accepted'' idx bytes h step) (ground arith)
      ]

  pub All-lookup :
      (info : BlockInfo) (m : Map PeerId DownloadResult) (peer : PeerId) (r : DownloadResult)
      → All (λ p. Fits info p.1) m
      → lookup m peer ≡ some r
      → Fits info r
  All-lookup info [] peer r h e = absurd (ground arith)
  All-lookup info ((k, v) ∷ m) peer r h e = elim (Bool-cases (nat_beq k peer)) [
    | inl here ↦ let same : v ≡ r = ground arith in subst (Fits info) same h.0
    | inr there ↦ All-lookup info m peer r h.1 (ground arith)
  ]

  All-modify :
      (info : BlockInfo) (m : Map PeerId DownloadResult) (peer : PeerId) (r : DownloadResult)
      → All (λ p. Fits info p.1) m
      → Fits info r
      → All (λ p. Fits info p.1) (modify m peer (λ _. r))
  All-modify info [] peer r h f = tt
  All-modify info ((k, v) ∷ m) peer r h f = elim (Bool-cases (nat_beq k peer)) [
    | inl here ↦ rw here (f, h.1)
    | inr there ↦ rw there (h.0, All-modify info m peer r h.1 f)
  ]

  All-insert :
      (info : BlockInfo) (m : Map PeerId DownloadResult) (peer : PeerId) (r : DownloadResult)
      → All (λ p. Fits info p.1) m
      → Fits info r
      → All (λ p. Fits info p.1) (insert m peer r)
  All-insert info [] peer r h f = (f, tt)
  All-insert info ((k, v) ∷ m) peer r h f = elim (Bool-cases (nat_beq k peer)) [
    | inl here ↦ rw here (f, h.1)
    | inr there ↦ rw there (h.0, All-insert info m peer r h.1 f)
  ]

  Fits-vacant : (info : BlockInfo) → Fits info (record { blocks = replicate info.block_count none })
  Fits-vacant info = record {
    slots = length-replicate info.block_count none;
    stored = λ i b got.
        let room : i < info.block_count = omega (
          arith,
          lt_of_get_elem? _ i (some b) got,
          length-replicate {A = Option Bytes} info.block_count none,
        ) in
        absurd (cc (got, get_elem?-replicate {A = Option Bytes} info.block_count i none room));
  }

  -- A download that starts, and one to which a peer is added, has only verified blocks.
  pub add_peer-IsVerified :
      (d : ActiveDownload) (peer : PeerId) → IsVerified d → IsVerified (add_peer d peer)
  unfolding add_peer
  add_peer-IsVerified d peer h =
      All-insert d.block_info d.receivers peer _ h (Fits-vacant d.block_info)

  -- In a verified download, whatever a peer sends, in whatever order and however often: a call of `record_blocks` that
  -- returns leaves, for every peer, one slot for each block of the layout, and each stored block
  -- has the SHA-256 digest that the layout states for its index.
  pub record_blocks-IsVerified :
      (d d' : ActiveDownload) (peer : PeerId) (blocks : List (ℕ × Bytes)) (accepted : List ℕ)
      → IsVerified d
      → record_blocks c d peer blocks ≡ some (d', accepted)
      → IsVerified d' × (d'.block_info ≡ d.block_info)
  unfolding record_blocks
  record_blocks-IsVerified d d' peer blocks accepted h e =
      elim (Option-cases (lookup d.receivers peer)) [
        | inl stranger ↦ let same : d ≡ d' = ground arith in (subst IsVerified same h, ground arith)
        | inr (r, known) ↦
            elim (Option-cases (accept_blocks c d.block_info.block_hashes r [] blocks)) [
              | inl panic ↦ absurd (ground arith)
              | inr ((r', acc), done) ↦
                  let same : record d { receivers = modify d.receivers peer (λ _. r') } ≡ d' =
                    ground arith in
                  (
                    subst IsVerified same (
                        All-modify d.block_info d.receivers peer r' h (
                          Fits-accept_blocks d.block_info r r' [] acc blocks
                            (All-lookup d.block_info d.receivers peer r h known) done)),
                    ground arith,
                  )
            ]
      ]
