-- ===== src/NarStore/Transfer.antt =====
-- From a seeder to a downloader: the blocks that src/nar_store.rs serves are those that
-- src/swarm/downloader.rs accepts, and they assemble to the NAR.
use guix_p2p.Swarm.Downloader.Assembly.{gather_total}
use guix_p2p.Prelude.{
  false, get_elem?-replicate, is_empty, length-replicate, replicate, range_from, lookup, refl,
  contains, All, ℕ, zero, suc, ◌+◌, ◌-◌, ◌*◌, ◌/◌, ◌%◌, ◌<◌, min, ◌≡◌, sym, ap, ◌∙◌, ◌≢◌, ◌↔◌, inl,
  inr, true, Option, none, some, List, [], ◌∷◌, ◌++◌, map, arith, ltb, leb, nat_beq, ltb→lt, lt→ltb,
  tests, Bool-cases, nat_eq, text_beq, text_beq_refl, text_eq, length, get_elem?, set, take, drop,
  length-set, length-drop, take_of_length-le, get_elem?-set_self, get_elem?-set_ne,
  get_elem?-some_of_lt, lt_of_get_elem?,
}
use guix_p2p.Crypto.{Bytes, Crypto}
use guix_p2p.Swarm.Codec.{PeerId, BlockData, BlockResponse, handshake, get_blocks}
use guix_p2p.Swarm.Block.{
  compute_block_hashes, set_hashes, u32_mod, usize_mod, BlockInfo, from_file_size, chunks,
}
use guix_p2p.Swarm.Block.Chunks.{concat-chunks, concat, get_elem?-chunks}
use guix_p2p.Swarm.Block.Layout.{block_count_iff, block_count_lt}
use guix_p2p.Swarm.Downloader.{
  record_blocks, ok, new, add_peer, check_nar, is_complete, ActiveDownload, find_block,
  capacity_mod, check_joined, accept_blocks, gather, DownloadResult, accept_block, assemble,
}
use guix_p2p.Swarm.Downloader.Acceptance.{Extends-accept_blocks}
use guix_p2p.Scheduler.{decode_block_data}
use guix_p2p.NarStore.{
  false, is_empty, range_from, lookup, NarEntry, Files, compute_block_hashes, handle_request,
  filter_map, Map, NarStore, serve_block,
}

same_bound : (m n : ℕ) → ((i : ℕ) → i < m → i < n) → ((i : ℕ) → i < n → i < m) → m ≡ n
same_bound m n f g = elim (Bool-cases (ltb m n)) [
  | inl less ↦ absurd (omega (tests, g m (ltb→lt m n less)))
  | inr not_less ↦ elim (Bool-cases (ltb n m)) [
    | inl more ↦ absurd (omega (tests, f n (ltb→lt n m more)))
    | inr not_more ↦ omega tests
  ]
]

-- A NAR that is served in blocks of `bs` bytes, within the bounds of the machine's words, and of the
-- length that a vector of bytes may have.
pub record IsServable (bs : ℕ) (nar : Bytes) (info : BlockInfo) : Type 0 where
  pub layout : from_file_size (length nar) bs ≡ some info
  pub not_empty : 0 < length nar
  pub positive : 0 < bs
  pub in_memory : length nar + bs < usize_mod
  pub allocatable : length nar < capacity_mod
  pub few_blocks : length nar / bs + 1 < u32_mod

module _ {bs : ℕ} {nar : Bytes} {info : BlockInfo} (s : IsServable bs nar info) where
  pub block_iff : (i : ℕ) → (i < info.block_count) ↔ (i * bs < length nar)
  block_iff i = block_count_iff (length nar) bs i info s.layout s.not_empty s.few_blocks

  slice_rest :
      (off : ℕ)
      → off < length nar
      → take (min (off + bs) (length nar) - off) (drop off nar) ≡ take bs (drop off nar)
  slice_rest off h = elim (Bool-cases (leb (off + bs) (length nar))) [
    | inl whole ↦ ap (λ k. take k (drop off nar)) (omega tests)
    | inr last ↦
        take_of_length-le _ (drop off nar) (omega (tests, length-drop off nar))
        ∙ sym (take_of_length-le bs (drop off nar) (omega (tests, length-drop off nar)))
  ]

  -- A seeder serves, for an index of the layout, exactly the block that `chunks` cuts there.
  pub serve_block-chunk :
      (i : ℕ)
      → i < info.block_count
      → (b : Bytes) × (serve_block bs nar i ≡ some (record { index = i; bytes = b }))
        × (get_elem? (chunks bs nar) i ≡ some b)
  unfolding serve_block
  serve_block-chunk i h =
      let inside : i * bs < length nar = (block_iff i).0 h in
      (
        take bs (drop (i * bs) nar),
        ground (arith, s.in_memory, slice_rest (i * bs) inside),
        get_elem?-chunks bs i nar s.positive ∙ ground arith,
      )

  length-chunks : length (chunks bs nar) ≡ info.block_count
  length-chunks =
      same_bound (length (chunks bs nar)) info.block_count
        (λ i h.
          let (b, there) = get_elem?-some_of_lt (chunks bs nar) i h in
          (block_iff i).1 (ground (arith, there, get_elem?-chunks bs i nar s.positive)))
        (λ i h.
          let (b, _, there) = serve_block-chunk i h in lt_of_get_elem? (chunks bs nar) i b there)

get_elem?-map {ℓ κ} :
    {A : Type ℓ} {B : Type κ} (f : A → B) (xs : List A) (i : ℕ) (a : A)
    → get_elem? xs i ≡ some a
    → get_elem? (map f xs) i ≡ some (f a)
get_elem?-map f [] i a h = absurd (ground arith)
get_elem?-map f (x ∷ xs) zero a h = ground arith
get_elem?-map f (x ∷ xs) (suc i) a h = get_elem?-map f xs i a h

module _ (c : Crypto) {bs : ℕ} {nar : Bytes} {info : BlockInfo} (s : IsServable bs nar info) where
  abbrev hashes : List Bytes
  hashes = map c.sha256 (chunks bs nar)

  -- Slots that hold nothing but the NAR's own blocks.
  record IsHonest (r : DownloadResult) : Type 0 where
    slots : length r.blocks ≡ info.block_count
    own :
        (i : ℕ) (b : Bytes)
        → get_elem? r.blocks i ≡ some (some b)
        → get_elem? (chunks bs nar) i ≡ some b

  IsHonest-set :
      (r : DownloadResult) (idx : ℕ) (b : Bytes)
      → IsHonest r
      → get_elem? (chunks bs nar) idx ≡ some b
      → IsHonest (record r { blocks = set r.blocks idx (some b) })
  IsHonest-set r idx b h chunk = record {
    slots = length-set r.blocks idx (some b) ∙ h.slots;
    own = λ i b' got. elim (Bool-cases (nat_beq idx i)) [
      | inl same ↦
          let e : idx ≡ i = ground arith in
          let room : idx < length r.blocks =
            omega (arith, h.slots, length-chunks s, lt_of_get_elem? (chunks bs nar) idx b chunk) in
          let same_bytes : b ≡ b' = cc (
            get_elem?-set_self r.blocks idx (some b) room,
            ap (get_elem? (set r.blocks idx (some b))) e,
            got,
          ) in
          rw (← e, ← same_bytes) chunk
      | inr other ↦
          let ne : idx ≢ i = ground arith in
          h.own i b' (sym (get_elem?-set_ne r.blocks idx i (some b) ne) ∙ got)
    ];
  }

  -- An honest block is taken, or its slot holds it already.
  record Takes (r : DownloadResult) (acc : List ℕ) (idx : ℕ) (b : Bytes) : Type 0 where
    after : DownloadResult
    listed : List ℕ
    runs : accept_block c hashes r acc idx b ≡ some (after, listed)
    honest : IsHonest after
    filled : get_elem? after.blocks idx ≡ some (some b)

  accept_block-Takes :
      (r : DownloadResult) (acc : List ℕ) (idx : ℕ) (b : Bytes)
      → IsHonest r
      → get_elem? (chunks bs nar) idx ≡ some b
      → Takes r acc idx b
  unfolding accept_block
  accept_block-Takes r acc idx b h chunk =
      let room : idx < length r.blocks =
        omega (arith, h.slots, length-chunks s, lt_of_get_elem? (chunks bs nar) idx b chunk) in
      let small : length r.blocks % u32_mod ≡ length r.blocks =
        omega (arith, h.slots, block_count_lt (length nar) bs info s.layout) in
      let inside : ltb idx (length r.blocks % u32_mod) ≡ true = rw small (lt→ltb _ _ room) in
      let hash : get_elem? hashes idx ≡ some (c.sha256 b) =
        get_elem?-map c.sha256 (chunks bs nar) idx b chunk in
      let equal : text_beq (c.sha256 b) (c.sha256 b) ≡ true = text_beq_refl (c.sha256 b) in
      slot_cases (get_elem?-some_of_lt r.blocks idx room) inside hash equal room
    where
      slot_cases :
          (a : Option Bytes) × (get_elem? r.blocks idx ≡ some a)
          → ltb idx (length r.blocks % u32_mod) ≡ true
          → get_elem? hashes idx ≡ some (c.sha256 b)
          → text_beq (c.sha256 b) (c.sha256 b) ≡ true
          → idx < length r.blocks
          → Takes r acc idx b
      slot_cases (none, vacant) inside hash equal room = record {
        after = record r { blocks = set r.blocks idx (some b) };
        listed = acc ++ idx ∷ [];
        runs = ground arith;
        honest = IsHonest-set r idx b h chunk;
        filled = get_elem?-set_self r.blocks idx (some b) room;
      }
      slot_cases (some b', held) inside hash equal room = record {
        after = r;
        listed = acc;
        runs = ground arith;
        honest = h;
        filled = cc (held, h.own idx b' held, chunk);
      }

  -- A whole message of honest blocks: the call returns, and every block of it is in its slot.
  record TakesAll (r : DownloadResult) (acc : List ℕ) (blocks : List (ℕ × Bytes)) : Type 0 where
    after : DownloadResult
    listed : List ℕ
    runs : accept_blocks c hashes r acc blocks ≡ some (after, listed)
    honest : IsHonest after
    filled : All (λ p. get_elem? after.blocks p.0 ≡ some (some p.1)) blocks

  accept_blocks-TakesAll :
      (r : DownloadResult) (acc : List ℕ) (blocks : List (ℕ × Bytes))
      → IsHonest r
      → All (λ p. get_elem? (chunks bs nar) p.0 ≡ some p.1) blocks
      → TakesAll r acc blocks
  unfolding accept_blocks
  accept_blocks-TakesAll r acc [] h own = record {
    after = r;
    listed = acc;
    runs = refl;
    honest = h;
    filled = tt;
  }
  accept_blocks-TakesAll r acc ((idx, b) ∷ blocks) h own =
      let t = accept_block-Takes r acc idx b h own.0 in
      let u = accept_blocks-TakesAll t.after t.listed blocks t.honest own.1 in
      record {
        after = u.after;
        listed = u.listed;
        runs = ground (arith, t.runs, u.runs);
        honest = u.honest;
        filled = (
          (Extends-accept_blocks c hashes t.after u.after t.listed u.listed blocks u.runs).kept idx
              b t.filled,
          u.filled,
        );
      }

  served_cons :
      (i : ℕ) (indices : List ℕ) (b : Bytes)
      → serve_block bs nar i ≡ some (record { index = i; bytes = b })
      → decode_block_data (filter_map (serve_block bs nar) (i ∷ indices))
        ≡ (i, b) ∷ decode_block_data (filter_map (serve_block bs nar) indices)
  unfolding decode_block_data
  served_cons i indices b served = ground (arith, served)

  -- The blocks that a seeder serves for indices of the layout are the NAR's own.
  served_own :
      (indices : List ℕ)
      → All (λ i. i < info.block_count) indices
      → All
          (λ p. get_elem? (chunks bs nar) p.0 ≡ some p.1)
          (decode_block_data (filter_map (serve_block bs nar) indices))
  unfolding decode_block_data
  served_own [] h = tt
  served_own (i ∷ indices) h =
      let (b, served, chunk) = serve_block-chunk s i h.0 in
      rw (served_cons i indices b served) (chunk, served_own indices h.1)

  served_covers :
      (indices : List ℕ) (i : ℕ) (after : DownloadResult)
      → All (λ i. i < info.block_count) indices
      → contains indices i ≡ true
      → All
          (λ p. get_elem? after.blocks p.0 ≡ some (some p.1))
          (decode_block_data (filter_map (serve_block bs nar) indices))
      → (b : Bytes) × (get_elem? after.blocks i ≡ some (some b))
  unfolding decode_block_data
  served_covers [] i after h has filled = absurd (ground arith)
  served_covers (j ∷ indices) i after h has filled =
      let (b, served, chunk) = serve_block-chunk s j h.0 in
      let filled' : (get_elem? after.blocks j ≡ some (some b))
          × All (λ p. get_elem? after.blocks p.0 ≡ some (some p.1))
              (decode_block_data (filter_map (serve_block bs nar) indices)) =
        rw (served_cons j indices b served) at filled in
      elim (Bool-cases (nat_beq j i)) [
        | inl here ↦
            let e : j ≡ i = ground arith in (b, ap (get_elem? after.blocks) (sym e) ∙ filled'.0)
        | inr there ↦ served_covers indices i after h.1 (ground arith) filled'.1
      ]

  served_not_empty :
      (indices : List ℕ) (i : ℕ)
      → All (λ i. i < info.block_count) indices
      → contains indices i ≡ true
      → is_empty (filter_map (serve_block bs nar) indices) ≡ false
  served_not_empty [] i h has = absurd (ground arith)
  served_not_empty (j ∷ indices) i h has =
      let (b, served, chunk) = serve_block-chunk s j h.0 in ground (arith, served)

  IsHonest-vacant : IsHonest (record { blocks = replicate info.block_count none })
  IsHonest-vacant = record {
    slots = length-replicate info.block_count none;
    own = λ i b got.
        let room : i < info.block_count = omega (
          arith,
          lt_of_get_elem? _ i (some b) got,
          length-replicate {A = Option Bytes} info.block_count none,
        ) in
        absurd (cc (got, get_elem?-replicate {A = Option Bytes} info.block_count i none room));
  }

gather_parts :
    (m : Map PeerId DownloadResult) (i : ℕ) (parts : List Bytes)
    → ((j : ℕ) (b : Bytes) → get_elem? parts j ≡ some b → find_block m (i + j) ≡ some b)
    → gather m i (length parts) ≡ some (concat parts)
unfolding gather
gather_parts m i [] h = refl
gather_parts m i (b ∷ parts) h =
    let first : find_block m i ≡ some b = ap (find_block m) (omega arith) ∙ h 0 b refl in
    let rest : gather m (suc i) (length parts) ≡ some (concat parts) =
      gather_parts m (suc i) parts
        (λ j b' got. ap (find_block m) (omega arith) ∙ h (suc j) b' got) in
    ground (arith, first, rest)

module _ (c : Crypto) where
  -- The download of one NAR from one peer, as the downloader sets it up after the handshake.
  abbrev pub start : ℕ → PeerId → Bytes → BlockInfo → List Bytes → ActiveDownload
  start now peer nar info hs =
      add_peer (new now (c.hex (c.sha256 nar)) (length nar) (set_hashes info hs) [] []) peer

  assemble_honest :
      {bs : ℕ} {nar : Bytes} {info : BlockInfo} (s : IsServable bs nar info) (d : ActiveDownload)
      (peer : PeerId) (r : DownloadResult)
      → d.receivers ≡ (peer, r) ∷ []
      → d.block_info.block_count ≡ info.block_count
      → d.nar_hash_hex ≡ c.hex (c.sha256 nar)
      → d.nar_size ≡ length nar
      → IsHonest c s r
      → ((i : ℕ) → i < info.block_count → (b : Bytes) × (get_elem? r.blocks i ≡ some (some b)))
      → (is_complete d ≡ true) × (assemble c d ≡ ok nar)
  unfolding is_complete assemble check_joined check_nar
  assemble_honest {bs} {nar} {info} s d peer r only count hash size honest all_there =
      let found : gather d.receivers 0 d.block_info.block_count ≡ some nar =
        rw (only, count, ← length-chunks s)
          (gather_parts ((peer, r) ∷ []) 0 (chunks bs nar) (λ j b got.
              let (b', there) =
                all_there j
                  (omega (arith, length-chunks s, lt_of_get_elem? (chunks bs nar) j b got)) in
              let at_j : 0 + j ≡ j = omega arith in
              ap (find_block ((peer, r) ∷ [])) at_j
              ∙ ground (arith, there, honest.own j b' there, got))
            ∙ ap some (concat-chunks bs nar s.positive)) in
      (
        ground (arith, found, gather_total d.receivers 0 d.block_info.block_count),
        ground (arith, found, hash, size, s.allocatable, text_beq_refl (c.hex (c.sha256 nar))),
      )

  -- A seeder that has a NAR which is not empty, and small enough for the machine's words and for one
  -- vector of bytes, answers a handshake with the layout's hashes, and a request with the NAR's own
  -- blocks. A downloader of the same block size that takes these hashes and these blocks, requested in
  -- any order and as often as one likes, so long as every index of the layout is requested, does not
  -- panic, has a complete download, and assembles the NAR.
  pub transfer :
      (store : NarStore) (files : Files) (nar_hash nar : Bytes) (entry : NarEntry)
      (indices : List ℕ) (now : ℕ) (peer : PeerId)
      → IsServable store.block_size nar entry.block_info
      → lookup store.index (c.hex nar_hash) ≡ some entry
      → lookup files entry.path ≡ some nar
      → All (λ i. i < entry.block_info.block_count) indices
      → ((i : ℕ) → i < entry.block_info.block_count → contains indices i ≡ true)
      → (hs : List Bytes) × (blks : List BlockData) × (d : ActiveDownload) × (accepted : List ℕ)
        × (handle_request c store files (handshake nar_hash)
            ≡ some (
                BlockResponse.handshake_reply
                  (range_from 0 entry.block_info.block_count)
                  entry.block_info.block_count
                  (store.block_size % u32_mod)
                  hs))
        × (handle_request c store files (get_blocks nar_hash indices)
            ≡ some (BlockResponse.blocks blks))
        × (record_blocks c (start now peer nar entry.block_info hs) peer (decode_block_data blks)
            ≡ some (d, accepted))
        × (is_complete d ≡ true)
        × (assemble c d ≡ ok nar)
  unfolding handle_request compute_block_hashes record_blocks new add_peer set_hashes
  transfer store files nar_hash nar entry indices now peer s indexed stored inside covered =
      let bs = store.block_size in
      let info = entry.block_info in
      let blks = filter_map (serve_block bs nar) indices in
      let r : DownloadResult = record { blocks = replicate info.block_count none } in
      let vacant : IsHonest c s r = IsHonest-vacant c s in
      let first : 0 < info.block_count = (block_iff s 0).1 (omega (arith, s.not_empty)) in
      let some_block : is_empty blks ≡ false =
        served_not_empty c s indices 0 inside (covered 0 first) in
      let served : handle_request c store files (get_blocks nar_hash indices)
          ≡ some (BlockResponse.blocks blks) =
        ground (arith, indexed, stored, some_block) in
      let t =
        accept_blocks-TakesAll c s r [] (decode_block_data blks) vacant
          (served_own c s indices inside) in
      let d : ActiveDownload = record (start now peer nar info (hashes c s)) {
        receivers = (peer, t.after) ∷ [];
      } in
      let (done, right) =
        assemble_honest s d peer t.after refl refl refl refl t.honest
          (λ i lt. served_covers c s indices i t.after inside (covered i lt) t.filled) in
      (
        hashes c s,
        blks,
        d,
        t.listed,
        ground (arith, indexed, stored),
        served,
        ground (arith, t.runs),
        done,
        right,
      )
