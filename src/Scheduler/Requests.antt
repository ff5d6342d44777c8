-- ===== src/Scheduler/Requests.antt =====
-- `dispatch_block_requests` of src/daemon.rs: the requests against the states of the blocks.
use guix_p2p.Prelude.{
  ℕ, suc, ◌%◌, ◌≡◌, refl, ◌∙◌, inl, inr, Bool, false, ◌&&◌, ◌||◌, List, [], ◌∷◌, map, arith,
  nat_beq, text_beq, text_beq_refl, Bool-cases, Option-cases, nat_eq, text_eq, any, contains, All,
  Map, modify,
}
use guix_p2p.Crypto.{Bytes}
use guix_p2p.Swarm.Codec.{PeerId, BlockRequest, handshake, get_blocks}
use guix_p2p.Swarm.Block.{u32_mod}
use guix_p2p.Providers.Lists.{contains-append}
use guix_p2p.Scheduler.{
  BlockFetchState, PeerStates, pick_peer, push_batch, assign, dispatch_from, pending, in_flight,
  complete,
}

-- The request asks the peer for the block of the NAR.
abbrev pub asks : Bytes → PeerId → ℕ → PeerId × BlockRequest → Bool
asks hash p i (q, handshake h) = false
asks hash p i (q, get_blocks h indices) = nat_beq q p && (text_beq h hash && contains indices i)

-- It is a request for blocks of the NAR.
abbrev pub IsFor : Bytes → PeerId × BlockRequest → Type 0
IsFor hash r = (indices : List ℕ) × (r.1 ≡ get_blocks hash indices)

-- The block was pending, has the index modulo 2 ^ 32, and is now in flight from the peer.
abbrev pub starts : PeerId → ℕ → ℕ → BlockFetchState → BlockFetchState → Bool
starts p i idx pending pending = false
starts p i idx pending (in_flight q at) = nat_beq q p && nat_beq (idx % u32_mod) i
starts p i idx pending complete = false
starts p i idx (in_flight r at) state = false
starts p i idx complete state = false

-- One of the blocks from `idx` on.
abbrev pub some_starts : PeerId → ℕ → ℕ → List BlockFetchState → List BlockFetchState → Bool
some_starts p i idx [] states' = false
some_starts p i idx (a ∷ states) [] = false
some_starts p i idx (a ∷ states) (b ∷ states') =
    starts p i idx a b || some_starts p i (suc idx) states states'

abbrev in_batch : PeerId → ℕ → PeerId × List ℕ → Bool
in_batch p i b = nat_beq b.0 p && contains b.1 i

any-push_batch :
    (batches : Map PeerId (List ℕ)) (q p : PeerId) (j i : ℕ)
    → any (in_batch p i) (push_batch batches q j)
      ≡ (any (in_batch p i) batches || (nat_beq q p && nat_beq j i))
any-push_batch [] q p j i = ground arith
any-push_batch ((r, indices) ∷ batches) q p j i = elim (Bool-cases (nat_beq r q)) [
  | inl same ↦
      let e : r ≡ q = ground (arith, same) in
      rw (same, e) (ground (arith, contains-append indices (j ∷ []) i))
  | inr other ↦ rw other (ground (arith, any-push_batch batches q p j i))
]

any-dispatch_from :
    (now m idx : ℕ) (peers : PeerStates) (batches : Map PeerId (List ℕ))
    (states : List BlockFetchState) (p : PeerId) (i : ℕ)
    → any (in_batch p i) (dispatch_from now m idx peers batches states).1 ≡ (
        any (in_batch p i) batches
        || some_starts p i idx states (dispatch_from now m idx peers batches states).2)
unfolding dispatch_from
any-dispatch_from now m idx peers batches [] p i = ground arith
any-dispatch_from now m idx peers batches (in_flight q at ∷ states) p i =
    any-dispatch_from now m (suc idx) peers batches states p i
any-dispatch_from now m idx peers batches (complete ∷ states) p i =
    any-dispatch_from now m (suc idx) peers batches states p i
any-dispatch_from now m idx peers batches (pending ∷ states) p i =
    elim (Option-cases (pick_peer m idx peers)) [
      | inl nobody ↦
          rw (nobody, dispatch_from) (any-dispatch_from now m (suc idx) peers batches states p i)
      | inr (q, chosen) ↦
          rw (chosen, dispatch_from)
            (ground (
              arith,
              any-dispatch_from now m (suc idx) (modify peers q (assign idx))
                  (push_batch batches q (idx % u32_mod)) states p i,
              any-push_batch batches q p (idx % u32_mod) i,
            ))
    ]

pub any-asks :
    (hash : Bytes) (batches : Map PeerId (List ℕ)) (p : PeerId) (i : ℕ)
    → any (asks hash p i) (map (λ b. (b.0, get_blocks hash b.1)) batches)
      ≡ any (in_batch p i) batches
any-asks hash [] p i = refl
any-asks hash ((q, indices) ∷ batches) p i =
    ground (arith, text_beq_refl hash, any-asks hash batches p i)

pub requests-IsFor :
    (hash : Bytes) (batches : Map PeerId (List ℕ))
    → All (IsFor hash) (map (λ b. (b.0, get_blocks hash b.1)) batches)
requests-IsFor hash [] = tt
requests-IsFor hash ((q, indices) ∷ batches) = ((indices, refl), requests-IsFor hash batches)

-- What the batches of a dispatch ask for is what has started.
pub asks-some_starts :
    (now m : ℕ) (peers : PeerStates) (states : List BlockFetchState) (hash : Bytes) (p : PeerId)
    (i : ℕ)
    → let t = dispatch_from now m 0 peers [] states in
      any (asks hash p i) (map (λ b. (b.0, get_blocks hash b.1)) t.1) ≡ some_starts p i 0 states t.2
asks-some_starts now m peers states hash p i =
    any-asks hash (dispatch_from now m 0 peers [] states).1 p i
    ∙ any-dispatch_from now m 0 peers [] states p i
