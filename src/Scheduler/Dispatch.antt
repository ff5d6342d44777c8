-- ===== src/Scheduler/Dispatch.antt =====
-- `dispatch_block_requests` of src/daemon.rs: whom it asks for what.
use guix_p2p.Crypto.{Bytes}
use guix_p2p.Prelude.{
  ℕ, suc, ◌%◌, ◌≤◌, ◌≡◌, ◌⊎◌, true, false, some, List, [], ◌∷◌, nat_eq, text_eq, length, All,
  contains, lookup, keys,
}
use guix_p2p.Swarm.Codec.{PeerId}
use guix_p2p.Swarm.Block.{u32_mod}
use guix_p2p.Scheduler.{
  Bytes, BlockFetchState, PeerFetchState, PeerStates, can_serve, pending, in_flight, complete,
}

-- The keys of a `HashMap` are distinct.
abbrev pub IsDistinct : PeerStates → Type 0
IsDistinct [] = Unit
IsDistinct ((p, s) ∷ peers) = (contains (keys peers) p ≡ false) × IsDistinct peers

abbrev In : PeerId → PeerFetchState → PeerStates → Type 0
In p s [] = ⊥
In p s ((q, t) ∷ peers) = ((p ≡ q) × (s ≡ t)) ⊎ In p s peers

-- Nobody can serve the block.
abbrev pub IsBlocked : ℕ → ℕ → PeerStates → Type 0
IsBlocked m idx peers = All (λ e. can_serve m idx e.1 ≡ false) peers

-- No request more than the limit is out to a peer.
abbrev pub HasCapacity : ℕ → PeerStates → Type 0
HasCapacity m peers = All (λ e. length e.1.in_flight ≤ m) peers

-- A peer of the download that has announced the block.
pub record HasBlock (peers : PeerStates) (p : PeerId) (i : ℕ) : Type 0 where
  pub state : PeerFetchState
  pub known : lookup peers p ≡ some state
  pub announced : contains state.available (i % u32_mod) ≡ true

module _ (m now : ℕ) (orig : PeerStates) where
  -- What a dispatch makes of the state of block `idx`, with the peers `after` it: a state other than
  -- `pending` stays; a pending block stays pending if nobody can serve it, or is requested now from a
  -- peer that has announced it.
  abbrev pub Slot : PeerStates → ℕ → BlockFetchState → BlockFetchState → Type 0
  Slot after idx pending state =
      ((state ≡ pending) × IsBlocked m idx after)
      ⊎ (p : PeerId) × (state ≡ in_flight p now) × HasBlock orig p idx
  Slot after idx (in_flight p at) state = state ≡ in_flight p at
  Slot after idx complete state = state ≡ complete

  abbrev pub Slots : PeerStates → ℕ → List BlockFetchState → List BlockFetchState → Type 0
  Slots after idx [] [] = Unit
  Slots after idx [] (b ∷ states) = ⊥
  Slots after idx (a ∷ states) [] = ⊥
  Slots after idx (a ∷ states) (b ∷ states') =
      Slot after idx a b × Slots after (suc idx) states states'

  pub record Dispatched (idx : ℕ) (peers peers' : PeerStates)
      (states states' : List BlockFetchState) : Type 0 where
    pub slots : Slots peers' idx states states'
    pub capacity : HasCapacity m peers → HasCapacity m peers'
    pub blocked : (i : ℕ) → IsBlocked m i peers → IsBlocked m i peers'
