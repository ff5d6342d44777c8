-- ===== src/Reputation.antt =====
-- src/reputation.rs: the scorecards of peers. Counters have 32 and 64 bits. The score is a
-- floating-point number, whose arithmetic is the parameter `Scoring`: its type, the score of a card
-- at an instant, the neutral score, and whether a score goes strictly before another in a ranking.
use guix_p2p.Prelude.{
  ℕ, ◌+◌, ◌-◌, ◌%◌, Bool, false, not, none, some, List, [], ◌∷◌, ltb, leb, if◌then◌else◌, nat_eq,
  text_eq, take, keep, Map, lookup, insert,
}
use guix_p2p.Swarm.Codec.{PeerId}
use guix_p2p.Swarm.Block.{u32_mod, usize_mod}

pub record PeerScore : Type 0 where
  pub completed : ℕ
  pub failed : ℕ
  pub bytes_served : ℕ
  pub last_seen : ℕ

pub record Scoring : Type 1 where
  pub Score : Type 0
  pub score : ℕ → PeerScore → Score
  pub neutral : Score
  pub before : Score → Score → Bool

pub record ReputationTracker : Type 0 where
  pub peers : Map PeerId PeerScore
  pub ban_threshold : ℕ

unfoldable pub new : ℕ → ReputationTracker
new ban_threshold = record { peers = []; ban_threshold = ban_threshold }

-- `entry(peer).or_default()`.
unfoldable pub entry_or_default : ℕ → ReputationTracker → PeerId → PeerScore
entry_or_default now t peer = elim (lookup t.peers peer) [
  | none ↦ record { completed = 0; failed = 0; bytes_served = 0; last_seen = now }
  | some card ↦ card
]

unfoldable pub record_success : ℕ → ReputationTracker → PeerId → ℕ → ReputationTracker
unfolding entry_or_default
record_success now t peer bytes =
    let card = entry_or_default now t peer in
    record t {
      peers = insert t.peers peer (record card {
        completed = (card.completed + 1) % u32_mod;
        bytes_served = (card.bytes_served + bytes) % usize_mod;
        last_seen = now;
      });
    }

unfoldable pub record_failure : ℕ → ReputationTracker → PeerId → ReputationTracker
unfolding entry_or_default
record_failure now t peer =
    let card = entry_or_default now t peer in
    record t {
      peers =
          insert t.peers peer
            (record card { failed = (card.failed + 1) % u32_mod; last_seen = now });
    }

unfoldable pub is_banned : ReputationTracker → PeerId → Bool
is_banned t peer = elim (lookup t.peers peer) [
  | none ↦ false
  | some card ↦ leb t.ban_threshold card.failed
]

unfoldable pub prune_stale : ℕ → ReputationTracker → ℕ → ReputationTracker
prune_stale now t max_age = record t {
  peers = keep (λ (e : PeerId × PeerScore). ltb (now - e.1.last_seen) max_age) t.peers;
}

-- The stable sort of the standard library, by insertion.
abbrev pub insert_by {ℓ} : {A : Type ℓ} → (A → A → Bool) → A → List A → List A
insert_by before x [] = x ∷ []
insert_by before x (y ∷ ys) =
    let rest = insert_by before x ys in if before y x then y ∷ rest else x ∷ y ∷ ys

abbrev pub sort_by {ℓ} : {A : Type ℓ} → (A → A → Bool) → List A → List A
sort_by before [] = []
sort_by before (x ∷ xs) = insert_by before x (sort_by before xs)

module _ (f : Scoring) where
  unfoldable pub score : ℕ → ReputationTracker → PeerId → f.Score
  score now t peer = elim (lookup t.peers peer) [ none ↦ f.neutral | some card ↦ f.score now card ]

  unfoldable pub sort_by_score : ℕ → ReputationTracker → List PeerId → List PeerId
  unfolding score
  sort_by_score now t peers = sort_by (λ a b. f.before (score now t a) (score now t b)) peers

  unfoldable pub best_peers : ℕ → ReputationTracker → List PeerId → ℕ → List PeerId
  unfolding score is_banned
  best_peers now t peers count = take count (
      sort_by (λ a b. f.before (score now t a) (score now t b))
        (keep (λ p. not (is_banned t p)) peers))
