-- ===== src/Providers/Selection.antt =====
-- src/daemon.rs: what `select_provider_candidates` returns.
use guix_p2p.Prelude.{
  if◌then◌else◌, ◌<◌, nat_beq, ℕ, ◌+◌, ◌≤◌, ◌≡◌, ap, ◌∙◌, inl, inr, true, not, ◌&&◌, ◌||◌, List, [],
  ◌∷◌, ◌++◌, arith, leb, Bool-cases, nat_eq, text_eq, length, keep, length-append, length-keep-le,
  take_of_length-le, contains,
}
use guix_p2p.Swarm.Codec.{PeerId}
use guix_p2p.Reputation.{ReputationTracker, Scoring, best_peers, is_banned, score, sort_by}
use guix_p2p.Connection.{ConnectionManager, can_connect}
use guix_p2p.Providers.{
  select_provider_candidates_with_report, select_provider_candidates, select_from,
}
use guix_p2p.Providers.Lists.{contains-append, contains-keep, length-sort_by, contains-sort_by}

pub contains-best_peers :
    (f : Scoring) (now : ℕ) (t : ReputationTracker) (peers : List PeerId) (p : PeerId)
    → contains (best_peers f now t peers (length peers)) p
      ≡ (contains peers p && not (is_banned t p))
unfolding best_peers
contains-best_peers f now t peers p =
    let free = keep (λ q. not (is_banned t q)) peers in
    let sorted = sort_by (λ a b. f.before (score f now t a) (score f now t b)) free in
    let short : length sorted ≤ length peers = omega (
      arith,
      length-sort_by (λ a b. f.before (score f now t a) (score f now t b)) free,
      length-keep-le (λ q. not (is_banned t q)) peers,
    ) in
    ap (λ l. contains l p) (take_of_length-le (length peers) sorted short)
    ∙ contains-sort_by _ free p
    ∙ contains-keep (λ q. not (is_banned t q)) peers p

module _ (now : ℕ) (m : ConnectionManager) (max_peers : ℕ) where
  abbrev chosen : List PeerId → List PeerId → ℕ → List PeerId
  chosen ranked selected skipped = (select_from now m max_peers ranked selected skipped).peers

  -- One turn of the loop.
  chosen-step :
      (x : PeerId) (ranked selected : List PeerId) (skipped : ℕ)
      → chosen (x ∷ ranked) selected skipped ≡ (
          if leb max_peers (length selected)
          then selected
          else if can_connect now m x
          then chosen ranked (selected ++ x ∷ []) skipped
          else chosen ranked selected (skipped + 1))
  unfolding select_from
  chosen-step x ranked selected skipped = ground arith

  select_from-length :
      (ranked selected : List PeerId) (skipped : ℕ)
      → length selected ≤ max_peers
      → length (chosen ranked selected skipped) ≤ max_peers
  unfolding select_from
  select_from-length [] selected skipped h = h
  select_from-length (x ∷ ranked) selected skipped h =
      let shorter = select_from-length ranked selected (skipped + 1) h in
      elim (Bool-cases (leb max_peers (length selected))) [
        | inl full ↦ ground (arith, chosen-step x ranked selected skipped)
        | inr room ↦
            let longer =
              select_from-length ranked (selected ++ x ∷ []) skipped
                (ground (arith, length-append selected (x ∷ []))) in
            ground (arith, chosen-step x ranked selected skipped)
      ]

  -- Every choice was there before, or is a ranked peer that can be dialled.
  select_from_sound :
      (ranked selected : List PeerId) (skipped : ℕ) (p : PeerId)
      → contains (chosen ranked selected skipped) p ≡ true
      → (contains selected p || contains ranked p && can_connect now m p) ≡ true
  unfolding select_from
  select_from_sound [] selected skipped p h = ground (arith, h)
  select_from_sound (x ∷ ranked) selected skipped p h =
      let a = select_from_sound ranked (selected ++ x ∷ []) skipped p in
      let b = select_from_sound ranked selected (skipped + 1) p in
      let d : nat_beq x p ≡ true → can_connect now m x ≡ can_connect now m p =
        λ e. ap (can_connect now m) (ground arith) in
      ground (
        arith,
        h,
        chosen-step x ranked selected skipped,
        a,
        b,
        d,
        contains-append selected (x ∷ []) p,
      )

  -- While there is room, no peer that can be dialled is left out.
  select_from_complete :
      (ranked selected : List PeerId) (skipped : ℕ) (p : PeerId)
      → length (chosen ranked selected skipped) < max_peers
      → (contains selected p || contains ranked p && can_connect now m p) ≡ true
      → contains (chosen ranked selected skipped) p ≡ true
  unfolding select_from
  select_from_complete [] selected skipped p short h = ground (arith, h)
  select_from_complete (x ∷ ranked) selected skipped p short h =
      let a = select_from_complete ranked (selected ++ x ∷ []) skipped p in
      let b = select_from_complete ranked selected (skipped + 1) p in
      let d : nat_beq x p ≡ true → can_connect now m x ≡ can_connect now m p =
        λ e. ap (can_connect now m) (ground arith) in
      ground (
        arith,
        h,
        short,
        chosen-step x ranked selected skipped,
        a,
        b,
        d,
        contains-append selected (x ∷ []) p,
      )

-- A selection has at most `max_peers` peers. Each of them is one of the providers, is not banned, and
-- can be dialled; and where the selection has fewer than `max_peers`, it has every such provider.
pub select_provider_candidates_sound :
    (f : Scoring) (now : ℕ) (providers : List PeerId) (t : ReputationTracker)
    (m : ConnectionManager) (max_peers : ℕ)
    → (length (select_provider_candidates f now providers t m max_peers) ≤ max_peers)
      × ((p : PeerId)
          → contains (select_provider_candidates f now providers t m max_peers) p ≡ true
          → (contains providers p && (not (is_banned t p) && can_connect now m p)) ≡ true)
      × ((p : PeerId)
          → length (select_provider_candidates f now providers t m max_peers) < max_peers
          → (contains providers p && (not (is_banned t p) && can_connect now m p)) ≡ true
          → contains (select_provider_candidates f now providers t m max_peers) p ≡ true)
unfolding select_provider_candidates select_provider_candidates_with_report
select_provider_candidates_sound f now providers t m max_peers =
    let ranked = best_peers f now t providers (length providers) in
    (
      select_from-length now m max_peers ranked [] 0 (omega arith),
      λ p h.
          let a = select_from_sound now m max_peers ranked [] 0 p h in
          ground (arith, a, contains-best_peers f now t providers p),
      λ p short h.
          select_from_complete now m max_peers ranked [] 0 p short
            (ground (arith, h, contains-best_peers f now t providers p)),
    )
