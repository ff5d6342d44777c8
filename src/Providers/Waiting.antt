-- ===== src/Providers/Waiting.antt =====
-- src/daemon.rs: what `wait_for_providers_for_duration` returns, and that it returns.
use guix_p2p.Prelude.{
  none, text_beq, subst, ◌≢◌, ℕ, ◌+◌, ◌≤◌, ◌≡◌, inl, inr, Bool, true, false, ◌&&◌, ◌||◌, some, List,
  [], ◌∷◌, ◌++◌, arith, leb, Bool-cases, ◌==◌, nat_eq, text_eq, any, contains,
}
use guix_p2p.Crypto.{Text}
use guix_p2p.Swarm.Codec.{PeerId}
use guix_p2p.Providers.{
  nothing_new, wait_for_providers_for_duration, distinct, Notice, Wait, collect, wait_loop,
  providers_found, closed,
}
use guix_p2p.Providers.Lists.{contains-append, contains-distinct, AllDistinct, distinct-AllDistinct}

abbrev pub Turn : Type 0
Turn = ℕ × ℕ × Notice

-- A notice names the peer as a provider of the key.
pub names : Text → PeerId → Turn → Bool
names dht_key p (begins, now, providers_found hash peers) = hash == dht_key && contains peers p
names dht_key p (begins, now, closed) = false
names dht_key p (begins, now, nothing_new) = false

AllDistinct-append :
    (xs ys : List PeerId)
    → AllDistinct xs
    → AllDistinct ys
    → ((p : PeerId) → contains ys p ≡ true → contains xs p ≡ false)
    → AllDistinct (xs ++ ys)
unfolding AllDistinct
AllDistinct-append [] ys a b h = b
AllDistinct-append (x ∷ xs) ys (new, a) b h = (
  elim (Bool-cases (contains ys x)) [
    | inl there ↦ absurd (ground (arith, h x there))
    | inr free ↦ ground (arith, contains-append xs ys x)
  ],
  AllDistinct-append xs ys a b (λ p there. ground (arith, h p there)),
)

collect-AllDistinct :
    (now deadline : ℕ) (w : Wait) (peers : List PeerId)
    → AllDistinct w.providers
    → AllDistinct (collect now deadline w peers).providers
unfolding collect
collect-AllDistinct now deadline w peers h =
    AllDistinct-append w.providers (distinct w.providers peers) h
      (distinct-AllDistinct w.providers peers)
      (λ p there. ground (arith, contains-distinct w.providers peers p))

-- The peers are distinct, and each was collected before or is named by a notice.
abbrev pub Explained : Text → Wait → List Turn → List PeerId → Type 0
Explained dht_key w turns result =
    AllDistinct result
    × ((p : PeerId)
        → contains result p ≡ true
        → (contains w.providers p || any (names dht_key p) turns) ≡ true)

over-Explained :
    (dht_key : Text) (w : Wait) (turns : List Turn) (result : List PeerId)
    → AllDistinct w.providers
    → w.providers ≡ result
    → Explained dht_key w turns result
over-Explained dht_key w turns result d e =
    subst (λ r. Explained dht_key w turns r) e (d, λ p h. ground (arith, h))

wait_loop-Explained :
    (dht_key : Text) (deadline : ℕ) (w : Wait) (turns : List Turn) (result : List PeerId)
    → AllDistinct w.providers
    → wait_loop dht_key deadline w turns ≡ some result
    → Explained dht_key w turns result
unfolding wait_loop names collect AllDistinct
wait_loop-Explained dht_key deadline w [] result d e = absurd (ground arith)
wait_loop-Explained dht_key deadline w ((begins, now, closed) ∷ rest) result d e =
    elim (Bool-cases (leb w.collect_until begins)) [
      | inl over ↦
          over-Explained dht_key w ((begins, now, closed) ∷ rest) result d (ground (arith, e))
      | inr on ↦
          let same : [] ≡ result = ground (arith, e) in
          subst (λ r. Explained dht_key w ((begins, now, closed) ∷ rest) r) same
            (tt, λ p h. ground (arith, h))
    ]
wait_loop-Explained dht_key deadline w ((begins, now, nothing_new) ∷ rest) result d e =
    elim (Bool-cases (leb w.collect_until begins)) [
      | inl over ↦
          over-Explained dht_key w ((begins, now, nothing_new) ∷ rest) result d (ground (arith, e))
      | inr on ↦ wait_loop-Explained dht_key deadline w rest result d (ground (arith, e))
    ]
wait_loop-Explained dht_key deadline w ((begins, now, providers_found hash peers) ∷ rest) result d
      e =
    elim (Bool-cases (leb w.collect_until begins)) [
      | inl over ↦
          over-Explained dht_key w ((begins, now, providers_found hash peers) ∷ rest) result d
            (ground (arith, e))
      | inr on ↦ elim (Bool-cases (text_beq hash dht_key)) [
        | inr foreign ↦
            let (a, b) = wait_loop-Explained dht_key deadline w rest result d (ground (arith, e)) in
            (a, λ p h. ground (arith, b p h))
        | inl ours ↦
            let w' = collect now deadline w peers in
            let (a, b) =
              wait_loop-Explained dht_key deadline w' rest result
                (collect-AllDistinct now deadline w peers d) (ground (arith, e)) in
            (
              a,
              λ p h. ground (
                arith,
                b p h,
                contains-append w.providers (distinct w.providers peers) p,
                contains-distinct w.providers peers p,
              ),
            )
      ]
    ]

wait_loop-returns :
    (dht_key : Text) (deadline : ℕ) (w : Wait) (turns : List Turn)
    → w.collect_until ≤ deadline
    → any (λ (turn : Turn). leb deadline turn.0) turns ≡ true
    → wait_loop dht_key deadline w turns ≢ none
unfolding wait_loop collect
wait_loop-returns dht_key deadline w [] h late e = ground arith
wait_loop-returns dht_key deadline w ((begins, now, closed) ∷ rest) h late e =
    ground (arith, h, late, e)
wait_loop-returns dht_key deadline w ((begins, now, nothing_new) ∷ rest) h late e =
    let go = wait_loop-returns dht_key deadline w rest h in ground (arith, h, late, e, go)
wait_loop-returns dht_key deadline w ((begins, now, providers_found hash peers) ∷ rest) h late e =
    let w' = collect now deadline w peers in
    let kept : w'.collect_until ≤ deadline = ground (arith, h) in
    let go = wait_loop-returns dht_key deadline w rest h in
    let more = wait_loop-returns dht_key deadline w' rest kept in
    ground (arith, h, late, e, go, more)

-- The wait for providers returns as soon as a turn begins at or after the deadline, if it has not
-- returned before. The peers that it returns are distinct, and a notification named each of them as a
-- provider of the key.
pub wait_for_providers_for_duration_sound :
    (now timeout : ℕ) (dht_key : Text) (turns : List Turn)
    → (any (λ (turn : Turn). leb (now + timeout) turn.0) turns ≡ true
        → wait_for_providers_for_duration now timeout dht_key turns ≢ none)
      × ((result : List PeerId)
          → wait_for_providers_for_duration now timeout dht_key turns ≡ some result
          → AllDistinct result
            × ((p : PeerId) → contains result p ≡ true → any (names dht_key p) turns ≡ true))
unfolding wait_for_providers_for_duration AllDistinct
wait_for_providers_for_duration_sound now timeout dht_key turns =
    let w : Wait = record { collect_until = now + timeout; providers = [] } in
    (
      wait_loop-returns dht_key (now + timeout) w turns (omega arith),
      λ result e. wait_loop-Explained dht_key (now + timeout) w turns result tt e,
    )
