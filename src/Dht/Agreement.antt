-- ===== src/Dht/Agreement.antt =====
-- src/dht.rs: the cache of providers against the notifications.
use guix_p2p.Prelude.{
  pick, zero, suc, Option-cases, lookup, none, Option, ℕ, true, ==→≡, nat_beq, ap, ◌≡◌, refl, sym,
  subst, ◌∙◌, inl, inr, Bool, false, ◌&&◌, ◌||◌, List, [], ◌∷◌, ◌++◌, arith, if◌then◌else◌,
  Bool-cases, if_both, ◌==◌, nat_eq, text_eq, any, contains, lookup-insert,
}
use guix_p2p.Crypto.{Text, Crypto}
use guix_p2p.Text.{chars}
use guix_p2p.Swarm.Codec.{PeerId}
use guix_p2p.Providers.Lists.{contains-append, AllDistinct}
use guix_p2p.Dht.{
  something_else, finished, announced, lookup_timeout, lookup, drop_if, some, found_providers,
  Option, QueryResult, ℕ, true, handle_kad_event, finish_empty, handle_step, handle_steps, DhtStep,
  kad_event, filled, fill_cache, fill_by, on_result, ProviderCache, get_providers, DhtState,
  push_new, add_providers, report,
}

-- A notification names the peer as a provider of the key.
abbrev pub names : Text → PeerId → Text × List PeerId → Bool
names key p notice = notice.0 == key && contains notice.1 p

any-append :
    (f : Text × List PeerId → Bool) (xs ys : List (Text × List PeerId))
    → any f (xs ++ ys) ≡ (any f xs || any f ys)
any-append f [] ys = refl
any-append f (x ∷ xs) ys = ground (arith, any-append f xs ys)

AllDistinct-snoc :
    (xs : List PeerId) (p : PeerId)
    → contains xs p ≡ false
    → AllDistinct xs
    → AllDistinct (xs ++ p ∷ [])
unfolding AllDistinct
AllDistinct-snoc [] p new h = (refl, tt)
AllDistinct-snoc (x ∷ xs) p new (here, h) = (
  ground (arith, contains-append xs (p ∷ []) x, here, new),
  AllDistinct-snoc xs p (ground (arith, new)) h,
)

contains-push_new :
    (entry peers : List PeerId) (p : PeerId)
    → contains (push_new entry peers) p ≡ (contains entry p || contains peers p)
unfolding push_new
contains-push_new entry [] p = ground arith
contains-push_new entry (q ∷ peers) p = elim (Bool-cases (contains entry q)) [
  | inl there ↦ elim (Bool-cases (nat_beq q p)) [
    | inl same ↦
        let e : q ≡ p = ground (arith, same) in
        let member : contains entry p ≡ true = subst (λ x. contains entry x ≡ true) e there in
        rw there (ground (arith, contains-push_new entry peers p, member))
    | inr apart ↦ rw there (ground (arith, contains-push_new entry peers p, apart))
  ]
  | inr new ↦ rw new (
      contains-push_new (entry ++ q ∷ []) peers p
      ∙ ground (arith, contains-append entry (q ∷ []) p))
]

push_new-AllDistinct :
    (entry peers : List PeerId) → AllDistinct entry → AllDistinct (push_new entry peers)
unfolding push_new
push_new-AllDistinct entry [] h = h
push_new-AllDistinct entry (q ∷ peers) h = elim (Bool-cases (contains entry q)) [
  | inl there ↦ rw there (push_new-AllDistinct entry peers h)
  | inr new ↦ rw new (push_new-AllDistinct (entry ++ q ∷ []) peers (AllDistinct-snoc entry q new h))
]

get_providers-add_providers :
    (cache : ProviderCache) (key k : Text) (peers : List PeerId)
    → get_providers (add_providers cache key peers) k
      ≡ (if key == k then push_new (get_providers cache key) peers else get_providers cache k)
unfolding get_providers add_providers
get_providers-add_providers cache key k peers =
    ground (arith, lookup-insert cache key k (push_new (get_providers cache key) peers))

any-pick :
    (f : Text × List PeerId → Bool) (i : ℕ) (xs rest : List (Text × List PeerId))
    (x : Text × List PeerId)
    → pick i xs ≡ some (x, rest)
    → any f xs ≡ (f x || any f rest)
any-pick f i [] rest x e = absurd (ground (arith, e))
any-pick f zero (y ∷ xs) rest x e =
    let here : y ≡ x = ground (arith, e) in
    let others : xs ≡ rest = ground (arith, e) in
    subst (λ t. (f y || any f xs) ≡ (f y || any f t)) others refl ∙ ap (λ t. f t || any f rest) here
any-pick f (suc i) (y ∷ xs) rest x e = elim (Option-cases (pick i xs)) [
  | inl out ↦ absurd (ground (arith, e, out))
  | inr ((found, others), p) ↦
      let h = any-pick f i xs others found p in
      let this : found ≡ x = ground (arith, e, p) in
      let left : y ∷ others ≡ rest = ground (arith, e, p) in
      subst (λ t. (f y || any f xs) ≡ (f x || any f t)) left
        (subst (λ t. (f y || any f xs) ≡ (f t || any f (y ∷ others))) this (ground (arith, h)))
]

contains-add_providers :
    (cache : ProviderCache) (key k : Text) (peers : List PeerId) (p : PeerId)
    → contains (get_providers (add_providers cache key peers) k) p
      ≡ (contains (get_providers cache k) p || names k p (key, peers))
contains-add_providers cache key k peers p = elim (Bool-cases (key == k)) [
  | inl same ↦
      let e : key ≡ k = ==→≡ {A = Text} key k same in
      let here : get_providers cache key ≡ get_providers cache k = ap (get_providers cache) e in
      ground (
        arith,
        same,
        ap (λ xs. contains xs p) (get_providers-add_providers cache key k peers),
        contains-push_new (get_providers cache key) peers p,
        ap (λ xs. contains xs p) here,
      )
  | inr apart ↦
      ground
        (arith, apart, ap (λ xs. contains xs p) (get_providers-add_providers cache key k peers))
]

add_providers-AllDistinct :
    (cache : ProviderCache) (key k : Text) (peers : List PeerId)
    → ((j : Text) → AllDistinct (get_providers cache j))
    → AllDistinct (get_providers (add_providers cache key peers) k)
add_providers-AllDistinct cache key k peers once =
    subst AllDistinct (sym (get_providers-add_providers cache key k peers)) (
      if_both AllDistinct (key == k)
        (push_new-AllDistinct (get_providers cache key) peers (once key)) (once k))

-- The cache and the tasks that have yet to fill it have the peers that the notifications have named,
-- the cache each of them once.
pub record Agrees (s : DhtState) : Type 0 where
  pub known :
      (key : Text) (p : PeerId)
      → (contains (get_providers s.cache key) p || any (names key p) s.filling)
        ≡ any (names key p) s.notices
  pub once : (key : Text) → AllDistinct (get_providers s.cache key)

same_cache-Agrees :
    (s t : DhtState)
    → t.cache ≡ s.cache
    → t.filling ≡ s.filling
    → t.notices ≡ s.notices
    → Agrees s
    → Agrees t
same_cache-Agrees s t cache filling notices h = record {
  known = λ key p. cc (
    ap (λ m. contains (get_providers m key) p) cache,
    ap (any (names key p)) filling,
    ap (any (names key p)) notices,
    h.known key p,
  );
  once = λ key. subst (λ m. AllDistinct (get_providers m key)) (sym cache) (h.once key);
}

fill_by-Agrees :
    (s : DhtState) (i : ℕ) (o : Option ((Text × List PeerId) × List (Text × List PeerId)))
    → pick i s.filling ≡ o
    → Agrees s
    → Agrees (fill_by s o)
unfolding fill_by
fill_by-Agrees s i none e h = h
fill_by-Agrees s i (some ((key, peers), rest)) e h = record {
  known = λ k p. ground (
    arith,
    contains-add_providers s.cache key k peers p,
    any-pick (names k p) i s.filling rest (key, peers) e,
    h.known k p,
  );
  once = λ k. add_providers-AllDistinct s.cache key k peers h.once;
}

pub fill_cache-Agrees : (s : DhtState) (i : ℕ) → Agrees s → Agrees (fill_cache s i)
unfolding fill_cache
fill_cache-Agrees s i h = fill_by-Agrees s i (pick i s.filling) refl h

module _ (c : Crypto) where
  report-Agrees :
      (s : DhtState) (key : Text) (peers : List PeerId) (result : Text)
      → Agrees s
      → Agrees (report c s key peers result)
  unfolding report
  report-Agrees s key peers result h = record {
    known = λ k p. ground (
      arith,
      any-append (names k p) s.filling ((key, peers) ∷ []),
      any-append (names k p) s.notices ((key, peers) ∷ []),
      h.known k p,
    );
    once = h.once;
  }

  finish_empty-Agrees :
      (s : DhtState) (id : ℕ) (last : Bool) (o : Option Text)
      → Agrees s
      → Agrees (finish_empty c s id last o)
  unfolding finish_empty
  finish_empty-Agrees s id last none h = h
  finish_empty-Agrees s id last (some key) h =
      same_cache-Agrees s (finish_empty c s id last (some key)) refl refl refl h

  on_result-Agrees :
      (s : DhtState) (id : ℕ) (last : Bool) (r : QueryResult)
      → Agrees s
      → Agrees (on_result c s id last r)
  unfolding on_result
  on_result-Agrees s id last (found_providers key peers) h =
      let t : DhtState = record s {
        active_provider_queries = drop_if last s.active_provider_queries id;
      } in
      report-Agrees t (c.hex key) peers (chars "found") (same_cache-Agrees s t refl refl refl h)
  on_result-Agrees s id last finished h =
      finish_empty-Agrees s id last (lookup s.active_provider_queries id) h
  on_result-Agrees s id last (lookup_timeout key) h =
      let t : DhtState = record s {
        active_provider_queries = drop_if last s.active_provider_queries id;
      } in
      report-Agrees t (c.hex key) [] (chars "timeout") (same_cache-Agrees s t refl refl refl h)
  on_result-Agrees s id last (announced key went_well) h =
      same_cache-Agrees s (on_result c s id last (announced key went_well)) refl refl refl h
  on_result-Agrees s id last something_else h = h

  pub handle_step-Agrees :
      (s : DhtState) (step : DhtStep) → Agrees s → Agrees (handle_step c s step)
  unfolding handle_step handle_kad_event
  handle_step-Agrees s (kad_event e) h = on_result-Agrees s e.id e.last e.result h
  handle_step-Agrees s (filled i) h = fill_cache-Agrees s i h

  -- After any events of Kademlia, and with any of the tasks that they spawn having filled the cache, in
  -- any order and at any time between the events, the cache and the tasks that have yet to fill it have,
  -- for every key, exactly the peers that the notifications so far have named for it, and the cache has
  -- each of them once, if this was so before, as it is for an empty cache, no task and no notification.
  pub handle_steps-Agrees :
      (steps : List DhtStep) (s : DhtState) → Agrees s → Agrees (handle_steps c s steps)
  unfolding handle_steps
  handle_steps-Agrees [] s h = h
  handle_steps-Agrees (step ∷ steps) s h =
      handle_steps-Agrees steps (handle_step c s step) (handle_step-Agrees s step h)
