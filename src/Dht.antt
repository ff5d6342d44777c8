-- ===== src/Dht.antt =====
-- src/dht.rs: the providers that Kademlia finds, the keys of the DHT, and the bootstrap peers. A query
-- is known by a number. The tasks that fill the cache run in any order, between the events.
pub mod Agreement
use guix_p2p.Prelude.{
  ℕ, zero, suc, ◌+◌, ◌-◌, ◌*◌, ◌/◌, min, Bool, true, false, not, Option, none, some, List, [], ◌∷◌,
  ◌++◌, ltb, leb, if◌then◌else◌, nat_eq, text_eq, Outcome, panics, returns, length, take, replicate,
  is_empty, contains, Map, lookup, insert, remove, keys, pick,
}
use guix_p2p.Crypto.{Bytes, Text, Crypto}
use guix_p2p.Text.{chars, strip_prefix, utf8_char, utf8}
use guix_p2p.Swarm.Codec.{PeerId}
use guix_p2p.PeerStore.{Multiaddr, Protocol, p2p}
use guix_p2p.Providers.Lists.{}

abbrev pub ProviderCache : Type 0
ProviderCache = Map Text (List PeerId)

unfoldable pub has_providers : ProviderCache → Text → Bool
has_providers cache hash_part = elim (lookup cache hash_part) [
  | none ↦ false
  | some peers ↦ not (is_empty peers)
]

unfoldable pub get_providers : ProviderCache → Text → List PeerId
get_providers cache hash_part = elim (lookup cache hash_part) [ none ↦ [] | some peers ↦ peers ]

-- The byte index is the boundary of a character, where a slice may end.
unfoldable pub is_char_boundary : ℕ → Text → Bool
unfolding utf8_char
is_char_boundary zero s = true
is_char_boundary (suc n) [] = false
is_char_boundary (suc n) (c ∷ s) =
    let rest = is_char_boundary (suc n - length (utf8_char c)) s in
    if leb (length (utf8_char c)) (suc n) then rest else false

abbrev hex_part : Text → Text
hex_part hex_hash = elim (strip_prefix (chars "sha256:") hex_hash) [
  | none ↦ hex_hash
  | some rest ↦ rest
]

-- The warning slices the argument, which panics inside a character.
unfoldable pub extract_hash_bytes : Crypto → Text → Outcome Bytes
unfolding strip_prefix is_char_boundary utf8
extract_hash_bytes c hex_hash =
    let bytes = utf8 (hex_part hex_hash) in
    let padded =
      if is_char_boundary (min (length bytes) 16) hex_hash
      then returns (take 32 (bytes ++ replicate 32 0))
      else panics in
    elim (c.unhex (hex_part hex_hash)) [
      | none ↦ padded
      | some decoded ↦ if leb 32 (length decoded) then returns (take 32 decoded) else padded
    ]

-- The results of a query that the code looks at, each with the key of its record.
pub data QueryResult : Type 0 where
  found_providers : Bytes → List PeerId → QueryResult
  finished : QueryResult
  lookup_timeout : Bytes → QueryResult
  announced : Bytes → Bool → QueryResult
  something_else : QueryResult

-- `OutboundQueryProgressed`: the query, its result, and whether this is its last step.
pub record KadEvent : Type 0 where
  pub id : ℕ
  pub result : QueryResult
  pub last : Bool

pub data DhtEvent : Type 0 where
  lookup_finished : Text → ℕ → Text → DhtEvent
  announce_finished : Text → Text → DhtEvent

-- The cache, the spawned tasks that have yet to fill it, the active queries with their hashes, the
-- notifications and the events that were sent.
pub record DhtState : Type 0 where
  pub cache : ProviderCache
  pub filling : List (Text × List PeerId)
  pub active_provider_queries : Map ℕ Text
  pub notices : List (Text × List PeerId)
  pub events : List DhtEvent

-- `if !entry.contains(&peer) { entry.push(peer) }` for each peer.
unfoldable pub push_new : List PeerId → List PeerId → List PeerId
push_new entry [] = entry
push_new entry (peer ∷ peers) =
    push_new (if contains entry peer then entry else entry ++ peer ∷ []) peers

unfoldable pub add_providers : ProviderCache → Text → List PeerId → ProviderCache
unfolding push_new get_providers
add_providers cache key peers = insert cache key (push_new (get_providers cache key) peers)

abbrev pub drop_if : Bool → Map ℕ Text → ℕ → Map ℕ Text
drop_if last queries id = if last then remove queries id else queries

unfoldable pub fill_by :
    DhtState → Option ((Text × List PeerId) × List (Text × List PeerId)) → DhtState
unfolding add_providers
fill_by s none = s
fill_by s (some ((key_hex, providers), rest)) = record s {
  cache = add_providers s.cache key_hex providers;
  filling = rest;
}

-- The task at this index gets the lock of the cache.
unfoldable pub fill_cache : DhtState → ℕ → DhtState
unfolding fill_by
fill_cache s i = fill_by s (pick i s.filling)

-- An event of Kademlia, or a task that fills the cache.
pub data DhtStep : Type 0 where
  kad_event : KadEvent → DhtStep
  filled : ℕ → DhtStep

module _ (c : Crypto) where
  -- The notification is sent before the task has filled the cache.
  unfoldable pub report : DhtState → Text → List PeerId → Text → DhtState
  report s key_hex providers result = record s {
    filling = s.filling ++ (key_hex, providers) ∷ [];
    notices = s.notices ++ (key_hex, providers) ∷ [];
    events = s.events ++ lookup_finished key_hex (length providers) result ∷ [];
  }

  -- The hash of the query, where it is active.
  unfoldable pub finish_empty : DhtState → ℕ → Bool → Option Text → DhtState
  finish_empty s id last none = s
  finish_empty s id last (some key_hex) = record s {
    active_provider_queries = drop_if last s.active_provider_queries id;
    events = s.events ++ lookup_finished key_hex 0 (chars "empty") ∷ [];
  }

  unfoldable pub on_result : DhtState → ℕ → Bool → QueryResult → DhtState
  unfolding report finish_empty
  on_result s id last (found_providers key providers) =
      report (record s { active_provider_queries = drop_if last s.active_provider_queries id })
        (c.hex key) providers (chars "found")
  on_result s id last finished = finish_empty s id last (lookup s.active_provider_queries id)
  on_result s id last (lookup_timeout key) =
      report (record s { active_provider_queries = drop_if last s.active_provider_queries id })
        (c.hex key) [] (chars "timeout")
  on_result s id last (announced key went_well) =
      let result = if went_well then chars "succeeded" else chars "failed" in
      record s { events = s.events ++ announce_finished (c.hex key) result ∷ [] }
  on_result s id last something_else = s

  unfoldable pub handle_kad_event : DhtState → KadEvent → DhtState
  unfolding on_result
  handle_kad_event s e = on_result s e.id e.last e.result

  unfoldable pub handle_step : DhtState → DhtStep → DhtState
  unfolding handle_kad_event fill_cache
  handle_step s (kad_event e) = handle_kad_event s e
  handle_step s (filled i) = fill_cache s i

  unfoldable pub handle_steps : DhtState → List DhtStep → DhtState
  unfolding handle_step
  handle_steps s [] = s
  handle_steps s (step ∷ steps) = handle_steps (handle_step s step) steps

-- The peer id at the end of the address, and the address before it.
unfoldable pub kad_peer_address : Multiaddr → Option (PeerId × Multiaddr)
kad_peer_address [] = none
kad_peer_address (p2p peer ∷ []) = some (peer, [])
kad_peer_address (p ∷ []) = none
kad_peer_address (p ∷ q ∷ addr) = elim (kad_peer_address (q ∷ addr)) [
  | none ↦ none
  | some (peer, before) ↦ some (peer, p ∷ before)
]

-- What `bootstrap` does with the swarm; `dials` says which dials succeed.
pub record Bootstrapped : Type 0 where
  pub routed : List (PeerId × Multiaddr)
  pub connected : ℕ
  pub failed : ℕ

unfoldable pub route :
    List (PeerId × Multiaddr) → Option (PeerId × Multiaddr) → List (PeerId × Multiaddr)
route routed none = routed
route routed (some entry) = routed ++ entry ∷ []

unfoldable pub bootstrap_from :
    (Text → Option Multiaddr) → (Multiaddr → Bool) → Bootstrapped → List Text → Bootstrapped
unfolding kad_peer_address route
bootstrap_from parse dials b [] = b
bootstrap_from parse dials b (text ∷ peers) = elim (parse text) [
  | none ↦ bootstrap_from parse dials (record b { failed = b.failed + 1 }) peers
  | some addr ↦
      bootstrap_from parse dials
        (record b {
          routed = route b.routed (kad_peer_address addr);
          connected = if dials addr then b.connected + 1 else b.connected;
          failed = if dials addr then b.failed else b.failed + 1;
        })
        peers
]

-- The second part says whether the bootstrap query is started.
unfoldable pub bootstrap :
    (Text → Option Multiaddr) → (Multiaddr → Bool) → List Text → Bootstrapped × Bool
unfolding bootstrap_from
bootstrap parse dials peers =
    let b = bootstrap_from parse dials (record { routed = []; connected = 0; failed = 0 }) peers in
    (b, ltb 0 b.connected)
