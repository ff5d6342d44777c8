-- ===== src/Connection.antt =====
-- src/connection.rs: which peers may be dialled. Instants and durations are milliseconds of the
-- monotonic clock; the time of a call is an argument. The sets of addresses are lists.
use guix_p2p.Swarm.Block.{u32_mod}
use guix_p2p.Prelude.{
  ◌%◌, ◌+◌, ℕ, ◌-◌, ◌*◌, ◌^◌, min, Bool, true, false, not, ◌&&◌, ◌||◌, Option, none, some, List, [],
  ◌∷◌, ltb, leb, if◌then◌else◌, nat_eq, text_eq, length, keep, insert_set, remove_set, Map, lookup,
  insert, modify, keys,
}
use guix_p2p.Crypto.{Text}
use guix_p2p.Swarm.Codec.{PeerId}

pub record ConnectionConfig : Type 0 where
  pub connect_timeout : ℕ
  pub max_retries : ℕ
  pub backoff_base : ℕ
  pub health_check_interval : ℕ
  pub max_peers : ℕ

pub record PeerState : Type 0 where
  pub retry_count : ℕ
  pub last_attempt : ℕ
  pub last_active : ℕ
  pub connected : Bool
  pub addresses : List Text

pub record ConnectionManager : Type 0 where
  pub config : ConnectionConfig
  pub peers : Map PeerId PeerState

unfoldable pub new : ConnectionConfig → ConnectionManager
new config = record { config = config; peers = [] }

abbrev pub fresh : ℕ → PeerState
fresh now = record {
  retry_count = 0;
  last_attempt = now;
  last_active = now;
  connected = false;
  addresses = [];
}

-- `entry(peer).or_insert(fresh)`, then the change `f` of the entry.
unfoldable pub with_state :
    ℕ → ConnectionManager → PeerId → (PeerState → PeerState) → ConnectionManager
with_state now m peer f = elim (lookup m.peers peer) [
  | none ↦ record m { peers = insert m.peers peer (f (fresh now)) }
  | some state ↦ record m { peers = insert m.peers peer (f state) }
]

abbrev pub extend : List Text → List Text → List Text
extend s [] = s
extend s (a ∷ addresses) = extend (insert_set s a) addresses

unfoldable pub on_connected_with_addresses :
    ℕ → ConnectionManager → PeerId → List Text → ConnectionManager
unfolding with_state
on_connected_with_addresses now m peer addresses = with_state now m peer (λ entry. record entry {
  retry_count = 0;
  last_active = now;
  connected = true;
  addresses = extend entry.addresses addresses;
})

unfoldable pub on_connected : ℕ → ConnectionManager → PeerId → ConnectionManager
unfolding on_connected_with_addresses
on_connected now m peer = on_connected_with_addresses now m peer []

unfoldable pub on_disconnected : ℕ → ConnectionManager → PeerId → ConnectionManager
on_disconnected now m peer = record m {
  peers = modify m.peers peer (λ state. record state { last_active = now; connected = false });
}

unfoldable pub on_active : ℕ → ConnectionManager → PeerId → ConnectionManager
unfolding with_state
on_active now m peer = with_state now m peer (λ state. record state { last_active = now })

unfoldable pub add_address : ℕ → ConnectionManager → PeerId → Text → ConnectionManager
unfolding with_state
add_address now m peer address =
    with_state now m peer
      (λ state. record state { addresses = insert_set state.addresses address; last_active = now })

unfoldable pub remove_address : ℕ → ConnectionManager → PeerId → Text → ConnectionManager
remove_address now m peer address = record m {
  peers =
      modify m.peers peer (λ state. record state {
        addresses = remove_set state.addresses address;
        last_active = now;
      });
}

unfoldable pub peer_count : ConnectionManager → ℕ
peer_count m = length m.peers

unfoldable pub connected_count : ConnectionManager → ℕ
connected_count m = length (keep (λ (e : PeerId × PeerState). e.1.connected) m.peers)

-- `sort_by_key(to_string)` is left to `sort`, a permutation by the text of a peer id.
unfoldable pub connected_peers : (List PeerId → List PeerId) → ConnectionManager → List PeerId
connected_peers sort m = sort (keys (keep (λ (e : PeerId × PeerState). e.1.connected) m.peers))

unfoldable pub backoff_expired : ℕ → ConnectionManager → PeerState → Bool
backoff_expired now m state =
    leb (m.config.backoff_base * 2 ^ min state.retry_count 6) (now - state.last_attempt)

unfoldable pub can_connect : ℕ → ConnectionManager → PeerId → Bool
unfolding backoff_expired
can_connect now m peer =
    if leb m.config.max_peers (length m.peers) then false else elim (lookup m.peers peer) [
      | none ↦ true
      | some state ↦ ltb state.retry_count m.config.max_retries || backoff_expired now m state
    ]

unfoldable pub next_retry_delay : ℕ → ConnectionManager → PeerId → Option ℕ
next_retry_delay now m peer = elim (lookup m.peers peer) [
  | none ↦ none
  | some state ↦
      let elapsed = now - state.last_attempt in
      let max_backoff = m.config.backoff_base * (2 ^ m.config.max_retries % u32_mod) in
      if leb m.config.max_retries state.retry_count && ltb elapsed max_backoff
      then some (max_backoff - elapsed)
      else none
]

unfoldable pub record_attempt : ℕ → ConnectionManager → PeerId → ConnectionManager
unfolding with_state
record_attempt now m peer =
    with_state now m peer (λ entry. record entry {
      retry_count = (entry.retry_count + 1) % u32_mod;
      last_attempt = now;
    })

abbrev pub dead : ℕ → ConnectionManager → PeerId × PeerState → Bool
dead now m e = ltb (e.1.last_active + m.config.health_check_interval * 2) now

-- `retain`: the peers that stay, and those that go.
unfoldable pub prune_dead : ℕ → ConnectionManager → ConnectionManager × List PeerId
prune_dead now m =
    (record m { peers = keep (λ e. not (dead now m e)) m.peers }, keys (keep (dead now m) m.peers))
