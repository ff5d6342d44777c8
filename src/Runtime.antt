-- ===== src/Runtime.antt =====
-- src/runtime.rs and src/channel.rs: the task that drives the swarm. One turn of its loop is one branch
-- of `select!`; what libp2p, the clock and the other tasks give to the turn is an argument. What the
-- handler of Kademlia sends is kept in `dht`, apart from the other notifications and reports. A query
-- and the channel of a request are known by a number.
pub mod Events
pub mod Turns
pub mod Consistent
pub mod Running
pub mod Health
use guix_p2p.Prelude.{
  ℕ, Bool, Option, none, some, List, [], ◌∷◌, ◌++◌, map, length, sum, Outcome, panics, returns,
  insert, nat_eq, text_eq,
}
use guix_p2p.Crypto.{Bytes, Text, Crypto}
use guix_p2p.Text.{utf8}
use guix_p2p.Swarm.Codec.{PeerId, BlockRequest, BlockResponse, handshake_reply, blocks, error}
use guix_p2p.Connection.{ConnectionManager}
use guix_p2p.Reputation.{ReputationTracker}
use guix_p2p.NarStore.{NarStore, seeded_hashes}
use guix_p2p.PeerStore.{Network, PeerStore, Multiaddr, record_address, remove_address}
use guix_p2p.Dht.{DhtState, extract_hash_bytes}

pub data SwarmCommand : Type 0 where
  find_providers : Text → SwarmCommand
  send_block_request : PeerId → BlockRequest → SwarmCommand
  start_providing : Text → SwarmCommand

-- `ProvidersFound` is a notification of `dht`.
pub data SwarmNotification : Type 0 where
  block_response : PeerId → BlockResponse → SwarmNotification
  block_request_failed : PeerId → SwarmNotification

-- The events for the dashboard.
pub data Report : Type 0 where
  lookup_started : Text → Report
  announce_started : Text → Text → Report
  announce_failed : Text → Text → Report
  block_served : Text → Text → List ℕ → Report
  peer_connected : Text → List Text → Report
  peer_disconnected : Text → Option Text → Report
  dial_started : Option Text → Report
  dial_failed : Option Text → Text → Report
  inbound_started : Text → Report
  inbound_failed : Option Text → Text → Text → Report

-- What the task asks of libp2p.
pub data Action : Type 0 where
  get_record : Bytes → Action
  send_request : PeerId → BlockRequest → Action
  provide : Bytes → Action
  add_route : PeerId → Multiaddr → Action
  remove_route : PeerId → Multiaddr → Action
  send_response : ℕ → BlockResponse → Action

-- The channel of the request, the response and the report of it.
pub record PendingBlockResponse : Type 0 where
  pub channel : ℕ
  pub response : BlockResponse
  pub event : Option Report

-- `pending` has the responses that wait for the bandwidth or in the channel to the loop.
pub record SwarmState : Type 0 where
  pub dht : DhtState
  pub connections : ConnectionManager
  pub reputation : ReputationTracker
  pub nars : NarStore
  pub peer_store : Option PeerStore
  pub pending : List PendingBlockResponse
  pub notices : List SwarmNotification
  pub reports : List Report
  pub actions : List Action

-- The monotonic clock in milliseconds, the seconds since 1970, and whether a write succeeds.
pub record Moment : Type 0 where
  pub instant : ℕ
  pub unix : ℕ
  pub saved : Bool

unfoldable pub response_size_bytes : BlockResponse → ℕ
response_size_bytes (handshake_reply available count size block_hashes) =
    sum (map (λ hash. length hash) block_hashes)
response_size_bytes (blocks data_blocks) = sum (map (λ block. length block.bytes) data_blocks)
response_size_bytes (error message) = length (utf8 message)

abbrev pub say : SwarmState → Report → SwarmState
say s event = record s { reports = s.reports ++ event ∷ [] }

abbrev pub ask : SwarmState → Action → SwarmState
ask s action = record s { actions = s.actions ++ action ∷ [] }

abbrev pub map_option {ℓ} : {A B : Type ℓ} → (A → B) → Option A → Option B
map_option f none = none
map_option f (some x) = some (f x)

module _ (n : Network) where
  unfoldable pub record_peer_address : Moment → SwarmState → PeerId → Multiaddr → SwarmState
  unfolding record_address
  record_peer_address now s peer address = record s {
    peer_store =
        map_option (λ store. record_address n now.unix now.saved store peer address) s.peer_store;
  }

  unfoldable pub forget_peer_address : Moment → SwarmState → PeerId → Multiaddr → SwarmState
  unfolding remove_address
  forget_peer_address now s peer address = record s {
    peer_store = map_option (λ store. remove_address n now.saved store peer address) s.peer_store;
  }

-- The report comes before the query, the active queries after it.
unfoldable pub start_query : SwarmState → Text → ℕ → Bytes → SwarmState
start_query s hash query_id key = record (ask (say s (lookup_started hash)) (get_record key)) {
  dht = record s.dht {
    active_provider_queries = insert s.dht.active_provider_queries query_id hash;
  };
}

unfoldable pub start_lookup : SwarmState → Text → ℕ → Outcome Bytes → Outcome SwarmState
unfolding start_query
start_lookup s hash query_id panics = panics
start_lookup s hash query_id (returns key) = returns (start_query s hash query_id key)

module _ (c : Crypto) where
  -- `refusal` is the error of `start_providing` for a key.
  unfoldable pub announce_nar : (Bytes → Option Text) → SwarmState → Text → Text → SwarmState
  announce_nar refusal s hash reason = elim (c.unhex hash) [
    | none ↦ s
    | some key ↦
        let asked = ask (say s (announce_started hash reason)) (provide key) in
        elim (refusal key) [ none ↦ asked | some e ↦ say asked (announce_failed hash e) ]
  ]

  unfoldable pub announce_all : (Bytes → Option Text) → SwarmState → List Text → Text → SwarmState
  unfolding announce_nar
  announce_all refusal s [] reason = s
  announce_all refusal s (hash ∷ hashes) reason =
      announce_all refusal (announce_nar refusal s hash reason) hashes reason

  unfoldable pub announce_seeded_nars : (Bytes → Option Text) → SwarmState → Text → SwarmState
  unfolding announce_all seeded_hashes
  announce_seeded_nars refusal s reason = announce_all refusal s (seeded_hashes s.nars) reason

  unfoldable pub look_up : SwarmState → Text → ℕ → Outcome SwarmState
  unfolding extract_hash_bytes start_lookup
  look_up s hash query_id = start_lookup s hash query_id (extract_hash_bytes c hash)
