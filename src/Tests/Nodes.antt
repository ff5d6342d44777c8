-- ===== src/Tests/Nodes.antt =====
-- src/peer_store.rs, src/bandwidth.rs and src/dht.rs: a store with one peer behind a name, a limited
-- transfer, and the events of one lookup.
use guix_p2p.Prelude.{
  panics, ◌++◌, ℕ, ◌+◌, ◌*◌, ◌^◌, ◌≡◌, refl, true, false, none, some, List, [], ◌∷◌, arith, nat_eq,
  text_eq,
}
use guix_p2p.Crypto.{Text}
use guix_p2p.Text.{chars}
use guix_p2p.Bandwidth.{
  BandwidthConfig, new, wait_for_upload, wait_for_download, Limited, transfers-Limited,
}
use guix_p2p.Dht.{
  get_providers, extract_hash_bytes, DhtStep, kad_event, filled, DhtState, handle_steps,
  found_providers, finished,
}
use guix_p2p.Dht.Agreement.{Agrees, handle_steps-Agrees}
use guix_p2p.PeerStore.{
  Network, PeerStoreEntry, min_seen_at, load, StoreCall, call_all, ip4, ip6, p2p, other, recorded,
  removed,
}
use guix_p2p.PeerStore.Pruned.{IsPruned, load-IsPruned}
use guix_p2p.Providers.Lists.{AllDistinct}
use guix_p2p.Tests.Sample.{padding}

-- A peer id is a text of one character; an address is a name, or a number for a loopback address.
abbrev pub network : Network
network = record {
  parse_peer = λ t. elim t [ [] ↦ none | p ∷ _ ↦ some p ];
  show_peer = λ p. p ∷ [];
  parse_address =
      λ t. elim t [ [] ↦ some (ip4 (127 * 2 ^ 24 + 1) ∷ []) | c ∷ s ↦ some (other (c ∷ s) ∷ []) ];
  show_address = λ a. elim a [
    | [] ↦ []
    | p ∷ _ ↦ elim p [ ip4 ip ↦ [] | ip6 ip ↦ [] | p2p q ↦ [] | other t ↦ t ]
  ];
  interface_ips = some [];
}

abbrev place : Text → ℕ → PeerStoreEntry
place address last_seen = record { peer_id = 7 ∷ []; address = address; last_seen = last_seen }

-- A stale entry, one that cannot be dialled, one twice, and another one.
abbrev pub content : List PeerStoreEntry
content =
    place (chars "old") 5
    ∷ place [] 9000000
    ∷ place (chars "a") 8000000
    ∷ place (chars "a") 9000000
    ∷ place (chars "b") 8500000
    ∷ []

abbrev calls : List StoreCall
calls =
    recorded 9500000 true 7 (other (chars "a") ∷ p2p 7 ∷ [])
    ∷ removed false 7 (other (chars "b") ∷ [])
    ∷ []

loaded_entries :
    (load network 9000000 2 (some content)).entries
    ≡ place (chars "b") 8500000 ∷ place (chars "a") 8000000 ∷ []
unfolding load
loaded_entries = refl

load-IsPruned_example :
    IsPruned network
      (min_seen_at network 9000000)
      (call_all network (load network 9000000 2 (some content)) calls)
load-IsPruned_example = load-IsPruned network 9000000 2 (some content) calls (omega arith, (tt, tt))

abbrev limits : BandwidthConfig
limits = record { upload_limit_bytes_per_sec = some 4; download_limit_bytes_per_sec = none }

portions : wait_for_upload (new limits) 10 ≡ (4 ∷ 4 ∷ 2 ∷ [], 0)
unfolding wait_for_upload new
portions = refl

transfers-Limited_example :
    Limited (some 4) 10 (wait_for_upload (new limits) 10)
    × Limited none 10 (wait_for_download (new limits) 10)
transfers-Limited_example = transfers-Limited limits 10 (omega arith)

abbrev lookup_events : List DhtStep
lookup_events =
    kad_event (record { id = 1; result = found_providers (9 ∷ []) (4 ∷ 5 ∷ []); last = false })
    ∷ kad_event (record { id = 1; result = found_providers (9 ∷ []) (5 ∷ 6 ∷ []); last = false })
    ∷ filled 1
    ∷ kad_event (record { id = 1; result = finished; last = true })
    ∷ filled 0
    ∷ []

abbrev pub idle : DhtState
idle = record {
  cache = [];
  filling = [];
  active_provider_queries = (1, padding.hex (9 ∷ [])) ∷ [];
  notices = [];
  events = [];
}

pub idle-Agrees : Agrees idle
unfolding get_providers AllDistinct
idle-Agrees = record { known = λ key p. refl; once = λ key. tt }

cached_peers :
    (handle_steps padding idle lookup_events).cache ≡ (padding.hex (9 ∷ []), 5 ∷ 6 ∷ 4 ∷ []) ∷ []
unfolding handle_steps
cached_peers = refl

-- The slice of sixteen bytes ends inside the last character.
split_character : extract_hash_bytes padding (chars "aaaaaaaaaaaaaaa" ++ 0xe9 ∷ []) ≡ panics
unfolding extract_hash_bytes
split_character = refl

handle_steps-Agrees_example : Agrees (handle_steps padding idle lookup_events)
handle_steps-Agrees_example = handle_steps-Agrees padding lookup_events idle idle-Agrees
