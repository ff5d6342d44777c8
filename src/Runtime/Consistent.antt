-- ===== src/Runtime/Consistent.antt =====
-- src/runtime.rs: what every turn of the loop keeps of the peer store and of the providers.
use guix_p2p.Prelude.{
  ℕ, ◌≤◌, ◌≡◌, refl, Option, none, some, List, [], ◌∷◌, returns, nat_eq, text_eq, ap, subst, sym,
}
use guix_p2p.Crypto.{Bytes, Text, Crypto}
use guix_p2p.Swarm.Codec.{PeerId}
use guix_p2p.PeerStore.{Network, PeerStore, Multiaddr, recorded, removed, call, min_seen_at}
use guix_p2p.PeerStore.Pruned.{IsPruned, call-IsPruned}
use guix_p2p.Dht.{extract_hash_bytes}
use guix_p2p.Dht.Agreement.{Agrees}
use guix_p2p.Runtime.{
  map_option, Moment, SwarmState, find_providers, send_block_request, start_providing, announce_nar,
  announce_all, look_up, start_lookup, start_query, record_peer_address, forget_peer_address,
}
use guix_p2p.Runtime.Turns.{
  Turn, prune_tick, swarm_event, command, response_ready, query, cache_filled,
}

option_both :
    {A B : Type 0} (P : B → Type 0) (o : Option A) {a : B} {f : A → B}
    → P a
    → ((x : A) → P (f x))
    → P (elim o [ none ↦ a | some x ↦ f x ])
option_both P none absent present = absent
option_both P (some x) absent present = present x

module _ (c : Crypto) (n : Network) where
  abbrev pub StoreIsPruned : ℕ → Option PeerStore → Type 0
  StoreIsPruned since none = Unit
  StoreIsPruned since (some store) = IsPruned n since store

  -- The cache and the tasks that fill it agree with the notifications, and the peer store, if there is one, is pruned.
  pub record Consistent (since : ℕ) (s : SwarmState) : Type 0 where
    pub providers : Agrees s.dht
    pub peers : StoreIsPruned since s.peer_store

  -- The key of the lookup can be read from its hash.
  abbrev pub Readable : Text → Type 0
  Readable hash = (key : Bytes) × (extract_hash_bytes c hash ≡ returns key)

  abbrev pub IsReadable : Turn → Type 0
  IsReadable prune_tick = Unit
  IsReadable (swarm_event e) = Unit
  IsReadable (command (find_providers hash) query_id) = Readable hash
  IsReadable (command (send_block_request peer request) query_id) = Unit
  IsReadable (command (start_providing hash) query_id) = Unit
  IsReadable (response_ready i) = Unit
  IsReadable (query hash query_id) = Readable hash
  IsReadable (cache_filled i) = Unit

  -- The clock is not before its value when the store was loaded, and the hash of a lookup is readable.
  abbrev pub IsExpected : ℕ → Moment × Turn → Type 0
  IsExpected since (now, turn) = (since ≤ min_seen_at n now.unix) × IsReadable turn

  on_store :
      (since : ℕ) (o : Option PeerStore) {f : PeerStore → PeerStore}
      → ((store : PeerStore) → IsPruned n since store → IsPruned n since (f store))
      → StoreIsPruned since o
      → StoreIsPruned since (map_option f o)
  on_store since none keeps h = tt
  on_store since (some store) keeps h = keeps store h

  -- A change of any other field.
  pub same-Consistent :
      {since : ℕ} {s t : SwarmState}
      → Consistent since s
      → t.dht ≡ s.dht
      → t.peer_store ≡ s.peer_store
      → Consistent since t
  same-Consistent {since} h dht store = record {
    providers = subst Agrees (sym dht) h.providers;
    peers = subst (StoreIsPruned since) (sym store) h.peers;
  }

  pub announce_nar-Consistent :
      {since : ℕ} (refusal : Bytes → Option Text) (s : SwarmState) (hash reason : Text)
      → Consistent since s
      → Consistent since (announce_nar c refusal s hash reason)
  unfolding announce_nar
  announce_nar-Consistent {since} refusal s hash reason h =
      option_both (Consistent since) (c.unhex hash) h (λ key.
        option_both (Consistent since) (refusal key) (same-Consistent h refl refl)
          (λ e. same-Consistent h refl refl))

  pub announce_all-Consistent :
      {since : ℕ} (refusal : Bytes → Option Text) (s : SwarmState) (hashes : List Text)
      (reason : Text)
      → Consistent since s
      → Consistent since (announce_all c refusal s hashes reason)
  unfolding announce_all
  announce_all-Consistent refusal s [] reason h = h
  announce_all-Consistent refusal s (hash ∷ hashes) reason h =
      announce_all-Consistent refusal (announce_nar c refusal s hash reason) hashes reason
        (announce_nar-Consistent refusal s hash reason h)

  pub look_up-Consistent :
      {since : ℕ} (s : SwarmState) (hash : Text) (query_id : ℕ)
      → Readable hash
      → Consistent since s
      → (t : SwarmState) × ((look_up c s hash query_id ≡ returns t) × Consistent since t)
  unfolding look_up start_lookup start_query
  look_up-Consistent s hash query_id (key, readable) h = (
    start_query s hash query_id key,
    (
      ap (start_lookup s hash query_id) readable,
      record {
        providers = record { known = h.providers.known; once = h.providers.once };
        peers = h.peers;
      },
    ),
  )

  pub record_peer_address-Consistent :
      {since : ℕ} (now : Moment) (s : SwarmState) (peer : PeerId) (address : Multiaddr)
      → since ≤ min_seen_at n now.unix
      → Consistent since s
      → Consistent since (record_peer_address n now s peer address)
  unfolding record_peer_address call
  record_peer_address-Consistent {since} now s peer address late h = record {
    providers = h.providers;
    peers =
        on_store since s.peer_store
          (λ store kept.
            call-IsPruned n since store (recorded now.unix now.saved peer address) late kept)
          h.peers;
  }

  pub forget_peer_address-Consistent :
      {since : ℕ} (now : Moment) (s : SwarmState) (peer : PeerId) (address : Multiaddr)
      → Consistent since s
      → Consistent since (forget_peer_address n now s peer address)
  unfolding forget_peer_address call
  forget_peer_address-Consistent {since} now s peer address h = record {
    providers = h.providers;
    peers =
        on_store since s.peer_store
          (λ store kept. call-IsPruned n since store (removed now.saved peer address) tt kept)
          h.peers;
  }
