-- ===== src/PeerStore/Pruned.antt =====
-- src/peer_store.rs: the invariant of the store, which every operation keeps.
use guix_p2p.Prelude.{
  nat_beq, none, length-keep-le, keep, Option, length-take, arith, text_beq, ◌&&◌, Bool, ℕ, ◌≤◌,
  not, List, [], ◌∷◌, if_both, nat_eq, text_eq, length, All,
}
use guix_p2p.Swarm.Codec.{PeerId}
use guix_p2p.PeerStore.{
  nat_beq, touch, removed, keep, clean_peer_address, some, recorded, Option, normalize_address,
  remove_address, call, call_all, load, StoreCall, record_clean, sort_entries, min_seen_at,
  text_beq, Multiaddr, prune, save, Bool, Network, PeerStoreEntry, PeerStore, retain_valid,
}
use guix_p2p.PeerStore.Order.{
  All-keep, keep-IsDistinct, keep-IsSorted, All-sort_entries, All-take, sort_entries-IsDistinct,
  take-IsDistinct, sort_entries-IsSorted, take-IsSorted, All-map, IsSorted, IsDistinct,
}
use guix_p2p.PeerStore.Retained.{IsValid, retain_valid-IsValid, retain_valid-IsDistinct}

module _ (n : Network) where
  -- No more entries than allowed, the newest first, no place twice, and all of them valid.
  pub record IsPruned (since : ℕ) (s : PeerStore) : Type 0 where
    pub bounded : length s.entries ≤ s.max_entries
    pub sorted : IsSorted s.entries
    pub distinct : IsDistinct s.entries
    pub valid : All (IsValid n since) s.entries

  prune-IsPruned : (now : ℕ) (s : PeerStore) → IsPruned (min_seen_at n now) (prune n now s)
  unfolding prune
  prune-IsPruned now s =
      let since = min_seen_at n now in
      let kept = retain_valid n since [] s.entries in
      record {
        bounded = omega (arith, length-take s.max_entries (sort_entries kept));
        sorted = take-IsSorted s.max_entries (sort_entries kept) (sort_entries-IsSorted kept);
        distinct =
            take-IsDistinct s.max_entries (sort_entries kept)
              (sort_entries-IsDistinct kept (retain_valid-IsDistinct n since [] s.entries));
        valid =
            All-take (IsValid n since) s.max_entries (sort_entries kept)
              (All-sort_entries (IsValid n since) kept (retain_valid-IsValid n since [] s.entries));
      }

  -- What is valid stays so for an earlier bound.
  IsPruned-weaken :
      (since earlier : ℕ) (s : PeerStore) → earlier ≤ since → IsPruned since s → IsPruned earlier s
  IsPruned-weaken since earlier s le h = record {
    bounded = h.bounded;
    sorted = h.sorted;
    distinct = h.distinct;
    valid =
        All-map (IsValid n since) (IsValid n earlier) s.entries
          (λ e v. (omega (arith, v.0, le), v.1)) h.valid;
  }

  save-IsPruned :
      (since : ℕ) (saved : Bool) (s : PeerStore)
      → IsPruned since s
      → IsPruned since (save n saved s)
  unfolding save
  save-IsPruned since saved s h = record {
    bounded = h.bounded;
    sorted = h.sorted;
    distinct = h.distinct;
    valid = h.valid;
  }

  record_clean-IsPruned :
      (since now : ℕ) (saved : Bool) (s : PeerStore) (peer : PeerId) (o : Option Multiaddr)
      → since ≤ min_seen_at n now
      → IsPruned since s
      → IsPruned since (record_clean n now saved s peer o)
  unfolding record_clean
  record_clean-IsPruned since now saved s peer none le h = h
  record_clean-IsPruned since now saved s peer (some addr) le h =
      let e : PeerStoreEntry = record {
        peer_id = n.show_peer peer;
        address = n.show_address addr;
        last_seen = now;
      } in
      let t : PeerStore = record s { entries = touch n e s.entries } in
      save-IsPruned since saved (prune n now t)
        (IsPruned-weaken (min_seen_at n now) since (prune n now t) le (prune-IsPruned now t))

  remove_address-IsPruned :
      (since : ℕ) (saved : Bool) (s : PeerStore) (peer : PeerId) (address : Multiaddr)
      → IsPruned since s
      → IsPruned since (remove_address n saved s peer address)
  unfolding remove_address
  remove_address-IsPruned since saved s peer address h =
      let addr = n.show_address (normalize_address address) in
      let other_place : PeerStoreEntry → Bool =
        λ e. not (text_beq e.peer_id (n.show_peer peer) && text_beq e.address addr) in
      let kept = keep other_place s.entries in
      let t : PeerStore = record s { entries = kept } in
      let k : IsPruned since t = record {
        bounded = omega (arith, length-keep-le other_place s.entries, h.bounded);
        sorted = keep-IsSorted other_place s.entries h.sorted;
        distinct = keep-IsDistinct other_place s.entries h.distinct;
        valid = All-keep (IsValid n since) other_place s.entries h.valid;
      } in
      if_both (IsPruned since) (nat_beq (length kept) (length s.entries)) k
        (save-IsPruned since saved t k)

  -- The call is made no earlier than that.
  abbrev pub NotBefore : ℕ → StoreCall → Type 0
  NotBefore since (recorded now saved peer address) = since ≤ min_seen_at n now
  NotBefore since (removed saved peer address) = Unit

  pub call-IsPruned :
      (since : ℕ) (s : PeerStore) (c : StoreCall)
      → NotBefore since c
      → IsPruned since s
      → IsPruned since (call n s c)
  unfolding call
  call-IsPruned since s (recorded now saved peer address) le h =
      record_clean-IsPruned since now saved s peer (clean_peer_address n address) le h
  call-IsPruned since s (removed saved peer address) le h =
      remove_address-IsPruned since saved s peer address h

  call_all-IsPruned :
      (since : ℕ) (calls : List StoreCall) (s : PeerStore)
      → All (NotBefore since) calls
      → IsPruned since s
      → IsPruned since (call_all n s calls)
  unfolding call_all
  call_all-IsPruned since [] s le h = h
  call_all-IsPruned since (c ∷ calls) s (first, le) h =
      call_all-IsPruned since calls (call n s c) le (call-IsPruned since s c first h)

  -- A peer store that was loaded from any file, or from none, and on which any calls were made since,
  -- holds no more entries than its maximum, the last seen first, no peer twice at the same address, and
  -- only entries that parse, can be dialled, and are at most thirty days older than the loading, provided
  -- the clock is not before its value at the loading.
  pub load-IsPruned :
      (now max_entries : ℕ) (content : Option (List PeerStoreEntry)) (calls : List StoreCall)
      → All (NotBefore (min_seen_at n now)) calls
      → IsPruned (min_seen_at n now) (call_all n (load n now max_entries content) calls)
  unfolding load
  load-IsPruned now max_entries content calls le =
      call_all-IsPruned (min_seen_at n now) calls (load n now max_entries content) le
        (prune-IsPruned now _)
