-- ===== src/PeerStore.antt =====
-- src/peer_store.rs: the stored addresses of reachable peers. A multiaddress is the list of its
-- protocols; its text and that of a peer id are those of libp2p. The file holds the entries as they are.
pub mod Order
pub mod Retained
pub mod Pruned
use guix_p2p.Prelude.{
  ℕ, ◌+◌, ◌-◌, ◌*◌, ◌/◌, ◌^◌, Bool, true, false, not, ◌&&◌, ◌||◌, Option, none, some, List, [], ◌∷◌,
  ◌++◌, map, ltb, leb, nat_beq, if◌then◌else◌, nat_eq, text_beq, text_eq, length, take, keep, any,
  filter_map,
}
use guix_p2p.Crypto.{Text}
use guix_p2p.Swarm.Codec.{PeerId}

-- An IP address is the number of its 32 or 128 bits.
pub data Ip : Type 0 where
  v4 : ℕ → Ip
  v6 : ℕ → Ip

-- `other` stands for the protocols that the code does not look at.
pub data Protocol : Type 0 where
  ip4 : ℕ → Protocol
  ip6 : ℕ → Protocol
  p2p : PeerId → Protocol
  other : Text → Protocol

abbrev pub Multiaddr : Type 0
Multiaddr = List Protocol

-- The texts of libp2p, and the addresses of the local interfaces, which the system may not give.
pub record Network : Type 0 where
  pub parse_peer : Text → Option PeerId
  pub show_peer : PeerId → Text
  pub parse_address : Text → Option Multiaddr
  pub show_address : Multiaddr → Text
  pub interface_ips : Option (List Ip)

pub record PeerStoreEntry : Type 0 where
  pub peer_id : Text
  pub address : Text
  pub last_seen : ℕ

-- `disk` is what the file holds.
pub record PeerStore : Type 0 where
  pub max_entries : ℕ
  pub entries : List PeerStoreEntry
  pub disk : Option (List PeerStoreEntry)

abbrev max_peer_age_secs : ℕ
max_peer_age_secs = 30 * 24 * 60 * 60

-- `Ipv4Addr` and `Ipv6Addr` of the standard library.
abbrev in_net : ℕ → ℕ → ℕ → Bool
in_net net size ip = nat_beq (ip / size) net

abbrev is_unspecified_ip : Protocol → Bool
is_unspecified_ip (ip4 ip) = nat_beq ip 0
is_unspecified_ip (ip6 ip) = nat_beq ip 0
is_unspecified_ip (p2p _) = false
is_unspecified_ip (other _) = false

abbrev is_loopback_ip : Protocol → Bool
is_loopback_ip (ip4 ip) = in_net 127 (2 ^ 24) ip
is_loopback_ip (ip6 ip) = nat_beq ip 1
is_loopback_ip (p2p _) = false
is_loopback_ip (other _) = false

-- 10/8, 172.16/12, 192.168/16 and 169.254/16; fc00::/7 and fe80::/10.
abbrev is_private_ip : Protocol → Bool
is_private_ip (ip4 ip) =
    in_net 10 (2 ^ 24) ip
    || (in_net (172 * 16 + 1) (2 ^ 20) ip
        || (in_net (192 * 256 + 168) (2 ^ 16) ip || in_net (169 * 256 + 254) (2 ^ 16) ip))
is_private_ip (ip6 ip) = in_net 126 (2 ^ 121) ip || in_net (0xfe80 / 64) (2 ^ 118) ip
is_private_ip (p2p _) = false
is_private_ip (other _) = false

unfoldable pub normalize_address : Multiaddr → Multiaddr
normalize_address [] = []
normalize_address (p2p peer ∷ []) = []
normalize_address (ip4 ip ∷ []) = ip4 ip ∷ []
normalize_address (ip6 ip ∷ []) = ip6 ip ∷ []
normalize_address (other t ∷ []) = other t ∷ []
normalize_address (p ∷ q ∷ addr) = p ∷ normalize_address (q ∷ addr)

unfoldable pub clean_address : Multiaddr → Option Multiaddr
unfolding normalize_address
clean_address address =
    let addr = normalize_address address in
    if any is_unspecified_ip addr || any is_loopback_ip addr then none else some addr

unfoldable pub multiaddr_ip : Multiaddr → Option Ip
multiaddr_ip [] = none
multiaddr_ip (ip4 ip ∷ addr) = some (v4 ip)
multiaddr_ip (ip6 ip ∷ addr) = some (v6 ip)
multiaddr_ip (p2p _ ∷ addr) = multiaddr_ip addr
multiaddr_ip (other _ ∷ addr) = multiaddr_ip addr

abbrev same_ip : Ip → Ip → Bool
same_ip (v4 a) (v4 b) = nat_beq a b
same_ip (v6 a) (v6 b) = nat_beq a b
same_ip (v4 a) (v6 b) = false
same_ip (v6 a) (v4 b) = false

-- The same peer at the same address.
abbrev pub same_place : PeerStoreEntry → PeerStoreEntry → Bool
same_place a b = text_beq a.peer_id b.peer_id && text_beq a.address b.address

abbrev pub has_place : PeerStoreEntry → List PeerStoreEntry → Bool
has_place e entries = any (same_place e) entries

-- `sort_by_key(|entry| Reverse(entry.last_seen))`, a stable sort, by insertion.
unfoldable pub insert_entry : PeerStoreEntry → List PeerStoreEntry → List PeerStoreEntry
insert_entry e [] = e ∷ []
insert_entry e (f ∷ entries) =
    let rest = insert_entry e entries in
    if leb f.last_seen e.last_seen then e ∷ f ∷ entries else f ∷ rest

unfoldable pub sort_entries : List PeerStoreEntry → List PeerStoreEntry
unfolding insert_entry
sort_entries [] = []
sort_entries (e ∷ entries) = insert_entry e (sort_entries entries)

module _ (n : Network) where
  unfoldable pub is_local_interface_address : Multiaddr → Bool
  unfolding multiaddr_ip
  is_local_interface_address addr = elim (multiaddr_ip addr) [
    | none ↦ false
    | some ip ↦ elim n.interface_ips [ none ↦ false | some ips ↦ any (same_ip ip) ips ]
  ]

  unfoldable pub clean_peer_address : Multiaddr → Option Multiaddr
  unfolding clean_address is_local_interface_address
  clean_peer_address address = elim (clean_address address) [
    | none ↦ none
    | some addr ↦ if is_local_interface_address addr then none else some addr
  ]

  unfoldable pub is_peer_address : Multiaddr → Bool
  unfolding clean_peer_address
  is_peer_address address = elim (clean_peer_address address) [ none ↦ false | some _ ↦ true ]

  unfoldable pub is_public_peer_address : Multiaddr → Bool
  unfolding clean_peer_address
  is_public_peer_address address = elim (clean_peer_address address) [
    | none ↦ false
    | some addr ↦ not (any is_private_ip addr)
  ]

  unfoldable pub full_multiaddr : PeerStoreEntry → Option Multiaddr
  unfolding clean_peer_address
  full_multiaddr entry = elim (n.parse_peer entry.peer_id) [
    | none ↦ none
    | some peer ↦ elim (n.parse_address entry.address) [
      | none ↦ none
      | some address ↦ elim (clean_peer_address address) [
        | none ↦ none
        | some addr ↦ some (addr ++ p2p peer ∷ [])
      ]
    ]
  ]

  unfoldable pub public_full_multiaddr : PeerStoreEntry → Option Multiaddr
  unfolding is_public_peer_address
  public_full_multiaddr entry = elim (n.parse_peer entry.peer_id) [
    | none ↦ none
    | some peer ↦ elim (n.parse_address entry.address) [
      | none ↦ none
      | some address ↦
          if is_public_peer_address address then some (address ++ p2p peer ∷ []) else none
    ]
  ]

  unfoldable pub bootstrap_peers : PeerStore → List Text
  unfolding public_full_multiaddr
  bootstrap_peers s = map n.show_address (filter_map public_full_multiaddr s.entries)

  abbrev pub is_dialable : PeerStoreEntry → Bool
  is_dialable e = elim (full_multiaddr e) [ none ↦ false | some _ ↦ true ]

  -- The entries that `retain` keeps, of which the first of a place counts; `seen` are those before.
  unfoldable pub retain_valid : ℕ → List PeerStoreEntry → List PeerStoreEntry → List PeerStoreEntry
  unfolding full_multiaddr
  retain_valid min_seen seen [] = []
  retain_valid min_seen seen (e ∷ entries) =
      let skip = retain_valid min_seen seen entries in
      let rest = retain_valid min_seen (e ∷ seen) entries in
      if ltb e.last_seen min_seen || not (is_dialable e)
      then skip
      else if has_place e seen
      then skip
      else e ∷ rest

  abbrev pub min_seen_at : ℕ → ℕ
  min_seen_at now = now - max_peer_age_secs

  unfoldable pub prune : ℕ → PeerStore → PeerStore
  unfolding retain_valid sort_entries
  prune now s = record s {
    entries = take s.max_entries (sort_entries (retain_valid (min_seen_at now) [] s.entries));
  }

  -- `saved` says whether the file could be written.
  unfoldable pub save : Bool → PeerStore → PeerStore
  save saved s = record s { disk = if saved then some s.entries else s.disk }

  -- `content` are the entries of the file, where it can be read and parsed.
  unfoldable pub load : ℕ → ℕ → Option (List PeerStoreEntry) → PeerStore
  unfolding prune
  load now max_entries content = prune now (record {
    max_entries = max_entries;
    entries = elim content [ none ↦ [] | some entries ↦ entries ];
    disk = content;
  })

  -- The first entry of the place is seen again, or the entry goes behind the others.
  unfoldable pub touch : PeerStoreEntry → List PeerStoreEntry → List PeerStoreEntry
  touch e [] = e ∷ []
  touch e (f ∷ entries) =
      let rest = touch e entries in
      if same_place f e then record f { last_seen = e.last_seen } ∷ entries else f ∷ rest

  -- The address that is left after cleaning is recorded.
  unfoldable pub record_clean : ℕ → Bool → PeerStore → PeerId → Option Multiaddr → PeerStore
  unfolding touch prune save
  record_clean now saved s peer none = s
  record_clean now saved s peer (some addr) =
      let e : PeerStoreEntry = record {
        peer_id = n.show_peer peer;
        address = n.show_address addr;
        last_seen = now;
      } in
      save saved (prune now (record s { entries = touch e s.entries }))

  unfoldable pub record_address : ℕ → Bool → PeerStore → PeerId → Multiaddr → PeerStore
  unfolding clean_peer_address record_clean
  record_address now saved s peer address =
      record_clean now saved s peer (clean_peer_address address)

  unfoldable pub remove_address : Bool → PeerStore → PeerId → Multiaddr → PeerStore
  unfolding normalize_address save
  remove_address saved s peer address =
      let addr = n.show_address (normalize_address address) in
      let kept =
        keep
          (λ (e : PeerStoreEntry).
            not (text_beq e.peer_id (n.show_peer peer) && text_beq e.address addr))
          s.entries in
      let t : PeerStore = record s { entries = kept } in
      if nat_beq (length kept) (length s.entries) then t else save saved t

  unfoldable pub shareable_addresses : List Text → Text → List Text
  unfolding clean_address
  shareable_addresses external_addresses peer_id = elim (n.parse_peer peer_id) [
    | none ↦ []
    | some peer ↦
        filter_map
          (λ text. elim (n.parse_address text) [
            | none ↦ none
            | some address ↦ elim (clean_address address) [
              | none ↦ none
              | some addr ↦ some (n.show_address (addr ++ p2p peer ∷ []))
            ]
          ])
          external_addresses
  ]

-- A call that changes the store, with the clock and the outcome of the write.
pub data StoreCall : Type 0 where
  recorded : ℕ → Bool → PeerId → Multiaddr → StoreCall
  removed : Bool → PeerId → Multiaddr → StoreCall

module _ (n : Network) where
  unfoldable pub call : PeerStore → StoreCall → PeerStore
  unfolding record_address remove_address
  call s (recorded now saved peer address) = record_address n now saved s peer address
  call s (removed saved peer address) = remove_address n saved s peer address

  unfoldable pub call_all : PeerStore → List StoreCall → PeerStore
  unfolding call
  call_all s [] = s
  call_all s (c ∷ calls) = call_all (call s c) calls
