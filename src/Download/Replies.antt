-- ===== src/Download/Replies.antt =====
-- src/daemon.rs: whom `handshake_with_providers` returns, and that it returns.
use guix_p2p.Providers.{normalize_block_hashes}
use guix_p2p.Prelude.{
  length-take, take, min, ltb→lt, ltb, none, some, leb, if_both, any, Option, subst, ap,
  length-append, ℕ, suc, ◌+◌, ◌≤◌, ◌≡◌, refl, inl, inr, Bool, true, false, List, [], ◌∷◌, ◌++◌, map,
  arith, nat_beq, if◌then◌else◌, Bool-cases, if_either, nat_eq, text_eq, length, contains, Map,
  insert, remove, keys,
}
use guix_p2p.Crypto.{Bytes}
use guix_p2p.Swarm.Codec.{handshake, PeerId}
use guix_p2p.Reputation.{ReputationTracker}
use guix_p2p.Connection.{record_attempt, ConnectionManager}
use guix_p2p.Download.Handshake.{
  begin_handshakes, handshake_with_providers, after_replies, goes_on, collect_replies,
  HandshakeTurn, elapsed, bus_closed, unrelated, replied, HandshakeNotice, on_notice,
  send_handshakes, PeerHandshake, Handshakes, retry_pending, take_reply,
}

-- How often a peer stands in a list.
abbrev pub count : PeerId → List PeerId → ℕ
count p [] = 0
count p (q ∷ qs) = (if nat_beq q p then 1 else 0) + count p qs

abbrev pub one_if : Bool → ℕ
one_if true = 1
one_if false = 0

count-append : (p : PeerId) (xs ys : List PeerId) → count p (xs ++ ys) ≡ count p xs + count p ys
count-append p [] ys = omega arith
count-append p (x ∷ xs) ys = ground (arith, count-append p xs ys)

abbrev Waiting : Type 0
Waiting = Map PeerId (ℕ × ℕ)

count_of_missing : (p : PeerId) (xs : List PeerId) → contains xs p ≡ false → count p xs ≡ 0
count_of_missing p [] h = refl
count_of_missing p (x ∷ xs) h = ground (arith, count_of_missing p xs)

count-insert :
    (p : PeerId) (m : Waiting) (k : PeerId) (v : ℕ × ℕ)
    → count p (keys (insert m k v))
      ≡ count p (keys m) + (if contains (keys m) k then 0 else one_if (nat_beq k p))
count-insert p [] k v = ground arith
count-insert p ((j, w) ∷ m) k v = elim (Bool-cases (nat_beq j k)) [
  | inl e ↦ ground (arith, e)
  | inr e ↦ ground (arith, e, count-insert p m k v)
]

count-remove :
    (p : PeerId) (m : Waiting) (k : PeerId)
    → contains (keys m) k ≡ true
    → count p (keys m) ≡ count p (keys (remove m k)) + one_if (nat_beq k p)
count-remove p [] k h = ground arith
count-remove p ((j, w) ∷ m) k h = elim (Bool-cases (nat_beq j k)) [
  | inl e ↦ ground (arith, e)
  | inr e ↦ ground (arith, e, count-remove p m k)
]

length-insert : (m : Waiting) (k : PeerId) (v : ℕ × ℕ) → length (insert m k v) ≤ suc (length m)
length-insert [] k v = omega arith
length-insert ((j, w) ∷ m) k v = ground (arith, length-insert m k v)

length-remove :
    (m : Waiting) (k : PeerId) → contains (keys m) k ≡ true → length m ≡ suc (length (remove m k))
length-remove [] k h = ground arith
length-remove ((j, w) ∷ m) k h = ground (arith, length-remove m k)

abbrev pub handshake_peers : List PeerHandshake → List PeerId
handshake_peers handshakes = map (λ (r : PeerHandshake). r.peer) handshakes

count-snoc :
    (p : PeerId) (rs : List PeerHandshake) (r : PeerHandshake)
    → count p (handshake_peers (rs ++ r ∷ []))
      ≡ count p (handshake_peers rs) + one_if (nat_beq r.peer p)
count-snoc p [] r = ground arith
count-snoc p (x ∷ rs) r = ground (arith, count-snoc p rs r)

-- Each of the asked peers waits or has answered, once at most, and no other peer does; there are no
-- more of them than `limit`.
record Sound (asked : List PeerId) (limit : ℕ) (h : Handshakes) : Type 0 where
  once :
      (p : PeerId)
      → count p (handshake_peers h.results) + count p (keys h.pending) ≤ one_if (contains asked p)
  room : length h.results + length h.pending ≤ limit

module _ (hash : Bytes) where
  keys-retry_pending :
      (now : ℕ) (m : Waiting)
      → (keys (retry_pending hash now m).0 ≡ keys m)
        × (length (retry_pending hash now m).0 ≡ length m)
  unfolding retry_pending
  keys-retry_pending now [] = (refl, refl)
  keys-retry_pending now ((peer, tries) ∷ m) = ground (arith, keys-retry_pending now m)

  take_reply-Sound :
      (asked : List PeerId) (limit now : ℕ) (h : Handshakes) (peer : PeerId) (available : List ℕ)
      (n : ℕ) (hashes : List Bytes)
      → Sound asked limit h
      → Sound asked limit (take_reply hash now h peer available n hashes)
  unfolding take_reply
  take_reply-Sound asked limit now h peer available n hashes s =
      if_either (Sound asked limit) (contains (keys h.pending) peer)
        (λ known. record {
          once = λ p. omega (
            arith,
            s.once p,
            count-remove p h.pending peer known,
            count-snoc p h.results (record {
              peer = peer;
              blocks_available = available;
              block_hashes = normalize_block_hashes hashes;
              block_count = n;
            }),
          );
          room = omega (
            arith,
            s.room,
            length-remove h.pending peer known,
            length-append h.results (
                record {
                  peer = peer;
                  blocks_available = available;
                  block_hashes = normalize_block_hashes hashes;
                  block_count = n;
                }
                ∷ []),
          );
        })
        (λ unknown. s)

  on_notice-Sound :
      (asked : List PeerId) (limit now : ℕ) (h : Handshakes) (n : HandshakeNotice)
      → Sound asked limit h
      → Sound asked limit (on_notice hash now h n).0
  unfolding on_notice
  on_notice-Sound asked limit now h (replied peer available count hashes) s =
      take_reply-Sound asked limit now h peer available count hashes s
  on_notice-Sound asked limit now h unrelated s = s
  on_notice-Sound asked limit now h bus_closed s = s
  on_notice-Sound asked limit now h elapsed s =
      let (same, size) = keys-retry_pending now h.pending in
      record {
        once = λ p. omega (arith, s.once p, ap (count p) same);
        room = omega (arith, s.room, size);
      }

  -- One more peer of those to ask.
  once-insert :
      (asked : List PeerId) (m : Waiting) (peer : PeerId) (v : ℕ × ℕ)
      → contains asked peer ≡ true
      → ((p : PeerId) → count p (keys m) ≤ one_if (contains asked p))
      → (p : PeerId) → count p (keys (insert m peer v)) ≤ one_if (contains asked p)
  once-insert asked m peer v there once p = elim (Bool-cases (contains (keys m) peer)) [
    | inl e ↦ ground (arith, count-insert p m peer v, once p, e)
    | inr e ↦ elim (Bool-cases (nat_beq peer p)) [
      | inl same ↦
          let here : peer ≡ p = ground (arith, same) in
          let missing : count p (keys m) ≡ 0 =
            subst (λ q. count q (keys m) ≡ 0) here (count_of_missing peer (keys m) e) in
          let member : contains asked p ≡ true = subst (λ q. contains asked q ≡ true) here there in
          ground (arith, count-insert p m peer v, missing, member, e, same)
      | inr apart ↦ ground (arith, count-insert p m peer v, once p, e, apart)
    ]
  ]

  -- The peers that are left to be asked have room.
  send_handshakes-Sound :
      (asked : List PeerId) (limit now : ℕ) (peers : List PeerId) (h : Handshakes)
      → ((p : PeerId) → contains peers p ≡ true → contains asked p ≡ true)
      → h.results ≡ []
      → ((p : PeerId) → count p (keys h.pending) ≤ one_if (contains asked p))
      → length h.pending + length peers ≤ limit
      → Sound asked limit (send_handshakes hash now h peers)
  unfolding send_handshakes
  send_handshakes-Sound asked limit now [] h known none_yet once room = record {
    once = λ p. omega (arith, once p, ap (λ rs. count p (handshake_peers rs)) none_yet);
    room = omega (arith, room, ap {A = List PeerHandshake} length none_yet);
  }
  send_handshakes-Sound asked limit now (peer ∷ peers) h known none_yet once room =
      let there : contains asked peer ≡ true = known peer (ground arith) in
      send_handshakes-Sound asked limit now peers
        (record h {
          connections = record_attempt now h.connections peer;
          requests = h.requests ++ (peer, handshake hash) ∷ [];
          pending = insert h.pending peer (1, now);
        })
        (λ p here. known p (ground (arith, here))) none_yet
        (once-insert asked h.pending peer (1, now) there once)
        (omega (arith, room, length-insert h.pending peer (1, now)))

  goes_on_early :
      (limit deadline : ℕ) (h : Handshakes) (now : ℕ)
      → goes_on hash limit deadline h now ≡ true
      → leb deadline now ≡ false
  goes_on_early limit deadline h now on = elim (Bool-cases (ltb now deadline)) [
    | inl early ↦ ground (arith, ltb→lt now deadline early)
    | inr late ↦ absurd (ground (arith, on, late))
  ]

  -- What the loop leaves behind the turns, where it ends.
  abbrev Collected : List PeerId → ℕ → ℕ → List HandshakeTurn → Option Handshakes → Type 0
  Collected asked limit deadline turns none =
      any (λ (t : HandshakeTurn). leb deadline t.begins) turns ≡ false
  Collected asked limit deadline turns (some h) = Sound asked limit h

  Collected-cons :
      (asked : List PeerId) (limit deadline : ℕ) (t : HandshakeTurn) (turns : List HandshakeTurn)
      (o : Option Handshakes)
      → leb deadline t.begins ≡ false
      → Collected asked limit deadline turns o
      → Collected asked limit deadline (t ∷ turns) o
  Collected-cons asked limit deadline t turns none early h = rw early h
  Collected-cons asked limit deadline t turns (some s) early h = h

  collect_replies-Collected :
      (asked : List PeerId) (limit deadline : ℕ) (turns : List HandshakeTurn) (h : Handshakes)
      → Sound asked limit h
      → Collected asked limit deadline turns (collect_replies hash limit deadline h turns)
  unfolding collect_replies
  collect_replies-Collected asked limit deadline [] h s = refl
  collect_replies-Collected asked limit deadline (t ∷ turns) h s =
      let s' = on_notice-Sound asked limit t.received h t.notice s in
      let (h', more) = on_notice hash t.received h t.notice in
      if_either (Collected asked limit deadline (t ∷ turns))
        (goes_on hash limit deadline h t.begins)
        (λ on.
          if_both (Collected asked limit deadline (t ∷ turns)) more
            (Collected-cons asked limit deadline t turns
              (collect_replies hash limit deadline h' turns)
              (goes_on_early limit deadline h t.begins on)
              (collect_replies-Collected asked limit deadline turns h' s'))
            s')
        (λ off. s)

  -- The handshakes that are returned, or no end, where no turn begins at the deadline.
  abbrev pub Answered : List PeerId → ℕ → ℕ → List HandshakeTurn → Option Handshakes → Type 0
  Answered asked limit deadline turns none =
      any (λ (t : HandshakeTurn). leb deadline t.begins) turns ≡ false
  Answered asked limit deadline turns (some h) =
      ((p : PeerId) → count p (handshake_peers h.results) ≤ one_if (contains asked p))
      × (length h.results ≤ limit)

  after_replies-Answered :
      (wall : ℕ) (asked : List PeerId) (limit deadline : ℕ) (turns : List HandshakeTurn)
      (o : Option Handshakes)
      → Collected asked limit deadline turns o
      → Answered asked limit deadline turns (after_replies hash wall o)
  unfolding after_replies
  after_replies-Answered wall asked limit deadline turns none h = h
  after_replies-Answered wall asked limit deadline turns (some h) s =
      ((λ p. omega (arith, s.once p)), omega (arith, s.room))

  -- `handshake_with_providers` returns handshakes of peers among the first `max_peers` providers only,
  -- one of each at most, whatever replies arrive; it comes to its end with the first turn that begins
  -- fifteen seconds after its start or later.
  pub handshake_with_providers-Answered :
      (wall now : ℕ) (providers : List PeerId) (max_peers : ℕ) (reputation : ReputationTracker)
      (connections : ConnectionManager) (turns : List HandshakeTurn)
      → let limit = min (length providers) max_peers in
        Answered
          (take limit providers)
          limit
          (now + 15000)
          turns
          (handshake_with_providers hash wall now providers max_peers reputation connections turns)
  unfolding handshake_with_providers begin_handshakes
  handshake_with_providers-Answered wall now providers max_peers reputation connections turns =
      let limit = min (length providers) max_peers in
      let asked = take limit providers in
      let start = begin_handshakes hash reputation connections in
      let h = send_handshakes hash now start asked in
      let s =
        send_handshakes-Sound asked limit now asked start (λ p there. there) refl (λ p. omega arith)
          (omega (arith, length-take limit providers)) in
      after_replies-Answered wall asked limit (now + 15000) turns
        (collect_replies hash limit (now + 15000) h turns)
        (collect_replies-Collected asked limit (now + 15000) turns h s)
