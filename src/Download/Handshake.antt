-- ===== src/Download/Handshake.antt =====
-- src/daemon.rs: `handshake_with_providers`.
use guix_p2p.Prelude.{
  ℕ, ◌+◌, ◌-◌, min, Bool, true, false, not, ◌&&◌, Option, none, some, List, [], ◌∷◌, ◌++◌, ltb, leb,
  if◌then◌else◌, nat_eq, text_eq, length, take, is_empty, contains, Map, insert, remove, keys,
}
use guix_p2p.Crypto.{Bytes}
use guix_p2p.Swarm.Codec.{PeerId, BlockRequest, handshake}
use guix_p2p.Providers.{normalize_block_hashes}
use guix_p2p.Reputation.{ReputationTracker, record_failure}
use guix_p2p.Connection.{ConnectionManager, on_connected, record_attempt}

pub record PeerHandshake : Type 0 where
  pub peer : PeerId
  pub blocks_available : List ℕ
  pub block_hashes : List Bytes
  pub block_count : ℕ

-- A reply to a handshake, with its available blocks, block count and hashes; another notification; the
-- end of the channel; a second without a notification.
pub data HandshakeNotice : Type 0 where
  replied : PeerId → List ℕ → ℕ → List Bytes → HandshakeNotice
  unrelated : HandshakeNotice
  bus_closed : HandshakeNotice
  elapsed : HandshakeNotice

pub record HandshakeTurn : Type 0 where
  pub begins : ℕ
  pub received : ℕ
  pub notice : HandshakeNotice

-- The peers that have not answered, with the number of attempts and the instant of the last one.
pub record Handshakes : Type 0 where
  pub pending : Map PeerId (ℕ × ℕ)
  pub results : List PeerHandshake
  pub connections : ConnectionManager
  pub reputation : ReputationTracker
  pub requests : List (PeerId × BlockRequest)

module _ (hash : Bytes) where
  -- The loop over the providers that sends the first handshakes.
  unfoldable pub send_handshakes : ℕ → Handshakes → List PeerId → Handshakes
  unfolding record_attempt
  send_handshakes now h [] = h
  send_handshakes now h (peer ∷ peers) =
      send_handshakes now
        (record h {
          connections = record_attempt now h.connections peer;
          requests = h.requests ++ (peer, handshake hash) ∷ [];
          pending = insert h.pending peer (1, now);
        })
        peers

  abbrev pub retry_due : ℕ → ℕ × ℕ → Bool
  retry_due now (attempts, last_sent) = ltb attempts 3 && leb 3000 (now - last_sent)

  -- The loop over the waiting peers after a second without a notification.
  unfoldable pub retry_pending :
      ℕ → Map PeerId (ℕ × ℕ) → Map PeerId (ℕ × ℕ) × List (PeerId × BlockRequest)
  retry_pending now [] = ([], [])
  retry_pending now ((peer, tries) ∷ waiting) =
      let (waiting', sent) = retry_pending now waiting in
      if retry_due now tries
      then ((peer, (tries.0 + 1, now)) ∷ waiting', (peer, handshake hash) ∷ sent)
      else ((peer, tries) ∷ waiting', sent)

  -- A reply counts once, and of a peer that was asked alone.
  unfoldable pub take_reply : ℕ → Handshakes → PeerId → List ℕ → ℕ → List Bytes → Handshakes
  unfolding on_connected normalize_block_hashes
  take_reply now h peer blocks_available block_count block_hashes =
      if contains (keys h.pending) peer
      then record h {
        connections = on_connected now h.connections peer;
        results =
            h.results
            ++ record {
              peer = peer;
              blocks_available = blocks_available;
              block_hashes = normalize_block_hashes block_hashes;
              block_count = block_count;
            }
              ∷ [];
        pending = remove h.pending peer;
      }
      else h

  -- One notice: the state, and whether the loop goes on.
  unfoldable pub on_notice : ℕ → Handshakes → HandshakeNotice → Handshakes × Bool
  unfolding take_reply retry_pending
  on_notice now h (replied peer available count hashes) =
      (take_reply now h peer available count hashes, true)
  on_notice now h unrelated = (h, true)
  on_notice now h bus_closed = (h, false)
  on_notice now h elapsed =
      let (waiting, sent) = retry_pending now h.pending in
      (record h { pending = waiting; requests = h.requests ++ sent }, true)

  -- The condition of the loop, and its deadline.
  abbrev pub goes_on : ℕ → ℕ → Handshakes → ℕ → Bool
  goes_on max_results deadline h now =
      not (is_empty h.pending) && (ltb (length h.results) max_results && ltb now deadline)

  -- The loop over the turns; `none` where they end before it does.
  unfoldable pub collect_replies : ℕ → ℕ → Handshakes → List HandshakeTurn → Option Handshakes
  unfolding on_notice
  collect_replies max_results deadline h [] = none
  collect_replies max_results deadline h (t ∷ turns) =
      let (h', more) = on_notice t.received h t.notice in
      let rest = collect_replies max_results deadline h' turns in
      if goes_on max_results deadline h t.begins then if more then rest else some h' else some h

  -- `wall` is the clock of the reputations.
  unfoldable pub blame : ℕ → ReputationTracker → List PeerId → ReputationTracker
  unfolding record_failure
  blame wall tracker [] = tracker
  blame wall tracker (peer ∷ peers) = blame wall (record_failure wall tracker peer) peers

  unfoldable pub after_replies : ℕ → Option Handshakes → Option Handshakes
  unfolding blame
  after_replies wall none = none
  after_replies wall (some h) =
      some (record h { reputation = blame wall h.reputation (keys h.pending) })

  unfoldable pub begin_handshakes : ReputationTracker → ConnectionManager → Handshakes
  begin_handshakes reputation connections = record {
    pending = [];
    results = [];
    connections = connections;
    reputation = reputation;
    requests = [];
  }

  unfoldable pub handshake_with_providers :
      ℕ
      → ℕ
      → List PeerId
      → ℕ
      → ReputationTracker
      → ConnectionManager
      → List HandshakeTurn
      → Option Handshakes
  unfolding send_handshakes collect_replies after_replies begin_handshakes
  handshake_with_providers wall now providers max_peers reputation connections turns =
      let limit = min (length providers) max_peers in
      let start = begin_handshakes reputation connections in
      after_replies wall (
        collect_replies limit (now + 15000) (send_handshakes now start (take limit providers))
          turns)
