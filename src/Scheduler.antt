-- ===== src/Scheduler.antt =====
-- src/daemon.rs: the scheduler that decides which peer serves which block of a download. Instants
-- and durations are numbers of one unit; the clock is read by the caller. A `HashMap` is the list of
-- its entries in iteration order.
pub mod Dispatch
pub mod Requests
use guix_p2p.Prelude.{
  ℕ, suc, ◌+◌, ◌-◌, ◌*◌, ◌/◌, ◌%◌, ◌^◌, Bool, true, false, ◌&&◌, ◌||◌, Option, none, some, List, [],
  ◌∷◌, ◌++◌, map, ltb, leb, if◌then◌else◌, ◌==◌, nat_eq, text_eq, length, get_elem?, set, sum,
  contains, insert_set, remove_set, Map, modify, keys,
}
use guix_p2p.Crypto.{Bytes, Crypto}
use guix_p2p.Swarm.Codec.{PeerId, BlockData, BlockRequest, get_blocks}
use guix_p2p.Swarm.Block.{u32_mod}
use guix_p2p.Swarm.Downloader.{ActiveDownload, record_blocks}

abbrev pub u64_mod : ℕ
u64_mod = 2 ^ 64

pub data BlockFetchState : Type 0 where
  pending : BlockFetchState
  in_flight : PeerId → ℕ → BlockFetchState
  complete : BlockFetchState

pub record PeerFetchState : Type 0 where
  pub available : List ℕ
  pub in_flight : List ℕ
  pub failures : ℕ
  pub bytes_received : ℕ

abbrev pub PeerStates : Type 0
PeerStates = Map PeerId PeerFetchState

unfoldable pub decode_block_data : List BlockData → List (ℕ × Bytes)
decode_block_data blks = map (λ bd. (bd.index, bd.bytes)) blks

abbrev pub remove_all : List ℕ → List (ℕ × Bytes) → List ℕ
remove_all s [] = s
remove_all s ((idx, _) ∷ blocks) = remove_all (remove_set s idx) blocks

unfoldable pub update_peer_after_block_response :
    PeerStates → PeerId → List (ℕ × Bytes) → PeerStates
update_peer_after_block_response peers peer blocks = modify peers peer (λ s. record s {
  bytes_received = (s.bytes_received + sum (map (λ p. length p.1) blocks)) % u64_mod;
  in_flight = remove_all s.in_flight blocks;
})

unfoldable pub mark_accepted_blocks : List BlockFetchState → List ℕ → List BlockFetchState
mark_accepted_blocks states [] = states
mark_accepted_blocks states (idx ∷ accepted) =
    mark_accepted_blocks
      (elim (get_elem? states idx) [
        | none ↦ states
        | some complete ↦ states
        | some other ↦ set states idx complete
      ])
      accepted

abbrev pub is_in_flight_by : PeerId → BlockFetchState → Bool
is_in_flight_by peer (in_flight p at) = p == peer
is_in_flight_by peer pending = false
is_in_flight_by peer complete = false

unfoldable pub requeue_rejected_blocks :
    List BlockFetchState → PeerId → List (ℕ × Bytes) → List ℕ → List BlockFetchState
requeue_rejected_blocks states peer [] accepted = states
requeue_rejected_blocks states peer ((idx, _) ∷ blocks) accepted =
    requeue_rejected_blocks
      (if contains accepted idx then states else elim (get_elem? states idx) [
        | none ↦ states
        | some state ↦ if is_in_flight_by peer state then set states idx pending else states
      ])
      peer blocks accepted

-- The peer loses the request and has one failure more.
abbrev pub expire : ℕ → PeerFetchState → PeerFetchState
expire idx s = record s {
  in_flight = remove_set s.in_flight (idx % u32_mod);
  failures = (s.failures + 1) % u32_mod;
}

-- The peer whose request of this block has waited for `timeout`.
abbrev pub expired_peer : ℕ → ℕ → BlockFetchState → Option PeerId
expired_peer now timeout (in_flight peer at) = if leb timeout (now - at) then some peer else none
expired_peer now timeout pending = none
expired_peer now timeout complete = none

-- The loop of `requeue_expired_blocks` from index `idx` on, with the number of requeued blocks.
unfoldable pub requeue_expired_from :
    ℕ → ℕ → ℕ → PeerStates → List BlockFetchState → PeerStates × List BlockFetchState × ℕ
requeue_expired_from now timeout idx peers [] = (peers, [], 0)
requeue_expired_from now timeout idx peers (state ∷ states) =
    elim (expired_peer now timeout state) [
      | none ↦
          let (peers', states', n) = requeue_expired_from now timeout (suc idx) peers states in
          (peers', state ∷ states', n)
      | some peer ↦
          let (peers', states', n) =
            requeue_expired_from now timeout (suc idx) (modify peers peer (expire idx)) states in
          (peers', pending ∷ states', n + 1)
    ]

unfoldable pub requeue_expired_blocks :
    ℕ → ℕ → PeerStates → List BlockFetchState → PeerStates × List BlockFetchState × ℕ
unfolding requeue_expired_from
requeue_expired_blocks now timeout peers states = requeue_expired_from now timeout 0 peers states

unfoldable pub requeue_peer_from :
    PeerId → ℕ → PeerStates → List BlockFetchState → PeerStates × List BlockFetchState × ℕ
requeue_peer_from peer idx peers [] = (peers, [], 0)
requeue_peer_from peer idx peers (state ∷ states) = elim (is_in_flight_by peer state) [
  | false ↦
      let (peers', states', n) = requeue_peer_from peer (suc idx) peers states in
      (peers', state ∷ states', n)
  | true ↦
      let forget : PeerFetchState → PeerFetchState =
        λ s. record s { in_flight = remove_set s.in_flight (idx % u32_mod) } in
      let (peers', states', n) =
        requeue_peer_from peer (suc idx) (modify peers peer forget) states in
      (peers', pending ∷ states', n + 1)
]

unfoldable pub requeue_in_flight_blocks_for_peer :
    PeerStates → List BlockFetchState → PeerId → PeerStates × List BlockFetchState × ℕ
unfolding requeue_peer_from
requeue_in_flight_blocks_for_peer peers states peer =
    let (peers', states', requeued) = requeue_peer_from peer 0 peers states in
    let blame : PeerFetchState → PeerFetchState =
      λ s. record s { failures = (s.failures + 1) % u32_mod } in
    ((if ltb 0 requeued then modify peers' peer blame else peers'), states', requeued)

-- The filter of `dispatch_block_requests`, the order of its keys, and `min_by_key`, which keeps the
-- first of the smallest.
abbrev pub can_serve : ℕ → ℕ → PeerFetchState → Bool
can_serve max_in_flight idx s =
    ltb (length s.in_flight) max_in_flight && contains s.available (idx % u32_mod)

abbrev pub key_lt : PeerFetchState → PeerFetchState → Bool
key_lt a b =
    ltb (length a.in_flight) (length b.in_flight)
    || (length a.in_flight == length b.in_flight) && ltb a.failures b.failures

abbrev pub better :
    ℕ
    → ℕ
    → Option (PeerId × PeerFetchState)
    → PeerId
    → PeerFetchState
    → Option (PeerId × PeerFetchState)
better max_in_flight idx best p s =
    if can_serve max_in_flight idx s
    then elim best [
      | none ↦ some (p, s)
      | some (q, t) ↦ if key_lt s t then some (p, s) else some (q, t)
    ]
    else best

abbrev pub pick_from :
    ℕ → ℕ → Option (PeerId × PeerFetchState) → PeerStates → Option (PeerId × PeerFetchState)
pick_from max_in_flight idx best [] = best
pick_from max_in_flight idx best ((p, s) ∷ peers) =
    pick_from max_in_flight idx (better max_in_flight idx best p s) peers

unfoldable pub pick_peer : ℕ → ℕ → PeerStates → Option PeerId
pick_peer max_in_flight idx peers = elim (pick_from max_in_flight idx none peers) [
  | none ↦ none
  | some (p, _) ↦ some p
]

-- `batches.entry(peer).or_default().push(idx)`
abbrev pub push_batch : Map PeerId (List ℕ) → PeerId → ℕ → Map PeerId (List ℕ)
push_batch [] peer idx = (peer, idx ∷ []) ∷ []
push_batch ((p, idxs) ∷ batches) peer idx =
    if p == peer then (p, idxs ++ idx ∷ []) ∷ batches else (p, idxs) ∷ push_batch batches peer idx

abbrev pub assign : ℕ → PeerFetchState → PeerFetchState
assign idx s = record s { in_flight = insert_set s.in_flight (idx % u32_mod) }

-- The loop of `dispatch_block_requests` from index `idx` on.
unfoldable pub dispatch_from :
    ℕ
    → ℕ
    → ℕ
    → PeerStates
    → Map PeerId (List ℕ)
    → List BlockFetchState
    → PeerStates × Map PeerId (List ℕ) × List BlockFetchState
unfolding pick_peer
dispatch_from now max_in_flight idx peers batches [] = (peers, batches, [])
dispatch_from now max_in_flight idx peers batches (pending ∷ states) =
    elim (pick_peer max_in_flight idx peers) [
      | none ↦
          let (peers', batches', states') =
            dispatch_from now max_in_flight (suc idx) peers batches states in
          (peers', batches', pending ∷ states')
      | some peer ↦
          let (peers', batches', states') =
            dispatch_from now max_in_flight (suc idx) (modify peers peer (assign idx))
              (push_batch batches peer (idx % u32_mod)) states in
          (peers', batches', in_flight peer now ∷ states')
    ]
dispatch_from now max_in_flight idx peers batches (state ∷ states) =
    let (peers', batches', states') =
      dispatch_from now max_in_flight (suc idx) peers batches states in
    (peers', batches', state ∷ states')

-- The new states, and the requests that are sent; `hash` is `nar_hash_bytes(nar_hash)`.
unfoldable pub dispatch_block_requests :
    ℕ
    → PeerStates
    → List BlockFetchState
    → Bytes
    → ℕ
    → PeerStates × List BlockFetchState × List (PeerId × BlockRequest)
unfolding dispatch_from
dispatch_block_requests now peers states hash max_in_flight =
    let (peers', batches, states') = dispatch_from now max_in_flight 0 peers [] states in
    (peers', states', map (λ b. (b.0, get_blocks hash b.1)) batches)

-- The states after `record_blocks`, whose panic is `none`, and the number of accepted blocks.
unfoldable pub after_record :
    PeerStates
    → List BlockFetchState
    → PeerId
    → List (ℕ × Bytes)
    → Option (ActiveDownload × List ℕ)
    → Option (ActiveDownload × PeerStates × List BlockFetchState × ℕ)
unfolding update_peer_after_block_response mark_accepted_blocks requeue_rejected_blocks
after_record peers states peer blocks none = none
after_record peers states peer blocks (some (download', accepted)) = some (
  download',
  update_peer_after_block_response peers peer blocks,
  requeue_rejected_blocks (mark_accepted_blocks states accepted) peer blocks accepted,
  length accepted,
)

unfoldable pub record_block_response :
    Crypto
    → ActiveDownload
    → PeerStates
    → List BlockFetchState
    → PeerId
    → List BlockData
    → Option (ActiveDownload × PeerStates × List BlockFetchState × ℕ)
unfolding decode_block_data after_record
record_block_response c download peers states peer blks =
    let blocks = decode_block_data blks in
    after_record peers states peer blocks (record_blocks c download peer blocks)
