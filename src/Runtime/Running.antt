-- ===== src/Runtime/Running.antt =====
-- src/runtime.rs: every run of the loop keeps the peer store pruned and the providers in agreement.
use guix_p2p.Prelude.{
  pick, ℕ, ◌≤◌, ◌≡◌, refl, Option, none, some, List, [], ◌∷◌, panics, returns, nat_eq, text_eq, All,
  if_both, ap, ◌∙◌,
}
use guix_p2p.Crypto.{Bytes, Text, Crypto}
use guix_p2p.Text.{chars}
use guix_p2p.Swarm.Codec.{PeerId, BlockResponse}
use guix_p2p.Connection.{add_address, on_connected_with_addresses}
use guix_p2p.NarStore.{seeded_hashes, handle_request}
use guix_p2p.PeerStore.{Network, Multiaddr, min_seen_at, is_peer_address, is_public_peer_address}
use guix_p2p.Dht.{handle_step, kad_event}
use guix_p2p.Dht.Agreement.{handle_step-Agrees, fill_cache-Agrees}
use guix_p2p.Runtime.{
  Moment, SwarmState, PendingBlockResponse, Report, find_providers, send_block_request,
  start_providing, send_response, ask, announce_seeded_nars,
}
use guix_p2p.Runtime.Events.{
  SwarmEvent, DialError, on_event, queue_response, serve_request, discover_one, discover,
  identify_one, identify, remove_one, remove_failed, remove_failed_dial_addresses,
  failed_dial_addresses, connect_as_dialer, connect, kad, block_request, block_answer,
  outbound_failure, discovered, identified, established_as_dialer, established, closed, dialing,
  outgoing_error, incoming, incoming_error, only_logged,
}
use guix_p2p.Runtime.Turns.{
  Turn, prune_tick, swarm_event, command, response_ready, query, cache_filled, tell, send_ready,
  handle_swarm_command, take_turn, run_swarm_task,
}
use guix_p2p.Runtime.Consistent.{
  Consistent, IsExpected, same-Consistent, announce_nar-Consistent, announce_all-Consistent,
  look_up-Consistent, record_peer_address-Consistent, forget_peer_address-Consistent,
}

module _ (c : Crypto) (n : Network) where
  queue_response-Consistent :
      {since : ℕ} (s : SwarmState) (channel : ℕ) (event : Report) (o : Option BlockResponse)
      → Consistent c n since s
      → Consistent c n since (queue_response s channel event o)
  unfolding queue_response
  queue_response-Consistent s channel event none h = h
  queue_response-Consistent s channel event (some response) h = same-Consistent c n h refl refl

  discover-Consistent :
      {since : ℕ} (now : Moment) (s : SwarmState) (found : List (PeerId × Multiaddr))
      → since ≤ min_seen_at n now.unix
      → Consistent c n since s
      → Consistent c n since (discover c n now s found)
  unfolding discover discover_one
  discover-Consistent now s [] late h = h
  discover-Consistent {since} now s ((peer, address) ∷ found) late h =
      discover-Consistent now (discover_one c n now s peer address) found late (
        if_both (Consistent c n since) (is_peer_address n address)
          (same-Consistent c n (record_peer_address-Consistent c n now s peer address late h) refl
            refl)
          h)

  abbrev heard : Moment → SwarmState → PeerId → Multiaddr → SwarmState
  heard now s peer address = record s {
    connections = add_address now.instant s.connections peer (n.show_address address);
  }

  abbrev dialled : Moment → SwarmState → PeerId → Multiaddr → SwarmState
  dialled now s peer address = record s {
    connections =
        on_connected_with_addresses now.instant s.connections peer (n.show_address address ∷ []);
  }

  identify-Consistent :
      {since : ℕ} (now : Moment) (s : SwarmState) (peer : PeerId) (listen_addrs : List Multiaddr)
      → since ≤ min_seen_at n now.unix
      → Consistent c n since s
      → Consistent c n since (identify c n now s peer listen_addrs)
  unfolding identify identify_one
  identify-Consistent now s peer [] late h = h
  identify-Consistent {since} now s peer (address ∷ listen_addrs) late h =
      identify-Consistent now (identify_one c n now s peer address) peer listen_addrs late (
        if_both (Consistent c n since) (is_public_peer_address n address)
          (same-Consistent c n
            (record_peer_address-Consistent c n now (heard now s peer address) peer address late
              (same-Consistent c n h refl refl))
            refl refl)
          h)

  remove_failed-Consistent :
      {since : ℕ} (now : Moment) (s : SwarmState) (peer : PeerId) (failed : List Multiaddr)
      → Consistent c n since s
      → Consistent c n since (remove_failed c n now s peer failed)
  unfolding remove_failed remove_one
  remove_failed-Consistent now s peer [] h = h
  remove_failed-Consistent now s peer (address ∷ failed) h =
      remove_failed-Consistent now (remove_one c n now s peer address) peer failed
        (same-Consistent c n (forget_peer_address-Consistent c n now s peer address h) refl refl)

  remove_failed_dial_addresses-Consistent :
      {since : ℕ} (now : Moment) (s : SwarmState) (peer : Option PeerId) (e : DialError)
      → Consistent c n since s
      → Consistent c n since (remove_failed_dial_addresses c n now s peer e)
  unfolding remove_failed_dial_addresses
  remove_failed_dial_addresses-Consistent now s none e h = h
  remove_failed_dial_addresses-Consistent now s (some peer) e h =
      remove_failed-Consistent now s peer (failed_dial_addresses e) h

  on_event-Consistent :
      {since : ℕ} (refusal : Bytes → Option Text) (now : Moment) (s : SwarmState) (e : SwarmEvent)
      → since ≤ min_seen_at n now.unix
      → Consistent c n since s
      → Consistent c n since (on_event c n now refusal s e)
  unfolding on_event handle_step serve_request connect_as_dialer connect announce_seeded_nars
  on_event-Consistent refusal now s (kad e) late h = record {
    providers = handle_step-Agrees c s.dht (kad_event e) h.providers;
    peers = h.peers;
  }
  on_event-Consistent refusal now s (block_request peer channel files request) late h =
      queue_response-Consistent s channel _ (handle_request c s.nars files request) h
  on_event-Consistent refusal now s (block_answer peer response) late h =
      same-Consistent c n h refl refl
  on_event-Consistent refusal now s (outbound_failure peer) late h = same-Consistent c n h refl refl
  on_event-Consistent refusal now s (discovered found) late h =
      discover-Consistent now s found late h
  on_event-Consistent refusal now s (identified peer listen_addrs) late h =
      identify-Consistent now s peer listen_addrs late h
  on_event-Consistent refusal now s (established_as_dialer peer address) late h =
      announce_all-Consistent c n refusal _ (seeded_hashes s.nars) (chars "peer-connected") (
        same-Consistent c n
          (record_peer_address-Consistent c n now (dialled now s peer address) peer address late
            (same-Consistent c n h refl refl))
          refl refl)
  on_event-Consistent refusal now s (established peer) late h =
      announce_all-Consistent c n refusal _ (seeded_hashes s.nars) (chars "peer-connected")
        (same-Consistent c n h refl refl)
  on_event-Consistent refusal now s (closed peer cause) late h = same-Consistent c n h refl refl
  on_event-Consistent refusal now s (dialing peer) late h = same-Consistent c n h refl refl
  on_event-Consistent refusal now s (outgoing_error peer e reason) late h =
      same-Consistent c n (remove_failed_dial_addresses-Consistent now s peer e h) refl refl
  on_event-Consistent refusal now s (incoming address) late h = same-Consistent c n h refl refl
  on_event-Consistent refusal now s (incoming_error peer address reason) late h =
      same-Consistent c n h refl refl
  on_event-Consistent refusal now s only_logged late h = h

  tell-Consistent :
      {since : ℕ} (s : SwarmState) (o : Option Report)
      → Consistent c n since s
      → Consistent c n since (tell s o)
  tell-Consistent s none h = h
  tell-Consistent s (some event) h = same-Consistent c n h refl refl

  send_ready-Consistent :
      {since : ℕ} (s : SwarmState) (o : Option (PendingBlockResponse × List PendingBlockResponse))
      → Consistent c n since s
      → Consistent c n since (send_ready s o)
  unfolding send_ready
  send_ready-Consistent s none h = h
  send_ready-Consistent s (some (p, rest)) h =
      let t : SwarmState = record s { pending = rest } in
      tell-Consistent (ask t (send_response p.channel p.response)) p.event
        (same-Consistent c n h refl refl)

  take_turn-Consistent :
      {since : ℕ} (refusal : Bytes → Option Text) (s : SwarmState) (now : Moment) (turn : Turn)
      → IsExpected c n since (now, turn)
      → Consistent c n since s
      → (t : SwarmState) × ((take_turn c n refusal s now turn ≡ returns t) × Consistent c n since t)
  unfolding take_turn handle_swarm_command
  take_turn-Consistent refusal s now prune_tick expected h =
      (_, (refl, same-Consistent c n h refl refl))
  take_turn-Consistent refusal s now (swarm_event e) expected h =
      (_, (refl, on_event-Consistent refusal now s e expected.0 h))
  take_turn-Consistent refusal s now (command (find_providers hash) query_id) expected h =
      look_up-Consistent c n s hash query_id expected.1 h
  take_turn-Consistent refusal s now (command (send_block_request peer request) query_id) expected
        h =
      (_, (refl, same-Consistent c n h refl refl))
  take_turn-Consistent refusal s now (command (start_providing hash) query_id) expected h =
      (_, (refl, announce_nar-Consistent c n refusal s hash (chars "post-download") h))
  take_turn-Consistent refusal s now (response_ready i) expected h =
      (_, (refl, send_ready-Consistent s (pick i s.pending) h))
  take_turn-Consistent refusal s now (query hash query_id) expected h =
      look_up-Consistent c n s hash query_id expected.1 h
  take_turn-Consistent refusal s now (cache_filled i) expected h =
      (_, (refl, record { providers = fill_cache-Agrees s.dht i h.providers; peers = h.peers }))

  -- The loop of the swarm, and the tasks that fill the cache of providers between its turns, take any
  -- turns without a panic, and after them the peer store, if there is one, is pruned; and the cache and
  -- the tasks that have yet to fill it have, for every key, exactly the peers that the notifications have
  -- named for it, the cache each of them once. The conditions: this was so before, the clock is never
  -- before its value at the loading of the store, and the hash of every lookup can be read as a key.
  pub run_swarm_task-Consistent :
      {since : ℕ} (refusal : Bytes → Option Text) (turns : List (Moment × Turn)) (s : SwarmState)
      → All (IsExpected c n since) turns
      → Consistent c n since s
      → (t : SwarmState) × ((run_swarm_task c n refusal s turns ≡ returns t)
          × Consistent c n since t)
  unfolding run_swarm_task
  run_swarm_task-Consistent refusal [] s expected h = (s, (refl, h))
  run_swarm_task-Consistent refusal ((now, turn) ∷ turns) s (first, expected) h =
      let (t, (taken, kept)) = take_turn-Consistent refusal s now turn first h in
      let (u, (ran, end)) = run_swarm_task-Consistent refusal turns t expected kept in
      (
        u,
        (
          ap (λ o. elim o [ panics ↦ panics | returns v ↦ run_swarm_task c n refusal v turns ])
                taken
              ∙ ran,
          end,
        ),
      )
