-- ===== src/Runtime/Events.antt =====
-- src/runtime.rs: what the loop does on one event of the swarm.
use guix_p2p.Prelude.{ℕ, Option, none, some, List, [], ◌∷◌, ◌++◌, nat_eq, text_eq, if◌then◌else◌}
use guix_p2p.Crypto.{Bytes, Text, Crypto}
use guix_p2p.Text.{chars}
use guix_p2p.Swarm.Codec.{PeerId, BlockRequest, BlockResponse, handshake, get_blocks}
use guix_p2p.Connection.{
  on_connected, on_connected_with_addresses, on_disconnected, on_active, add_address,
  remove_address,
}
use guix_p2p.Reputation.{record_success, record_failure}
use guix_p2p.NarStore.{Files, handle_request}
use guix_p2p.PeerStore.{Network, Multiaddr, is_peer_address, is_public_peer_address}
use guix_p2p.Dht.{KadEvent, handle_kad_event}
use guix_p2p.Runtime.{
  Moment, SwarmState, PendingBlockResponse, Report, block_response, block_request_failed,
  block_served, peer_connected, peer_disconnected, dial_started, dial_failed, inbound_started,
  inbound_failed, add_route, remove_route, say, ask, map_option, record_peer_address,
  forget_peer_address, announce_seeded_nars,
}

-- The addresses of `DialError` with the errors left out; `undialed` is any other case.
pub data DialError : Type 0 where
  local_peer_id : Multiaddr → DialError
  wrong_peer_id : Multiaddr → DialError
  transport : List Multiaddr → DialError
  undialed : DialError

unfoldable pub failed_dial_addresses : DialError → List Multiaddr
failed_dial_addresses (local_peer_id address) = address ∷ []
failed_dial_addresses (wrong_peer_id address) = address ∷ []
failed_dial_addresses (transport errors) = errors
failed_dial_addresses undialed = []

-- A request comes with its channel and the files of the moment. Texts are errors that libp2p shows.
pub data SwarmEvent : Type 0 where
  kad : KadEvent → SwarmEvent
  block_request : PeerId → ℕ → Files → BlockRequest → SwarmEvent
  block_answer : PeerId → BlockResponse → SwarmEvent
  outbound_failure : PeerId → SwarmEvent
  discovered : List (PeerId × Multiaddr) → SwarmEvent
  identified : PeerId → List Multiaddr → SwarmEvent
  established_as_dialer : PeerId → Multiaddr → SwarmEvent
  established : PeerId → SwarmEvent
  closed : PeerId → Option Text → SwarmEvent
  dialing : Option PeerId → SwarmEvent
  outgoing_error : Option PeerId → DialError → Text → SwarmEvent
  incoming : Multiaddr → SwarmEvent
  incoming_error : Option PeerId → Multiaddr → Text → SwarmEvent
  only_logged : SwarmEvent

unfoldable pub requested_hash : BlockRequest → Bytes
requested_hash (handshake nar_hash) = nar_hash
requested_hash (get_blocks nar_hash indices) = nar_hash

unfoldable pub requested_indices : BlockRequest → List ℕ
requested_indices (handshake nar_hash) = []
requested_indices (get_blocks nar_hash indices) = indices

-- The new response waits behind the others.
unfoldable pub queue_response : SwarmState → ℕ → Report → Option BlockResponse → SwarmState
queue_response s channel event none = s
queue_response s channel event (some response) =
    let p : PendingBlockResponse = record {
      channel = channel;
      response = response;
      event = some event;
    } in
    record s { pending = s.pending ++ p ∷ [] }

module _ (c : Crypto) (n : Network) (now : Moment) where
  -- `handle_block_exchange`: its three kinds of events.
  unfoldable pub serve_request : SwarmState → PeerId → ℕ → Files → BlockRequest → SwarmState
  unfolding queue_response handle_request requested_hash requested_indices
  serve_request s peer channel files request =
      queue_response s channel
        (block_served (c.hex (requested_hash request)) (n.show_peer peer)
          (requested_indices request))
        (handle_request c s.nars files request)

  unfoldable pub take_answer : SwarmState → PeerId → BlockResponse → SwarmState
  unfolding on_active record_success
  take_answer s peer response = record s {
    notices = s.notices ++ block_response peer response ∷ [];
    connections = on_active now.instant s.connections peer;
    reputation = record_success now.instant s.reputation peer 0;
  }

  unfoldable pub fail_request : SwarmState → PeerId → SwarmState
  unfolding record_failure
  fail_request s peer = record s {
    notices = s.notices ++ block_request_failed peer ∷ [];
    reputation = record_failure now.instant s.reputation peer;
  }

  unfoldable pub discover_one : SwarmState → PeerId → Multiaddr → SwarmState
  unfolding is_peer_address record_peer_address
  discover_one s peer address =
      if is_peer_address n address
      then ask (record_peer_address n now s peer address) (add_route peer address)
      else s

  unfoldable pub discover : SwarmState → List (PeerId × Multiaddr) → SwarmState
  unfolding discover_one
  discover s [] = s
  discover s ((peer, address) ∷ found) = discover (discover_one s peer address) found

  unfoldable pub identify_one : SwarmState → PeerId → Multiaddr → SwarmState
  unfolding add_address record_peer_address is_public_peer_address
  identify_one s peer address =
      let t : SwarmState = record s {
        connections = add_address now.instant s.connections peer (n.show_address address);
      } in
      if is_public_peer_address n address
      then ask (record_peer_address n now t peer address) (add_route peer address)
      else s

  unfoldable pub identify : SwarmState → PeerId → List Multiaddr → SwarmState
  unfolding identify_one
  identify s peer [] = s
  identify s peer (address ∷ listen_addrs) =
      identify (identify_one s peer address) peer listen_addrs

  unfoldable pub remove_one : SwarmState → PeerId → Multiaddr → SwarmState
  unfolding forget_peer_address remove_address
  remove_one s peer address =
      let t = forget_peer_address n now s peer address in
      let u : SwarmState = record t {
        connections = remove_address now.instant t.connections peer (n.show_address address);
      } in
      ask u (remove_route peer address)

  unfoldable pub remove_failed : SwarmState → PeerId → List Multiaddr → SwarmState
  unfolding remove_one
  remove_failed s peer [] = s
  remove_failed s peer (address ∷ failed) = remove_failed (remove_one s peer address) peer failed

  unfoldable pub remove_failed_dial_addresses : SwarmState → Option PeerId → DialError → SwarmState
  unfolding remove_failed failed_dial_addresses
  remove_failed_dial_addresses s none e = s
  remove_failed_dial_addresses s (some peer) e = remove_failed s peer (failed_dial_addresses e)

  unfoldable pub connect_as_dialer :
      (Bytes → Option Text) → SwarmState → PeerId → Multiaddr → SwarmState
  unfolding on_connected_with_addresses record_peer_address announce_seeded_nars
  connect_as_dialer refusal s peer address =
      let addresses = n.show_address address ∷ [] in
      let t : SwarmState = record s {
        connections = on_connected_with_addresses now.instant s.connections peer addresses;
      } in
      announce_seeded_nars c refusal
        (say (record_peer_address n now t peer address)
          (peer_connected (n.show_peer peer) addresses))
        (chars "peer-connected")

  unfoldable pub connect : (Bytes → Option Text) → SwarmState → PeerId → SwarmState
  unfolding on_connected announce_seeded_nars
  connect refusal s peer =
      let t : SwarmState = record s { connections = on_connected now.instant s.connections peer } in
      announce_seeded_nars c refusal (say t (peer_connected (n.show_peer peer) []))
        (chars "peer-connected")

  unfoldable pub on_event : (Bytes → Option Text) → SwarmState → SwarmEvent → SwarmState
  unfolding handle_kad_event serve_request take_answer fail_request discover identify
      connect_as_dialer connect on_disconnected remove_failed_dial_addresses
  on_event refusal s (kad e) = record s { dht = handle_kad_event c s.dht e }
  on_event refusal s (block_request peer channel files request) =
      serve_request s peer channel files request
  on_event refusal s (block_answer peer response) = take_answer s peer response
  on_event refusal s (outbound_failure peer) = fail_request s peer
  on_event refusal s (discovered found) = discover s found
  on_event refusal s (identified peer listen_addrs) = identify s peer listen_addrs
  on_event refusal s (established_as_dialer peer address) = connect_as_dialer refusal s peer address
  on_event refusal s (established peer) = connect refusal s peer
  on_event refusal s (closed peer cause) =
      let t : SwarmState = record s {
        connections = on_disconnected now.instant s.connections peer;
      } in
      say t (peer_disconnected (n.show_peer peer) cause)
  on_event refusal s (dialing peer) = say s (dial_started (map_option n.show_peer peer))
  on_event refusal s (outgoing_error peer e reason) =
      say (remove_failed_dial_addresses s peer e) (dial_failed (map_option n.show_peer peer) reason)
  on_event refusal s (incoming address) = say s (inbound_started (n.show_address address))
  on_event refusal s (incoming_error peer address reason) =
      say s (inbound_failed (map_option n.show_peer peer) (n.show_address address) reason)
  on_event refusal s only_logged = s
