-- ===== src/Runtime/Turns.antt =====
-- src/runtime.rs: the commands, the turns of the loop, and their sequence.
use guix_p2p.Prelude.{
  pick, ℕ, ◌*◌, Option, none, some, List, [], ◌∷◌, Outcome, panics, returns, nat_eq, text_eq,
}
use guix_p2p.Crypto.{Bytes, Text, Crypto}
use guix_p2p.Text.{chars}
use guix_p2p.Connection.{prune_dead}
use guix_p2p.Reputation.{prune_stale}
use guix_p2p.PeerStore.{Network}
use guix_p2p.Dht.{fill_cache}
use guix_p2p.Runtime.{
  Moment, SwarmState, SwarmCommand, PendingBlockResponse, Report, find_providers,
  send_block_request, start_providing, send_request, send_response, say, ask, announce_nar, look_up,
}
use guix_p2p.Runtime.Events.{SwarmEvent, on_event}

-- One branch of `select!`, or `cache_filled`, where a task that `handle_kad_event` has spawned gets the
-- lock of the cache and fills it. A query or a lookup comes with the number that libp2p gives it; a response
-- is ready when its task has waited for the bandwidth, which tasks do side by side.
pub data Turn : Type 0 where
  prune_tick : Turn
  swarm_event : SwarmEvent → Turn
  command : SwarmCommand → ℕ → Turn
  response_ready : ℕ → Turn
  query : Text → ℕ → Turn
  cache_filled : ℕ → Turn

abbrev pub tell : SwarmState → Option Report → SwarmState
tell s none = s
tell s (some event) = say s event

unfoldable pub send_ready :
    SwarmState → Option (PendingBlockResponse × List PendingBlockResponse) → SwarmState
send_ready s none = s
send_ready s (some (p, rest)) =
    let t : SwarmState = record s { pending = rest } in
    tell (ask t (send_response p.channel p.response)) p.event

module _ (c : Crypto) where
  unfoldable pub handle_swarm_command :
      (Bytes → Option Text) → SwarmState → SwarmCommand → ℕ → Outcome SwarmState
  unfolding look_up announce_nar
  handle_swarm_command refusal s (find_providers hash) query_id = look_up c s hash query_id
  handle_swarm_command refusal s (send_block_request peer request) query_id =
      returns (ask s (send_request peer request))
  handle_swarm_command refusal s (start_providing hash) query_id =
      returns (announce_nar c refusal s hash (chars "post-download"))

  unfoldable pub prune_all : Moment → SwarmState → SwarmState
  unfolding prune_dead prune_stale
  prune_all now s = record s {
    connections = (prune_dead now.instant s.connections).0;
    reputation = prune_stale now.instant s.reputation (30 * 24 * 3600 * 1000);
  }

  unfoldable pub take_turn :
      Network → (Bytes → Option Text) → SwarmState → Moment → Turn → Outcome SwarmState
  unfolding prune_all on_event handle_swarm_command send_ready look_up fill_cache
  take_turn n refusal s now prune_tick = returns (prune_all now s)
  take_turn n refusal s now (swarm_event e) = returns (on_event c n now refusal s e)
  take_turn n refusal s now (command cmd query_id) = handle_swarm_command refusal s cmd query_id
  take_turn n refusal s now (response_ready i) = returns (send_ready s (pick i s.pending))
  take_turn n refusal s now (query hash query_id) = look_up c s hash query_id
  take_turn n refusal s now (cache_filled i) = returns (record s { dht = fill_cache s.dht i })

  -- A panic ends the task.
  unfoldable pub run_swarm_task :
      Network → (Bytes → Option Text) → SwarmState → List (Moment × Turn) → Outcome SwarmState
  unfolding take_turn
  run_swarm_task n refusal s [] = returns s
  run_swarm_task n refusal s ((now, turn) ∷ turns) = elim (take_turn n refusal s now turn) [
    | panics ↦ panics
    | returns t ↦ run_swarm_task n refusal t turns
  ]
