-- ===== src/Tests/Swarms.antt =====
-- src/runtime.rs: a lookup, the providers that are found, a peer on the local network, and a request.
use guix_p2p.Prelude.{◌≡◌, refl, true, none, some, List, [], ◌∷◌, arith, nat_eq, text_eq, returns}
use guix_p2p.Text.{chars}
use guix_p2p.Swarm.Codec.{get_blocks}
use guix_p2p.NarStore.{downloaded, NarEntry}
use guix_p2p.PeerStore.{call_all, other, load, min_seen_at}
use guix_p2p.PeerStore.Pruned.{load-IsPruned}
use guix_p2p.Dht.{extract_hash_bytes, found_providers}
use guix_p2p.Runtime.{Moment, SwarmState, find_providers}
use guix_p2p.Runtime.Events.{kad, discovered, block_request}
use guix_p2p.Runtime.Turns.{
  Turn, prune_tick, cache_filled, swarm_event, command, response_ready, run_swarm_task,
}
use guix_p2p.Runtime.Consistent.{Consistent, Readable}
use guix_p2p.Runtime.Running.{run_swarm_task-Consistent}
use guix_p2p.Tests.Sample.{padding, nar, layout}
use guix_p2p.Tests.Nodes.{network, content, idle, idle-Agrees}
use guix_p2p.Tests.Peers.{tracker}

abbrev served : NarEntry
served = record {
  path = chars "f";
  nar_size = 5;
  block_info = layout;
  store_path = none;
  source = downloaded;
  created_at = 0;
}

abbrev node : SwarmState
node = record {
  dht = idle;
  connections = record {
    config = record {
      connect_timeout = 10;
      max_retries = 3;
      backoff_base = 2;
      health_check_interval = 30;
      max_peers = 9;
    };
    peers = [];
  };
  reputation = tracker;
  nars = record {
    cache_dir = chars "d";
    block_size = 2;
    index = (padding.hex (3 ∷ []), served) ∷ [];
  };
  peer_store = some (load network 9000000 2 (some content));
  pending = [];
  notices = [];
  reports = [];
  actions = [];
}

abbrev later : Moment
later = record { instant = 700; unix = 9000100; saved = true }

abbrev turns : List (Moment × Turn)
turns =
    (later, command (find_providers (chars "ab")) 2)
    ∷ (
      later,
      swarm_event
          (kad (record { id = 2; result = found_providers (9 ∷ []) (4 ∷ []); last = true })),
    )
    ∷ (later, swarm_event (discovered ((8, other (chars "c") ∷ []) ∷ [])))
    ∷ (
      later,
      swarm_event (block_request 8 1 ((chars "f", nar) ∷ []) (get_blocks (3 ∷ []) (1 ∷ []))),
    )
    ∷ (later, response_ready 0)
    ∷ (later, cache_filled 0)
    ∷ (later, prune_tick)
    ∷ []

readable : Readable padding network (chars "ab")
unfolding extract_hash_bytes
readable = (_, refl)

node-Consistent : Consistent padding network (min_seen_at network 9000000) node
unfolding load call_all
node-Consistent = record {
  providers = idle-Agrees;
  peers = load-IsPruned network 9000000 2 (some content) [] tt;
}

run_swarm_task-Consistent_example :
    (t : SwarmState) × ((run_swarm_task padding network (λ key. none) node turns ≡ returns t)
      × Consistent padding network (min_seen_at network 9000000) t)
run_swarm_task-Consistent_example =
    run_swarm_task-Consistent padding network (λ key. none) turns node
      (
        (omega arith, readable),
        (
          (omega arith, tt),
          (
            (omega arith, tt),
            ((omega arith, tt), ((omega arith, tt), ((omega arith, tt), ((omega arith, tt), tt)))),
          ),
        ),
      )
      node-Consistent
