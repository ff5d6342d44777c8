-- ===== src/Tests/Fetches.antt =====
-- src/daemon.rs: a download from one peer, whose blocks arrive in one message.
use guix_p2p.Prelude.{◌≡◌, refl, none, List, [], ◌∷◌, nat_eq, text_eq}
use guix_p2p.Text.{chars}
use guix_p2p.Config.{Config, p2p_only, off}
use guix_p2p.Connection.{can_connect}
use guix_p2p.Swarm.Downloader.{record_blocks}
use guix_p2p.Download.Handshake.{
  PeerHandshake, HandshakeTurn, handshake_with_providers, replied, elapsed,
}
use guix_p2p.Download.Replies.{Answered, handshake_with_providers-Answered}
use guix_p2p.Download.Blocks.{BlockTurn, blocks_from, nothing_new}
use guix_p2p.Download.Peers.{P2pWorld, P2pRequest, P2pRun, dht_source, try_p2p_download, got}
use guix_p2p.Download.Authentic.{Authentic, try_p2p_download-Authentic}
use guix_p2p.Tests.Sample.{padding, nar, digest}
use guix_p2p.Tests.Downloads.{hashed}
use guix_p2p.Tests.Peers.{scoring, tracker, connections}

abbrev config : Config
config = record {
  bootstrap_peers = [];
  substitute_urls = [];
  substitute_policy = p2p_only;
  request_timeout_secs = 10;
  max_peers_per_download = 4;
  min_providers = 1;
  auto_seed_downloads = off;
  local_narinfo_path = none;
  block_size = 2;
  stall_timeout_secs = 5;
  max_in_flight_blocks_per_peer = 4;
  health_check_interval_secs = 60;
}

-- A reply of a stranger, a silent second, the reply, the same reply again.
abbrev replies : List HandshakeTurn
replies =
    record { begins = 0; received = 10; notice = replied 9 (0 ∷ []) 3 [] }
    ∷ record { begins = 10; received = 4010; notice = elapsed }
    ∷ record {
      begins = 4010;
      received = 4020;
      notice = replied 4 (0 ∷ 1 ∷ 2 ∷ []) 3 hashed.block_hashes;
    }
    ∷ record { begins = 4020; received = 4030; notice = replied 4 [] 0 [] }
    ∷ []

abbrev arrived : List BlockTurn
arrived =
    record {
      begins = 5000;
      received = 5010;
      notice = blocks_from 4 (
          record { index = 0; bytes = 1 ∷ 2 ∷ [] }
          ∷ record { index = 1; bytes = 3 ∷ 4 ∷ [] }
          ∷ record { index = 2; bytes = 5 ∷ [] }
          ∷ []);
    }
    ∷ record { begins = 90000; received = 90001; notice = nothing_new }
    ∷ []

abbrev world : P2pWorld
world = record {
  cached = 4 ∷ [];
  lookup_start = 0;
  lookup_notices = [];
  refresh_start = 0;
  refresh_notices = [];
  handshake_start = 0;
  handshake_turns = replies;
  fallback_start = 0;
  fallback_turns = [];
  download_start = 4500;
  download_turns = arrived;
  wall = 0;
}

abbrev wanted : P2pRequest
wanted = record {
  hash = digest nar;
  nar_hash = padding.hex (digest nar);
  store_path = chars "/gnu/store/abc-x";
  nar_size = 5;
  hash_part = chars "abc";
  provider_timeout = 10000;
}

abbrev run : P2pRun
run = try_p2p_download padding scoring (λ t. none) (λ l. l) config world wanted tracker connections

gets_the_nar : run.result ≡ got nar dht_source
unfolding try_p2p_download can_connect record_blocks
gets_the_nar = refl

try_p2p_download-Authentic_example :
    Authentic padding scoring (λ t. none) (λ l. l) config world wanted run.result
try_p2p_download-Authentic_example =
    try_p2p_download-Authentic padding scoring (λ t. none) (λ l. l) config world wanted tracker
      connections

handshake_with_providers-Answered_example :
    Answered
      (digest nar)
      (4 ∷ 2 ∷ [])
      2
      15000
      replies
      (handshake_with_providers (digest nar) 0 0 (4 ∷ 2 ∷ 1 ∷ []) 2 tracker connections replies)
handshake_with_providers-Answered_example =
    handshake_with_providers-Answered (digest nar) 0 0 (4 ∷ 2 ∷ 1 ∷ []) 2 tracker connections
      replies

abbrev peer : PeerHandshake
peer = record {
  peer = 4;
  blocks_available = 0 ∷ 1 ∷ 2 ∷ [];
  block_hashes = hashed.block_hashes;
  block_count = 3;
}
