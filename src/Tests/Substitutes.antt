-- ===== src/Tests/Substitutes.antt =====
-- src/daemon.rs: substitutions of one store path, and their answers.
use guix_p2p.Prelude.{
  length, All, ◌⊎◌, ◌++◌, panics, returns, inr, arith, List, Outcome, ◌≡◌, refl, true, none, some,
  [], ◌∷◌, nat_eq, text_eq, replicate,
}
use guix_p2p.Crypto.{Bytes}
use guix_p2p.Text.{chars}
use guix_p2p.NarHash.{sha256_bytes}
use guix_p2p.Config.{p2p_first, all_sources, Config}
use guix_p2p.Swarm.Block.{from_file_size}
use guix_p2p.StorePath.{hash_part}
use guix_p2p.Narinfo.{NarinfoCache, Narinfo}
use guix_p2p.NarStore.{MetadataFormat, written}
use guix_p2p.NarStore.Soundness.{IsSound}
use guix_p2p.Substitute.{
  success, not_found, answer, Effect, Answer, try_swarm_substitute, World, State, find_narinfo,
}
use guix_p2p.Substitute.Authentic.{IsAuthentic, Finds, substitute-IsAuthentic}
use guix_p2p.Substitute.Answers.{answers, substitute-answers}
use guix_p2p.Substitute.Seeding.{substitute-IsSound}
use guix_p2p.Substitute.Success.{Obtains, Delivers, substitute-success}
use guix_p2p.Tests.Sample.{padding, nar}

-- The swarm has nothing, and a server has the NAR.
abbrev config : Config
config = record {
  bootstrap_peers = [];
  substitute_urls = chars "https://s" ∷ [];
  substitute_policy = p2p_first;
  request_timeout_secs = 10;
  max_peers_per_download = 4;
  min_providers = 1;
  auto_seed_downloads = all_sources;
  local_narinfo_path = none;
  block_size = 2;
  stall_timeout_secs = 5;
  max_in_flight_blocks_per_peer = 2;
  health_check_interval_secs = 60;
}

abbrev world : World
world = record {
  now = 100;
  fetch_narinfo = λ part. none;
  p2p = λ timeout. none;
  http = some (nar, chars "https://s/nar");
  http_progress = [];
  first_url = none;
  writer_present = true;
  flushes = true;
  streams = true;
  temporary_written = true;
  restores = true;
  failure = [];
  nar_outcome = written;
  meta_outcome = written;
}

abbrev info : Narinfo
info = record {
  store_path = chars "/gnu/store/abc-x";
  nar_hash = chars "sha256:000000000000000000000000000000000000000000000l2060h1";
  nar_size = 5;
  references = [];
  deriver = none;
  urls = [];
  signed_portion = [];
  signature = none;
}

abbrev narinfos : NarinfoCache
narinfos = record { entries = (chars "abc", (200, info)) ∷ []; ttl = 100 }

abbrev digest_of_nar : Bytes
digest_of_nar = 1 ∷ 2 ∷ 3 ∷ 4 ∷ 5 ∷ replicate 27 0

abbrev start : State
start = record {
  builds = [];
  store = record { cache_dir = chars "nar"; block_size = 2; index = [] };
  files = [];
  log = [];
}

abbrev format : MetadataFormat
format = record { encode = λ m. []; decode = λ b. none }

found : Finds padding config world narinfos (chars "/gnu/store/abc-x") digest_of_nar
unfolding hash_part find_narinfo sha256_bytes
found = record { part = chars "abc"; info = info; parsed = refl; found = refl; decoded = refl }

abbrev state_of : Outcome State → State
state_of panics = start
state_of (returns t) = t

abbrev finished : State
finished = state_of (
    try_swarm_substitute padding format config world narinfos true (chars "/gnu/store/abc-x")
      (chars "/d") start)

ran :
    try_swarm_substitute padding format config world narinfos true
      (chars "/gnu/store/abc-x")
      (chars "/d")
      start
    ≡ returns finished
unfolding try_swarm_substitute from_file_size
ran = refl

substitute-IsAuthentic_example :
    (finished.log ≡ answer not_found ∷ [])
    ⊎ ((h : Bytes) × Finds padding config world narinfos (chars "/gnu/store/abc-x") h
        × All (IsAuthentic padding h) finished.log)
substitute-IsAuthentic_example =
    substitute-IsAuthentic padding format config world narinfos true (chars "/gnu/store/abc-x")
      (chars "/d") start finished refl ran

substitute-answers_example : (a : Answer) × (answers finished.log ≡ a ∷ [])
substitute-answers_example =
    substitute-answers padding format config world narinfos true (chars "/gnu/store/abc-x")
      (chars "/d") start finished refl (inr (refl, refl)) ran

empty-IsSound : IsSound padding start.store start.files
empty-IsSound = record {
  located = λ key entry e. absurd (ground arith);
  content = λ key entry bytes e h. absurd (ground arith);
}

substitute-IsSound_example : IsSound padding finished.store finished.files
substitute-IsSound_example =
    substitute-IsSound padding format config world narinfos true (chars "/gnu/store/abc-x")
      (chars "/d") start finished empty-IsSound ran

obtains : Obtains p2p_first config world info nar
unfolding Obtains
obtains = inr (refl, (chars "https://s/nar", refl))

delivers : Delivers true world
unfolding Delivers
delivers = (refl, refl, refl)

substitute-success_example :
    (t : State) × (log : List Effect) × (try_swarm_substitute padding format config world narinfos
        true
        (chars "/gnu/store/abc-x")
        (chars "/d")
        start
      ≡ returns t)
    × (t.log ≡ log ++ answer (success (padding.hex digest_of_nar) (length nar)) ∷ [])
unfolding found
substitute-success_example =
    substitute-success padding format config world narinfos true (chars "/gnu/store/abc-x")
      (chars "/d") start digest_of_nar nar (omega arith) found obtains refl delivers
