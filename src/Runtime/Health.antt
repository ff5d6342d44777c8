-- ===== src/Runtime/Health.antt =====
-- src/daemon.rs: the monitor that keeps the served NARs announced. One tick of its loop is one call; the
-- cache is the one that it finds three seconds after its lookups.
use guix_p2p.Prelude.{ℕ, List, [], ◌∷◌, ◌++◌, map, ltb, length, if◌then◌else◌, max, nat_eq, text_eq}
use guix_p2p.Crypto.{Text}
use guix_p2p.Config.{Config}
use guix_p2p.NarStore.{NarStore, seeded_hashes}
use guix_p2p.Dht.{ProviderCache, get_providers}
use guix_p2p.Runtime.{SwarmCommand, find_providers, start_providing}

unfoldable pub health_interval_secs : Config → ℕ
health_interval_secs config = max config.health_check_interval_secs 30

-- The commands that were sent, and the events with the counts of providers.
pub record HealthCheck : Type 0 where
  pub commands : List SwarmCommand
  pub counts : List (Text × ℕ)

unfoldable pub check_hashes : Config → ProviderCache → HealthCheck → List Text → HealthCheck
unfolding get_providers
check_hashes config snapshot sent [] = sent
check_hashes config snapshot sent (hash ∷ hashes) =
    let provider_count = length (get_providers snapshot hash) in
    check_hashes config snapshot
      (record sent {
        commands =
            if ltb provider_count config.min_providers
            then sent.commands ++ start_providing hash ∷ []
            else sent.commands;
        counts = sent.counts ++ (hash, provider_count) ∷ [];
      })
      hashes

unfoldable pub monitor_tick : Config → NarStore → ProviderCache → HealthCheck
unfolding seeded_hashes check_hashes
monitor_tick config store snapshot =
    let hashes = seeded_hashes store in
    check_hashes config snapshot (record { commands = map find_providers hashes; counts = [] })
      hashes
