-- ===== src/Tests/Peers.antt =====
-- src/reputation.rs and src/daemon.rs: a tracker of peers, and the selection of providers.
use guix_p2p.Prelude.{
  ℕ, ◌≤◌, ◌<◌, ◌≡◌, refl, ◌≢◌, true, false, not, ◌&&◌, ◌||◌, none, some, List, [], ◌∷◌, ltb, leb,
  nat_eq, text_eq, length, any, contains,
}
use guix_p2p.Text.{chars}
use guix_p2p.Swarm.Codec.{PeerId}
use guix_p2p.Reputation.{ReputationTracker, Scoring, is_banned}
use guix_p2p.Connection.{ConnectionManager, can_connect}
use guix_p2p.Providers.{
  merge_provider_lists, select_provider_candidates, Notice, wait_for_providers_for_duration,
  providers_found, nothing_new,
}
use guix_p2p.Providers.Lists.{AllDistinct, merge_provider_lists-union}
use guix_p2p.Providers.Selection.{select_provider_candidates_sound}
use guix_p2p.Providers.Waiting.{names, wait_for_providers_for_duration_sound}

-- Scores by the number of completed transfers.
abbrev pub scoring : Scoring
scoring = record {
  Score = ℕ;
  score = λ now card. card.completed;
  neutral = 1;
  before = λ a b. ltb b a;
}

-- Peer 2 is banned, peer 3 is in its backoff.
abbrev pub tracker : ReputationTracker
tracker = record {
  peers =
      (1, record { completed = 0; failed = 1; bytes_served = 0; last_seen = 0 })
      ∷ (2, record { completed = 9; failed = 5; bytes_served = 0; last_seen = 0 })
      ∷ (4, record { completed = 7; failed = 0; bytes_served = 0; last_seen = 0 })
      ∷ [];
  ban_threshold = 5;
}

abbrev pub connections : ConnectionManager
connections = record {
  config = record {
    connect_timeout = 10000;
    max_retries = 3;
    backoff_base = 1000;
    health_check_interval = 60000;
    max_peers = 50;
  };
  peers =
      (
        3,
        record {
          retry_count = 3;
          last_attempt = 100;
          last_active = 100;
          connected = false;
          addresses = [];
        },
      )
      ∷ [];
}

chosen :
    select_provider_candidates scoring 200 (1 ∷ 2 ∷ 3 ∷ 4 ∷ []) tracker connections 5 ≡ 4 ∷ 1 ∷ []
unfolding select_provider_candidates can_connect
chosen = refl

select_provider_candidates_sound_example :
    (length (select_provider_candidates scoring 200 (1 ∷ 2 ∷ 3 ∷ 4 ∷ []) tracker connections 5) ≤ 5)
    × ((p : PeerId)
        → contains
            (select_provider_candidates scoring 200 (1 ∷ 2 ∷ 3 ∷ 4 ∷ []) tracker connections 5)
            p
          ≡ true
        → (contains (1 ∷ 2 ∷ 3 ∷ 4 ∷ []) p
            && (not (is_banned tracker p) && can_connect 200 connections p))
          ≡ true)
    × ((p : PeerId)
        → length (select_provider_candidates scoring 200 (1 ∷ 2 ∷ 3 ∷ 4 ∷ []) tracker connections 5)
          < 5
        → (contains (1 ∷ 2 ∷ 3 ∷ 4 ∷ []) p
            && (not (is_banned tracker p) && can_connect 200 connections p))
          ≡ true
        → contains
            (select_provider_candidates scoring 200 (1 ∷ 2 ∷ 3 ∷ 4 ∷ []) tracker connections 5)
            p
          ≡ true)
select_provider_candidates_sound_example =
    select_provider_candidates_sound scoring 200 (1 ∷ 2 ∷ 3 ∷ 4 ∷ []) tracker connections 5

merge_provider_lists-union_example :
    AllDistinct (merge_provider_lists (1 ∷ 2 ∷ []) (2 ∷ 3 ∷ []))
    × ((p : PeerId)
        → contains (merge_provider_lists (1 ∷ 2 ∷ []) (2 ∷ 3 ∷ [])) p
          ≡ (contains (1 ∷ 2 ∷ []) p || contains (2 ∷ 3 ∷ []) p))
merge_provider_lists-union_example = merge_provider_lists-union (1 ∷ 2 ∷ []) (2 ∷ 3 ∷ [])

abbrev turns : List (ℕ × ℕ × Notice)
turns =
    (0, 5, providers_found (chars "k") (1 ∷ 1 ∷ 2 ∷ []))
    ∷ (5, 9, providers_found (chars "j") (7 ∷ []))
    ∷ (9, 1009, nothing_new)
    ∷ (3005, 3005, nothing_new)
    ∷ (9000, 9000, nothing_new)
    ∷ []

waited : wait_for_providers_for_duration 0 8000 (chars "k") turns ≡ some (1 ∷ 2 ∷ [])
unfolding wait_for_providers_for_duration
waited = refl

wait_for_providers_for_duration_sound_example :
    (any (λ (turn : ℕ × ℕ × Notice). leb 8000 turn.0) turns ≡ true
      → wait_for_providers_for_duration 0 8000 (chars "k") turns ≢ none)
    × ((result : List PeerId)
        → wait_for_providers_for_duration 0 8000 (chars "k") turns ≡ some result
        → AllDistinct result
          × ((p : PeerId) → contains result p ≡ true → any (names (chars "k") p) turns ≡ true))
wait_for_providers_for_duration_sound_example =
    wait_for_providers_for_duration_sound 0 8000 (chars "k") turns
