-- ===== src/Providers.antt =====
-- src/daemon.rs: the peers that a download may ask: lists of providers, their selection, the wait for
-- the DHT's answers, and the hashes that a handshake brings. Parsing a multiaddress is a parameter.
pub mod Lists
pub mod Selection
pub mod Waiting
use guix_p2p.Prelude.{
  ℕ, ◌+◌, ◌-◌, ◌*◌, ◌/◌, min, max, not, ◌&&◌, Option, none, some, List, [], ◌∷◌, ◌++◌, map, leb,
  nat_beq, if◌then◌else◌, ◌==◌, nat_eq, text_eq, length, take, replicate, is_empty, keep, any,
  filter_map, contains, insert,
}
use guix_p2p.Crypto.{Bytes, Text, Crypto}
use guix_p2p.Config.{Config}
use guix_p2p.Swarm.Codec.{PeerId, handshake}
use guix_p2p.Swarm.Block.{usize_mod}
use guix_p2p.Reputation.{ReputationTracker, Scoring, best_peers}
use guix_p2p.Connection.{ConnectionManager, can_connect, connected_peers}

-- `filter(|peer| seen.insert(*peer))`, with what has been seen.
unfoldable pub distinct : List PeerId → List PeerId → List PeerId
distinct seen [] = []
distinct seen (peer ∷ peers) =
    let rest = distinct (peer ∷ seen) peers in
    let skip = distinct seen peers in if contains seen peer then skip else peer ∷ rest

unfoldable pub merge_provider_lists : List PeerId → List PeerId → List PeerId
unfolding distinct
merge_provider_lists left right = distinct [] (left ++ right)

unfoldable pub exclude_peers : List PeerId → List PeerId → List PeerId
exclude_peers peers exclude = keep (λ peer. not (contains exclude peer)) peers

-- `peer_of` is the peer id that ends a multiaddress.
unfoldable pub bootstrap_peer_ids : (Text → Option PeerId) → List Text → List PeerId
unfolding distinct
bootstrap_peer_ids peer_of addrs = distinct [] (filter_map peer_of addrs)

unfoldable pub fallback_peer_candidates :
    (Text → Option PeerId)
    → (List PeerId → List PeerId)
    → Config
    → ConnectionManager
    → List PeerId
    → List PeerId
unfolding merge_provider_lists bootstrap_peer_ids connected_peers
fallback_peer_candidates peer_of sort config m exclude =
    keep (λ peer. not (contains exclude peer))
      (merge_provider_lists (connected_peers sort m)
        (bootstrap_peer_ids peer_of config.bootstrap_peers))

pub record ProviderCandidateSelection : Type 0 where
  pub peers : List PeerId
  pub skipped_by_backoff : ℕ

-- The loop over the ranked peers.
unfoldable pub select_from :
    ℕ → ConnectionManager → ℕ → List PeerId → List PeerId → ℕ → ProviderCandidateSelection
select_from now m max_peers [] selected skipped = record {
  peers = selected;
  skipped_by_backoff = skipped;
}
select_from now m max_peers (peer ∷ ranked) selected skipped =
    let choose = select_from now m max_peers ranked (selected ++ peer ∷ []) skipped in
    let skip = select_from now m max_peers ranked selected (skipped + 1) in
    if leb max_peers (length selected)
    then record { peers = selected; skipped_by_backoff = skipped }
    else if can_connect now m peer
    then choose
    else skip

unfoldable pub select_provider_candidates_with_report :
    Scoring
    → ℕ
    → List PeerId
    → ReputationTracker
    → ConnectionManager
    → ℕ
    → ProviderCandidateSelection
unfolding select_from best_peers
select_provider_candidates_with_report f now providers tracker m max_peers =
    select_from now m max_peers (best_peers f now tracker providers (length providers)) [] 0

unfoldable pub select_provider_candidates :
    Scoring → ℕ → List PeerId → ReputationTracker → ConnectionManager → ℕ → List PeerId
unfolding select_provider_candidates_with_report
select_provider_candidates f now providers tracker m max_peers =
    (select_provider_candidates_with_report f now providers tracker m max_peers).peers

-- What one turn of `wait_for_providers_for_duration` receives: another notification, a lag of the
-- receiver and a second without a notification are all `nothing_new`.
pub data Notice : Type 0 where
  providers_found : Text → List PeerId → Notice
  closed : Notice
  nothing_new : Notice

pub record Wait : Type 0 where
  pub collect_until : ℕ
  pub providers : List PeerId

abbrev pub fresh_peers : List PeerId → List PeerId → List PeerId
fresh_peers seen peers = distinct seen peers

-- `ProvidersFound` for the key: the new peers, and the grace of three seconds that the first of them
-- start. What has been seen is what has been collected.
unfoldable pub collect : ℕ → ℕ → Wait → List PeerId → Wait
unfolding distinct
collect now deadline wait peers =
    let added = fresh_peers wait.providers peers in
    record {
      collect_until =
          if not (is_empty added) && nat_beq wait.collect_until deadline
          then min (now + 3000) deadline
          else wait.collect_until;
      providers = wait.providers ++ added;
    }

-- The loop over the notices, in milliseconds, each with the instant at which the turn begins and that at which it is
-- received; `none` when the notices end before the deadline.
unfoldable pub wait_loop : Text → ℕ → Wait → List (ℕ × ℕ × Notice) → Option (List PeerId)
unfolding collect
wait_loop dht_key deadline wait [] = none
wait_loop dht_key deadline wait ((begins, now, providers_found hash peers) ∷ rest) =
    let next = wait_loop dht_key deadline (collect now deadline wait peers) rest in
    let same = wait_loop dht_key deadline wait rest in
    if leb wait.collect_until begins
    then some wait.providers
    else if hash == dht_key
    then next
    else same
wait_loop dht_key deadline wait ((begins, now, closed) ∷ rest) =
    if leb wait.collect_until begins then some wait.providers else some []
wait_loop dht_key deadline wait ((begins, now, nothing_new) ∷ rest) =
    let same = wait_loop dht_key deadline wait rest in
    if leb wait.collect_until begins then some wait.providers else same

unfoldable pub wait_for_providers_for_duration :
    ℕ → ℕ → Text → List (ℕ × ℕ × Notice) → Option (List PeerId)
unfolding wait_loop
wait_for_providers_for_duration now timeout dht_key notices =
    wait_loop dht_key (now + timeout) (record { collect_until = now + timeout; providers = [] })
      notices

unfoldable pub wait_for_providers :
    Config → List PeerId → ℕ → ℕ → Text → List (ℕ × ℕ × Notice) → Option (List PeerId)
unfolding wait_for_providers_for_duration
wait_for_providers config cached now timeout dht_key notices =
    if leb config.min_providers (length cached)
    then some cached
    else wait_for_providers_for_duration now timeout dht_key notices

-- A hash of any length as an array of 32 bytes.
unfoldable pub block_hash_array : Bytes → Bytes
block_hash_array hash = take 32 hash ++ replicate (32 - length hash) 0

unfoldable pub normalize_block_hashes : List Bytes → List Bytes
unfolding block_hash_array
normalize_block_hashes block_hashes = map block_hash_array block_hashes

abbrev pub min_p2p_download_bytes_per_sec : ℕ
min_p2p_download_bytes_per_sec = 1024 * 1024

-- Additions saturate at the largest `u64`.
abbrev pub saturating_add : ℕ → ℕ → ℕ
saturating_add a b = min (a + b) (usize_mod - 1)

unfoldable pub block_download_overall_timeout_secs : ℕ → ℕ → ℕ → ℕ
block_download_overall_timeout_secs request_timeout_secs stall_timeout_secs nar_size =
    if nat_beq nar_size 0
    then request_timeout_secs
    else max request_timeout_secs (
        saturating_add stall_timeout_secs (
          saturating_add nar_size (min_p2p_download_bytes_per_sec - 1)
          / min_p2p_download_bytes_per_sec))
