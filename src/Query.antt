-- ===== src/Query.antt =====
-- src/daemon.rs: the handlers of the commands `have` and `info`. Each path comes with what the world
-- answers while it is handled. Log messages are left out.
pub mod Claims
pub mod Have
pub mod Info
pub mod Session
pub mod Answers
use guix_p2p.Prelude.{
  ℕ, ◌+◌, ◌-◌, ◌*◌, ◌/◌, min, Bool, false, Option, none, some, List, [], ◌∷◌, ◌++◌, map, leb,
  if◌then◌else◌, nat_eq, text_eq, Outcome, panics, returns, length,
}
use guix_p2p.Crypto.{Bytes, Text, Crypto}
use guix_p2p.Text.{decimal, lines}
use guix_p2p.Config.{SubstitutePolicy, Config, p2p_only, p2p_first, http_first}
use guix_p2p.StorePath.{hash_part, from_narinfo_path}
use guix_p2p.NarHash.{sha256_bytes}
use guix_p2p.Narinfo.{NarUrl, Narinfo, NarinfoCache, get}
use guix_p2p.Narinfo.Verify.{Keys}
use guix_p2p.Protocol.{ReplyWriter, write_line, write_end}
use guix_p2p.Swarm.Codec.{PeerId}
use guix_p2p.Providers.{Notice, wait_for_providers_for_duration}
use guix_p2p.Http.Fetch.{Page, FetchResult, fetch_narinfo, found, fetch_failed}

-- The clock, the servers, the file of the ACL, the notices of the wait (which begins at `now`), and
-- `dht::has_providers`.
pub record Moment : Type 0 where
  pub now : ℕ
  pub request : Text → Page
  pub acl : Keys
  pub wait_start : ℕ
  pub notices : List (ℕ × ℕ × Notice)
  pub has_providers : Text → Bool

-- `DashboardEvent::CatalogEntry`
pub record CatalogEntry : Type 0 where
  pub hash_part : Text
  pub store_path : Option Text
  pub nar_size : Option ℕ
  pub nar_hash : Option Text
  pub p2p_available : Bool

pub record QueryState : Type 0 where
  pub cache : NarinfoCache
  pub reply : ReplyWriter
  pub queries : List Text
  pub events : List CatalogEntry

-- A handler returns, panics, or still waits where the notices end.
pub data Handled : Type 0 where
  handled : QueryState → Handled
  broken : Handled
  pending : Handled

abbrev request_path : Text × Moment → Text
request_path p = p.0

unfoldable pub write_reply : QueryState → Text → QueryState
unfolding write_line
write_reply s line = record s { reply = write_line s.reply line }

unfoldable pub write_lines : ReplyWriter → List Text → ReplyWriter
unfolding write_line
write_lines w [] = w
write_lines w (l ∷ ls) = write_lines (write_line w l) ls

unfoldable pub end_of : Handled → Handled
unfolding write_end
end_of (handled s) = handled (record s { reply = write_end s.reply })
end_of broken = broken
end_of pending = pending

-- The lines of one answer to `info`.
unfoldable pub info_lines : Narinfo → List Text
unfolding from_narinfo_path decimal
info_lines info =
    let deriver : Text = elim info.deriver [ none ↦ [] | some d ↦ from_narinfo_path d ] in
    let download_size : ℕ = elim info.urls [ [] ↦ 0 | u ∷ _ ↦ u.file_size ] in
    info.store_path
    ∷ deriver
    ∷ decimal (length info.references)
    ∷ (map from_narinfo_path info.references ++ decimal download_size ∷ decimal info.nar_size ∷ [])

-- `event_tx` is there.
module _ (crypto : Crypto) (is_signed : Narinfo → List Bytes → Bool) (config : Config)
    (event_tx : Bool) where
  unfoldable pub publish : QueryState → CatalogEntry → QueryState
  publish s e = record s { events = if event_tx then s.events ++ e ∷ [] else s.events }

  abbrev fetch_for : Moment → QueryState → Text → NarinfoCache × FetchResult
  fetch_for m s part =
      fetch_narinfo m.request is_signed m.now s.cache config.substitute_urls m.acl part

  -- The event of a claim, whose NAR hash may be unreadable.
  unfoldable pub announce : Moment → QueryState → Text → Narinfo → Outcome (Option Bytes) → Handled
  unfolding publish
  announce m s part info panics = broken
  announce m s part info (returns bytes) =
      let nar_hash : Option Text = elim bytes [ none ↦ none | some b ↦ some (crypto.hex b) ] in
      let provider_key : Text = elim nar_hash [ none ↦ part | some key ↦ key ] in
      handled (
        publish s (record {
          hash_part = part;
          store_path = some info.store_path;
          nar_size = some info.nar_size;
          nar_hash = nar_hash;
          p2p_available = m.has_providers provider_key;
        }))

  -- The claim of a path under a policy that can fall back.
  unfoldable pub claim : Text → Text → Moment → QueryState → FetchResult → Handled
  unfolding write_reply announce sha256_bytes
  claim path part m s (fetch_failed e) = handled s
  claim path part m s (found info) =
      if event_tx
      then announce m (write_reply s path) part info (sha256_bytes crypto info.nar_hash)
      else handled (write_reply s path)

  unfoldable pub have_fallback :
      Text → Text → Moment → QueryState → Option Narinfo → Option Text → Handled
  unfolding claim fetch_narinfo
  have_fallback path part m s (some info) local = claim path part m s (found info)
  have_fallback path part m s none (some _) = handled s
  have_fallback path part m s none none =
      let (cache', r) = fetch_for m s part in claim path part m (record s { cache = cache' }) r

  -- The providers that the wait has found.
  unfoldable pub claim_p2p :
      Text → Text → QueryState → Narinfo → Text → Option (List PeerId) → Handled
  unfolding write_line publish
  claim_p2p path part s info dht_key none = pending
  claim_p2p path part s info dht_key (some providers) =
      let p2p_available = leb config.min_providers (length providers) in
      let reply = if p2p_available then write_line s.reply path else s.reply in
      handled (
        publish (record s { reply = reply })
          (record {
            hash_part = part;
            store_path = some info.store_path;
            nar_size = some info.nar_size;
            nar_hash = some dht_key;
            p2p_available = p2p_available;
          }))

  unfoldable pub query_providers :
      Text → Text → Moment → QueryState → Narinfo → Outcome (Option Bytes) → Handled
  unfolding claim_p2p wait_for_providers_for_duration
  query_providers path part m s info panics = broken
  query_providers path part m s info (returns none) = handled s
  query_providers path part m s info (returns (some bytes)) =
      let dht_key = crypto.hex bytes in
      let timeout = 1000 * min config.request_timeout_secs 5 in
      claim_p2p path part (record s { queries = s.queries ++ dht_key ∷ [] }) info dht_key
        (wait_for_providers_for_duration m.wait_start timeout dht_key m.notices)

  unfoldable pub have_p2p : Text → Text → Moment → QueryState → FetchResult → Handled
  unfolding query_providers sha256_bytes
  have_p2p path part m s (fetch_failed e) = handled s
  have_p2p path part m s (found info) =
      query_providers path part m s info (sha256_bytes crypto info.nar_hash)

  unfoldable pub have_by : SubstitutePolicy → Text → Text → Moment → QueryState → Handled
  unfolding have_fallback have_p2p get fetch_narinfo
  have_by p2p_only path part m s =
      let (cache', r) = fetch_for m s part in have_p2p path part m (record s { cache = cache' }) r
  have_by p2p_first path part m s =
      have_fallback path part m s (get m.now s.cache part) config.local_narinfo_path
  have_by http_first path part m s =
      have_fallback path part m s (get m.now s.cache part) config.local_narinfo_path

  unfoldable pub have_path : Text → Option Text → Moment → QueryState → Handled
  unfolding have_by
  have_path path none m s = handled s
  have_path path (some part) m s = have_by config.substitute_policy path part m s

  unfoldable pub have_all : Handled → List (Text × Moment) → Handled
  unfolding have_path hash_part
  have_all (handled s) [] = handled s
  have_all (handled s) ((path, m) ∷ rest) = have_all (have_path path (hash_part path) m s) rest
  have_all broken rest = broken
  have_all pending rest = pending

  unfoldable pub handle_have : QueryState → List (Text × Moment) → Handled
  unfolding have_all end_of
  handle_have s paths = end_of (have_all (handled s) paths)

  -- The answer to `info` for one path.
  unfoldable pub answer_info : Text → QueryState → Narinfo → Outcome (Option Bytes) → Handled
  unfolding publish write_lines info_lines
  answer_info part s info panics = broken
  answer_info part s info (returns none) = handled s
  answer_info part s info (returns (some bytes)) =
      let told = publish s (record {
        hash_part = part;
        store_path = some info.store_path;
        nar_size = some info.nar_size;
        nar_hash = some (crypto.hex bytes);
        p2p_available = false;
      }) in
      handled (record told { reply = write_lines told.reply (info_lines info) })

  unfoldable pub info_found : Text → QueryState → FetchResult → Handled
  unfolding answer_info sha256_bytes
  info_found part s (fetch_failed e) = handled s
  info_found part s (found info) = answer_info part s info (sha256_bytes crypto info.nar_hash)

  unfoldable pub info_by :
      SubstitutePolicy → Text → Moment → QueryState → Option Narinfo → Option Text → Handled
  unfolding info_found fetch_narinfo
  info_by p2p_only part m s (some info) local = info_found part s (found info)
  info_by p2p_only part m s none local = handled s
  info_by p2p_first part m s (some info) local = info_found part s (found info)
  info_by p2p_first part m s none (some _) = handled s
  info_by p2p_first part m s none none =
      let (cache', r) = fetch_for m s part in info_found part (record s { cache = cache' }) r
  info_by http_first part m s (some info) local = info_found part s (found info)
  info_by http_first part m s none (some _) = handled s
  info_by http_first part m s none none =
      let (cache', r) = fetch_for m s part in info_found part (record s { cache = cache' }) r

  unfoldable pub info_path : Option Text → Moment → QueryState → Handled
  unfolding info_by get
  info_path none m s = handled s
  info_path (some part) m s =
      info_by config.substitute_policy part m s (get m.now s.cache part) config.local_narinfo_path

  unfoldable pub info_all : Handled → List (Text × Moment) → Handled
  unfolding info_path hash_part
  info_all (handled s) [] = handled s
  info_all (handled s) ((path, m) ∷ rest) = info_all (info_path (hash_part path) m s) rest
  info_all broken rest = broken
  info_all pending rest = pending

  unfoldable pub handle_info : QueryState → List (Text × Moment) → Handled
  unfolding info_all end_of
  handle_info s paths = end_of (info_all (handled s) paths)
