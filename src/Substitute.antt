-- ===== src/Substitute.antt =====
-- src/daemon.rs: `try_swarm_substitute`, the answer to one substitute command. What it sends is a
-- list of effects in their order; log messages and the times in the events are left out. What the
-- network and the file system answer is the record `World`, one field per call; the two downloads
-- return whatever bytes they like, and the events and traces of the P2P download are its own.
pub mod Authentic
pub mod Answers
pub mod Success
pub mod Seeding
use guix_p2p.Prelude.{
  panics, true, false, returns, length, [], Outcome, map, insert, modify, not, ℕ, ◌+◌, ◌-◌, ◌*◌,
  ◌/◌, min, Bool, ◌&&◌, Option, none, some, List, ◌∷◌, ◌++◌, leb, if◌then◌else◌, nat_eq, text_eq,
  Map, lookup,
}
use guix_p2p.Crypto.{Bytes, Text, Crypto}
use guix_p2p.Text.{eq_ignore_ascii_case, chars, decimal}
use guix_p2p.NarHash.{sha256_bytes}
use guix_p2p.Config.{
  SubstitutePolicy, p2p_only, p2p_first, http_first, should_seed_http, should_seed_p2p, Config, p2p,
}
use guix_p2p.StorePath.{hash_part}
use guix_p2p.Narinfo.{NarinfoCache, get, Narinfo}
use guix_p2p.Protocol.{
  format_trace_succeeded, format_trace_progress, format_trace_started, substitute,
}
use guix_p2p.NarStore.{save_with_store_path, MetadataFormat, has_nar, NarStore, Files, WriteOutcome}

pub data DownloadSource : Type 0 where
  from_p2p from_http : DownloadSource

pub record DownloadedNar : Type 0 where
  pub content : Bytes
  pub trace_url : Text
  pub source : DownloadSource
  pub detail_source : Text

pub record ObservedBuild : Type 0 where
  pub nar_hash : Text
  pub store_path : Option Text
  pub nar_size : Option ℕ
  pub references : List Text
  pub deriver : Option Text
  pub narinfo_raw : Option Text
  pub providers : List ℕ
  pub downloaded_at : Option ℕ
  pub download_size : Option ℕ

-- The terminal answers of the substituter protocol, which the source writes as lines.
pub data Answer : Type 0 where
  not_found : Answer
  success : Text → ℕ → Answer
  hash_mismatch : Text → Text → Answer

unfoldable pub render : Answer → Text
unfolding decimal
render not_found = chars "not-found"
render (success hash size) = chars "success sha256:" ++ (hash ++ b' ' ∷ decimal size)
render (hash_mismatch expected actual) =
    chars "hash-mismatch sha256 sha256:" ++ (expected ++ (chars " sha256:" ++ actual))

pub data Effect : Type 0 where
  answer : Answer → Effect
  trace : Text → Effect
  build_discovered : Text → Text → ℕ → Effect
  catalog_entry : Text → Text → ℕ → Text → Effect
  phase : Text → Text → Effect
  download_failed : Text → Text → Text → Effect
  download_succeeded : Text → Text → ℕ → Text → Effect
  seed_added : Text → Text → ℕ → Effect
  start_providing : Text → Effect
  remove_dest : Text → Effect
  flush_reply : Effect
  stream_nar : Bytes → Effect
  write_temporary : Bytes → Effect
  restore_nar : Bytes → Text → Effect

-- `p2p` takes the timeout of the provider lookup in seconds; `http_progress` has the reports of the
-- HTTP download, and `failure` is the text of an error.
pub record World : Type 0 where
  pub now : ℕ
  pub fetch_narinfo : Text → Option Narinfo
  pub p2p : ℕ → Option (Bytes × Text)
  pub http : Option (Bytes × Text)
  pub http_progress : List (Text × ℕ × ℕ)
  pub first_url : Option Text
  pub writer_present : Bool
  pub flushes : Bool
  pub streams : Bool
  pub temporary_written : Bool
  pub restores : Bool
  pub failure : Text
  pub nar_outcome : WriteOutcome
  pub meta_outcome : WriteOutcome

pub record State : Type 0 where
  pub builds : Map Text ObservedBuild
  pub store : NarStore
  pub files : Files
  pub log : List Effect

-- The command: the mode of the reply, the destination, and what the narinfo says.
pub record Request : Type 0 where
  pub socket_mode : Bool
  pub dest : Text
  pub hash_part : Text
  pub info : Narinfo
  pub nar_hash_bytes : Bytes

unfoldable pub emit : State → List Effect → State
emit s effects = record s { log = s.log ++ effects }

abbrev pub small_nar_fast_fallback_bytes : ℕ
small_nar_fast_fallback_bytes = 1024 * 1024

abbrev pub small_nar_provider_lookup_secs : ℕ
small_nar_provider_lookup_secs = 2

unfoldable pub provider_lookup_timeout : Config → ℕ → Bool → ℕ
provider_lookup_timeout config nar_size fast_small_nar_fallback =
    if fast_small_nar_fallback && leb nar_size small_nar_fast_fallback_bytes
    then min config.request_timeout_secs small_nar_provider_lookup_secs
    else config.request_timeout_secs

unfoldable pub http_trace_url : World → Text
http_trace_url w = elim w.first_url [ none ↦ chars "https://fallback" | some url ↦ url ]

abbrev pub p2p_trace_url : Request → Text
p2p_trace_url r = chars "p2p://" ++ r.hash_part

unfoldable pub via_p2p : World → Request → ℕ → Option DownloadedNar
via_p2p w r timeout = elim (w.p2p timeout) [
  | none ↦ none
  | some (content, detail) ↦ some (record {
    content = content;
    trace_url = p2p_trace_url r;
    source = from_p2p;
    detail_source = detail;
  })
]

unfoldable pub via_http : World → Text → Option DownloadedNar
via_http w detail = elim w.http [
  | none ↦ none
  | some (content, url) ↦
      some
        (record { content = content; trace_url = url; source = from_http; detail_source = detail })
]

-- The traces and events of the HTTP download, whose reports are of the URL, the total and the bytes
-- that have arrived.
unfoldable pub progress : World → Request → List Effect
unfolding format_trace_progress
progress w r =
    map (λ (p : Text × ℕ × ℕ). trace (format_trace_progress r.info.store_path p.0 p.1 p.2))
      w.http_progress

abbrev pub started : Request → Text → Effect
started r url = trace (format_trace_started r.info.store_path url r.info.nar_size)

-- The three policies: what is sent, and the download.
module _ (c : Crypto) (config : Config) (w : World) (r : Request) where
  abbrev key : Text
  key = c.hex r.nar_hash_bytes

  unfoldable pub try_http : Text → List Effect × Option DownloadedNar
  unfolding via_http progress http_trace_url format_trace_started
  try_http detail = (started r (http_trace_url w) ∷ progress w r, via_http w detail)

  -- `P2pFirst` after the swarm's download.
  unfoldable pub or_http : Option DownloadedNar → List Effect × Option DownloadedNar
  unfolding try_http format_trace_started
  or_http (some nar) = (started r (p2p_trace_url r) ∷ [], some nar)
  or_http none =
      let (sent, result) = try_http (chars "http-fallback") in
      (started r (p2p_trace_url r) ∷ sent ++ phase key (chars "http_download") ∷ [], result)

  -- `HttpFirst` after the HTTP download.
  unfoldable pub or_p2p : List Effect → Option DownloadedNar → List Effect × Option DownloadedNar
  unfolding via_p2p provider_lookup_timeout format_trace_started
  or_p2p sent (some nar) = (sent ++ phase key (chars "http_download") ∷ [], some nar)
  or_p2p sent none = (
    sent ++ started r (p2p_trace_url r) ∷ [],
    via_p2p w r (provider_lookup_timeout config r.info.nar_size false),
  )

  unfoldable pub fetch : SubstitutePolicy → List Effect × Option DownloadedNar
  unfolding via_p2p try_http or_http or_p2p provider_lookup_timeout format_trace_started
  fetch p2p_only = (
    started r (p2p_trace_url r) ∷ [],
    via_p2p w r (provider_lookup_timeout config r.info.nar_size false),
  )
  fetch p2p_first = or_http (via_p2p w r (provider_lookup_timeout config r.info.nar_size true))
  fetch http_first = let (sent, result) = try_http (chars "http-first") in or_p2p sent result

  abbrev failed : Text → Effect
  failed reason = download_failed key r.info.store_path (reason ++ w.failure)

  -- The relay's socket: is there a writer, and do the flush and the stream succeed? What is sent,
  -- and whether it went well.
  unfoldable pub deliver_socket : Bool → Bool → Bool → Bytes → List Effect × Bool
  deliver_socket false flushes streams nar_data = (
    answer not_found
        ∷ download_failed key r.info.store_path (chars "socket relay writer missing")
        ∷ [],
    false,
  )
  deliver_socket true false streams nar_data =
      (flush_reply ∷ failed (chars "socket relay flush error: ") ∷ [], false)
  deliver_socket true true false nar_data =
      (flush_reply ∷ stream_nar nar_data ∷ failed (chars "socket relay write error: ") ∷ [], false)
  deliver_socket true true true nar_data = (flush_reply ∷ stream_nar nar_data ∷ [], true)

  -- The destination: do the write of the temporary file and its restoration succeed?
  unfoldable pub deliver_direct : Bool → Bool → Bytes → List Effect × Bool
  deliver_direct false restores nar_data = (
    write_temporary nar_data ∷ answer not_found ∷ failed (chars "temporary nar write error: ") ∷ [],
    false,
  )
  deliver_direct true false nar_data = (
    write_temporary nar_data
        ∷ restore_nar nar_data r.dest
        ∷ answer not_found
        ∷ failed (chars "nar destination write error: ")
        ∷ [],
    false,
  )
  deliver_direct true true nar_data =
      (write_temporary nar_data ∷ restore_nar nar_data r.dest ∷ [], true)

  unfoldable pub deliver : Bool → Bytes → List Effect × Bool
  unfolding deliver_socket deliver_direct
  deliver true nar_data = deliver_socket w.writer_present w.flushes w.streams nar_data
  deliver false nar_data = deliver_direct w.temporary_written w.restores nar_data

  abbrev pub should_auto_seed : DownloadSource → Bool
  should_auto_seed from_p2p = should_seed_p2p config.auto_seed_downloads
  should_auto_seed from_http = should_seed_http config.auto_seed_downloads

  -- After `save_with_store_path`; `none` is a panic.
  unfoldable pub after_save : Bytes → Option (NarStore × Files × Bool) → State → Option State
  unfolding emit
  after_save nar_data none s = none
  after_save nar_data (some (store', files', false)) s =
      some (record s { store = store'; files = files' })
  after_save nar_data (some (store', files', true)) s = some (
      emit (record s { store = store'; files = files' })
        (start_providing key ∷ seed_added key r.info.store_path (length nar_data) ∷ []))

  -- Is the NAR to be seeded, and does the store have it?
  unfoldable pub seed_if : MetadataFormat → Bool → Bool → Bytes → State → Option State
  unfolding after_save save_with_store_path
  seed_if format false held nar_data s = some s
  seed_if format true true nar_data s = some s
  seed_if format true false nar_data s =
      after_save nar_data
        (save_with_store_path format w.nar_outcome w.meta_outcome w.now s.store s.files key nar_data
          (some r.info.store_path))
        s

  unfoldable pub seed : MetadataFormat → Bytes → DownloadSource → State → Option State
  unfolding seed_if has_nar should_seed_p2p should_seed_http
  seed format nar_data source s =
      seed_if format (should_auto_seed source) (has_nar s.store key) nar_data s

  unfoldable pub mark_downloaded : ℕ → State → State
  mark_downloaded size s = record s {
    builds =
        modify s.builds r.hash_part
          (λ b. record b { downloaded_at = some w.now; download_size = some size });
  }

  -- The end of a substitution that went well.
  unfoldable pub conclude : DownloadedNar → Option State → Outcome State
  unfolding emit mark_downloaded format_trace_succeeded
  conclude nar none = panics
  conclude nar (some s) =
      let size = length nar.content in
      returns (
        emit (mark_downloaded size s) (
          download_succeeded key r.info.store_path size nar.detail_source
          ∷ phase key (chars "total")
          ∷ trace (format_trace_succeeded r.info.store_path nar.trace_url size)
          ∷ answer (success key size)
          ∷ []))

  unfoldable pub after_deliver :
      MetadataFormat → DownloadedNar → List Effect × Bool → State → Outcome State
  unfolding emit seed conclude
  after_deliver format nar (sent, false) s = returns (emit s (phase key (chars "verify") ∷ sent))
  after_deliver format nar (sent, true) s = conclude nar (
      seed format nar.content nar.source
        (emit (emit s (phase key (chars "verify") ∷ sent)) (phase key (chars "import") ∷ [])))

  -- Does the hash of the download agree with the narinfo's?
  unfoldable pub checked : MetadataFormat → Bool → DownloadedNar → State → Outcome State
  unfolding emit deliver after_deliver
  checked format false nar s =
      let actual = c.hex (c.sha256 nar.content) in
      returns (
        emit s (
          remove_dest r.dest
          ∷ download_failed key r.info.store_path (
              chars "hash mismatch: expected sha256:" ++ (key ++ (chars ", got sha256:" ++ actual)))
          ∷ answer (hash_mismatch key actual)
          ∷ []))
  checked format true nar s = after_deliver format nar (deliver r.socket_mode nar.content) s

  -- The last match of `try_swarm_substitute`.
  unfoldable pub finish : MetadataFormat → Option DownloadedNar → State → Outcome State
  unfolding emit checked
  finish format none s = returns (emit s (failed [] ∷ answer not_found ∷ []))
  finish format (some nar) s =
      checked format (eq_ignore_ascii_case key (c.hex (c.sha256 nar.content))) nar s

  -- The registry learns of the build, and the dashboard.
  unfoldable pub observe : State → State
  unfolding emit
  observe s =
      let observed : ObservedBuild = elim (lookup s.builds r.hash_part) [
        | some b ↦ record b {
          store_path = some r.info.store_path;
          nar_size = some r.info.nar_size;
          references = r.info.references;
          deriver = r.info.deriver;
          narinfo_raw = some r.info.signed_portion;
        }
        | none ↦ record {
          nar_hash = key;
          store_path = some r.info.store_path;
          nar_size = some r.info.nar_size;
          references = r.info.references;
          deriver = r.info.deriver;
          narinfo_raw = some r.info.signed_portion;
          providers = [];
          downloaded_at = none;
          download_size = none;
        }
      ] in
      emit (record s { builds = insert s.builds r.hash_part observed })
        (build_discovered key r.info.store_path r.info.nar_size
          ∷ phase key (chars "narinfo")
          ∷ catalog_entry r.hash_part r.info.store_path r.info.nar_size key
          ∷ [])

  unfoldable pub serve : MetadataFormat → State → Outcome State
  unfolding fetch finish observe emit
  serve format s =
      let (sent, result) = fetch config.substitute_policy in
      finish format result (emit (observe s) sent)

-- The narinfo of a hash part: the cache first, then the metadata file alone where there is one, or
-- the substitute servers.
unfoldable pub find_narinfo : Config → World → NarinfoCache → Text → Option Narinfo
unfolding get
find_narinfo config w cache hash_part = elim (get w.now cache hash_part) [
  | some info ↦ some info
  | none ↦ elim config.local_narinfo_path [ some _ ↦ none | none ↦ w.fetch_narinfo hash_part ]
]

unfoldable pub try_swarm_substitute :
    Crypto
    → MetadataFormat
    → Config
    → World
    → NarinfoCache
    → Bool
    → Text
    → Text
    → State
    → Outcome State
unfolding emit hash_part find_narinfo sha256_bytes serve
try_swarm_substitute c format config w cache socket_mode path dest s =
    let refused = returns (emit s (answer not_found ∷ [])) in
    elim (hash_part path) [
      | none ↦ refused
      | some part ↦ elim (find_narinfo config w cache part) [
        | none ↦ refused
        | some info ↦ elim (sha256_bytes c info.nar_hash) [
          | panics ↦ panics
          | returns none ↦ refused
          | returns (some bytes) ↦
              let r : Request = record {
                socket_mode = socket_mode;
                dest = dest;
                hash_part = part;
                info = info;
                nar_hash_bytes = bytes;
              } in
              serve c config w r format s
        ]
      ]
    ]
