-- ===== src/Substitute/Success.antt =====
-- When `try_swarm_substitute` (src/daemon.rs) succeeds.
use guix_p2p.Protocol.{format_trace_succeeded}
use guix_p2p.Prelude.{
  text_beq_refl, subst, map, append_assoc, sym, [], ◌∷◌, length, ◌++◌, returns, List, ◌≢◌, ◌∙◌, ap,
  Outcome, ℕ, ◌<◌, ◌≡◌, refl, ◌⊎◌, inl, inr, Bool, true, false, Option, none, some, arith, nat_eq,
  text_eq,
}
use guix_p2p.Crypto.{Bytes, Text, Crypto}
use guix_p2p.Text.{eq_ignore_ascii_case, ascii_lower, chars}
use guix_p2p.Config.{SubstitutePolicy, p2p_only, p2p_first, http_first, Config}
use guix_p2p.Narinfo.{NarinfoCache, Narinfo}
use guix_p2p.Swarm.Block.{from_file_size}
use guix_p2p.NarStore.{
  write_file, NarStore, Files, MetadataFormat, save_with_store_path, save_with_source, WriteOutcome,
  not_created, stopped_after, written,
}
use guix_p2p.Substitute.{
  eq_ignore_ascii_case, seed, observe, try_swarm_substitute, after_deliver, checked,
  mark_downloaded, format_trace_succeeded, trace, success, phase, answer, download_succeeded,
  Effect, deliver_direct, deliver_socket, emit, State, finish, from_p2p, conclude, from_http,
  seed_if, deliver, serve, after_save, p2p_trace_url, DownloadedNar, World, Request,
  provider_lookup_timeout, via_p2p, via_http, try_http, or_http, or_p2p, fetch,
}
use guix_p2p.Substitute.Authentic.{Finds}

-- The source that the policy asks first has the NAR, or it fails and the one it falls back on has it.
unfoldable pub Obtains : SubstitutePolicy → Config → World → Narinfo → Bytes → Type 0
Obtains p2p_only config w info nar =
    (d : Text) × (w.p2p (provider_lookup_timeout config info.nar_size false) ≡ some (nar, d))
Obtains p2p_first config w info nar =
    ((d : Text) × (w.p2p (provider_lookup_timeout config info.nar_size true) ≡ some (nar, d)))
    ⊎ ((w.p2p (provider_lookup_timeout config info.nar_size true) ≡ none)
        × ((url : Text) × (w.http ≡ some (nar, url))))
Obtains http_first config w info nar =
    ((url : Text) × (w.http ≡ some (nar, url)))
    ⊎ ((w.http ≡ none)
        × ((d : Text) × (w.p2p (provider_lookup_timeout config info.nar_size false)
              ≡ some (nar, d))))

unfoldable pub Delivers : Bool → World → Type 0
Delivers true w = (w.writer_present ≡ true) × (w.flushes ≡ true) × (w.streams ≡ true)
Delivers false w = (w.temporary_written ≡ true) × (w.restores ≡ true)

module _ (c : Crypto) (config : Config) (w : World) (r : Request) where
  abbrev by_p2p : Bytes → Text → DownloadedNar
  by_p2p nar d = record {
    content = nar;
    trace_url = p2p_trace_url r;
    source = from_p2p;
    detail_source = d;
  }

  abbrev by_http : Text → Bytes → Text → DownloadedNar
  by_http detail nar url = record {
    content = nar;
    trace_url = url;
    source = from_http;
    detail_source = detail;
  }

  via_p2p-some :
      (timeout : ℕ) (nar : Bytes) (d : Text)
      → w.p2p timeout ≡ some (nar, d)
      → via_p2p w r timeout ≡ some (by_p2p nar d)
  unfolding via_p2p
  via_p2p-some timeout nar d e = ground (arith, e)

  via_p2p-none : (timeout : ℕ) → w.p2p timeout ≡ none → via_p2p w r timeout ≡ none
  unfolding via_p2p
  via_p2p-none timeout e = ground (arith, e)

  via_http-some :
      (detail : Text) (nar : Bytes) (url : Text)
      → w.http ≡ some (nar, url)
      → via_http w detail ≡ some (by_http detail nar url)
  unfolding via_http
  via_http-some detail nar url e = ground (arith, e)

  via_http-none : (detail : Text) → w.http ≡ none → via_http w detail ≡ none
  unfolding via_http
  via_http-none detail e = ground (arith, e)

  fetch-Obtains :
      (policy : SubstitutePolicy) (nar : Bytes)
      → Obtains policy config w r.info nar
      → (n : DownloadedNar) × ((fetch c config w r policy).1 ≡ some n) × (n.content ≡ nar)
  unfolding fetch or_http or_p2p try_http Obtains
  fetch-Obtains p2p_only nar (d, e) = (by_p2p nar d, via_p2p-some _ nar d e, refl)
  fetch-Obtains p2p_first nar (inl (d, e)) =
      (by_p2p nar d, ap (λ g. (or_http c config w r g).1) (via_p2p-some _ nar d e), refl)
  fetch-Obtains p2p_first nar (inr (e, (url, f))) = (
    by_http (chars "http-fallback") nar url,
    ap (λ g. (or_http c config w r g).1) (via_p2p-none _ e)
        ∙ via_http-some (chars "http-fallback") nar url f,
    refl,
  )
  fetch-Obtains http_first nar (inl (url, e)) = (
    by_http (chars "http-first") nar url,
    ap (λ g. (or_p2p c config w r (try_http c config w r (chars "http-first")).0 g).1)
        (via_http-some (chars "http-first") nar url e),
    refl,
  )
  fetch-Obtains http_first nar (inr (e, (d, f))) = (
    by_p2p nar d,
    ap (λ g. (or_p2p c config w r (try_http c config w r (chars "http-first")).0 g).1)
          (via_http-none (chars "http-first") e)
        ∙ via_p2p-some _ nar d f,
    refl,
  )

  save-total :
      (format : MetadataFormat) (a b : WriteOutcome) (now : ℕ) (store : NarStore) (files : Files)
      (key : Text) (nar : Bytes) (path : Option Text)
      → 0 < store.block_size
      → save_with_store_path format a b now store files key nar path ≢ none
  unfolding save_with_store_path save_with_source from_file_size write_file
  save-total format not_created b now store files key nar path h e = ground arith
  save-total format (stopped_after n) b now store files key nar path h e = ground arith
  save-total format written b now store files key nar path h e = ground arith

  after_save-total :
      (nar : Bytes) (saved : Option (NarStore × Files × Bool)) (s : State)
      → saved ≢ none
      → after_save c config w r nar saved s ≢ none
  unfolding after_save
  after_save-total nar none s h e = h refl
  after_save-total nar (some (store', files', false)) s h e = ground arith
  after_save-total nar (some (store', files', true)) s h e = ground arith

  seed_if-total :
      (format : MetadataFormat) (wanted held : Bool) (nar : Bytes) (s : State)
      → 0 < s.store.block_size
      → seed_if c config w r format wanted held nar s ≢ none
  unfolding seed_if
  seed_if-total format false held nar s h e = ground arith
  seed_if-total format true true nar s h e = ground arith
  seed_if-total format true false nar s h e =
      after_save-total nar _ s
        (save-total format w.nar_outcome w.meta_outcome w.now s.store s.files _ nar _ h) e

  -- A run that ends with `success`.
  abbrev Succeeds : Bytes → Outcome State → Type 0
  Succeeds nar o =
      (t : State) × (log : List Effect) × (o ≡ returns t)
      × (t.log ≡ log ++ answer (success (c.hex r.nar_hash_bytes) (length nar)) ∷ [])

  conclude-Succeeds :
      (nar : DownloadedNar) (got : Option State)
      → got ≢ none
      → Succeeds nar.content (conclude c config w r nar got)
  unfolding conclude emit
  conclude-Succeeds nar none h = absurd (h refl)
  conclude-Succeeds nar (some s) h =
      let before : List Effect =
        download_succeeded (c.hex r.nar_hash_bytes) r.info.store_path (length nar.content)
          nar.detail_source
        ∷ phase (c.hex r.nar_hash_bytes) (chars "total")
        ∷ trace (format_trace_succeeded r.info.store_path nar.trace_url (length nar.content))
        ∷ [] in
      let m = mark_downloaded c config w r (length nar.content) s in
      (_, m.log ++ before, refl, sym (append_assoc m.log before _))

  deliver-Delivers :
      (mode : Bool) (nar : Bytes) → Delivers mode w → (deliver c config w r mode nar).1 ≡ true
  unfolding deliver deliver_socket deliver_direct Delivers
  deliver-Delivers true nar (a, b, d) = ground (arith, a, b, d)
  deliver-Delivers false nar (a, b) = ground (arith, a, b)

  after_deliver-Succeeds :
      (format : MetadataFormat) (nar : DownloadedNar) (sent : List Effect) (done : Bool) (s : State)
      → 0 < s.store.block_size
      → done ≡ true
      → Succeeds nar.content (after_deliver c config w r format nar (sent, done) s)
  unfolding after_deliver seed emit
  after_deliver-Succeeds format nar sent false s h d = absurd (ground arith)
  after_deliver-Succeeds format nar sent true s h d =
      conclude-Succeeds nar _ (seed_if-total format _ _ nar.content _ h)

  checked-Succeeds :
      (format : MetadataFormat) (agrees : Bool) (nar : DownloadedNar) (s : State)
      → 0 < s.store.block_size
      → agrees ≡ true
      → Delivers r.socket_mode w
      → Succeeds nar.content (checked c config w r format agrees nar s)
  unfolding checked
  checked-Succeeds format false nar s h a d = absurd (ground arith)
  checked-Succeeds format true nar s h a d =
      after_deliver-Succeeds format nar _ _ s h (deliver-Delivers r.socket_mode nar.content d)

  finish-Succeeds :
      (format : MetadataFormat) (got : Option DownloadedNar) (n : DownloadedNar) (s : State)
      → 0 < s.store.block_size
      → got ≡ some n
      → c.sha256 n.content ≡ r.nar_hash_bytes
      → Delivers r.socket_mode w
      → Succeeds n.content (finish c config w r format got s)
  unfolding finish
  finish-Succeeds format none n s h g b d = absurd (ground arith)
  finish-Succeeds format (some m) n s h g b d =
      let same : m ≡ n = ground arith in
      let k = map ascii_lower (c.hex r.nar_hash_bytes) in
      let agree : eq_ignore_ascii_case (c.hex r.nar_hash_bytes) (c.hex (c.sha256 m.content))
          ≡ true =
        subst (λ hash. eq_ignore_ascii_case (c.hex r.nar_hash_bytes) (c.hex hash) ≡ true)
          (sym b ∙ ap (λ (x : DownloadedNar). c.sha256 x.content) (sym same)) (text_beq_refl k) in
      subst (λ (x : DownloadedNar). Succeeds x.content (finish c config w r format (some m) s)) same
        (checked-Succeeds format _ m s h agree d)

  serve-Succeeds :
      (format : MetadataFormat) (s : State) (nar : Bytes)
      → 0 < s.store.block_size
      → Obtains config.substitute_policy config w r.info nar
      → c.sha256 nar ≡ r.nar_hash_bytes
      → Delivers r.socket_mode w
      → Succeeds nar (serve c config w r format s)
  unfolding serve observe emit
  serve-Succeeds format s nar h a b d =
      let (n, got, same) = fetch-Obtains config.substitute_policy nar a in
      subst (λ x. Succeeds x (serve c config w r format s)) same
        (finish-Succeeds format _ n _ h got (ap c.sha256 same ∙ b) d)

-- A substitution for a path whose narinfo is found, with a hash that decodes, runs to its end without
-- a panic and ends with `success`, the hash and the NAR's length, if the blocks of the store are not
-- empty, the source that the policy prefers has a NAR of this SHA-256, or fails and the source
-- the policy falls back on has it, and the NAR can be delivered. The swarm is asked with the timeout
-- of `provider_lookup_timeout`.
pub substitute-success :
    (c : Crypto) (format : MetadataFormat) (config : Config) (w : World) (cache : NarinfoCache)
    (socket_mode : Bool) (path dest : Text) (s : State) (h nar : Bytes)
    → 0 < s.store.block_size
    → (f : Finds c config w cache path h) → Obtains config.substitute_policy config w f.info nar
    → c.sha256 nar ≡ h
    → Delivers socket_mode w
    → (t : State) × (log : List Effect) × (try_swarm_substitute c format config w cache socket_mode
          path dest s
        ≡ returns t)
      × (t.log ≡ log ++ answer (success (c.hex h) (length nar)) ∷ [])
unfolding try_swarm_substitute
substitute-success c format config w cache socket_mode path dest s h nar size f a b d =
    let r : Request = record {
      socket_mode = socket_mode;
      dest = dest;
      hash_part = f.part;
      info = f.info;
      nar_hash_bytes = h;
    } in
    let (t, log, run, ends) = serve-Succeeds c config w r format s nar size a b d in
    (t, log, ground (arith, run, f.parsed, f.found, f.decoded), ends)
