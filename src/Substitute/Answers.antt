-- ===== src/Substitute/Answers.antt =====
-- How often `try_swarm_substitute` (src/daemon.rs) answers guix-daemon, which waits for one line.
use guix_p2p.Protocol.{format_trace_progress}
use guix_p2p.Prelude.{
  ℕ, ◌≡◌, refl, sym, ap, subst, ◌∙◌, ◌⊎◌, inl, inr, Bool, true, false, Option, none, some, List, [],
  ◌∷◌, ◌++◌, map, arith, Option-cases, nat_eq, text_eq, Outcome, returns, length,
}
use guix_p2p.Crypto.{Bytes, Text, Crypto}
use guix_p2p.Text.{chars}
use guix_p2p.NarHash.{sha256_bytes}
use guix_p2p.Config.{p2p_only, p2p_first, http_first, SubstitutePolicy, Config}
use guix_p2p.StorePath.{hash_part}
use guix_p2p.Narinfo.{NarinfoCache}
use guix_p2p.NarStore.{NarStore, Files, MetadataFormat}
use guix_p2p.Substitute.{
  format_trace_progress, DownloadedNar, Answer, Effect, World, State, Request, emit, progress,
  try_http, or_http, or_p2p, fetch, deliver_socket, deliver_direct, deliver, after_save, seed_if,
  seed, mark_downloaded, conclude, after_deliver, checked, finish, observe, serve, find_narinfo,
  try_swarm_substitute, not_found, answer, trace, build_discovered, catalog_entry, phase,
  download_failed, download_succeeded, seed_added, start_providing, remove_dest, flush_reply,
  stream_nar, write_temporary, restore_nar,
}
use guix_p2p.Substitute.Authentic.{hash-cases}

pub answers : List Effect → List Answer
answers [] = []
answers (answer a ∷ log) = a ∷ answers log
answers (trace t ∷ log) = answers log
answers (build_discovered k p n ∷ log) = answers log
answers (catalog_entry q p n k ∷ log) = answers log
answers (phase k t ∷ log) = answers log
answers (download_failed k p t ∷ log) = answers log
answers (download_succeeded k p n t ∷ log) = answers log
answers (seed_added k p n ∷ log) = answers log
answers (start_providing k ∷ log) = answers log
answers (remove_dest p ∷ log) = answers log
answers (flush_reply ∷ log) = answers log
answers (stream_nar nar ∷ log) = answers log
answers (write_temporary nar ∷ log) = answers log
answers (restore_nar nar p ∷ log) = answers log

pub answers-append : (xs ys : List Effect) → answers (xs ++ ys) ≡ answers xs ++ answers ys
unfolding answers
answers-append [] ys = refl
answers-append (answer a ∷ xs) ys = ap (λ t. a ∷ t) (answers-append xs ys)
answers-append (trace t ∷ xs) ys = answers-append xs ys
answers-append (build_discovered k p n ∷ xs) ys = answers-append xs ys
answers-append (catalog_entry q p n k ∷ xs) ys = answers-append xs ys
answers-append (phase k t ∷ xs) ys = answers-append xs ys
answers-append (download_failed k p t ∷ xs) ys = answers-append xs ys
answers-append (download_succeeded k p n t ∷ xs) ys = answers-append xs ys
answers-append (seed_added k p n ∷ xs) ys = answers-append xs ys
answers-append (start_providing k ∷ xs) ys = answers-append xs ys
answers-append (remove_dest p ∷ xs) ys = answers-append xs ys
answers-append (flush_reply ∷ xs) ys = answers-append xs ys
answers-append (stream_nar nar ∷ xs) ys = answers-append xs ys
answers-append (write_temporary nar ∷ xs) ys = answers-append xs ys
answers-append (restore_nar nar p ∷ xs) ys = answers-append xs ys

-- Effects with no answer.
abbrev pub Silent : List Effect → Type 0
Silent sent = answers sent ≡ []

pub Silent-append : (xs ys : List Effect) → Silent xs → Silent ys → Silent (xs ++ ys)
Silent-append xs ys a b = rw (answers-append xs ys, a) b

module _ (c : Crypto) (config : Config) (w : World) (r : Request) where
  reports-Silent :
      (ps : List (Text × ℕ × ℕ))
      → Silent (map (λ p. trace (format_trace_progress r.info.store_path p.0 p.1 p.2)) ps)
  unfolding answers
  reports-Silent [] = refl
  reports-Silent (p ∷ ps) = reports-Silent ps

  try_http-Silent : (detail : Text) → Silent (try_http c config w r detail).0
  unfolding try_http progress answers
  try_http-Silent detail = reports-Silent w.http_progress

  or_http-Silent : (got : Option DownloadedNar) → Silent (or_http c config w r got).0
  unfolding or_http answers
  or_http-Silent (some nar) = refl
  or_http-Silent none =
      Silent-append (try_http c config w r (chars "http-fallback")).0
        (phase (c.hex r.nar_hash_bytes) (chars "http_download") ∷ [])
        (try_http-Silent (chars "http-fallback")) refl

  or_p2p-Silent :
      (sent : List Effect) (got : Option DownloadedNar)
      → Silent sent
      → Silent (or_p2p c config w r sent got).0
  unfolding or_p2p answers
  or_p2p-Silent sent (some nar) h = Silent-append sent (_ ∷ []) h refl
  or_p2p-Silent sent none h = Silent-append sent (_ ∷ []) h refl

  pub fetch-Silent : (policy : SubstitutePolicy) → Silent (fetch c config w r policy).0
  unfolding fetch answers
  fetch-Silent p2p_only = refl
  fetch-Silent p2p_first = or_http-Silent _
  fetch-Silent http_first =
      or_p2p-Silent (try_http c config w r (chars "http-first")).0 _
        (try_http-Silent (chars "http-first"))

  -- The reply reaches its reader: it goes to the descriptors, or the socket takes what is written.
  abbrev pub Connected : Type 0
  Connected = (r.socket_mode ≡ false) ⊎ ((w.flushes ≡ true) × (w.streams ≡ true))

  -- A delivery that goes well is silent, one that fails answers `not-found`.
  abbrev Settled : List Effect × Bool → Type 0
  Settled (sent, done) =
      ((done ≡ true) × Silent sent) ⊎ ((done ≡ false) × (answers sent ≡ not_found ∷ []))

  socket-Settled :
      (nar : Bytes) (a b d : Bool)
      → b ≡ true
      → d ≡ true
      → Settled (deliver_socket c config w r a b d nar)
  unfolding deliver_socket answers
  socket-Settled nar false b d hb hd = inr (refl, refl)
  socket-Settled nar true false d hb hd = absurd (ground arith)
  socket-Settled nar true true false hb hd = absurd (ground arith)
  socket-Settled nar true true true hb hd = inl (refl, refl)

  direct-Settled : (nar : Bytes) (a b : Bool) → Settled (deliver_direct c config w r a b nar)
  unfolding deliver_direct answers
  direct-Settled nar false b = inr (refl, refl)
  direct-Settled nar true false = inr (refl, refl)
  direct-Settled nar true true = inl (refl, refl)

  deliver-Settled :
      (mode : Bool) (nar : Bytes)
      → (mode ≡ false) ⊎ ((w.flushes ≡ true) × (w.streams ≡ true))
      → Settled (deliver c config w r mode nar)
  unfolding deliver
  deliver-Settled false nar h = direct-Settled nar w.temporary_written w.restores
  deliver-Settled true nar (inl e) = absurd (ground arith)
  deliver-Settled true nar (inr (f, g)) =
      socket-Settled nar w.writer_present w.flushes w.streams f g

  abbrev One : List Effect → Type 0
  One log = (a : Answer) × (answers log ≡ a ∷ [])

  abbrev Answers : Outcome State → Type 0
  Answers o = (t : State) → o ≡ returns t → One t.log

  -- A silent log, then effects with one answer.
  emit-One :
      (s : State) (sent : List Effect) (a : Answer)
      → Silent s.log
      → answers sent ≡ a ∷ []
      → Answers (returns (emit s sent))
  unfolding emit
  emit-One s sent a h k t e =
      let same : emit s sent ≡ t = ground arith in
      subst (λ (x : State). One x.log) same (a, answers-append s.log sent ∙ rw (h, k) refl)

  emit-Silent :
      (s : State) (sent : List Effect) → Silent s.log → Silent sent → Silent (emit s sent).log
  unfolding emit
  emit-Silent s sent h k = Silent-append s.log sent h k

  after_save-Silent :
      (nar : Bytes) (saved : Option (NarStore × Files × Bool)) (s t : State)
      → Silent s.log
      → after_save c config w r nar saved s ≡ some t
      → Silent t.log
  unfolding after_save answers
  after_save-Silent nar none s t h e = absurd (ground arith)
  after_save-Silent nar (some (store', files', false)) s t h e =
      let same : record s { store = store'; files = files' } ≡ t = ground arith in
      subst (λ (x : State). Silent x.log) same h
  after_save-Silent nar (some (store', files', true)) s t h e =
      let s' : State = record s { store = store'; files = files' } in
      let k = c.hex r.nar_hash_bytes in
      let sent = start_providing k ∷ seed_added k r.info.store_path (length nar) ∷ [] in
      let same : emit s' sent ≡ t = ground arith in
      subst (λ (x : State). Silent x.log) same (emit-Silent s' sent h refl)

  seed_if-Silent :
      (format : MetadataFormat) (wanted held : Bool) (nar : Bytes) (s t : State)
      → Silent s.log
      → seed_if c config w r format wanted held nar s ≡ some t
      → Silent t.log
  unfolding seed_if
  seed_if-Silent format false held nar s t h e =
      let same : s ≡ t = ground arith in subst (λ (x : State). Silent x.log) same h
  seed_if-Silent format true true nar s t h e =
      let same : s ≡ t = ground arith in subst (λ (x : State). Silent x.log) same h
  seed_if-Silent format true false nar s t h e = after_save-Silent nar _ s t h e

  conclude-Answers :
      (nar : DownloadedNar) (got : Option State)
      → ((s : State) → got ≡ some s → Silent s.log)
      → Answers (conclude c config w r nar got)
  unfolding conclude mark_downloaded answers
  conclude-Answers nar none h = λ t e. absurd (ground arith)
  conclude-Answers nar (some s) h =
      emit-One (mark_downloaded c config w r (length nar.content) s) _ _ (h s refl) refl

  after_deliver-Answers :
      (format : MetadataFormat) (nar : DownloadedNar) (sent : List Effect) (done : Bool) (s : State)
      → Silent s.log
      → Settled (sent, done)
      → Answers (after_deliver c config w r format nar (sent, done) s)
  unfolding after_deliver seed answers
  after_deliver-Answers format nar sent false s h (inl (e, k)) = absurd (ground arith)
  after_deliver-Answers format nar sent false s h (inr (e, k)) = emit-One s (_ ∷ sent) not_found h k
  after_deliver-Answers format nar sent true s h (inr (e, k)) = absurd (ground arith)
  after_deliver-Answers format nar sent true s h (inl (e, k)) =
      let verify : List Effect = phase (c.hex r.nar_hash_bytes) (chars "verify") ∷ sent in
      let imported : List Effect = phase (c.hex r.nar_hash_bytes) (chars "import") ∷ [] in
      conclude-Answers nar _ (λ u run.
        seed_if-Silent format _ _ nar.content (emit (emit s verify) imported) u
          (emit-Silent (emit s verify) imported (emit-Silent s verify h k) refl) run)

  checked-Answers :
      (format : MetadataFormat) (agrees : Bool) (nar : DownloadedNar) (s : State)
      → Connected
      → Silent s.log
      → Answers (checked c config w r format agrees nar s)
  unfolding checked answers
  checked-Answers format false nar s k h = emit-One s _ _ h refl
  checked-Answers format true nar s k h =
      after_deliver-Answers format nar _ _ s h (deliver-Settled r.socket_mode nar.content k)

  finish-Answers :
      (format : MetadataFormat) (got : Option DownloadedNar) (s : State)
      → Connected
      → Silent s.log
      → Answers (finish c config w r format got s)
  unfolding finish answers
  finish-Answers format none s k h = emit-One s _ _ h refl
  finish-Answers format (some nar) s k h = checked-Answers format _ nar s k h

  pub serve-Answers :
      (format : MetadataFormat) (s : State)
      → Connected
      → s.log ≡ []
      → Answers (serve c config w r format s)
  unfolding serve observe answers
  serve-Answers format s k empty =
      let h = c.hex r.nar_hash_bytes in
      finish-Answers format _ _ k (
        emit-Silent (observe c config w r s) _
          (Silent-append s.log
            (build_discovered h r.info.store_path r.info.nar_size
              ∷ phase h (chars "narinfo")
              ∷ catalog_entry r.hash_part r.info.store_path r.info.nar_size h
              ∷ [])
            (subst (λ log. Silent log) (sym empty) refl) refl)
          (fetch-Silent config.substitute_policy))

refused : (t : State) → t.log ≡ answer not_found ∷ [] → answers t.log ≡ not_found ∷ []
unfolding answers
refused t q = subst (λ log. answers log ≡ not_found ∷ []) (sym q) refl

-- A substitution that starts with an empty log and does not panic sends exactly one terminal answer
-- (`success`, `not-found` or `hash-mismatch`), where the reply goes to the file descriptors, or the
-- socket takes the metadata and the NAR.
pub substitute-answers :
    (c : Crypto) (format : MetadataFormat) (config : Config) (w : World) (cache : NarinfoCache)
    (socket_mode : Bool) (path dest : Text) (s t : State)
    → s.log ≡ []
    → (socket_mode ≡ false) ⊎ ((w.flushes ≡ true) × (w.streams ≡ true))
    → try_swarm_substitute c format config w cache socket_mode path dest s ≡ returns t
    → (a : Answer) × (answers t.log ≡ a ∷ [])
unfolding try_swarm_substitute emit answers
substitute-answers c format config w cache socket_mode path dest s t empty k e =
    elim (Option-cases (hash_part path)) [
      | inl bad ↦ (not_found, refused t (ground (arith, empty)))
      | inr (part, p) ↦ elim (Option-cases (find_narinfo config w cache part)) [
        | inl missing ↦ (not_found, refused t (ground (arith, empty)))
        | inr (info, f) ↦ elim (hash-cases (sha256_bytes c info.nar_hash)) [
          | inl stuck ↦ absurd (ground arith)
          | inr (inl invalid) ↦ (not_found, refused t (ground (arith, empty)))
          | inr (inr (h, d)) ↦
              let r : Request = record {
                socket_mode = socket_mode;
                dest = dest;
                hash_part = part;
                info = info;
                nar_hash_bytes = h;
              } in
              let run : serve c config w r format s ≡ returns t = ground arith in
              serve-Answers c config w r format s k empty t run
        ]
      ]
    ]
