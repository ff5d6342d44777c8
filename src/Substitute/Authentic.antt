-- ===== src/Substitute/Authentic.antt =====
-- What `try_swarm_substitute` (src/daemon.rs) lets out: only bytes with the hash of the narinfo.
use guix_p2p.Protocol.{format_trace_progress}
use guix_p2p.Prelude.{
  panics, ◌⊎◌, subst, returns, Outcome, none, Option, Bool, refl, Option-cases, inl, inr, some, ℕ,
  ◌≡◌, sym, ◌∙◌, ◌≢◌, true, false, List, [], ◌∷◌, ◌++◌, map, arith, nat_eq, text_beq_refl,
  text_beq_sound, text_eq, length, All,
}
use guix_p2p.Crypto.{Bytes, Text, Crypto, hex_injective}
use guix_p2p.Text.{chars, ascii_lower, eq_ignore_ascii_case}
use guix_p2p.NarHash.{sha256_bytes}
use guix_p2p.Config.{http_first, p2p_first, p2p_only, SubstitutePolicy, Config}
use guix_p2p.StorePath.{hash_part}
use guix_p2p.Narinfo.{NarinfoCache, Narinfo}
use guix_p2p.NarStore.{Files, MetadataFormat, NarStore}
use guix_p2p.Substitute.{
  sha256_bytes, find_narinfo, hash_part, observe, serve, finish, checked, try_swarm_substitute,
  mark_downloaded, conclude, seed_if, after_save, after_deliver, DownloadedNar, or_http,
  deliver_direct, deliver_socket, or_p2p, chars, State, emit, format_trace_progress, progress,
  deliver, fetch, try_http, seed, Request, World, Effect, not_found, success, hash_mismatch, answer,
  trace, build_discovered, catalog_entry, phase, download_failed, download_succeeded, seed_added,
  start_providing, remove_dest, flush_reply, stream_nar, write_temporary, restore_nar,
}

-- What an effect may claim or hand on, when the narinfo's hash is `h`.
abbrev pub IsAuthentic : Crypto → Bytes → Effect → Type 0
IsAuthentic c h (answer not_found) = Unit
IsAuthentic c h (answer (success hash size)) =
    (nar : Bytes) × (c.sha256 nar ≡ h) × (hash ≡ c.hex h) × (size ≡ length nar)
IsAuthentic c h (answer (hash_mismatch expected actual)) = (expected ≡ c.hex h) × (actual ≢ c.hex h)
IsAuthentic c h (trace t) = Unit
IsAuthentic c h (build_discovered k p n) = k ≡ c.hex h
IsAuthentic c h (catalog_entry q p n k) = k ≡ c.hex h
IsAuthentic c h (phase k t) = k ≡ c.hex h
IsAuthentic c h (download_failed k p t) = k ≡ c.hex h
IsAuthentic c h (download_succeeded k p n t) = k ≡ c.hex h
IsAuthentic c h (seed_added k p n) = k ≡ c.hex h
IsAuthentic c h (start_providing k) = k ≡ c.hex h
IsAuthentic c h (remove_dest p) = Unit
IsAuthentic c h flush_reply = Unit
IsAuthentic c h (stream_nar nar) = c.sha256 nar ≡ h
IsAuthentic c h (write_temporary nar) = c.sha256 nar ≡ h
IsAuthentic c h (restore_nar nar p) = c.sha256 nar ≡ h

pub All-append {ℓ κ} :
    {A : Type ℓ} (P : A → Type κ) (xs ys : List A) → All P xs → All P ys → All P (xs ++ ys)
All-append P [] ys a b = b
All-append P (x ∷ xs) ys (p, a) b = (p, All-append P xs ys a b)

-- Hexadecimal texts that agree up to the case of letters are of the same bytes.
pub same_hash : (c : Crypto) (a b : Bytes) → eq_ignore_ascii_case (c.hex a) (c.hex b) ≡ true → a ≡ b
same_hash c a b e = hex_injective c a b (sym (c.lower-hex a) ∙ text_beq_sound _ _ e ∙ c.lower-hex b)

pub other_hash :
    (c : Crypto) (a b : Bytes)
    → eq_ignore_ascii_case (c.hex a) (c.hex b) ≡ false
    → c.hex b ≢ c.hex a
other_hash c a b e same = ground (arith, text_beq_refl (map ascii_lower (c.hex a)))

module _ (c : Crypto) (config : Config) (w : World) (r : Request) where
  abbrev Authentic : List Effect → Type 0
  Authentic log = All (IsAuthentic c r.nar_hash_bytes) log

  Authentic-append : (xs ys : List Effect) → Authentic xs → Authentic ys → Authentic (xs ++ ys)
  Authentic-append = All-append (IsAuthentic c r.nar_hash_bytes)

  reports-Authentic :
      (ps : List (Text × ℕ × ℕ))
      → Authentic (map (λ p. trace (format_trace_progress r.info.store_path p.0 p.1 p.2)) ps)
  reports-Authentic [] = tt
  reports-Authentic (p ∷ ps) = (tt, reports-Authentic ps)

  progress-Authentic : Authentic (progress w r)
  unfolding progress
  progress-Authentic = reports-Authentic w.http_progress

  try_http-Authentic : (detail : Text) → Authentic (try_http c config w r detail).0
  unfolding try_http
  try_http-Authentic detail = (tt, progress-Authentic)

  or_http-Authentic : (got : Option DownloadedNar) → Authentic (or_http c config w r got).0
  unfolding or_http
  or_http-Authentic (some nar) = (tt, tt)
  or_http-Authentic none = (
    tt,
    Authentic-append (try_http c config w r (chars "http-fallback")).0
        (phase (c.hex r.nar_hash_bytes) (chars "http_download") ∷ [])
        (try_http-Authentic (chars "http-fallback")) (refl, tt),
  )

  or_p2p-Authentic :
      (sent : List Effect) (got : Option DownloadedNar)
      → Authentic sent
      → Authentic (or_p2p c config w r sent got).0
  unfolding or_p2p
  or_p2p-Authentic sent (some nar) h = Authentic-append sent (_ ∷ []) h (refl, tt)
  or_p2p-Authentic sent none h = Authentic-append sent (_ ∷ []) h (tt, tt)

  fetch-Authentic : (policy : SubstitutePolicy) → Authentic (fetch c config w r policy).0
  unfolding fetch
  fetch-Authentic p2p_only = (tt, tt)
  fetch-Authentic p2p_first = or_http-Authentic _
  fetch-Authentic http_first =
      or_p2p-Authentic (try_http c config w r (chars "http-first")).0 _
        (try_http-Authentic (chars "http-first"))

  module _ (nar : Bytes) (h : c.sha256 nar ≡ r.nar_hash_bytes) where
    socket-Authentic : (a b d : Bool) → Authentic (deliver_socket c config w r a b d nar).0
    unfolding deliver_socket
    socket-Authentic false b d = (tt, (refl, tt))
    socket-Authentic true false d = (tt, (refl, tt))
    socket-Authentic true true false = (tt, (h, (refl, tt)))
    socket-Authentic true true true = (tt, (h, tt))

    direct-Authentic : (a b : Bool) → Authentic (deliver_direct c config w r a b nar).0
    unfolding deliver_direct
    direct-Authentic false b = (h, (tt, (refl, tt)))
    direct-Authentic true false = (h, (h, (tt, (refl, tt))))
    direct-Authentic true true = (h, (h, tt))

    deliver-Authentic : (mode : Bool) → Authentic (deliver c config w r mode nar).0
    unfolding deliver
    deliver-Authentic true = socket-Authentic w.writer_present w.flushes w.streams
    deliver-Authentic false = direct-Authentic w.temporary_written w.restores

  emit-Authentic :
      (s : State) (sent : List Effect)
      → Authentic s.log
      → Authentic sent
      → Authentic (emit s sent).log
  unfolding emit
  emit-Authentic s sent h t = Authentic-append s.log sent h t

  -- A step that returns a state whose log is authentic.
  abbrev Safe : Outcome State → Type 0
  Safe o = (t : State) → o ≡ returns t → Authentic t.log

  returns-Safe : (s : State) → Authentic s.log → Safe (returns s)
  returns-Safe s h t e =
      let same : s ≡ t = ground arith in subst (λ (x : State). Authentic x.log) same h

  after_save-Authentic :
      (nar : Bytes) (saved : Option (NarStore × Files × Bool)) (s t : State)
      → Authentic s.log
      → after_save c config w r nar saved s ≡ some t
      → Authentic t.log
  unfolding after_save
  after_save-Authentic nar none s t h e = absurd (ground arith)
  after_save-Authentic nar (some (store', files', false)) s t h e =
      let same : record s { store = store'; files = files' } ≡ t = ground arith in
      subst (λ (x : State). Authentic x.log) same h
  after_save-Authentic nar (some (store', files', true)) s t h e =
      let s' : State = record s { store = store'; files = files' } in
      let k = c.hex r.nar_hash_bytes in
      let sent = start_providing k ∷ seed_added k r.info.store_path (length nar) ∷ [] in
      let same : emit s' sent ≡ t = ground arith in
      subst (λ (x : State). Authentic x.log) same (emit-Authentic s' sent h (refl, (refl, tt)))

  seed_if-Authentic :
      (format : MetadataFormat) (wanted held : Bool) (nar : Bytes) (s t : State)
      → Authentic s.log
      → seed_if c config w r format wanted held nar s ≡ some t
      → Authentic t.log
  unfolding seed_if
  seed_if-Authentic format false held nar s t h e =
      let same : s ≡ t = ground arith in subst (λ (x : State). Authentic x.log) same h
  seed_if-Authentic format true true nar s t h e =
      let same : s ≡ t = ground arith in subst (λ (x : State). Authentic x.log) same h
  seed_if-Authentic format true false nar s t h e = after_save-Authentic nar _ s t h e

  module _ (nar : DownloadedNar) (h : c.sha256 nar.content ≡ r.nar_hash_bytes) where
    conclude-Safe :
        (got : Option State)
        → ((s : State) → got ≡ some s → Authentic s.log)
        → Safe (conclude c config w r nar got)
    unfolding conclude mark_downloaded
    conclude-Safe none a = λ t e. absurd (ground arith)
    conclude-Safe (some s) a = returns-Safe _ (
        emit-Authentic (mark_downloaded c config w r (length nar.content) s) _ (a s refl)
          (refl, (refl, (tt, ((nar.content, h, refl, refl), tt)))))

    after_deliver-Safe :
        (format : MetadataFormat) (sent : List Effect) (done : Bool) (s : State)
        → Authentic s.log
        → Authentic sent
        → Safe (after_deliver c config w r format nar (sent, done) s)
    unfolding after_deliver seed
    after_deliver-Safe format sent false s a b =
        returns-Safe _ (emit-Authentic s (_ ∷ sent) a (refl, b))
    after_deliver-Safe format sent true s a b =
        let verify : List Effect = phase (c.hex r.nar_hash_bytes) (chars "verify") ∷ sent in
        let imported : List Effect = phase (c.hex r.nar_hash_bytes) (chars "import") ∷ [] in
        conclude-Safe _ (λ u e.
          seed_if-Authentic format _ _ nar.content (emit (emit s verify) imported) u
            (emit-Authentic (emit s verify) imported (emit-Authentic s verify a (refl, b))
              (refl, tt))
            e)

  checked-Safe :
      (format : MetadataFormat) (agrees : Bool) (nar : DownloadedNar) (s : State)
      → eq_ignore_ascii_case (c.hex r.nar_hash_bytes) (c.hex (c.sha256 nar.content)) ≡ agrees
      → Authentic s.log
      → Safe (checked c config w r format agrees nar s)
  unfolding checked
  checked-Safe format false nar s e a = returns-Safe _ (
      emit-Authentic s _ a
        (tt, (refl, ((refl, other_hash c r.nar_hash_bytes (c.sha256 nar.content) e), tt))))
  checked-Safe format true nar s e a =
      let h : c.sha256 nar.content ≡ r.nar_hash_bytes =
        sym (same_hash c r.nar_hash_bytes (c.sha256 nar.content) e) in
      after_deliver-Safe nar h format _ _ s a (deliver-Authentic nar.content h r.socket_mode)

  finish-Safe :
      (format : MetadataFormat) (got : Option DownloadedNar) (s : State)
      → Authentic s.log
      → Safe (finish c config w r format got s)
  unfolding finish
  finish-Safe format none s a = returns-Safe _ (emit-Authentic s _ a (refl, (tt, tt)))
  finish-Safe format (some nar) s a = checked-Safe format _ nar s refl a

  pub serve-Safe :
      (format : MetadataFormat) (s : State) → s.log ≡ [] → Safe (serve c config w r format s)
  unfolding serve observe
  serve-Safe format s empty =
      let k = c.hex r.nar_hash_bytes in
      finish-Safe format _ _ (
        emit-Authentic (observe c config w r s) _
          (Authentic-append s.log
            (build_discovered k r.info.store_path r.info.nar_size
              ∷ phase k (chars "narinfo")
              ∷ catalog_entry r.hash_part r.info.store_path r.info.nar_size k
              ∷ [])
            (subst (λ log. Authentic log) (sym empty) tt) (refl, (refl, (refl, tt))))
          (fetch-Authentic config.substitute_policy))

pub hash-cases :
    (o : Outcome (Option Bytes))
    → (o ≡ panics) ⊎ ((o ≡ returns none) ⊎ ((h : Bytes) × (o ≡ returns (some h))))
hash-cases panics = inl refl
hash-cases (returns none) = inr (inl refl)
hash-cases (returns (some h)) = inr (inr (h, refl))

-- The narinfo's hash, as `try_swarm_substitute` finds it for a store path.
pub record Finds (c : Crypto) (config : Config) (w : World) (cache : NarinfoCache) (path : Text)
    (h : Bytes) : Type 0 where
  pub part : Text
  pub info : Narinfo
  pub parsed : hash_part path ≡ some part
  pub found : find_narinfo config w cache part ≡ some info
  pub decoded : sha256_bytes c info.nar_hash ≡ returns (some h)

-- A substitution that starts with an empty log and does not panic either sends `not-found` and
-- nothing else, or has found a narinfo for the path with a hash that decodes; then every NAR that it
-- streams to the relay, writes or restores has this SHA-256, it advertises this hash alone, and every
-- event with the hash of a NAR names this one, be it of the discovery, the catalogue, a phase, the
-- seeding, a success or a failure; `success` names this hash and the length of a NAR that has it, and
-- `hash-mismatch` names this hash as the expected one and another as the actual, whatever the swarm,
-- the servers and the file system answer.
pub substitute-IsAuthentic :
    (c : Crypto) (format : MetadataFormat) (config : Config) (w : World) (cache : NarinfoCache)
    (socket_mode : Bool) (path dest : Text) (s t : State)
    → s.log ≡ []
    → try_swarm_substitute c format config w cache socket_mode path dest s ≡ returns t
    → (t.log ≡ answer not_found ∷ [])
      ⊎ ((h : Bytes) × Finds c config w cache path h × All (IsAuthentic c h) t.log)
unfolding try_swarm_substitute emit
substitute-IsAuthentic c format config w cache socket_mode path dest s t empty e =
    elim (Option-cases (hash_part path)) [
      | inl bad ↦ inl (ground (arith, empty))
      | inr (part, p) ↦ elim (Option-cases (find_narinfo config w cache part)) [
        | inl missing ↦ inl (ground (arith, empty))
        | inr (info, f) ↦ elim (hash-cases (sha256_bytes c info.nar_hash)) [
          | inl stuck ↦ absurd (ground arith)
          | inr (inl invalid) ↦ inl (ground (arith, empty))
          | inr (inr (h, d)) ↦
              let r : Request = record {
                socket_mode = socket_mode;
                dest = dest;
                hash_part = part;
                info = info;
                nar_hash_bytes = h;
              } in
              let run : serve c config w r format s ≡ returns t = ground arith in
              inr (
                h,
                record { part = part; info = info; parsed = p; found = f; decoded = d },
                serve-Safe c config w r format s empty t run,
              )
        ]
      ]
    ]
