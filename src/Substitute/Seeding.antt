-- ===== src/Substitute/Seeding.antt =====
-- What a substitution (src/daemon.rs) does to the NAR store.
use guix_p2p.Prelude.{
  ◌≡◌, refl, sym, ap, subst, inl, inr, Bool, true, false, Option, none, some, List, [], ◌∷◌, arith,
  Option-cases, nat_eq, text_eq, Outcome, returns, length,
}
use guix_p2p.Crypto.{Bytes, Text, Crypto}
use guix_p2p.Text.{chars, eq_ignore_ascii_case}
use guix_p2p.NarHash.{sha256_bytes}
use guix_p2p.Config.{Config}
use guix_p2p.StorePath.{hash_part}
use guix_p2p.Narinfo.{NarinfoCache}
use guix_p2p.NarStore.{NarStore, Files, MetadataFormat, has_nar, save_with_store_path, downloaded}
use guix_p2p.NarStore.Soundness.{IsSound, save-IsSound}
use guix_p2p.Substitute.{
  DownloadedNar, Effect, World, State, Request, emit, after_save, seed_if, seed, mark_downloaded,
  conclude, after_deliver, checked, finish, observe, serve, find_narinfo, try_swarm_substitute,
  not_found, answer, phase, seed_added, start_providing,
}
use guix_p2p.Substitute.Authentic.{hash-cases, same_hash}

module _ (c : Crypto) (config : Config) (w : World) (r : Request) where
  abbrev Sound : State → Type 0
  Sound s = IsSound c s.store s.files

  abbrev Keeps : Outcome State → Type 0
  Keeps o = (t : State) → o ≡ returns t → Sound t

  returns-Keeps : (s : State) → Sound s → Keeps (returns s)
  returns-Keeps s h t e = let same : s ≡ t = ground arith in subst (λ (x : State). Sound x) same h

  after_save-Sound :
      (nar : Bytes) (saved : Option (NarStore × Files × Bool)) (s t : State)
      → ((store' : NarStore) (files' : Files) (ok : Bool)
          → saved ≡ some (store', files', ok)
          → IsSound c store' files')
      → after_save c config w r nar saved s ≡ some t
      → Sound t
  unfolding after_save emit
  after_save-Sound nar none s t h e = absurd (ground arith)
  after_save-Sound nar (some (store', files', false)) s t h e =
      let same : record s { store = store'; files = files' } ≡ t = ground arith in
      subst (λ (x : State). Sound x) same (h store' files' false refl)
  after_save-Sound nar (some (store', files', true)) s t h e =
      let s' : State = record s { store = store'; files = files' } in
      let k = c.hex r.nar_hash_bytes in
      let sent = start_providing k ∷ seed_added k r.info.store_path (length nar) ∷ [] in
      let same : emit s' sent ≡ t = ground arith in
      subst (λ (x : State). Sound x) same (h store' files' true refl)

  seed_if-Sound :
      (format : MetadataFormat) (wanted held : Bool) (nar : Bytes) (s t : State)
      → Sound s
      → c.sha256 nar ≡ r.nar_hash_bytes
      → has_nar s.store (c.hex r.nar_hash_bytes) ≡ held
      → seed_if c config w r format wanted held nar s ≡ some t
      → Sound t
  unfolding seed_if save_with_store_path
  seed_if-Sound format false held nar s t h a there e =
      let same : s ≡ t = ground arith in subst (λ (x : State). Sound x) same h
  seed_if-Sound format true true nar s t h a there e =
      let same : s ≡ t = ground arith in subst (λ (x : State). Sound x) same h
  seed_if-Sound format true false nar s t h a free e =
      after_save-Sound nar _ s t
        (λ store' files' ok saved.
          save-IsSound c format w.nar_outcome w.meta_outcome w.now s.store store' s.files files'
            (c.hex r.nar_hash_bytes) nar (some r.info.store_path) downloaded ok h free (ap c.hex a)
            saved)
        e

  conclude-Keeps :
      (nar : DownloadedNar) (got : Option State)
      → ((s : State) → got ≡ some s → Sound s)
      → Keeps (conclude c config w r nar got)
  unfolding conclude mark_downloaded emit
  conclude-Keeps nar none h = λ t e. absurd (ground arith)
  conclude-Keeps nar (some s) h = returns-Keeps _ (h s refl)

  after_deliver-Keeps :
      (format : MetadataFormat) (nar : DownloadedNar) (sent : List Effect) (done : Bool) (s : State)
      → Sound s
      → c.sha256 nar.content ≡ r.nar_hash_bytes
      → Keeps (after_deliver c config w r format nar (sent, done) s)
  unfolding after_deliver seed emit
  after_deliver-Keeps format nar sent false s h a = returns-Keeps (emit s _) h
  after_deliver-Keeps format nar sent true s h a =
      let verify : List Effect = phase (c.hex r.nar_hash_bytes) (chars "verify") ∷ sent in
      let imported : List Effect = phase (c.hex r.nar_hash_bytes) (chars "import") ∷ [] in
      conclude-Keeps nar _ (λ u run.
        seed_if-Sound format _ _ nar.content (emit (emit s verify) imported) u h a refl run)

  checked-Keeps :
      (format : MetadataFormat) (agrees : Bool) (nar : DownloadedNar) (s : State)
      → eq_ignore_ascii_case (c.hex r.nar_hash_bytes) (c.hex (c.sha256 nar.content)) ≡ agrees
      → Sound s
      → Keeps (checked c config w r format agrees nar s)
  unfolding checked emit
  checked-Keeps format false nar s e h = returns-Keeps (emit s _) h
  checked-Keeps format true nar s e h =
      after_deliver-Keeps format nar _ _ s h
        (sym (same_hash c r.nar_hash_bytes (c.sha256 nar.content) e))

  finish-Keeps :
      (format : MetadataFormat) (got : Option DownloadedNar) (s : State)
      → Sound s
      → Keeps (finish c config w r format got s)
  unfolding finish emit
  finish-Keeps format none s h = returns-Keeps (emit s _) h
  finish-Keeps format (some nar) s h = checked-Keeps format _ nar s refl h

  pub serve-Keeps :
      (format : MetadataFormat) (s : State) → Sound s → Keeps (serve c config w r format s)
  unfolding serve observe emit
  serve-Keeps format s h = finish-Keeps format _ (emit (observe c config w r s) _) h

refused :
    (c : Crypto) (s t : State)
    → IsSound c s.store s.files
    → emit s (answer not_found ∷ []) ≡ t
    → IsSound c t.store t.files
unfolding emit
refused c s t h e = subst (λ (x : State). IsSound c x.store x.files) e h

-- A substitution that does not panic keeps the seeder's store sound: what it saves for re-seeding has
-- the hash it is filed under, whatever the download brought and wherever a write stopped.
pub substitute-IsSound :
    (c : Crypto) (format : MetadataFormat) (config : Config) (w : World) (cache : NarinfoCache)
    (socket_mode : Bool) (path dest : Text) (s t : State)
    → IsSound c s.store s.files
    → try_swarm_substitute c format config w cache socket_mode path dest s ≡ returns t
    → IsSound c t.store t.files
unfolding try_swarm_substitute emit
substitute-IsSound c format config w cache socket_mode path dest s t h e =
    elim (Option-cases (hash_part path)) [
      | inl bad ↦ refused c s t h (ground arith)
      | inr (part, p) ↦ elim (Option-cases (find_narinfo config w cache part)) [
        | inl missing ↦ refused c s t h (ground arith)
        | inr (info, f) ↦ elim (hash-cases (sha256_bytes c info.nar_hash)) [
          | inl stuck ↦ absurd (ground arith)
          | inr (inl invalid) ↦ refused c s t h (ground arith)
          | inr (inr (n, d)) ↦
              let r : Request = record {
                socket_mode = socket_mode;
                dest = dest;
                hash_part = part;
                info = info;
                nar_hash_bytes = n;
              } in
              let run : serve c config w r format s ≡ returns t = ground arith in
              serve-Keeps c config w r format s h t run
        ]
      ]
    ]
