-- ===== src/Query/Info.antt =====
-- src/daemon.rs: the reply of `handle_info` to a whole command.
use guix_p2p.Prelude.{
  ◌≡◌, refl, sym, ap, ◌∙◌, ◌⊎◌, inl, inr, Bool, Option, none, some, List, [], ◌∷◌, ◌++◌, nat_eq,
  text_eq, Outcome, panics, returns,
}
use guix_p2p.Crypto.{Bytes, Text, Crypto}
use guix_p2p.Config.{SubstitutePolicy, Config, p2p_only, p2p_first, http_first}
use guix_p2p.StorePath.{hash_part}
use guix_p2p.NarHash.{sha256_bytes}
use guix_p2p.Narinfo.{Narinfo, get}
use guix_p2p.Protocol.{ReplyWriter, write_line, write_end}
use guix_p2p.Http.Fetch.{FetchResult, Gives, found, fetch_failed}
use guix_p2p.Query.{
  fetch_for, Moment, QueryState, Handled, write_lines, end_of, info_lines, publish, answer_info,
  info_found, info_by, info_path, info_all, handle_info, handled, broken, pending,
}
use guix_p2p.Query.Claims.{IsGood, IsExpected, Trusts, Unreadable, fetch_trusted}
use guix_p2p.Query.Have.{AllExpected}

write_lines-append :
    (a b : List Text) (w : ReplyWriter) → write_lines w (a ++ b) ≡ write_lines (write_lines w a) b
unfolding write_lines
write_lines-append [] b w = refl
write_lines-append (l ∷ a) b w = write_lines-append a b (write_line w l)

module _ (crypto : Crypto) (is_signed : Narinfo → List Bytes → Bool) (config : Config)
    (event_tx : Bool) (acl : List Bytes) (Belongs : Text → Narinfo → Type 0) where
  -- The lines are those of good narinfos for the hash parts of paths, at most one for each path.
  pub data Tells : List (Text × Moment) → List Text → Type 0 where
    no_paths : Tells [] []
    passes :
        {p : Text × Moment} {rest : List (Text × Moment)} {lines : List Text}
        → Tells rest lines
        → Tells (p ∷ rest) lines
    tells :
        {p : Text × Moment} {rest : List (Text × Moment)} {lines : List Text} (part : Text)
        (info : Narinfo)
        → hash_part p.0 ≡ some part
        → IsGood crypto is_signed config event_tx acl Belongs part info
        → Tells rest lines
        → Tells (p ∷ rest) (info_lines info ++ lines)

  -- One path adds nothing, or the lines of a narinfo.
  abbrev Told : Option Text → QueryState → Handled → Type 0
  Told part s (handled t) =
      Trusts crypto is_signed config event_tx acl Belongs t
      × ((t.reply ≡ s.reply)
          ⊎ ((k : Text) × (info : Narinfo) × (part ≡ some k)
              × IsGood crypto is_signed config event_tx acl Belongs k info
              × (t.reply ≡ write_lines s.reply (info_lines info))))
  Told part s broken = Unreadable crypto is_signed config event_tx acl Belongs
  Told part s pending = ⊥

  answer_info-Told :
      (part : Text) (s : QueryState) (info : Narinfo) (o : Outcome (Option Bytes))
      → Trusts crypto is_signed config event_tx acl Belongs s
      → IsGood crypto is_signed config event_tx acl Belongs part info
      → sha256_bytes crypto info.nar_hash ≡ o
      → Told (some part) s (answer_info crypto is_signed config event_tx part s info o)
  unfolding answer_info publish
  answer_info-Told part s info panics h signed e = record {
    part = part;
    info = info;
    good = signed;
    crashes = e;
  }
  answer_info-Told part s info (returns none) h signed e = (h, inl refl)
  answer_info-Told part s info (returns (some bytes)) h signed e =
      (h, inr (part, info, refl, signed, refl))

  module _ (m : Moment) (expected : IsExpected crypto is_signed config event_tx acl Belongs m) where
    info_found-Told :
        (part : Text) (s : QueryState) (r : FetchResult)
        → Trusts crypto is_signed config event_tx acl Belongs s
        → Gives m.request is_signed (IsGood crypto is_signed config event_tx acl Belongs part) r
        → Told (some part) s (info_found crypto is_signed config event_tx part s r)
    unfolding info_found
    info_found-Told part s (fetch_failed e) h signed = (h, inl refl)
    info_found-Told part s (found info) h signed =
        answer_info-Told part s info (sha256_bytes crypto info.nar_hash) h signed refl

    -- The narinfo from the servers.
    fetched-Told :
        (part : Text) (s : QueryState)
        → Trusts crypto is_signed config event_tx acl Belongs s
        → let t = fetch_for crypto is_signed config event_tx m s part in
          Told
            (some part)
            s
            (info_found crypto is_signed config event_tx part (record s { cache = t.0 }) t.1)
    fetched-Told part s h =
        let (h', signed) =
          fetch_trusted crypto is_signed config event_tx acl Belongs m expected s part h in
        let (cache', r) = fetch_for crypto is_signed config event_tx m s part in
        info_found-Told part (record s { cache = cache' }) r h' signed

    info_by-Told :
        (policy : SubstitutePolicy) (part : Text) (s : QueryState) (c : Option Narinfo)
        (local : Option Text)
        → get m.now s.cache part ≡ c
        → Trusts crypto is_signed config event_tx acl Belongs s
        → Told (some part) s (info_by crypto is_signed config event_tx policy part m s c local)
    unfolding info_by
    info_by-Told p2p_only part s (some info) local e h =
        info_found-Told part s (found info) h (h m.now part info e)
    info_by-Told p2p_only part s none local e h = (h, inl refl)
    info_by-Told p2p_first part s (some info) local e h =
        info_found-Told part s (found info) h (h m.now part info e)
    info_by-Told p2p_first part s none (some _) e h = (h, inl refl)
    info_by-Told p2p_first part s none none e h = fetched-Told part s h
    info_by-Told http_first part s (some info) local e h =
        info_found-Told part s (found info) h (h m.now part info e)
    info_by-Told http_first part s none (some _) e h = (h, inl refl)
    info_by-Told http_first part s none none e h = fetched-Told part s h

    info_path-Told :
        (part : Option Text) (s : QueryState)
        → Trusts crypto is_signed config event_tx acl Belongs s
        → Told part s (info_path crypto is_signed config event_tx part m s)
    unfolding info_path
    info_path-Told none s h = (h, inl refl)
    info_path-Told (some part) s h =
        info_by-Told config.substitute_policy part s (get m.now s.cache part)
          config.local_narinfo_path refl h

  -- The state after a call that has written the lines with `close` behind them.
  abbrev pub Informed :
      (ReplyWriter → ReplyWriter) → ReplyWriter → List (Text × Moment) → Handled → Type 0
  Informed close before paths (handled t) =
      Trusts crypto is_signed config event_tx acl Belongs t
      × (lines : List Text) × Tells paths lines
      × (t.reply ≡ close (write_lines before lines))
  Informed close before paths broken = Unreadable crypto is_signed config event_tx acl Belongs
  Informed close before paths pending = ⊥

  passes-Informed :
      (before after : ReplyWriter) (p : Text × Moment) (paths : List (Text × Moment)) (h : Handled)
      → after ≡ before
      → Informed (λ w. w) after paths h
      → Informed (λ w. w) before (p ∷ paths) h
  passes-Informed before after p paths (handled t) e (trusts, lines, c, r) =
      (trusts, lines, passes c, r ∙ ap (λ w. write_lines w lines) e)
  passes-Informed before after p paths broken e r = r
  passes-Informed before after p paths pending e r = r

  tells-Informed :
      (before after : ReplyWriter) (p : Text × Moment) (paths : List (Text × Moment)) (part : Text)
      (info : Narinfo) (h : Handled)
      → hash_part p.0 ≡ some part
      → IsGood crypto is_signed config event_tx acl Belongs part info
      → after ≡ write_lines before (info_lines info)
      → Informed (λ w. w) after paths h
      → Informed (λ w. w) before (p ∷ paths) h
  tells-Informed before after p paths part info (handled t) parsed signed e (trusts, lines, c, r) =
      (
        trusts,
        info_lines info ++ lines,
        tells part info parsed signed c,
        r
            ∙ ap (λ w. write_lines w lines) e
            ∙ sym (write_lines-append (info_lines info) lines before),
      )
  tells-Informed before after p paths part info broken parsed signed e r = r
  tells-Informed before after p paths part info pending parsed signed e r = r

  info_rest-Informed :
      (p : Text × Moment) (paths : List (Text × Moment)) (s : QueryState) (h : Handled)
      → ((t : QueryState)
          → Trusts crypto is_signed config event_tx acl Belongs t
          → Informed
              (λ w. w)
              t.reply
              paths
              (info_all crypto is_signed config event_tx (handled t) paths))
      → Told (hash_part p.0) s h
      → Informed (λ w. w) s.reply (p ∷ paths) (info_all crypto is_signed config event_tx h paths)
  unfolding info_all
  info_rest-Informed p paths s broken more a = a
  info_rest-Informed p paths s pending more a = a
  info_rest-Informed p paths s (handled t) more (trusts, inl e) =
      passes-Informed s.reply t.reply p paths
        (info_all crypto is_signed config event_tx (handled t) paths) e (more t trusts)
  info_rest-Informed p paths s (handled t) more (trusts, inr (part, info, parsed, signed, e)) =
      tells-Informed s.reply t.reply p paths part info
        (info_all crypto is_signed config event_tx (handled t) paths) parsed signed e
        (more t trusts)

  info_all-Informed :
      (paths : List (Text × Moment)) (s : QueryState)
      → AllExpected crypto is_signed config event_tx acl Belongs paths
      → Trusts crypto is_signed config event_tx acl Belongs s
      → Informed
          (λ w. w)
          s.reply
          paths
          (info_all crypto is_signed config event_tx (handled s) paths)
  unfolding info_all write_lines
  info_all-Informed [] s k h = (h, [], no_paths, refl)
  info_all-Informed ((path, m) ∷ paths) s (expected, k) h =
      info_rest-Informed (path, m) paths s
        (info_path crypto is_signed config event_tx (hash_part path) m s)
        (λ t trusts. info_all-Informed paths t k trusts)
        (info_path-Told m expected (hash_part path) s h)

  end_of-Informed :
      (before : ReplyWriter) (paths : List (Text × Moment)) (h : Handled)
      → Informed (λ w. w) before paths h
      → Informed write_end before paths (end_of h)
  unfolding end_of
  end_of-Informed before paths (handled t) (trusts, lines, c, r) =
      (trusts, lines, c, ap write_end r)
  end_of-Informed before paths broken r = r
  end_of-Informed before paths pending r = r

  -- `handle_info` always ends. Its reply has, for some of the requested paths in their order, all the
  -- lines of one narinfo that belongs to the hash part of the path and has a signature by a key of the
  -- ACL, and the end marker, and nothing else; and the cache has such narinfos only. It panics only on
  -- such a narinfo whose NAR hash makes `sha256_bytes` panic. The conditions: the ACL has the same keys
  -- throughout, and the cache and the servers have only signed narinfos that belong to the hash part for
  -- which they have them.
  pub handle_info-Informed :
      (paths : List (Text × Moment)) (s : QueryState)
      → AllExpected crypto is_signed config event_tx acl Belongs paths
      → Trusts crypto is_signed config event_tx acl Belongs s
      → Informed write_end s.reply paths (handle_info crypto is_signed config event_tx s paths)
  unfolding handle_info
  handle_info-Informed paths s k h =
      end_of-Informed s.reply paths (info_all crypto is_signed config event_tx (handled s) paths)
        (info_all-Informed paths s k h)
