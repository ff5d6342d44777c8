-- ===== src/Query/Have.antt =====
-- src/daemon.rs: the reply of `handle_have` to a whole command.
use guix_p2p.Prelude.{refl, ◌≡◌, ap, ◌∙◌, inl, inr, Bool, List, [], ◌∷◌, nat_eq, text_eq, All}
use guix_p2p.Crypto.{Bytes, Text, Crypto}
use guix_p2p.Config.{Config}
use guix_p2p.StorePath.{hash_part}
use guix_p2p.Narinfo.{Narinfo}
use guix_p2p.Protocol.{write_end, ReplyWriter, write_line}
use guix_p2p.Query.{
  have_path, end_of, handle_have, Moment, QueryState, Handled, write_lines, have_all, handled,
  broken, pending,
}
use guix_p2p.Query.Claims.{
  IsExpected, Starved, Unreadable, have_path-Answer, Trusts, Justified, Answer,
}

module _ (crypto : Crypto) (is_signed : Narinfo → List Bytes → Bool) (config : Config)
    (event_tx : Bool) (acl : List Bytes) (Belongs : Text → Narinfo → Type 0) where
  -- Every path is handled while the ACL and the servers are as expected.
  abbrev pub AllExpected : List (Text × Moment) → Type 0
  AllExpected paths =
      All (λ (p : Text × Moment). IsExpected crypto is_signed config event_tx acl Belongs p.1) paths

  -- The lines are requested paths in their order, each of them justified when it is handled.
  pub data Claims : List (Text × Moment) → List Text → Type 0 where
    no_paths : Claims [] []
    passes :
        {p : Text × Moment} {rest : List (Text × Moment)} {lines : List Text}
        → Claims rest lines
        → Claims (p ∷ rest) lines
    claims :
        {path : Text} {m : Moment} {rest : List (Text × Moment)} {lines : List Text}
        → Justified crypto is_signed config event_tx acl Belongs path m
        → Claims rest lines
        → Claims ((path, m) ∷ rest) (path ∷ lines)

  -- The notices of one of the paths end before its wait.
  pub data SomeStarved : List (Text × Moment) → Type 0 where
    starved_here :
        {path : Text} {m : Moment} {rest : List (Text × Moment)}
        → Starved crypto is_signed config event_tx acl Belongs m
        → SomeStarved ((path, m) ∷ rest)
    starved_later :
        {p : Text × Moment} {rest : List (Text × Moment)}
        → SomeStarved rest
        → SomeStarved (p ∷ rest)

  -- The state after a call that has written the lines with `close` behind them.
  abbrev pub Replied :
      (ReplyWriter → ReplyWriter) → ReplyWriter → List (Text × Moment) → Handled → Type 0
  Replied close before paths (handled t) =
      Trusts crypto is_signed config event_tx acl Belongs t
      × (lines : List Text) × Claims paths lines
      × (t.reply ≡ close (write_lines before lines))
  Replied close before paths broken = Unreadable crypto is_signed config event_tx acl Belongs
  Replied close before paths pending = SomeStarved paths

  -- A path that adds nothing, before the others.
  passes-Replied :
      (before after : ReplyWriter) (p : Text × Moment) (paths : List (Text × Moment)) (h : Handled)
      → after ≡ before
      → Replied (λ w. w) after paths h
      → Replied (λ w. w) before (p ∷ paths) h
  passes-Replied before after p paths (handled t) e (trusts, lines, c, r) =
      (trusts, lines, passes c, r ∙ ap (λ w. write_lines w lines) e)
  passes-Replied before after p paths broken e r = r
  passes-Replied before after p paths pending e r = starved_later r

  claims-Replied :
      (before after : ReplyWriter) (path : Text) (m : Moment) (paths : List (Text × Moment))
      (h : Handled)
      → after ≡ write_line before path
      → Justified crypto is_signed config event_tx acl Belongs path m
      → Replied (λ w. w) after paths h
      → Replied (λ w. w) before ((path, m) ∷ paths) h
  unfolding write_lines
  claims-Replied before after path m paths (handled t) e j (trusts, lines, c, r) =
      (trusts, path ∷ lines, claims j c, r ∙ ap (λ w. write_lines w lines) e)
  claims-Replied before after path m paths broken e j r = r
  claims-Replied before after path m paths pending e j r = starved_later r

  -- The rest of the paths, after one.
  have_rest-Replied :
      (path : Text) (m : Moment) (paths : List (Text × Moment)) (s : QueryState) (h : Handled)
      → ((t : QueryState)
          → Trusts crypto is_signed config event_tx acl Belongs t
          → Replied
              (λ w. w)
              t.reply
              paths
              (have_all crypto is_signed config event_tx (handled t) paths))
      → Answer crypto is_signed config event_tx acl Belongs path m s h
      → Replied
          (λ w. w)
          s.reply
          ((path, m) ∷ paths)
          (have_all crypto is_signed config event_tx h paths)
  unfolding have_all
  have_rest-Replied path m paths s broken more a = a
  have_rest-Replied path m paths s pending more a = starved_here a
  have_rest-Replied path m paths s (handled t) more (trusts, inl e) =
      passes-Replied s.reply t.reply (path, m) paths
        (have_all crypto is_signed config event_tx (handled t) paths) e (more t trusts)
  have_rest-Replied path m paths s (handled t) more (trusts, inr (e, j)) =
      claims-Replied s.reply t.reply path m paths
        (have_all crypto is_signed config event_tx (handled t) paths) e j (more t trusts)

  have_all-Replied :
      (paths : List (Text × Moment)) (s : QueryState)
      → AllExpected paths
      → Trusts crypto is_signed config event_tx acl Belongs s
      → Replied (λ w. w) s.reply paths (have_all crypto is_signed config event_tx (handled s) paths)
  unfolding have_all write_lines
  have_all-Replied [] s k h = (h, [], no_paths, refl)
  have_all-Replied ((path, m) ∷ paths) s (expected, k) h =
      have_rest-Replied path m paths s
        (have_path crypto is_signed config event_tx path (hash_part path) m s)
        (λ t trusts. have_all-Replied paths t k trusts)
        (have_path-Answer crypto is_signed config event_tx acl Belongs m expected path
          (hash_part path) s refl h)

  end_of-Replied :
      (before : ReplyWriter) (paths : List (Text × Moment)) (h : Handled)
      → Replied (λ w. w) before paths h
      → Replied write_end before paths (end_of h)
  unfolding end_of
  end_of-Replied before paths (handled t) (trusts, lines, c, r) = (trusts, lines, c, ap write_end r)
  end_of-Replied before paths broken r = r
  end_of-Replied before paths pending r = r

  -- The reply of `handle_have` has requested paths in their order and the end marker, and nothing else.
  -- Each of the paths has a narinfo with a signature by a key of the ACL that belongs to its hash part,
  -- and under the policy `p2p-only` the wait for the providers of its NAR hash has found as many as
  -- `min_providers` asks for; and the cache has such narinfos only. It panics only on such a narinfo whose
  -- NAR hash makes `sha256_bytes` panic, and does not come to its end only where the notices of a wait do
  -- not. The conditions: the ACL has the same keys throughout, and the cache and the servers have only
  -- signed narinfos that belong to the hash part for which they have them.
  pub handle_have-Replied :
      (paths : List (Text × Moment)) (s : QueryState)
      → AllExpected paths
      → Trusts crypto is_signed config event_tx acl Belongs s
      → Replied write_end s.reply paths (handle_have crypto is_signed config event_tx s paths)
  unfolding handle_have
  handle_have-Replied paths s k h =
      end_of-Replied s.reply paths (have_all crypto is_signed config event_tx (handled s) paths)
        (have_all-Replied paths s k h)
