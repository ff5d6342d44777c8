-- ===== src/Query/Answers.antt =====
-- src/daemon.rs: what the relay receives in a query session, command by command.
use guix_p2p.Prelude.{
  some, none, Option, false, inl, inr, ◌⊎◌, Bool-cases, if_either, arith, ◌≡◌, refl, Bool, true,
  List, [], ◌∷◌, nat_eq, text_eq, All,
}
use guix_p2p.Crypto.{Bytes, Text, Crypto}
use guix_p2p.Text.{trim, lines}
use guix_p2p.Config.{Config}
use guix_p2p.Narinfo.{Narinfo}
use guix_p2p.Protocol.{
  has_data, DaemonCommand, parse_command_line, ReplyWriter, write_end, have_paths, info_paths,
  substitute, socket,
}
use guix_p2p.Query.{
  handle_info, handle_have, Moment, QueryState, Handled, write_lines, handled, broken, pending,
}
use guix_p2p.Query.Claims.{IsExpected, Trusts, Unreadable}
use guix_p2p.Query.Have.{Claims, AllExpected, Replied, SomeStarved, handle_have-Replied}
use guix_p2p.Query.Info.{Tells, Informed, handle_info-Informed}
use guix_p2p.Query.Session.{
  moments, Asked, Connected, run_command, send_reply, next_turn, query_loop, closed_by_relay,
  broken_off, unreadable_header, after_reply, no_header, unknown_header, crashed, unfinished,
}

module _ (crypto : Crypto) (is_signed : Narinfo → List Bytes → Bool) (config : Config)
    (acl : List Bytes) (Belongs : Text → Narinfo → Type 0) where
  abbrev pub StateTrusts : QueryState → Type 0
  StateTrusts s = Trusts crypto is_signed config true acl Belongs s

  -- The ACL and the servers are as expected while any of the lines is handled.
  abbrev pub AsExpected : List Asked → Type 0
  AsExpected lines =
      All
        (λ (a : Asked).
          (path : Text) → IsExpected crypto is_signed config true acl Belongs (a.moment path))
        lines

  -- The reply to one command, in a fresh buffer.
  abbrev pub ReplyTo : (Text → Moment) → DaemonCommand → ReplyWriter → Type 0
  ReplyTo moment (have_paths paths) reply =
      (lines : List Text) × Claims crypto is_signed config true acl Belongs (moments moment paths)
        lines
      × (reply ≡ write_end (write_lines (socket []) lines))
  ReplyTo moment (info_paths paths) reply =
      (lines : List Text) × Tells crypto is_signed config true acl Belongs (moments moment paths)
        lines
      × (reply ≡ write_end (write_lines (socket []) lines))
  ReplyTo moment (substitute path dest) reply = reply ≡ socket []

  -- Why a command does not return.
  abbrev pub WaitsOn : (Text → Moment) → DaemonCommand → Type 0
  WaitsOn moment (have_paths paths) =
      SomeStarved crypto is_signed config true acl Belongs (moments moment paths)
  WaitsOn moment (info_paths paths) = ⊥
  WaitsOn moment (substitute path dest) = ⊥

  abbrev Ran : (Text → Moment) → DaemonCommand → Handled → Type 0
  Ran moment command (handled t) = StateTrusts t × ReplyTo moment command t.reply
  Ran moment command broken = Unreadable crypto is_signed config true acl Belongs
  Ran moment command pending = WaitsOn moment command

  moments-AllExpected :
      (moment : Text → Moment) (paths : List Text)
      → ((path : Text) → IsExpected crypto is_signed config true acl Belongs (moment path))
      → AllExpected crypto is_signed config true acl Belongs (moments moment paths)
  moments-AllExpected moment [] k = tt
  moments-AllExpected moment (path ∷ paths) k = (k path, moments-AllExpected moment paths k)

  have-Ran :
      (moment : Text → Moment) (paths : List Text) (h : Handled)
      → Replied crypto is_signed config true acl Belongs write_end
          (socket [])
          (moments moment paths)
          h
      → Ran moment (have_paths paths) h
  have-Ran moment paths (handled t) (trusts, lines, c, r) = (trusts, (lines, c, r))
  have-Ran moment paths broken r = r
  have-Ran moment paths pending r = r

  info-Ran :
      (moment : Text → Moment) (paths : List Text) (h : Handled)
      → Informed crypto is_signed config true acl Belongs write_end
          (socket [])
          (moments moment paths)
          h
      → Ran moment (info_paths paths) h
  info-Ran moment paths (handled t) (trusts, lines, c, r) = (trusts, (lines, c, r))
  info-Ran moment paths broken r = r
  info-Ran moment paths pending r = r

  run_command-Ran :
      (moment : Text → Moment) (command : DaemonCommand) (s : QueryState)
      → ((path : Text) → IsExpected crypto is_signed config true acl Belongs (moment path))
      → StateTrusts s
      → Ran moment command
          (run_command crypto is_signed config true (record s { reply = socket [] }) moment command)
  unfolding run_command
  run_command-Ran moment (have_paths paths) s k h =
      let asked_paths = moments moment paths in
      let start = record s { reply = socket [] } in
      have-Ran moment paths (handle_have crypto is_signed config true start asked_paths) (
        handle_have-Replied crypto is_signed config true acl Belongs asked_paths start
          (moments-AllExpected moment paths k) h)
  run_command-Ran moment (info_paths paths) s k h =
      let asked_paths = moments moment paths in
      let start = record s { reply = socket [] } in
      info-Ran moment paths (handle_info crypto is_signed config true start asked_paths) (
        handle_info-Informed crypto is_signed config true acl Belongs asked_paths start
          (moments-AllExpected moment paths k) h)
  run_command-Ran moment (substitute path dest) s k h = (h, refl)

  -- The lines take the socket from one text to another.
  pub data Answers : Text → List Asked → Text → Type 0 where
    all_answered : {sent : Text} → Answers sent [] sent
    answered :
        {sent sent' out : Text} {a : Asked} {rest : List Asked} (reply : ReplyWriter)
        → ReplyTo a.moment (parse_command_line (trim a.line)) reply
        → send_reply crypto is_signed a.delivered reply sent ≡ some out
        → Answers out rest sent'
        → Answers sent (a ∷ rest) sent'

  -- The lines before one that does not arrive, or whose reply is not delivered, take the socket from one
  -- text to another.
  pub data BreaksOff : Text → List Asked → Text → Type 0 where
    breaks_here :
        {sent : Text} {a : Asked} {rest : List Asked}
        → (a.arrives ≡ false) ⊎ (a.delivered ≡ false)
        → BreaksOff sent (a ∷ rest) sent
    breaks_later :
        {sent sent' out : Text} {a : Asked} {rest : List Asked} (reply : ReplyWriter)
        → ReplyTo a.moment (parse_command_line (trim a.line)) reply
        → send_reply crypto is_signed a.delivered reply sent ≡ some out
        → BreaksOff out rest sent'
        → BreaksOff sent (a ∷ rest) sent'

  -- One of the commands still waits.
  pub data SomeWaits : List Asked → Type 0 where
    waits_here :
        {a : Asked} {rest : List Asked}
        → WaitsOn a.moment (parse_command_line (trim a.line))
        → SomeWaits (a ∷ rest)
    waits_later : {a : Asked} {rest : List Asked} → SomeWaits rest → SomeWaits (a ∷ rest)

  abbrev pub Session : Text → List Asked → Connected QueryState → Type 0
  Session sent lines (closed_by_relay t sent') = StateTrusts t × Answers sent lines sent'
  Session sent lines (broken_off t sent') = StateTrusts t × BreaksOff sent lines sent'
  Session sent lines no_header = ⊥
  Session sent lines unreadable_header = ⊥
  Session sent lines (unknown_header h) = ⊥
  Session sent lines crashed = Unreadable crypto is_signed config true acl Belongs
  Session sent lines unfinished = SomeWaits lines

  answered-Session :
      (sent out : Text) (a : Asked) (rest : List Asked) (reply : ReplyWriter)
      (c : Connected QueryState)
      → ReplyTo a.moment (parse_command_line (trim a.line)) reply
      → send_reply crypto is_signed a.delivered reply sent ≡ some out
      → Session out rest c
      → Session sent (a ∷ rest) c
  answered-Session sent out a rest reply (closed_by_relay t sent') r e (trusts, more) =
      (trusts, answered reply r e more)
  answered-Session sent out a rest reply (broken_off t sent') r e (trusts, more) =
      (trusts, breaks_later reply r e more)
  answered-Session sent out a rest reply no_header r e s = s
  answered-Session sent out a rest reply unreadable_header r e s = s
  answered-Session sent out a rest reply (unknown_header h) r e s = s
  answered-Session sent out a rest reply crashed r e s = s
  answered-Session sent out a rest reply unfinished r e s = waits_later s

  -- Only a write that fails is not delivered.
  send_reply-none :
      (delivered : Bool) (reply : ReplyWriter) (sent : Text)
      → send_reply crypto is_signed delivered reply sent ≡ none
      → delivered ≡ false
  unfolding send_reply
  send_reply-none true reply sent e = elim (Bool-cases (has_data reply)) [
    | inl data_there ↦ absurd (ground (arith, e, data_there))
    | inr no_data ↦ absurd (ground (arith, e, no_data))
  ]
  send_reply-none false reply sent e = refl

  after_reply-Session :
      (more : QueryState → Text → Connected QueryState) (sent : Text) (a : Asked)
      (rest : List Asked) (t : QueryState) (o : Option Text)
      → ((t : QueryState) (out : Text) → StateTrusts t → Session out rest (more t out))
      → StateTrusts t
      → ReplyTo a.moment (parse_command_line (trim a.line)) t.reply
      → send_reply crypto is_signed a.delivered t.reply sent ≡ o
      → Session sent (a ∷ rest) (after_reply crypto is_signed more t sent o)
  unfolding after_reply
  after_reply-Session more sent a rest t none next trusts r e =
      (trusts, breaks_here (inr (send_reply-none a.delivered t.reply sent e)))
  after_reply-Session more sent a rest t (some out) next trusts r e =
      answered-Session sent out a rest t.reply (more t out) r e (next t out trusts)

  next_turn-Session :
      (more : QueryState → Text → Connected QueryState) (sent : Text) (a : Asked)
      (rest : List Asked) (h : Handled)
      → ((t : QueryState) (out : Text) → StateTrusts t → Session out rest (more t out))
      → Ran a.moment (parse_command_line (trim a.line)) h
      → Session sent (a ∷ rest) (next_turn crypto is_signed more a.delivered h sent)
  unfolding next_turn
  next_turn-Session more sent a rest (handled t) next (trusts, r) =
      after_reply-Session more sent a rest t (send_reply crypto is_signed a.delivered t.reply sent)
        next trusts r refl
  next_turn-Session more sent a rest broken next r = r
  next_turn-Session more sent a rest pending next r = waits_here r

  -- Every command of the session is answered under the configuration.
  pub query_loop-Session :
      (lines : List Asked) (s : QueryState) (sent : Text)
      → AsExpected lines
      → StateTrusts s
      → Session sent lines (query_loop crypto is_signed config s sent lines)
  unfolding query_loop
  query_loop-Session [] s sent k h = (h, all_answered)
  query_loop-Session (a ∷ lines) s sent (expected, k) h =
      if_either (Session sent (a ∷ lines)) a.arrives
        (λ here.
          next_turn-Session (λ t out. query_loop crypto is_signed config t out lines) sent a lines _
            (λ t out trusts. query_loop-Session lines t out k trusts)
            (run_command-Ran a.moment (parse_command_line (trim a.line)) s expected h))
        (λ fails. (h, breaks_here (inl fails)))
