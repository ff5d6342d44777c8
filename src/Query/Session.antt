-- ===== src/Query/Session.antt =====
-- src/daemon.rs: the connection of a relay to the socket of the daemon (`handle_socket_connection`),
-- and the loop over the standard input (`run_query_mode`). Each line comes with what the world answers
-- while it is handled, which for a command on paths is one moment for each path.
use guix_p2p.Prelude.{
  not, ◌||◌, Bool, true, false, Option, none, some, List, [], ◌∷◌, map, if◌then◌else◌, nat_eq,
  text_beq, text_eq, Outcome, panics, returns,
}
use guix_p2p.Crypto.{Bytes, Text, Crypto}
use guix_p2p.Text.{chars, trim, lines}
use guix_p2p.Config.{Config, p2p_only}
use guix_p2p.Narinfo.{Narinfo, NarinfoCache}
use guix_p2p.Protocol.{
  ReplyWriter, DaemonCommand, parse_command_line, has_data, flush_socket, have_paths, info_paths,
  substitute, socket,
}
use guix_p2p.NarStore.{MetadataFormat}
use guix_p2p.Substitute.{World, State, try_swarm_substitute}
use guix_p2p.Query.{Moment, QueryState, Handled, handle_have, handle_info, handled, broken, pending}

-- A line that arrives, or does not where the read fails or meets no text; and whether the write of the
-- reply to it succeeds.
pub record Asked : Type 0 where
  pub arrives : Bool
  pub delivered : Bool
  pub line : Text
  pub moment : Text → Moment

pub record Wanted : Type 0 where
  pub arrives : Bool
  pub delivered : Bool
  pub line : Text
  pub world : World
  pub cache : NarinfoCache

-- The mode header, and whether it forces `p2p-only`.
pub data SessionMode : Type 0 where
  query_session : Bool → SessionMode
  substitute_session : Bool → SessionMode
  unknown_mode : Text → SessionMode

unfoldable pub session_mode : Text → SessionMode
session_mode mode =
    if text_beq mode (chars "mode: query")
    then query_session false
    else if text_beq mode (chars "mode: query-p2p-only")
    then query_session true
    else if text_beq mode (chars "mode: substitute")
    then substitute_session false
    else if text_beq mode (chars "mode: substitute-p2p-only")
    then substitute_session true
    else unknown_mode mode

unfoldable pub request_config : Config → Bool → Config
request_config config false = config
request_config config true = record config { substitute_policy = p2p_only }

-- What the relay receives, with the state behind it, where the relay ends the session or a read or write
-- of the socket fails; or the error of the header, a panic, or a wait.
pub data Connected {ℓ} (S : Type ℓ) : Type ℓ where
  closed_by_relay : S → Text → Connected S
  broken_off : S → Text → Connected S
  unreadable_header : Connected S
  no_header : Connected S
  unknown_header : Text → Connected S
  crashed : Connected S
  unfinished : Connected S

abbrev pub moments : (Text → Moment) → List Text → List (Text × Moment)
moments moment paths = map (λ path. (path, moment path)) paths

module _ (crypto : Crypto) (is_signed : Narinfo → List Bytes → Bool) where
  unfoldable pub run_command :
      Config → Bool → QueryState → (Text → Moment) → DaemonCommand → Handled
  unfolding handle_have handle_info
  run_command config event_tx s moment (have_paths paths) =
      handle_have crypto is_signed config event_tx s (moments moment paths)
  run_command config event_tx s moment (info_paths paths) =
      handle_info crypto is_signed config event_tx s (moments moment paths)
  run_command config event_tx s moment (substitute path dest) = handled s

  -- The reply is written to the socket if it has any data; `none` is the error of the write.
  unfoldable pub send_reply : Bool → ReplyWriter → Text → Option Text
  unfolding has_data flush_socket
  send_reply delivered reply sent =
      if has_data reply
      then (if delivered then some (flush_socket reply sent).1 else none)
      else some sent

  unfoldable pub after_reply :
      (QueryState → Text → Connected QueryState)
      → QueryState
      → Text
      → Option Text
      → Connected QueryState
  after_reply more s sent none = broken_off s sent
  after_reply more s sent (some sent') = more s sent'

  -- One turn: the state after the command and what the socket has received, if the command returned.
  unfoldable pub next_turn :
      (QueryState → Text → Connected QueryState) → Bool → Handled → Text → Connected QueryState
  unfolding send_reply after_reply
  next_turn more delivered (handled s) sent =
      after_reply more s sent (send_reply delivered s.reply sent)
  next_turn more delivered broken sent = crashed
  next_turn more delivered pending sent = unfinished

  unfoldable pub query_loop : Config → QueryState → Text → List Asked → Connected QueryState
  unfolding parse_command_line run_command next_turn trim
  query_loop config s sent [] = closed_by_relay s sent
  query_loop config s sent (asked ∷ rest) =
      let turn =
        next_turn (λ t sent'. query_loop config t sent' rest) asked.delivered
          (run_command config true (record s { reply = socket [] }) asked.moment
            (parse_command_line (trim asked.line)))
          sent in
      if asked.arrives then turn else broken_off s sent

  -- `run_query_mode`: one writer to the descriptors for all commands; a failed read ends it.
  unfoldable pub continue_query :
      (QueryState → Connected QueryState) → Handled → Connected QueryState
  continue_query more (handled s) = more s
  continue_query more broken = crashed
  continue_query more pending = unfinished

  unfoldable pub run_query_mode : Config → QueryState → List Asked → Connected QueryState
  unfolding parse_command_line run_command continue_query trim
  run_query_mode config s [] = closed_by_relay s []
  run_query_mode config s (asked ∷ rest) =
      let turn =
        continue_query (λ t. run_query_mode config t rest)
          (run_command config false s asked.moment (parse_command_line (trim asked.line))) in
      if asked.arrives then turn else closed_by_relay s []

module _ (crypto : Crypto) (format : MetadataFormat) where
  -- A substitution has answered, so that its reply has data to write.
  unfoldable pub flushed : Bool → Bool → DaemonCommand → Bool
  flushed socket_mode delivered (have_paths paths) = true
  flushed socket_mode delivered (info_paths paths) = true
  flushed socket_mode delivered (substitute path dest) = not socket_mode || delivered

  unfoldable pub continue_substitute :
      (State → Connected State) → Bool → Outcome State → Connected State
  continue_substitute more flushes panics = crashed
  continue_substitute more flushes (returns s) = if flushes then more s else broken_off s []

  -- Only `substitute` does something; what it sends is in the log of the state.
  unfoldable pub run_substitute : Config → Bool → State → Wanted → DaemonCommand → Outcome State
  unfolding try_swarm_substitute
  run_substitute config socket_mode s w (have_paths paths) = returns s
  run_substitute config socket_mode s w (info_paths paths) = returns s
  run_substitute config socket_mode s w (substitute path dest) =
      try_swarm_substitute crypto format config w.world w.cache socket_mode path dest s

  unfoldable pub substitute_loop : Config → Bool → State → List Wanted → Connected State
  unfolding parse_command_line run_substitute continue_substitute flushed trim
  substitute_loop config socket_mode s [] = closed_by_relay s []
  substitute_loop config socket_mode s (w ∷ rest) =
      let command = parse_command_line (trim w.line) in
      let turn =
        continue_substitute (λ t. substitute_loop config socket_mode t rest)
          (flushed socket_mode w.delivered command)
          (run_substitute config socket_mode s w command) in
      if w.arrives then turn else if socket_mode then broken_off s [] else closed_by_relay s []

  -- `run_substitute_mode`
  unfoldable pub run_substitute_mode : Config → State → List Wanted → Connected State
  unfolding substitute_loop
  run_substitute_mode config s lines = substitute_loop config false s lines

-- The first line: the connection is closed before it, its read fails, or it is there.
pub data Header : Type 0 where
  closed_before : Header
  unread_line : Header
  header_line : Text → Header

-- The two kinds of session that a connection may have.
pub data Served : Type 0 where
  asked : Connected QueryState → Served
  wanted : Connected State → Served

module _ (crypto : Crypto) (is_signed : Narinfo → List Bytes → Bool) (format : MetadataFormat) where
  unfoldable pub serve_mode :
      Config → QueryState → State → SessionMode → List Asked → List Wanted → Served
  unfolding request_config query_loop substitute_loop
  serve_mode config q s (query_session force) lines _ =
      asked (query_loop crypto is_signed (request_config config force) q [] lines)
  serve_mode config q s (substitute_session force) _ lines =
      wanted (substitute_loop crypto format (request_config config force) true s lines)
  serve_mode config q s (unknown_mode mode) _ _ = asked (unknown_header mode)

  unfoldable pub handle_socket_connection :
      Config → QueryState → State → Header → List Asked → List Wanted → Served
  unfolding session_mode serve_mode trim
  handle_socket_connection config q s closed_before queries substitutes = asked no_header
  handle_socket_connection config q s unread_line queries substitutes = asked unreadable_header
  handle_socket_connection config q s (header_line header) queries substitutes =
      serve_mode config q s (session_mode (trim header)) queries substitutes
