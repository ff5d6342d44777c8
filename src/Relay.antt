-- ===== src/Relay.antt =====
-- src/relay.rs: the relay of `guix-p2p substitute`, which forwards the standard input to the socket
-- of the daemon, and sends each reply line to the descriptor 4, to the standard output or, decoded,
-- to the destination of the NAR. One step handles one line, its line feed included.
pub mod Frames
pub mod Session
pub mod Refinement
pub mod Forward
use guix_p2p.Prelude.{
  ℕ, suc, ◌+◌, ◌-◌, ◌*◌, ◌/◌, ◌≡◌, Bool, true, false, not, ◌&&◌, ◌||◌, Option, none, some, List, [],
  ◌∷◌, ◌++◌, nat_beq, if◌then◌else◌, nat_eq, text_beq, text_eq, is_empty, any, all,
}
use guix_p2p.Crypto.{Bytes, Text}
use guix_p2p.Protocol.{newline}
use guix_p2p.Text.{chars, strip_prefix, starts_with, split_once, is_whitespace, trim_end, trim}

-- The engine STANDARD of the crate base64: `decode` reads what `encode` writes, whose alphabet has
-- no white space.
pub record Base64 : Type 0 where
  pub encode : Bytes → Text
  pub decode : Text → Option Bytes
  pub decode-encode : (b : Bytes) → decode (encode b) ≡ some b
  pub no_space : (b : Bytes) → any is_whitespace (encode b) ≡ false

-- Which calls of the operating system succeed: a write to a descriptor, the creation of the temporary
-- file with a number, a write to it, its flush, and `write_nar_to_destination`.
pub record RelayIo : Type 0 where
  pub write_fd : ℕ → Text → Bool
  pub open_temp : ℕ → Bool
  pub write_temp : Bytes → Bool
  pub flush_temp : ℕ → Bool
  pub write_nar_to_destination : Text → Bytes → Bool

pub data RelayMode : Type 0 where
  query : RelayMode
  substitute_mode : RelayMode

pub data RelayError : Type 0 where
  stdin_closed : RelayError
  fd_write_failed : ℕ → RelayError
  open_failed : RelayError
  bad_base64 : RelayError
  temp_write_failed : RelayError
  nar_end_without_destination : RelayError
  nar_end_without_temporary : RelayError
  restore_failed : RelayError
  closed_during_nar : Text → RelayError
  no_terminal_reply : RelayError

-- The variables of the loop, with what the two descriptors and the destinations have received.
-- `nar_temp` is the content of the temporary file that `nar_temp_path` names.
pub record Relay : Type 0 where
  pub fd4 : Text
  pub stdout : Text
  pub delivered : List (Text × Bytes)
  pub dest_queue : List Text
  pub nar_file : Bool
  pub nar_dest : Option Text
  pub nar_temp : Option Bytes
  pub nar_index : ℕ
  pub saw_terminal : Bool

-- The channel of the destinations is never closed while the loop runs, so a receive from the empty
-- channel waits for ever.
pub data Turn : Type 0 where
  goes : Relay → Turn
  fails : RelayError → Turn
  waits : Turn

unfoldable pub substitute_destination : Text → Option Text
unfolding strip_prefix split_once
substitute_destination line = elim (strip_prefix (chars "substitute ") line) [
  | none ↦ none
  | some rest ↦ elim (split_once b' ' rest) [
    | none ↦ none
    | some p ↦ if is_empty p.1 then none else some p.1
  ]
]

unfoldable pub is_substitute_terminal_reply : Text → Bool
unfolding trim starts_with
is_substitute_terminal_reply line =
    text_beq (trim line) (chars "not-found")
    || (starts_with (chars "success ") (trim line)
        || starts_with (chars "hash-mismatch ") (trim line))

unfoldable pub is_substitute : RelayMode → Bool
is_substitute query = false
is_substitute substitute_mode = true

unfoldable pub mode_line : RelayMode → Text
mode_line query = chars "mode: query" ++ newline ∷ []
mode_line substitute_mode = chars "mode: substitute" ++ newline ∷ []

-- The line is one of `text` followed by a line feed, with or without a carriage return.
abbrev is_line : Text → Text → Bool
is_line text line =
    text_beq line (text ++ newline ∷ []) || text_beq line (text ++ 13 ∷ newline ∷ [])

-- `read_line` in a loop up to the end of the stream.
unfoldable pub add_char : ℕ → List Text → List Text
add_char c [] = (c ∷ []) ∷ []
add_char c (l ∷ ls) = (c ∷ l) ∷ ls

unfoldable pub read_lines : Text → List Text
unfolding add_char
read_lines [] = []
read_lines (c ∷ s) =
    let rest = read_lines s in if nat_beq c newline then (c ∷ []) ∷ rest else add_char c rest

module _ (codec : Base64) (io : RelayIo) where
  unfoldable pub write_four : Relay → Text → Turn
  write_four r text =
      if io.write_fd 4 text
      then goes (record r { fd4 = r.fd4 ++ text })
      else fails (fd_write_failed 4)

  unfoldable pub write_one : Relay → Text → Turn
  write_one r text =
      if io.write_fd 1 text
      then goes (record r { stdout = r.stdout ++ text })
      else fails (fd_write_failed 1)

  unfoldable pub note_terminal : RelayMode → Relay → Text → Relay
  unfolding is_substitute is_substitute_terminal_reply
  note_terminal mode r line = record r {
    saw_terminal =
        if is_substitute mode && is_substitute_terminal_reply line then true else r.saw_terminal;
  }

  -- The temporary file of the next NAR, made when its first data arrive.
  unfoldable pub open_nar : Relay → Turn
  open_nar r = elim r.dest_queue [
    | [] ↦ waits
    | dest ∷ queue ↦
        if io.open_temp (suc r.nar_index)
        then goes (record r {
          dest_queue = queue;
          nar_index = suc r.nar_index;
          nar_dest = some dest;
          nar_temp = some [];
          nar_file = true;
        })
        else fails open_failed
  ]

  -- The data go into the open file, behind what it holds.
  abbrev put_temp : Option Bytes → Bytes → Option Bytes
  put_temp none decoded = none
  put_temp (some b) decoded = some (b ++ decoded)

  unfoldable pub append_nar : Turn → Text → Turn
  unfolding trim_end
  append_nar (goes r) line = elim (codec.decode (trim_end line)) [
    | none ↦ fails bad_base64
    | some decoded ↦
        if r.nar_file
        then if io.write_temp decoded
          then goes (record r { nar_temp = put_temp r.nar_temp decoded })
          else fails temp_write_failed
        else goes r
  ]
  append_nar (fails e) line = fails e
  append_nar waits line = waits

  unfoldable pub on_nar : Relay → Text → Turn
  unfolding append_nar open_nar
  on_nar r line = append_nar (if r.nar_file then goes r else open_nar r) line

  unfoldable pub restore : Relay → Turn
  restore r = elim r.nar_dest [
    | none ↦ fails nar_end_without_destination
    | some dest ↦ elim r.nar_temp [
      | none ↦ fails nar_end_without_temporary
      | some nar ↦
          if io.write_nar_to_destination dest nar
          then goes (record r {
            nar_file = false;
            nar_dest = none;
            nar_temp = none;
            delivered = r.delivered ++ (dest, nar) ∷ [];
          })
          else fails restore_failed
    ]
  ]

  unfoldable pub on_nar_end : Relay → Turn
  unfolding restore
  on_nar_end r =
      if r.nar_file && not (io.flush_temp r.nar_index) then fails temp_write_failed else restore r

  unfoldable pub on_line : RelayMode → Relay → Text → Turn
  unfolding strip_prefix write_four write_one note_terminal on_nar on_nar_end
  on_line mode r line =
      if is_line (chars "fd4-empty:") line
      then write_four r (newline ∷ [])
      else elim (strip_prefix (chars "fd4:") line) [
        | some reply ↦ write_four (note_terminal mode r reply) reply
        | none ↦ elim (strip_prefix (chars "out:") line) [
          | some text ↦ write_one r text
          | none ↦ elim (strip_prefix (chars "nar:") line) [
            | some text ↦ on_nar r text
            | none ↦ if is_line (chars "nar-end") line then on_nar_end r else write_four r line
          ]
        ]
      ]

  unfoldable pub relay_lines : RelayMode → Turn → List Text → Turn
  unfolding on_line
  relay_lines mode (goes r) [] = goes r
  relay_lines mode (goes r) (line ∷ lines) = relay_lines mode (on_line mode r line) lines
  relay_lines mode (fails e) lines = fails e
  relay_lines mode waits lines = waits

-- What follows the loop.
unfoldable pub finish_session : Option Text → Relay → Turn
finish_session (some dest) r = fails (closed_during_nar dest)
finish_session none r = if r.saw_terminal then goes r else fails no_terminal_reply

unfoldable pub close : Turn → Turn
unfolding finish_session
close (goes r) = finish_session r.nar_dest r
close (fails e) = fails e
close waits = waits

-- What goes to the socket, the destinations that are known, or the error before any reply is read.
-- `first` is the first line of the standard input, and `input` all of it.
pub data Opened : Type 0 where
  refused : RelayError → Opened
  opened : Text → List Text → Opened

abbrev queue_of : Option Text → List Text
queue_of none = []
queue_of (some dest) = dest ∷ []

unfoldable pub open_session : RelayMode → Text → Opened
unfolding mode_line read_lines substitute_destination trim_end
open_session query input = opened (mode_line query ++ input) []
open_session substitute_mode input = elim (read_lines input) [
  | [] ↦ refused stdin_closed
  | first ∷ _ ↦
      opened (mode_line substitute_mode ++ first)
        (queue_of (substitute_destination (trim_end first)))
]

unfoldable pub initial : RelayMode → List Text → Relay
unfolding is_substitute
initial mode queue = record {
  fd4 = [];
  stdout = [];
  delivered = [];
  dest_queue = queue;
  nar_file = false;
  nar_dest = none;
  nar_temp = none;
  nar_index = 0;
  saw_terminal = not (is_substitute mode);
}

-- `daemon` is what the socket answers to what it receives.
unfoldable pub converse : Base64 → RelayIo → RelayMode → (Text → Text) → Opened → Turn
unfolding initial read_lines relay_lines close
converse codec io mode daemon (refused e) = fails e
converse codec io mode daemon (opened sent queue) =
    close (relay_lines codec io mode (goes (initial mode queue)) (read_lines (daemon sent)))

unfoldable pub forward : Base64 → RelayIo → RelayMode → Text → (Text → Text) → Turn
unfolding open_session converse
forward codec io mode input daemon = converse codec io mode daemon (open_session mode input)
