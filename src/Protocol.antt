-- ===== src/Protocol.antt =====
-- src/daemon/protocol.rs: the commands of guix-daemon, and the writer of replies. Texts and the
-- bytes of the socket are lists of characters. What is written to the descriptors 4 and 1 is kept
-- in the state `Out`.
use guix_p2p.Prelude.{
  ℕ, ◌*◌, Bool, true, false, not, none, some, List, [], ◌∷◌, ◌++◌, nat_eq, text_eq, is_empty,
}
use guix_p2p.Crypto.{Bytes, Text}
use guix_p2p.Text.{chars, strip_prefix, split_once, split_whitespace, decimal}
use guix_p2p.Swarm.Block.{chunks}

abbrev pub newline : ℕ
newline = 10

pub data DaemonCommand : Type 0 where
  have_paths : List Text → DaemonCommand
  info_paths : List Text → DaemonCommand
  substitute : Text → Text → DaemonCommand

-- The two parts of `rest.splitn(2, ' ')`, the second being empty where it is missing.
abbrev pub two_parts : Text → Text × Text
two_parts rest = elim (split_once b' ' rest) [ none ↦ (rest, []) | some p ↦ p ]

unfoldable pub parse_command_line : Text → DaemonCommand
unfolding strip_prefix split_once split_whitespace
parse_command_line line = elim (strip_prefix (chars "have ") line) [
  | some rest ↦ have_paths (split_whitespace rest)
  | none ↦ elim (strip_prefix (chars "info ") line) [
    | some rest ↦ info_paths (split_whitespace rest)
    | none ↦ elim (strip_prefix (chars "substitute ") line) [
      | some rest ↦ let (path, dest) = two_parts rest in substitute path dest
      | none ↦ have_paths (line ∷ [])
    ]
  ]
]

-- What the two descriptors have received.
pub record Out : Type 0 where
  pub fd4 : Text
  pub stdout : Text

pub data ReplyWriter : Type 0 where
  descriptors : Out → ReplyWriter
  buffered : Text → ReplyWriter
  socket : Text → ReplyWriter

unfoldable pub write_buffered_line : Text → Text → Text → Text
write_buffered_line buf prefix line = buf ++ (prefix ++ (line ++ newline ∷ []))

unfoldable pub write_line : ReplyWriter → Text → ReplyWriter
unfolding write_buffered_line
write_line (descriptors o) line = descriptors (record o { fd4 = write_buffered_line o.fd4 [] line })
write_line (buffered buf) line = buffered (write_buffered_line buf [] line)
write_line (socket buf) [] = socket (write_buffered_line buf (chars "fd4-empty:") [])
write_line (socket buf) (c ∷ line) = socket (write_buffered_line buf (chars "fd4:") (c ∷ line))

unfoldable pub write_trace : ReplyWriter → Text → ReplyWriter
unfolding write_buffered_line
write_trace (descriptors o) line =
    descriptors (record o { stdout = write_buffered_line o.stdout [] line })
write_trace (buffered buf) line = buffered (write_buffered_line buf [] line)
write_trace (socket buf) line = socket (write_buffered_line buf (chars "out:") line)

unfoldable pub write_end : ReplyWriter → ReplyWriter
unfolding write_line write_buffered_line
write_end (descriptors o) = write_line (descriptors o) []
write_end (buffered buf) = write_line (buffered buf) []
write_end (socket buf) = socket (write_buffered_line buf (chars "fd4:") [])

unfoldable pub is_socket : ReplyWriter → Bool
is_socket (descriptors o) = false
is_socket (buffered buf) = false
is_socket (socket buf) = true

unfoldable pub has_data : ReplyWriter → Bool
has_data (descriptors o) = false
has_data (buffered buf) = not (is_empty buf)
has_data (socket buf) = not (is_empty buf)

-- The socket's writer receives the buffer, which is empty afterwards; nothing else is written.
unfoldable pub flush_socket : ReplyWriter → Text → ReplyWriter × Text
flush_socket (descriptors o) sent = (descriptors o, sent)
flush_socket (buffered buf) sent = (buffered buf, sent)
flush_socket (socket buf) sent = (socket [], sent ++ buf)

abbrev pub chunk_size : ℕ
chunk_size = 48 * 1024

-- `base64` is the encoder of the third-party crate.
module _ (base64 : Bytes → Text) where
  abbrev pub frames : List Bytes → Text
  frames [] = chars "nar-end" ++ newline ∷ []
  frames (chunk ∷ rest) = chars "nar:" ++ (base64 chunk ++ newline ∷ frames rest)

  unfoldable pub write_nar_data_to_socket : Bytes → Text
  unfolding chunks
  write_nar_data_to_socket nar_data = frames (chunks chunk_size nar_data)

abbrev words : List Text → Text
words [] = []
words (w ∷ []) = w
words (w ∷ v ∷ ws) = w ++ b' ' ∷ words (v ∷ ws)

unfoldable pub format_trace_started : Text → Text → ℕ → Text
unfolding decimal
format_trace_started store_path url size =
    words (chars "@ download-started" ∷ store_path ∷ url ∷ decimal size ∷ [])

unfoldable pub format_trace_progress : Text → Text → ℕ → ℕ → Text
unfolding decimal
format_trace_progress store_path url total transferred =
    words
      (chars "@ download-progress" ∷ store_path ∷ url ∷ decimal total ∷ decimal transferred ∷ [])

unfoldable pub format_trace_succeeded : Text → Text → ℕ → Text
unfolding decimal
format_trace_succeeded store_path url size =
    words (chars "@ download-succeeded" ∷ store_path ∷ url ∷ decimal size ∷ [])
