-- ===== src/Relay/Session.antt =====
-- src/relay.rs with src/daemon/protocol.rs: a whole reply of the daemon over the socket, against the
-- same reply written to the descriptors.
use guix_p2p.Prelude.{
  ◌≡◌, refl, sym, ap, ◌∙◌, ◌≢◌, Bool, true, false, ◌&&◌, none, List, [], ◌∷◌, ◌++◌, append-nil,
  append_assoc, if◌then◌else◌, nat_eq, text_eq,
}
use guix_p2p.Crypto.{Bytes, Text}
use guix_p2p.Protocol.{
  newline, ReplyWriter, write_buffered_line, write_line, write_trace, write_end,
  write_nar_data_to_socket, descriptors, buffered, socket,
}
use guix_p2p.Relay.{
  Base64, RelayMode, Relay, Turn, is_substitute_terminal_reply, is_substitute, goes,
}
use guix_p2p.Relay.Frames.{OneLine}

-- What a handler of the daemon writes, in its order.
pub data Op : Type 0 where
  reply : Text → Op
  trace : Text → Op
  end_reply : Op
  nar : Bytes → Op

module _ (codec : Base64) where
  -- The NAR follows what the writer holds, since the handler flushes the writer first.
  unfoldable pub write : ReplyWriter → Op → ReplyWriter
  unfolding write_line write_trace write_end write_nar_data_to_socket
  write w (reply l) = write_line w l
  write w (trace l) = write_trace w l
  write w end_reply = write_end w
  write (descriptors o) (nar b) = descriptors o
  write (buffered buf) (nar b) = buffered buf
  write (socket buf) (nar b) = socket (buf ++ write_nar_data_to_socket codec.encode b)

  abbrev pub buffer : ReplyWriter → Text
  buffer (descriptors o) = []
  buffer (buffered buf) = buf
  buffer (socket buf) = buf

  unfoldable pub write_all : ReplyWriter → List Op → ReplyWriter
  unfolding write
  write_all w [] = w
  write_all w (op ∷ ops) = write_all (write w op) ops

  abbrev pub sent : Op → Text
  sent op = buffer (write (socket []) op)

  abbrev pub sent_all : List Op → Text
  sent_all [] = []
  sent_all (op ∷ ops) = sent op ++ sent_all ops

  write-socket : (buf : Text) (op : Op) → write (socket buf) op ≡ socket (buf ++ sent op)
  unfolding write write_line write_trace write_end write_buffered_line
  write-socket buf (reply []) = refl
  write-socket buf (reply (c ∷ l)) = refl
  write-socket buf (trace l) = refl
  write-socket buf end_reply = refl
  write-socket buf (nar b) = refl

  -- The buffer of the socket holds the texts of the operations one behind the other.
  pub write_all-socket :
      (ops : List Op) (buf : Text) → write_all (socket buf) ops ≡ socket (buf ++ sent_all ops)
  unfolding write_all
  write_all-socket [] buf = ap socket (sym (append-nil buf))
  write_all-socket (op ∷ ops) buf =
      ap (λ w. write_all w ops) (write-socket buf op)
      ∙ write_all-socket ops (buf ++ sent op)
      ∙ ap socket (append_assoc buf (sent op) (sent_all ops))

-- What the client of the relay sees: its descriptors, the NARs at their destinations, the
-- destinations that wait, and whether a terminal reply has come.
pub record Seen : Type 0 where
  pub writer : ReplyWriter
  pub arrived : List (Text × Bytes)
  pub waiting : List Text
  pub terminal : Bool

unfoldable pub view : Relay → Seen
view r = record {
  writer = descriptors (record { fd4 = r.fd4; stdout = r.stdout });
  arrived = r.delivered;
  waiting = r.dest_queue;
  terminal = r.saw_terminal;
}

module _ (mode : RelayMode) where
  -- The specification: the operations act on the descriptors themselves, and a NAR goes to the
  -- first destination that waits.
  unfoldable pub see : Seen → Op → Seen
  unfolding write_line write_trace write_end is_substitute is_substitute_terminal_reply
  see s (reply l) = record s {
    writer = write_line s.writer l;
    terminal =
        if is_substitute mode && is_substitute_terminal_reply (l ++ newline ∷ [])
        then true
        else s.terminal;
  }
  see s (trace l) = record s { writer = write_trace s.writer l }
  see s end_reply = record s { writer = write_end s.writer }
  see s (nar b) = elim s.waiting [
    | [] ↦ s
    | dest ∷ queue ↦ record s { arrived = s.arrived ++ (dest, b) ∷ []; waiting = queue }
  ]

  unfoldable pub see_all : Seen → List Op → Seen
  unfolding see
  see_all s [] = s
  see_all s (op ∷ ops) = see_all (see s op) ops

-- No text has a line feed, no NAR is empty, and there is a destination for each NAR.
abbrev pub Sendable : List Text → List Op → Type 0
Sendable queue [] = Unit
Sendable queue (reply l ∷ ops) = OneLine l × Sendable queue ops
Sendable queue (trace l ∷ ops) = OneLine l × Sendable queue ops
Sendable queue (end_reply ∷ ops) = Sendable queue ops
Sendable [] (nar b ∷ ops) = ⊥
Sendable (dest ∷ queue) (nar b ∷ ops) = (b ≢ []) × Sendable queue ops

-- No NAR is being received.
abbrev pub IsIdle : Relay → Type 0
IsIdle r = (r.nar_file ≡ false) × (r.nar_dest ≡ none)

pub record Relayed (s : Seen) (t : Turn) : Type 0 where
  pub relay : Relay
  pub runs : t ≡ goes relay
  pub idle : IsIdle relay
  pub seen : view relay ≡ s
