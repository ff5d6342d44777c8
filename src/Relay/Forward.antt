-- ===== src/Relay/Forward.antt =====
-- src/relay.rs: `forward` as a whole, for `guix-p2p substitute` on a command with a destination, and
-- where the daemon sends an empty NAR.
use guix_p2p.Swarm.Block.{chunks}
use guix_p2p.Prelude.{◌≡◌, refl, ap, ◌∙◌, List, [], ◌++◌, if◌then◌else◌, nat_eq, text_eq}
use guix_p2p.Crypto.{Text}
use guix_p2p.Text.{chars, strip_prefix}
use guix_p2p.Protocol.{write_nar_data_to_socket, socket}
use guix_p2p.Relay.{
  restore, converse, finish_session, chars, strip_prefix, on_nar_end, on_line, Base64, RelayIo,
  RelayMode, Relay, Turn, read_lines, relay_lines, close, open_session, initial, forward,
  nar_end_without_destination, no_terminal_reply, goes, fails, opened,
}
use guix_p2p.Relay.Frames.{reads_line, reads, Works}
use guix_p2p.Relay.Refinement.{relay_lines-see_all, steps}
use guix_p2p.Relay.Session.{
  Op, buffer, write_all, sent_all, Seen, view, see_all, Sendable, IsIdle, Relayed,
}

initial-IsIdle : (mode : RelayMode) (queue : List Text) → IsIdle (initial mode queue)
unfolding initial
initial-IsIdle mode queue = (refl, refl)

-- The end of the session: the relay's state where a terminal reply has come, else an error.
abbrev pub ended : Relay → Turn
ended r = if r.saw_terminal then goes r else fails no_terminal_reply

module _ (codec : Base64) (io : RelayIo) (works : Works io) (mode : RelayMode) where
  close-IsIdle : (r : Relay) → IsIdle r → close (goes r) ≡ ended r
  unfolding close finish_session
  close-IsIdle r h = ap (λ d. finish_session d r) h.1

  close-Relayed :
      (s : Seen) (t : Turn) → Relayed s t → (r : Relay) × (view r ≡ s) × (close t ≡ ended r)
  close-Relayed s t h = (h.relay, h.seen, ap (close) h.runs ∙ close-IsIdle h.relay h.idle)

  -- A relay whose daemon answers the command by the operations `ops` ends in a state that shows them
  -- as if they had been done at the descriptors and at the destination, if one of the replies is
  -- terminal, and with an error if none is. The conditions: the first line of the input is read, every
  -- call of the operating system succeeds, no line has a line feed in it, no NAR is empty, and there
  -- are as many destinations in the command as NARs.
  pub forward-see_all :
      (input out : Text) (queue : List Text) (daemon : Text → Text) (ops : List Op)
      → open_session mode input ≡ opened out queue
      → daemon out ≡ buffer codec (write_all codec (socket []) ops)
      → Sendable queue ops
      → (r : Relay) × (view r ≡ see_all mode (view (initial mode queue)) ops)
        × (forward codec io mode input daemon ≡ ended r)
  unfolding forward initial converse
  forward-see_all input out queue daemon ops start answer h =
      let state = initial mode queue in
      let relayed =
        relay_lines-see_all codec io works mode ops state (initial-IsIdle mode queue) h in
      let replies = buffer codec (write_all codec (socket []) ops) in
      let answered = ap (λ text. relay_lines codec io mode (goes state) (read_lines text)) answer in
      let (r, shown, closed) =
        close-Relayed (see_all mode (view state) ops)
          (relay_lines codec io mode (goes state) (read_lines replies)) relayed in
      (r, shown, ap (converse codec io mode daemon) start ∙ ap close answered ∙ closed)

  -- The end of a NAR is refused where none has begun.
  reads_end :
      (r : Relay) (rest : Text)
      → IsIdle r
      → reads codec io works mode r (write_nar_data_to_socket codec.encode [] ++ rest)
        ≡ fails nar_end_without_destination
  unfolding write_nar_data_to_socket chunks on_line on_nar_end restore strip_prefix relay_lines
  reads_end r rest idle =
      reads_line codec io works mode r (chars "nar-end") rest refl ∙ rw (idle.0, idle.1) refl

  -- The frames of an empty NAR are refused: after any operations that can be sent, and before any text,
  -- they end the relay with the error of a NAR without a destination, whether a destination waits or not.
  pub relay_lines_empty_nar :
      (r : Relay) (ops : List Op) (rest : Text)
      → IsIdle r
      → Sendable r.dest_queue ops
      → relay_lines codec io mode
          (goes r)
          (read_lines (sent_all codec ops ++ (write_nar_data_to_socket codec.encode [] ++ rest)))
        ≡ fails nar_end_without_destination
  relay_lines_empty_nar r ops rest idle h =
      let s = steps codec io works mode ops r idle h in
      s.reads (write_nar_data_to_socket codec.encode [] ++ rest) ∙ reads_end s.last rest s.idle
