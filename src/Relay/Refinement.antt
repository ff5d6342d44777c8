-- ===== src/Relay/Refinement.antt =====
-- src/relay.rs with src/daemon/protocol.rs: the relay shows what the daemon has written, operation by
-- operation.
use guix_p2p.Prelude.{
  subst, ◌≡◌, refl, sym, ap, ◌∙◌, ◌≢◌, Bool, true, false, ◌&&◌, List, [], ◌∷◌, ◌++◌, append-nil,
  append_assoc, if◌then◌else◌, nat_eq, text_eq,
}
use guix_p2p.Crypto.{Bytes, Text}
use guix_p2p.Text.{chars}
use guix_p2p.Protocol.{newline, write_buffered_line, write_line, write_trace, write_end, socket}
use guix_p2p.Relay.{
  substitute_mode, query, chars, on_line, Base64, RelayIo, RelayMode, Relay, Turn, is_substitute,
  read_lines, note_terminal, relay_lines, goes,
}
use guix_p2p.Relay.Frames.{
  reads_nar, on_line_out, on_line_reply, on_line_empty, reads_line, OneLine, Works, received,
}
use guix_p2p.Relay.Session.{
  Op, write, buffer, write_all, sent, sent_all, write_all-socket, Seen, view, see, see_all,
  Sendable, IsIdle, Relayed, reply, trace, end_reply, nar,
}

module _ (codec : Base64) (io : RelayIo) (works : Works io) (mode : RelayMode) where
  abbrev run : Relay → Text → Turn
  run r text = relay_lines codec io mode (goes r) (read_lines text)

  abbrev after : Turn → Text → Turn
  after t rest = relay_lines codec io mode t (read_lines rest)

  -- One operation takes the relay to a state that shows it, with any text behind.
  record Step (r : Relay) (op : Op) : Type 0 where
    next : Relay
    reads : (rest : Text) → run r (sent codec op ++ rest) ≡ run next rest
    idle : IsIdle next
    seen : view next ≡ see mode (view r) op

  -- The state after a reply line.
  abbrev replied : Relay → Text → Relay
  replied r l = let s = note_terminal codec io mode r l in record s { fd4 = s.fd4 ++ l }

  run_line :
      (r next : Relay) (l rest : Text)
      → OneLine l
      → on_line codec io mode r (l ++ newline ∷ []) ≡ goes next
      → run r (l ++ newline ∷ rest) ≡ run next rest
  run_line r next l rest h e = reads_line codec io works mode r l rest h ∙ ap (λ t. after t rest) e

  -- A reply line, whose first character does not matter here.
  run_reply :
      (r : Relay) (l rest : Text)
      → OneLine l
      → run r (chars "fd4:" ++ (l ++ newline ∷ rest)) ≡ run (replied r (l ++ newline ∷ [])) rest
  run_reply r l rest h =
      run_line r (replied r (l ++ newline ∷ [])) (chars "fd4:" ++ l) rest h
        (on_line_reply codec io works mode r (l ++ newline ∷ []))

  -- An empty reply line is no terminal reply.
  quiet : (m : RelayMode) (b : Bool) → b ≡ (if is_substitute m && false then true else b)
  unfolding is_substitute
  quiet query b = refl
  quiet substitute_mode b = refl

  Step-reply : (r : Relay) (l : Text) → IsIdle r → OneLine l → Step r (reply l)
  unfolding write write_line write_buffered_line see view note_terminal
  Step-reply r [] idle h = record {
    next = record r { fd4 = r.fd4 ++ newline ∷ [] };
    reads = λ rest.
        run_line r (record r { fd4 = r.fd4 ++ newline ∷ [] }) (chars "fd4-empty:") rest refl
          (on_line_empty codec io works mode r);
    idle = idle;
    seen =
        ap (λ b. record (view r) { writer = write_line (view r).writer []; terminal = b })
          (quiet mode r.saw_terminal);
  }
  Step-reply r (c ∷ l) idle h = record {
    next = replied r ((c ∷ l) ++ newline ∷ []);
    reads = λ rest.
        ap (λ t. run r (chars "fd4:" ++ t)) (append_assoc (c ∷ l) (newline ∷ []) rest)
        ∙ run_reply r (c ∷ l) rest h;
    idle = idle;
    seen = refl;
  }

  Step-trace : (r : Relay) (l : Text) → IsIdle r → OneLine l → Step r (trace l)
  unfolding write write_trace write_buffered_line see view
  Step-trace r l idle h =
      let next = record r { stdout = r.stdout ++ (l ++ newline ∷ []) } in
      record {
        next = next;
        reads = λ rest.
            ap (λ t. run r (chars "out:" ++ t)) (append_assoc l (newline ∷ []) rest)
            ∙ run_line r next (chars "out:" ++ l) rest h
                (on_line_out codec io works mode r (l ++ newline ∷ []));
        idle = idle;
        seen = refl;
      }

  Step-end : (r : Relay) → IsIdle r → Step r end_reply
  unfolding write write_end write_line write_buffered_line see view note_terminal
  Step-end r idle = record {
    next = replied r (newline ∷ []);
    reads = λ rest. run_reply r [] rest refl;
    idle = idle;
    seen =
        ap (λ b. record (view r) { writer = write_end (view r).writer; terminal = b })
          (sym (quiet mode r.saw_terminal));
  }

  Step-nar :
      (r : Relay) (dest : Text) (queue : List Text) (b : Bytes)
      → IsIdle r
      → r.dest_queue ≡ dest ∷ queue
      → b ≢ []
      → Step r (nar b)
  unfolding write see view received
  Step-nar r dest queue b idle waiting full = record {
    next = received codec io works mode r dest queue b;
    reads = λ rest. reads_nar codec io works mode r dest queue b rest idle.0 waiting full;
    idle = (refl, refl);
    seen = rw waiting refl;
  }

  -- The operation can be sent, and what is left can be sent after it.
  abbrev Next : Relay → Op → List Op → Type 0
  Next r op ops = Step r op × Sendable (see mode (view r) op).waiting ops

  next_nar :
      (r : Relay) (b : Bytes) (ops : List Op) (queue : List Text)
      → IsIdle r
      → r.dest_queue ≡ queue
      → Sendable queue (nar b ∷ ops)
      → Next r (nar b) ops
  unfolding see view
  next_nar r b ops [] idle e h = absurd h
  next_nar r b ops (dest ∷ queue) idle e h = (Step-nar r dest queue b idle e h.0, rw e h.1)

  next :
      (r : Relay) (op : Op) (ops : List Op)
      → IsIdle r
      → Sendable r.dest_queue (op ∷ ops)
      → Next r op ops
  unfolding see view
  next r (reply l) ops idle h = (Step-reply r l idle h.0, h.1)
  next r (trace l) ops idle h = (Step-trace r l idle h.0, h.1)
  next r end_reply ops idle h = (Step-end r idle, h)
  next r (nar b) ops idle h = next_nar r b ops r.dest_queue idle refl h

  -- The operations take the relay to a state that shows them, with any text behind.
  pub record Steps (r : Relay) (ops : List Op) : Type 0 where
    pub last : Relay
    pub reads : (rest : Text) → run r (sent_all codec ops ++ rest) ≡ run last rest
    pub idle : IsIdle last
    pub seen : view last ≡ see_all mode (view r) ops

  pub steps : (ops : List Op) (r : Relay) → IsIdle r → Sendable r.dest_queue ops → Steps r ops
  unfolding see_all view
  steps [] r idle h = record { last = r; reads = λ rest. refl; idle = idle; seen = refl }
  steps (op ∷ ops) r idle h =
      let (s, h') = next r op ops idle h in
      let sendable = subst (λ (v : Seen). Sendable v.waiting ops) (sym s.seen) h' in
      let after = steps ops s.next s.idle sendable in
      record {
        last = after.last;
        reads = λ rest.
            ap (run r) (append_assoc (sent codec op) (sent_all codec ops) rest)
            ∙ s.reads (sent_all codec ops ++ rest)
            ∙ after.reads rest;
        idle = after.idle;
        seen = after.seen ∙ ap (λ v. see_all mode v ops) s.seen;
      }

  relays :
      (ops : List Op) (r : Relay)
      → IsIdle r
      → Sendable r.dest_queue ops
      → Relayed (see_all mode (view r) ops) (run r (sent_all codec ops))
  unfolding read_lines relay_lines
  relays ops r idle h =
      let s = steps ops r idle h in
      record {
        relay = s.last;
        runs = ap (run r) (sym (append-nil (sent_all codec ops))) ∙ s.reads [];
        idle = s.idle;
        seen = s.seen;
      }

  -- What the daemon writes to the buffer of a socket, line by line, trace by trace and NAR by NAR, the
  -- relay turns back into what the same calls write to the descriptors themselves; each NAR reaches
  -- the next destination with its bytes, and a terminal reply is noticed. The conditions: every call
  -- of the operating system succeeds, no line has a line feed in it, no NAR is empty, there are as
  -- many destinations as NARs, and no NAR is being received at the start.
  pub relay_lines-see_all :
      (ops : List Op) (r : Relay)
      → IsIdle r
      → Sendable r.dest_queue ops
      → Relayed (see_all mode (view r) ops) (
          relay_lines codec io mode
            (goes r)
            (read_lines (buffer codec (write_all codec (socket []) ops))))
  relay_lines-see_all ops r idle h =
      subst (λ w. Relayed (see_all mode (view r) ops) (run r (buffer codec w)))
        (sym (write_all-socket codec ops [])) (relays ops r idle h)
