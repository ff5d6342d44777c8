-- ===== src/Tests/Relays.antt =====
-- src/relay.rs: sessions of the relay, with a codec that shifts every byte and calls that succeed.
use guix_p2p.Prelude.{
  ℕ, ◌+◌, ◌-◌, ◌≡◌, refl, ap, true, false, some, List, [], ◌∷◌, ◌++◌, map, arith, nat_eq, text_eq,
  any,
}
use guix_p2p.Crypto.{Bytes, Text}
use guix_p2p.Text.{chars, is_whitespace}
use guix_p2p.Protocol.{write_nar_data_to_socket, descriptors, newline, socket}
use guix_p2p.Relay.{
  nar_end_without_destination, fails, read_lines, goes, relay_lines, open_session, waits, Base64,
  RelayIo, Relay, mode_line, initial, forward, substitute_mode,
}
use guix_p2p.Relay.Refinement.{relay_lines-see_all}
use guix_p2p.Relay.Session.{
  Relayed, sent_all, Op, buffer, write_all, view, see_all, Sendable, reply, trace, end_reply, nar,
}
use guix_p2p.Relay.Frames.{Works}
use guix_p2p.Relay.Forward.{relay_lines_empty_nar, ended, forward-see_all}

abbrev shift : Bytes → Text
shift = map (λ c. 0x4000 + c)

abbrev unshift : Text → Bytes
unshift = map (λ c. c - 0x4000)

unshift-shift : (b : Bytes) → unshift (shift b) ≡ b
unshift-shift [] = refl
unshift-shift (c ∷ b) = ground (arith, unshift-shift b)

not_whitespace : (c : ℕ) → is_whitespace (0x4000 + c) ≡ false
unfolding is_whitespace
not_whitespace c = ground arith

no_space-shift : (b : Bytes) → any is_whitespace (shift b) ≡ false
no_space-shift [] = refl
no_space-shift (c ∷ b) = rw (not_whitespace c) (no_space-shift b)

abbrev codec : Base64
codec = record {
  encode = shift;
  decode = λ t. some (unshift t);
  decode-encode = λ b. ap some (unshift-shift b);
  no_space = no_space-shift;
}

abbrev all_succeed : RelayIo
all_succeed = record {
  write_fd = λ fd t. true;
  open_temp = λ n. true;
  write_temp = λ b. true;
  flush_temp = λ n. true;
  write_nar_to_destination = λ d b. true;
}

all_succeed-Works : Works all_succeed
all_succeed-Works = (λ fd t. refl, λ n. refl, λ b. refl, λ d b. refl, λ n. refl)

abbrev session : List Op
session =
    trace (chars "@ download-started")
    ∷ nar (1 ∷ 2 ∷ 3 ∷ [])
    ∷ reply (chars "success sha256:0 3")
    ∷ end_reply
    ∷ []

abbrev command : Text
command = chars "substitute /gnu/store/a-b out" ++ newline ∷ []

abbrev daemon : Text → Text
daemon text = buffer codec (write_all codec (socket []) session)

session-Sendable : Sendable (chars "out" ∷ []) session
session-Sendable = (refl, ((λ e. absurd (ground arith)), (refl, tt)))

-- What the descriptors and the destination have after the session.
abbrev replies : Text
replies = chars "success sha256:0 3" ++ newline ∷ newline ∷ []

session_seen :
    see_all substitute_mode (view (initial substitute_mode (chars "out" ∷ []))) session ≡ record {
      writer =
          descriptors
            (record { fd4 = replies; stdout = chars "@ download-started" ++ newline ∷ [] });
      arrived = (chars "out", 1 ∷ 2 ∷ 3 ∷ []) ∷ [];
      waiting = [];
      terminal = true;
    }
unfolding see_all view initial
session_seen = refl

-- Without a destination in the command, the relay waits for ever on the first data of the NAR.
no_destination_waits :
    forward codec all_succeed substitute_mode
      (chars "substitute /gnu/store/a-b" ++ newline ∷ [])
      daemon
    ≡ waits
unfolding forward write_all
no_destination_waits = refl

forward-see_all_example :
    (r : Relay) × (view r
      ≡ see_all substitute_mode (view (initial substitute_mode (chars "out" ∷ []))) session)
    × (forward codec all_succeed substitute_mode command daemon ≡ ended r)
unfolding open_session
forward-see_all_example =
    forward-see_all codec all_succeed all_succeed-Works substitute_mode command
      (mode_line substitute_mode ++ command) (chars "out" ∷ []) daemon session refl refl
      session-Sendable

relay_lines_empty_nar_example :
    relay_lines codec all_succeed substitute_mode
      (goes (initial substitute_mode (chars "out" ∷ [])))
      (read_lines
        (sent_all codec session ++ (write_nar_data_to_socket codec.encode [] ++ chars "success")))
    ≡ fails nar_end_without_destination
unfolding initial
relay_lines_empty_nar_example =
    relay_lines_empty_nar codec all_succeed all_succeed-Works substitute_mode
      (initial substitute_mode (chars "out" ∷ [])) session (chars "success") (refl, refl)
      session-Sendable

relay_lines-see_all_example :
    Relayed (see_all substitute_mode (view (initial substitute_mode (chars "out" ∷ []))) session) (
      relay_lines codec all_succeed substitute_mode
        (goes (initial substitute_mode (chars "out" ∷ [])))
        (read_lines (buffer codec (write_all codec (socket []) session))))
unfolding initial
relay_lines-see_all_example =
    relay_lines-see_all codec all_succeed all_succeed-Works substitute_mode session
      (initial substitute_mode (chars "out" ∷ [])) (refl, refl) session-Sendable
