-- ===== src/Relay/Frames.antt =====
-- src/relay.rs with src/daemon/protocol.rs: each line and each NAR that the daemon writes to the
-- socket, read by the relay.
use guix_p2p.Prelude.{
  ◌≢◌, append_assoc, append-nil, sym, ◌∙◌, none, some, suc, List, ℕ, ◌≡◌, refl, ap, true, false, [],
  ◌∷◌, ◌++◌, arith, nat_beq, nat_eq, text_eq, any,
}
use guix_p2p.Crypto.{Bytes, Text}
use guix_p2p.Text.{chars, strip_prefix, is_whitespace, trim_end}
use guix_p2p.Protocol.{chunk_size, write_nar_data_to_socket, frames, newline}
use guix_p2p.Swarm.Block.{chunks}
use guix_p2p.Swarm.Block.Chunks.{concat-chunks, concat}
use guix_p2p.Relay.{
  restore, on_nar_end, append_nar, open_nar, on_nar, write_one, Base64, RelayIo, RelayMode, Relay,
  Turn, read_lines, write_four, note_terminal, on_line, relay_lines, goes,
}

-- The text has no line feed.
abbrev pub OneLine : Text → Type 0
OneLine text = any (λ c. nat_beq c newline) text ≡ false

pub read_lines_line :
    (l rest : Text)
    → OneLine l
    → read_lines (l ++ newline ∷ rest) ≡ (l ++ newline ∷ []) ∷ read_lines rest
unfolding read_lines
read_lines_line [] rest h = refl
read_lines_line (c ∷ l) rest h = ground (arith, read_lines_line l rest)

pub trim_end_text : (s : Text) → any is_whitespace s ≡ false → trim_end (s ++ newline ∷ []) ≡ s
unfolding trim_end
trim_end_text [] h = refl
trim_end_text (c ∷ s) h = ground (arith, trim_end_text s)

not_newline_of_not_space : (c : ℕ) → is_whitespace c ≡ false → nat_beq c newline ≡ false
unfolding is_whitespace
not_newline_of_not_space c h = ground arith

pub OneLine-of_no_space : (s : Text) → any is_whitespace s ≡ false → OneLine s
OneLine-of_no_space [] h = refl
OneLine-of_no_space (c ∷ s) h = ground (arith, OneLine-of_no_space s, not_newline_of_not_space c)

-- Every write succeeds.
abbrev pub Works : RelayIo → Type 0
Works io =
    ((fd : ℕ) (t : Text) → io.write_fd fd t ≡ true)
    × ((n : ℕ) → io.open_temp n ≡ true)
    × ((b : Bytes) → io.write_temp b ≡ true)
    × ((d : Text) (b : Bytes) → io.write_nar_to_destination d b ≡ true)
    × ((n : ℕ) → io.flush_temp n ≡ true)

module _ (codec : Base64) (io : RelayIo) (works : Works io) (mode : RelayMode) where
  abbrev pub reads : Relay → Text → Turn
  reads r text = relay_lines codec io mode (goes r) (read_lines text)

  pub reads_line :
      (r : Relay) (l rest : Text)
      → OneLine l
      → reads r (l ++ newline ∷ rest)
        ≡ relay_lines codec io mode (on_line codec io mode r (l ++ newline ∷ [])) (read_lines rest)
  unfolding relay_lines
  reads_line r l rest h =
      ap (λ ls. relay_lines codec io mode (goes r) ls) (read_lines_line l rest h)

  pub on_line_reply :
      (r : Relay) (l : Text)
      → on_line codec io mode r (chars "fd4:" ++ l)
        ≡ goes (let s = note_terminal codec io mode r l in record s { fd4 = s.fd4 ++ l })
  unfolding on_line write_four strip_prefix
  on_line_reply r l = rw (works.0 4 l) refl

  pub on_line_empty :
      (r : Relay)
      → on_line codec io mode r (chars "fd4-empty:" ++ newline ∷ [])
        ≡ goes (record r { fd4 = r.fd4 ++ newline ∷ [] })
  unfolding on_line write_four
  on_line_empty r = rw (works.0 4 (newline ∷ [])) refl

  pub on_line_out :
      (r : Relay) (l : Text)
      → on_line codec io mode r (chars "out:" ++ l) ≡ goes (record r { stdout = r.stdout ++ l })
  unfolding on_line write_one strip_prefix
  on_line_out r l = rw (works.0 1 l) refl

  -- A NAR is being written to its temporary file, which holds `nar` so far.
  unfoldable pub receiving : Relay → Text → List Text → Bytes → Relay
  receiving r dest queue nar = record r {
    dest_queue = queue;
    nar_index = suc r.nar_index;
    nar_dest = some dest;
    nar_temp = some nar;
    nar_file = true;
  }

  on_line_first :
      (r : Relay) (dest : Text) (queue : List Text) (b : Bytes)
      → r.nar_file ≡ false
      → r.dest_queue ≡ dest ∷ queue
      → on_line codec io mode r (chars "nar:" ++ (codec.encode b ++ newline ∷ []))
        ≡ goes (receiving r dest queue b)
  unfolding on_line on_nar open_nar append_nar strip_prefix receiving
  on_line_first r dest queue b closed waiting = ground (
    arith,
    closed,
    waiting,
    works.1 (suc r.nar_index),
    works.2 b,
    codec.decode-encode b,
    trim_end_text (codec.encode b) (codec.no_space b),
  )

  on_line_next :
      (r : Relay) (dest : Text) (queue : List Text) (nar b : Bytes)
      → on_line codec io mode
          (receiving r dest queue nar)
          (chars "nar:" ++ (codec.encode b ++ newline ∷ []))
        ≡ goes (receiving r dest queue (nar ++ b))
  unfolding on_line on_nar append_nar strip_prefix receiving
  on_line_next r dest queue nar b =
      ground
        (arith, works.2 b, codec.decode-encode b, trim_end_text (codec.encode b) (codec.no_space b))

  -- The NAR has reached its destination.
  unfoldable pub received : Relay → Text → List Text → Bytes → Relay
  received r dest queue nar = record r {
    dest_queue = queue;
    nar_index = suc r.nar_index;
    nar_dest = none;
    nar_temp = none;
    nar_file = false;
    delivered = r.delivered ++ (dest, nar) ∷ [];
  }

  on_line_end :
      (r : Relay) (dest : Text) (queue : List Text) (nar : Bytes)
      → on_line codec io mode (receiving r dest queue nar) (chars "nar-end" ++ newline ∷ [])
        ≡ goes (received r dest queue nar)
  unfolding on_line on_nar_end restore strip_prefix receiving received
  on_line_end r dest queue nar = rw (works.4 (suc r.nar_index), works.3 dest nar) refl

  reads_next :
      (r : Relay) (dest : Text) (queue : List Text) (cs : List Bytes) (nar : Bytes) (rest : Text)
      → reads (receiving r dest queue nar) (frames codec.encode cs ++ rest)
        ≡ reads (received r dest queue (nar ++ concat cs)) rest
  reads_next r dest queue [] nar rest =
      reads_line (receiving r dest queue nar) (chars "nar-end") rest refl
      ∙ ap (λ t. relay_lines codec io mode t (read_lines rest)) (on_line_end r dest queue nar)
      ∙ ap (λ b. reads (received r dest queue b) rest) (sym (append-nil nar))
  reads_next r dest queue (c ∷ cs) nar rest =
      ap (λ t. reads (receiving r dest queue nar) (chars "nar:" ++ t))
        (append_assoc (codec.encode c) (newline ∷ frames codec.encode cs) rest)
      ∙ reads_line (receiving r dest queue nar) (chars "nar:" ++ codec.encode c)
          (frames codec.encode cs ++ rest) (OneLine-of_no_space (codec.encode c) (codec.no_space c))
      ∙ ap (λ t. relay_lines codec io mode t (read_lines (frames codec.encode cs ++ rest)))
          (on_line_next r dest queue nar c)
      ∙ reads_next r dest queue cs (nar ++ c) rest
      ∙ ap (λ b. reads (received r dest queue b) rest) (append_assoc nar c (concat cs))

  reads_frames :
      (r : Relay) (dest : Text) (queue : List Text) (c : Bytes) (cs : List Bytes) (rest : Text)
      → r.nar_file ≡ false
      → r.dest_queue ≡ dest ∷ queue
      → reads r (frames codec.encode (c ∷ cs) ++ rest)
        ≡ reads (received r dest queue (concat (c ∷ cs))) rest
  reads_frames r dest queue c cs rest closed waiting =
      ap (λ t. reads r (chars "nar:" ++ t))
        (append_assoc (codec.encode c) (newline ∷ frames codec.encode cs) rest)
      ∙ reads_line r (chars "nar:" ++ codec.encode c) (frames codec.encode cs ++ rest)
          (OneLine-of_no_space (codec.encode c) (codec.no_space c))
      ∙ ap (λ t. relay_lines codec io mode t (read_lines (frames codec.encode cs ++ rest)))
          (on_line_first r dest queue c closed waiting)
      ∙ reads_next r dest queue cs c rest

  reads_chunks :
      (r : Relay) (dest : Text) (queue : List Text) (cs : List Bytes) (rest : Text)
      → r.nar_file ≡ false
      → r.dest_queue ≡ dest ∷ queue
      → concat cs ≢ []
      → reads r (frames codec.encode cs ++ rest) ≡ reads (received r dest queue (concat cs)) rest
  reads_chunks r dest queue [] rest closed waiting full = absurd (full refl)
  reads_chunks r dest queue (c ∷ cs) rest closed waiting full =
      reads_frames r dest queue c cs rest closed waiting

  -- A NAR that has bytes arrives at the first destination.
  pub reads_nar :
      (r : Relay) (dest : Text) (queue : List Text) (nar : Bytes) (rest : Text)
      → r.nar_file ≡ false
      → r.dest_queue ≡ dest ∷ queue
      → nar ≢ []
      → reads r (write_nar_data_to_socket codec.encode nar ++ rest)
        ≡ reads (received r dest queue nar) rest
  unfolding write_nar_data_to_socket
  reads_nar r dest queue nar rest closed waiting full =
      let joined = concat-chunks chunk_size nar (omega arith) in
      reads_chunks r dest queue (chunks chunk_size nar) rest closed waiting
        (λ e. full (sym joined ∙ e))
      ∙ ap (λ b. reads (received r dest queue b) rest) joined
