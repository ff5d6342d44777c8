-- ===== src/Swarm/Block/Chunks.antt =====
-- The blocks of a byte string: they join to it, and the block at an index is the slice there.
use native.Mathlib.Nat.{suc-add}
use guix_p2p.Prelude.{
  ℕ, zero, suc, ◌+◌, ◌*◌, ◌≤◌, ◌<◌, ◌≡◌, refl, sym, ap, ◌∙◌, Option, none, some, List, [], ◌∷◌,
  ◌++◌, arith, ltb, if◌then◌else◌, length, get_elem?, take, drop, length-drop, take-append-drop,
  drop_of_length-le,
}
use guix_p2p.Crypto.{Bytes}
use guix_p2p.Swarm.Block.{chunks_fuel, chunks}

-- `blocks.concat()`
abbrev pub concat : List Bytes → Bytes
concat [] = []
concat (b ∷ bs) = b ++ concat bs

concat-chunks_fuel :
    (f n : ℕ) (bytes : Bytes) → 0 < n → length bytes ≤ f → concat (chunks_fuel f n bytes) ≡ bytes
unfolding chunks_fuel
concat-chunks_fuel zero n [] h le = refl
concat-chunks_fuel zero n (b ∷ bytes) h le = absurd (omega arith)
concat-chunks_fuel (suc f) n [] h le = refl
concat-chunks_fuel (suc f) n (b ∷ bytes) h le =
    let shorter : length (drop n (b ∷ bytes)) ≤ f = omega (arith, length-drop n (b ∷ bytes)) in
    ap (λ t. take n (b ∷ bytes) ++ t) (concat-chunks_fuel f n (drop n (b ∷ bytes)) h shorter)
    ∙ take-append-drop n (b ∷ bytes)

pub concat-chunks : (n : ℕ) (bytes : Bytes) → 0 < n → concat (chunks n bytes) ≡ bytes
unfolding chunks
concat-chunks n bytes h = concat-chunks_fuel (length bytes) n bytes h (omega arith)

drop-drop : (m n : ℕ) (bytes : Bytes) → drop m (drop n bytes) ≡ drop (n + m) bytes
drop-drop m zero bytes = ap (λ k. drop k bytes) (omega arith)
drop-drop m (suc n) [] =
    drop_of_length-le m [] (omega arith) ∙ sym (drop_of_length-le (suc n + m) [] (omega arith))
drop-drop m (suc n) (b ∷ bytes) = rw suc-add (drop-drop m n bytes)

-- The block at an index: the slice from `i * n`, `n` bytes long or as long as the bytes last.
abbrev pub slice_at : ℕ → ℕ → Bytes → Option Bytes
slice_at n i bytes = if ltb (i * n) (length bytes) then some (take n (drop (i * n) bytes)) else none

get_elem?-chunks_fuel :
    (f n i : ℕ) (bytes : Bytes)
    → 0 < n
    → length bytes ≤ f
    → get_elem? (chunks_fuel f n bytes) i ≡ slice_at n i bytes
unfolding chunks_fuel
get_elem?-chunks_fuel zero n i [] h le = ground arith
get_elem?-chunks_fuel zero n i (b ∷ bytes) h le = absurd (omega arith)
get_elem?-chunks_fuel (suc f) n i [] h le = ground arith
get_elem?-chunks_fuel (suc f) n zero (b ∷ bytes) h le = ground arith
get_elem?-chunks_fuel (suc f) n (suc i) (b ∷ bytes) h le =
    let rest = drop n (b ∷ bytes) in
    let shorter : length rest ≤ f = omega (arith, length-drop n (b ∷ bytes)) in
    ground (
      arith,
      get_elem?-chunks_fuel f n i rest h shorter,
      drop-drop (i * n) n (b ∷ bytes),
      length-drop n (b ∷ bytes),
    )

pub get_elem?-chunks :
    (n i : ℕ) (bytes : Bytes) → 0 < n → get_elem? (chunks n bytes) i ≡ slice_at n i bytes
unfolding chunks
get_elem?-chunks n i bytes h = get_elem?-chunks_fuel (length bytes) n i bytes h (omega arith)
