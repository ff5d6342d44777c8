-- ===== src/Text.antt =====
-- `str` methods of the standard library, over characters: `strip_prefix`, `starts_with`, `find`,
-- `split_once`, `trim`, `split_whitespace`, `lines`.
use Prim.Native.Char.{code}
use Prim.Native.String.{String}
use guix_p2p.Prelude.{
  ◌^◌, ◌-◌, ◌*◌, zero, ◌%◌, ◌/◌, ltb, map, text_beq, ◌+◌, suc, ℕ, Bool, true, false, ◌&&◌, ◌||◌,
  Option, none, some, List, [], ◌∷◌, ◌++◌, nat_beq, leb, if◌then◌else◌, is_empty,
}
use guix_p2p.Crypto.{Bytes, Text}

-- The characters of a literal.
abbrev pub chars : String → Text
chars String.[] = []
chars (String.◌∷◌ c s) = code c ∷ chars s

-- `s.strip_prefix(p)`
unfoldable pub strip_prefix : Text → Text → Option Text
strip_prefix [] s = some s
strip_prefix (c ∷ p) [] = none
strip_prefix (c ∷ p) (d ∷ s) = if nat_beq c d then strip_prefix p s else none

unfoldable pub starts_with : Text → Text → Bool
unfolding strip_prefix
starts_with p s = elim (strip_prefix p s) [ none ↦ false | some _ ↦ true ]

-- `s.split_at(s.find(p)?)`
unfoldable pub split_find : Text → Text → Option (Text × Text)
unfolding starts_with
split_find p [] = if starts_with p [] then some ([], []) else none
split_find p (c ∷ s) =
    let rest = split_find p s in
    if starts_with p (c ∷ s)
    then some ([], c ∷ s)
    else elim rest [ none ↦ none | some (a, b) ↦ some (c ∷ a, b) ]

-- `s.split_once(sep)`
unfoldable pub split_once : ℕ → Text → Option (Text × Text)
split_once sep [] = none
split_once sep (c ∷ s) =
    let rest = split_once sep s in
    if nat_beq c sep
    then some ([], s)
    else elim rest [ none ↦ none | some (a, b) ↦ some (c ∷ a, b) ]

-- `char::is_whitespace`: the property White_Space of Unicode.
unfoldable pub is_whitespace : ℕ → Bool
is_whitespace c =
    leb 9 c && leb c 13
    || (nat_beq c 32
        || (nat_beq c 0x85
            || (nat_beq c 0xa0
                || (nat_beq c 0x1680
                    || (leb 0x2000 c && leb c 0x200a
                        || (nat_beq c 0x2028
                            || (nat_beq c 0x2029
                                || (nat_beq c 0x202f
                                    || (nat_beq c 0x205f || nat_beq c 0x3000)))))))))

unfoldable pub trim_start : Text → Text
unfolding is_whitespace
trim_start [] = []
trim_start (c ∷ s) = let rest = trim_start s in if is_whitespace c then rest else c ∷ s

unfoldable pub trim_end : Text → Text
unfolding is_whitespace
trim_end [] = []
trim_end (c ∷ s) =
    let rest = trim_end s in if is_whitespace c && is_empty rest then [] else c ∷ rest

unfoldable pub trim : Text → Text
unfolding trim_start trim_end
trim s = trim_end (trim_start s)

-- The word that is being read goes before the words that follow it.
unfoldable pub add_word : Text → List Text → List Text
add_word [] ws = ws
add_word (c ∷ w) ws = (c ∷ w) ∷ ws

-- `s.split_whitespace()`, with the word that has been read so far.
unfoldable pub split_words : Text → Text → List Text
unfolding is_whitespace add_word
split_words word [] = add_word word []
split_words word (c ∷ s) =
    let stop = split_words [] s in
    let go = split_words (word ++ c ∷ []) s in if is_whitespace c then add_word word stop else go

unfoldable pub split_whitespace : Text → List Text
unfolding split_words
split_whitespace s = split_words [] s

-- The UTF-8 bytes of a text, which `len` and `bytes` see.
unfoldable pub utf8_char : ℕ → Bytes
utf8_char c =
    if ltb c 0x80
    then c ∷ []
    else if ltb c 0x800
    then (0xc0 + c / 64) ∷ (0x80 + c % 64) ∷ []
    else if ltb c 0x10000
    then (0xe0 + c / 4096) ∷ (0x80 + c / 64 % 64) ∷ (0x80 + c % 64) ∷ []
    else (0xf0 + c / 262144) ∷ (0x80 + c / 4096 % 64) ∷ (0x80 + c / 64 % 64) ∷ (0x80 + c % 64) ∷ []

unfoldable pub utf8 : Text → Bytes
unfolding utf8_char
utf8 [] = []
utf8 (c ∷ s) = utf8_char c ++ utf8 s

-- `u64::to_string`: the decimal digits, the fuel being at least their number.
unfoldable pub decimal_fuel : ℕ → ℕ → Text → Text
decimal_fuel zero n digits = digits
decimal_fuel (suc f) n digits =
    let more = decimal_fuel f (n / 10) ((48 + n % 10) ∷ digits) in
    if ltb n 10 then (48 + n) ∷ digits else more

unfoldable pub decimal : ℕ → Text
unfolding decimal_fuel
decimal n = decimal_fuel 20 n []

-- `c.to_ascii_lowercase()`, and `eq_ignore_ascii_case`.
abbrev pub ascii_lower : ℕ → ℕ
ascii_lower c = if leb b'A' c && leb c b'Z' then c + 32 else c

abbrev pub eq_ignore_ascii_case : Text → Text → Bool
eq_ignore_ascii_case a b = text_beq (map ascii_lower a) (map ascii_lower b)

-- `s.lines()`: the lines without their line feed, nor a carriage return before it; what follows the
-- last line feed is a line if it is not empty. The line that is being read comes first.
unfoldable pub strip_cr : Text → Text
strip_cr [] = []
strip_cr (c ∷ s) = let rest = strip_cr s in if nat_beq c 13 && is_empty s then [] else c ∷ rest

unfoldable pub split_lines : Text → Text → List Text
unfolding strip_cr
split_lines line [] = if is_empty line then [] else line ∷ []
split_lines line (c ∷ s) =
    let stop = split_lines [] s in
    let go = split_lines (line ++ c ∷ []) s in if nat_beq c 10 then strip_cr line ∷ stop else go

unfoldable pub lines : Text → List Text
unfolding split_lines
lines s = split_lines [] s

-- `s.parse::<u64>()`: digits with an optional plus sign, of a value below 2^64.
unfoldable pub parse_digits : ℕ → Text → Option ℕ
parse_digits n [] = some n
parse_digits n (c ∷ s) =
    let rest = parse_digits (n * 10 + (c - 48)) s in
    if leb b'0' c && leb c b'9' && ltb (n * 10 + (c - 48)) (2 ^ 64) then rest else none

unfoldable pub parse_u64 : Text → Option ℕ
unfolding parse_digits
parse_u64 [] = none
parse_u64 (c ∷ []) = if nat_beq c b'+' then none else parse_digits 0 (c ∷ [])
parse_u64 (c ∷ d ∷ s) =
    if nat_beq c b'+' then parse_digits 0 (d ∷ s) else parse_digits 0 (c ∷ d ∷ s)
