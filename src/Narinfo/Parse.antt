-- ===== src/Narinfo/Parse.antt =====
-- src/narinfo.rs: `parse_narinfo`. It never fails.
use guix_p2p.Prelude.{
  ℕ, ◌≡◌, ap, Option, none, some, List, [], ◌∷◌, ◌++◌, if◌then◌else◌, nat_eq, text_beq, text_eq,
  Map, lookup, insert,
}
use guix_p2p.Crypto.{Text}
use guix_p2p.Text.{
  chars, strip_prefix, starts_with, split_find, split_once, trim, split_whitespace, lines,
  parse_u64,
}
use guix_p2p.Narinfo.{NarUrl, Narinfo}

abbrev or_default : Option Text → Text
or_default none = []
or_default (some t) = t

-- The signed portion, and what follows it, from the word on.
unfoldable pub split_signature : Text → Text × Option Text
unfolding split_find trim
split_signature input = elim (split_find (chars "Signature:") input) [
  | none ↦ (trim input, none)
  | some (above, below) ↦ (above, some below)
]

-- A later line with the same key replaces the value.
unfoldable pub read_fields : Map Text Text → List Text → Map Text Text
unfolding trim split_once
read_fields fields [] = fields
read_fields fields (line ∷ rest) = elim (split_once b':' (trim line)) [
  | none ↦ read_fields fields rest
  | some (key, value) ↦ read_fields (insert fields (trim key) (trim value)) rest
]

pub record Unsigned : Type 0 where
  pub url_list : List Text
  pub compressions : List Text
  pub file_sizes : List ℕ

abbrev size_of : Text → ℕ
size_of value = elim (parse_u64 value) [ none ↦ 0 | some n ↦ n ]

unfoldable pub read_entry : Unsigned → Text → Text → Unsigned
unfolding parse_u64
read_entry u key value =
    if text_beq key (chars "URL")
    then record u { url_list = u.url_list ++ value ∷ [] }
    else if text_beq key (chars "Compression")
    then record u { compressions = u.compressions ++ value ∷ [] }
    else if text_beq key (chars "FileSize")
    then record u { file_sizes = u.file_sizes ++ size_of value ∷ [] }
    else u

abbrev read_unsigned_line : Unsigned → Text → Unsigned
read_unsigned_line u line =
    if starts_with (chars "Signature:") line then u else elim (split_once b':' line) [
      | none ↦ u
      | some (key, value) ↦ read_entry u (trim key) (trim value)
    ]

unfoldable pub read_unsigned : Unsigned → List Text → Unsigned
unfolding trim starts_with split_once read_entry
read_unsigned u [] = u
read_unsigned u (line ∷ rest) = read_unsigned (read_unsigned_line u (trim line)) rest

-- The URLs with the compressions and the sizes at the same places, or their defaults.
unfoldable pub zip_urls : List Text → List Text → List ℕ → List NarUrl
zip_urls [] compressions sizes = []
zip_urls (u ∷ us) [] [] =
    record { url = u; compression = chars "none"; file_size = 0 } ∷ zip_urls us [] []
zip_urls (u ∷ us) [] (n ∷ ns) =
    record { url = u; compression = chars "none"; file_size = n } ∷ zip_urls us [] ns
zip_urls (u ∷ us) (c ∷ cs) [] =
    record { url = u; compression = c; file_size = 0 } ∷ zip_urls us cs []
zip_urls (u ∷ us) (c ∷ cs) (n ∷ ns) =
    record { url = u; compression = c; file_size = n } ∷ zip_urls us cs ns

unfoldable pub find_signature : List Text → Option Text
unfolding trim strip_prefix
find_signature [] = none
find_signature (line ∷ rest) = elim (strip_prefix (chars "Signature:") (trim line)) [
  | none ↦ find_signature rest
  | some value ↦ some (trim value)
]

unfoldable pub urls_of : Option Text → List NarUrl
unfolding lines read_unsigned zip_urls
urls_of none = []
urls_of (some remainder) =
    let empty : Unsigned = record { url_list = []; compressions = []; file_sizes = [] } in
    let u = read_unsigned empty (lines remainder) in zip_urls u.url_list u.compressions u.file_sizes

unfoldable pub signature_of : Option Text → Option Text
unfolding lines find_signature
signature_of none = none
signature_of (some remainder) = find_signature (lines remainder)

-- The record of the fields, with the URLs and the signature.
unfoldable pub narinfo_of : Map Text Text → Text → List NarUrl → Option Text → Narinfo
unfolding parse_u64 split_whitespace
narinfo_of fields signed_portion urls signature = record {
  store_path = or_default (lookup fields (chars "StorePath"));
  nar_hash = or_default (lookup fields (chars "NarHash"));
  nar_size = size_of (or_default (lookup fields (chars "NarSize")));
  references = split_whitespace (or_default (lookup fields (chars "References")));
  deriver = lookup fields (chars "Deriver");
  urls = urls;
  signed_portion = signed_portion;
  signature = signature;
}

unfoldable pub parse_narinfo : Text → Narinfo
unfolding split_signature lines read_fields narinfo_of urls_of signature_of
parse_narinfo input =
    let (signed_portion, remainder) = split_signature input in
    narinfo_of (read_fields [] (lines signed_portion)) signed_portion (urls_of remainder)
      (signature_of remainder)

-- What the signed portion says of a narinfo.
unfoldable pub signed_part : Text → Narinfo
unfolding lines read_fields narinfo_of
signed_part portion = narinfo_of (read_fields [] (lines portion)) portion [] none

-- Two texts whose narinfos have the same signed portion, parse to narinfos of the same store path, NAR
-- hash, NAR size, references and deriver: what stands from the signature on decides the URLs only.
pub parse_narinfo_signed :
    (a b : Text)
    → (parse_narinfo a).signed_portion ≡ (parse_narinfo b).signed_portion
    → record (parse_narinfo a) { urls = []; signature = none }
      ≡ record (parse_narinfo b) { urls = []; signature = none }
unfolding parse_narinfo narinfo_of signed_part
parse_narinfo_signed a b same = ap signed_part same
