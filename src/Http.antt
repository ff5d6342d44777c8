-- ===== src/Http.antt =====
-- src/http_client.rs: the candidates for a NAR, and the first of them whose hash is right. What a
-- server answers to a URL, and the decompression by third-party crates, are arguments. Progress
-- reports and the wait for bandwidth are left out, and an error keeps its kind alone.
pub mod Choice
pub mod Fetch
use guix_p2p.Prelude.{
  ◌+◌, ◌-◌, ◌*◌, ◌/◌, Bool, true, false, ◌&&◌, ◌||◌, Option, none, some, List, [], ◌∷◌, ◌++◌, map,
  nat_beq, if◌then◌else◌, ◌==◌, nat_eq, text_eq, Outcome, panics, returns, is_empty, any,
}
use guix_p2p.Crypto.{Bytes, Text, Crypto}
use guix_p2p.Text.{chars, starts_with}
use guix_p2p.NarHash.{sha256_bytes}
use guix_p2p.Narinfo.{NarUrl, Narinfo}

pub data NarCompression : Type 0 where
  zstd gzip lzip uncompressed : NarCompression

unfoldable pub as_str : NarCompression → Text
as_str zstd = chars "zstd"
as_str gzip = chars "gzip"
as_str lzip = chars "lzip"
as_str uncompressed = chars "none"

-- `none` is an unsupported compression.
unfoldable pub from_str : Text → Option NarCompression
from_str value =
    if value == chars "zstd"
    then some zstd
    else if value == chars "gzip"
    then some gzip
    else if value == chars "lzip"
    then some lzip
    else if value == chars "none" || is_empty value
    then some uncompressed
    else none

abbrev is_same : NarCompression → Option NarCompression → Bool
is_same p none = false
is_same p (some c) = as_str p == as_str c

pub record NarDownload : Type 0 where
  pub url : Text
  pub compression : NarCompression

-- The entries of one compression, in their order.
abbrev of_compression : NarCompression → List NarUrl → List NarDownload
of_compression pref [] = []
of_compression pref (u ∷ urls) =
    let rest = of_compression pref urls in
    if is_same pref (from_str u.compression)
    then record { url = u.url; compression = pref } ∷ rest
    else rest

-- `none` is the error of an unsupported compression, where nothing else is there.
unfoldable pub download_candidates : Narinfo → Option (List NarDownload)
unfolding as_str from_str
download_candidates narinfo =
    let candidates =
      of_compression zstd narinfo.urls
      ++ (of_compression gzip narinfo.urls
          ++ (of_compression lzip narinfo.urls ++ of_compression uncompressed narinfo.urls)) in
    let unsupported =
      any (λ (u : NarUrl). elim (from_str u.compression) [ none ↦ true | some _ ↦ false ])
        narinfo.urls in
    if is_empty candidates && unsupported then none else some candidates

abbrev pub trim_end_slashes : Text → Text
trim_end_slashes [] = []
trim_end_slashes (c ∷ s) =
    let rest = trim_end_slashes s in if nat_beq c b'/' && is_empty rest then [] else c ∷ rest

abbrev trim_start_slashes : Text → Text
trim_start_slashes [] = []
trim_start_slashes (c ∷ s) =
    let rest = trim_start_slashes s in if nat_beq c b'/' then rest else c ∷ s

unfoldable pub download_urls_from_bases : List Text → Text → List Text
unfolding starts_with
download_urls_from_bases base_urls nar_url =
    if starts_with (chars "http://") nar_url || starts_with (chars "https://") nar_url
    then nar_url ∷ []
    else map (λ base_url. trim_end_slashes base_url ++ b'/' ∷ trim_start_slashes nar_url) base_urls

pub data Response : Type 0 where
  not_sent bad_status body_broken : Response
  body : Bytes → Response

pub data HttpError : Type 0 where
  not_found unsupported invalid_hash broken candidates_failed : HttpError

pub record HttpNarDownload : Type 0 where
  pub content : Bytes
  pub source_url : Text
  pub verified : Bool

pub data Fetched : Type 0 where
  failed : HttpError → Fetched
  fetched : HttpNarDownload → Fetched

-- What `last_error` and `last_mismatched_download` make of the end of the loop.
abbrev pub ending : Bool → Option HttpNarDownload → Fetched
ending saw_error (some d) = fetched d
ending true none = failed candidates_failed
ending false none = failed not_found

module _ (c : Crypto) (respond : Text → Response)
    (decompress_with : NarCompression → Bytes → Option Bytes) where
  unfoldable pub decompress : NarCompression → Bytes → Option Bytes
  decompress zstd b = decompress_with zstd b
  decompress gzip b = decompress_with gzip b
  decompress lzip b = decompress_with lzip b
  decompress uncompressed b = some b

  -- What a URL gives: the NAR, an error after which the next is tried, or one that ends the loop.
  unfoldable pub obtain : NarCompression → Response → Option (Option Bytes)
  unfolding decompress
  obtain k not_sent = some none
  obtain k bad_status = some none
  obtain k body_broken = none
  obtain k (body b) = some (decompress k b)

  abbrev pub compare_hash : Outcome (Option Bytes) → Bytes → Outcome (Option Bool)
  compare_hash panics nar_data = panics
  compare_hash (returns none) nar_data = returns none
  compare_hash (returns (some expected)) nar_data = returns (some (c.sha256 nar_data == expected))

  unfoldable pub nar_hash_matches : Text → Bytes → Outcome (Option Bool)
  unfolding sha256_bytes
  nar_hash_matches expected nar_data = compare_hash (sha256_bytes c expected) nar_data

  abbrev pub unverified : Text → Bytes → HttpNarDownload
  unverified url nar = record { content = nar; source_url = url; verified = false }

  abbrev pub after_match : Text → Bytes → Outcome (Option Bool) → Outcome Fetched → Outcome Fetched
  after_match url nar panics next = panics
  after_match url nar (returns none) next = returns (failed invalid_hash)
  after_match url nar (returns (some true)) next =
      returns (fetched (record { content = nar; source_url = url; verified = true }))
  after_match url nar (returns (some false)) next = next

  abbrev pub after_obtain :
      Option (Option Bytes) → Outcome Fetched → (Bytes → Outcome Fetched) → Outcome Fetched
  after_obtain none next check = returns (failed broken)
  after_obtain (some none) next check = next
  after_obtain (some (some nar)) next check = check nar

  -- The two nested loops, over the pairs of a URL and its compression.
  unfoldable pub try_all :
      Text → List (Text × NarCompression) → Bool → Option HttpNarDownload → Outcome Fetched
  unfolding obtain nar_hash_matches
  try_all nar_hash [] saw_error mismatched = returns (ending saw_error mismatched)
  try_all nar_hash (u ∷ rest) saw_error mismatched =
      after_obtain (obtain u.1 (respond u.0)) (try_all nar_hash rest true mismatched) (λ nar.
        after_match u.0 nar (nar_hash_matches nar_hash nar)
          (try_all nar_hash rest saw_error (some (unverified u.0 nar))))

  abbrev pub pairs : List Text → List NarDownload → List (Text × NarCompression)
  pairs bases [] = []
  pairs bases (d ∷ downloads) =
      map (λ url. (url, d.compression)) (download_urls_from_bases bases d.url)
      ++ pairs bases downloads

  unfoldable pub download_nar_http : List Text → Narinfo → Outcome Fetched
  unfolding download_candidates download_urls_from_bases try_all
  download_nar_http substitute_urls narinfo = elim (download_candidates narinfo) [
    | none ↦ returns (failed unsupported)
    | some downloads ↦
        if is_empty downloads
        then returns (failed not_found)
        else try_all narinfo.nar_hash (pairs substitute_urls downloads) false none
  ]
