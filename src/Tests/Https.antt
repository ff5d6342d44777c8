-- ===== src/Tests/Https.antt =====
-- src/http_client.rs: the candidates of one narinfo, and the choice among their outcomes.
use guix_p2p.Prelude.{
  ◌≡◌, refl, true, false, Option, none, some, List, [], ◌∷◌, if◌then◌else◌, nat_eq, text_eq,
  returns, replicate, any,
}
use guix_p2p.Crypto.{Bytes, Text}
use guix_p2p.Text.{chars, starts_with}
use guix_p2p.NarHash.{sha256_bytes}
use guix_p2p.Narinfo.{Narinfo}
use guix_p2p.Http.{
  NarCompression, NarDownload, download_candidates, Response, HttpNarDownload, Fetched, pairs,
  download_nar_http, zstd, uncompressed, body, fetched,
}
use guix_p2p.Http.Choice.{Marked, given, has_hash, is_broken, download_nar_http_choice}
use guix_p2p.Tests.Sample.{padding, nar}

abbrev pub info : Narinfo
info = record {
  store_path = chars "/gnu/store/abc-x";
  nar_hash = chars "000000000000000000000000000000000000000000000l2060h1";
  nar_size = 5;
  references = [];
  deriver = none;
  urls =
      record { url = chars "nar/x"; compression = chars "none"; file_size = 5 }
      ∷ record { url = chars "nar/z"; compression = chars "zstd"; file_size = 3 }
      ∷ [];
  signed_portion = [];
  signature = none;
}

abbrev bases : List Text
bases = chars "https://a" ∷ chars "https://b/" ∷ []

-- The first server has another NAR, the second one the right one.
abbrev respond : Text → Response
respond url = if starts_with (chars "https://a") url then body (9 ∷ []) else body nar

abbrev keep_bytes : NarCompression → Bytes → Option Bytes
keep_bytes k b = some b

abbrev hash : Bytes
hash = 1 ∷ 2 ∷ 3 ∷ 4 ∷ 5 ∷ replicate 27 0

abbrev downloads : List NarDownload
downloads =
    record { url = chars "nar/z"; compression = zstd }
    ∷ record { url = chars "nar/x"; compression = uncompressed }
    ∷ []

decoded : sha256_bytes padding info.nar_hash ≡ returns (some hash)
unfolding sha256_bytes
decoded = refl

candidates : download_candidates info ≡ some downloads
unfolding download_candidates
candidates = refl

download_nar_http_choice_example :
    (r : Fetched) × (download_nar_http padding respond keep_bytes bases info ≡ returns r)
    × ((d : HttpNarDownload) → r ≡ fetched d → Marked padding respond keep_bytes hash d)
    × (any
            (λ u. has_hash padding respond keep_bytes hash (given padding respond keep_bytes u))
            (pairs padding respond keep_bytes bases downloads)
          ≡ true
        → any
            (λ u. is_broken padding respond keep_bytes (given padding respond keep_bytes u))
            (pairs padding respond keep_bytes bases downloads)
          ≡ false
        → (d : HttpNarDownload) × (r ≡ fetched d) × (d.verified ≡ true))
download_nar_http_choice_example =
    download_nar_http_choice padding respond keep_bytes bases info hash downloads decoded candidates
      refl
