-- ===== src/Tests/Queries.antt =====
-- src/narinfo.rs, src/http_client.rs and src/daemon.rs: narinfos from servers, and a query session.
use guix_p2p.Prelude.{
  ◌==◌, replicate, ℕ, ◌≡◌, refl, Bool, true, false, none, some, List, [], ◌∷◌, ◌++◌, arith,
  if◌then◌else◌, nat_eq, text_eq, keys,
}
use guix_p2p.Crypto.{Bytes, Text}
use guix_p2p.Text.{chars, starts_with}
use guix_p2p.Config.{Config, p2p_first, off}
use guix_p2p.Narinfo.{Narinfo, NarinfoCache, get}
use guix_p2p.Narinfo.Parse.{parse_narinfo, parse_narinfo_signed}
use guix_p2p.Narinfo.Verify.{load_acl_keys, wrong_length, loaded, refused}
use guix_p2p.Narinfo.Loading.{is_cut, load_acl_keys_total}
use guix_p2p.Protocol.{newline, socket}
use guix_p2p.NarStore.{MetadataFormat}
use guix_p2p.Providers.{providers_found, nothing_new}
use guix_p2p.Http.Fetch.{
  Page, no_page, remembered, fetch_narinfo, first_signed, some_unsigned, verdict,
  fetch_narinfo-first_signed, IsTrusted, IsSigned, fetch_narinfo-IsTrusted, page,
}
use guix_p2p.Substitute.{State}
use guix_p2p.Query.{handled, handle_have, Moment, QueryState}
use guix_p2p.Query.Session.{request_config, Asked}
use guix_p2p.StorePath.{hash_part}
use guix_p2p.Query.Answers.{Session}
use guix_p2p.Tests.Sample.{padding}

abbrev line : Text → Text
line text = text ++ newline ∷ []

abbrev signed_text : Text
signed_text =
    line (chars "StorePath: /gnu/store/abc-x")
    ++ (line (chars "NarHash: sha256:000000000000000000000000000000000000000000000l2060h1")
        ++ line (chars "NarSize: 5"))

abbrev narinfo_text : Text
narinfo_text =
    signed_text
    ++ (line (chars "Signature: 1;host;c2ln")
        ++ (line (chars "URL: nar/x") ++ line (chars "Compression: gzip")))

-- A narinfo with another URL behind the same signed portion.
abbrev other_text : Text
other_text = signed_text ++ (line (chars "Signature: 1;host;eA==") ++ line (chars "URL: evil"))

parse_narinfo_signed_example :
    record (parse_narinfo narinfo_text) { urls = []; signature = none }
    ≡ record (parse_narinfo other_text) { urls = []; signature = none }
unfolding parse_narinfo
parse_narinfo_signed_example = parse_narinfo_signed narinfo_text other_text refl

parse_narinfo_fields : parse_narinfo narinfo_text ≡ record {
  store_path = chars "/gnu/store/abc-x";
  nar_hash = chars "sha256:000000000000000000000000000000000000000000000l2060h1";
  nar_size = 5;
  references = [];
  deriver = none;
  urls = record { url = chars "nar/x"; compression = chars "gzip"; file_size = 0 } ∷ [];
  signed_portion = signed_text;
  signature = some (chars "1;host;c2ln");
}
unfolding parse_narinfo
parse_narinfo_fields = refl

-- A key of two bytes is too short.
short_key :
    load_acl_keys padding (λ b. true) (some (chars "(acl (q #00#))")) ≡ refused (wrong_length 2)
unfolding load_acl_keys
short_key = refl

load_acl_keys_total_example :
    is_cut padding (λ b. true) (load_acl_keys padding (λ b. true) (some (chars "(acl (q #00#))")))
    ≡ false
load_acl_keys_total_example =
    load_acl_keys_total padding (λ b. true) (some (chars "(acl (q #00#))"))

abbrev acl : List Bytes
acl = (7 ∷ []) ∷ []

-- A narinfo counts as signed if it has a signature.
abbrev has_signature : Narinfo → List Bytes → Bool
has_signature info keys = elim info.signature [ none ↦ false | some s ↦ true ]

abbrev urls : List Text
urls = chars "https://a" ∷ chars "https://b/" ∷ []

-- The first server has no signature, the second one has.
abbrev request : Text → Page
request url =
    if starts_with (chars "https://a") url
    then page signed_text
    else if url == chars "https://b/abc.narinfo"
    then page narinfo_text
    else no_page

abbrev empty_cache : NarinfoCache
empty_cache = record { entries = []; ttl = 60 }

empty_cache_trusts :
    (now : ℕ) (part : Text) (info : Narinfo)
    → get now empty_cache part ≡ some info
    → has_signature info acl ≡ true
unfolding get
empty_cache_trusts now part info h = ground arith

fetch_narinfo-first_signed_example :
    let t = fetch_narinfo request has_signature 10 empty_cache urls (loaded acl) (chars "abc") in
    (t.1
      ≡ verdict request has_signature
          (some_unsigned request has_signature (chars "abc") acl urls)
          (first_signed request has_signature (chars "abc") acl urls))
    × (get 20 t.0 (chars "abc")
        ≡ remembered request has_signature 10 60 20
            (chars "abc")
            (chars "abc")
            (first_signed request has_signature (chars "abc") acl urls)
            (get 20 empty_cache (chars "abc")))
unfolding get
fetch_narinfo-first_signed_example =
    fetch_narinfo-first_signed request has_signature 10 20 empty_cache urls acl (chars "abc")
      (chars "abc") refl

fetch_narinfo-IsTrusted_example :
    let t = fetch_narinfo request has_signature 10 empty_cache urls (loaded acl) (chars "abc") in
    IsTrusted request has_signature acl t.0 × IsSigned request has_signature acl t.1
fetch_narinfo-IsTrusted_example =
    fetch_narinfo-IsTrusted request has_signature 10 empty_cache urls acl (chars "abc")
      empty_cache_trusts

abbrev config : Config
config = record {
  bootstrap_peers = [];
  substitute_urls = urls;
  substitute_policy = p2p_first;
  request_timeout_secs = 10;
  max_peers_per_download = 4;
  min_providers = 1;
  auto_seed_downloads = off;
  local_narinfo_path = none;
  block_size = 2;
  stall_timeout_secs = 5;
  max_in_flight_blocks_per_peer = 2;
  health_check_interval_secs = 60;
}

abbrev digest_of_nar : Bytes
digest_of_nar = 1 ∷ 2 ∷ 3 ∷ 4 ∷ 5 ∷ replicate 27 0

-- One provider is found, and the wait ends at its deadline.
abbrev found_one : Text → Moment
found_one path = record {
  now = 10;
  request = request;
  acl = loaded acl;
  wait_start = 0;
  notices =
      (0, 100, providers_found (padding.hex digest_of_nar) (5 ∷ []))
      ∷ (5000, 5000, nothing_new)
      ∷ [];
  has_providers = λ k. true;
}

-- The reply to the second command is not delivered.
abbrev asks : List Asked
asks =
    record {
      arrives = true;
      delivered = true;
      line = line (chars "have /gnu/store/abc-x");
      moment = found_one;
    }
    ∷ record {
      arrives = true;
      delivered = false;
      line = line (chars "info /gnu/store/abc-x");
      moment = found_one;
    }
    ∷ []

-- A narinfo belongs to the hash part of its store path.
abbrev Belongs : Text → Narinfo → Type 0
Belongs part info = hash_part info.store_path ≡ some part

abbrev start : QueryState
start = record { cache = empty_cache; reply = socket []; queries = []; events = [] }

abbrev substitutes : State
substitutes = record {
  builds = [];
  store = record { cache_dir = chars "nar"; block_size = 2; index = [] };
  files = [];
  log = [];
}

abbrev format : MetadataFormat
format = record { encode = λ m. []; decode = λ b. none }

abbrev header : Text
header = line (chars "mode: query-p2p-only")

-- The path is claimed, since a provider is found.
claimed :
    handle_have padding has_signature
      (request_config config true)
      true
      start
      ((chars "/gnu/store/abc-x", found_one (chars "/gnu/store/abc-x")) ∷ [])
    ≡ handled (record {
      cache = record { entries = (chars "abc", (70, parse_narinfo narinfo_text)) ∷ []; ttl = 60 };
      reply = socket (line (chars "fd4:/gnu/store/abc-x") ++ line (chars "fd4:"));
      queries = padding.hex digest_of_nar ∷ [];
      events =
          record {
            hash_part = chars "abc";
            store_path = some (chars "/gnu/store/abc-x");
            nar_size = some 5;
            nar_hash = some (padding.hex digest_of_nar);
            p2p_available = true;
          }
          ∷ [];
    })
unfolding handle_have request_config
claimed = refl
