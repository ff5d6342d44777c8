-- ===== src/Narinfo.antt =====
-- src/narinfo.rs: the fields of a narinfo, and the cache of narinfos by hash part. Instants are
-- seconds of the monotonic clock; the time of a call is an argument.
pub mod Parse
pub mod Verify
pub mod Loading
use guix_p2p.Prelude.{
  lookup-insert, arith, ◌≡◌, ◌==◌, text_eq, ℕ, ◌+◌, Option, none, some, List, [], map, ltb, leb,
  if◌then◌else◌, nat_eq, text_eq, keep, Map, lookup, insert,
}
use guix_p2p.Crypto.{Text}

pub record NarUrl : Type 0 where
  pub url : Text
  pub compression : Text
  pub file_size : ℕ

pub record Narinfo : Type 0 where
  pub store_path : Text
  pub nar_hash : Text
  pub nar_size : ℕ
  pub references : List Text
  pub deriver : Option Text
  pub urls : List NarUrl
  pub signed_portion : Text
  pub signature : Option Text

pub record NarinfoCache : Type 0 where
  pub entries : Map Text (ℕ × Narinfo)
  pub ttl : ℕ

unfoldable pub new : ℕ → NarinfoCache
new ttl_secs = record { entries = []; ttl = ttl_secs }

unfoldable pub get : ℕ → NarinfoCache → Text → Option Narinfo
get now cache hash_part = elim (lookup cache.entries hash_part) [
  | none ↦ none
  | some (expiry, info) ↦ if leb expiry now then none else some info
]

unfoldable pub put : ℕ → NarinfoCache → Text → Narinfo → NarinfoCache
put now cache hash_part narinfo = record cache {
  entries = insert cache.entries hash_part (now + cache.ttl, narinfo);
}

unfoldable pub active_entries : ℕ → NarinfoCache → List Narinfo
active_entries now cache =
    map (λ e. e.1.1) (keep (λ (e : Text × (ℕ × Narinfo)). ltb now e.1.0) cache.entries)

-- After a narinfo is put into the cache, a lookup of its hash part returns it until the time to live
-- is over, and nothing from then on; every other lookup is as before.
pub get-put :
    (now later : ℕ) (cache : NarinfoCache) (hash_part other : Text) (narinfo : Narinfo)
    → get later (put now cache hash_part narinfo) other ≡ (
        if hash_part == other
        then if leb (now + cache.ttl) later then none else some narinfo
        else get later cache other)
unfolding get put
get-put now later cache hash_part other narinfo =
    ground (arith, lookup-insert cache.entries hash_part other (now + cache.ttl, narinfo))
