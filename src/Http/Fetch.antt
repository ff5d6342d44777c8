-- ===== src/Http/Fetch.antt =====
-- src/http_client.rs: `fetch_narinfo` and `fetch_verified_narinfo`. The answer to a request and the
-- check of a signature are arguments.
use guix_p2p.Prelude.{
  leb, ◌+◌, Bool-cases, ==→≡, ◌==◌, sym, subst, ◌∙◌, refl, inr, arith, inl, Option-cases, ap, ◌||◌,
  not, any, ◌≡◌, ℕ, Bool, true, false, Option, none, some, List, [], ◌∷◌, ◌++◌, if◌then◌else◌,
  nat_eq, text_eq, keys, All,
}
use guix_p2p.Crypto.{Bytes, Text}
use guix_p2p.Text.{chars}
use guix_p2p.Narinfo.{get-put, Narinfo, NarinfoCache, get, put}
use guix_p2p.Narinfo.Parse.{parse_narinfo}
use guix_p2p.Narinfo.Verify.{AclError, Keys, loaded, refused}
use guix_p2p.Http.{any, trim_end_slashes}

-- The text of a successful response; a missing page and every other failure are passed over.
pub data Page : Type 0 where
  page : Text → Page
  no_page : Page

pub data FetchError : Type 0 where
  acl_failed : AclError → FetchError
  bad_signature : FetchError
  narinfo_not_found : FetchError

pub data FetchResult : Type 0 where
  found : Narinfo → FetchResult
  fetch_failed : FetchError → FetchResult

unfoldable pub narinfo_url : Text → Text → Text
narinfo_url base_url hash_part = trim_end_slashes base_url ++ b'/' ∷ (hash_part ++ chars ".narinfo")

module _ (request : Text → Page) (is_signed : Narinfo → List Bytes → Bool) where
  unfoldable pub fetch_narinfo_from_url : Text → Option Narinfo
  unfolding parse_narinfo
  fetch_narinfo_from_url url = elim (request url) [
    | no_page ↦ none
    | page text ↦ some (parse_narinfo text)
  ]

  -- The loop over the base URLs; the flag is `saw_bad_signature`.
  unfoldable pub try_bases : Text → List Bytes → Bool → List Text → FetchResult
  unfolding fetch_narinfo_from_url narinfo_url
  try_bases hash_part keys saw [] = fetch_failed (if saw then bad_signature else narinfo_not_found)
  try_bases hash_part keys saw (base ∷ bases) =
      elim (fetch_narinfo_from_url (narinfo_url base hash_part)) [
        | none ↦ try_bases hash_part keys saw bases
        | some info ↦
            let rest = try_bases hash_part keys true bases in
            if is_signed info keys then found info else rest
      ]

  unfoldable pub fetch_verified_narinfo : List Text → Text → List Bytes → FetchResult
  unfolding try_bases
  fetch_verified_narinfo substitute_urls hash_part keys =
      try_bases hash_part keys false substitute_urls

  -- The cache after the call, and the result.
  unfoldable pub keep_found : ℕ → NarinfoCache → Text → FetchResult → NarinfoCache × FetchResult
  unfolding put
  keep_found now cache hash_part (found info) = (put now cache hash_part info, found info)
  keep_found now cache hash_part (fetch_failed e) = (cache, fetch_failed e)

  unfoldable pub fetch_with :
      ℕ → NarinfoCache → List Text → Text → Keys → NarinfoCache × FetchResult
  unfolding keep_found fetch_verified_narinfo
  fetch_with now cache urls hash_part (refused e) = (cache, fetch_failed (acl_failed e))
  fetch_with now cache urls hash_part (loaded keys) =
      keep_found now cache hash_part (fetch_verified_narinfo urls hash_part keys)

  -- The result, where the cache has answered or not.
  unfoldable pub fetch_unless :
      Option Narinfo → ℕ → NarinfoCache → List Text → Text → Keys → NarinfoCache × FetchResult
  unfolding fetch_with
  fetch_unless (some info) now cache urls hash_part acl = (cache, found info)
  fetch_unless none now cache urls hash_part acl = fetch_with now cache urls hash_part acl

  unfoldable pub fetch_narinfo :
      ℕ → NarinfoCache → List Text → Keys → Text → NarinfoCache × FetchResult
  unfolding get fetch_unless
  fetch_narinfo now cache urls acl hash_part =
      fetch_unless (get now cache hash_part) now cache urls hash_part acl

  -- The first base URL whose narinfo is signed.
  abbrev pub first_signed : Text → List Bytes → List Text → Option Narinfo
  first_signed hash_part keys [] = none
  first_signed hash_part keys (base ∷ bases) =
      elim (fetch_narinfo_from_url (narinfo_url base hash_part)) [
        | none ↦ first_signed hash_part keys bases
        | some info ↦ if is_signed info keys then some info else first_signed hash_part keys bases
      ]

  -- Some server has a narinfo that is not signed.
  abbrev pub some_unsigned : Text → List Bytes → List Text → Bool
  some_unsigned hash_part keys bases =
      any
        (λ base. elim (fetch_narinfo_from_url (narinfo_url base hash_part)) [
          | none ↦ false
          | some info ↦ not (is_signed info keys)
        ])
        bases

  abbrev pub verdict : Bool → Option Narinfo → FetchResult
  verdict bad (some info) = found info
  verdict bad none = fetch_failed (if bad then bad_signature else narinfo_not_found)

  try_bases-first_signed :
      (hash_part : Text) (keys : List Bytes) (saw : Bool) (bases : List Text)
      → try_bases hash_part keys saw bases
        ≡ verdict (saw || some_unsigned hash_part keys bases) (first_signed hash_part keys bases)
  unfolding try_bases
  try_bases-first_signed hash_part keys true [] = refl
  try_bases-first_signed hash_part keys false [] = refl
  try_bases-first_signed hash_part keys saw (base ∷ bases) =
      let missed = try_bases-first_signed hash_part keys saw bases in
      let bad = try_bases-first_signed hash_part keys true bases in
      elim (Option-cases (fetch_narinfo_from_url (narinfo_url base hash_part))) [
        | inl e ↦ ground (arith, e, missed)
        | inr (info, e) ↦ ground (arith, e, bad)
      ]

  -- The narinfo that a cache with this time to live gives for a hash part at a later time, after it has
  -- taken one in at `now`, if one was found; `before` is what it would have given.
  abbrev pub remembered : ℕ → ℕ → ℕ → Text → Text → Option Narinfo → Option Narinfo → Option Narinfo
  remembered now ttl later hash_part other none before = before
  remembered now ttl later hash_part other (some info) before =
      if hash_part == other then if leb (now + ttl) later then none else some info else before

  keep_found-verdict :
      (now later : ℕ) (cache : NarinfoCache) (hash_part other : Text) (bad : Bool)
      (o : Option Narinfo)
      → let t = keep_found now cache hash_part (verdict bad o) in
        (t.1 ≡ verdict bad o)
        × (get later t.0 other
            ≡ remembered now cache.ttl later hash_part other o (get later cache other))
  unfolding keep_found
  keep_found-verdict now later cache hash_part other bad none = (refl, refl)
  keep_found-verdict now later cache hash_part other bad (some info) =
      (refl, get-put now later cache hash_part other info)

  -- Where the narinfo is not in the cache and the keys are loaded, `fetch_narinfo` returns the narinfo
  -- of the first base URL that has a signed one, and from then on the cache gives this one for the hash
  -- part until its time to live is over; for every other hash part, and where no base URL has a signed
  -- one, the cache gives what it gave before. Without one, the error is that of a bad signature exactly
  -- if some base URL has a narinfo that is not signed.
  pub fetch_narinfo-first_signed :
      (now later : ℕ) (cache : NarinfoCache) (urls : List Text) (acl : List Bytes)
      (hash_part other : Text)
      → get now cache hash_part ≡ none
      → let t = fetch_narinfo now cache urls (loaded acl) hash_part in
        (t.1 ≡ verdict (some_unsigned hash_part acl urls) (first_signed hash_part acl urls))
        × (get later t.0 other
            ≡ remembered now cache.ttl later hash_part other
                (first_signed hash_part acl urls)
                (get later cache other))
  unfolding fetch_narinfo fetch_unless fetch_with fetch_verified_narinfo
  fetch_narinfo-first_signed now later cache urls acl hash_part other miss =
      let o = first_signed hash_part acl urls in
      let bad = some_unsigned hash_part acl urls in
      let same : fetch_narinfo now cache urls (loaded acl) hash_part
          ≡ keep_found now cache hash_part (verdict bad o) =
        ap (λ c. fetch_unless c now cache urls hash_part (loaded acl)) miss
        ∙ ap (keep_found now cache hash_part) (try_bases-first_signed hash_part acl false urls) in
      subst
        (λ (t : NarinfoCache × FetchResult).
          (t.1 ≡ verdict bad o)
          × (get later t.0 other
              ≡ remembered now cache.ttl later hash_part other o (get later cache other)))
        (sym same) (keep_found-verdict now later cache hash_part other bad o)

  -- Every narinfo that the cache gives at any time has the property for its hash part.
  abbrev pub Keeps : (Text → Narinfo → Type 0) → NarinfoCache → Type 0
  Keeps good cache =
      (now : ℕ) (hash_part : Text) (info : Narinfo)
      → get now cache hash_part ≡ some info
      → good hash_part info

  -- What is found has the property.
  abbrev pub Gives : (Narinfo → Type 0) → FetchResult → Type 0
  Gives good (found info) = good info
  Gives good (fetch_failed e) = Unit

  -- Every signed narinfo that a server has at the address of a hash part has the property for it.
  abbrev pub Publishes : (Text → Narinfo → Type 0) → List Bytes → List Text → Type 0
  Publishes good acl urls =
      All
        (λ base.
          (hash_part : Text) (info : Narinfo)
          → fetch_narinfo_from_url (narinfo_url base hash_part) ≡ some info
          → is_signed info acl ≡ true
          → good hash_part info)
        urls

  -- Every narinfo that the cache gives at any time has a signature by one of the keys.
  abbrev pub IsTrusted : List Bytes → NarinfoCache → Type 0
  IsTrusted acl cache = Keeps (λ hash_part info. is_signed info acl ≡ true) cache

  -- What is found has a signature by one of the keys.
  abbrev pub IsSigned : List Bytes → FetchResult → Type 0
  IsSigned acl r = Gives (λ info. is_signed info acl ≡ true) r

  first_signed_sound :
      (good : Text → Narinfo → Type 0) (hash_part : Text) (acl : List Bytes) (urls : List Text)
      (info : Narinfo)
      → Publishes good acl urls
      → first_signed hash_part acl urls ≡ some info
      → good hash_part info
  first_signed_sound good hash_part acl [] info p h = absurd (ground arith)
  first_signed_sound good hash_part acl (base ∷ urls) info p h =
      let later = first_signed_sound good hash_part acl urls info p.1 in
      elim (Option-cases (fetch_narinfo_from_url (narinfo_url base hash_part))) [
        | inl e ↦ later (ground (arith, e, h))
        | inr (i, e) ↦ elim (Bool-cases (is_signed i acl)) [
          | inl signed ↦
              let same : i ≡ info = ground (arith, e, h, signed) in
              subst (good hash_part) same (p.0 hash_part i e signed)
          | inr unsigned ↦ later (ground (arith, e, h, unsigned))
        ]
      ]

  verdict-Gives :
      (good : Narinfo → Type 0) (bad : Bool) (o : Option Narinfo)
      → ((info : Narinfo) → o ≡ some info → good info)
      → Gives good (verdict bad o)
  verdict-Gives good bad none h = tt
  verdict-Gives good bad (some info) h = h info refl

  keep_found-Keeps :
      (good : Text → Narinfo → Type 0) (now : ℕ) (cache : NarinfoCache) (hash_part : Text)
      (r : FetchResult)
      → Keeps good cache
      → Gives (good hash_part) r
      → let t = keep_found now cache hash_part r in Keeps good t.0 × Gives (good hash_part) t.1
  unfolding keep_found
  keep_found-Keeps good now cache hash_part (fetch_failed e) h s = (h, tt)
  keep_found-Keeps good now cache hash_part (found info) h s = (
    (λ later other i e.
        let given = get-put now later cache hash_part other info in
        elim (Bool-cases (hash_part == other)) [
          | inl same ↦
              let here : info ≡ i = ground (arith, given, e, same) in
              let part : hash_part ≡ other = ==→≡ {A = Text} hash_part other same in
              subst (good other) here (subst (λ k. good k info) part s)
          | inr differ ↦ h later other i (ground (arith, given, e, differ))
        ]),
    s,
  )

  fetch_with-Keeps :
      (good : Text → Narinfo → Type 0) (now : ℕ) (cache : NarinfoCache) (urls : List Text)
      (acl : List Bytes) (hash_part : Text)
      → Publishes good acl urls
      → Keeps good cache
      → let t = fetch_with now cache urls hash_part (loaded acl) in
        Keeps good t.0 × Gives (good hash_part) t.1
  unfolding fetch_with fetch_verified_narinfo
  fetch_with-Keeps good now cache urls acl hash_part p h =
      let o = first_signed hash_part acl urls in
      let bad = some_unsigned hash_part acl urls in
      let given =
        verdict-Gives (good hash_part) bad o
          (λ info e. first_signed_sound good hash_part acl urls info p e) in
      subst
        (λ r.
          let t = keep_found now cache hash_part r in Keeps good t.0 × Gives (good hash_part) t.1)
        (sym (try_bases-first_signed hash_part acl false urls))
        (keep_found-Keeps good now cache hash_part (verdict bad o) h given)

  fetch_unless-Keeps :
      (good : Text → Narinfo → Type 0) (now : ℕ) (cache : NarinfoCache) (urls : List Text)
      (acl : List Bytes) (hash_part : Text) (c : Option Narinfo)
      → Publishes good acl urls
      → get now cache hash_part ≡ c
      → Keeps good cache
      → let t = fetch_unless c now cache urls hash_part (loaded acl) in
        Keeps good t.0 × Gives (good hash_part) t.1
  unfolding fetch_unless
  fetch_unless-Keeps good now cache urls acl hash_part none p e h =
      fetch_with-Keeps good now cache urls acl hash_part p h
  fetch_unless-Keeps good now cache urls acl hash_part (some info) p e h =
      (h, h now hash_part info e)

  -- What holds of the narinfos in the cache and of the signed ones that the servers have at the address
  -- of a hash part holds of what is found for it, and of the cache afterwards.
  pub fetch_narinfo-Keeps :
      (good : Text → Narinfo → Type 0) (now : ℕ) (cache : NarinfoCache) (urls : List Text)
      (acl : List Bytes) (hash_part : Text)
      → Publishes good acl urls
      → Keeps good cache
      → let t = fetch_narinfo now cache urls (loaded acl) hash_part in
        Keeps good t.0 × Gives (good hash_part) t.1
  unfolding fetch_narinfo
  fetch_narinfo-Keeps good now cache urls acl hash_part p h =
      fetch_unless-Keeps good now cache urls acl hash_part (get now cache hash_part) p refl h

  signed_urls :
      (urls : List Text) (acl : List Bytes)
      → Publishes (λ part info. is_signed info acl ≡ true) acl urls
  signed_urls [] acl = tt
  signed_urls (base ∷ urls) acl = ((λ part info e signed. signed), signed_urls urls acl)

  -- While the keys of the ACL stay the same, every narinfo in the cache has a signature by one of them,
  -- whatever the servers answer, and so has every narinfo that `fetch_narinfo` returns.
  pub fetch_narinfo-IsTrusted :
      (now : ℕ) (cache : NarinfoCache) (urls : List Text) (acl : List Bytes) (hash_part : Text)
      → IsTrusted acl cache
      → let t = fetch_narinfo now cache urls (loaded acl) hash_part in
        IsTrusted acl t.0 × IsSigned acl t.1
  fetch_narinfo-IsTrusted now cache urls acl hash_part h =
      fetch_narinfo-Keeps (λ part info. is_signed info acl ≡ true) now cache urls acl hash_part
        (signed_urls urls acl) h
