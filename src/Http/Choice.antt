-- ===== src/Http/Choice.antt =====
-- src/http_client.rs: which download `download_nar_http` returns.
use guix_p2p.Prelude.{
  is_empty, ◌∙◌, sym, [], subst, refl, any, arith, inr, inl, true, ◌⊎◌, false, Outcome, List, Bool,
  none, ap, ◌≡◌, Option, some, ◌==◌, nat_eq, text_eq, returns,
}
use guix_p2p.Crypto.{Bytes, Text, Crypto}
use guix_p2p.NarHash.{sha256_bytes}
use guix_p2p.Narinfo.{Narinfo}
use guix_p2p.Http.{
  pairs, is_empty, download_candidates, NarDownload, download_nar_http, broken, unverified,
  after_match, after_obtain, ◌∷◌, any, not_found, fetched, candidates_failed, Fetched, compare_hash,
  false, Outcome, true, failed, Bool, try_all, obtain, none, List, NarCompression, Response,
  HttpNarDownload, nar_hash_matches,
}

module _ (c : Crypto) (respond : Text → Response)
    (decompress_with : NarCompression → Bytes → Option Bytes) where
  -- A download that is marked as verified has the hash, and only such a one.
  abbrev pub Marked : Bytes → HttpNarDownload → Type 0
  Marked h d = d.verified ≡ (c.sha256 d.content == h)

  matches_lem :
      (nar_hash : Text) (h nar : Bytes)
      → sha256_bytes c nar_hash ≡ returns (some h)
      → nar_hash_matches c respond decompress_with nar_hash nar ≡ returns (some (c.sha256 nar == h))
  unfolding nar_hash_matches
  matches_lem nar_hash h nar e = ap (λ o. compare_hash c respond decompress_with o nar) e

  -- What a pair of a URL and its compression gives.
  abbrev pub given : Text × NarCompression → Option (Option Bytes)
  given u = obtain c respond decompress_with u.1 (respond u.0)

  pub has_hash : Bytes → Option (Option Bytes) → Bool
  has_hash h none = false
  has_hash h (some none) = false
  has_hash h (some (some nar)) = c.sha256 nar == h

  pub is_broken : Option (Option Bytes) → Bool
  is_broken none = true
  is_broken (some o) = false

  -- The result of the loop, where the hash of the narinfo is `h`.
  abbrev Chosen : Bytes → List (Text × NarCompression) → Outcome Fetched → Type 0
  Chosen h urls o =
      (r : Fetched) × (o ≡ returns r)
      × ((d : HttpNarDownload) → r ≡ fetched d → Marked h d)
      × (any (λ u. has_hash h (given u)) urls ≡ true
          → any (λ u. is_broken (given u)) urls ≡ false
          → (d : HttpNarDownload) × (r ≡ fetched d) × (d.verified ≡ true))

  nested-cases :
      (o : Option (Option Bytes))
      → (o ≡ none) ⊎ ((o ≡ some none) ⊎ ((nar : Bytes) × (o ≡ some (some nar))))
  nested-cases none = inl refl
  nested-cases (some none) = inr (inl refl)
  nested-cases (some (some nar)) = inr (inr (nar, refl))

  given-cases :
      (u : Text × NarCompression)
      → (given u ≡ none) ⊎ ((given u ≡ some none) ⊎ ((nar : Bytes) × (given u ≡ some (some nar))))
  given-cases u = nested-cases (given u)

  -- One turn: `o` is what the URL gives, and `f` the result of the hash test.
  turn-Chosen :
      (h : Bytes) (u : Text × NarCompression) (urls : List (Text × NarCompression))
      (o : Option (Option Bytes)) (next : Outcome Fetched) (check : Bytes → Outcome Fetched)
      → given u ≡ o
      → Chosen h urls next
      → ((nar : Bytes) → o ≡ some (some nar) → Chosen h (u ∷ urls) (check nar))
      → Chosen h (u ∷ urls) (after_obtain c respond decompress_with o next check)
  unfolding has_hash is_broken
  turn-Chosen h u urls none next check g n t =
      let bad : is_broken (given u) ≡ true = ap is_broken g in
      (failed broken, refl, λ d q. absurd (ground arith), λ a b. absurd (ground (arith, bad, b)))
  turn-Chosen h u urls (some none) next check g (r, run, marked, found) t =
      let no : has_hash h (given u) ≡ false = ap (has_hash h) g in
      (r, run, marked, λ a b. found (ground (arith, no, a)) (ground (arith, b)))
  turn-Chosen h u urls (some (some nar)) next check g n t = t nar refl

  match-Chosen :
      (h : Bytes) (u : Text × NarCompression) (urls : List (Text × NarCompression)) (nar : Bytes)
      (same : Bool) (next : Outcome Fetched)
      → given u ≡ some (some nar)
      → (c.sha256 nar == h) ≡ same
      → (same ≡ false → Chosen h urls next)
      → Chosen h
          (u ∷ urls)
          (after_match c respond decompress_with u.0 nar (returns (some same)) next)
  unfolding has_hash is_broken
  match-Chosen h u urls nar true next g e n =
      let d : HttpNarDownload = record { content = nar; source_url = u.0; verified = true } in
      (
        fetched d,
        refl,
        λ d' q. let same : d ≡ d' = ground arith in subst (Marked h) same (sym e),
        λ a b. (d, refl, refl),
      )
  match-Chosen h u urls nar false next g e n =
      let (r, run, marked, found) = n refl in
      let no : has_hash h (given u) ≡ false = ap (has_hash h) g ∙ e in
      (r, run, marked, λ a b. found (ground (arith, no, a)) (ground (arith, b)))

  try_all-Chosen :
      (nar_hash : Text) (h : Bytes) (urls : List (Text × NarCompression)) (saw : Bool)
      (mis : Option HttpNarDownload)
      → sha256_bytes c nar_hash ≡ returns (some h)
      → ((d : HttpNarDownload) → mis ≡ some d → Marked h d)
      → Chosen h urls (try_all c respond decompress_with nar_hash urls saw mis)
  unfolding try_all
  try_all-Chosen nar_hash h [] true none e m =
      (failed candidates_failed, refl, λ d q. absurd (ground arith), λ a b. absurd (ground arith))
  try_all-Chosen nar_hash h [] false none e m =
      (failed not_found, refl, λ d q. absurd (ground arith), λ a b. absurd (ground arith))
  try_all-Chosen nar_hash h [] saw (some d) e m = (
    fetched d,
    refl,
    λ d' q. let same : d ≡ d' = ground arith in subst (Marked h) same (m d refl),
    λ a b. absurd (ground arith),
  )
  try_all-Chosen nar_hash h (u ∷ urls) saw mis e m =
      turn-Chosen h u urls (given u) _ _ refl (try_all-Chosen nar_hash h urls true mis e m)
        (λ nar g.
          let left = unverified c respond decompress_with u.0 nar in
          let next = try_all c respond decompress_with nar_hash urls saw (some left) in
          subst (λ o. Chosen h (u ∷ urls) (after_match c respond decompress_with u.0 nar o next))
            (sym (matches_lem nar_hash h nar e))
            (match-Chosen h u urls nar (c.sha256 nar == h) next g refl (λ differs.
              try_all-Chosen nar_hash h urls saw (some left) e (λ d q.
                let same : left ≡ d = ground arith in subst (Marked h) same (sym differs)))))

  -- Where the narinfo's hash decodes to `h` and there is a candidate, `download_nar_http` does not
  -- panic. A download that it returns is marked as verified exactly if its SHA-256 is `h`. If some
  -- candidate URL gives a NAR with this hash, and the response of no URL breaks off in its body, the
  -- result is a verified download, whatever the other URLs give.
  pub download_nar_http_choice :
      (substitute_urls : List Text) (narinfo : Narinfo) (h : Bytes) (downloads : List NarDownload)
      → sha256_bytes c narinfo.nar_hash ≡ returns (some h)
      → download_candidates narinfo ≡ some downloads
      → is_empty downloads ≡ false
      → (r : Fetched) × (download_nar_http c respond decompress_with substitute_urls narinfo
          ≡ returns r)
        × ((d : HttpNarDownload) → r ≡ fetched d → Marked h d)
        × (any
                (λ u. has_hash h (given u))
                (pairs c respond decompress_with substitute_urls downloads)
              ≡ true
            → any
                (λ u. is_broken (given u))
                (pairs c respond decompress_with substitute_urls downloads)
              ≡ false
            → (d : HttpNarDownload) × (r ≡ fetched d) × (d.verified ≡ true))
  unfolding download_nar_http
  download_nar_http_choice substitute_urls narinfo h downloads e some_found full =
      let (r, run, marked, found) =
        try_all-Chosen narinfo.nar_hash h
          (pairs c respond decompress_with substitute_urls downloads) false none e
          (λ d q. absurd (ground arith)) in
      (r, ground (arith, some_found, full, run), marked, found)
