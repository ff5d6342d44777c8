-- ===== src/Query/Claims.antt =====
-- src/daemon.rs: what `have` answers: the paths that are claimed, and why.
use guix_p2p.Prelude.{
  [], leb→le, arith, leb, ◌∷◌, none, ◌++◌, if_either, if_both, inl, refl, ◌≢◌, inr, ℕ, ◌*◌, ◌≤◌,
  min, ◌≡◌, sym, subst, ◌⊎◌, Bool, true, Option, some, List, nat_eq, text_eq, Outcome, panics,
  returns, length,
}
use guix_p2p.Crypto.{Bytes, Text, Crypto}
use guix_p2p.Config.{http_first, p2p_first, SubstitutePolicy, Config, p2p_only}
use guix_p2p.NarHash.{sha256_bytes}
use guix_p2p.Narinfo.{Narinfo, get}
use guix_p2p.Narinfo.Verify.{loaded}
use guix_p2p.Protocol.{write_line}
use guix_p2p.Swarm.Codec.{PeerId}
use guix_p2p.Providers.{wait_for_providers_for_duration}
use guix_p2p.StorePath.{hash_part}
use guix_p2p.Http.Fetch.{
  fetch_failed, FetchResult, fetch_narinfo, Gives, Publishes, fetch_narinfo-Keeps, found,
}
use guix_p2p.Query.{
  have_fallback, have_p2p, query_providers, have_path, have_by, claim_p2p, claim, fetch_for, Moment,
  QueryState, Handled, write_reply, publish, announce, handled, broken, pending,
}

-- `acl` are the keys of the ACL, which stay the same, and `Belongs` is any relation of a hash part and a
-- narinfo that the cache and the servers respect.
module _ (crypto : Crypto) (is_signed : Narinfo → List Bytes → Bool) (config : Config)
    (event_tx : Bool) (acl : List Bytes) (Belongs : Text → Narinfo → Type 0) where
  -- A narinfo with a signature that belongs to the hash part.
  abbrev pub IsGood : Text → Narinfo → Type 0
  IsGood part info = (is_signed info acl ≡ true) × Belongs part info

  -- The file of the ACL has these keys, and a signed narinfo that a server has at the address of a hash
  -- part belongs to it.
  pub record IsExpected (m : Moment) : Type 0 where
    pub same_acl : m.acl ≡ loaded acl
    pub published : Publishes m.request is_signed Belongs acl config.substitute_urls

  abbrev pub Trusts : QueryState → Type 0
  Trusts s =
      (now : ℕ) (part : Text) (info : Narinfo) → get now s.cache part ≡ some info → IsGood part info

  -- The wait at this moment has found the providers that the configuration asks for.
  pub record Enough (m : Moment) (info : Narinfo) : Type 0 where
    pub bytes : Bytes
    pub providers : List PeerId
    pub readable : sha256_bytes crypto info.nar_hash ≡ returns (some bytes)
    pub waited :
        wait_for_providers_for_duration m.wait_start
          (1000 * min config.request_timeout_secs 5)
          (crypto.hex bytes)
          m.notices
        ≡ some providers
    pub enough : config.min_providers ≤ length providers

  -- The reason for the claim of a path: a signed narinfo that belongs to its hash part, and under
  -- `p2p-only` its providers.
  pub record Justified (path : Text) (m : Moment) : Type 0 where
    pub part : Text
    pub info : Narinfo
    pub parsed : hash_part path ≡ some part
    pub good : IsGood part info
    pub available : config.substitute_policy ≡ p2p_only → Enough m info

  -- A signed narinfo whose NAR hash makes `sha256_bytes` panic.
  pub record Unreadable : Type 0 where
    pub part : Text
    pub info : Narinfo
    pub good : IsGood part info
    pub crashes : sha256_bytes crypto info.nar_hash ≡ panics

  -- The notices of this moment end before its wait for the providers of some key.
  pub record Starved (m : Moment) : Type 0 where
    pub key : Text
    pub unfinished :
        wait_for_providers_for_duration m.wait_start
          (1000 * min config.request_timeout_secs 5)
          key
          m.notices
        ≡ none

  -- One path leaves the reply, or adds itself to it.
  abbrev pub Answer : Text → Moment → QueryState → Handled → Type 0
  Answer path m s (handled t) =
      Trusts t × ((t.reply ≡ s.reply) ⊎ ((t.reply ≡ write_line s.reply path) × Justified path m))
  Answer path m s broken = Unreadable
  Answer path m s pending = Starved m

  module _ (m : Moment) (expected : IsExpected m) where
    published_urls :
        (urls : List Text)
        → Publishes m.request is_signed Belongs acl urls
        → Publishes m.request is_signed IsGood acl urls
    published_urls [] p = tt
    published_urls (base ∷ urls) (first, p) =
        ((λ part info e signed. (signed, first part info e signed)), published_urls urls p)

    pub fetch_trusted :
        (s : QueryState) (part : Text)
        → Trusts s
        → let t = fetch_for crypto is_signed config event_tx m s part in
          Trusts (record s { cache = t.0 }) × Gives m.request is_signed (IsGood part) t.1
    fetch_trusted s part h =
        subst
          (λ k.
            let t = fetch_narinfo m.request is_signed m.now s.cache config.substitute_urls k part in
            Trusts (record s { cache = t.0 }) × Gives m.request is_signed (IsGood part) t.1)
          (sym expected.same_acl)
          (fetch_narinfo-Keeps m.request is_signed IsGood m.now s.cache config.substitute_urls acl
            part (published_urls config.substitute_urls expected.published) h)

    announce-Answer :
        (path part : Text) (s : QueryState) (info : Narinfo) (o : Outcome (Option Bytes))
        → Trusts s
        → IsGood part info
        → sha256_bytes crypto info.nar_hash ≡ o
        → Justified path m
        → Answer path m s
            (announce crypto is_signed config event_tx m (write_reply s path) part info o)
    unfolding announce publish write_reply
    announce-Answer path part s info panics h good e j = record {
      part = part;
      info = info;
      good = good;
      crashes = e;
    }
    announce-Answer path part s info (returns bytes) h good e j = (h, inr (refl, j))

    -- A good narinfo is enough of a reason where the policy can fall back.
    falls_back :
        (path part : Text) (info : Narinfo)
        → hash_part path ≡ some part
        → IsGood part info
        → config.substitute_policy ≢ p2p_only
        → Justified path m
    falls_back path part info parsed good other = record {
      part = part;
      info = info;
      parsed = parsed;
      good = good;
      available = λ e. absurd (other e);
    }

    claim-Answer :
        (path part : Text) (s : QueryState) (r : FetchResult)
        → hash_part path ≡ some part
        → Trusts s
        → Gives m.request is_signed (IsGood part) r
        → config.substitute_policy ≢ p2p_only
        → Answer path m s (claim crypto is_signed config event_tx path part m s r)
    unfolding claim write_reply
    claim-Answer path part s (fetch_failed e) parsed h good other = (h, inl refl)
    claim-Answer path part s (found info) parsed h good other =
        let j = falls_back path part info parsed good other in
        if_both (Answer path m s) event_tx
          (announce-Answer path part s info (sha256_bytes crypto info.nar_hash) h good refl j)
          (h, inr (refl, j))

    have_fallback-Answer :
        (path part : Text) (s : QueryState) (c : Option Narinfo) (local : Option Text)
        → hash_part path ≡ some part
        → get m.now s.cache part ≡ c
        → Trusts s
        → config.substitute_policy ≢ p2p_only
        → Answer path m s (have_fallback crypto is_signed config event_tx path part m s c local)
    unfolding have_fallback
    have_fallback-Answer path part s (some info) local parsed e h other =
        claim-Answer path part s (found info) parsed h (h m.now part info e) other
    have_fallback-Answer path part s none (some _) parsed e h other = (h, inl refl)
    have_fallback-Answer path part s none none parsed e h other =
        let (h', good) = fetch_trusted s part h in
        let (cache', r) = fetch_for crypto is_signed config event_tx m s part in
        claim-Answer path part (record s { cache = cache' }) r parsed h' good other

    claim_p2p-Answer :
        (path part : Text) (s : QueryState) (info : Narinfo) (bytes : Bytes)
        (o : Option (List PeerId))
        → hash_part path ≡ some part
        → Trusts s
        → IsGood part info
        → sha256_bytes crypto info.nar_hash ≡ returns (some bytes)
        → wait_for_providers_for_duration m.wait_start
            (1000 * min config.request_timeout_secs 5)
            (crypto.hex bytes)
            m.notices
          ≡ o
        → Answer path m s
            (claim_p2p crypto is_signed config event_tx path part s info (crypto.hex bytes) o)
    unfolding claim_p2p publish
    claim_p2p-Answer path part s info bytes none parsed h good readable e = record {
      key = crypto.hex bytes;
      unfinished = e;
    }
    claim_p2p-Answer path part s info bytes (some providers) parsed h good readable e =
        let j : config.min_providers ≤ length providers → Justified path m = λ enough. record {
          part = part;
          info = info;
          parsed = parsed;
          good = good;
          available = λ _. record {
            bytes = bytes;
            providers = providers;
            readable = readable;
            waited = e;
            enough = enough;
          };
        } in
        (
          h,
          if_either (λ w. (w ≡ s.reply) ⊎ ((w ≡ write_line s.reply path) × Justified path m))
              (leb config.min_providers (length providers))
              (λ t. inr (refl, j (leb→le config.min_providers (length providers) t)))
              (λ f. inl refl),
        )

    query_providers-Answer :
        (path part : Text) (s : QueryState) (info : Narinfo) (o : Outcome (Option Bytes))
        → hash_part path ≡ some part
        → Trusts s
        → IsGood part info
        → sha256_bytes crypto info.nar_hash ≡ o
        → Answer path m s (query_providers crypto is_signed config event_tx path part m s info o)
    unfolding query_providers
    query_providers-Answer path part s info panics parsed h good e = record {
      part = part;
      info = info;
      good = good;
      crashes = e;
    }
    query_providers-Answer path part s info (returns none) parsed h good e = (h, inl refl)
    query_providers-Answer path part s info (returns (some bytes)) parsed h good e =
        claim_p2p-Answer path part (record s { queries = s.queries ++ crypto.hex bytes ∷ [] }) info
          bytes _ parsed h good e refl

    have_p2p-Answer :
        (path part : Text) (s : QueryState) (r : FetchResult)
        → hash_part path ≡ some part
        → Trusts s
        → Gives m.request is_signed (IsGood part) r
        → Answer path m s (have_p2p crypto is_signed config event_tx path part m s r)
    unfolding have_p2p
    have_p2p-Answer path part s (fetch_failed e) parsed h good = (h, inl refl)
    have_p2p-Answer path part s (found info) parsed h good =
        query_providers-Answer path part s info (sha256_bytes crypto info.nar_hash) parsed h good
          refl

    have_by-Answer :
        (policy : SubstitutePolicy) (path part : Text) (s : QueryState)
        → hash_part path ≡ some part
        → config.substitute_policy ≡ policy
        → Trusts s
        → Answer path m s (have_by crypto is_signed config event_tx policy path part m s)
    unfolding have_by
    have_by-Answer p2p_only path part s parsed e h =
        let (h', good) = fetch_trusted s part h in
        let (cache', r) = fetch_for crypto is_signed config event_tx m s part in
        have_p2p-Answer path part (record s { cache = cache' }) r parsed h' good
    have_by-Answer p2p_first path part s parsed e h =
        have_fallback-Answer path part s (get m.now s.cache part) config.local_narinfo_path parsed
          refl h (λ f. absurd (ground (arith, e, f)))
    have_by-Answer http_first path part s parsed e h =
        have_fallback-Answer path part s (get m.now s.cache part) config.local_narinfo_path parsed
          refl h (λ f. absurd (ground (arith, e, f)))

    pub have_path-Answer :
        (path : Text) (part : Option Text) (s : QueryState)
        → hash_part path ≡ part
        → Trusts s
        → Answer path m s (have_path crypto is_signed config event_tx path part m s)
    unfolding have_path
    have_path-Answer path none s parsed h = (h, inl refl)
    have_path-Answer path (some part) s parsed h =
        have_by-Answer config.substitute_policy path part s parsed refl h
