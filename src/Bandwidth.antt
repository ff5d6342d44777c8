-- ===== src/Bandwidth.antt =====
-- src/bandwidth.rs: the limits of upload and download. A limiter of the crate leaky_bucket is known by
-- its maximum; `acquire` waits until it has that many tokens, of which the maximum must have enough.
use guix_p2p.Prelude.{
  ℕ, zero, suc, ◌-◌, ◌≤◌, ◌<◌, min, max, ◌≡◌, refl, Option, none, some, List, [], ◌∷◌, arith,
  nat_eq, text_eq, All, sum,
}
use guix_p2p.Swarm.Block.{usize_mod}

pub record BandwidthConfig : Type 0 where
  pub upload_limit_bytes_per_sec : Option ℕ
  pub download_limit_bytes_per_sec : Option ℕ

-- The maxima of the two limiters.
pub record BandwidthLimiter : Type 0 where
  pub upload : Option ℕ
  pub download : Option ℕ

unfoldable pub rate_limiter : Option ℕ → Option ℕ
rate_limiter none = none
rate_limiter (some zero) = none
rate_limiter (some (suc rate)) = some (min (suc rate) (usize_mod - 1))

unfoldable pub new : BandwidthConfig → BandwidthLimiter
unfolding rate_limiter
new config = record {
  upload = rate_limiter config.upload_limit_bytes_per_sec;
  download = rate_limiter config.download_limit_bytes_per_sec;
}

-- The loop of `consume`: the numbers of tokens it acquires one after the other. The fuel is what
-- remains, of which each turn takes one at least; the result ends with what remains behind the loop.
unfoldable pub acquire_all : ℕ → ℕ → ℕ → List ℕ × ℕ
acquire_all zero limit remaining = ([], remaining)
acquire_all (suc fuel) limit zero = ([], zero)
acquire_all (suc fuel) limit (suc remaining) =
    let chunk = min (suc remaining) limit in
    let (rest, left) = acquire_all fuel limit (suc remaining - chunk) in (chunk ∷ rest, left)

unfoldable pub consume : Option ℕ → ℕ → List ℕ × ℕ
unfolding acquire_all
consume none bytes = ([], 0)
consume (some maximum) bytes =
    let remaining = min bytes (usize_mod - 1) in acquire_all remaining (max maximum 1) remaining

unfoldable pub wait_for_upload : BandwidthLimiter → ℕ → List ℕ × ℕ
unfolding consume
wait_for_upload l bytes = consume l.upload bytes

unfoldable pub wait_for_download : BandwidthLimiter → ℕ → List ℕ × ℕ
unfolding consume
wait_for_download l bytes = consume l.download bytes

acquire_all-sum :
    (fuel limit remaining : ℕ)
    → 0 < limit
    → remaining ≤ fuel
    → let t = acquire_all fuel limit remaining in
      (t.1 ≡ 0) × (sum t.0 ≡ remaining) × All (λ k. (0 < k) × (k ≤ limit)) t.0
unfolding acquire_all
acquire_all-sum zero limit remaining pos le = (omega (arith, le), omega (arith, le), tt)
acquire_all-sum (suc fuel) limit zero pos le = (refl, refl, tt)
acquire_all-sum (suc fuel) limit (suc remaining) pos le =
    let chunk = min (suc remaining) limit in
    let (ended, total, parts) =
      acquire_all-sum fuel limit (suc remaining - chunk) pos (omega (arith, pos, le)) in
    (ended, omega (arith, total), ((omega (arith, pos), omega arith), parts))

All-weaken :
    (limit higher : ℕ)
    → limit ≤ higher
    → (parts : List ℕ) → All (λ k. (0 < k) × (k ≤ limit)) parts
    → All (λ k. (0 < k) × (k ≤ higher)) parts
All-weaken limit higher le [] h = tt
All-weaken limit higher le (k ∷ parts) ((pos, small), h) =
    ((pos, omega (arith, small, le)), All-weaken limit higher le parts h)

-- The tokens that a transfer takes under a limit in bytes per second.
abbrev pub Limited : Option ℕ → ℕ → List ℕ × ℕ → Type 0
Limited none bytes t = (t.1 ≡ 0) × (sum t.0 ≡ 0)
Limited (some zero) bytes t = (t.1 ≡ 0) × (sum t.0 ≡ 0)
Limited (some (suc rate)) bytes t =
    (t.1 ≡ 0) × (sum t.0 ≡ bytes) × All (λ k. (0 < k) × (k ≤ suc rate)) t.0

Limited-consume :
    (o : Option ℕ) (bytes : ℕ)
    → bytes < usize_mod
    → Limited o bytes (consume (rate_limiter o) bytes)
unfolding consume rate_limiter
Limited-consume none bytes small = (refl, refl)
Limited-consume (some zero) bytes small = (refl, refl)
Limited-consume (some (suc rate)) bytes small =
    let limit = max (min (suc rate) (usize_mod - 1)) 1 in
    let remaining = min bytes (usize_mod - 1) in
    let (ended, total, parts) =
      acquire_all-sum remaining limit remaining (omega arith) (omega arith) in
    (
      ended,
      omega (arith, total, small),
      All-weaken limit (suc rate) (omega arith) (acquire_all remaining limit remaining).0 parts,
    )

-- A transfer of a number of bytes below 2^64, up or down, comes to its end. If it has a limit that is
-- not zero, it acquires exactly as many tokens from the limiter, in portions that are not empty and do
-- not exceed the limit; without a limit, or with the limit zero, it acquires none.
pub transfers-Limited :
    (config : BandwidthConfig) (bytes : ℕ)
    → bytes < usize_mod
    → Limited config.upload_limit_bytes_per_sec bytes (wait_for_upload (new config) bytes)
      × Limited config.download_limit_bytes_per_sec bytes (wait_for_download (new config) bytes)
unfolding wait_for_upload wait_for_download new
transfers-Limited config bytes small = (
  Limited-consume config.upload_limit_bytes_per_sec bytes small,
  Limited-consume config.download_limit_bytes_per_sec bytes small,
)
