-- ===== src/Swarm/Block/Layout.antt =====
-- The number of blocks that `from_file_size` computes, against the blocks that `chunks` cuts.
use native.Mathlib.Nat.{div_self, mod_self, div-add-mod', mod-lt, mul-le-mul_right}
use guix_p2p.Prelude.{
  zero, suc, ◌∙◌, max, min, leb, ℕ, ◌+◌, ◌*◌, ◌/◌, ◌%◌, ◌<◌, ◌≡◌, ◌↔◌, inl, inr, some, arith, ltb,
  if◌then◌else◌, ltb→lt, tests, Bool-cases,
}
use guix_p2p.Swarm.Block.{u32_mod, BlockInfo, from_file_size}

abbrev ceil_count : ℕ → ℕ → ℕ
ceil_count q r = if ltb 0 r then q + 1 else q

-- Division with remainder, over products: which blocks of size `b` begin below `q * b + r`.
starts_of_lt : (q r b i : ℕ) → 0 < b → i < ceil_count q r → i * b < q * b + r
starts_of_lt q r b i pos h = elim (Bool-cases (ltb i q)) [
  | inl below ↦ omega (tests, mul-le-mul_right b (ltb→lt i q below))
  | inr last ↦ let e : i ≡ q = ground arith in rw e (ground arith)
]

lt_of_starts : (q r b i : ℕ) → r < b → i * b < q * b + r → i < ceil_count q r
lt_of_starts q r b i small h = elim (Bool-cases (ltb i q)) [
  | inl below ↦ ground arith
  | inr last ↦ elim (Bool-cases (ltb q i)) [
    | inl above ↦ absurd (omega (tests, mul-le-mul_right b (ltb→lt q i above)))
    | inr same ↦
        let e : i ≡ q = omega tests in let h' : q * b < q * b + r = rw e at h in ground arith
  ]
]

ceil_count_iff : (n b i : ℕ) → 0 < b → (i < ceil_count (n / b) (n % b)) ↔ (i * b < n)
ceil_count_iff n b i pos =
    let whole : (n / b) * b + n % b ≡ n = div-add-mod' n b in
    (
      λ h. omega (arith, whole, starts_of_lt (n / b) (n % b) b i pos h),
      λ h. lt_of_starts (n / b) (n % b) b i (mod-lt n pos) (omega (arith, whole)),
    )

small_count : (q r : ℕ) → q + 1 < u32_mod → ceil_count q r % u32_mod ≡ ceil_count q r
small_count q r h = ground arith

-- The layout of a file that is not empty, by the block size that is used.
block_count_lem :
    (n bs : ℕ) (info : BlockInfo)
    → from_file_size n bs ≡ some info
    → 0 < n
    → (0 < bs) × (info.block_count ≡ ceil_count (n / min bs n) (n % min bs n) % u32_mod)
unfolding from_file_size
block_count_lem n bs info made pos =
    let e : max n 1 ≡ n = omega arith in
    let made' : from_file_size n bs ≡ some info = made in (ground (arith, made), ground (arith, e))

single_block : (n bs i : ℕ) → 0 < n → n < bs → (i < 1) ↔ (i * bs < n)
single_block n bs zero pos h = (λ _. omega arith, λ _. omega arith)
single_block n bs (suc i) pos h = (λ l. absurd (omega arith), λ l. absurd (grind arith))

-- For a file that is not empty and whose blocks can be counted in 32 bits, an index is below the
-- count of the layout exactly if the file has bytes at the start of its block.
pub block_count_iff :
    (n bs i : ℕ) (info : BlockInfo)
    → from_file_size n bs ≡ some info
    → 0 < n
    → n / bs + 1 < u32_mod
    → (i < info.block_count) ↔ (i * bs < n)
block_count_iff n bs i info made pos fits = elim (Bool-cases (leb bs n)) [
  | inl le ↦
      let e : min bs n ≡ bs = omega tests in
      let c : info.block_count ≡ ceil_count (n / bs) (n % bs) % u32_mod = rw e at (lem.1) in
      let c' : info.block_count ≡ ceil_count (n / bs) (n % bs) =
        c ∙ small_count (n / bs) (n % bs) fits in
      rw c' (ceil_count_iff n bs i lem.0)
  | inr gt ↦
      let e : min bs n ≡ n = omega tests in
      let c : info.block_count ≡ ceil_count (n / n) (n % n) % u32_mod = rw e at (lem.1) in
      let one : info.block_count ≡ 1 = cc (c, div_self pos, mod_self n) in
      rw one (single_block n bs i pos (omega tests))
]
  where
    lem : (0 < bs) × (info.block_count ≡ ceil_count (n / min bs n) (n % min bs n) % u32_mod)
    lem = block_count_lem n bs info made pos

pub block_count_lt :
    (n bs : ℕ) (info : BlockInfo) → from_file_size n bs ≡ some info → info.block_count < u32_mod
unfolding from_file_size
block_count_lt n bs info made = ground arith
