-- ===== src/Metrics/Histogram.antt =====
-- MetricHistogram and MetricsSample's arithmetic on it (kettlingar/metrics.go): slot 0 is the
-- creation time, slot 1 the sum, slots 2 to 19 the cumulative buckets.
pub mod Buckets
use kettlingar_go.Prelude.{
  ℕ, zero, suc, ◌+◌, ◌-◌, ◌*◌, ◌%◌, ◌^◌, ◌≡◌, refl, Bool, true, false, List, [], ◌∷◌, leb, ltb,
  ◌==◌, if◌then◌else◌, replicate, get_or, set,
}

-- [20]uint64
abbrev pub MetricHistogram : Type 0
MetricHistogram = List ℕ

abbrev pub slots : ℕ
slots = 20

unfoldable pub fresh : ℕ → MetricHistogram
fresh now = now % 2 ^ 64 ∷ replicate 19 0

-- The least k with val ≤ 2 ^ k, tried from `k` on.
unfoldable pub ceil_log2_from : ℕ → ℕ → ℕ → ℕ
ceil_log2_from zero k val = k
ceil_log2_from (suc fuel) k val = elim (leb val (2 ^ k)) [
  | true ↦ k
  | false ↦ ceil_log2_from fuel (suc k) val
]

-- math.Ceil(math.Log2(float64(val))) for a uint64 val above 0. Rounding of the floats shows only
-- above 2^22, where every bucket is the last.
unfoldable pub ceil_log2 : ℕ → ℕ
unfolding ceil_log2_from
ceil_log2 val = ceil_log2_from 64 0 val

-- `bucket` after the two range checks. At 0 the logarithm is -Inf, which amd64 and arm64 convert to
-- the least int; less 3 that wraps to a large positive number, so the last slot is taken.
unfoldable pub bucket_of : ℕ → ℕ
bucket_of val =
    if val == 0
    then slots - 1
    else (let raw = ceil_log2 val in
        if ltb raw (3 + 2) then 2 else if leb (slots + 3) raw then slots - 1 else raw - 3)

-- `for i := bucket; i < len; i++ { histogram[i] += 1 }`
unfoldable pub bump_from : ℕ → List ℕ → List ℕ
bump_from bucket [] = []
bump_from zero (x ∷ xs) = (x + 1) % 2 ^ 64 ∷ bump_from zero xs
bump_from (suc bucket) (x ∷ xs) = x ∷ bump_from bucket xs

unfoldable pub sampled : ℕ → MetricHistogram → MetricHistogram
unfolding bucket_of bump_from
sampled val h = bump_from (bucket_of val) (set h 1 ((get_or h 1 0 + val) % 2 ^ 64))

samples :
    sampled 33 (sampled 0 (sampled 32 (fresh 9)))
    ≡ 9 ∷ 65 ∷ 1 ∷ 2 ∷ 2 ∷ 2 ∷ 2 ∷ 2 ∷ 2 ∷ 2 ∷ 2 ∷ 2 ∷ 2 ∷ 2 ∷ 2 ∷ 2 ∷ 2 ∷ 2 ∷ 2 ∷ 3 ∷ []
unfolding sampled fresh ceil_log2
samples = refl
