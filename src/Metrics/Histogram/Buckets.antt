-- ===== src/Metrics/Histogram/Buckets.antt =====
-- What the slots of a histogram count.
use native.Mathlib.Nat.{pow-suc, add-zero, zero-add}
use kettlingar_go.Prelude.{
  ℕ, zero, suc, ◌+◌, ◌%◌, ◌^◌, ◌≡◌, ◌≤◌, ◌<◌, ◌↔◌, refl, ◌∙◌, subst, arith, false, ◌&&◌, not, List,
  [], ◌∷◌, leb, ◌==◌, if◌then◌else◌, get_or, set, replicate, length, All, Bool-cases, inl, inr,
  leb→le, length-set,
}
use kettlingar_go.Metrics.Histogram.{
  MetricHistogram, fresh, ceil_log2_from, ceil_log2, bucket_of, bump_from, sampled,
}

pow_mono : (a b : ℕ) → a ≤ b → 2 ^ a ≤ 2 ^ b
pow_mono a zero h = ground arith
pow_mono a (suc b) h = elim (Bool-cases (leb a b)) [
  | inl le ↦ omega (arith, pow-suc 2 b, pow_mono a b (leb→le a b le))
  | inr gt ↦ let e : a ≡ suc b = ground arith in rw e (omega arith)
]

from_ge : (fuel k val : ℕ) → k ≤ ceil_log2_from fuel k val
unfolding ceil_log2_from
from_ge zero k val = omega arith
from_ge (suc fuel) k val = ground (arith, from_ge fuel (suc k) val)

past : (k j val : ℕ) → k ≤ j → leb val (2 ^ k) ≡ false → val ≤ 2 ^ j → suc k ≤ j
past k j val h above le = elim (Bool-cases (leb (suc k) j)) [
  | inl more ↦ leb→le (suc k) j more
  | inr same ↦ absurd (ground (arith, pow_mono j k))
]

-- The search stops at the least exponent.
from_le :
    (fuel k val j : ℕ)
    → k ≤ j
    → val ≤ 2 ^ (k + fuel)
    → (ceil_log2_from fuel k val ≤ j) ↔ (val ≤ 2 ^ j)
unfolding ceil_log2_from
from_le zero k val j h f =
    let f' : val ≤ 2 ^ k = rw add-zero at f in (λ _. omega (arith, pow_mono k j h), λ _. h)
from_le (suc fuel) k val j h f = elim (Bool-cases (leb val (2 ^ k))) [
  | inl stop ↦
      rw (stop, ceil_log2_from)
        ((λ _. omega (arith, pow_mono k j h, leb→le val (2 ^ k) stop)), (λ _. h))
  | inr more ↦
      let f' : val ≤ 2 ^ (suc k + fuel) = subst (λ n. val ≤ 2 ^ n) (omega arith) f in
      rw (more, ceil_log2_from)
        (
          (λ le. (from_le fuel (suc k) val j (omega (arith, from_ge fuel (suc k) val)) f').0 le),
          (λ le. (from_le fuel (suc k) val j (past k j val h more le) f').1 le),
        )
]

pub ceil_log2_le : (val j : ℕ) → val < 2 ^ 64 → (ceil_log2 val ≤ j) ↔ (val ≤ 2 ^ j)
unfolding ceil_log2
ceil_log2_le val j h = from_le 64 0 val j (omega arith) (omega arith)

-- Slot `i` of the buckets but the last is bumped exactly for the values up to 2 ^ (i + 3), 0 excepted.
bucket_of_le :
    (val i : ℕ)
    → val < 2 ^ 64
    → 2 ≤ i
    → i < 19
    → leb (bucket_of val) i ≡ (not (val == 0) && leb val (2 ^ (i + 3)))
unfolding bucket_of
bucket_of_le val i v lo hi =
    ground (arith, (ceil_log2_le val (i + 3) v).0, (ceil_log2_le val (i + 3) v).1)

bucket_of_lt : (val : ℕ) → (2 ≤ bucket_of val) × (bucket_of val ≤ 19)
unfolding bucket_of
bucket_of_lt val = ground arith

get-bump_from :
    (bucket i : ℕ) (h : List ℕ)
    → i < length h
    → get_or (bump_from bucket h) i 0
      ≡ (if leb bucket i then (get_or h i 0 + 1) % 2 ^ 64 else get_or h i 0)
unfolding bump_from
get-bump_from bucket i [] lt = elim lt [ ]
get-bump_from zero zero (x ∷ h) lt = refl
get-bump_from zero (suc i) (x ∷ h) lt = ground (arith, get-bump_from zero i h)
get-bump_from (suc b) zero (x ∷ h) lt = ground arith
get-bump_from (suc b) (suc i) (x ∷ h) lt = ground (arith, get-bump_from b i h)

length-bump_from : (bucket : ℕ) (h : List ℕ) → length (bump_from bucket h) ≡ length h
unfolding bump_from
length-bump_from bucket [] = refl
length-bump_from zero (x ∷ h) = omega (arith, length-bump_from zero h)
length-bump_from (suc b) (x ∷ h) = omega (arith, length-bump_from b h)

-- What a histogram holds after samples, from any state `h`.
abbrev pub sample_all : List ℕ → MetricHistogram → MetricHistogram
sample_all [] h = h
sample_all (v ∷ vs) h = sample_all vs (sampled v h)

abbrev hits : ℕ → List ℕ → ℕ
hits i [] = 0
hits i (v ∷ vs) = (if leb (bucket_of v) i then 1 else 0) + hits i vs

-- How many values are above 0 and at most 2 ^ (i + 3), the bound that slot `i` is served with.
abbrev pub counted_upto : ℕ → List ℕ → ℕ
counted_upto i [] = 0
counted_upto i (v ∷ vs) = (if not (v == 0) && leb v (2 ^ (i + 3)) then 1 else 0) + counted_upto i vs

abbrev pub sum : List ℕ → ℕ
sum [] = 0
sum (v ∷ vs) = v + sum vs

get-set_other : (h : List ℕ) (i v : ℕ) → 2 ≤ i → get_or (set h 1 v) i 0 ≡ get_or h i 0
get-set_other [] i v lo = refl
get-set_other (x ∷ []) i v lo = refl
get-set_other (x ∷ y ∷ h) zero v lo = elim lo [ ]
get-set_other (x ∷ y ∷ h) (suc zero) v lo = absurd (omega arith)
get-set_other (x ∷ y ∷ h) (suc (suc i)) v lo = refl

get-set_one : (h : List ℕ) (v : ℕ) → 1 < length h → get_or (set h 1 v) 1 0 ≡ v
get-set_one [] v lt = elim lt [ ]
get-set_one (x ∷ []) v lt = absurd (omega arith)
get-set_one (x ∷ y ∷ h) v lt = refl

sampled_slot :
    (v i : ℕ) (h : MetricHistogram)
    → 2 ≤ i
    → i < length h
    → get_or h i 0 < 2 ^ 64
    → get_or (sampled v h) i 0 ≡ (get_or h i 0 + (if leb (bucket_of v) i then 1 else 0)) % 2 ^ 64
unfolding sampled
sampled_slot v i h lo lt small =
    get-bump_from (bucket_of v) i _ (omega (arith, length-set h 1 ((get_or h 1 0 + v) % 2 ^ 64)))
    ∙ rw (get-set_other h i ((get_or h 1 0 + v) % 2 ^ 64) lo) (ground arith)

sampled_sum :
    (v : ℕ) (h : MetricHistogram)
    → 1 < length h
    → get_or (sampled v h) 1 0 ≡ (get_or h 1 0 + v) % 2 ^ 64
unfolding sampled
sampled_sum v h lt =
    get-bump_from (bucket_of v) 1 _ (omega (arith, length-set h 1 ((get_or h 1 0 + v) % 2 ^ 64)))
    ∙ ground (arith, get-set_one h ((get_or h 1 0 + v) % 2 ^ 64) lt, bucket_of_lt v)

length-sampled : (v : ℕ) (h : MetricHistogram) → length (sampled v h) ≡ length h
unfolding sampled
length-sampled v h = length-bump_from (bucket_of v) _ ∙ length-set h 1 ((get_or h 1 0 + v) % 2 ^ 64)

sample_all_slot :
    (vs : List ℕ) (i : ℕ) (h : MetricHistogram)
    → 2 ≤ i
    → i < length h
    → get_or h i 0 < 2 ^ 64
    → get_or (sample_all vs h) i 0 ≡ (get_or h i 0 + hits i vs) % 2 ^ 64
sample_all_slot [] i h lo lt small = omega arith
sample_all_slot (v ∷ vs) i h lo lt small =
    let e = sampled_slot v i h lo lt small in
    sample_all_slot vs i (sampled v h) lo (omega (arith, length-sampled v h)) (rw e (omega arith))
    ∙ rw e (omega arith)

sample_all-sum :
    (vs : List ℕ) (h : MetricHistogram)
    → 1 < length h
    → get_or h 1 0 < 2 ^ 64
    → get_or (sample_all vs h) 1 0 ≡ (get_or h 1 0 + sum vs) % 2 ^ 64
sample_all-sum [] h lt small = omega arith
sample_all-sum (v ∷ vs) h lt small =
    let e = sampled_sum v h lt in
    sample_all-sum vs (sampled v h) (omega (arith, length-sampled v h)) (rw e (omega arith))
    ∙ rw e (omega arith)

hits-counted_upto :
    (i : ℕ) (vs : List ℕ)
    → 2 ≤ i
    → i < 19
    → All (λ v. v < 2 ^ 64) vs
    → hits i vs ≡ counted_upto i vs
hits-counted_upto i [] lo hi h = refl
hits-counted_upto i (v ∷ vs) lo hi h =
    rw (bucket_of_le v i h.0 lo hi, hits-counted_upto i vs lo hi h.1)

hits_last : (vs : List ℕ) → hits 19 vs ≡ length vs
hits_last [] = refl
hits_last (v ∷ vs) = ground (arith, hits_last vs, bucket_of_lt v)

get_or-replicate : (n i : ℕ) → get_or {A = ℕ} (replicate n 0) i 0 ≡ 0
get_or-replicate zero i = refl
get_or-replicate (suc n) zero = refl
get_or-replicate (suc n) (suc i) = get_or-replicate n i

get-fresh : (now i : ℕ) → 1 ≤ i → i < 20 → get_or (fresh now) i 0 ≡ 0
unfolding fresh
get-fresh now zero lo hi = elim lo [ ]
get-fresh now (suc i) lo hi = get_or-replicate 19 i

length-fresh : (now : ℕ) → length (fresh now) ≡ 20
unfolding fresh
length-fresh now = refl

-- After the samples `vs` a new histogram holds their sum in slot 1 and their number in slot 19, and
-- in each slot from 2 to 18 how many of them are at most the slot's bound 2 ^ (i + 3), all modulo
-- 2 ^ 64. A sample of 0 is in the last slot only.
pub sample_all-fresh :
    (now : ℕ) (vs : List ℕ)
    → All (λ v. v < 2 ^ 64) vs
    → let h = sample_all vs (fresh now) in
      (get_or h 1 0 ≡ sum vs % 2 ^ 64)
      × (get_or h 19 0 ≡ length vs % 2 ^ 64)
      × ((i : ℕ) → 2 ≤ i → i < 19 → get_or h i 0 ≡ counted_upto i vs % 2 ^ 64)
sample_all-fresh now vs v =
    let len = length-fresh now in
    let empty = λ (i : ℕ) (lo : 1 ≤ i) (hi : i < 20). get-fresh now i lo hi in
    (
      sample_all-sum vs (fresh now) (omega (arith, len))
            (rw (empty 1 (omega arith) (omega arith)) (omega arith))
          ∙ rw (empty 1 (omega arith) (omega arith)) (rw zero-add),
      sample_all_slot vs 19 (fresh now) (omega arith) (omega (arith, len))
            (rw (empty 19 (omega arith) (omega arith)) (omega arith))
          ∙ rw (empty 19 (omega arith) (omega arith), hits_last vs) (rw zero-add),
      λ i lo hi.
          sample_all_slot vs i (fresh now) lo (omega (arith, len))
            (rw (empty i (omega arith) (omega arith)) (omega arith))
          ∙ rw (empty i (omega arith) (omega arith), hits-counted_upto i vs lo hi v) (rw zero-add),
    )
