-- ===== src/Metrics/Render/Slots.antt =====
-- No slot is lost by the test that skips slots.
use kettlingar_go.Prelude.{
  ℕ, zero, suc, ◌+◌, ◌-◌, ◌≤◌, ◌<◌, ◌≡◌, refl, ap, ◌∙◌, leb→le, arith, Bool, true, false, List, [],
  ◌∷◌, leb, if◌then◌else◌, get_or, Bool-cases, inl, inr,
}
use kettlingar_go.Metrics.Histogram.{MetricHistogram}
use kettlingar_go.Metrics.Render.{skips, slot_loop}

-- A slot that is printed, with its count.
abbrev pub shown : MetricHistogram → ℕ → ℕ × ℕ
shown hist i = (i, get_or hist i 0)

-- What a reader of cumulative buckets takes for slot `i`: the count of the last slot up to `i` that
-- is printed, and 0 if there is none.
abbrev pub read_slot : ℕ → ℕ → List (ℕ × ℕ) → ℕ
read_slot i got [] = got
read_slot i got ((j, n) ∷ rest) = if leb j i then read_slot i n rest else got

-- Counts do not fall from a slot to the next, from slot `i` on.
abbrev pub RisesFrom : MetricHistogram → ℕ → ℕ → Type 0
RisesFrom hist zero i = Unit
RisesFrom hist (suc left) i =
    (get_or hist i 0 ≤ get_or hist (suc i) 0) × RisesFrom hist left (suc i)

-- `got` is what a reader has at slot `i`: nothing yet, or the count of the slot before.
abbrev Knows : MetricHistogram → Bool → ℕ → ℕ → Type 0
Knows hist true got i = got ≡ 0
Knows hist false got i = got ≡ get_or hist (i - 1) 0

skipped_count :
    (hist : MetricHistogram) (first : Bool) (got i : ℕ)
    → Knows hist first got i
    → got ≤ get_or hist i 0
    → skips hist first i ≡ true
    → got ≡ get_or hist i 0
unfolding skips
skipped_count hist true got i k le s = ground arith
skipped_count hist false got i k le s = ground arith

read_before :
    (hist : MetricHistogram) (first : Bool) (left i j got : ℕ)
    → j < i
    → read_slot j got (slot_loop (shown hist) hist first left i) ≡ got
unfolding slot_loop
read_before hist first zero i j got lt = refl
read_before hist first (suc left) i j got lt = elim (Bool-cases (skips hist first i)) [
  | inl skip ↦ rw skip (read_before hist first left (suc i) j got (omega arith))
  | inr show ↦ rw show (ground arith)
]

next_known : (hist : MetricHistogram) (i : ℕ) → Knows hist false (get_or hist i 0) (suc i)
next_known hist i = ap (λ n. get_or hist n 0) (omega arith)

known_after :
    (hist : MetricHistogram) (first : Bool) (got i : ℕ)
    → Knows hist first got i
    → got ≡ get_or hist i 0
    → Knows hist first got (suc i)
known_after hist true got i k e = k
known_after hist false got i k e = e ∙ next_known hist i

read_shown :
    (i j got n : ℕ) (rest : List (ℕ × ℕ))
    → i ≤ j
    → read_slot j got ((i, n) ∷ rest) ≡ read_slot j n rest
read_shown i j got n rest le = ground arith

-- What the reader has before slot `i` is enough for every slot from `i` on.
read_from :
    (hist : MetricHistogram) (left : ℕ) (first : Bool) (i j got : ℕ)
    → Knows hist first got i
    → got ≤ get_or hist i 0
    → RisesFrom hist left i
    → i ≤ j
    → j < i + suc left
    → read_slot j got (slot_loop (shown hist) hist first (suc left) i) ≡ get_or hist j 0
unfolding slot_loop
read_from hist zero first i j got k le rises lo hi =
    let same : i ≡ j = omega arith in
    let here = ap (λ n. get_or hist n 0) same in
    elim (Bool-cases (skips hist first i)) [
      | inl skip ↦ rw skip (skipped_count hist first got i k le skip ∙ here)
      | inr show ↦ rw show (read_shown i j got (get_or hist i 0) [] lo ∙ here)
    ]
read_from hist (suc left) first i j got k le rises lo hi = elim (Bool-cases (skips hist first i)) [
  | inl skip ↦
      let e = skipped_count hist first got i k le skip in
      rw skip (elim (Bool-cases (leb j i)) [
        | inl here ↦
            read_before hist first (suc left) (suc i) j got (omega (arith, leb→le j i here))
            ∙ e
            ∙ ap (λ n. get_or hist n 0) (omega (arith, leb→le j i here))
        | inr later ↦
            read_from hist left first (suc i) j got (known_after hist first got i k e)
              (omega (arith, rises.0, e)) rises.1 (ground arith) (omega arith)
      ])
  | inr show ↦ rw show (
      read_shown i j got (get_or hist i 0) _ lo ∙ elim (Bool-cases (leb j i)) [
        | inl here ↦
            read_before hist false (suc left) (suc i) j _ (omega (arith, leb→le j i here))
            ∙ ap (λ n. get_or hist n 0) (omega (arith, leb→le j i here))
        | inr later ↦
            read_from hist left false (suc i) j (get_or hist i 0) (next_known hist i) rises.0
              rises.1 (ground arith) (omega arith)
      ])
]

-- A reader that takes, for each bucket, the last one printed up to it gets the count of every slot
-- from 2 to 19 back, if the counts do not fall from a slot to the next: the buckets that
-- renderHistogram leaves out say nothing new.
pub read_slot-slot_loop :
    (hist : MetricHistogram) (j : ℕ)
    → RisesFrom hist 17 2
    → 2 ≤ j
    → j ≤ 19
    → read_slot j 0 (slot_loop (shown hist) hist true 18 2) ≡ get_or hist j 0
read_slot-slot_loop hist j rises lo hi =
    read_from hist 17 true 2 j 0 refl (omega arith) rises lo (omega arith)
