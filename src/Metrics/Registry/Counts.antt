-- ===== src/Metrics/Registry/Counts.antt =====
-- What a counter reads.
use kettlingar_go.Prelude.{
  ℕ, ◌+◌, ◌%◌, ◌<◌, ◌≡◌, refl, sym, ◌∙◌, All, Bool-cases, inl, inr, bytes_eq_iff, bytes_eq_refl,
  arith, Bool, true, false, ◌&&◌, List, [], ◌∷◌, if◌then◌else◌, Bytes, bytes_eq, none, some,
}
use kettlingar_go.Dict.{Dict, lookup, insert, lookup_or, lookup_or-insert}
use kettlingar_go.Metrics.Labels.{key_with_labels}
use kettlingar_go.Metrics.Registry.{
  u64, Registries, metrics_count, metrics_count_value, metrics_sample, get_metrics, put_metrics,
}

-- A call of MetricsCount.
pub record Count : Type 0 where
  pub key : Bytes
  pub val : ℕ
  pub public : Bool
  pub labels : Dict Bytes

abbrev pub count_all : List Count → Registries → Registries
count_all [] ks = ks
count_all (c ∷ cs) ks = count_all cs (metrics_count c.key c.val c.public c.labels ks)

abbrev same_registry : Bool → Bool → Bool
same_registry true true = true
same_registry false false = true
same_registry _ _ = false

-- The calls that name the series.
abbrev pub counted : Bytes → Bool → Dict Bytes → Count → Bool
counted key public labels c =
    same_registry c.public public
    && bytes_eq (key_with_labels c.key c.labels) (key_with_labels key labels)

abbrev pub total : Bytes → Bool → Dict Bytes → List Count → ℕ
total key public labels [] = 0
total key public labels (c ∷ cs) =
    (if counted key public labels c then c.val else 0) + total key public labels cs

value-bump :
    (k j : Bytes) (val : ℕ) (m : Dict ℕ)
    → val < u64
    → lookup_or j 0 m < u64
    → lookup_or j 0 (insert k (elim (lookup k m) [ none ↦ val | some cur ↦ (val + cur) % u64 ]) m)
      ≡ (lookup_or j 0 m + (if bytes_eq k j then val else 0)) % u64
value-bump k j val m v h = elim (Bool-cases (bytes_eq k j)) [
  | inl same ↦ rw (sym ((bytes_eq_iff k j).0 same)) (
      lookup_or-insert k k _ 0 m ∙ rw (bytes_eq_refl k) (ground (arith, (bytes_eq_iff k j).0 same)))
  | inr other ↦ lookup_or-insert k j _ 0 m ∙ rw other (omega arith)
]

pub value-count :
    (key : Bytes) (public : Bool) (labels : Dict Bytes) (c : Count) (ks : Registries)
    → c.val < u64
    → metrics_count_value key public labels ks < u64
    → metrics_count_value key public labels (metrics_count c.key c.val c.public c.labels ks)
      ≡ (metrics_count_value key public labels ks
          + (if counted key public labels c then c.val else 0))
        % u64
unfolding metrics_count metrics_count_value
value-count key public labels c ks v h = ground (
  arith,
  value-bump (key_with_labels c.key c.labels) (key_with_labels key labels) c.val ks.metrics.counts
      v,
  value-bump (key_with_labels c.key c.labels) (key_with_labels key labels) c.val
      ks.metrics_priv.counts v,
)

pub value-sample :
    (key : Bytes) (public : Bool) (labels : Dict Bytes) (now : ℕ) (k : Bytes) (val : ℕ) (p : Bool)
    (l : Dict Bytes) (ks : Registries)
    → metrics_count_value key public labels (metrics_sample now k val p l ks)
      ≡ metrics_count_value key public labels ks
unfolding metrics_sample metrics_count_value get_metrics put_metrics
value-sample key true labels now k val true l ks = refl
value-sample key true labels now k val false l ks = refl
value-sample key false labels now k val true l ks = refl
value-sample key false labels now k val false l ks = refl

-- A counter reads what it read before plus all that was counted for its key, labels and registry
-- since, modulo 2^64; counts for other series or for the other registry leave it alone.
pub value-count_all :
    (key : Bytes) (public : Bool) (labels : Dict Bytes) (cs : List Count) (ks : Registries)
    → All (λ c. c.val < u64) cs
    → metrics_count_value key public labels ks < u64
    → metrics_count_value key public labels (count_all cs ks)
      ≡ (metrics_count_value key public labels ks + total key public labels cs) % u64
value-count_all key public labels [] ks v h = omega arith
value-count_all key public labels (c ∷ cs) ks v h =
    let e = value-count key public labels c ks v.0 h in
    value-count_all key public labels cs _ v.1 (rw e (omega arith)) ∙ rw e (omega arith)
