-- ===== src/Metrics/Registry.antt =====
-- The two registries of a service and the methods that write to them (kettlingar/metrics.go).
-- Numbers are uint64 and wrap. The locks make every method one step.
pub mod Counts
use kettlingar_go.Prelude.{
  ℕ, ◌+◌, ◌%◌, ◌^◌, Bool, true, false, List, [], ◌∷◌, if◌then◌else◌, Bytes, Option, none, some,
}
use kettlingar_go.Dict.{Dict, lookup, insert, lookup_or}
use kettlingar_go.Metrics.Labels.{key_with_labels}
use kettlingar_go.Metrics.Histogram.{MetricHistogram, fresh, sampled}

abbrev pub u64 : ℕ
u64 = 2 ^ 64

pub record Metrics : Type 0 where
  pub help : Dict Bytes
  pub info : Dict Bytes
  pub counts : Dict ℕ
  pub guages : Dict ℕ
  pub histograms : Dict MetricHistogram

unfoldable pub new_metrics : Metrics
new_metrics = record { help = []; info = []; counts = []; guages = []; histograms = [] }

abbrev pub public_metric : Bool
public_metric = false

abbrev pub private_metric : Bool
private_metric = true

-- The fields `metrics` and `metricsPriv` of KettlingarService.
pub record Registries : Type 0 where
  pub metrics : Metrics
  pub metrics_priv : Metrics

-- getMetrics returns one of the two; a method writes through it.
unfoldable pub get_metrics : Bool → Registries → Metrics
get_metrics priv_pub ks = if priv_pub then ks.metrics_priv else ks.metrics

unfoldable pub put_metrics : Bool → Metrics → Registries → Registries
put_metrics priv_pub m ks =
    if priv_pub then record ks { metrics_priv = m } else record ks { metrics = m }

abbrev update : Bool → (Metrics → Metrics) → Registries → Registries
update public f ks = put_metrics public (f (get_metrics public ks)) ks

unfoldable pub metrics_help : Bytes → Bytes → Bool → Registries → Registries
unfolding get_metrics put_metrics
metrics_help key help public = update public (λ m. record m { help = insert key help m.help })

unfoldable pub metrics_info : Bytes → Bytes → Bool → Dict Bytes → Registries → Registries
unfolding get_metrics put_metrics
metrics_info key val public labels =
    update public (λ m. record m { info = insert (key_with_labels key labels) val m.info })

unfoldable pub metrics_guage : Bytes → ℕ → Bool → Dict Bytes → Registries → Registries
unfolding get_metrics put_metrics
metrics_guage key val public labels =
    update public (λ m. record m { guages = insert (key_with_labels key labels) val m.guages })

unfoldable pub metrics_count : Bytes → ℕ → Bool → Dict Bytes → Registries → Registries
unfolding get_metrics put_metrics
metrics_count key val public labels =
    let k = key_with_labels key labels in
    update public λ m. record m {
      counts =
          insert k (elim (lookup k m.counts) [ none ↦ val | some cur ↦ (val + cur) % u64 ])
            m.counts;
    }

-- A missing key reads as 0.
unfoldable pub metrics_count_value : Bytes → Bool → Dict Bytes → Registries → ℕ
unfolding get_metrics
metrics_count_value key public labels ks =
    lookup_or (key_with_labels key labels) 0 (get_metrics public ks).counts

-- `now` is time.Now().Unix(), the creation time of a new histogram.
unfoldable pub metrics_sample : ℕ → Bytes → ℕ → Bool → Dict Bytes → Registries → Registries
unfolding get_metrics put_metrics
metrics_sample now key val public labels =
    let k = key_with_labels key labels in
    update public λ m. record m {
      histograms =
          insert k (sampled val (elim (lookup k m.histograms) [ none ↦ fresh now | some h ↦ h ]))
            m.histograms;
    }
