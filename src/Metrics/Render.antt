-- ===== src/Metrics/Render.antt =====
-- RenderOpenMetrics and renderHistogram of kettlingar/metrics.go.
pub mod Slots
use mathlib.Core.Path.{◌≡◌, refl}
use kettlingar_go.Prelude.{
  ℕ, zero, suc, ◌+◌, ◌-◌, ◌^◌, Bool, true, false, ◌&&◌, ◌||◌, not, List, [], ◌∷◌, ◌++◌, ◌==◌,
  if◌then◌else◌, Bytes, codes, Option, none, some, get_or, bytes_eq, drop, length,
}
use kettlingar_go.Text.Decimal.{decimal}
use kettlingar_go.Dict.{Dict, keys, lookup, lookup_or, insert, copy}
use kettlingar_go.Metrics.Labels.{sort, attach_label, add_label}
use kettlingar_go.Metrics.Histogram.{MetricHistogram, fresh, sampled}
use kettlingar_go.Metrics.Registry.{Metrics, new_metrics}

-- The test that skips slot `i` of the histogram, where 19 is the last slot.
unfoldable pub skips : MetricHistogram → Bool → ℕ → Bool
skips hist first i =
    get_or hist i 0 == 0
    || (get_or hist i 0 == get_or hist (i - 1) 0
        && (get_or hist i 0 == get_or hist 19 0 && (not (i == 19) && not first)))

-- The loop of renderHistogram from slot `i` on, over what it makes of a slot that it does not skip.
unfoldable pub slot_loop {ℓ} : {A : Type ℓ} → (ℕ → A) → MetricHistogram → Bool → ℕ → ℕ → List A
unfolding skips
slot_loop emit hist first zero i = []
slot_loop emit hist first (suc left) i =
    let on = slot_loop emit hist first left (suc i) in
    let shown = emit i ∷ slot_loop emit hist false left (suc i) in
    if skips hist first i then on else shown

-- %.0f of math.Pow(2, i+3), which is exact for these slots.
bound_text : ℕ → Bytes
unfolding decimal
bound_text i = if i == 19 then codes "+Inf" else decimal (2 ^ (i + 3))

bucket_lines : Bytes → Bytes → MetricHistogram → ℕ → Bytes
unfolding bound_text attach_label
bucket_lines base_name labels hist i =
    let count = codes " " ++ (decimal (get_or hist i 0) ++ codes "\n") in
    attach_label (base_name ++ (codes "_bucket" ++ labels)) (codes "le") (bound_text i)
    ++ (count ++ (if i == 19 then base_name ++ (codes "_count" ++ (labels ++ count)) else []))

concat : List Bytes → Bytes
concat [] = []
concat (x ∷ xs) = x ++ concat xs

unfoldable pub render_histogram : Bytes → Bytes → MetricHistogram → Bytes
unfolding slot_loop bucket_lines concat
render_histogram base_name key hist =
    let labels = drop (length base_name) key in
    concat (slot_loop (bucket_lines base_name labels hist) hist true 18 2)
    ++ (base_name
        ++ (codes "_sum"
            ++ (labels
                ++ (codes " "
                    ++ (decimal (get_or hist 1 0)
                        ++ (codes "\n"
                            ++ (base_name
                                ++ (codes "_created"
                                    ++ (labels
                                        ++ (codes " "
                                            ++ (decimal (get_or hist 0 0) ++ codes "\n")))))))))))

-- strings.Cut(k, "{"), the part in front.
unfoldable pub base_of : Bytes → Bytes
base_of [] = []
base_of (c ∷ cs) = if c == b'{' then [] else c ∷ base_of cs

-- The maps that RenderOpenMetrics fills before it sorts the keys.
pub record Tables : Type 0 where
  pub all : Dict Bytes
  pub types : Dict Bytes
  pub help : Dict Bytes
  pub histogs : Dict MetricHistogram

set_numbers : Bytes → Dict ℕ → Tables → Tables
unfolding decimal
set_numbers kind [] t = t
set_numbers kind ((k, v) ∷ m) t =
    set_numbers kind m
      (record t { types = insert k kind t.types; all = insert k (decimal v) t.all })

set_histograms : Dict MetricHistogram → Tables → Tables
set_histograms [] t = t
set_histograms ((k, h) ∷ m) t =
    set_histograms m
      (record t { types = insert k (codes "histogram") t.types; all = insert k [] t.all })

-- Public metrics first, and private ones over them.
unfoldable pub tables : Metrics → Metrics → Tables
unfolding set_numbers set_histograms
tables pub_metrics priv_metrics =
    let histogs = copy (copy [] pub_metrics.histograms) priv_metrics.histograms in
    set_histograms histogs (
      set_numbers (codes "gauge") (copy (copy [] pub_metrics.guages) priv_metrics.guages) (
        set_numbers (codes "counter") (copy (copy [] pub_metrics.counts) priv_metrics.counts)
          (record {
            all = copy (copy [] pub_metrics.info) priv_metrics.info;
            types = [];
            help = copy (copy [] pub_metrics.help) priv_metrics.help;
            histogs = histogs;
          })))

-- The "# HELP" and "# TYPE" lines of a family.
heading : Tables → Bytes → Bytes → Bytes
heading t base_name kind =
    codes "# HELP "
    ++ (base_name
        ++ (codes " "
            ++ (lookup_or base_name (codes "Generic Metrics: " ++ kind) t.help
                ++ (codes "\n# TYPE " ++ (base_name ++ (codes " " ++ (kind ++ codes "\n")))))))

-- The lines of one series; `none` is the panic of addLabel.
series : Tables → Bytes → Bytes → Option Bytes
unfolding add_label render_histogram base_of
series t kind k =
    if bytes_eq kind (codes "info")
    then (elim (add_label k (codes "info") (lookup_or k [] t.all)) [
      | none ↦ none
      | some key ↦ some (key ++ codes " 1\n")
    ])
    else if bytes_eq kind (codes "histogram")
    then some (render_histogram (base_of k) k (lookup_or k [] t.histogs))
    else some (k ++ (codes " " ++ (lookup_or k [] t.all ++ codes "\n")))

unfoldable pub render_keys : Tables → Bytes → List Bytes → Option Bytes
unfolding heading series base_of
render_keys t last_metric [] = some (codes "# EOF\n")
render_keys t last_metric (k ∷ ks) =
    let kind = lookup_or k (codes "info") t.types in
    let base_name = base_of k in
    let head = if bytes_eq base_name last_metric then [] else heading t base_name kind in
    elim (series t kind k) [
      | none ↦ none
      | some text ↦ elim (render_keys t base_name ks) [
        | none ↦ none
        | some rest ↦ some (head ++ (text ++ rest))
      ]
    ]

unfoldable pub render_open_metrics : Metrics → Metrics → Option Bytes
unfolding tables sort render_keys
render_open_metrics pub_metrics priv_metrics =
    let t = tables pub_metrics priv_metrics in render_keys t [] (sort (keys t.all))
