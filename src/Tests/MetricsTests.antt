-- ===== src/Tests/MetricsTests.antt =====
-- kettlingar/metrics.go on concrete inputs.
use kettlingar_go.Prelude.{
  ℕ, ◌+◌, ◌%◌, ◌^◌, ◌≡◌, ◌≢◌, ◌≤◌, ◌<◌, refl, arith, true, false, List, [], ◌∷◌, ◌++◌, codes, some,
  All, get_or, none,
}
use kettlingar_go.Metrics.Labels.{escape_label}
use kettlingar_go.Metrics.Labels.Escape.{read_value, escape_label-read_value}
use kettlingar_go.Metrics.Histogram.{fresh}
use kettlingar_go.Metrics.Histogram.Buckets.{sample_all, counted_upto, sample_all-fresh}
use kettlingar_go.Metrics.Registry.{Registries, new_metrics, metrics_count_value, u64}
use kettlingar_go.Metrics.Registry.Counts.{Count, count_all, total, value-count_all}
use kettlingar_go.Rpc.Auth.{Request}
use kettlingar_go.Rpc.Auth.Grants.{HasToken, HasSecretPath}
use kettlingar_go.Metrics.Access.{MetricsResponse}
use kettlingar_go.Metrics.Access.Secrecy.{gauges, run, scrape, scrape-Hides}
use kettlingar_go.Metrics.Render.{slot_loop, render_open_metrics}
use kettlingar_go.Metrics.Render.Slots.{read_slot, shown, read_slot-slot_loop}

sample_all-fresh_example :
    let h = sample_all (32 ∷ 0 ∷ 33 ∷ []) (fresh 7) in
    (get_or h 1 0 ≡ 65 % 2 ^ 64)
    × (get_or h 19 0 ≡ 3 % 2 ^ 64)
    × ((i : ℕ) → 2 ≤ i → i < 19 → get_or h i 0 ≡ counted_upto i (32 ∷ 0 ∷ 33 ∷ []) % 2 ^ 64)
sample_all-fresh_example = sample_all-fresh 7 (32 ∷ 0 ∷ 33 ∷ []) (omega arith)

abbrev empty : Registries
empty = record {
  metrics = record { help = []; info = []; counts = []; guages = []; histograms = [] };
  metrics_priv = record { help = []; info = []; counts = []; guages = []; histograms = [] };
}

abbrev counts : List Count
counts =
    record { key = codes "n"; val = 2; public = false; labels = [] }
    ∷ record { key = codes "n"; val = 5; public = true; labels = [] }
    ∷ record { key = codes "n"; val = 3; public = false; labels = [] }
    ∷ []

counted_so_far :
    metrics_count_value (codes "n") false [] (count_all counts empty)
    ≡ (metrics_count_value (codes "n") false [] empty + total (codes "n") false [] counts) % u64
unfolding metrics_count_value
counted_so_far = value-count_all (codes "n") false [] counts empty (omega arith) (omega arith)

abbrev hist : List ℕ
hist = 9 ∷ 65 ∷ 0 ∷ 2 ∷ 2 ∷ 2 ∷ 2 ∷ 2 ∷ 2 ∷ 2 ∷ 2 ∷ 2 ∷ 2 ∷ 2 ∷ 2 ∷ 2 ∷ 2 ∷ 2 ∷ 2 ∷ 3 ∷ []

read_slot-slot_loop_example : read_slot 7 0 (slot_loop (shown hist) hist true 18 2) ≡ 2
read_slot-slot_loop_example = read_slot-slot_loop hist 7 (omega arith) (omega arith) (omega arith)

escape_label_run :
    All (λ c. c ≢ b'\n') (escape_label (codes "a\"b\n"))
    × (read_value false [] (escape_label (codes "a\"b\n") ++ (b'"' ∷ codes "}"))
        ≡ some (codes "a\"b\n", codes "}"))
escape_label_run = escape_label-read_value (codes "a\"b\n") (codes "}")

-- A family whose series are parted by those of another has its heading twice.
rendered :
    render_open_metrics
      (record new_metrics {
        counts = (codes "a", 1) ∷ (codes "a{b=\"c\"}", 2) ∷ (codes "a_x", 3) ∷ [];
      })
      new_metrics
    ≡ some (
        codes
          "# HELP a Generic Metrics: counter\n# TYPE a counter\na 1\n# HELP a_x Generic Metrics: counter\n# TYPE a_x counter\na_x 3\n# HELP a Generic Metrics: counter\n# TYPE a counter\na{b=\"c\"} 2\n# EOF\n")
unfolding render_open_metrics new_metrics
rendered = refl

abbrev no_auth : Request
no_auth = record {
  path = codes "/metrics";
  authorization = codes "Bearer no";
  content_type = [];
  accept = [];
  remote_addr = [];
  body = none;
}

no_token : ¬ HasToken (codes "s3") no_auth
no_token e = ground (arith, e)

no_path : ¬ HasSecretPath (codes "s3") (codes "metrics") no_auth
no_path e = ground (arith, e.1)

scrape-Hides_example :
    (response : MetricsResponse) × (scrape
        (codes "s3")
        no_auth
        9
        (run (gauges false (codes "a") 1 [] ∷ gauges true (codes "b") 2 [] ∷ []) empty)
      ≡ some response)
    × (scrape (codes "s3") no_auth 9 (run (gauges false (codes "a") 1 [] ∷ []) empty)
        ≡ some response)
scrape-Hides_example =
    scrape-Hides (codes "s3") no_auth 9
      (gauges false (codes "a") 1 [] ∷ gauges true (codes "b") 2 [] ∷ []) empty (ground arith)
      no_token no_path
