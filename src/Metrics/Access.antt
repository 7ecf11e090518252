-- ===== src/Metrics/Access.antt =====
-- The metrics method and its result: snapshot, PublicApiMetrics, String and Render of
-- kettlingar/metrics.go.
pub mod Secrecy
use kettlingar_go.Prelude.{
  ℕ, Bool, true, false, ◌||◌, [], ◌∷◌, if◌then◌else◌, Bytes, bytes_eq, codes, Option, none, some,
}
use kettlingar_go.Metrics.Registry.{Metrics, Registries, new_metrics}
use kettlingar_go.Metrics.Render.{render_open_metrics}

pub record MetricsResponse : Type 0 where
  pub timestamp : ℕ
  pub pub_metrics : Metrics
  pub priv_metrics : Metrics

unfoldable pub snapshot : Metrics → Metrics
snapshot m = record {
  help = m.help;
  info = m.info;
  counts = m.counts;
  guages = m.guages;
  histograms = m.histograms;
}

-- The maps of a field that is not set are nil, and read as empty ones.
unfoldable pub public_api_metrics : ℕ → Registries → Bool → MetricsResponse
unfolding snapshot new_metrics
public_api_metrics now ks is_authed =
    let response : MetricsResponse = record {
      timestamp = now;
      pub_metrics = snapshot ks.metrics;
      priv_metrics = new_metrics;
    } in
    if is_authed then record response { priv_metrics = snapshot ks.metrics_priv } else response

-- none is the panic of addLabel.
unfoldable pub string : MetricsResponse → Option Bytes
unfolding render_open_metrics
string mr = render_open_metrics mr.pub_metrics mr.priv_metrics

-- A MIME type and, where the format is known, the text of `string`.
unfoldable pub render : Bytes → MetricsResponse → Bytes × Option (Option Bytes)
unfolding render_open_metrics
render mime_type mr =
    if bytes_eq mime_type (codes "application/openmetrics-text")
      || (bytes_eq mime_type (codes "text/plain") || bytes_eq mime_type (codes "text"))
    then (
      codes "application/openmetrics-text; version=1.0.0",
      some (render_open_metrics mr.pub_metrics mr.priv_metrics),
    )
    else (codes "application/openmetrics-text", none)
