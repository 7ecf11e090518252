-- ===== src/Metrics/Access/Secrecy.antt =====
-- Who sees the private metrics.
use kettlingar_go.Prelude.{
  ℕ, ◌≡◌, inl, inr, refl, sym, ap, ◌∙◌, arith, Bool, true, false, Bool-cases, List, [], ◌∷◌,
  if◌then◌else◌, Bytes, codes, Option, none, some,
}
use kettlingar_go.Dict.{Dict}
use kettlingar_go.Text.Search.{Lacks}
use kettlingar_go.Rpc.Auth.{Request, gate, authenticate, not_found, call}
use kettlingar_go.Rpc.Auth.Grants.{HasToken, HasSecretPath, authenticate_iff}
use kettlingar_go.Metrics.Registry.{
  Metrics, Registries, metrics_help, metrics_info, metrics_guage, metrics_count, metrics_sample,
}
use kettlingar_go.Metrics.Access.{MetricsResponse, public_api_metrics}

-- One call of a method that writes metrics; the Boolean is its registry, true for the private one.
pub data Update : Type 0 where
  helps : Bool → Bytes → Bytes → Update
  informs : Bool → Bytes → Bytes → Dict Bytes → Update
  gauges counts : Bool → Bytes → ℕ → Dict Bytes → Update
  samples : Bool → ℕ → Bytes → ℕ → Dict Bytes → Update

abbrev pub is_private : Update → Bool
is_private (helps p key text) = p
is_private (informs p key val labels) = p
is_private (gauges p key val labels) = p
is_private (counts p key val labels) = p
is_private (samples p now key val labels) = p

abbrev pub apply : Update → Registries → Registries
apply (helps p key text) = metrics_help key text p
apply (informs p key val labels) = metrics_info key val p labels
apply (gauges p key val labels) = metrics_guage key val p labels
apply (counts p key val labels) = metrics_count key val p labels
apply (samples p now key val labels) = metrics_sample now key val p labels

abbrev pub run : List Update → Registries → Registries
run [] ks = ks
run (u ∷ us) ks = run us (apply u ks)

abbrev pub public_only : List Update → List Update
public_only [] = []
public_only (u ∷ us) = let rest = public_only us in if is_private u then rest else u ∷ rest

-- A request for the metrics at the gate of their method, which is public.
abbrev pub scrape : Bytes → Request → ℕ → Registries → Option MetricsResponse
scrape secret r now ks = elim (gate secret (codes "metrics") true r) [
  | not_found ↦ none
  | call authed ↦ some (public_api_metrics now ks authed)
]

-- What an update does to the public registry.
apply-metrics :
    (u : Update) (ks ks' : Registries)
    → ks.metrics ≡ ks'.metrics
    → (apply u ks).metrics ≡ (if is_private u then ks'.metrics else (apply u ks').metrics)
unfolding metrics_help metrics_info metrics_guage metrics_count metrics_sample
apply-metrics (helps true key text) ks ks' e = e
apply-metrics (informs true key val labels) ks ks' e = e
apply-metrics (gauges true key val labels) ks ks' e = e
apply-metrics (counts true key val labels) ks ks' e = e
apply-metrics (samples true now key val labels) ks ks' e = e
apply-metrics (helps false key text) ks ks' e =
    ap (λ m. (metrics_help key text false (record ks { metrics = m })).metrics) e
apply-metrics (informs false key val labels) ks ks' e =
    ap (λ m. (metrics_info key val false labels (record ks { metrics = m })).metrics) e
apply-metrics (gauges false key val labels) ks ks' e =
    ap (λ m. (metrics_guage key val false labels (record ks { metrics = m })).metrics) e
apply-metrics (counts false key val labels) ks ks' e =
    ap (λ m. (metrics_count key val false labels (record ks { metrics = m })).metrics) e
apply-metrics (samples false now key val labels) ks ks' e =
    ap (λ m. (metrics_sample now key val false labels (record ks { metrics = m })).metrics) e

run-metrics :
    (us : List Update) (ks ks' : Registries)
    → ks.metrics ≡ ks'.metrics
    → (run us ks).metrics ≡ (run (public_only us) ks').metrics
run-metrics [] ks ks' e = e
run-metrics (u ∷ us) ks ks' e =
    let step = apply-metrics u ks ks' e in
    elim (Bool-cases (is_private u)) [
      | inl p ↦ rw p (
          run-metrics us (apply u ks) ks'
            (step ∙ ap (λ b. if b then ks'.metrics else (apply u ks').metrics) p))
      | inr p ↦ rw p (
          run-metrics us (apply u ks) (apply u ks')
            (step ∙ ap (λ b. if b then ks'.metrics else (apply u ks').metrics) p))
    ]

scrape-authed :
    (secret : Bytes) (r : Request) (now : ℕ) (ks : Registries) (b : Bool)
    → authenticate secret r (codes "metrics") ≡ b
    → scrape secret r now ks ≡ some (public_api_metrics now ks b)
unfolding gate
scrape-authed secret r now ks b e = rw e refl

denied :
    (secret : Bytes) (r : Request)
    → Lacks b'/' secret
    → ¬ HasToken secret r
    → ¬ HasSecretPath secret (codes "metrics") r
    → authenticate secret r (codes "metrics") ≡ false
denied secret r hs no_token no_path = elim (Bool-cases (authenticate secret r (codes "metrics"))) [
  | inl e ↦ elim ((authenticate_iff secret (codes "metrics") r hs (ground arith)).0 e) [
    | inl t ↦ absurd (no_token t)
    | inr p ↦ absurd (no_path p)
  ]
  | inr e ↦ e
]

-- For a secret without slashes, a request for the metrics that has neither the secret as its token
-- nor the path SECRET/metrics gets an answer that does not depend on the private metrics: after any
-- updates of the metrics it is the one that the public updates among them alone would give.
pub scrape-Hides :
    (secret : Bytes) (r : Request) (now : ℕ) (us : List Update) (ks : Registries)
    → Lacks b'/' secret
    → ¬ HasToken secret r
    → ¬ HasSecretPath secret (codes "metrics") r
    → (response : MetricsResponse) × (scrape secret r now (run us ks) ≡ some response)
      × (scrape secret r now (run (public_only us) ks) ≡ some response)
unfolding public_api_metrics
scrape-Hides secret r now us ks hs no_token no_path =
    let no = denied secret r hs no_token no_path in
    let seen = λ (m : Metrics).
      some
        (public_api_metrics now (record { metrics = m; metrics_priv = ks.metrics_priv }) false) in
    (
      public_api_metrics now (run us ks) false,
      scrape-authed secret r now (run us ks) false no,
      scrape-authed secret r now (run (public_only us) ks) false no
          ∙ ap seen (sym (run-metrics us ks ks refl)),
    )
