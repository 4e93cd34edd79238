-- ===== src/Metrics/Registration.antt =====
-- The names of the metrics and their registration: the options and `init` of
-- internal/metrics/metrics.go. Prometheus is a parameter; the help texts are left out.
pub mod Laws
use k8s_ai_operator.Base.{ℕ, Text, lit, List, [], ◌∷◌}
use k8s_ai_operator.Base.Exec.{Exec, ◌>>=◌, ◌>>◌, pure}
use k8s_ai_operator.Metrics.{
  Metric, invocation_total, input_tokens_total, output_tokens_total, invocation_cost_dollars,
  invocation_duration_seconds, rate_limited_total, budget_breached_total, reconcile_errors_total,
  endpoint_available, label_names,
}

-- The buckets of a histogram are in tenths of a second.
pub data Family : Type 0 where
  counter_vec gauge_vec : Family
  histogram_vec : List ℕ → Family

pub record Opts : Type 0 where
  pub namespace : Text
  pub subsystem : Text
  pub name : Text
  pub family : Family
  pub labels : List Text

unfoldable pub subsystem : Metric → Text
subsystem invocation_total = lit "bedrock"
subsystem input_tokens_total = lit "bedrock"
subsystem output_tokens_total = lit "bedrock"
subsystem invocation_cost_dollars = lit "bedrock"
subsystem invocation_duration_seconds = lit "bedrock"
subsystem rate_limited_total = lit "proxy"
subsystem budget_breached_total = lit "proxy"
subsystem reconcile_errors_total = lit "controller"
subsystem endpoint_available = lit "bedrock"

unfoldable pub metric_name : Metric → Text
metric_name invocation_total = lit "invocations_total"
metric_name input_tokens_total = lit "input_tokens_total"
metric_name output_tokens_total = lit "output_tokens_total"
metric_name invocation_cost_dollars = lit "invocation_cost_dollars_total"
metric_name invocation_duration_seconds = lit "invocation_duration_seconds"
metric_name rate_limited_total = lit "rate_limited_total"
metric_name budget_breached_total = lit "budget_breached_total"
metric_name reconcile_errors_total = lit "reconcile_errors_total"
metric_name endpoint_available = lit "endpoint_available"

unfoldable pub family : Metric → Family
family invocation_total = counter_vec
family input_tokens_total = counter_vec
family output_tokens_total = counter_vec
family invocation_cost_dollars = counter_vec
family invocation_duration_seconds =
    histogram_vec (1 ∷ 5 ∷ 10 ∷ 20 ∷ 50 ∷ 100 ∷ 300 ∷ 600 ∷ 1200 ∷ [])
family rate_limited_total = counter_vec
family budget_breached_total = counter_vec
family reconcile_errors_total = counter_vec
family endpoint_available = gauge_vec

unfoldable pub opts : Metric → Opts
opts m = record {
  namespace = lit "k8s_ai_operator";
  subsystem = subsystem m;
  name = metric_name m;
  family = family m;
  labels = label_names m;
}

-- `build_fq_name` is prometheus.BuildFQName, and `register` registers a collector with the registry of
-- controller-runtime; an error is the panic of MustRegister.
pub record Prometheus (R : Type 0) : Type 0 where
  pub build_fq_name : (namespace subsystem name : Text) → Text
  pub register : Opts → Exec R (Unit {0})

-- The arguments of MustRegister.
unfoldable pub registered : List Metric
registered =
    invocation_total ∷ input_tokens_total ∷ output_tokens_total ∷ invocation_cost_dollars
    ∷ invocation_duration_seconds ∷ rate_limited_total ∷ budget_breached_total
    ∷ reconcile_errors_total ∷ endpoint_available ∷ []

module _ {R : Type 0} (p : Prometheus R) where
  unfoldable pub must_register : List Metric → Exec R (Unit {0})
  must_register [] = pure tt
  must_register (m ∷ ms) = do p.register (opts m); must_register ms

  unfoldable pub init : Exec R (Unit {0})
  init = must_register registered

  unfoldable pub full_name : Metric → Text
  full_name m = p.build_fq_name (opts m).namespace (opts m).subsystem (opts m).name
