-- ===== src/Metrics.antt =====
-- internal/metrics/metrics.go: the metrics with their labels, and the calls that the program makes on
-- them, as values. Of what Prometheus does with a call, only the panic of a counter is modelled.
pub mod Registration
use k8s_ai_operator.Base.{Text, lit, ◌≡◌, List, [], ◌∷◌, length, Bool, false, ◌||◌, if◌then◌else◌}

pub data Metric : Type 0 where
  invocation_total input_tokens_total output_tokens_total invocation_cost_dollars : Metric
  invocation_duration_seconds rate_limited_total budget_breached_total : Metric
  reconcile_errors_total endpoint_available : Metric

unfoldable pub label_names : Metric → List Text
label_names invocation_total = lit "namespace" ∷ lit "endpoint" ∷ lit "model_id" ∷ lit "status" ∷ []
label_names input_tokens_total = lit "namespace" ∷ lit "endpoint" ∷ lit "model_id" ∷ []
label_names output_tokens_total = lit "namespace" ∷ lit "endpoint" ∷ lit "model_id" ∷ []
label_names invocation_cost_dollars = lit "namespace" ∷ lit "endpoint" ∷ lit "model_id" ∷ []
label_names invocation_duration_seconds = lit "namespace" ∷ lit "endpoint" ∷ lit "model_id" ∷ []
label_names rate_limited_total = lit "namespace" ∷ lit "endpoint" ∷ []
label_names budget_breached_total = lit "namespace" ∷ lit "endpoint" ∷ lit "period" ∷ []
label_names reconcile_errors_total = lit "controller" ∷ lit "reason" ∷ []
label_names endpoint_available = lit "namespace" ∷ lit "endpoint" ∷ lit "model_id" ∷ []

-- `m.WithLabelValues(labels...).Inc()` and so on; `forget` is DeleteLabelValues.
pub data MetricOp (Float : Type 0) : Type 0 where
  inc : Metric → List Text → MetricOp Float
  add : Metric → List Text → Float → MetricOp Float
  observe : Metric → List Text → Float → MetricOp Float
  gauge : Metric → List Text → Float → MetricOp Float
  forget : Metric → List Text → MetricOp Float

-- WithLabelValues panics unless it is given a value for each label of the metric.
abbrev pub HasLabels : {Float : Type 0} → MetricOp Float → Type 0
HasLabels (inc m ls) = length ls ≡ length (label_names m)
HasLabels (add m ls x) = length ls ≡ length (label_names m)
HasLabels (observe m ls x) = length ls ≡ length (label_names m)
HasLabels (gauge m ls x) = length ls ≡ length (label_names m)
HasLabels (forget m ls) = length ls ≡ length (label_names m)

-- `Counter.Add` panics on a negative value, as Prometheus documents.
unfoldable pub is_refused : {Float : Type 0} → (Float → Bool) → MetricOp Float → Bool
is_refused is_negative (inc m ls) = false
is_refused is_negative (add m ls x) = is_negative x
is_refused is_negative (observe m ls x) = false
is_refused is_negative (gauge m ls x) = false
is_refused is_negative (forget m ls) = false

-- Whether one of the calls, made in this order, panics, and the calls that are made before it.
unfoldable pub panics : {Float : Type 0} → (Float → Bool) → List (MetricOp Float) → Bool
panics is_negative [] = false
panics is_negative (op ∷ ops) = is_refused is_negative op || panics is_negative ops

unfoldable pub made :
    {Float : Type 0} → (Float → Bool) → List (MetricOp Float) → List (MetricOp Float)
made is_negative [] = []
made is_negative (op ∷ ops) =
    let rest = made is_negative ops in if is_refused is_negative op then [] else op ∷ rest
