-- ===== src/Tests/Metrics.antt =====
-- The registration of the metrics with a registry that keeps the names it has.
use k8s_ai_operator.Base.{
  arith, Text, lit, List, [], ◌∷◌, ◌++◌, map, ok, err, text_eq, nat_eq, if◌then◌else◌, ◌≡◌, refl,
  true, Any,
}
use k8s_ai_operator.Metrics.{Metric}
use k8s_ai_operator.Metrics.Registration.{Prometheus, init, registered, full_name}
use k8s_ai_operator.Metrics.Registration.Laws.{
  join, is_fresh, distinct, IsPrometheus, init-registered,
}

abbrev prometheus : Prometheus (List Text)
prometheus = record {
  build_fq_name = join;
  register = λ o names.
      let n = join o.namespace o.subsystem o.name in
      if is_fresh names n then (ok tt, names ++ n ∷ []) else (err (lit "duplicate"), names);
}

prometheus-IsPrometheus : IsPrometheus prometheus (λ names. names)
prometheus-IsPrometheus = record {
  build_fq_name_lem = λ a b c p q r. refl;
  register_new = λ o r v e. ground arith;
}

init-registered_example :
    ((init prometheus []).0 ≡ ok tt)
    × ((init prometheus []).1 ≡ [] ++ map (full_name prometheus) registered)
    × (distinct (map (full_name prometheus) registered) ≡ true)
    × ((m : Metric) → Any (λ n. n ≡ m) registered)
init-registered_example =
    init-registered prometheus (λ names. names) prometheus-IsPrometheus [] (λ m. refl)
