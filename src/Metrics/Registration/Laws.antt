-- ===== src/Metrics/Registration/Laws.antt =====
-- The names of the metrics and the outcome of `init` (internal/metrics/metrics.go).
use k8s_ai_operator.Base.{
  ℕ, Text, lit, Bool, true, false, not, ◌&&◌, ◌||◌, leb, ltb, List, [], ◌∷◌, ◌++◌, map, all, any,
  All, Any, ok, ◌==◌, text_eq, nat_eq, ℕ_discrete, ◌≡◌, refl, ◌≢◌, arith, fun_ext, sym, ◌∙◌, ap,
}
use mathlib.Core.List.{append_assoc, append-nil}
use k8s_ai_operator.Metrics.{
  Metric, invocation_total, input_tokens_total, output_tokens_total, invocation_cost_dollars,
  invocation_duration_seconds, rate_limited_total, budget_breached_total, reconcile_errors_total,
  endpoint_available, label_names,
}
use k8s_ai_operator.Metrics.Registration.{
  Family, counter_vec, gauge_vec, histogram_vec, Opts, opts, subsystem, metric_name, family,
  Prometheus, registered, must_register, init, full_name,
}

letter : ℕ → Bool
letter c = (leb b'a' c && leb c b'z') || (leb b'A' c && leb c b'Z') || c == b'_'

word_char : ℕ → Bool
word_char c = letter c || (leb b'0' c && leb c b'9')

-- [a-zA-Z_][a-zA-Z0-9_]*, which is a name with no colon.
is_name : Text → Bool
is_name [] = false
is_name (c ∷ cs) = letter c && all word_char cs

pub distinct : List Text → Bool
distinct [] = true
distinct (n ∷ ns) = all (λ m. not (n == m)) ns && distinct ns

increasing : List ℕ → Bool
increasing [] = true
increasing (x ∷ []) = true
increasing (x ∷ y ∷ ys) = ltb x y && increasing (y ∷ ys)

AreBuckets : Family → List Text → Type 0
AreBuckets counter_vec labels = Unit
AreBuckets gauge_vec labels = Unit
AreBuckets (histogram_vec buckets) labels =
    (increasing buckets ≡ true) × (any (λ l. l == lit "le") labels ≡ false)

abbrev pub join : Text → Text → Text → Text
join a b c = a ++ b'_' ∷ (b ++ b'_' ∷ c)

pub record IsValid (o : Opts) : Type 0 where
  name : is_name (join o.namespace o.subsystem o.name) ≡ true
  labels : all is_name o.labels ≡ true
  distinct_labels : distinct o.labels ≡ true
  buckets : AreBuckets o.family o.labels

abbrev pub is_fresh : List Text → Text → Bool
is_fresh names n = all (λ m. not (m == n)) names

-- What Prometheus documents: a full name joins its three parts; a collector with valid names and
-- buckets whose full name is not taken is registered, under that name.
pub record IsPrometheus {R : Type 0} (p : Prometheus R) (names : R → List Text) : Type 0 where
  pub build_fq_name_lem :
      (a b c : Text)
      → a ≢ []
      → b ≢ []
      → c ≢ []
      → p.build_fq_name a b c ≡ a ++ b'_' ∷ (b ++ b'_' ∷ c)
  pub register_new :
      (o : Opts) (r : R)
      → IsValid o
      → is_fresh (names r) (p.build_fq_name o.namespace o.subsystem o.name) ≡ true
      → ((p.register o r).0 ≡ ok tt)
        × (names (p.register o r).1
            ≡ names r ++ p.build_fq_name o.namespace o.subsystem o.name ∷ [])

opts-IsValid : (m : Metric) → IsValid (opts m)
unfolding opts subsystem metric_name family label_names lit letter word_char text_eq distinct
    increasing is_name AreBuckets nat_eq ℕ_discrete
opts-IsValid invocation_total = record {
  name = refl;
  labels = refl;
  distinct_labels = refl;
  buckets = tt;
}
opts-IsValid input_tokens_total = record {
  name = refl;
  labels = refl;
  distinct_labels = refl;
  buckets = tt;
}
opts-IsValid output_tokens_total = record {
  name = refl;
  labels = refl;
  distinct_labels = refl;
  buckets = tt;
}
opts-IsValid invocation_cost_dollars = record {
  name = refl;
  labels = refl;
  distinct_labels = refl;
  buckets = tt;
}
opts-IsValid invocation_duration_seconds = record {
  name = refl;
  labels = refl;
  distinct_labels = refl;
  buckets = (refl, refl);
}
opts-IsValid rate_limited_total = record {
  name = refl;
  labels = refl;
  distinct_labels = refl;
  buckets = tt;
}
opts-IsValid budget_breached_total = record {
  name = refl;
  labels = refl;
  distinct_labels = refl;
  buckets = tt;
}
opts-IsValid reconcile_errors_total = record {
  name = refl;
  labels = refl;
  distinct_labels = refl;
  buckets = tt;
}
opts-IsValid endpoint_available = record {
  name = refl;
  labels = refl;
  distinct_labels = refl;
  buckets = tt;
}

-- The full name, as Prometheus joins it.
joined : Metric → Text
joined m = join (opts m).namespace (opts m).subsystem (opts m).name

joined-distinct : distinct (map joined registered) ≡ true
unfolding joined opts subsystem metric_name lit text_eq distinct registered
joined-distinct = refl

registered_all : (m : Metric) → Any (λ n. n ≡ m) registered
unfolding registered
registered_all m = ground arith

is_fresh-snoc :
    (names : List Text) (n k : Text)
    → is_fresh names k ≡ true
    → (not (n == k)) ≡ true
    → is_fresh (names ++ n ∷ []) k ≡ true
is_fresh-snoc [] n k h e = ground arith
is_fresh-snoc (x ∷ names) n k h e = ground (arith, is_fresh-snoc names n k)

AreFresh-snoc :
    (names : List Text) (n : Text) (ks : List Text)
    → All (λ k. is_fresh names k ≡ true) ks
    → all (λ k. not (n == k)) ks ≡ true
    → All (λ k. is_fresh (names ++ n ∷ []) k ≡ true) ks
AreFresh-snoc names n [] h e = tt
AreFresh-snoc names n (k ∷ ks) h e =
    (is_fresh-snoc names n k h.0 (ground arith), AreFresh-snoc names n ks h.1 (ground arith))

module _ {R : Type 0} (p : Prometheus R) (names : R → List Text) (v : IsPrometheus p names) where
  full_name-joined : (m : Metric) → full_name p m ≡ joined m
  unfolding full_name joined opts lit subsystem metric_name
  full_name-joined invocation_total = v.build_fq_name_lem _ _ _ (λ e. cc) (λ e. cc) (λ e. cc)
  full_name-joined input_tokens_total = v.build_fq_name_lem _ _ _ (λ e. cc) (λ e. cc) (λ e. cc)
  full_name-joined m = v.build_fq_name_lem _ _ _ (λ e. cc) (λ e. cc) (λ e. cc)

  step-names :
      (m : Metric) (ms : List Metric) (r : R)
      → (p.register (opts m) r).0 ≡ ok tt
      → must_register p (m ∷ ms) r ≡ must_register p ms (p.register (opts m) r).1
  unfolding must_register
  step-names m ms r done = ground arith

  must_register-names :
      (ms : List Metric) (r : R)
      → distinct (map (full_name p) ms) ≡ true
      → All (λ n. is_fresh (names r) n ≡ true) (map (full_name p) ms)
      → ((must_register p ms r).0 ≡ ok tt)
        × (names (must_register p ms r).1 ≡ names r ++ map (full_name p) ms)
  unfolding must_register full_name distinct
  must_register-names [] r d h = (refl, sym (append-nil (names r)))
  must_register-names (m ∷ ms) r d h =
      let (done, grown) = v.register_new (opts m) r (opts-IsValid m) h.0 in
      let t = (p.register (opts m) r).1 in
      let fresh : All (λ n. is_fresh (names t) n ≡ true) (map (full_name p) ms) =
        rw grown
          (AreFresh-snoc (names r) (full_name p m) (map (full_name p) ms) h.1 (ground arith)) in
      let (rest, all_names) = must_register-names ms t (ground arith) fresh in
      (
        rw (step-names m ms r done) rest,
        ap (λ o. names o.1) (step-names m ms r done)
            ∙ all_names
            ∙ rw grown (append_assoc (names r) (full_name p m ∷ []) (map (full_name p) ms)),
      )

  AreFresh-All :
      (r : R) (ms : List Metric)
      → ((m : Metric) → is_fresh (names r) (full_name p m) ≡ true)
      → All (λ n. is_fresh (names r) n ≡ true) (map (full_name p) ms)
  AreFresh-All r [] h = tt
  AreFresh-All r (m ∷ ms) h = (h m, AreFresh-All r ms h)

  -- If no name of the program's metrics is taken, `init` does not panic, and it registers every metric
  -- of the program, each under its own full name, once and in the order of the list.
  pub init-registered :
      (r : R)
      → ((m : Metric) → is_fresh (names r) (full_name p m) ≡ true)
      → ((init p r).0 ≡ ok tt)
        × (names (init p r).1 ≡ names r ++ map (full_name p) registered)
        × (distinct (map (full_name p) registered) ≡ true)
        × ((m : Metric) → Any (λ n. n ≡ m) registered)
  unfolding init
  init-registered r fresh =
      let same : distinct (map (full_name p) registered) ≡ true =
        rw (fun_ext full_name-joined) joined-distinct in
      let (done, all_names) =
        must_register-names registered r same (AreFresh-All r registered fresh) in
      (done, all_names, same, registered_all)
