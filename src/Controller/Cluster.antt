-- ===== src/Controller/Cluster.antt =====
-- What the reconcilers take from controller-runtime: the API client over the state `S` of the cluster,
-- the finalizer and owner helpers, and the results that they give back.
use k8s_ai_operator.Base.{ℕ, Text, Bool, true, false, ◌≡◌, Option, none, some, List, ok}
use k8s_ai_operator.Base.Dict.{Dict}
use k8s_ai_operator.Base.Exec.{Exec}
use k8s_ai_operator.Api.Meta.{ObjectKey}
use k8s_ai_operator.Metrics.{MetricOp}

-- `r.Get`, with `errors.IsNotFound` told apart from other errors
pub data Got (A : Type 0) : Type 0 where
  found : A → Got A
  not_found : Got A
  failed : Text → Got A

-- The client for one kind of objects. `patch_status base modified` is `r.Status().Patch` of `modified`
-- with `client.MergeFrom(base)`.
pub record Kind (S A : Type 0) : Type 0 where
  pub get : ObjectKey → S → Got A
  pub update : A → Exec S (Unit {0})
  pub patch_status : (base modified : A) → Exec S (Unit {0})

-- controllerutil.ContainsFinalizer, AddFinalizer and RemoveFinalizer, on the list of finalizers
pub record Finalizers : Type 0 where
  pub contains : List Text → Text → Bool
  pub add : List Text → Text → List Text
  pub remove : List Text → Text → List Text

-- Their documented behaviour.
pub record AreFinalizers (f : Finalizers) : Type 0 where
  pub contains-add : (l : List Text) (n : Text) → f.contains (f.add l n) n ≡ true
  pub contains-remove : (l : List Text) (n : Text) → f.contains (f.remove l n) n ≡ false

-- ctrl.Result with the error beside it; `requeue_after` is in seconds.
pub record Outcome : Type 0 where
  pub requeue : Bool
  pub requeue_after : ℕ
  pub error : Option Text

abbrev pub finished : Outcome
finished = record { requeue = false; requeue_after = 0; error = none }

abbrev pub requeued : Outcome
requeued = record { requeue = true; requeue_after = 0; error = none }

abbrev pub after : ℕ → Outcome
after n = record { requeue = false; requeue_after = n; error = none }

abbrev pub failing : Text → Outcome
failing e = record { requeue = false; requeue_after = 0; error = some e }

-- requeueSteadyState and requeueTransient, in seconds
abbrev pub requeue_steady_state : ℕ
requeue_steady_state = 300

abbrev pub requeue_transient : ℕ
requeue_transient = 10

-- The cluster, Bedrock as the reconciler sees it, and the metric calls made so far.
pub record World (S B Float : Type 0) : Type 0 where
  pub cluster : S
  pub bedrock : B
  pub metrics : List (MetricOp Float)

-- The parts of a core/v1 Service that the operator writes.
pub record ServicePort : Type 0 where
  pub name : Text
  pub port : ℕ
  pub target_port : ℕ

pub record ServiceSpec : Type 0 where
  pub kind : Text
  pub external_name : Text
  pub ports : List ServicePort

pub record Service : Type 0 where
  pub name : Text
  pub namespace : Text
  pub labels : Dict Text Text
  pub owners : List Text
  pub spec : ServiceSpec

-- What an API server that answers does with an object `a` that it holds: an update that changes the
-- finalizers alone changes those alone, while the object is not being deleted; a status patch
-- changes the status alone.
pub record IsKept {S A : Type 0} (kind : Kind S A) (set_finalizers : List Text → A → A)
    (set_status : A → A → A) (is_deleted : A → Bool) : Type 0 where
  pub get-update :
      (key : ObjectKey) (a : A) (l : List Text) (s t : S)
      → kind.get key s ≡ found a
      → is_deleted a ≡ false
      → kind.update (set_finalizers l a) s ≡ (ok tt, t)
      → kind.get key t ≡ found (set_finalizers l a)
  pub get-patch_status :
      (key : ObjectKey) (a b : A) (s t : S)
      → kind.get key s ≡ found a
      → kind.patch_status a b s ≡ (ok tt, t)
      → kind.get key t ≡ found (set_status a b)
