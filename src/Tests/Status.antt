-- ===== src/Tests/Status.antt =====
-- Conditions, labels and reconciles of one endpoint, with a cluster that holds one endpoint and an AWS
-- that counts the calls.
use k8s_ai_operator.Base.{
  ℕ, ◌+◌, Text, lit, Bool, true, false, ◌≡◌, refl, ◌≢◌, none, some, List, [], ◌∷◌, ◌++◌, ok, arith,
  ◌==◌, text_eq, nat_eq, if◌then◌else◌,
}
use k8s_ai_operator.Api.Meta.{ObjectKey, Condition, condition_true, condition_false, finalizer_name}
use k8s_ai_operator.Api.Endpoint.{ModelEndpoint}
use mathlib.Core.Quot
use k8s_ai_operator.Controller.Conditions.View.{View, find, set, written, set_comm}
use k8s_ai_operator.Controller.Labels.{sanitize_label}
use k8s_ai_operator.Controller.Labels.Laws.{IsLabelText, sanitize_label-IsLabelText}
use k8s_ai_operator.Controller.Cluster.{
  found, Finalizers, AreFinalizers, IsKept, after, World, requeue_steady_state, requeue_transient,
}
use k8s_ai_operator.Controller.Endpoint.{
  add_finalizer, Reconciler, Clock, set_finalizers, reconcile, reconcile_found, sync,
}
use k8s_ai_operator.Controller.Endpoint.Service.{reconcile_service}
use k8s_ai_operator.Controller.Endpoint.Synced.{IsSynced}
use k8s_ai_operator.Controller.Endpoint.Laws.Converge.{reconcile-reconcile}
use k8s_ai_operator.Controller.Endpoint.Laws.{
  set_status, is_deleted, KeepsEndpoints, reconcile-IsSynced,
}
use k8s_ai_operator.Tests.World.{endpoint, fixed}

abbrev ready : Condition
ready = record {
  kind = lit "Ready";
  status = condition_true;
  reason = lit "ModelAvailable";
  message = [];
  last_transition_time = 100;
}

abbrev synced : Condition
synced = record {
  kind = lit "GuardrailSynced";
  status = condition_false;
  reason = lit "Failed";
  message = [];
  last_transition_time = 50;
}

abbrev lost : Condition
lost = record ready { status = condition_false; last_transition_time = 200 }

kinds_differ : lost.kind ≢ synced.kind
unfolding lit
kinds_differ h = cc

abbrev view : View
view = Quot.mk (synced ∷ ready ∷ [])

set_comm_example :
    (find (lit "Ready") (set lost view) ≡ (
      if lit "Ready" == lit "Ready"
      then some (written (find (lit "Ready") view) lost)
      else find (lit "Ready") view))
    × (set lost (set synced view) ≡ set synced (set lost view))
set_comm_example = set_comm lost synced view (lit "Ready") kinds_differ

abbrev model : Text
model = lit "anthropic.claude-3-haiku-20240307-v1:0"

sanitize_label-IsLabelText_example : IsLabelText (sanitize_label model)
sanitize_label-IsLabelText_example = sanitize_label-IsLabelText model

abbrev pub has : List Text → Text → Bool
has [] n = false
has (m ∷ l) n = if m == n then true else has l n

abbrev pub without : List Text → Text → List Text
without [] n = []
without (m ∷ l) n = if m == n then without l n else m ∷ without l n

abbrev pub finalizers : Finalizers
finalizers = record {
  contains = has;
  add = λ l n. if has l n then l else l ++ n ∷ [];
  remove = without;
}

has-append : (l : List Text) (n : Text) → has (l ++ n ∷ []) n ≡ true
has-append [] n = ground arith
has-append (m ∷ l) n = ground (arith, has-append l n)

has-without : (l : List Text) (n : Text) → has (without l n) n ≡ false
has-without [] n = refl
has-without (m ∷ l) n = ground (arith, has-without l n)

pub finalizers-AreFinalizers : AreFinalizers finalizers
finalizers-AreFinalizers = record {
  contains-add = λ l n. ground (arith, has-append l n);
  contains-remove = has-without;
}

-- The cluster is the one endpoint; Bedrock is the number of calls, and has the model.
abbrev pub reconciler : Reconciler ModelEndpoint ℕ ℕ
reconciler = record {
  endpoints = record {
    get = λ key s. found s;
    update = λ a s. (ok tt, a);
    patch_status = λ a b s. (ok tt, set_status a b);
  };
  services = record {
    set_controller_reference = λ ep s. ok s;
    create_or_update = λ desired f s. (ok tt, s);
    proxy_service_name = lit "operator";
    proxy_namespace = lit "system";
  };
  finalizers = finalizers;
  bedrock = record {
    health_check = λ key m n.
        (record { available = true; reason = lit "ModelAvailable"; message = [] }, n + 1);
    invalidate_cache = λ key n. 0;
  };
  floats = fixed;
}

pub reconciler-IsKept : IsKept reconciler.endpoints set_finalizers set_status is_deleted
reconciler-IsKept = record {
  get-update = λ key a l s t h live k. ground arith;
  get-patch_status = λ key a b s t h k. ground arith;
}

pub reconciler-KeepsEndpoints : KeepsEndpoints reconciler
reconciler-KeepsEndpoints key desired f s = refl

abbrev fresh : ModelEndpoint
fresh = record endpoint { meta = record endpoint.meta { finalizers = [] } }

abbrev gone : ModelEndpoint
gone = record endpoint { meta = record endpoint.meta { deletion_timestamp = some 900 } }

abbrev pub clock : Clock
clock = record { reachable_at = 500; ready_at = 500 }

abbrev pub key : ObjectKey
key = record { namespace = lit "team"; name = lit "haiku" }

abbrev pub world : ModelEndpoint → World ModelEndpoint ℕ ℕ
world ep = record { cluster = ep; bedrock = 0; metrics = [] }

pub has_finalizer : has endpoint.meta.finalizers finalizer_name ≡ true
unfolding finalizer_name lit text_eq
has_finalizer = refl

pub endpoint_quiet : (reconcile reconciler clock key (world endpoint)).0.error ≡ none
unfolding reconcile reconcile_found sync reconcile_service finalizer_name lit text_eq
endpoint_quiet = refl

reconcile-IsSynced_example :
    ((ep' : ModelEndpoint) × (found (reconcile reconciler clock key (world endpoint)).1.cluster
        ≡ found ep')
      × (ep'.meta ≡ endpoint.meta)
      × (ep'.spec ≡ endpoint.spec)
      × IsSynced (record { available = true; reason = lit "ModelAvailable"; message = [] }) ep')
    × ((reconcile reconciler clock key (world endpoint)).0
        ≡ after (if true then requeue_steady_state else requeue_transient))
reconcile-IsSynced_example =
    reconcile-IsSynced reconciler clock key endpoint (world endpoint) reconciler-IsKept
      reconciler-KeepsEndpoints refl refl has_finalizer endpoint_quiet

fresh_quiet : (reconcile reconciler clock key (world fresh)).0.error ≡ none
unfolding reconcile reconcile_found add_finalizer
fresh_quiet = refl

fresh_quiet_again :
    (reconcile reconciler clock key (reconcile reconciler clock key (world fresh)).1).0.error ≡ none
unfolding reconcile reconcile_found add_finalizer sync reconcile_service finalizer_name lit text_eq
fresh_quiet_again = refl

reconcile-reconcile_example :
    (ep' : ModelEndpoint) × (found
        (reconcile reconciler clock key (reconcile reconciler clock key (world fresh)).1).1.cluster
      ≡ found ep')
    × (ep'.spec ≡ fresh.spec)
    × (has ep'.meta.finalizers finalizer_name ≡ true)
    × IsSynced (record { available = true; reason = lit "ModelAvailable"; message = [] }) ep'
reconcile-reconcile_example =
    reconcile-reconcile reconciler clock clock key fresh (world fresh) finalizers-AreFinalizers
      reconciler-IsKept reconciler-KeepsEndpoints refl refl refl fresh_quiet fresh_quiet_again
