-- ===== src/Bedrock/Health.antt =====
-- internal/bedrock/health.go
pub mod Laws
use k8s_ai_operator.Base.{Text, lit, Bool, true, false, ◌++◌, Result, ok, err}
use k8s_ai_operator.Base.Exec.{Exec, ◌>>=◌, wrapped}
use k8s_ai_operator.Bedrock.Client.{EndpointKey, control_client}
use k8s_ai_operator.Bedrock.Converse.{Sdk, Link, on_client, on_remote}

pub record HealthResult : Type 0 where
  pub available : Bool
  pub reason : Text
  pub message : Text

-- `quote` is the verb %q.
module _ {Float Remote : Type 0} (quote : Text → Text) (sdk : Sdk Float Remote) where
  unfoldable pub check_model_availability : EndpointKey → Text → Exec (Link Remote) (Unit {0})
  check_model_availability key model_id = do
    ctrl ←
        wrapped (λ e. lit "building control-plane client: " ++ e) (on_client (control_client key))
    wrapped
        (λ e.
          lit "model "
          ++ (quote model_id ++ (lit " not available in " ++ (key.region ++ (lit ": " ++ e)))))
        (on_remote (sdk.get_foundation_model ctrl model_id))

  unfoldable pub health_result : EndpointKey → Text → Result (Unit {0}) → HealthResult
  health_result key model_id (err e) = record {
    available = false;
    reason = lit "BedrockUnavailable";
    message = e;
  }
  health_result key model_id (ok _) = record {
    available = true;
    reason = lit "ModelAvailable";
    message = lit "model " ++ (quote model_id ++ (lit " is available in " ++ key.region));
  }

  unfoldable pub health_check : EndpointKey → Text → Link Remote → HealthResult × Link Remote
  health_check key model_id s =
      let (r, s') = check_model_availability key model_id s in (health_result key model_id r, s')
