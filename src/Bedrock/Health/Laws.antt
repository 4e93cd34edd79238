-- ===== src/Bedrock/Health/Laws.antt =====
-- What a health check tells of the model.
use k8s_ai_operator.Base.{Text, lit, ◌≡◌, ◌↔◌, ◌≢◌, true, false, ok, arith}
use k8s_ai_operator.Bedrock.Client.{EndpointKey, SdkClient, control_client}
use k8s_ai_operator.Bedrock.Client.Laws.{
  IsFor, IsValid, control_client_total, control_client-IsValid,
}
use k8s_ai_operator.Bedrock.Converse.{Sdk, Link}
use k8s_ai_operator.Bedrock.Health.{health_check, health_result, check_model_availability}

reasons_differ : lit "BedrockUnavailable" ≢ lit "ModelAvailable"
unfolding lit
reasons_differ h = ground arith

-- HealthCheck reports the model available exactly when GetFoundationModel, through a client with the
-- key's region and role, finds it; the reason is "ModelAvailable" then and "BedrockUnavailable"
-- otherwise. The client cache stays valid.
pub health_check_lem :
    {Float Remote : Type 0} (quote : Text → Text) (sdk : Sdk Float Remote) (key : EndpointKey)
    (model_id : Text) (s : Link Remote)
    → IsValid s.client
    → (cl : SdkClient) × IsFor key cl.config
      × (((health_check quote sdk key model_id s).0.available ≡ true)
          ↔ ((sdk.get_foundation_model cl model_id s.remote).0 ≡ ok tt))
      × (((health_check quote sdk key model_id s).0.available ≡ true)
          ↔ ((health_check quote sdk key model_id s).0.reason ≡ lit "ModelAvailable"))
      × (((health_check quote sdk key model_id s).0.available ≡ false)
          ↔ ((health_check quote sdk key model_id s).0.reason ≡ lit "BedrockUnavailable"))
      × IsValid (health_check quote sdk key model_id s).1.client
unfolding health_check health_result check_model_availability
health_check_lem quote sdk key model_id s v =
    let (cl, got, own) = control_client_total key s.client v in
    let kept : (health_check quote sdk key model_id s).1.client ≡ (control_client key s.client).1 =
      ground arith in
    (
      cl,
      own,
      ground arith,
      ground (arith, reasons_differ),
      ground (arith, reasons_differ),
      rw kept (control_client-IsValid key s.client v),
    )
