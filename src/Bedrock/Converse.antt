-- ===== src/Bedrock/Converse.antt =====
-- Invoke of internal/bedrock/client.go. JSON encoding and the calls of the AWS SDK are the parameter
-- `sdk`, over the state `Remote` of AWS.
pub mod Laws
use k8s_ai_operator.Base.{
  ℤ, pos, lt_int, Text, lit, ◌||◌, Option, none, some, List, [], ◌∷◌, ◌++◌, map, Result, map_err,
  ◌==◌, text_eq, if◌then◌else◌,
}
use k8s_ai_operator.Base.Floats.{FloatOps}
use k8s_ai_operator.Base.Exec.{Exec, ◌>>=◌, pure, lift, wrapped}
use k8s_ai_operator.Bedrock.Client.{EndpointKey, SdkClient, Client, runtime_client}

pub record Message : Type 0 where
  pub role : Text
  pub content : Text

pub record InvokeInput (Float : Type 0) : Type 0 where
  pub model_id : Text
  pub system_prompt : Text
  pub messages : List Message
  pub max_tokens : ℤ
  pub temperature : Float

pub record InvokeOutput : Type 0 where
  pub content : Text
  pub input_tokens : ℤ
  pub output_tokens : ℤ
  pub stop_reason : Text

-- messageContent and systemContent
pub record TextContent : Type 0 where
  pub text : Text

pub record ConverseMessage : Type 0 where
  pub role : Text
  pub content : List TextContent

pub record InferenceConfig (Float : Type 0) : Type 0 where
  pub max_tokens : Option ℤ
  pub temperature : Option Float

pub record ConverseRequest (Float : Type 0) : Type 0 where
  pub model_id : Text
  pub messages : List ConverseMessage
  pub system : List TextContent
  pub inference_config : Option (InferenceConfig Float)

-- converseResponse: `Output.Message` and `Usage` are written out.
pub record ConverseResponse : Type 0 where
  pub role : Text
  pub content : List TextContent
  pub input_tokens : ℤ
  pub output_tokens : ℤ
  pub stop_reason : Text

pub record Sdk (Float Remote : Type 0) : Type 0 where
  -- json.Marshal and json.Unmarshal
  pub marshal : ConverseRequest Float → Result Text
  pub unmarshal : Text → Result ConverseResponse
  -- InvokeModel: the model, the body and the response's body
  pub invoke_model : SdkClient → Text → Text → Exec Remote Text
  pub get_foundation_model : SdkClient → Text → Exec Remote (Unit {0})

-- The client and what it talks to.
pub record Link (Remote : Type 0) : Type 0 where
  pub client : Client
  pub remote : Remote

abbrev pub on_client : {Remote A : Type 0} → Exec Client A → Exec (Link Remote) A
on_client m s = let (r, c) = m s.client in (r, record s { client = c })

abbrev pub on_remote : {Remote A : Type 0} → Exec Remote A → Exec (Link Remote) A
on_remote m s = let (r, t) = m s.remote in (r, record s { remote = t })

unfoldable pub converse_message : Message → ConverseMessage
converse_message m = record { role = m.role; content = record { text = m.content } ∷ [] }

unfoldable pub first_text : List TextContent → Text
first_text [] = []
first_text (t ∷ _) = t.text

module _ {Float : Type 0} (fl : FloatOps Float) where
  unfoldable pub inference_config : ℤ → Float → Option (InferenceConfig Float)
  inference_config max_tokens temperature =
      if lt_int (pos 0) max_tokens || fl.is_positive temperature
      then some (record {
        max_tokens = if lt_int (pos 0) max_tokens then some max_tokens else none;
        temperature = if fl.is_positive temperature then some temperature else none;
      })
      else none

  unfoldable pub converse_request : InvokeInput Float → ConverseRequest Float
  converse_request input = record {
    model_id = input.model_id;
    messages = map converse_message input.messages;
    system = if input.system_prompt == [] then [] else record { text = input.system_prompt } ∷ [];
    inference_config = inference_config input.max_tokens input.temperature;
  }

  unfoldable pub invoke :
      {Remote : Type 0}
      → Sdk Float Remote
      → EndpointKey
      → InvokeInput Float
      → Exec (Link Remote) InvokeOutput
  invoke sdk key input = do
    rt ←
        wrapped
          (λ e.
            lit "getting runtime client for "
            ++ (key.role_arn ++ (lit "/" ++ (key.region ++ (lit ": " ++ e)))))
          (on_client (runtime_client key))
    body ← lift (
        map_err (λ e. lit "marshaling converse request: " ++ e)
          (sdk.marshal (converse_request input)))
    resp ←
        wrapped (λ e. lit "invoking model " ++ (input.model_id ++ (lit ": " ++ e)))
          (on_remote (sdk.invoke_model rt input.model_id body))
    out ← lift (map_err (λ e. lit "unmarshaling bedrock response: " ++ e) (sdk.unmarshal resp))
    pure (record {
      content = first_text out.content;
      input_tokens = out.input_tokens;
      output_tokens = out.output_tokens;
      stop_reason = out.stop_reason;
    })
