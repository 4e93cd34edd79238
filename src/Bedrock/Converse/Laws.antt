-- ===== src/Bedrock/Converse/Laws.antt =====
-- What Invoke sends and what it returns.
use k8s_ai_operator.Base.{
  ℤ, Text, ◌≡◌, refl, Option, none, some, List, [], ap, ◌∷◌, map, Result-cases, ok, arith, inl, inr,
}
use k8s_ai_operator.Base.Floats.{FloatOps}
use k8s_ai_operator.Bedrock.Client.{EndpointKey, SdkClient, runtime_client}
use k8s_ai_operator.Bedrock.Client.Laws.{
  IsFor, IsValid, runtime_client_total, runtime_client-IsValid,
}
use k8s_ai_operator.Bedrock.Converse.{
  Message, InvokeInput, InvokeOutput, ConverseMessage, InferenceConfig, ConverseResponse, Sdk, Link,
  converse_message, first_text, converse_request, invoke,
}

-- The conversation that a request carries.
abbrev pub message_of : ConverseMessage → Message
message_of m = record { role = m.role; content = first_text m.content }

map-message_of : (ms : List Message) → map message_of (map converse_message ms) ≡ ms
unfolding converse_message first_text
map-message_of [] = refl
map-message_of (m ∷ ms) = ap (λ r. m ∷ r) (map-message_of ms)

-- The limit that a request carries, if any.
abbrev pub limit_of : {Float : Type 0} → Option (InferenceConfig Float) → Option ℤ
limit_of none = none
limit_of (some c) = c.max_tokens

module _ {Float Remote : Type 0} (fl : FloatOps Float) (sdk : Sdk Float Remote) where
  -- One exchange with the model: what was sent, through a client for the key, and what came back.
  pub record IsExchange (key : EndpointKey) (input : InvokeInput Float) (s : Link Remote)
      (out : InvokeOutput) (t : Link Remote) : Type 0 where
    pub client : SdkClient
    pub body : Text
    pub reply : Text
    pub response : ConverseResponse
    pub for_key : IsFor key client.config
    pub turns : map message_of (converse_request fl input).messages ≡ input.messages
    pub encoded : sdk.marshal (converse_request fl input) ≡ ok body
    pub sent : sdk.invoke_model client input.model_id body s.remote ≡ (ok reply, t.remote)
    pub decoded : sdk.unmarshal reply ≡ ok response
    pub input_tokens : out.input_tokens ≡ response.input_tokens
    pub output_tokens : out.output_tokens ≡ response.output_tokens
    pub stop_reason : out.stop_reason ≡ response.stop_reason
    pub content : out.content ≡ first_text response.content

  -- A successful Invoke is one exchange with the model, through a client that has the key's region and
  -- role, of the encoded request, which holds the caller's turns in their order; it returns the reply's
  -- token counts, stop reason and first text, and keeps the client cache valid.
  pub invoke-IsExchange :
      (key : EndpointKey) (input : InvokeInput Float) (s t : Link Remote) (out : InvokeOutput)
      → IsValid s.client
      → invoke fl sdk key input s ≡ (ok out, t)
      → IsExchange key input s out t × IsValid t.client
  unfolding invoke converse_request
  invoke-IsExchange key input s t out v e =
      let (cl, got, own, _, _) = runtime_client_total key s.client v in
      elim (Result-cases (sdk.marshal (converse_request fl input))) [
        | inr (_, refused) ↦ absurd (ground arith)
        | inl (body, encoded) ↦
            elim (Result-cases (sdk.invoke_model cl input.model_id body s.remote).0) [
              | inr (_, refused) ↦ absurd (ground arith)
              | inl (reply, sent) ↦ elim (Result-cases (sdk.unmarshal reply)) [
                | inr (_, refused) ↦ absurd (ground arith)
                | inl (response, decoded) ↦ (
                  record {
                    client = cl;
                    body = body;
                    reply = reply;
                    response = response;
                    for_key = own;
                    turns = map-message_of input.messages;
                    encoded = encoded;
                    sent = ground arith;
                    decoded = decoded;
                    input_tokens = ground arith;
                    output_tokens = ground arith;
                    stop_reason = ground arith;
                    content = ground arith;
                  },
                  let kept : t.client ≡ (runtime_client key s.client).1 = ground arith in
                      rw kept (runtime_client-IsValid key s.client v),
                )
              ]
            ]
      ]
