-- ===== src/Tests/World.antt =====
-- Concrete values for what is outside the program: fixed-point numbers for float64, a bucket that
-- counts requests, an AWS that counts calls, and JSON functions that ignore their text.
use k8s_ai_operator.Base.{
  ℕ, ◌+◌, ◌-◌, ◌*◌, ◌/◌, ◌^◌, ◌≤◌, ℤ, pos, negsuc, ◌≤ℤ◌, Text, lit, true, false, none, some, [],
  ◌∷◌, ok, arith, ltb, ◌==◌, nat_eq, if◌then◌else◌,
}
use k8s_ai_operator.Base.Floats.{FloatOps}
use k8s_ai_operator.Api.Template.{PromptTemplate}
use k8s_ai_operator.Api.Endpoint.{ModelEndpoint}
use k8s_ai_operator.Bedrock.Cost.Laws.{IsRounded}
use k8s_ai_operator.Bedrock.Client.{Client, ambient}
use k8s_ai_operator.Bedrock.Converse.{ConverseResponse, Sdk, Link}
use k8s_ai_operator.Proxy.Limiter.{BucketOps}
use k8s_ai_operator.Proxy.Http.{HttpRequest, Scene, InvokeRequest, Handler, Outside}

abbrev pub unit : ℕ
unit = 1000000000

abbrev pub of_int : ℤ → ℕ
of_int (pos n) = n * unit
of_int (negsuc n) = 0

-- Numbers in units of 10 ^ -9; a literal keeps as many digits.
abbrev pub fixed : FloatOps ℕ
fixed = record {
  of_int = of_int;
  decimal = λ m k. m * unit / 10 ^ k;
  add = λ a b. a + b;
  mul = λ a b. a * b / unit;
  div = λ a b. a * unit / b;
  round = λ a. (a + unit / 2) / unit * unit;
  is_positive = λ a. ltb 0 a;
  is_negative = λ a. false;
  format = λ a p. a ∷ p ∷ [];
}

of_int_mono : (m n : ℤ) → m ≤ℤ n → of_int m ≤ of_int n
of_int_mono (pos m) (pos n) h = omega arith
of_int_mono (negsuc m) (pos n) h = omega arith
of_int_mono (negsuc m) (negsuc n) h = omega arith
of_int_mono (pos m) (negsuc n) h = absurd h

mul_mono : (a b c : ℕ) → a ≤ b → a * c ≤ b * c
mul_mono a b c h = grind arith

div_mono : (a b k : ℕ) → a ≤ b → a / k ≤ b / k
div_mono a b k h = grind arith

pub fixed-IsRounded : IsRounded fixed ◌≤◌
fixed-IsRounded = record {
  of_int-mono = of_int_mono;
  decimal-nonneg = λ m k. omega arith;
  add-mono = λ a b c d h k. omega arith;
  mul-mono = λ a b c h k. omega (arith, mul_mono a b c k);
  div-mono = λ a b m low h. div_mono _ _ _ (mul_mono a b unit h);
  round-mono = λ a b h. omega arith;
}

abbrev pub reply : ConverseResponse
reply = record {
  role = lit "assistant";
  content = record { text = lit "hi" } ∷ [];
  input_tokens = pos 1000;
  output_tokens = pos 500;
  stop_reason = lit "end_turn";
}

abbrev pub aws : Sdk ℕ ℕ
aws = record {
  marshal = λ r. ok (lit "request");
  unmarshal = λ t. ok reply;
  invoke_model = λ cl m b n. (ok (lit "reply"), n + 1);
  get_foundation_model = λ cl m n. (ok tt, n + 1);
}

abbrev pub counting : BucketOps ℕ ℕ
counting = record {
  new_limiter = λ rate burst. elim burst [ pos n ↦ n | negsuc n ↦ 0 ];
  allow = λ now b. if b == 0 then (false, 0) else (true, b - 1);
}

abbrev pub asking : ℤ → InvokeRequest ℕ
asking n = record {
  messages = record { role = lit "user"; content = lit "hello" } ∷ [];
  system_prompt = [];
  max_tokens = n;
  temperature = 0;
}

abbrev pub outside : Outside ℕ ℕ ℕ Text
outside = record {
  floats = fixed;
  sdk = aws;
  buckets = counting;
  decode_invoke = λ b. ok (asking (pos 9000));
  decode_render = λ b. ok (record { variables = none });
  parse_template = λ name t. ok t;
  execute_template = λ t vars. ok t;
}

abbrev pub client : Client
client = record {
  base_config = record { region = lit "us-east-1"; credentials = ambient };
  runtime = [];
  control = [];
  allocated = 0;
}

abbrev pub link : Link ℕ
link = record { client = client; remote = 0 }

abbrev pub handler : Handler ℕ ℕ ℕ
handler = record { rate_limiters = []; link = link; metrics = [] }

-- An endpoint in steady state.
abbrev pub endpoint : ModelEndpoint
endpoint = record {
  meta = record {
    name = lit "haiku";
    namespace = lit "team";
    generation = pos 3;
    deletion_timestamp = none;
    finalizers = lit "ai.kernelpanic09.io/finalizer" ∷ [];
  };
  spec = record {
    model_id = lit "anthropic.claude-3-haiku-20240307-v1:0";
    region = lit "us-west-2";
    irsa_role_arn = lit "arn:aws:iam::123456789012:role/bedrock";
    max_tokens = some (pos 4096);
    cost_budget = none;
    rate_limit = some (record { requests_per_minute = pos 20 });
    guardrail_policy_ref = none;
  };
  status = record {
    available = true;
    conditions = [];
    cost_this_month = [];
    cost_today = [];
    invocations_today = pos 0;
    total_input_tokens = pos 0;
    total_output_tokens = pos 0;
    service_name = lit "model-haiku";
    observed_generation = pos 3;
  };
}

-- A template that requires nothing and has one default.
abbrev pub template : PromptTemplate
template = record {
  meta = record {
    name = lit "review";
    namespace = lit "team";
    generation = pos 1;
    deletion_timestamp = none;
    finalizers = [];
  };
  spec = record {
    template = lit "review {{.Diff}}";
    variables =
        record {
          name = lit "Tone";
          kind = lit "string";
          required = false;
          fallback = lit "polite";
          description = [];
        }
        ∷ [];
    model_endpoint_ref = record { name = lit "haiku" };
    system_prompt = [];
    max_tokens = none;
  };
  status = record { conditions = []; render_count = pos 0; observed_generation = pos 0 };
}

abbrev pub scene : Scene ℕ
scene = record {
  now = 0;
  elapsed = unit;
  endpoint = λ key. ok endpoint;
  template = λ key. ok template;
}

abbrev pub post : Text → HttpRequest
post path = record { method = lit "POST"; path = path; body = lit "{}" }
