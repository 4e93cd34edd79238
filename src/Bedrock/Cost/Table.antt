-- ===== src/Bedrock/Cost/Table.antt =====
-- The prices of internal/bedrock/cost.go, in the order of the source.
use k8s_ai_operator.Base.{ℕ, Text, lit, List, [], ◌∷◌, map}
use k8s_ai_operator.Base.Dict.{Dict}
use k8s_ai_operator.Base.Floats.{FloatOps}

pub record ModelPricing (Float : Type 0) : Type 0 where
  pub input_per_1m : Float
  pub output_per_1m : Float

-- `price id m k n l` is a row of the table: input costs m / 10 ^ k, output n / 10 ^ l.
pub data Row : Type 0 where
  price : Text → ℕ → ℕ → ℕ → ℕ → Row

unfoldable pub rows : List Row
unfolding lit
rows =
    price (lit "anthropic.claude-opus-4-20250514-v1:0") 1500 2 7500 2
    ∷ price (lit "anthropic.claude-sonnet-4-20250514-v1:0") 300 2 1500 2
    ∷ price (lit "anthropic.claude-sonnet-4-6-20250514-v1:0") 300 2 1500 2
    ∷ price (lit "anthropic.claude-3-7-sonnet-20250219-v1:0") 300 2 1500 2
    ∷ price (lit "anthropic.claude-3-5-sonnet-20241022-v2:0") 300 2 1500 2
    ∷ price (lit "anthropic.claude-3-5-sonnet-20240620-v1:0") 300 2 1500 2
    ∷ price (lit "anthropic.claude-3-5-haiku-20241022-v1:0") 80 2 400 2
    ∷ price (lit "anthropic.claude-3-opus-20240229-v1:0") 1500 2 7500 2
    ∷ price (lit "anthropic.claude-3-sonnet-20240229-v1:0") 300 2 1500 2
    ∷ price (lit "anthropic.claude-3-haiku-20240307-v1:0") 25 2 125 2
    ∷ price (lit "anthropic.claude-haiku-4-5-20251001-v1:0") 80 2 400 2
    ∷ price (lit "meta.llama3-8b-instruct-v1:0") 30 2 60 2
    ∷ price (lit "meta.llama3-70b-instruct-v1:0") 265 2 350 2
    ∷ price (lit "meta.llama3-1-8b-instruct-v1:0") 22 2 22 2
    ∷ price (lit "meta.llama3-1-70b-instruct-v1:0") 72 2 72 2
    ∷ price (lit "meta.llama3-1-405b-instruct-v1:0") 532 2 1600 2
    ∷ price (lit "meta.llama3-2-11b-instruct-v1:0") 16 2 16 2
    ∷ price (lit "meta.llama3-2-90b-instruct-v1:0") 200 2 200 2
    ∷ price (lit "meta.llama3-2-1b-instruct-v1:0") 10 2 10 2
    ∷ price (lit "meta.llama3-2-3b-instruct-v1:0") 15 2 15 2
    ∷ price (lit "meta.llama3-3-70b-instruct-v1:0") 72 2 72 2
    ∷ price (lit "amazon.titan-text-lite-v1") 30 2 40 2
    ∷ price (lit "amazon.titan-text-express-v1") 80 2 160 2
    ∷ price (lit "amazon.titan-text-premier-v1:0") 50 2 150 2
    ∷ price (lit "amazon.nova-micro-v1:0") 35 3 14 2
    ∷ price (lit "amazon.nova-lite-v1:0") 6 2 24 2
    ∷ price (lit "amazon.nova-pro-v1:0") 80 2 320 2
    ∷ price (lit "amazon.nova-premier-v1:0") 250 2 1250 2
    ∷ price (lit "mistral.mistral-7b-instruct-v0:2") 15 2 20 2
    ∷ price (lit "mistral.mixtral-8x7b-instruct-v0:1") 45 2 70 2
    ∷ price (lit "mistral.mistral-large-2402-v1:0") 400 2 1200 2
    ∷ price (lit "mistral.mistral-large-2407-v1:0") 300 2 900 2
    ∷ price (lit "mistral.mistral-small-2402-v1:0") 100 2 300 2
    ∷ price (lit "cohere.command-r-v1:0") 50 2 150 2
    ∷ price (lit "cohere.command-r-plus-v1:0") 300 2 1500 2
    ∷ price (lit "cohere.command-text-v14") 150 2 200 2
    ∷ price (lit "cohere.command-light-text-v14") 30 2 60 2
    ∷ price (lit "cohere.embed-english-v3") 10 2 0 0
    ∷ price (lit "cohere.embed-multilingual-v3") 10 2 0 0
    ∷ price (lit "ai21.jamba-1-5-mini-v1:0") 20 2 40 2
    ∷ price (lit "ai21.jamba-1-5-large-v1:0") 200 2 800 2
    ∷ []

unfoldable pub priced : {Float : Type 0} → FloatOps Float → Row → Text × ModelPricing Float
priced fl (price model_id m k n l) =
    (model_id, record { input_per_1m = fl.decimal m k; output_per_1m = fl.decimal n l })

unfoldable pub pricing : {Float : Type 0} → FloatOps Float → Dict Text (ModelPricing Float)
unfolding priced
pricing fl = map (priced fl) rows
