-- ===== src/Bedrock/Cost/Laws.antt =====
-- Which models are priced, and how the cost depends on the numbers of tokens.
use k8s_ai_operator.Base.{
  ℕ, ◌≤◌, arith, ℤ, pos, ◌≤ℤ◌, Text, ◌≡◌, some, List, [], ◌∷◌, text_eq, map, sym, subst, ==_true,
  ==_false, Option-cases, inl, inr,
}
use mathlib.Core.Path.{subst₂}
use mathlib.Core.Option.{some-injective}
use k8s_ai_operator.Base.Dict
use k8s_ai_operator.Base.Dict.{Dict}
use k8s_ai_operator.Base.Floats.{FloatOps}
use k8s_ai_operator.Bedrock.Cost.Table.{ModelPricing, Row, price, rows, priced, pricing}
use k8s_ai_operator.Bedrock.Cost.{cost, unknown_model, calculate_cost, total_cost, round_cost}

-- What IEEE 754 says of the operations in use on finite numbers, where none overflows: each is
-- monotone, by non-negative factors and positive divisors where it multiplies or divides, and
-- literals are not negative.
pub record IsRounded {Float : Type 0} (fl : FloatOps Float) (Le : Float → Float → Type 0)
    : Type 0 where
  pub of_int-mono : (m n : ℤ) → m ≤ℤ n → Le (fl.of_int m) (fl.of_int n)
  pub decimal-nonneg : (m k : ℕ) → Le (fl.of_int (pos 0)) (fl.decimal m k)
  pub add-mono : (a b c d : Float) → Le a b → Le c d → Le (fl.add a c) (fl.add b d)
  pub mul-mono : (a b c : Float) → Le (fl.of_int (pos 0)) c → Le a b → Le (fl.mul a c) (fl.mul b c)
  pub div-mono :
      (a b : Float) (m : ℕ)
      → 1 ≤ m
      → Le a b
      → Le (fl.div a (fl.decimal m 0)) (fl.div b (fl.decimal m 0))
  pub round-mono : (a b : Float) → Le a b → Le (fl.round a) (fl.round b)

cost-injective : {Float : Type 0} {a b : Float} → cost a ≡ cost b → a ≡ b
cost-injective h = cc

cost-ne-unknown : {Float : Type 0} {a : Float} {m : Text} → cost a ≡ unknown_model m → ⊥
cost-ne-unknown h = cc

module _ {Float : Type 0} (fl : FloatOps Float) (Le : Float → Float → Type 0) where
  abbrev IsNonneg : ModelPricing Float → Type 0
  IsNonneg p = Le (fl.of_int (pos 0)) p.input_per_1m × Le (fl.of_int (pos 0)) p.output_per_1m

  get-IsNonneg :
      IsRounded fl Le
      → (model_id : Text) (table : List Row) (p : ModelPricing Float)
      → Dict.get model_id (map (priced fl) table) ≡ some p
      → IsNonneg p
  unfolding Dict.get priced
  get-IsNonneg r model_id [] p e = cc
  get-IsNonneg r model_id (price j m k n l ∷ table) p e = elim (text_eq.dec j model_id) [
    | yes same ↦
        subst IsNonneg (some-injective _ _ (rw (==_true same) at e))
          (r.decimal-nonneg m k, r.decimal-nonneg n l)
    | no other ↦ get-IsNonneg r model_id table p (rw (==_false other) at e)
  ]

  total_cost-mono :
      IsRounded fl Le
      → (p : ModelPricing Float) (i j m n : ℤ) → IsNonneg p
      → i ≤ℤ j
      → m ≤ℤ n
      → Le (total_cost fl p i m) (total_cost fl p j n)
  unfolding total_cost
  total_cost-mono r p i j m n h hi hm =
      r.add-mono _ _ _ _
        (r.mul-mono _ _ _ h.0 (r.div-mono _ _ _ (omega arith) (r.of_int-mono i j hi)))
        (r.mul-mono _ _ _ h.1 (r.div-mono _ _ _ (omega arith) (r.of_int-mono m n hm)))

  round_cost-mono :
      IsRounded fl Le → (a b : Float) → Le a b → Le (round_cost fl a) (round_cost fl b)
  unfolding round_cost
  round_cost-mono r a b h =
      r.div-mono _ _ _ (omega arith)
        (r.round-mono _ _ (r.mul-mono _ _ _ (r.decimal-nonneg 1000000 0) h))

-- The cost of a priced model never falls when the numbers of input and output tokens grow, under the
-- monotonicity of float64 arithmetic on finite numbers.
pub calculate_cost-mono :
    {Float : Type 0} (fl : FloatOps Float) (Le : Float → Float → Type 0)
    → IsRounded fl Le
    → (model_id : Text) (i j m n : ℤ) (a b : Float) → i ≤ℤ j
    → m ≤ℤ n
    → calculate_cost fl model_id i m ≡ cost a
    → calculate_cost fl model_id j n ≡ cost b
    → Le a b
unfolding calculate_cost pricing
calculate_cost-mono fl Le r model_id i j m n a b hi hm ea eb =
    elim (Option-cases (Dict.get model_id (pricing fl))) [
      | inl unknown ↦ absurd (cost-ne-unknown (sym (rw (unknown, calculate_cost) at ea)))
      | inr (p, found) ↦
          subst₂ Le (cost-injective (rw (found, calculate_cost) at ea))
            (cost-injective (rw (found, calculate_cost) at eb))
            (round_cost-mono fl Le r _ _ (
              total_cost-mono fl Le r p i j m n (get-IsNonneg fl Le r model_id rows p found) hi hm))
    ]
