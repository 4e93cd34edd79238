-- ===== src/Proxy/Render/Laws.antt =====
-- What the loop over a template's variables establishes, and when it panics.
pub mod Gate
use k8s_ai_operator.Base.{
  Text, ◌≡◌, refl, ◌≢◌, ◌⊎◌, ◌↔◌, true, false, not, ◌&&◌, inl, inr, Option, none, some, List, [],
  ◌∷◌, All, Any, arith, ◌==◌, text_eq, if◌then◌else◌,
}
use k8s_ai_operator.Base.Dict
use k8s_ai_operator.Base.Dict.{Dict, get-put}
use k8s_ai_operator.Api.Template.{TemplateVariable}
use k8s_ai_operator.Proxy.Render.{
  Variables, supplied, Filled, filled, missing, nil_write, assign, fill_one, fill_variables,
}

-- `vars[name]`, if it is there
abbrev pub value_of : Text → Variables → Option Text
value_of name none = none
value_of name (some d) = Dict.get name d

-- The first default of a variable that is not empty.
unfoldable pub default_of : Text → List TemplateVariable → Option Text
default_of name [] = none
default_of name (v ∷ vs) =
    if v.name == name && not (v.fallback == []) then some v.fallback else default_of name vs

abbrev pub or_else : Option Text → Option Text → Option Text
or_else none o = o
or_else (some t) o = some t

value_of-fill_one :
    (v : TemplateVariable) (vars out : Variables) (name : Text)
    → fill_one v vars ≡ filled out
    → value_of name out
      ≡ or_else
          (value_of name vars)
          (if v.name == name && not (v.fallback == []) then some v.fallback else none)
unfolding fill_one supplied
value_of-fill_one v none out name e = ground arith
value_of-fill_one v (some d) out name e = ground (arith, get-put v.name name v.fallback d)

fill_one-cases :
    (v : TemplateVariable) (vars : Variables)
    → ((out : Variables) × (fill_one v vars ≡ filled out))
      ⊎ (((name : Text) × (fill_one v vars ≡ missing name)) ⊎ (fill_one v vars ≡ nil_write))
fill_one-cases v vars = go (fill_one v vars) refl
  where
    go :
        (f : Filled)
        → fill_one v vars ≡ f
        → ((out : Variables) × (fill_one v vars ≡ filled out))
          ⊎ (((name : Text) × (fill_one v vars ≡ missing name)) ⊎ (fill_one v vars ≡ nil_write))
    go (filled out) e = inl (out, e)
    go (missing name) e = inr (inl (name, e))
    go nil_write e = inr (inr e)

or_else-none : (a : Option Text) → or_else a none ≡ a
or_else-none none = refl
or_else-none (some t) = refl

or_else_assoc : (a b c : Option Text) → or_else (or_else a b) c ≡ or_else a (or_else b c)
or_else_assoc none b c = refl
or_else_assoc (some t) b c = refl

-- When the loop ends well, each variable has the caller's value where the caller gave one, and the
-- template's first default that is not empty otherwise; names without either stay absent.
pub fill_variables-value :
    (vs : List TemplateVariable) (vars out : Variables) (name : Text)
    → fill_variables vs vars ≡ filled out
    → value_of name out ≡ or_else (value_of name vars) (default_of name vs)
unfolding fill_variables default_of
fill_variables-value [] vars out name e = ground (arith, or_else-none (value_of name vars))
fill_variables-value (v ∷ vs) vars out name e = elim (fill_one-cases v vars) [
  | inl (next, h) ↦
      let rest : fill_variables vs next ≡ filled out = ground arith in
      ground
        (arith, fill_variables-value vs next out name rest, value_of-fill_one v vars next name h)
  | inr (inl (m, h)) ↦ absurd (ground arith)
  | inr (inr h) ↦ absurd (ground arith)
]

supplied_iff :
    (name : Text) (vars : Variables) → (supplied name vars ≡ true) ↔ (value_of name vars ≢ none)
unfolding supplied
supplied_iff name none = (λ e. cc, λ h. absurd (h refl))
supplied_iff name (some d) = ground arith

fill_one-required :
    (v : TemplateVariable) (vars out : Variables)
    → fill_one v vars ≡ filled out
    → v.required ≡ true
    → supplied v.name vars ≡ true
unfolding fill_one
fill_one-required v vars out e r = ground arith

-- The template lists no variable twice.
abbrev pub HasUniqueNames : List TemplateVariable → Type 0
HasUniqueNames [] = Unit
HasUniqueNames (v ∷ vs) = All (λ w. w.name ≢ v.name) vs × HasUniqueNames vs

-- A required variable of the list that the caller did not supply.
abbrev pub IsMissing : Variables → TemplateVariable → Type 0
IsMissing vars v = (v.required ≡ true) × (supplied v.name vars ≡ false)

supplied-fill_one :
    (v : TemplateVariable) (vars next : Variables) (name : Text)
    → fill_one v vars ≡ filled next
    → name ≢ v.name
    → supplied name next ≡ supplied name vars
unfolding fill_one supplied
supplied-fill_one v none next name e other = ground arith
supplied-fill_one v (some d) next name e other = ground (arith, get-put v.name name v.fallback d)

Any-IsMissing_shift :
    (v : TemplateVariable) (vs : List TemplateVariable) (vars next : Variables)
    → fill_one v vars ≡ filled next
    → All (λ w. w.name ≢ v.name) vs
    → Any (IsMissing vars) vs ↔ Any (IsMissing next) vs
Any-IsMissing_shift v [] vars next e fresh = (λ h. h, λ h. h)
Any-IsMissing_shift v (w ∷ ws) vars next e fresh = ground (
  arith,
  Any-IsMissing_shift v ws vars next e fresh.1,
  supplied-fill_one v vars next w.name e fresh.0,
)

-- A render goes on to its template only if every required variable was supplied: where the names are
-- unique, the loop ends well for no caller that leaves a required variable out.
pub fill_variables-supplied :
    (vs : List TemplateVariable) (vars out : Variables)
    → HasUniqueNames vs
    → fill_variables vs vars ≡ filled out
    → ¬ Any (IsMissing vars) vs
unfolding fill_variables
fill_variables-supplied [] vars out unique e h = h
fill_variables-supplied (v ∷ vs) vars out unique e h = elim (fill_one-cases v vars) [
  | inr (inl (m, f)) ↦ ground arith
  | inr (inr f) ↦ ground arith
  | inl (next, f) ↦
      let rest : fill_variables vs next ≡ filled out = ground arith in
      let shift = Any-IsMissing_shift v vs vars next f unique.0 in
      let ih = fill_variables-supplied vs next out unique.1 rest in
      go h (fill_one-required v vars next f) (λ (x : Any (IsMissing vars) vs). ih (shift.0 x))
]
  where
    go :
        Any (IsMissing vars) (v ∷ vs)
        → (v.required ≡ true → supplied v.name vars ≡ true)
        → ¬ Any (IsMissing vars) vs
        → ⊥
    go (inl x) req later = ground (arith, req x.0)
    go (inr x) req later = later x

-- The loop writes to a nil map, which panics, whenever the request has no variables, the template
-- requires none, and some variable has a default that is not empty.
pub fill_variables-nil_write :
    (vs : List TemplateVariable)
    → All (λ v. v.required ≡ false) vs
    → Any (λ v. v.fallback ≢ []) vs
    → fill_variables vs none ≡ nil_write
unfolding fill_variables fill_one supplied assign
fill_variables-nil_write [] h x = absurd x
fill_variables-nil_write (v ∷ vs) h (inl x) = ground arith
fill_variables-nil_write (v ∷ vs) h (inr x) = ground (arith, fill_variables-nil_write vs h.1 x)
