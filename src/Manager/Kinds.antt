-- ===== src/Manager/Kinds.antt =====
-- The scheme of main, and the kinds that the controllers watch.
use k8s_ai_operator.Base.{
  Text, lit, Bool, true, List, ◌∷◌, ◌++◌, ok, All, ◌≡◌, refl, arith, Result-cases, inl, inr,
}
use k8s_ai_operator.Base.Exec.{Exec}
use k8s_ai_operator.Api.Scheme.{
  GroupVersion, ObjectKind, group_version, Builders, register_guardrail_policy,
  register_model_endpoint, register_prompt_template, scheme_builder, add_to_scheme,
}
use k8s_ai_operator.Manager.{
  Part, model_endpoint_controller, prompt_template_controller, guardrail_controller, core_service,
  watched, init_scheme,
}

-- The kinds in the version of a builder.
abbrev pub in_version : GroupVersion → Text → ObjectKind
in_version v kind = record { group_version = v; kind = kind }

-- What is documented of schemes and builders: AddToScheme adds all kinds that are registered with the
-- builder, in its group and version, and takes none away.
pub record IsScheme {S B : Type 0} (b : Builders S B) (knows : S → ObjectKind → Bool)
    (kinds : B → List Text) (version : B → GroupVersion) : Type 0 where
  pub new_lem : (v : GroupVersion) → version (b.new_builder v) ≡ v
  pub version-register : (ks : List Text) (c : B) → version (b.register ks c) ≡ version c
  pub kinds-register : (ks : List Text) (c : B) → kinds (b.register ks c) ≡ ks ++ kinds c
  pub added :
      (c : B) (s : S)
      → (b.add_to_scheme c s).0 ≡ ok tt
      → All (λ k. knows (b.add_to_scheme c s).1 (in_version (version c) k) ≡ true) (kinds c)

-- An action that adds to a scheme takes no kind away.
abbrev pub Keeps : {S : Type 0} → (S → ObjectKind → Bool) → Exec S (Unit {0}) → Type 0
Keeps {S} knows m = (s : S) (k : ObjectKind) → knows s k ≡ true → knows (m s).1 k ≡ true

watched_of :
    {S : Type 0} (knows : S → ObjectKind → Bool) (s : S)
    → knows s (in_version group_version (lit "PromptTemplate")) ≡ true
    → knows s (in_version group_version (lit "ModelEndpoint")) ≡ true
    → knows s (in_version group_version (lit "GuardrailPolicy")) ≡ true
    → knows s core_service ≡ true
    → (part : Part) → All (λ k. knows s k ≡ true) (watched part)
unfolding watched
watched_of knows s template endpoint policy service (model_endpoint_controller n m) =
    (endpoint, (service, tt))
watched_of knows s template endpoint policy service prompt_template_controller = (template, tt)
watched_of knows s template endpoint policy service (guardrail_controller client) = (policy, tt)
watched_of knows s template endpoint policy service part = tt

module _ {S B : Type 0} (b : Builders S B) (knows : S → ObjectKind → Bool) (kinds : B → List Text)
    (version : B → GroupVersion) (v : IsScheme b knows kinds version) where
  scheme_builder-version : version (scheme_builder b) ≡ group_version
  unfolding scheme_builder register_guardrail_policy register_model_endpoint
      register_prompt_template
  scheme_builder-version =
      rw (v.version-register, v.version-register, v.version-register) (v.new_lem group_version)

  scheme_builder-kinds :
      (rest : List Text) × (kinds (scheme_builder b)
        ≡ lit "PromptTemplate"
          ∷ lit "PromptTemplateList"
          ∷ lit "ModelEndpoint"
          ∷ lit "ModelEndpointList"
          ∷ lit "GuardrailPolicy"
          ∷ rest)
  unfolding scheme_builder register_guardrail_policy register_model_endpoint
      register_prompt_template
  scheme_builder-kinds = (
    lit "GuardrailPolicyList" ∷ kinds (b.new_builder group_version),
    rw (v.kinds-register, v.kinds-register, v.kinds-register) refl,
  )

  add_to_scheme-knows :
      (s : S)
      → (add_to_scheme b s).0 ≡ ok tt
      → let t = (add_to_scheme b s).1 in
        (knows t (in_version group_version (lit "PromptTemplate")) ≡ true)
        × (knows t (in_version group_version (lit "ModelEndpoint")) ≡ true)
        × (knows t (in_version group_version (lit "GuardrailPolicy")) ≡ true)
  unfolding add_to_scheme
  add_to_scheme-knows s done =
      let (rest, same) = scheme_builder-kinds in
      let all_known = v.added (scheme_builder b) s done in
      let (template, (_, (endpoint, (_, (policy, _))))) =
        rw (scheme_builder-version, same) at all_known in
      (template, endpoint, policy)

  -- If `init` of main does not panic, then the scheme that it makes knows every kind that a part of the
  -- operator watches, whatever client-go and core/v1 add before and after.
  pub init_scheme-watched :
      (client_go core_v1 : Exec S (Unit {0})) (s : S)
      → Keeps knows core_v1
      → ((t : S) → (core_v1 t).0 ≡ ok tt → knows (core_v1 t).1 core_service ≡ true)
      → (init_scheme b client_go core_v1 s).0 ≡ ok tt
      → (part : Part)
      → All (λ k. knows (init_scheme b client_go core_v1 s).1 k ≡ true) (watched part)
  unfolding init_scheme watched
  init_scheme-watched client_go core_v1 s keeps service done part =
      elim (Result-cases (client_go s).0) [
        | inr (e, bad) ↦ absurd (ground arith)
        | inl (_, good) ↦ elim (Result-cases (add_to_scheme b (client_go s).1).0) [
          | inr (e, bad) ↦ absurd (ground arith)
          | inl (_, added) ↦
              let t = (add_to_scheme b (client_go s).1).1 in
              let (template, endpoint, policy) =
                add_to_scheme-knows (client_go s).1 (ground arith) in
              let last : (init_scheme b client_go core_v1 s) ≡ core_v1 t = ground arith in
              rw last (
                watched_of knows (core_v1 t).1 (keeps t _ template) (keeps t _ endpoint)
                  (keeps t _ policy) (service t (ground arith)) part)
        ]
      ]
