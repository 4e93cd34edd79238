-- ===== src/Proxy/Path/Laws.antt =====
-- Which paths name an endpoint.
use k8s_ai_operator.Base.{
  ℕ, Text, ◌≡◌, refl, ap, ap₂, subst, ◌⊎◌, ◌≢◌, ◌↔◌, none, some, [], ◌∷◌, ◌++◌, All, arith,
  cut_prefix_append, nat_eq, text_eq, ==_true, ==_false, inl, inr, ◌∙◌,
}
use k8s_ai_operator.Proxy.Path.{trim_prefix, cut_at, parse_path_segments}

abbrev pub Lacks : ℕ → Text → Type 0
Lacks sep s = All (λ c. c ≢ sep) s

pub cut_at-append : (sep : ℕ) (a b : Text) → Lacks sep a → cut_at sep (a ++ sep ∷ b) ≡ some (a, b)
unfolding cut_at
cut_at-append sep [] b h = rw (==_true {a = sep} refl)
cut_at-append sep (c ∷ a) b h = rw (==_false h.0, cut_at-append sep a b h.1)

cut_at-split :
    (sep : ℕ) (s : Text)
    → (cut_at sep s ≡ none)
      ⊎ ((a : Text) × (b : Text) × (cut_at sep s ≡ some (a, b)) × Lacks sep a × (s ≡ a ++ sep ∷ b))
unfolding cut_at
cut_at-split sep [] = inl refl
cut_at-split sep (c ∷ s) = elim (nat_eq.dec c sep) [
  | yes same ↦ inr ([], s, rw (==_true same), tt, ap (λ d. d ∷ s) same)
  | no other ↦ elim (cut_at-split sep s) [
    | inl e ↦ inl (rw (==_false other, e))
    | inr (a, b, e, lacks, whole) ↦
        inr (c ∷ a, b, rw (==_false other, e), (other, lacks), ap (λ r. c ∷ r) whole)
  ]
]

-- A path names (namespace, name) exactly when, behind its prefix if it has it, it is the namespace, a
-- slash and the name, both not empty and the namespace without a slash. The name may have slashes.
pub parse_path_segments_iff :
    (path prefix namespace name : Text)
    → (parse_path_segments path prefix ≡ some (namespace, name)) ↔ (
        (trim_prefix path prefix ≡ namespace ++ b'/' ∷ name)
        × Lacks b'/' namespace
        × (namespace ≢ [])
        × (name ≢ []))
unfolding parse_path_segments
parse_path_segments_iff path prefix namespace name = (
  λ e. elim (cut_at-split b'/' (trim_prefix path prefix)) [
    | inl missing ↦ absurd (ground arith)
    | inr (a, b, found, lacks, whole) ↦
        let same_a : a ≡ namespace = ground arith in
        let same_b : b ≡ name = ground arith in
        (
          whole ∙ ap₂ (λ x y. x ++ b'/' ∷ y) same_a same_b,
          subst (Lacks b'/') same_a lacks,
          λ h. ground arith,
          λ h. ground arith,
        )
  ],
  λ h.
      let (whole, lacks, some_namespace, some_name) = h in
      let found = cut_at-append b'/' namespace name lacks in ground arith,
)

-- The path built for an endpoint, as its Service's clients build it, is read back.
pub parse_path_segments_append :
    (prefix namespace name : Text)
    → Lacks b'/' namespace
    → namespace ≢ []
    → name ≢ []
    → parse_path_segments (prefix ++ (namespace ++ b'/' ∷ name)) prefix ≡ some (namespace, name)
unfolding trim_prefix
parse_path_segments_append prefix namespace name lacks given named =
    (parse_path_segments_iff _ prefix namespace name).1 (
      (let cut = cut_prefix_append prefix (namespace ++ b'/' ∷ name) in ground arith),
      lacks,
      given,
      named,
    )
