-- ===== src/Controller/Labels/Laws.antt =====
-- The result of sanitizeLabel is a label text, and a label text is left alone.
use k8s_ai_operator.Base.{
  Text, ◌≡◌, refl, ◌≤◌, [], ◌∷◌, arith, All, true, length, take, All-take, length-take-le, ltb,
  Bool-cases, inl, inr, nat_eq, sym, ◌∙◌, subst, ◌↔◌, take_of_length,
}
use k8s_ai_operator.Controller.Labels.{is_label_byte, replace_bytes, sanitize_label}

-- Only bytes that a label value may hold, and at most 63 of them.
pub record IsLabelText (s : Text) : Type 0 where
  pub bytes : All (λ c. is_label_byte c ≡ true) s
  pub short : length s ≤ 63

underscore-is_label_byte : is_label_byte b'_' ≡ true
unfolding is_label_byte
underscore-is_label_byte = ground arith

replace_bytes-All : (s : Text) → All (λ c. is_label_byte c ≡ true) (replace_bytes s)
unfolding replace_bytes
replace_bytes-All [] = tt
replace_bytes-All (c ∷ s) = elim (Bool-cases (is_label_byte c)) [
  | inl h ↦ rw h (h, replace_bytes-All s)
  | inr h ↦ rw h (underscore-is_label_byte, replace_bytes-All s)
]

length-replace_bytes : (s : Text) → length (replace_bytes s) ≡ length s
unfolding replace_bytes
length-replace_bytes [] = refl
length-replace_bytes (c ∷ s) = omega (arith, length-replace_bytes s)

replace_bytes_of_All : (s : Text) → All (λ c. is_label_byte c ≡ true) s → replace_bytes s ≡ s
unfolding replace_bytes
replace_bytes_of_All [] h = refl
replace_bytes_of_All (c ∷ s) h = rw (h.0, replace_bytes_of_All s h.1)

-- The length test only skips a cut that would change nothing.
sanitize_label-take : (s : Text) → sanitize_label s ≡ take 63 (replace_bytes s)
unfolding sanitize_label
sanitize_label-take s = elim (Bool-cases (ltb 63 (length (replace_bytes s)))) [
  | inl long ↦ rw long
  | inr short ↦ rw short (sym (take_of_length 63 (replace_bytes s) (ground arith)))
]

-- Whatever the model id, the label has only allowed bytes and at most 63 of them.
pub sanitize_label-IsLabelText : (s : Text) → IsLabelText (sanitize_label s)
sanitize_label-IsLabelText s = rw sanitize_label-take (record {
  bytes = All-take (λ c. is_label_byte c ≡ true) 63 (replace_bytes s) (replace_bytes-All s);
  short = length-take-le 63 (replace_bytes s);
})

-- sanitizeLabel changes exactly the texts that are no label texts.
pub sanitize_label_fixed_iff : (s : Text) → (sanitize_label s ≡ s) ↔ IsLabelText s
sanitize_label_fixed_iff s = (
  λ e. subst IsLabelText e (sanitize_label-IsLabelText s),
  λ h. sanitize_label-take s ∙ rw (replace_bytes_of_All s h.bytes) (take_of_length 63 s h.short),
)
