-- ===== src/Webhook/Arn/Laws.antt =====
-- The scan decides the pattern, read as a decomposition of the text.
use k8s_ai_operator.Base.{
  ℕ, zero, suc, Text, lit, ◌≡◌, refl, sym, ap, ◌↔◌, ◌≢◌, Bool, true, false, Bool-cases, inl, inr,
  Option-cases, some, [], ◌∷◌, ◌++◌, all, All, length, arith, cut_prefix, cut_prefix_append,
  cut_prefix-eq_some, subst,
}
use k8s_ai_operator.Webhook.Arn.{
  is_partition_byte, is_digit, is_dot, drop_while, skip, role_part, is_name, matches_irsa_arn,
}

abbrev pub Each : (ℕ → Bool) → Text → Type 0
Each p s = All (λ c. p c ≡ true) s

-- The pattern's parts: the partition's suffix, the account and the role's name.
pub record IsRoleArn (arn : Text) : Type 0 where
  pub partition : Text
  pub account : Text
  pub name : Text
  pub partition_bytes : Each is_partition_byte partition
  pub account_digits : Each is_digit account
  pub account_length : length account ≡ 12
  pub name_given : name ≢ []
  pub name_bytes : Each is_dot name
  pub whole :
      arn ≡ lit "arn:aws" ++ (partition ++ (lit ":iam::" ++ (account ++ (lit ":role/" ++ name))))

all_iff : (p : ℕ → Bool) (s : Text) → (all p s ≡ true) ↔ Each p s
all_iff p [] = (λ _. tt, λ _. refl)
all_iff p (c ∷ s) = ground (arith, all_iff p s)

drop_while-split : (p : ℕ → Bool) (s : Text) → (q : Text) × Each p q × (s ≡ q ++ drop_while p s)
unfolding drop_while
drop_while-split p [] = ([], tt, refl)
drop_while-split p (c ∷ s) = elim (Bool-cases (p c)) [
  | inl h ↦ let (q, each, e) = drop_while-split p s in (c ∷ q, (h, each), rw h (ap (λ r. c ∷ r) e))
  | inr h ↦ ([], tt, rw h)
]

drop_while-append :
    (p : ℕ → Bool) (q : Text) (c : ℕ) (r : Text)
    → Each p q
    → p c ≡ false
    → drop_while p (q ++ c ∷ r) ≡ c ∷ r
unfolding drop_while
drop_while-append p [] c r h stop = rw stop
drop_while-append p (d ∷ q) c r h stop = rw h.0 (drop_while-append p q c r h.1 stop)

skip-split :
    (n : ℕ) (p : ℕ → Bool) (s r : Text)
    → skip n p s ≡ some r
    → (q : Text) × Each p q × (length q ≡ n) × (s ≡ q ++ r)
unfolding skip
skip-split zero p s r e = ([], tt, refl, ground arith)
skip-split (suc n) p [] r e = absurd (ground arith)
skip-split (suc n) p (c ∷ s) r e = elim (Bool-cases (p c)) [
  | inl h ↦
      let (q, each, len, e') = skip-split n p s r (ground arith) in
      (c ∷ q, (h, each), ap suc len, ap (λ r. c ∷ r) e')
  | inr h ↦ absurd (ground arith)
]

skip-append : (p : ℕ → Bool) (q r : Text) → Each p q → skip (length q) p (q ++ r) ≡ some r
unfolding skip
skip-append p [] r h = refl
skip-append p (c ∷ q) r h = rw h.0 (skip-append p q r h.1)

is_name_iff : (s : Text) → (is_name s ≡ true) ↔ ((s ≢ []) × Each is_dot s)
unfolding is_name
is_name_iff [] = (λ e. cc, λ h. absurd (h.0 refl))
is_name_iff (c ∷ s) = ground (arith, all_iff is_dot s)

colon_stops : is_partition_byte b':' ≡ false
unfolding is_partition_byte
colon_stops = ground arith

iam_text : lit ":iam::" ≡ b':' ∷ lit "iam::"
unfolding lit
iam_text = refl

-- The scan finds the name in what the pattern describes.
role_part_of_IsRoleArn : (arn : Text) (h : IsRoleArn arn) → role_part arn ≡ some h.name
unfolding role_part
role_part_of_IsRoleArn arn h =
    let after = lit ":role/" ++ h.name in
    let account = h.account ++ after in
    let rest = h.partition ++ (lit ":iam::" ++ account) in
    let e₁ : cut_prefix (lit "arn:aws") arn ≡ some rest =
      subst (λ a. cut_prefix (lit "arn:aws") a ≡ some rest) (sym h.whole) (cut_prefix_append _ _) in
    let e₂ : drop_while is_partition_byte rest ≡ lit ":iam::" ++ account =
      rw iam_text (drop_while-append _ h.partition b':' _ h.partition_bytes colon_stops) in
    let e₃ : skip 12 is_digit account ≡ some after =
      subst (λ n. skip n is_digit account ≡ some after) h.account_length
        (skip-append is_digit h.account after h.account_digits) in
    ground (
      arith,
      e₁,
      e₂,
      e₃,
      cut_prefix_append (lit ":iam::") account,
      cut_prefix_append (lit ":role/") h.name,
    )

role_part-IsRoleArn :
    (arn name : Text) → role_part arn ≡ some name → (name ≢ []) × Each is_dot name → IsRoleArn arn
unfolding role_part
role_part-IsRoleArn arn name e (given, dots) =
    elim (Option-cases (cut_prefix (lit "arn:aws") arn)) [
      | inl h ↦ absurd (ground arith)
      | inr (rest, e₁) ↦
          let (partition, bytes, e₂) = drop_while-split is_partition_byte rest in
          elim (Option-cases (cut_prefix (lit ":iam::") (drop_while is_partition_byte rest))) [
            | inl h ↦ absurd (ground arith)
            | inr (tail, e₃) ↦ elim (Option-cases (skip 12 is_digit tail)) [
              | inl h ↦ absurd (ground arith)
              | inr (after, e₄) ↦
                  let e₅ : cut_prefix (lit ":role/") after ≡ some name = ground arith in
                  let (account, digits, len, e₆) = skip-split 12 is_digit tail after e₄ in
                  record {
                    partition = partition;
                    account = account;
                    name = name;
                    partition_bytes = bytes;
                    account_digits = digits;
                    account_length = len;
                    name_given = given;
                    name_bytes = dots;
                    whole = cc (
                      cut_prefix-eq_some _ arn rest e₁,
                      e₂,
                      cut_prefix-eq_some _ _ tail e₃,
                      e₆,
                      cut_prefix-eq_some _ after name e₅,
                    );
                  }
            ]
          ]
    ]

-- The pattern matches exactly the texts arn:aws<partition>:iam::<account>:role/<name> with lower
-- case letters and dashes, twelve digits, and a name that is not empty and has no line feed.
pub matches_irsa_arn_iff : (arn : Text) → (matches_irsa_arn arn ≡ true) ↔ IsRoleArn arn
unfolding matches_irsa_arn
matches_irsa_arn_iff arn = (
  λ e. elim (Option-cases (role_part arn)) [
    | inl h ↦ absurd (ground arith)
    | inr (name, h) ↦ role_part-IsRoleArn arn name h ((is_name_iff name).0 (ground arith))
  ],
  λ h.
      let named = (is_name_iff h.name).1 (h.name_given, h.name_bytes) in
      ground (arith, role_part_of_IsRoleArn arn h),
)
