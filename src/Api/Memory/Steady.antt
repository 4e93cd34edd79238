-- ===== src/Api/Memory/Steady.antt =====
-- What is read is not changed by writes to cells of another kind.
use k8s_ai_operator.Base.{
  ℕ, zero, suc, ◌≡◌, refl, ◌⊎◌, inl, inr, Option, none, some, List, [], ◌∷◌, arith, ap,
}
use k8s_ai_operator.Api.Memory.{
  get, Stored, load, Copier, plain, both, elements, pointer, read_at, struct, three, four,
}
use k8s_ai_operator.Api.Memory.Reads.{lift2-eq_some, map-eq_some, load-eq_some, pointed}
use k8s_ai_operator.Api.Memory.Isolation.{write}

-- No write to a cell that holds something of the kind changes what is read.
pub record IsSteady {C R A : Type 0} (IsKind : C → Type 0) (c : Copier C R A) : Type 0 where
  pub keeps :
      (h : List C) (q : ℕ) (d d' : C)
      → get h q ≡ some d
      → IsKind d
      → (r : R) (v : A) → c.read h r ≡ some v
      → c.read (write h q d') r ≡ some v

get-write : {C : Type 0} (h : List C) (p q : ℕ) (d : C) → (p ≡ q) ⊎ (get (write h q d) p ≡ get h p)
get-write [] p q d = inr refl
get-write (c ∷ h) zero zero d = inl refl
get-write (c ∷ h) zero (suc q) d = inr refl
get-write (c ∷ h) (suc p) zero d = inr refl
get-write (c ∷ h) (suc p) (suc q) d = elim (get-write h p q d) [
  | inl same ↦ inl (ap suc same)
  | inr same ↦ inr same
]

pub get-write_same :
    {C : Type 0} (h : List C) (q : ℕ) (d d' : C) → get h q ≡ some d → get (write h q d') q ≡ some d'
get-write_same [] q d d' e = absurd (ground arith)
get-write_same (c ∷ h) zero d d' e = refl
get-write_same (c ∷ h) (suc q) d d' e = get-write_same h q d d' e

module _ {C : Type 0} {IsKind : C → Type 0} where
  pub plain-IsSteady : {A : Type 0} → IsSteady {C = C} {R = A} {A = A} IsKind plain
  plain-IsSteady = record { keeps = λ h q d d' at_q of_kind r v e. e }

  pub both-IsSteady :
      {R A S B : Type 0} (c : Copier C R A) (d : Copier C S B)
      → IsSteady IsKind c
      → IsSteady IsKind d
      → IsSteady IsKind (both c d)
  both-IsSteady c d x y = record {
    keeps = λ h q k k' at_q of_kind r v e.
        let (a, b, ea, eb, same) =
          lift2-eq_some (λ a b. (a, b)) (c.read h r.0) (d.read h r.1) v e in
        rw (x.keeps h q k k' at_q of_kind r.0 a ea, y.keeps h q k k' at_q of_kind r.1 b eb, same);
  }

  pub struct-IsSteady :
      {R P A V : Type 0} (parts : R → P) (update : R → P → R) (value : R → A → V) (c : Copier C P A)
      → IsSteady IsKind c
      → IsSteady IsKind (struct parts update value c)
  struct-IsSteady parts update value c x = record {
    keeps = λ h q k k' at_q of_kind r v e.
        let (a, ea, same) = map-eq_some (value r) (c.read h (parts r)) v e in
        rw (x.keeps h q k k' at_q of_kind (parts r) a ea, same);
  }

  pointer_keeps :
      {R A : Type 0} (s : Stored C R) (c : Copier C R A)
      → ((d : C) → IsKind d → s.content d ≡ none)
      → IsSteady IsKind c
      → (h : List C) (q : ℕ) (k k' : C) → get h q ≡ some k
      → IsKind k
      → (p : Option ℕ) (v : Option A) → (pointer s c).read h p ≡ some v
      → (pointer s c).read (write h q k') p ≡ some v
  pointer_keeps s c other x h q k k' at_q of_kind none v e = e
  pointer_keeps s c other x h q k k' at_q of_kind (some p) v e =
      let (r, a, loads, ea, same) = pointed s c h p v e in
      let (d, held, content) = load-eq_some s h p r loads in
      let foreign = other k of_kind in
      elim (get-write h p q k') [
        | inl here ↦ absurd (ground arith)
        | inr away ↦
            let loaded : load s (write h q k') p ≡ some r = rw (load, away, held, content) in
            rw (read_at, loaded, x.keeps h q k k' at_q of_kind r a ea, same)
      ]

  -- A pointer to cells of some other kind.
  pub pointer-IsSteady :
      {R A : Type 0} (s : Stored C R) (c : Copier C R A)
      → ((d : C) → IsKind d → s.content d ≡ none)
      → IsSteady IsKind c
      → IsSteady IsKind (pointer s c)
  pointer-IsSteady s c other x = record { keeps = pointer_keeps s c other x }

  three-IsSteady :
      {R A S B T D : Type 0} (c : Copier C R A) (d : Copier C S B) (e : Copier C T D)
      → IsSteady IsKind c
      → IsSteady IsKind d
      → IsSteady IsKind e
      → IsSteady IsKind (three c d e)
  three-IsSteady c d e x y z = struct-IsSteady _ _ _ _ (both-IsSteady c _ x (both-IsSteady d e y z))

  pub four-IsSteady :
      {R A S B T D U E : Type 0} (c : Copier C R A) (d : Copier C S B) (e : Copier C T D)
      (f : Copier C U E)
      → IsSteady IsKind c
      → IsSteady IsKind d
      → IsSteady IsKind e
      → IsSteady IsKind f
      → IsSteady IsKind (four c d e f)
  four-IsSteady c d e f x y z u =
      struct-IsSteady _ _ _ _ (both-IsSteady c _ x (three-IsSteady d e f y z u))

  elements_keep :
      {R A : Type 0} (c : Copier C R A)
      → IsSteady IsKind c
      → (h : List C) (q : ℕ) (k k' : C) → get h q ≡ some k
      → IsKind k
      → (rs : List R) (v : List A) → (elements c).read h rs ≡ some v
      → (elements c).read (write h q k') rs ≡ some v
  elements_keep c x h q k k' at_q of_kind [] v e = e
  elements_keep c x h q k k' at_q of_kind (r ∷ rs) v e =
      let (a, l, ea, el, same) =
        lift2-eq_some (λ a l. a ∷ l) (c.read h r) ((elements c).read h rs) v e in
      rw (
        x.keeps h q k k' at_q of_kind r a ea,
        elements_keep c x h q k k' at_q of_kind rs l el,
        same,
      )

  pub elements-IsSteady :
      {R A : Type 0} (c : Copier C R A) → IsSteady IsKind c → IsSteady IsKind (elements c)
  elements-IsSteady c x = record { keeps = elements_keep c x }
