-- ===== src/Api/Memory/Reads.antt =====
-- What loads and reads come from.
use k8s_ai_operator.Base.{
  ℕ, zero, suc, ◌≡◌, refl, Option, none, some, List, [], ◌∷◌, ◌++◌, length, length-append, arith,
  sym, inl, inr, Option-cases,
}
use mathlib.Core.Option
use k8s_ai_operator.Api.Memory.{get, Stored, load, Copier, lift2, pointer}

pub get_append :
    {C : Type 0} (h more : List C) (p : ℕ) (c : C) → get h p ≡ some c → get (h ++ more) p ≡ some c
get_append [] more p c e = absurd (ground arith)
get_append (d ∷ h) more zero c e = e
get_append (d ∷ h) more (suc p) c e = get_append h more p c e

pub get-length :
    {C : Type 0} (h : List C) (c : C) (more : List C) → get (h ++ c ∷ more) (length h) ≡ some c
get-length [] c more = refl
get-length (d ∷ h) c more = get-length h c more

pub lift2-eq_some :
    {A B D : Type 0} (f : A → B → D) (x : Option A) (y : Option B) (d : D)
    → lift2 f x y ≡ some d
    → (a : A) × (b : B) × (x ≡ some a) × (y ≡ some b) × (f a b ≡ d)
lift2-eq_some f none y d e = absurd (ground arith)
lift2-eq_some f (some a) none d e = absurd (ground arith)
lift2-eq_some f (some a) (some b) d e = (a, b, refl, refl, ground arith)

pub map-eq_some :
    {A B : Type 0} (f : A → B) (x : Option A) (b : B)
    → Option.map f x ≡ some b
    → (a : A) × (x ≡ some a) × (f a ≡ b)
map-eq_some f none b e = absurd (ground arith)
map-eq_some f (some a) b e = (a, refl, ground arith)

pub length_both :
    {C : Type 0} (old h fresh : List C)
    → length old ≡ length h
    → length (old ++ fresh) ≡ length (h ++ fresh)
length_both old h fresh e = omega (arith, length-append old fresh, length-append h fresh)

pub load-eq_some :
    {C R : Type 0} (s : Stored C R) (h : List C) (p : ℕ) (r : R)
    → load s h p ≡ some r
    → (c : C) × (get h p ≡ some c) × (s.content c ≡ some r)
load-eq_some s h p r e = elim (Option-cases (get h p)) [
  | inl q ↦ absurd (ground arith)
  | inr (c, q) ↦ (c, q, ground arith)
]

pub load_append :
    {C R : Type 0} (s : Stored C R) (h more : List C) (p : ℕ) (r : R)
    → load s h p ≡ some r
    → load s (h ++ more) p ≡ some r
load_append s h more p r e =
    let (c, q, held) = load-eq_some s h p r e in rw (load, get_append h more p c q, held)

-- The cell of an allocation, behind any cells of the same number.
pub load-alloc :
    {C R : Type 0} (s : Stored C R) (old h more : List C) (r : R)
    → length old ≡ length h
    → load s (old ++ s.cell r ∷ more) (length h) ≡ some r
load-alloc s old h more r e = rw (sym e, load, get-length old (s.cell r) more, s.content_cell r)

-- What a pointer reads that is not nil.
pub pointed :
    {C R A : Type 0} (s : Stored C R) (c : Copier C R A) (h : List C) (p : ℕ) (v : Option A)
    → (pointer s c).read h (some p) ≡ some v
    → (r : R) × (a : A) × (load s h p ≡ some r) × (c.read h r ≡ some a) × (v ≡ some a)
pointed s c h p v e = elim (Option-cases (load s h p)) [
  | inl q ↦ absurd (ground arith)
  | inr (r, q) ↦
      let (a, ea, same) = map-eq_some some (c.read h r) v (ground arith) in (r, a, q, ea, sym same)
]
