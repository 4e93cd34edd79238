-- ===== src/Api/Memory.antt =====
-- Memory with addresses, for the generated deep copies of api/v1alpha1: cells are appended by `new` and
-- `make`, a pointer or a slice is nil or the address of the cell that holds its struct or its elements.
-- A resource in memory is a struct of pointers, and a copier reads it, or copies it as DeepCopyInto does.
pub mod Reads
pub mod Laws
pub mod Isolation
pub mod Steady
use k8s_ai_operator.Base.{ℕ, zero, suc, ◌≡◌, Option, none, some, List, [], ◌∷◌, ◌++◌, length}
use mathlib.Core.Option

abbrev pub get : {C : Type 0} → List C → ℕ → Option C
get [] p = none
get (c ∷ h) zero = some c
get (c ∷ h) (suc p) = get h p

-- `none` is a fault, such as a read through a dangling pointer.
abbrev pub M : Type 0 → Type 0 → Type 0
M C A = List C → Option (A × List C)

abbrev pub pure : {C A : Type 0} → A → M C A
pure a h = some (a, h)

infixl 5 ◌>>=◌
abbrev pub ◌>>=◌ : {C A B : Type 0} → M C A → (A → M C B) → M C B
◌>>=◌ m f h = elim (m h) [ none ↦ none | some (a, h') ↦ f a h' ]

-- Cells that hold values of the type `A`.
pub record Stored (C A : Type 0) : Type 0 where
  pub cell : A → C
  pub content : C → Option A
  pub content_cell : (a : A) → content (cell a) ≡ some a

abbrev pub load : {C A : Type 0} → Stored C A → List C → ℕ → Option A
load s h p = elim (get h p) [ none ↦ none | some c ↦ s.content c ]

abbrev pub fetch : {C A : Type 0} → Stored C A → ℕ → M C A
fetch s p h = Option.map (λ a. (a, h)) (load s h p)

abbrev pub alloc : {C A : Type 0} → Stored C A → A → M C (Option ℕ)
alloc s a h = some (some (length h), h ++ s.cell a ∷ [])

-- How a value of `A` lies in memory as an `R`, and how it is copied.
pub record Copier (C R A : Type 0) : Type 0 where
  pub read : List C → R → Option A
  pub copy : R → M C R

abbrev pub lift2 : {A B D : Type 0} → (A → B → D) → Option A → Option B → Option D
lift2 f none y = none
lift2 f (some a) none = none
lift2 f (some a) (some b) = some (f a b)

-- An assignment is the copy.
abbrev pub plain : {C A : Type 0} → Copier C A A
plain = record { read = λ h a. some a; copy = λ a. pure a }

-- One after the other.
abbrev pub both : {C R A S B : Type 0} → Copier C R A → Copier C S B → Copier C (R × S) (A × B)
both c d = record {
  read = λ h r. lift2 (λ a b. (a, b)) (c.read h r.0) (d.read h r.1);
  copy = λ r. (do r' ← c.copy r.0; s' ← d.copy r.1; pure (r', s'));
}

abbrev read_all : {C R A : Type 0} → Copier C R A → List C → List R → Option (List A)
read_all c h [] = some []
read_all c h (r ∷ rs) = lift2 (λ a l. a ∷ l) (c.read h r) (read_all c h rs)

abbrev copy_all : {C R A : Type 0} → Copier C R A → List R → M C (List R)
copy_all c [] = pure []
copy_all c (r ∷ rs) = do r' ← c.copy r; rs' ← copy_all c rs; pure (r' ∷ rs')

-- The loop over the elements of a slice.
abbrev pub elements : {C R A : Type 0} → Copier C R A → Copier C (List R) (List A)
elements c = record { read = read_all c; copy = copy_all c }

abbrev pub read_at :
    {C R A : Type 0} → Stored C R → Copier C R A → List C → Option ℕ → Option (Option A)
read_at s c h none = some none
read_at s c h (some p) = elim (load s h p) [ none ↦ none | some r ↦ Option.map some (c.read h r) ]

abbrev pub copy_at : {C R A : Type 0} → Stored C R → Copier C R A → Option ℕ → M C (Option ℕ)
copy_at s c none = pure none
copy_at s c (some p) = do r ← fetch s p; r' ← c.copy r; alloc s r'

-- `if in != nil { out = new(T); in.DeepCopyInto(out) }`, where nil stays nil.
abbrev pub pointer : {C R A : Type 0} → Stored C R → Copier C R A → Copier C (Option ℕ) (Option A)
pointer s c = record { read = read_at s c; copy = copy_at s c }

-- `*out = *in`, then the fields that `parts` names, which `update` sets.
abbrev pub struct :
    {C R P A V : Type 0}
    → (parts : R → P) (update : R → P → R) (value : R → A → V) → Copier C P A
    → Copier C R V
struct parts update value c = record {
  read = λ h r. Option.map (value r) (c.read h (parts r));
  copy = λ r. (do p ← c.copy (parts r); pure (update r p));
}

abbrev pub three :
    {C R A S B T D : Type 0}
    → Copier C R A
    → Copier C S B
    → Copier C T D
    → Copier C (R × S × T) (A × B × D)
three c d e =
    struct (λ r. (r.0, (r.1, r.2))) (λ r p. (p.0, p.1.0, p.1.1)) (λ r a. (a.0, a.1.0, a.1.1))
      (both c (both d e))

abbrev pub four :
    {C R A S B T D U E : Type 0}
    → Copier C R A
    → Copier C S B
    → Copier C T D
    → Copier C U E
    → Copier C (R × S × T × U) (A × B × D × E)
four c d e f =
    struct (λ r. (r.0, (r.1, r.2, r.3))) (λ r p. (p.0, p.1.0, p.1.1, p.1.2))
      (λ r a. (a.0, a.1.0, a.1.1, a.1.2)) (both c (three d e f))
