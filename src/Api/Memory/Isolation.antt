-- ===== src/Api/Memory/Isolation.antt =====
-- Writes to memory, and what a deep copy does not see of them.
use k8s_ai_operator.Base.{
  ◌⊎◌, inl, inr, ℕ, zero, suc, ◌+◌, ◌<◌, ◌≤◌, ◌≡◌, refl, some, List, [], ◌∷◌, ◌++◌, length,
  length-append, arith, sym, ◌∙◌, ap,
}
use mathlib.Core.List.{append_assoc, append-nil}
use k8s_ai_operator.Api.Memory.{Copier}
use k8s_ai_operator.Api.Memory.Laws.{IsDeep}

abbrev pub write : {C : Type 0} → List C → ℕ → C → List C
write [] p d = []
write (c ∷ h) zero d = d ∷ h
write (c ∷ h) (suc p) d = c ∷ write h p d

-- Any number of assignments to cells at the allowed addresses, and of allocations.
pub data Writes {C : Type 0} (Allowed : ℕ → Type 0) (h : List C) : List C → Type 0 where
  unwritten : Writes Allowed h h
  overwrite :
      {k : List C} (p : ℕ) (c : C) → Writes Allowed h k → Allowed p → Writes Allowed h (write k p c)
  extend : {k : List C} (c : C) → Writes Allowed h k → Writes Allowed h (k ++ c ∷ [])

-- The address is not that of a cell which was added between `h` and `h'`.
abbrev pub IsOutside : {C : Type 0} → List C → List C → ℕ → Type 0
IsOutside h h' p = (p < length h) ⊎ (length h' ≤ p)

-- The copy returns, having only added cells; from then on the copy reads as the value whatever is
-- written to the other cells, and the original whatever is written to those or to later ones.
abbrev pub IsIsolated : {C R A : Type 0} → Copier C R A → List C → R → A → Type 0
IsIsolated {C = C} {R = R} {A = A} c h r v =
    (r' : R) × (h' : List C) × (c.copy r h ≡ some (r', h'))
    × (length h ≤ length h')
    × ((k : List C) → Writes (IsOutside h h') h' k → c.read k r' ≡ some v)
    × ((k : List C) → Writes (λ p. length h ≤ p) h' k → c.read k r ≡ some v)

pub length-write : {C : Type 0} (h : List C) (p : ℕ) (d : C) → length (write h p d) ≡ length h
length-write [] p d = refl
length-write (c ∷ h) zero d = refl
length-write (c ∷ h) (suc p) d = omega (arith, length-write h p d)

write-append_front :
    {C : Type 0} (h more : List C) (p : ℕ) (d : C)
    → p < length h
    → write (h ++ more) p d ≡ write h p d ++ more
write-append_front [] more p d below = absurd (omega arith)
write-append_front (c ∷ h) more zero d below = refl
write-append_front (c ∷ h) more (suc p) d below =
    ap (λ l. c ∷ l) (write-append_front h more p d (omega arith))

write-append_back :
    {C : Type 0} (h more : List C) (p : ℕ) (d : C)
    → length h ≤ p
    → (more' : List C) × (write (h ++ more) p d ≡ h ++ more')
write-append_back [] more p d above = (write more p d, refl)
write-append_back (c ∷ h) more zero d above = absurd (omega arith)
write-append_back (c ∷ h) more (suc p) d above =
    let (more', same) = write-append_back h more p d (omega arith) in (more', ap (λ l. c ∷ l) same)

-- A write to either side of the cells in the middle.
write_outside :
    {C : Type 0} (old fresh more : List C) (p : ℕ) (d : C)
    → (p < length old) ⊎ (length old + length fresh ≤ p)
    → (old' : List C) × (more' : List C) × (length old' ≡ length old)
      × (write (old ++ (fresh ++ more)) p d ≡ old' ++ (fresh ++ more'))
write_outside old fresh more p d (inl below) =
    (write old p d, more, length-write old p d, write-append_front old (fresh ++ more) p d below)
write_outside old fresh more p d (inr above) =
    let (more', same) =
      write-append_back (old ++ fresh) more p d (omega (arith, length-append old fresh, above)) in
    (old, more', refl, rw (sym (append_assoc old fresh more), same, append_assoc old fresh more'))

pub Writes-front :
    {C : Type 0} (h fresh : List C) {k : List C}
    → Writes (IsOutside h (h ++ fresh)) (h ++ fresh) k
    → (old : List C) × (more : List C) × (length old ≡ length h) × (k ≡ old ++ (fresh ++ more))
Writes-front h fresh unwritten = (h, [], refl, rw (append-nil fresh))
Writes-front h fresh (overwrite p c writes outside) =
    let (old, more, same, whole) = Writes-front h fresh writes in
    let (old', more', same', written) =
      write_outside old fresh more p c (ground (arith, same, outside, length-append h fresh)) in
    (old', more', same' ∙ same, ap (λ l. write l p c) whole ∙ written)
Writes-front h fresh (extend c writes) =
    let (old, more, same, whole) = Writes-front h fresh writes in
    (
      old,
      more ++ c ∷ [],
      same,
      ap (λ l. l ++ c ∷ []) whole
          ∙ rw (append_assoc old (fresh ++ more) (c ∷ []), append_assoc fresh more (c ∷ [])),
    )

Writes-back :
    {C : Type 0} (h fresh : List C) {k : List C}
    → Writes (λ p. length h ≤ p) (h ++ fresh) k
    → (more : List C) × (k ≡ h ++ more)
Writes-back h fresh unwritten = (fresh, refl)
Writes-back h fresh (overwrite p c writes above) =
    let (more, whole) = Writes-back h fresh writes in
    let (more', written) = write-append_back h more p c above in
    (more', ap (λ l. write l p c) whole ∙ written)
Writes-back h fresh (extend c writes) =
    let (more, whole) = Writes-back h fresh writes in
    (more ++ c ∷ [], ap (λ l. l ++ c ∷ []) whole ∙ append_assoc h more (c ∷ []))

pub IsDeep-IsIsolated :
    {C R A : Type 0} (c : Copier C R A)
    → IsDeep c
    → (h : List C) (r : R) (v : A) → c.read h r ≡ some v
    → IsIsolated c h r v
IsDeep-IsIsolated c x h r v e =
    let (r', fresh, done, reads) = x.copies h r v e in
    (
      r',
      h ++ fresh,
      done,
      omega (arith, length-append h fresh),
      λ k writes.
          let (old, more, same, whole) = Writes-front h fresh writes in
          rw (whole, reads old more same),
      λ k writes.
          let (more, whole) = Writes-back h fresh writes in rw (whole, x.grows h more r v e),
    )
