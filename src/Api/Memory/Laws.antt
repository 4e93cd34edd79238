-- ===== src/Api/Memory/Laws.antt =====
-- A copy shares no cell with what it was made of.
use k8s_ai_operator.Base.{ℕ, ◌≡◌, refl, Option, none, some, List, [], ◌∷◌, ◌++◌, length, sym}
use mathlib.Core.List.{append_assoc, append-nil}
use k8s_ai_operator.Api.Memory.{
  ◌>>=◌, Stored, load, fetch, Copier, plain, both, elements, pointer, read_at, copy_at, struct,
  three, four,
}
use k8s_ai_operator.Api.Memory.Reads.{
  lift2-eq_some, map-eq_some, length_both, load_append, load-alloc, pointed,
}

-- Reading does not depend on later cells. A copy returns, only adds cells, and reads as the value
-- whatever the earlier cells and the later ones hold.
pub record IsDeep {C R A : Type 0} (c : Copier C R A) : Type 0 where
  pub grows :
      (h more : List C) (r : R) (v : A) → c.read h r ≡ some v → c.read (h ++ more) r ≡ some v
  pub copies :
      (h : List C) (r : R) (v : A)
      → c.read h r ≡ some v
      → (r' : R) × (fresh : List C) × (c.copy r h ≡ some (r', h ++ fresh))
        × ((old more : List C)
            → length old ≡ length h
            → c.read (old ++ (fresh ++ more)) r' ≡ some v)

pub plain-IsDeep : {C A : Type 0} → IsDeep {C = C} {R = A} {A = A} plain
plain-IsDeep = record {
  grows = λ h more r v e. e;
  copies = λ h r v e. (r, [], rw (append-nil h), λ old more same. e);
}

pub both-IsDeep :
    {C R A S B : Type 0} (c : Copier C R A) (d : Copier C S B)
    → IsDeep c
    → IsDeep d
    → IsDeep (both c d)
both-IsDeep c d x y = record {
  grows = λ h more r v e.
      let (a, b, ea, eb, same) = lift2-eq_some (λ a b. (a, b)) (c.read h r.0) (d.read h r.1) v e in
      rw (x.grows h more r.0 a ea, y.grows h more r.1 b eb, same);
  copies = λ h r v e.
      let (a, b, ea, eb, same) = lift2-eq_some (λ a b. (a, b)) (c.read h r.0) (d.read h r.1) v e in
      let (r', fresh, done, reads) = x.copies h r.0 a ea in
      let (s', fresher, done', reads') = y.copies (h ++ fresh) r.1 b (y.grows h fresh r.1 b eb) in
      (
        (r', s'),
        fresh ++ fresher,
        rw (◌>>=◌, done, done', append_assoc h fresh fresher),
        λ old more len.
            let front : c.read (old ++ ((fresh ++ fresher) ++ more)) r' ≡ some a =
              rw (append_assoc fresh fresher more, reads old (fresher ++ more) len) in
            let back : d.read (old ++ ((fresh ++ fresher) ++ more)) s' ≡ some b = rw (
              append_assoc fresh fresher more,
              sym (append_assoc old fresh (fresher ++ more)),
              reads' (old ++ fresh) more (length_both old h fresh len),
            ) in
            rw (front, back, same),
      );
}

elements_grow :
    {C R A : Type 0} (c : Copier C R A)
    → IsDeep c
    → (h more : List C) (rs : List R) (v : List A) → (elements c).read h rs ≡ some v
    → (elements c).read (h ++ more) rs ≡ some v
elements_grow c x h more [] v e = e
elements_grow c x h more (r ∷ rs) v e =
    let (a, l, ea, el, same) =
      lift2-eq_some (λ a l. a ∷ l) (c.read h r) ((elements c).read h rs) v e in
    rw (x.grows h more r a ea, elements_grow c x h more rs l el, same)

elements_copy :
    {C R A : Type 0} (c : Copier C R A)
    → IsDeep c
    → (h : List C) (rs : List R) (v : List A) → (elements c).read h rs ≡ some v
    → (rs' : List R) × (fresh : List C) × ((elements c).copy rs h ≡ some (rs', h ++ fresh))
      × ((old more : List C)
          → length old ≡ length h
          → (elements c).read (old ++ (fresh ++ more)) rs' ≡ some v)
elements_copy c x h [] v e = ([], [], rw (append-nil h), λ old more same. e)
elements_copy c x h (r ∷ rs) v e =
    let (a, l, ea, el, same) =
      lift2-eq_some (λ a l. a ∷ l) (c.read h r) ((elements c).read h rs) v e in
    let (r', fresh, done, reads) = x.copies h r a ea in
    let (rs', fresher, done', reads') =
      elements_copy c x (h ++ fresh) rs l (elements_grow c x h fresh rs l el) in
    (
      r' ∷ rs',
      fresh ++ fresher,
      rw (◌>>=◌, done, done', append_assoc h fresh fresher),
      λ old more len.
          let front : c.read (old ++ ((fresh ++ fresher) ++ more)) r' ≡ some a =
            rw (append_assoc fresh fresher more, reads old (fresher ++ more) len) in
          let back : (elements c).read (old ++ ((fresh ++ fresher) ++ more)) rs' ≡ some l = rw (
            append_assoc fresh fresher more,
            sym (append_assoc old fresh (fresher ++ more)),
            reads' (old ++ fresh) more (length_both old h fresh len),
          ) in
          rw (front, back, same),
    )

pub elements-IsDeep : {C R A : Type 0} (c : Copier C R A) → IsDeep c → IsDeep (elements c)
elements-IsDeep c x = record { grows = elements_grow c x; copies = elements_copy c x }

pointer_grows :
    {C R A : Type 0} (s : Stored C R) (c : Copier C R A)
    → IsDeep c
    → (h more : List C) (p : Option ℕ) (v : Option A) → (pointer s c).read h p ≡ some v
    → (pointer s c).read (h ++ more) p ≡ some v
pointer_grows s c x h more none v e = e
pointer_grows s c x h more (some p) v e =
    let (r, a, q, ea, same) = pointed s c h p v e in
    rw (read_at, load_append s h more p r q, x.grows h more r a ea, same)

-- A copy that is put in a cell of its own, behind the cells that it needed.
pub pointer_reads :
    {C R A : Type 0} (s : Stored C R) (c : Copier C R A) (h fresh : List C) (r : R) (a : A)
    → ((old more : List C) → length old ≡ length h → c.read (old ++ (fresh ++ more)) r ≡ some a)
    → (old more : List C) → length old ≡ length h
    → (pointer s c).read (old ++ ((fresh ++ s.cell r ∷ []) ++ more)) (some (length (h ++ fresh)))
      ≡ some (some a)
pointer_reads s c h fresh r a reads old more len =
    let here : load s (old ++ ((fresh ++ s.cell r ∷ []) ++ more)) (length (h ++ fresh)) ≡ some r =
      rw (
        append_assoc fresh (s.cell r ∷ []) more,
        sym (append_assoc old fresh (s.cell r ∷ more)),
        load-alloc s (old ++ fresh) (h ++ fresh) more r (length_both old h fresh len),
      ) in
    let there : c.read (old ++ ((fresh ++ s.cell r ∷ []) ++ more)) r ≡ some a =
      rw (append_assoc fresh (s.cell r ∷ []) more, reads old (s.cell r ∷ more) len) in
    rw (read_at, here, there)

pointer_copies :
    {C R A : Type 0} (s : Stored C R) (c : Copier C R A)
    → IsDeep c
    → (h : List C) (p : Option ℕ) (v : Option A) → (pointer s c).read h p ≡ some v
    → (p' : Option ℕ) × (fresh : List C) × ((pointer s c).copy p h ≡ some (p', h ++ fresh))
      × ((old more : List C)
          → length old ≡ length h
          → (pointer s c).read (old ++ (fresh ++ more)) p' ≡ some v)
pointer_copies s c x h none v e = (none, [], rw (append-nil h), λ old more same. e)
pointer_copies s c x h (some p) v e =
    let (r, a, q, ea, same) = pointed s c h p v e in
    let (r', fresh, done, reads) = x.copies h r a ea in
    (
      some (length (h ++ fresh)),
      fresh ++ s.cell r' ∷ [],
      rw (copy_at, ◌>>=◌, fetch, q, done, append_assoc h fresh (s.cell r' ∷ [])),
      λ old more len. rw (same, pointer_reads s c h fresh r' a reads old more len),
    )

pub pointer-IsDeep :
    {C R A : Type 0} (s : Stored C R) (c : Copier C R A) → IsDeep c → IsDeep (pointer s c)
pointer-IsDeep s c x = record { grows = pointer_grows s c x; copies = pointer_copies s c x }

pub struct-IsDeep :
    {C R P A V : Type 0} (parts : R → P) (update : R → P → R) (value : R → A → V) (c : Copier C P A)
    → ((r : R) (p : P) → parts (update r p) ≡ p)
    → ((r : R) (p : P) (a : A) → value (update r p) a ≡ value r a)
    → IsDeep c
    → IsDeep (struct parts update value c)
struct-IsDeep parts update value c put kept x = record {
  grows = λ h more r v e.
      let (a, ea, same) = map-eq_some (value r) (c.read h (parts r)) v e in
      rw (x.grows h more (parts r) a ea, same);
  copies = λ h r v e.
      let (a, ea, same) = map-eq_some (value r) (c.read h (parts r)) v e in
      let (p, fresh, done, reads) = x.copies h (parts r) a ea in
      (
        update r p,
        fresh,
        rw (◌>>=◌, done),
        λ old more len. rw (put r p, reads old more len, kept r p a, same),
      );
}

pub three-IsDeep :
    {C R A S B T D : Type 0} (c : Copier C R A) (d : Copier C S B) (e : Copier C T D)
    → IsDeep c
    → IsDeep d
    → IsDeep e
    → IsDeep (three c d e)
three-IsDeep c d e x y z =
    struct-IsDeep _ _ _ _ (λ r p. refl) (λ r p a. refl) (both-IsDeep c _ x (both-IsDeep d e y z))

pub four-IsDeep :
    {C R A S B T D U E : Type 0} (c : Copier C R A) (d : Copier C S B) (e : Copier C T D)
    (f : Copier C U E)
    → IsDeep c
    → IsDeep d
    → IsDeep e
    → IsDeep f
    → IsDeep (four c d e f)
four-IsDeep c d e f x y z u =
    struct-IsDeep _ _ _ _ (λ r p. refl) (λ r p a. refl)
      (both-IsDeep c _ x (three-IsDeep d e f y z u))
