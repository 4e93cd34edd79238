-- ===== src/Controller/Conditions/InPlace/Laws.antt =====
-- What setCondition leaves in memory.
use k8s_ai_operator.Base.{
  ℕ, ◌≤◌, ◌≡◌, refl, inl, inr, Bool, true, false, Option, none, some, List, [], ◌∷◌, ◌++◌, length,
  length-append, text_eq, arith, Option-cases, sym, ◌∙◌,
}
use k8s_ai_operator.Api.Meta.{Condition}
use k8s_ai_operator.Api.Memory.{get, load, Copier, plain, elements, read_at, fetch, alloc, M, ◌>>=◌}
use k8s_ai_operator.Api.Memory.Laws.{IsDeep}
use k8s_ai_operator.Api.Memory.Reads.{load-eq_some, pointed, load-alloc}
use k8s_ai_operator.Api.Memory.Isolation.{write, length-write, Writes, overwrite, extend}
use k8s_ai_operator.Api.Memory.Steady.{IsSteady, get-write_same}
use k8s_ai_operator.Api.DeepCopy.Structs.{Cell, conditions_cell}
use k8s_ai_operator.Api.DeepCopy.Stored.{conditions_stored}
use k8s_ai_operator.Api.DeepCopy.Endpoint.{ranged, conditions_copier}
use k8s_ai_operator.Controller.Conditions.{set_condition}
use k8s_ai_operator.Controller.Conditions.InPlace.{replaced, assign, append_at, set_condition_at}

abbrev or_appended : Option (List Condition) → List Condition → Condition → List Condition
or_appended none cs new = cs ++ new ∷ []
or_appended (some cs') cs new = cs'

-- The loop and the append together are the model of setCondition on lists.
set_condition-replaced :
    (cs : List Condition) (new : Condition)
    → set_condition cs new ≡ or_appended (replaced cs new) cs new
unfolding set_condition
set_condition-replaced [] new = refl
set_condition-replaced (c ∷ cs) new =
    let ih = set_condition-replaced cs new in
    elim (Option-cases (replaced cs new)) [ inl q ↦ ground arith | inr (cs', q) ↦ ground arith ]

abbrev pub IsConditions : {Meta : Type 0} → Cell Meta → Type 0
IsConditions d = (cs : List Condition) × (d ≡ conditions_cell cs)

-- One write, of conditions: to a cell that held conditions, or to a new one.
pub data OneWrite {Meta : Type 0} (Allowed : ℕ → Type 0) (h : List (Cell Meta))
    : List (Cell Meta) → Type 0 where
  added : (cs : List Condition) → OneWrite Allowed h (h ++ conditions_cell cs ∷ [])
  assigned :
      (q : ℕ) (d d' : Cell Meta)
      → Allowed q
      → get h q ≡ some d
      → IsConditions d
      → OneWrite Allowed h (write h q d')

pub OneWrite-Writes :
    {Meta : Type 0} {Allowed : ℕ → Type 0} {h k k' : List (Cell Meta)}
    → Writes Allowed h k
    → OneWrite Allowed k k'
    → Writes Allowed h k'
OneWrite-Writes writes (added cs) = extend (conditions_cell cs) writes
OneWrite-Writes writes (assigned q d d' ok at_q held) = overwrite q d' writes ok

pub OneWrite-length :
    {Meta : Type 0} {Allowed : ℕ → Type 0} {h h' : List (Cell Meta)}
    → OneWrite Allowed h h'
    → length h ≤ length h'
OneWrite-length {h = h} (added cs) = omega (arith, length-append h (conditions_cell cs ∷ []))
OneWrite-length {h = h} (assigned q d d' ok at_q held) = omega (arith, length-write h q d')

pub OneWrite-keeps :
    {Meta R A : Type 0} {Allowed : ℕ → Type 0} {h h' : List (Cell Meta)}
    (c : Copier (Cell Meta) R A)
    → IsDeep c
    → IsSteady IsConditions c
    → OneWrite Allowed h h'
    → (r : R) (v : A) → c.read h r ≡ some v
    → c.read h' r ≡ some v
OneWrite-keeps {h = h} c x y (added cs) r v e = x.grows h (conditions_cell cs ∷ []) r v e
OneWrite-keeps {h = h} c x y (assigned q d d' ok at_q held) r v e = y.keeps h q d d' at_q held r v e

-- The slice's array may be written.
abbrev pub IsOwn : (ℕ → Type 0) → Option ℕ → Type 0
IsOwn Allowed none = Unit
IsOwn Allowed (some q) = Allowed q

-- The slice holds these conditions.
abbrev pub Holds : {Meta : Type 0} → List (Cell Meta) → Option ℕ → List Condition → Type 0
Holds h slice cs =
    (o : Option (List Condition)) × (conditions_copier.read h slice ≡ some o) × (ranged o ≡ cs)

elements-plain :
    {C A : Type 0} (h : List C) (l : List A) → (elements {C = C} (plain {A = A})).read h l ≡ some l
elements-plain h [] = refl
elements-plain h (a ∷ l) = rw (elements-plain h l)

Holds-load :
    {Meta : Type 0} (h : List (Cell Meta)) (q : ℕ) (cs : List Condition)
    → load conditions_stored h q ≡ some cs
    → Holds h (some q) cs
Holds-load h q cs e = (some cs, rw (read_at, e, elements-plain h cs), refl)

Holds-nil : {Meta : Type 0} (h : List (Cell Meta)) (cs : List Condition) → Holds h none cs → cs ≡ []
Holds-nil h cs (none, reads, held) = sym held
Holds-nil h cs (some l, reads, held) = absurd (ground arith)

pub load-Holds :
    {Meta : Type 0} (h : List (Cell Meta)) (q : ℕ) (cs : List Condition)
    → Holds h (some q) cs
    → load conditions_stored h q ≡ some cs
load-Holds h q cs (o, reads, same) =
    let (r, a, loads, all, known) = pointed conditions_stored (elements plain) h q o reads in
    let whole = elements-plain h r in rw (loads, sym same, known) (ground arith)

content-conditions :
    {Meta : Type 0} (d : Cell Meta) (cs : List Condition)
    → conditions_stored.content d ≡ some cs
    → d ≡ conditions_cell cs
content-conditions (conditions_cell x) cs e = ground arith
content-conditions d cs e = absurd (ground arith)

-- The program returns a slice with these conditions, after one write.
abbrev pub Sets :
    {Meta : Type 0}
    → (ℕ → Type 0)
    → List (Cell Meta)
    → M (Cell Meta) (Option ℕ)
    → List Condition
    → Type 0
Sets {Meta = Meta} Allowed h m cs =
    (slice : Option ℕ) × (h' : List (Cell Meta)) × (m h ≡ some (slice, h'))
    × OneWrite Allowed h h'
    × IsOwn Allowed slice
    × Holds h' slice cs

alloc-Sets :
    {Meta : Type 0} (Allowed : ℕ → Type 0) (h : List (Cell Meta)) (cs : List Condition)
    → Allowed (length h)
    → Sets Allowed h (alloc conditions_stored cs) cs
alloc-Sets Allowed h cs next = (
  some (length h),
  h ++ conditions_cell cs ∷ [],
  refl,
  added cs,
  next,
  Holds-load (h ++ conditions_cell cs ∷ []) (length h) cs
      (load-alloc conditions_stored h h [] cs refl),
)

assign-Sets :
    {Meta : Type 0} (Allowed : ℕ → Type 0) (h : List (Cell Meta)) (q : ℕ) (cs cs' : List Condition)
    → Allowed q
    → load conditions_stored h q ≡ some cs
    → Sets Allowed h (assign conditions_stored q cs') cs'
assign-Sets Allowed h q cs cs' own loads =
    let (d, at_q, content) = load-eq_some conditions_stored h q cs loads in
    (
      some q,
      write h q (conditions_cell cs'),
      refl,
      assigned q d (conditions_cell cs') own at_q (cs, content-conditions d cs content),
      own,
      Holds-load (write h q (conditions_cell cs')) q cs'
          (rw (load, get-write_same h q d (conditions_cell cs') at_q) refl),
    )

append_at-Sets :
    {Meta : Type 0} (Allowed : ℕ → Type 0) (room : Bool) (h : List (Cell Meta)) (q : ℕ)
    (cs cs' : List Condition)
    → Allowed q
    → Allowed (length h)
    → load conditions_stored h q ≡ some cs
    → Sets Allowed h (append_at room q cs') cs'
append_at-Sets Allowed true h q cs cs' own next loads = assign-Sets Allowed h q cs cs' own loads
append_at-Sets Allowed false h q cs cs' own next loads = alloc-Sets Allowed h cs' next

-- A program that does as another one.
Sets-as :
    {Meta : Type 0} (Allowed : ℕ → Type 0) (h : List (Cell Meta)) (m n : M (Cell Meta) (Option ℕ))
    (cs cs' : List Condition)
    → n h ≡ m h
    → cs' ≡ cs
    → Sets Allowed h m cs
    → Sets Allowed h n cs'
Sets-as Allowed h m n cs cs' does same (slice, h', done, one, own, (o, reads, held)) =
    (slice, h', does ∙ done, one, own, (o, reads, held ∙ sym same))

-- setCondition returns, with one write to memory, and the slice then holds what it makes of a list.
pub set_condition_at-Sets :
    {Meta : Type 0} (Allowed : ℕ → Type 0) (room : Bool) (h : List (Cell Meta)) (slice : Option ℕ)
    (cs : List Condition) (new : Condition)
    → IsOwn Allowed slice
    → Allowed (length h)
    → Holds h slice cs
    → Sets Allowed h (set_condition_at room slice new) (set_condition cs new)
set_condition_at-Sets Allowed room h none cs new own next holds =
    Sets-as Allowed h (alloc conditions_stored (new ∷ [])) (set_condition_at room none new)
      (new ∷ []) (set_condition cs new) refl
      (rw (Holds-nil h cs holds, set_condition-replaced [] new) refl)
      (alloc-Sets Allowed h (new ∷ []) next)
set_condition_at-Sets Allowed room h (some q) cs new own next holds =
    let loads = load-Holds h q cs holds in
    let same = set_condition-replaced cs new in
    elim (Option-cases (replaced cs new)) [
      | inl r ↦
          Sets-as Allowed h (append_at room q (cs ++ new ∷ [])) (set_condition_at room (some q) new)
            (cs ++ new ∷ []) (set_condition cs new) (rw (◌>>=◌, fetch, loads, r)) (rw (same, r))
            (append_at-Sets Allowed room h q cs (cs ++ new ∷ []) own next loads)
      | inr (cs', r) ↦
          Sets-as Allowed h (assign conditions_stored q cs') (set_condition_at room (some q) new)
            cs' (set_condition cs new) (rw (◌>>=◌, fetch, loads, r)) (rw (same, r))
            (assign-Sets Allowed h q cs cs' own loads)
    ]
