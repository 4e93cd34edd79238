-- ===== src/Base/Exec.antt =====
-- Code with an error result that reads and changes a state: a state is left behind on an error too.
use k8s_ai_operator.Base.Texts.{Text}
use k8s_ai_operator.Base.Results.{Result, ok, err, map_err}

abbrev pub Exec : Type 0 → Type 0 → Type 0
Exec S A = S → Result A × S

infixl 5 ◌>>=◌ ◌>>◌
abbrev pub ◌>>=◌ : {S A B : Type 0} → Exec S A → (A → Exec S B) → Exec S B
◌>>=◌ m f s = let (r, s') = m s in elim r [ ok a ↦ f a s' | err e ↦ (err e, s') ]

abbrev pub ◌>>◌ : {S B : Type 0} → Exec S (Unit {0}) → Exec S B → Exec S B
m >> k = m >>= λ _. k

abbrev pub pure : {S A : Type 0} → A → Exec S A
pure a s = (ok a, s)

abbrev pub lift : {S A : Type 0} → Result A → Exec S A
lift r s = (r, s)

-- `if err != nil { return fmt.Errorf("…: %w", err) }`
abbrev pub wrapped : {S A : Type 0} → (Text → Text) → Exec S A → Exec S A
wrapped f m s = let (r, s') = m s in (map_err f r, s')
