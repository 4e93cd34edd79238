-- ===== src/Base/Texts.antt =====
-- Go strings: lists of bytes. A literal is ASCII, so its code points are its bytes.
use Prim.Native.Nat.{ℕ}
use Prim.Native.Char.{code}
use Prim.Native.String.{String}
use mathlib.Core.Path.{◌≡◌, refl, sym, ap₂}
use mathlib.Core.Option.{Option, none, some, none-ne-some}
use native.Mathlib.Omega.{arith}
use k8s_ai_operator.Base.Numbers.{nat_eq}
use mathlib.Core.List.{List, [], ◌∷◌, ◌++◌}
use native.Mathlib.Decide.{ℕ_discrete}
use k8s_ai_operator.Base.Logic.{Eq, ◌==◌, ==_true, ==_false, if◌then◌else◌}

abbrev pub Text : Type 0
Text = List ℕ

-- A literal of the source. It is shut, so that proofs treat it as one name.
unfoldable pub lit : String → Text
lit String.[] = []
lit (String.◌∷◌ c s) = code c ∷ lit s

Text-discrete : Discrete Text
Text-discrete = hlevel ℕ_discrete

instance unfoldable pub text_eq : Eq Text
unfolding Text-discrete ℕ_discrete
text_eq = record { dec = Text-discrete }

-- strings.CutPrefix: what follows the prefix, if it is there.
unfoldable pub cut_prefix : Text → Text → Option Text
cut_prefix [] s = some s
cut_prefix (p ∷ ps) [] = none
cut_prefix (p ∷ ps) (c ∷ s) = if p == c then cut_prefix ps s else none

pub cut_prefix_append : (p r : Text) → cut_prefix p (p ++ r) ≡ some r
unfolding cut_prefix
cut_prefix_append [] r = refl
cut_prefix_append (c ∷ p) r = ground (arith, cut_prefix_append p r)

pub cut_prefix-eq_some : (p s r : Text) → cut_prefix p s ≡ some r → s ≡ p ++ r
unfolding cut_prefix
cut_prefix-eq_some [] s r h = ground arith
cut_prefix-eq_some (c ∷ p) [] r h = cc
cut_prefix-eq_some (c ∷ p) (d ∷ s) r h = elim (nat_eq.dec c d) [
  | yes same ↦
      let rest : cut_prefix p s ≡ some r = rw (==_true same) at h in
      ap₂ ◌∷◌ (sym same) (cut_prefix-eq_some p s r rest)
  | no other ↦ absurd (none-ne-some _ (rw (==_false other) at h))
]
