-- ===== src/Base/Ints.antt =====
-- Signed integers over the native numbers, for int32 and int64 fields. `negsuc n` is -(n + 1).
use Prim.Native.Nat.{ℕ, ◌≤◌}
use mathlib.Core.Path.{◌≡◌, ap}
use native.Mathlib.Omega.{arith}
use mathlib.Core.Bool.{Bool, true, false}
use native.Mathlib.Decide.{ℕ_discrete}
use k8s_ai_operator.Base.Logic.{Eq}
use k8s_ai_operator.Base.Numbers.{ltb}

pub data ℤ : Type 0 where
  pos : ℕ → ℤ
  negsuc : ℕ → ℤ

-- a < b
abbrev pub lt_int : ℤ → ℤ → Bool
lt_int (pos a) (pos b) = ltb a b
lt_int (pos a) (negsuc b) = false
lt_int (negsuc a) (pos b) = true
lt_int (negsuc a) (negsuc b) = ltb b a

infix 50 ◌≤ℤ◌
abbrev pub ◌≤ℤ◌ : ℤ → ℤ → Type 0
pos a ≤ℤ pos b = a ≤ b
pos a ≤ℤ negsuc b = ⊥
negsuc a ≤ℤ pos b = Unit
negsuc a ≤ℤ negsuc b = b ≤ a

ℤ-discrete : Discrete ℤ
ℤ-discrete = hlevel ℕ_discrete

instance unfoldable pub int_eq : Eq ℤ
unfolding ℤ-discrete ℕ_discrete
int_eq = record { dec = ℤ-discrete }

pub ≤ℤ_refl : (a : ℤ) → a ≤ℤ a
≤ℤ_refl (pos a) = omega arith
≤ℤ_refl (negsuc a) = omega arith

pub ≤ℤ_trans : (a b c : ℤ) → a ≤ℤ b → b ≤ℤ c → a ≤ℤ c
≤ℤ_trans (pos a) (pos b) (pos c) h k = omega arith
≤ℤ_trans (pos a) (pos b) (negsuc c) h k = absurd k
≤ℤ_trans (pos a) (negsuc b) c h k = absurd h
≤ℤ_trans (negsuc a) (pos b) (pos c) h k = tt
≤ℤ_trans (negsuc a) (pos b) (negsuc c) h k = absurd k
≤ℤ_trans (negsuc a) (negsuc b) (pos c) h k = tt
≤ℤ_trans (negsuc a) (negsuc b) (negsuc c) h k = omega arith

pub ≤ℤ_antisym : (a b : ℤ) → a ≤ℤ b → b ≤ℤ a → a ≡ b
≤ℤ_antisym (pos a) (pos b) h k = ap pos (omega arith)
≤ℤ_antisym (pos a) (negsuc b) h k = absurd h
≤ℤ_antisym (negsuc a) (pos b) h k = absurd k
≤ℤ_antisym (negsuc a) (negsuc b) h k = ap negsuc (omega arith)

pub ≤ℤ_of_lt : (a b : ℤ) → lt_int a b ≡ true → (a ≤ℤ b) × (a ≡ b → ⊥)
≤ℤ_of_lt (pos a) (pos b) h = (ground arith, λ e. ground arith)
≤ℤ_of_lt (pos a) (negsuc b) h = absurd (ground arith)
≤ℤ_of_lt (negsuc a) (pos b) h = (tt, λ e. ground arith)
≤ℤ_of_lt (negsuc a) (negsuc b) h = (ground arith, λ e. ground arith)
