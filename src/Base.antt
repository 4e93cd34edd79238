-- ===== src/Base.antt =====
-- Names that every other module shares: the libraries' and those of the children below. The program
-- is written in Go: its strings are byte lists (`Text`), its int32 and int64 values integers (`ℤ`).
mod Logic
mod Numbers
mod Lists
mod Texts
mod Ints
mod Results
pub mod Dict
pub mod Floats
pub mod Exec
unfoldable pub use Logic.*
unfoldable pub use Numbers.*
unfoldable pub use Lists.*
unfoldable pub use Texts.*
unfoldable pub use Ints.*
unfoldable pub use Results.*
pub use Prim.Native.Nat.{ℕ, zero, suc, ◌+◌, ◌-◌, ◌*◌, ◌/◌, ◌%◌, ◌^◌, ◌≤◌, ◌<◌}
pub use Prim.Native.String.{String}
pub use mathlib.Core.Path.{◌≡◌, refl, sym, ap, ap₂, ◌∙◌, subst, fun_ext}
pub use mathlib.Core.Logic.{◌≢◌, ◌↔◌, ◌⊎◌, inl, inr}
pub use mathlib.Core.Bool.{Bool, true, false, not, ◌&&◌, ◌||◌, Bool-discrete}
pub use mathlib.Core.Option.{Option, none, some}
pub use mathlib.Core.List.{List, [], ◌∷◌, ◌++◌, map}
pub use native.Mathlib.Omega.{arith}
unfoldable pub use native.Mathlib.Decide.{dec_lt, ℕ_discrete}
