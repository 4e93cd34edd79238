-- ===== src/Proxy/Path.antt =====
-- parsePathSegments of internal/proxy/handler.go, with the functions of Go's strings that it calls.
pub mod Laws
use k8s_ai_operator.Base.{
  ℕ, Text, lit, ◌||◌, Option, none, some, List, [], ◌∷◌, cut_prefix, ◌==◌, nat_eq, text_eq,
  if◌then◌else◌,
}
use mathlib.Core.Option

-- strings.TrimPrefix
unfoldable pub trim_prefix : Text → Text → Text
trim_prefix s prefix = elim (cut_prefix prefix s) [ none ↦ s | some rest ↦ rest ]

-- The parts before and after the first separator.
unfoldable pub cut_at : ℕ → Text → Option (Text × Text)
cut_at sep [] = none
cut_at sep (c ∷ s) =
    if c == sep then some ([], s) else Option.map (λ (a, b). (c ∷ a, b)) (cut_at sep s)

-- strings.SplitN(s, "/", 2)
unfoldable pub split_two : Text → List Text
split_two s = elim (cut_at b'/' s) [ none ↦ s ∷ [] | some (a, b) ↦ a ∷ b ∷ [] ]

unfoldable pub segments : List Text → Option (Text × Text)
segments (a ∷ b ∷ []) = if a == [] || b == [] then none else some (a, b)
segments _ = none

unfoldable pub parse_path_segments : Text → Text → Option (Text × Text)
unfolding split_two segments
parse_path_segments path prefix = segments (split_two (trim_prefix path prefix))
