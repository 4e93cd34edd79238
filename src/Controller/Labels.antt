-- ===== src/Controller/Labels.antt =====
-- sanitizeLabel of internal/controller/modelendpoint_controller.go, over the bytes of the string.
pub mod Laws
use k8s_ai_operator.Base.{
  ℕ, Text, [], ◌∷◌, Bool, ◌&&◌, ◌||◌, leb, ltb, ◌==◌, nat_eq, length, take, if◌then◌else◌,
}

unfoldable pub is_label_byte : ℕ → Bool
is_label_byte c =
    (leb b'a' c && leb c b'z')
    || (leb b'A' c && leb c b'Z')
    || (leb b'0' c && leb c b'9')
    || c == b'-'
    || c == b'_'
    || c == b'.'

-- The loop over the bytes of `s`.
unfoldable pub replace_bytes : Text → Text
replace_bytes [] = []
replace_bytes (c ∷ s) = (if is_label_byte c then c else b'_') ∷ replace_bytes s

unfoldable pub sanitize_label : Text → Text
unfolding replace_bytes
sanitize_label s = let out = replace_bytes s in if ltb 63 (length out) then take 63 out else out
