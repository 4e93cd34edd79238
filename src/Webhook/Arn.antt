-- ===== src/Webhook/Arn.antt =====
-- `irsaArnPattern` of internal/webhook/modelendpoint_webhook.go:
-- ^arn:aws[a-z-]*:iam::\d{12}:role/.+$
-- A class of the pattern never holds the byte that follows it, so one scan without backtracking
-- decides a match; `.` is any byte but a line feed.
pub mod Laws
use k8s_ai_operator.Base.{
  ℕ, zero, suc, Text, lit, Bool, false, not, ◌&&◌, ◌||◌, leb, Option, none, some, [], ◌∷◌, all,
  ◌==◌, nat_eq, cut_prefix, if◌then◌else◌,
}

infixl 5 ◌>>=◌
abbrev ◌>>=◌ : {A B : Type 0} → Option A → (A → Option B) → Option B
none >>= k = none
some a >>= k = k a

-- [a-z-]
unfoldable pub is_partition_byte : ℕ → Bool
is_partition_byte c = (leb b'a' c && leb c b'z') || c == b'-'

-- \d
unfoldable pub is_digit : ℕ → Bool
is_digit c = leb b'0' c && leb c b'9'

-- .
unfoldable pub is_dot : ℕ → Bool
is_dot c = not (c == 10)

unfoldable pub drop_while : (ℕ → Bool) → Text → Text
drop_while p [] = []
drop_while p (c ∷ s) = if p c then drop_while p s else c ∷ s

-- `n` bytes of a class
unfoldable pub skip : ℕ → (ℕ → Bool) → Text → Option Text
skip zero p s = some s
skip (suc n) p [] = none
skip (suc n) p (c ∷ s) = if p c then skip n p s else none

-- What `.+$` is matched against.
unfoldable pub role_part : Text → Option Text
unfolding drop_while skip
role_part arn = do
  rest ← cut_prefix (lit "arn:aws") arn
  account ← cut_prefix (lit ":iam::") (drop_while is_partition_byte rest)
  after ← skip 12 is_digit account
  cut_prefix (lit ":role/") after

unfoldable pub is_name : Text → Bool
is_name [] = false
is_name (c ∷ s) = all is_dot (c ∷ s)

-- irsaArnPattern.MatchString
unfoldable pub matches_irsa_arn : Text → Bool
matches_irsa_arn arn = elim (role_part arn) [ none ↦ false | some name ↦ is_name name ]
