-- ===== src/Trust/Model/Version.antt =====
-- MODEL_VERSION of packages/trust-model/src/index.mjs:
-- /^(0|[1-9][0-9]*)\.(0|[1-9][0-9]*)\.(0|[1-9][0-9]*)$/u.
use tenant_trust.Common.{
  ℕ, String, List, [], ◌∷◌, Option, none, some, Bool, true, false, ◌&&◌, ◌==◌, leb, if◌then◌else◌,
  codes,
}

abbrev is_digit : ℕ → Bool
is_digit c = leb b'0' c && leb c b'9'

-- What follows the digits at the front.
after_digits : List ℕ → List ℕ
after_digits [] = []
after_digits (c ∷ cs) = if is_digit c then after_digits cs else c ∷ cs

-- What follows (0|[1-9][0-9]*). A text goes on with a dot or ends there, so the longest number is the
-- one that can match.
after_number : List ℕ → Option (List ℕ)
unfolding after_digits
after_number [] = none
after_number (c ∷ cs) =
    if c == b'0' then some cs else if is_digit c then some (after_digits cs) else none

after_dot : Option (List ℕ) → Option (List ℕ)
unfolding after_number
after_dot none = none
after_dot (some []) = none
after_dot (some (c ∷ cs)) = if c == b'.' then after_number cs else none

abbrev ends : Option (List ℕ) → Bool
ends (some []) = true
ends _ = false

unfoldable pub is_model_version : String → Bool
unfolding after_dot
is_model_version s = ends (after_dot (after_dot (after_number (codes s))))
