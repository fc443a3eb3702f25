-- ===== src/Js/Patterns.antt =====
-- `PATTERN.test(value ?? "")`: the pattern reads `String(value)`. An array with one element prints as
-- that element. The text of any other value that is not a text has a comma, a bracket or a space, or is
-- a short word or a number: the patterns of identifiers, hashes and serial numbers match none of them.
-- A number or a boolean as an idempotency key or as an external reference, whose text can match, is
-- left out: it is refused here.
use tenant_trust.Common.Int.{pos, negsuc}
use tenant_trust.Common.{
  ℕ, String, List, [], ◌∷◌, Bool, false, not, ◌&&◌, ◌||◌, leb, ◌==◌, length, all, codes, str_eq,
  true,
}
use tenant_trust.Js.Data.{
  Value, string, array, nil, cons, object, undefined, null, boolean, number, finite, nan, Num,
  infinite,
}
use tenant_trust.Js.Identifier.{matches_id}

unfoldable pub passes : (String → Bool) → Value → Bool
passes p (string s) = p s
passes p (array (cons v nil)) = passes p v
passes p v = false

unfoldable pub passes_id : String → Value → Bool
unfolding passes matches_id
passes_id prefix v = passes (matches_id prefix) v

abbrev pub is_digit_code : ℕ → Bool
is_digit_code c = leb b'0' c && leb c b'9'

abbrev pub is_small_code : ℕ → Bool
is_small_code c = leb b'a' c && leb c b'z'

abbrev pub is_capital_code : ℕ → Bool
is_capital_code c = leb b'A' c && leb c b'Z'

abbrev sized : ℕ → ℕ → List ℕ → Bool
sized low high cs = leb low (length cs) && leb (length cs) high

-- SHA256: /^[0-9a-f]{64}$/u.
abbrev is_hex_code : ℕ → Bool
is_hex_code c = is_digit_code c || (leb b'a' c && leb c b'f')

unfoldable pub is_sha256 : String → Bool
is_sha256 s = length (codes s) == 64 && all is_hex_code (codes s)

-- SERIAL: /^(?!0{32}$)[0-9A-F]{32}$/u.
unfoldable pub is_serial : String → Bool
is_serial s =
    length (codes s) == 32
    && all (λ c. is_digit_code c || (leb b'A' c && leb c b'F')) (codes s)
    && not (all (λ c. c == b'0') (codes s))

-- IDEMPOTENCY_KEY: /^[a-z0-9][a-z0-9._:/-]{7,159}$/u.
abbrev is_separator : ℕ → Bool
is_separator c = c == b'.' || c == b'_' || c == b':' || c == b'/' || c == b'-'

abbrev starts_key : List ℕ → Bool
starts_key [] = false
starts_key (c ∷ cs) =
    (is_small_code c || is_digit_code c)
    && all (λ d. is_small_code d || is_digit_code d || is_separator d) cs

unfoldable pub is_idempotency_key : String → Bool
is_idempotency_key s = starts_key (codes s) && sized 8 160 (codes s)

-- `left === right` on two values. Two arrays or objects that come from different places, such as a
-- request and a database, are never the same object.
unfoldable pub is_same_text : Value → Value → Bool
is_same_text (string s) (string t) = str_eq s t
is_same_text _ _ = false

-- `value && typeof value === "object" && !Array.isArray(value)`.
unfoldable pub is_object : Value → Bool
is_object (object _ _) = true
is_object _ = false

-- `!value`.
unfoldable pub is_falsy : Value → Bool
is_falsy undefined = true
is_falsy null = true
is_falsy (boolean b) = not b
is_falsy (number (finite (pos n))) = n == 0
is_falsy (number nan) = true
is_falsy (string s) = str_eq s ""
is_falsy _ = false

abbrev pub is_null : Value → Bool
is_null null = true
is_null _ = false

-- `left === right`, with two arrays or objects that come from different places.
abbrev same_number : Num → Num → Bool
same_number (finite (pos m)) (finite (pos n)) = m == n
same_number (finite (negsuc m)) (finite (negsuc n)) = m == n
same_number (infinite true) (infinite true) = true
same_number (infinite false) (infinite false) = true
same_number _ _ = false

unfoldable pub strict_eq : Value → Value → Bool
strict_eq undefined undefined = true
strict_eq null null = true
strict_eq (boolean true) (boolean true) = true
strict_eq (boolean false) (boolean false) = true
strict_eq (number m) (number n) = same_number m n
strict_eq (string s) (string t) = str_eq s t
strict_eq _ _ = false
