-- ===== src/Js/Checks.antt =====
-- The tests on dynamic values that the sources repeat (isPlainObject, hasExactKeys, validScore).
use tenant_trust.Common.{
  ℕ, ◌/◌, ◌%◌, ◌^◌, String, List, [], ◌∷◌, Option, none, some, Bool, true, false, ◌&&◌,
  if◌then◌else◌, str_eq, length, all, includes, ◌==◌, leb, ltb,
}
use tenant_trust.Common.Int.{pos}
use tenant_trust.Js.Data.{
  finite, Value, undefined, null, boolean, number, string, array, object, Items, nil, cons, Fields,
  end, field, one, points,
}

-- `value.key` on an object, and `Object.keys(value)`.
unfoldable pub get_field : Fields → String → Value
get_field end k = undefined
get_field (field j v r) k = if str_eq j k then v else get_field r k

unfoldable pub get : Value → String → Value
unfolding get_field
get (object _ fs) k = get_field fs k
get _ k = undefined

unfoldable pub field_keys : Fields → List String
field_keys end = []
field_keys (field k _ r) = k ∷ field_keys r

unfoldable pub keys : Value → List String
unfolding field_keys
keys (object _ fs) = field_keys fs
keys _ = []

abbrev pub elements : Items → List Value
elements nil = []
elements (cons v r) = v ∷ elements r

abbrev pub array_of : List Value → Items
array_of [] = nil
array_of (v ∷ r) = cons v (array_of r)

-- `Array.isArray(value)`, with the elements.
abbrev pub as_array : Value → Option (List Value)
as_array (array xs) = some (elements xs)
as_array _ = none

abbrev pub as_text : Value → Option String
as_text (string s) = some s
as_text _ = none

abbrev pub as_boolean : Value → Option Bool
as_boolean (boolean b) = some b
as_boolean _ = none

abbrev pub is_nullish : Value → Bool
is_nullish undefined = true
is_nullish null = true
is_nullish _ = false

unfoldable pub is_plain_object : Value → Bool
is_plain_object (object plain _) = plain
is_plain_object _ = false

-- `hasExactKeys(value, expectedKeys)` and `hasOnlyKeys(value, allowedKeys)`.
unfoldable pub has_exact_keys : Value → List String → Bool
unfolding is_plain_object keys
has_exact_keys v expected =
    is_plain_object v && length (keys v) == length expected && all (includes expected) (keys v)

unfoldable pub has_only_keys : Value → List String → Bool
unfolding is_plain_object keys
has_only_keys v allowed = is_plain_object v && all (includes allowed) (keys v)

-- A finite number between two bounds, with its value; none of the sources accepts a number below 0.
abbrev pub number_in : ℕ → ℕ → Value → Option ℕ
number_in low high (number (finite (pos n))) = if leb low n && leb n high then some n else none
number_in low high _ = none

-- `validScore(value)`: a finite number from 0 to 100.
unfoldable pub valid_score : Value → Option ℕ
valid_score = number_in 0 (points 100)

-- `Number.isSafeInteger(value)`, for a number from 0 up, with the integer.
unfoldable pub safe_integer : Value → Option ℕ
safe_integer (number (finite (pos n))) =
    if n % one == 0 && ltb (n / one) (2 ^ 53) then some (n / one) else none
safe_integer _ = none

-- The member of an enumeration that a text names: `SET.has(value)`, with the member.
unfoldable pub member_named {ℓ} : {A : Type ℓ} → List (String × A) → String → Option A
member_named [] s = none
member_named ((name, a) ∷ r) s = if str_eq name s then some a else member_named r s

-- `TABLE[value]`: an array of one element prints as that element. The text of any other value is no name
-- of a table here.
unfoldable pub indexed {ℓ} : {A : Type ℓ} → List (String × A) → Value → Option A
unfolding member_named
indexed table (string s) = member_named table s
indexed table (array (cons v nil)) = indexed table v
indexed table _ = none

unfoldable pub member {ℓ} : {A : Type ℓ} → List (String × A) → Value → Option A
unfolding member_named
member table (string s) = member_named table s
member table _ = none
