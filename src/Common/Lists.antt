-- ===== src/Common/Lists.antt =====
-- Lists over the native numbers, sets of texts as lists without repetition, and their order.
use Prim.Native.Nat.{ℕ, suc, ◌+◌}
use Prim.Native.Char.{code}
use Prim.Native.String.{String}
use mathlib.Core.Bool.{Bool, true, false, ◌&&◌, ◌||◌}
use mathlib.Core.List.{List, [], ◌∷◌}
use tenant_trust.Common.Tests.{ltb, ◌==◌, if◌then◌else◌, str_eq, leb}

module _ {ℓ} {A : Type ℓ} where
  abbrev pub length : List A → ℕ
  length [] = 0
  length (_ ∷ xs) = suc (length xs)

  abbrev pub all : (A → Bool) → List A → Bool
  all p [] = true
  all p (x ∷ xs) = p x && all p xs

  abbrev pub any : (A → Bool) → List A → Bool
  any p [] = false
  any p (x ∷ xs) = p x || any p xs

-- A predicate on every element.
abbrev pub All {ℓ κ} : {A : Type ℓ} → (A → Type κ) → List A → Type κ
All P [] = Unit
All P (x ∷ xs) = P x × All P xs

-- `set.has(value)` and `list.includes(value)` on texts.
abbrev pub includes : List String → String → Bool
includes [] s = false
includes (x ∷ xs) s = str_eq x s || includes xs s

-- `[...new Set(list)]`: the first occurrence of each text is kept. The list is read from its end,
-- so an element that is met again is dropped behind its first occurrence.
abbrev pub without : String → List String → List String
without s [] = []
without s (x ∷ xs) = if str_eq x s then without s xs else x ∷ without s xs

abbrev pub distinct : List String → List String
distinct [] = []
distinct (x ∷ xs) = x ∷ without x (distinct xs)

-- The code points of a text.
abbrev pub codes : String → List ℕ
codes String.[] = []
codes (String.◌∷◌ c s) = code c ∷ codes s

-- `value.length` counts the units of UTF-16.
unfoldable pub utf_16_length : List ℕ → ℕ
utf_16_length [] = 0
utf_16_length (c ∷ cs) = (if leb 65_536 c then 2 else 1) + utf_16_length cs

-- The order of `Array.prototype.sort` on texts, by their codes.
abbrev pub codes_lt : List ℕ → List ℕ → Bool
codes_lt _ [] = false
codes_lt [] (_ ∷ _) = true
codes_lt (a ∷ as') (b ∷ bs) = ltb a b || (a == b && codes_lt as' bs)

abbrev pub insert_sorted : String → List String → List String
insert_sorted s [] = s ∷ []
insert_sorted s (x ∷ xs) =
    if codes_lt (codes x) (codes s) then x ∷ insert_sorted s xs else s ∷ x ∷ xs

unfoldable pub sort : List String → List String
sort [] = []
sort (x ∷ xs) = insert_sorted x (sort xs)
