-- ===== src/Orchestrator/Invalidation/Text.antt =====
-- The texts of keys and values in Redis, as lists of character codes.
use tenant_trust.Common.{
  ℕ, ◌+◌, ◌/◌, ◌%◌, ◌≡◌, refl, ◌↔◌, List, [], ◌∷◌, ◌++◌, Bool, true, false, ◌&&◌, ◌||◌, ltb, leb,
  ◌==◌, if◌then◌else◌, Option, none, some, ◌-◌, arith, All,
}

abbrev pub Text : Type 0
Text = List ℕ

unfoldable pub text_eq : Text → Text → Bool
text_eq [] [] = true
text_eq (c ∷ cs) (d ∷ ds) = c == d && text_eq cs ds
text_eq _ _ = false

pub text_eq_iff : (s t : Text) → (text_eq s t ≡ true) ↔ (s ≡ t)
unfolding text_eq
text_eq_iff [] [] = ((λ _. refl), (λ _. refl))
text_eq_iff [] (d ∷ ds) = ((λ h. cc), (λ h. cc))
text_eq_iff (c ∷ cs) [] = ((λ h. cc), (λ h. cc))
text_eq_iff (c ∷ cs) (d ∷ ds) = grind (arith, text_eq_iff cs ds)

-- `string.sub(key, 1, string.len(prefix)) == prefix`.
unfoldable pub starts_with : Text → Text → Bool
starts_with [] cs = true
starts_with (p ∷ ps) [] = false
starts_with (p ∷ ps) (c ∷ cs) = p == c && starts_with ps cs

pub starts_with-append : (prefix rest : Text) → starts_with prefix (prefix ++ rest) ≡ true
unfolding starts_with
starts_with-append [] rest = refl
starts_with-append (p ∷ ps) rest = grind (arith, starts_with-append ps rest)

-- The texts before and after the first bar.
unfoldable pub split_bar : Text → Option (Text × Text)
split_bar [] = none
split_bar (c ∷ cs) =
    if c == b'|'
    then some ([], cs)
    else elim (split_bar cs) [ none ↦ none | some (before, after) ↦ some (c ∷ before, after) ]

abbrev pub HasNoBar : Text → Type 0
HasNoBar cs = All (λ c. (c == b'|') ≡ false) cs

pub split_bar-append : (s t : Text) → HasNoBar s → split_bar (s ++ b'|' ∷ t) ≡ some (s, t)
unfolding split_bar
split_bar-append [] t h = refl
split_bar-append (c ∷ cs) t h = rw (h.0, split_bar-append cs t h.1) refl

-- `encodeURIComponent`: the bytes of UTF-8, except for the characters that it keeps.
abbrev is_unreserved : ℕ → Bool
is_unreserved c =
    (leb b'a' c && leb c b'z')
    || (leb b'A' c && leb c b'Z')
    || (leb b'0' c && leb c b'9')
    || c == b'-'
    || c == b'_'
    || c == b'.'
    || c == b'!'
    || c == b'~'
    || c == b'*'
    || c == 39
    || c == b'('
    || c == b')'

abbrev hex_digit : ℕ → ℕ
hex_digit n = if ltb n 10 then b'0' + n else b'A' + n - 10

abbrev percent : ℕ → Text
percent byte = b'%' ∷ hex_digit (byte / 16) ∷ hex_digit (byte % 16) ∷ []

abbrev utf_8 : ℕ → List ℕ
utf_8 c =
    if ltb c 128
    then c ∷ []
    else if ltb c 2_048
    then (192 + c / 64) ∷ (128 + c % 64) ∷ []
    else if ltb c 65_536
    then (224 + c / 4_096) ∷ (128 + c / 64 % 64) ∷ (128 + c % 64) ∷ []
    else (240 + c / 262_144) ∷ (128 + c / 4_096 % 64) ∷ (128 + c / 64 % 64) ∷ (128 + c % 64) ∷ []

abbrev percents : List ℕ → Text
percents [] = []
percents (b ∷ bs) = percent b ++ percents bs

unfoldable pub encode_component : Text → Text
encode_component [] = []
encode_component (c ∷ cs) =
    let rest = encode_component cs in
    if is_unreserved c then c ∷ rest else percents (utf_8 c) ++ rest
