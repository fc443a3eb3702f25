-- ===== src/Orchestrator/Kinds.antt =====
-- services/orchestrator/src/index.mjs: the set of the kinds of severe evidence. A kind is a text, or an
-- array that prints as one; `===` tells two arrays of different entries apart.
use tenant_trust.Common.{
  suc, ◌≤◌, ◌≡◌, refl, sym, ap, ◌∙◌, ◌⊎◌, ◌↔◌, inl, inr, String, List, [], ◌∷◌, Bool, true, false,
  ◌||◌, arith, length, codes, codes_lt, if◌then◌else◌, Bool-cases, str_eq_iff, subst, str_eq_refl,
}
use mathlib.Core.List.{Memᴰ}
use tenant_trust.Js.{Value, string, array, cons, nil, is_same_text}

-- `list.includes(value)`.
unfoldable pub includes_value : List Value → Value → Bool
includes_value [] v = false
includes_value (x ∷ xs) v = is_same_text x v || includes_value xs v

-- `[...new Set(list)]`.
unfoldable pub drop_same : Value → List Value → List Value
drop_same v [] = []
drop_same v (x ∷ xs) = let rest = drop_same v xs in if is_same_text v x then rest else x ∷ rest

unfoldable pub distinct_values : List Value → List Value
unfolding drop_same
distinct_values [] = []
distinct_values (x ∷ xs) = x ∷ drop_same x (distinct_values xs)

-- `list.sort()`, by the texts that the values print as.
abbrev printed : Value → String
printed (string s) = s
printed (array (cons v nil)) = printed v
printed _ = ""

unfoldable pub insert_value : Value → List Value → List Value
insert_value v [] = v ∷ []
insert_value v (x ∷ xs) =
    let rest = insert_value v xs in
    if codes_lt (codes (printed x)) (codes (printed v)) then x ∷ rest else v ∷ x ∷ xs

unfoldable pub sort_values : List Value → List Value
unfolding insert_value
sort_values [] = []
sort_values (x ∷ xs) = insert_value x (sort_values xs)

-- A list with a value that is not the same text as the given one.
abbrev pub HasOther : Value → List Value → Type 0
HasOther v [] = ⊥
HasOther v (x ∷ xs) = (is_same_text v x ≡ false) ⊎ HasOther v xs

-- A list with two elements that are not the same text.
abbrev pub HasTwo : List Value → Type 0
HasTwo [] = ⊥
HasTwo (x ∷ xs) = HasOther x xs ⊎ HasTwo xs

pub is_same_text-eq :
    (x y : Value) → is_same_text x y ≡ true → (s : String) × (x ≡ string s) × (y ≡ string s)
unfolding is_same_text
is_same_text-eq (string s) (string t) h = (s, refl, ap string (sym ((str_eq_iff s t).0 h)))
is_same_text-eq _ _ h = cc

is_same_text_self : (s : String) → is_same_text (string s) (string s) ≡ true
unfolding is_same_text
is_same_text_self s = str_eq_refl s

is_same_text_sym : (u w : Value) → is_same_text u w ≡ true → is_same_text w u ≡ true
is_same_text_sym u w h =
    let (s, e, f) = is_same_text-eq u w h in
    ap (λ q. is_same_text q u) (f ∙ sym e) ∙ (ap (λ q. is_same_text u q) (e ∙ sym f) ∙ h)

same_as : (x y v : Value) → is_same_text x y ≡ true → is_same_text x v ≡ is_same_text y v
same_as x y v h = let (s, e, f) = is_same_text-eq x y h in ap (λ u. is_same_text u v) (e ∙ sym f)

length-insert_value : (v : Value) (xs : List Value) → length (insert_value v xs) ≡ suc (length xs)
unfolding insert_value
length-insert_value v [] = refl
length-insert_value v (x ∷ xs) = ground (arith, length-insert_value v xs)

pub length-sort_values : (xs : List Value) → length (sort_values xs) ≡ length xs
unfolding sort_values
length-sort_values [] = refl
length-sort_values (x ∷ xs) =
    length-insert_value x (sort_values xs) ∙ ap suc (length-sort_values xs)

includes_value-insert_value :
    (y : Value) (xs : List Value) (v : Value)
    → includes_value (insert_value y xs) v ≡ (is_same_text y v || includes_value xs v)
unfolding includes_value insert_value
includes_value-insert_value y [] v = refl
includes_value-insert_value y (x ∷ xs) v = ground (arith, includes_value-insert_value y xs v)

includes_value-sort_values :
    (xs : List Value) (v : Value) → includes_value (sort_values xs) v ≡ includes_value xs v
unfolding includes_value sort_values
includes_value-sort_values [] v = refl
includes_value-sort_values (x ∷ xs) v =
    includes_value-insert_value x (sort_values xs) v
    ∙ ap (λ b. is_same_text x v || b) (includes_value-sort_values xs v)

includes_value-drop_same :
    (x : Value) (xs : List Value) (v : Value)
    → (is_same_text x v || includes_value (drop_same x xs) v)
      ≡ (is_same_text x v || includes_value xs v)
unfolding includes_value drop_same
includes_value-drop_same x [] v = refl
includes_value-drop_same x (y ∷ ys) v = elim (Bool-cases (is_same_text x y)) [
  | inl same ↦
      let again = includes_value-drop_same x ys v in let alike = same_as x y v same in ground arith
  | inr other ↦ let again = includes_value-drop_same x ys v in ground arith
]

includes_value-distinct_values :
    (xs : List Value) (v : Value) → includes_value (distinct_values xs) v ≡ includes_value xs v
unfolding includes_value distinct_values
includes_value-distinct_values [] v = refl
includes_value-distinct_values (x ∷ xs) v =
    includes_value-drop_same x (distinct_values xs) v
    ∙ ap (λ b. is_same_text x v || b) (includes_value-distinct_values xs v)

-- The kinds of a summary hold what the entries hold.
pub includes_value-kinds :
    (xs : List Value) (v : Value)
    → includes_value (sort_values (distinct_values xs)) v ≡ includes_value xs v
includes_value-kinds xs v =
    includes_value-sort_values (distinct_values xs) v ∙ includes_value-distinct_values xs v

HasOther-same :
    (x y : Value) (xs : List Value) → is_same_text x y ≡ true → HasOther x xs → HasOther y xs
HasOther-same x y [] h p = absurd p
HasOther-same x y (z ∷ zs) h (inl other) = inl (sym (same_as x y z h) ∙ other)
HasOther-same x y (z ∷ zs) h (inr rest) = inr (HasOther-same x y zs h rest)

drop_same-HasOther :
    (x y : Value) (xs : List Value)
    → is_same_text y x ≡ true
    → HasOther x (drop_same y xs) ↔ HasOther x xs
unfolding drop_same
drop_same-HasOther x y [] h = ((λ p. p), (λ p. p))
drop_same-HasOther x y (z ∷ zs) h =
    let again = drop_same-HasOther x y zs h in let alike = same_as y x z h in ground arith

distinct_values-HasOther :
    (x : Value) (xs : List Value) → HasOther x (distinct_values xs) ↔ HasOther x xs
unfolding distinct_values
distinct_values-HasOther x [] = ((λ p. p), (λ p. p))
distinct_values-HasOther x (y ∷ ys) = elim (Bool-cases (is_same_text x y)) [
  | inl same ↦
      let again = distinct_values-HasOther x ys in
      let dropped = drop_same-HasOther x y (distinct_values ys) (is_same_text_sym x y same) in
      ground arith
  | inr other ↦ ((λ p. inl other), (λ p. inl other))
]

length-drop_same : (x : Value) (xs : List Value) → (1 ≤ length (drop_same x xs)) ↔ HasOther x xs
unfolding drop_same
length-drop_same x [] = ((λ p. absurd (omega arith)), (λ p. absurd p))
length-drop_same x (y ∷ ys) = let again = length-drop_same x ys in ground arith

HasTwo-HasOther : (x : Value) (xs : List Value) → HasTwo xs → HasOther x xs
HasTwo-HasOther x [] h = absurd h
HasTwo-HasOther x (y ∷ ys) h = elim (Bool-cases (is_same_text x y)) [
  | inr other ↦ inl other
  | inl same ↦ inr (further h (is_same_text_sym x y same) (λ k. HasTwo-HasOther x ys k))
]
  where
    further :
        HasOther y ys ⊎ HasTwo ys
        → is_same_text y x ≡ true
        → (HasTwo ys → HasOther x ys)
        → HasOther x ys
    further (inl p) same later = HasOther-same y x ys same p
    further (inr k) same later = later k

two_distinct_values : (xs : List Value) → (2 ≤ length (distinct_values xs)) ↔ HasTwo xs
unfolding distinct_values
two_distinct_values [] = ((λ p. absurd (omega (arith, p))), (λ p. absurd p))
two_distinct_values (x ∷ xs) = (found, left)
  where
    found : 2 ≤ suc (length (drop_same x (distinct_values xs))) → HasOther x xs ⊎ HasTwo xs
    found p = inl (
        (distinct_values-HasOther x xs).0
          ((length-drop_same x (distinct_values xs)).0 (omega (arith, p))))

    kept : HasOther x xs → 2 ≤ suc (length (drop_same x (distinct_values xs)))
    kept q =
        let one =
          (length-drop_same x (distinct_values xs)).1 ((distinct_values-HasOther x xs).1 q) in
        omega (arith, one)

    left : HasOther x xs ⊎ HasTwo xs → 2 ≤ suc (length (drop_same x (distinct_values xs)))
    left (inl q) = kept q
    left (inr t) = kept (HasTwo-HasOther x xs t)

-- Two elements are left exactly when two are not the same text.
pub two_kinds : (xs : List Value) → (2 ≤ length (sort_values (distinct_values xs))) ↔ HasTwo xs
two_kinds xs =
    subst (λ n. (2 ≤ n) ↔ HasTwo xs) (sym (length-sort_values (distinct_values xs)))
      (two_distinct_values xs)

includes_value-Mem :
    (xs : List Value) (v : Value)
    → includes_value xs v ≡ true
    → (s : String) × (v ≡ string s) × Memᴰ v xs
unfolding includes_value
includes_value-Mem [] v h = cc
includes_value-Mem (x ∷ xs) v h = elim (Bool-cases (is_same_text x v)) [
  | inl same ↦ let (s, e, f) = is_same_text-eq x v same in (s, f, Memᴰ.head (f ∙ sym e))
  | inr other ↦ let (s, e, m) = includes_value-Mem xs v (rw other at h) in (s, e, Memᴰ.tail m)
]

Mem-includes_value :
    (xs : List Value) (v : Value) (s : String)
    → v ≡ string s
    → Memᴰ v xs
    → includes_value xs v ≡ true
unfolding includes_value
Mem-includes_value [] v s e m = elim m [ ]
Mem-includes_value (x ∷ xs) v s e (Memᴰ.head f) =
    let same : is_same_text x v ≡ true =
      ap (λ u. is_same_text u v) (sym f ∙ e)
      ∙ (ap (λ u. is_same_text (string s) u) e ∙ is_same_text_self s) in
    ground arith
Mem-includes_value (x ∷ xs) v s e (Memᴰ.tail m) =
    let later = Mem-includes_value xs v s e m in ground arith

-- A list includes exactly its texts.
pub includes_value_iff :
    (xs : List Value) (v : Value)
    → (includes_value xs v ≡ true) ↔ ((s : String) × (v ≡ string s) × Memᴰ v xs)
includes_value_iff xs v = (includes_value-Mem xs v, (λ (s, e, m). Mem-includes_value xs v s e m))
