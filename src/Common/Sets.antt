-- ===== src/Common/Sets.antt =====
-- Sets of texts as the sources build them, `[...new Set(list)].sort()`: their members and their size.
use tenant_trust.Common.{
  suc, ◌≤◌, ◌≡◌, refl, ◌≢◌, sym, ◌↔◌, inl, inr, String, List, [], ◌∷◌, true, false, arith, length,
  str_eq, str_eq_iff, includes, without, distinct, insert_sorted, sort, Bool-cases, ◌∙◌,
}
use mathlib.Core.List.{Memᴰ}

length-insert_sorted :
    (s : String) (xs : List String) → length (insert_sorted s xs) ≡ suc (length xs)
length-insert_sorted s [] = refl
length-insert_sorted s (x ∷ xs) = ground (arith, length-insert_sorted s xs)

pub length-sort : (xs : List String) → length (sort xs) ≡ length xs
unfolding sort
length-sort [] = refl
length-sort (x ∷ xs) = omega (arith, length-insert_sorted x (sort xs), length-sort xs)

str_ne : (a b : String) → str_eq a b ≡ false → a ≢ b
str_ne a b h e = let same : str_eq a b ≡ true = (str_eq_iff a b).1 e in cc

-- Two members that differ.
abbrev pub Differ : List String → Type 0
Differ xs = (a : String) × (b : String) × Memᴰ a xs × Memᴰ b xs × (a ≢ b)

mem-without : (a b : String) (xs : List String) → Memᴰ b xs → b ≢ a → Memᴰ b (without a xs)
mem-without a b [] m ne = elim m [ ]
mem-without a b (x ∷ xs) (Memᴰ.head e) ne = elim (Bool-cases (str_eq x a)) [
  | inl y ↦ absurd (ne (e ∙ (str_eq_iff x a).0 y))
  | inr n ↦ rw n (Memᴰ.head e)
]
mem-without a b (x ∷ xs) (Memᴰ.tail m) ne = elim (Bool-cases (str_eq x a)) [
  | inl y ↦ rw y (mem-without a b xs m ne)
  | inr n ↦ rw n (Memᴰ.tail (mem-without a b xs m ne))
]

without-mem : (a b : String) (xs : List String) → Memᴰ b (without a xs) → Memᴰ b xs × (b ≢ a)
without-mem a b [] m = elim m [ ]
without-mem a b (x ∷ xs) m = elim (Bool-cases (str_eq x a)) [
  | inl y ↦ let (old, ne) = without-mem a b xs (rw y at m) in (Memᴰ.tail old, ne)
  | inr n ↦ kept (rw n at m) (str_ne x a n) (λ k. without-mem a b xs k)
]
  where
    kept :
        Memᴰ b (x ∷ without a xs)
        → x ≢ a
        → (Memᴰ b (without a xs) → Memᴰ b xs × (b ≢ a))
        → Memᴰ b (x ∷ xs) × (b ≢ a)
    kept (Memᴰ.head e) ne rec = (Memᴰ.head e, λ h. ne (sym e ∙ h))
    kept (Memᴰ.tail k) ne rec = let (old, apart) = rec k in (Memᴰ.tail old, apart)

mem-distinct : (b : String) (xs : List String) → Memᴰ b xs → Memᴰ b (distinct xs)
mem-distinct b [] m = elim m [ ]
mem-distinct b (x ∷ xs) (Memᴰ.head e) = Memᴰ.head e
mem-distinct b (x ∷ xs) (Memᴰ.tail m) = elim (Bool-cases (str_eq b x)) [
  | inl y ↦ Memᴰ.head ((str_eq_iff b x).0 y)
  | inr n ↦ Memᴰ.tail (mem-without x b (distinct xs) (mem-distinct b xs m) (str_ne b x n))
]

distinct-mem : (b : String) (xs : List String) → Memᴰ b (distinct xs) → Memᴰ b xs
distinct-mem b [] m = elim m [ ]
distinct-mem b (x ∷ xs) (Memᴰ.head e) = Memᴰ.head e
distinct-mem b (x ∷ xs) (Memᴰ.tail m) =
    Memᴰ.tail (distinct-mem b xs (without-mem x b (distinct xs) m).0)

mem_pos : {b : String} {xs : List String} → Memᴰ b xs → 1 ≤ length xs
mem_pos (Memᴰ.head e) = omega arith
mem_pos (Memᴰ.tail m) = omega arith

pos_mem : (xs : List String) → 1 ≤ length xs → (b : String) × Memᴰ b xs
pos_mem [] h = absurd (omega arith)
pos_mem (x ∷ xs) h = (x, Memᴰ.head refl)

other-mem : (b : String) (x : String) (xs : List String) → Memᴰ b (x ∷ xs) → b ≢ x → Memᴰ b xs
other-mem b x xs (Memᴰ.head e) ne = absurd (ne e)
other-mem b x xs (Memᴰ.tail m) ne = m

-- A list of texts has two distinct members by count exactly when two of its members differ.
pub two_distinct : (xs : List String) → (2 ≤ length (sort (distinct xs))) ↔ Differ xs
two_distinct xs = rw (length-sort (distinct xs)) (to xs, from xs)
  where
    to : (ys : List String) → 2 ≤ length (distinct ys) → Differ ys
    to [] h = absurd (omega arith)
    to (y ∷ ys) h =
        let (b, m) = pos_mem (without y (distinct ys)) (omega arith) in
        let (old, ne) = without-mem y b (distinct ys) m in
        (b, y, Memᴰ.tail (distinct-mem b ys old), Memᴰ.head refl, ne)

    another :
        (y b : String) (ys : List String) → Memᴰ b (y ∷ ys) → b ≢ y → 2 ≤ length (distinct (y ∷ ys))
    another y b ys m ne = omega (
      arith,
      mem_pos (mem-without y b (distinct ys) (mem-distinct b ys (other-mem b y ys m ne)) ne),
    )

    from : (ys : List String) → Differ ys → 2 ≤ length (distinct ys)
    from [] d = elim d.2 [ ]
    from (y ∷ ys) (a, b, ma, mb, ne) = elim (Bool-cases (str_eq b y)) [
      | inl e ↦ another y a ys ma (λ h. ne (h ∙ sym ((str_eq_iff b y).0 e)))
      | inr n ↦ another y b ys mb (str_ne b y n)
    ]

pub includes_iff : (b : String) (xs : List String) → (includes xs b ≡ true) ↔ Memᴰ b xs
includes_iff b xs = (to xs, from xs)
  where
    to : (ys : List String) → includes ys b ≡ true → Memᴰ b ys
    to [] h = cc
    to (y ∷ ys) h = elim (Bool-cases (str_eq y b)) [
      | inl e ↦ Memᴰ.head (sym ((str_eq_iff y b).0 e))
      | inr n ↦ Memᴰ.tail (to ys (rw n at h))
    ]

    from : (ys : List String) → Memᴰ b ys → includes ys b ≡ true
    from [] m = elim m [ ]
    from (y ∷ ys) (Memᴰ.head e) = rw ((str_eq_iff y b).1 (sym e))
    from (y ∷ ys) (Memᴰ.tail m) = elim (Bool-cases (str_eq y b)) [
      | inl e ↦ rw e
      | inr n ↦ rw n (from ys m)
    ]

includes-insert_sorted :
    (s b : String) (xs : List String) → includes (insert_sorted s xs) b ≡ includes (s ∷ xs) b
includes-insert_sorted s b [] = refl
includes-insert_sorted s b (x ∷ xs) = ground (arith, includes-insert_sorted s b xs)

includes-sort : (b : String) (xs : List String) → includes (sort xs) b ≡ includes xs b
unfolding sort
includes-sort b [] = refl
includes-sort b (x ∷ xs) = rw (includes-insert_sorted x b (sort xs), includes-sort b xs)

-- The sorted list of distinct texts has the members of the list.
pub includes-sort-distinct :
    (b : String) (xs : List String) → (includes (sort (distinct xs)) b ≡ true) ↔ Memᴰ b xs
includes-sort-distinct b xs = rw (includes-sort b (distinct xs)) (
  (λ h. distinct-mem b xs ((includes_iff b (distinct xs)).0 h)),
  (λ m. (includes_iff b (distinct xs)).1 (mem-distinct b xs m)),
)
