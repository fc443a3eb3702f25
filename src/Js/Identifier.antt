-- ===== src/Js/Identifier.antt =====
-- The regular expressions of the identifiers: a prefix, and a UUID of version 1 to 8, as in
-- /^tnt_[0-9a-f]{8}-[0-9a-f]{4}-[1-8][0-9a-f]{3}-[89ab][0-9a-f]{3}-[0-9a-f]{12}$/u.
use tenant_trust.Common.{
  ℕ, zero, suc, String, List, [], ◌∷◌, ◌++◌, Bool, true, false, ◌&&◌, ◌||◌, ◌==◌, leb, codes, All,
  ◌≡◌, ap, arith, both_true, Bool-cases, inl, inr,
}

abbrev CharClass : Type 0
CharClass = ℕ → Bool

abbrev is_hex : CharClass
is_hex c = (leb b'0' c && leb c b'9') || (leb b'a' c && leb c b'f')

abbrev is_version : CharClass
is_version c = leb b'1' c && leb c b'8'

abbrev is_variant : CharClass
is_variant c = c == b'8' || c == b'9' || c == b'a' || c == b'b'

abbrev repeated : ℕ → CharClass → List CharClass
repeated zero p = []
repeated (suc n) p = p ∷ repeated n p

abbrev literal : List ℕ → List CharClass
literal [] = []
literal (k ∷ ks) = (λ c. c == k) ∷ literal ks

abbrev dash : List CharClass
dash = (λ c. c == b'-') ∷ []

abbrev uuid : List CharClass
uuid =
    repeated 8 is_hex
    ++ dash
    ++ repeated 4 is_hex
    ++ dash
    ++ is_version ∷ repeated 3 is_hex
    ++ dash
    ++ is_variant ∷ repeated 3 is_hex
    ++ dash
    ++ repeated 12 is_hex

matches : List CharClass → List ℕ → Bool
matches [] [] = true
matches (p ∷ ps) (c ∷ cs) = p c && matches ps cs
matches _ _ = false

-- `PATTERN.test(value)` for the identifiers that begin with `prefix`.
unfoldable pub matches_id : String → String → Bool
unfolding matches
matches_id prefix s = matches (literal (codes prefix) ++ uuid) (codes s)

-- A character that no class of the pattern accepts is not in a text that matches.
matches-without :
    (ps : List CharClass) (cs : List ℕ) (c : ℕ)
    → All (λ (p : CharClass). p c ≡ false) ps
    → matches ps cs ≡ true
    → All (λ d. (d == c) ≡ false) cs
unfolding matches
matches-without [] [] c r h = tt
matches-without [] (d ∷ ds) c r h = cc
matches-without (p ∷ ps) [] c r h = cc
matches-without (p ∷ ps) (d ∷ ds) c (r, rs) h =
    let (accepts, rest) = both_true (p d) (matches ps ds) h in
    (
      elim (Bool-cases (d == c)) [
        | inl y ↦ let same : d ≡ c = ground arith in absurd (clash p d c accepts r same)
        | inr n ↦ n
      ],
      matches-without ps ds c rs rest,
    )
  where
    clash : (q : CharClass) (a b : ℕ) → q a ≡ true → q b ≡ false → a ≡ b → ⊥
    clash q a b t f e = let both : q a ≡ q b = ap q e in cc

pub matches_id-without_bar :
    (prefix s : String)
    → All (λ (p : CharClass). p b'|' ≡ false) (literal (codes prefix))
    → matches_id prefix s ≡ true
    → All (λ d. (d == b'|') ≡ false) (codes s)
unfolding matches_id
matches_id-without_bar prefix s r h =
    matches-without (literal (codes prefix) ++ uuid) (codes s) b'|'
      (All-append (literal (codes prefix)) uuid r uuid_without_bar) h
  where
    All-append :
        (ps qs : List CharClass)
        → All (λ (p : CharClass). p b'|' ≡ false) ps
        → All (λ (p : CharClass). p b'|' ≡ false) qs
        → All (λ (p : CharClass). p b'|' ≡ false) (ps ++ qs)
    All-append [] qs a b = b
    All-append (p ∷ ps) qs (a, rest) b = (a, All-append ps qs rest b)

    uuid_without_bar : All (λ (p : CharClass). p b'|' ≡ false) uuid
    uuid_without_bar = ground arith
