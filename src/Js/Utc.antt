-- ===== src/Js/Utc.antt =====
-- The instants that `canonicalUtc` accepts: texts that end in Z and that `Date` prints as they are
-- read. For the years 0000 to 9999 these are YYYY-MM-DDTHH:MM:SS.mmmZ at a day and a time that
-- exist. An instant is its number of milliseconds since the start of the year 0000: the sources
-- compare instants and subtract them. The longer texts of other years are left out.
use tenant_trust.Common.{
  ℕ, zero, suc, ◌≡◌, refl, ◌+◌, ◌-◌, ◌*◌, ◌/◌, ◌%◌, List, [], ◌∷◌, Bool, not, ◌&&◌, ◌||◌, Option,
  none, some, ◌==◌, leb, if◌then◌else◌, codes,
}
use tenant_trust.Js.Data.{Value, string}

abbrev is_digit : ℕ → Bool
is_digit c = leb b'0' c && leb c b'9'

abbrev is_leap : ℕ → Bool
is_leap y = y % 4 == 0 && (not (y % 100 == 0) || y % 400 == 0)

abbrev month_days : ℕ → ℕ → ℕ
month_days y m =
    if m == 2
    then if is_leap y then 29 else 28
    else if m == 4 || m == 6 || m == 9 || m == 11
    then 30
    else 31

-- The days of the year `y` before the month that has `k` months before it.
days_before : ℕ → ℕ → ℕ
days_before y zero = 0
days_before y (suc k) = days_before y k + month_days y (k + 1)

-- The days from the start of the year 0000 to that of the year `y`.
abbrev days_to_year : ℕ → ℕ
days_to_year y = 365 * y + (y + 3) / 4 - (y + 99) / 100 + (y + 399) / 400

abbrev instant : ℕ → ℕ → ℕ → ℕ → ℕ → ℕ → ℕ → Option ℕ
instant y mo d h mi s ms =
    if leb 1 mo
      && leb mo 12
      && leb 1 d
      && leb d (month_days y mo)
      && leb h 23
      && leb mi 59
      && leb s 59
    then some (
        ((days_to_year y + days_before y (mo - 1) + (d - 1)) * 86_400_000 + h * 3_600_000)
        + mi * 60_000
        + s * 1_000
        + ms)
    else none

infixl 5 ◌>>=◌
abbrev ◌>>=◌ : {A B : Type 0} → Option A → (A → Option B) → Option B
none >>= f = none
some a >>= f = f a

-- A field of `n` digits, with the text that follows it, and a fixed separator.
abbrev digits : ℕ → ℕ → List ℕ → Option (ℕ × List ℕ)
digits zero acc cs = some (acc, cs)
digits (suc n) acc [] = none
digits (suc n) acc (c ∷ cs) = if is_digit c then digits n (acc * 10 + (c - b'0')) cs else none

abbrev skip : ℕ → List ℕ → Option (List ℕ)
skip k [] = none
skip k (c ∷ cs) = if c == k then some cs else none

abbrev at_end : List ℕ → Option (Unit {0})
at_end [] = some tt
at_end (_ ∷ _) = none

unfoldable pub parse_utc : List ℕ → Option ℕ
unfolding days_before
parse_utc cs = do
  (y, cs) ← digits 4 0 cs
  cs ← skip b'-' cs
  (mo, cs) ← digits 2 0 cs
  cs ← skip b'-' cs
  (d, cs) ← digits 2 0 cs
  cs ← skip b'T' cs
  (h, cs) ← digits 2 0 cs
  cs ← skip b':' cs
  (mi, cs) ← digits 2 0 cs
  cs ← skip b':' cs
  (s, cs) ← digits 2 0 cs
  cs ← skip b'.' cs
  (ms, cs) ← digits 3 0 cs
  cs ← skip b'Z' cs
  at_end cs >>= λ _. instant y mo d h mi s ms

-- `canonicalUtc(value)`, with `Date.parse(value)`.
unfoldable pub canonical_utc : Value → Option ℕ
unfolding parse_utc
canonical_utc (string s) = parse_utc (codes s)
canonical_utc _ = none

-- 4 July 2026 is day 740166 of the count (the year 1970 begins on day 719528).
one_instant :
    canonical_utc (string "2026-07-04T00:00:01.250Z") ≡ some (86_400_000 * 740_166 + 1_250)
unfolding canonical_utc
one_instant = refl

no_such_day : canonical_utc (string "2026-02-29T00:00:00.000Z") ≡ none
unfolding canonical_utc
no_such_day = refl
