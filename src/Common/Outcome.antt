-- ===== src/Common/Outcome.antt =====
-- The outcome of a call that may throw: a value, or the reason code of the error that it throws.
use Prim.Native.Nat.{suc}
use tenant_trust.Common.Lists.{All, length}
use Prim.Native.String.{String}
use mathlib.Core.Path.{◌≡◌, refl, ap}
use mathlib.Core.Bool.{Bool, true, false}
use mathlib.Core.Logic.{◌⊎◌, inl, inr}
use mathlib.Core.Option.{Option, none, some}
use mathlib.Core.List.{List, [], ◌∷◌}

pub data Result {ℓ} (A : Type ℓ) : Type ℓ where
  ok : A → Result A
  err : String → Result A

infixl 5 ◌>>=◌ ◌>>◌
abbrev pub ◌>>=◌ {ℓ κ} : {T : Type ℓ} {U : Type κ} → Result T → (T → Result U) → Result U
err code >>= next = err code
ok value >>= next = next value

abbrev pub ◌>>◌ {ℓ} : {T : Type ℓ} → Result (Unit {0}) → Result T → Result T
first >> second = first >>= λ _. second

-- `if (test) fail(code);`
abbrev pub fail_if : Bool → String → Result (Unit {0})
fail_if true code = err code
fail_if false code = ok tt

abbrev pub guard : Bool → String → Result (Unit {0})
guard true code = ok tt
guard false code = err code

abbrev pub or_fail {ℓ} : {A : Type ℓ} → Option A → String → Result A
or_fail none code = err code
or_fail (some a) code = ok a

-- An error that is caught and thrown again with one code.
abbrev pub with_code {ℓ} : {A : Type ℓ} → Result A → String → Result A
with_code (err _) code = err code
with_code (ok a) code = ok a

pub with_code-eq-ok {ℓ} :
    {A : Type ℓ} (outcome : Result A) (code : String) {a : A}
    → with_code outcome code ≡ ok a
    → outcome ≡ ok a
with_code-eq-ok (err _) code h = cc
with_code-eq-ok (ok a) code h = h

pub >>=-eq-ok {ℓ κ} :
    {T : Type ℓ} {U : Type κ} (outcome : Result T) (next : T → Result U) {u : U}
    → (outcome >>= next) ≡ ok u
    → (t : T) × (outcome ≡ ok t) × (next t ≡ ok u)
>>=-eq-ok (err code) next h = cc
>>=-eq-ok (ok value) next h = (value, refl, h)

pub guard-eq-ok : (b : Bool) (code : String) {u : Unit {0}} → guard b code ≡ ok u → b ≡ true
guard-eq-ok true code h = refl
guard-eq-ok false code h = cc

pub fail_if-eq-ok : (b : Bool) (code : String) {u : Unit {0}} → fail_if b code ≡ ok u → b ≡ false
fail_if-eq-ok false code h = refl
fail_if-eq-ok true code h = cc

pub or_fail-eq-ok {ℓ} :
    {A : Type ℓ} (o : Option A) (code : String) {a : A} → or_fail o code ≡ ok a → o ≡ some a
or_fail-eq-ok (some a) code h = cc
or_fail-eq-ok none code h = cc

pub Result-cases {ℓ} :
    {A : Type ℓ} (r : Result A) → ((a : A) × (r ≡ ok a)) ⊎ ((e : String) × (r ≡ err e))
Result-cases (ok a) = inl (a, refl)
Result-cases (err e) = inr (e, refl)

-- `value.map(callback)` with a callback that may throw.
unfoldable pub map_result {ℓ κ} :
    {A : Type ℓ} {B : Type κ} → (A → Result B) → List A → Result (List B)
map_result f [] = ok []
map_result f (x ∷ xs) = f x >>= λ y. map_result f xs >>= λ ys. ok (y ∷ ys)

-- What holds of every value that the callback returns holds of every element of the result.
pub map_result-All {ℓ κ ι} :
    {A : Type ℓ} {B : Type κ} (P : B → Type ι) (f : A → Result B)
    → ((x : A) (y : B) → f x ≡ ok y → P y)
    → (xs : List A) {ys : List B} → map_result f xs ≡ ok ys
    → All P ys × (length ys ≡ length xs)
unfolding map_result
map_result-All P f each [] {ys = []} h = (tt, refl)
map_result-All P f each [] {ys = y ∷ ys} h = cc
map_result-All P f each (x ∷ xs) {ys} h =
    let (y, first, h1) = >>=-eq-ok (f x) _ h in
    let (rest, others, h2) = >>=-eq-ok (map_result f xs) _ h1 in
    let (all_rest, same) = map_result-All P f each xs others in
    let result : y ∷ rest ≡ ys = cc in rw (← result) ((each x y first, all_rest), ap suc same)
