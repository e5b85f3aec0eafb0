-- ===== src/Base/Results.antt =====
-- Results of fallible operations that have their own type of errors.
use mathlib.Core.Path.{◌≡◌, refl}
use mathlib.Core.Bool.{Bool, true, false}
use mathlib.Core.Logic.{◌⊎◌, inl, inr}

pub data Result {ℓ} (E : Type 0) (A : Type ℓ) : Type ℓ where
  ok : A → Result E A
  err : E → Result E A

-- An error is passed on; a value goes to what follows.
infixl 5 ◌>>=◌ ◌>>◌
abbrev pub ◌>>=◌ {ℓ κ} :
    {A : Type ℓ} {E : Type 0} {C : Type κ} → Result E A → (A → Result E C) → Result E C
err x >>= next = err x
ok value >>= next = next value

abbrev pub ◌>>◌ {ℓ κ} :
    {A : Type ℓ} {E : Type 0} {C : Type κ} → Result E A → Result E C → Result E C
first >> next = first >>= (λ ignored. next)

pub Result-cases {ℓ} :
    {E : Type 0} {A : Type ℓ} (r : Result E A) → ((a : A) × (r ≡ ok a)) ⊎ ((e : E) × (r ≡ err e))
Result-cases (ok a) = inl (a, refl)
Result-cases (err e) = inr (e, refl)

-- A chain that succeeds has a value at its first link, from which the rest succeeds.
pub >>=-eq-ok {ℓ κ} :
    {A : Type ℓ} {E : Type 0} {C : Type κ} (first : Result E A) (next : A → Result E C) {c : C}
    → (first >>= next) ≡ ok c
    → (value : A) × ((first ≡ ok value) × (next value ≡ ok c))
>>=-eq-ok (err x) next won = cc
>>=-eq-ok (ok value) next won = (value, (refl, won))

-- An early return with an error.
abbrev pub guard : {E : Type 0} → Bool → E → Result E (Unit {0})
guard false x = err x
guard true _ = ok tt

abbrev pub is_ok {ℓ} : {E : Type 0} {A : Type ℓ} → Result E A → Bool
is_ok (ok a) = true
is_ok (err e) = false

pub is_ok-eq {ℓ} :
    {E : Type 0} {A : Type ℓ} (r : Result E A) → is_ok r ≡ true → (a : A) × (r ≡ ok a)
is_ok-eq (ok a) h = (a, refl)
is_ok-eq (err e) h = cc

-- A pair from its two parts.
pub pair_eq {ℓ κ} :
    {A : Type ℓ} {B : Type κ} (p : A × B) {a : A} {b : B} → p.0 ≡ a → p.1 ≡ b → p ≡ (a, b)
pair_eq p e f = λ i. (e i, f i)
