-- ===== src/Prelude/Result.antt =====
-- Go's `(value, error)` results: a value, or an error.
use mathlib.Core.Path.{◌≡◌, refl}
use mathlib.Core.Logic.{◌⊎◌, inl, inr}

pub data Result {ℓ κ} (E : Type ℓ) (A : Type κ) : Type (ℓ ⊔ κ) where
  ok : A → Result E A
  err : E → Result E A

abbrev pub ◌>>=◌ {ℓ κ μ} :
    {E : Type ℓ} {A : Type κ} {B : Type μ} (m : Result E A) (next : A → Result E B) → Result E B
err problem >>= next = err problem
ok value >>= next = next value

infixl 5 ◌>>=◌
-- A chain that succeeds went on from a value.
pub >>=-eq-ok {ℓ κ μ} :
    {E : Type ℓ} {A : Type κ} {B : Type μ} (result : Result E A) (next : A → Result E B) {last : B}
    → (result >>= next) ≡ ok last
    → (value : A) × (result ≡ ok value) × (next value ≡ ok last)
>>=-eq-ok (err problem) next {last} same = cc
>>=-eq-ok (ok value) next {last} same = (value, refl, same)

pub ok_inj {ℓ κ} : {E : Type ℓ} {A : Type κ} {a b : A} → ◌≡◌ {A = Result E A} (ok a) (ok b) → a ≡ b
ok_inj h = cc

pub Result-cases {ℓ κ} :
    {E : Type ℓ} {A : Type κ} (m : Result E A) → ((a : A) × (m ≡ ok a)) ⊎ ((e : E) × (m ≡ err e))
Result-cases (ok a) = inl (a, refl)
Result-cases (err e) = inr (e, refl)
