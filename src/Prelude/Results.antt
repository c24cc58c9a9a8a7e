-- ===== src/Prelude/Results.antt =====
-- Fallible code: `Result<A, E>` and the `?` operator.
use mathlib.Core.Path.{◌≡◌, refl}
use mathlib.Core.Logic.{◌⊎◌, inl, inr}

pub data Result {ℓ κ} (E : Type ℓ) (A : Type κ) : Type (ℓ ⊔ κ) where
  err : (failure : E) → Result E A
  ok : (value : A) → Result E A

-- `r?` with what follows it
infixl 5 ◌>>=◌
abbrev pub ◌>>=◌ {ℓ} : {E A B : Type ℓ} (r : Result E A) (rest : A → Result E B) → Result E B
◌>>=◌ (err failure) rest = err failure
◌>>=◌ (ok value) rest = rest value

-- What is known when `r?` went on and the rest was well.
pub >>=-eq-ok {ℓ} :
    {E A B : Type ℓ} (r : Result E A) (rest : A → Result E B) {last : B}
    → (r >>= rest) ≡ ok last
    → (first : A) × (r ≡ ok first) × (rest first ≡ ok last)
>>=-eq-ok (err failure) rest e = cc
>>=-eq-ok (ok value) rest e = (value, refl, e)

pub Result-cases {ℓ κ} :
    {E : Type ℓ} {A : Type κ} (r : Result E A) → ((a : A) × (r ≡ ok a)) ⊎ ((e : E) × (r ≡ err e))
Result-cases (ok a) = inl (a, refl)
Result-cases (err e) = inr (e, refl)
