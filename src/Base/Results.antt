-- ===== src/Base/Results.antt =====
-- Go's (value, error) pairs: an error type of the component's own, or a value.
use mathlib.Core.Path.{◌≡◌, refl}
use mathlib.Core.Logic.{◌⊎◌, inl, inr}

pub data Result {ℓ κ} (E : Type ℓ) (A : Type κ) : Type (ℓ ⊔ κ) where
  ok : A → Result E A
  err : E → Result E A

module _ {ℓ} {E : Type ℓ} where
  infixl 5 ◌>>=◌ ◌>>◌
  abbrev pub ◌>>=◌ {κ ν} : {A : Type κ} {B : Type ν} → Result E A → (A → Result E B) → Result E B
  ok a >>= f = f a
  err e >>= f = err e

  abbrev pub ◌>>◌ {κ} : {B : Type κ} → Result E (Unit {0}) → Result E B → Result E B
  m >> k = m >>= λ _. k

  pub Result-cases {κ} :
      {A : Type κ} (r : Result E A) → ((a : A) × (r ≡ ok a)) ⊎ ((e : E) × (r ≡ err e))
  Result-cases (ok a) = inl (a, refl)
  Result-cases (err e) = inr (e, refl)

  pub >>=-eq-ok {κ ν} :
      {A : Type κ} {B : Type ν} (first : Result E A) (next : A → Result E B) {last : B}
      → (first >>= next) ≡ ok last
      → (value : A) × (first ≡ ok value) × (next value ≡ ok last)
  >>=-eq-ok (ok value) next given = (value, refl, given)
  >>=-eq-ok (err failure) next given = cc

-- `fmt.Errorf("…: %w", err)`
abbrev pub map_err {ℓ κ ν} :
    {E : Type ℓ} {F : Type κ} {A : Type ν} → (E → F) → Result E A → Result F A
map_err f (ok a) = ok a
map_err f (err e) = err (f e)
