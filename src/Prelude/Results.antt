-- ===== src/Prelude/Results.antt =====
-- A result with an error type, for `Result<T, E>` and `?`.
use mathlib.Core.Bool.{Bool, true, false}
use mathlib.Core.Option.{Option, none, some}
use mathlib.Core.Path.{◌≡◌, refl}
use mathlib.Core.Logic.{◌⊎◌, inl, inr}

pub data Result {ℓ κ} (E : Type ℓ) (A : Type κ) : Type (ℓ ⊔ κ) where
  ok : A → Result E A
  err : E → Result E A

infixl 5 ◌>>=◌ ◌>>◌
abbrev pub ◌>>=◌ {ℓ κ μ} :
    {E : Type ℓ} {A : Type κ} {B : Type μ} → Result E A → (A → Result E B) → Result E B
ok a >>= f = f a
err e >>= f = err e

abbrev pub ◌>>◌ {ℓ κ} : {E : Type ℓ} {B : Type κ} → Result E (Unit {0}) → Result E B → Result E B
m >> k = m >>= λ _. k

-- `if test { bail!(e) }`, for the negated test.
abbrev pub ensure {ℓ} : {E : Type ℓ} → Bool → E → Result E (Unit {0})
ensure true e = ok tt
ensure false e = err e

-- `.context(e)?` on an option.
abbrev pub or_err {ℓ κ} : {E : Type ℓ} {A : Type κ} → Option A → E → Result E A
or_err none e = err e
or_err (some a) e = ok a

module _ {ℓ κ} {E : Type ℓ} {A : Type κ} where
  pub Result-cases : (r : Result E A) → ((a : A) × (r ≡ ok a)) ⊎ ((e : E) × (r ≡ err e))
  Result-cases (ok a) = inl (a, refl)
  Result-cases (err e) = inr (e, refl)

  -- A chain that succeeds has a first step that does, and the rest succeeds on its value.
  pub >>=-eq-ok {μ} :
      {B : Type μ} (first : Result E A) (rest : A → Result E B) {out : B}
      → (first >>= rest) ≡ ok out
      → (x : A) × (first ≡ ok x) × (rest x ≡ ok out)
  >>=-eq-ok (ok x) next p = (x, refl, p)
  >>=-eq-ok (err e) next p = cc
