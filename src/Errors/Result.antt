-- ===== src/Errors/Result.antt =====
-- Results of fallible code: a value, or what was thrown.
use vpn_pi.Common.{Bool, true, false, Option, none, some, ◌≡◌, refl, ap, ◌∙◌, ◌⊎◌, inl, inr}

pub data Result {ℓ κ} (E : Type ℓ) (A : Type κ) : Type (ℓ ⊔ κ) where
  ok : A → Result E A
  err : E → Result E A

module _ {ℓ κ μ} {E : Type ℓ} {A : Type κ} {B : Type μ} where
  infixl 5 ◌>>=◌
  abbrev pub ◌>>=◌ : Result E A → (A → Result E B) → Result E B
  err fault >>= next = err fault
  ok value >>= next = next value

  -- Inversion of a successful chain, for proofs where the parts stay shut.
  pub >>=-eq-ok :
      (r : Result E A) (next : A → Result E B) {last : B}
      → (r >>= next) ≡ ok last
      → (value : A) × (r ≡ ok value) × (next value ≡ ok last)
  >>=-eq-ok (err fault) next h = absurd (cc)
  >>=-eq-ok (ok value) next h = (value, refl, h)

module _ {ℓ κ} {E : Type ℓ} {A : Type κ} where
  -- `if (x === undefined) throw e`.
  abbrev pub or_throw : Option A → E → Result E A
  or_throw none e = err e
  or_throw (some a) e = ok a

  pub Result-cases : (r : Result E A) → ((a : A) × (r ≡ ok a)) ⊎ ((e : E) × (r ≡ err e))
  Result-cases (ok a) = inl (a, refl)
  Result-cases (err e) = inr (e, refl)

infixl 5 ◌>>◌
abbrev pub ◌>>◌ {ℓ κ} : {E : Type ℓ} {B : Type κ} → Result E (Unit {0}) → Result E B → Result E B
ok u >> k = k
err e >> k = err e

-- `if (!b) throw e`.
abbrev pub ensure {ℓ} : {E : Type ℓ} → Bool → E → Result E (Unit {0})
ensure true e = ok tt
ensure false e = err e

-- What a chain of checks that succeeded has passed.
pub ensure-ok {ℓ κ} :
    {E : Type ℓ} {B : Type κ} (test : Bool) (e : E) (k : Result E B) {b : B}
    → (ensure test e >> k) ≡ ok b
    → (test ≡ true) × (k ≡ ok b)
ensure-ok true e k h = (refl, h)
ensure-ok false e k h = absurd (cc)

pub or_throw-ok {ℓ κ μ} :
    {E : Type ℓ} {A : Type κ} {B : Type μ} (o : Option A) (e : E) (f : A → Result E B) {b : B}
    → (or_throw o e >>= f) ≡ ok b
    → (a : A) × (o ≡ some a) × (f a ≡ ok b)
or_throw-ok none e f h = absurd (cc)
or_throw-ok (some a) e f h = (a, refl, h)

pub bind-ok {ℓ κ μ} :
    {E : Type ℓ} {A : Type κ} {B : Type μ} (m : Result E A) (f : A → Result E B) {a : A}
    {r : Result E B}
    → m ≡ ok a
    → f a ≡ r
    → (m >>= f) ≡ r
bind-ok m f e h = ap (λ x. x >>= f) e ∙ h
