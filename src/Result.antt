-- ===== src/Result.antt =====
-- Exceptions. A pure function that may raise is a `Result`; a method that changes its object and
-- may raise is an action of `Exec`: what it wrote before it raised stays written.
use analyst_watch.Prelude.{String, ◌≡◌, refl, Bool, true, false, inl, inr, ◌⊎◌, arith}

-- `ValueError(message)`, `KeyError(message)`, and errors of a class of the program's own.
pub data Error : Type 0 where
  value_error : String → Error
  key_error : String → Error
  runtime_error : String → Error
  crypto_error : String → Error
  authorization_error : String → Error
  refresh_error : String → Error

pub data Result {ℓ} (A : Type ℓ) : Type ℓ where
  ok : A → Result A
  err : Error → Result A

-- `if not test: raise error`
abbrev pub require : Bool → Error → Result (Unit {0})
require true e = ok tt
require false e = err e

infixl 5 ◌>>=◌ ◌>>◌
abbrev pub ◌>>=◌ {ℓ κ} : {A : Type ℓ} {B : Type κ} → Result A → (A → Result B) → Result B
ok a >>= f = f a
err e >>= f = err e

abbrev pub ◌>>◌ {ℓ κ} : {A : Type κ} {B : Type ℓ} → Result A → Result B → Result B
m >> k = m >>= λ _. k

abbrev pub Exec {ℓ} : Type ℓ → Type ℓ → Type ℓ
Exec S A = S → Result A × S

pub Result-cases {ℓ} :
    {A : Type ℓ} (r : Result A) → ((a : A) × (r ≡ ok a)) ⊎ ((e : Error) × (r ≡ err e))
Result-cases (ok a) = inl (a, refl)
Result-cases (err e) = inr (e, refl)

-- A chain that returns has passed each of its steps.
pub bind-ok {ℓ κ} :
    {A : Type ℓ} {B : Type κ} (m : Result A) (f : A → Result B) (b : B)
    → (m >>= f) ≡ ok b
    → (a : A) × (m ≡ ok a) × (f a ≡ ok b)
bind-ok (ok a) f b h = (a, refl, h)
bind-ok (err e) f b h = absurd (ground arith)

pub require-ok {ℓ} :
    {A : Type ℓ} (test : Bool) (e : Error) (m : Result A) (a : A)
    → (require test e >> m) ≡ ok a
    → (test ≡ true) × (m ≡ ok a)
require-ok true e m a h = (refl, h)
require-ok false e m a h = absurd (ground arith)

pub same_ok {ℓ} : {A : Type ℓ} (a b : A) → ok a ≡ ok b → a ≡ b
same_ok a b h = ground arith

-- `except` of errors of some class, which raises another one in their place.
abbrev pub caught {ℓ} : {A : Type ℓ} → (Error → Error) → Result A → Result A
caught turn (ok a) = ok a
caught turn (err e) = err (turn e)

pub caught-ok {ℓ} :
    {A : Type ℓ} (turn : Error → Error) (m : Result A) (a : A) → caught turn m ≡ ok a → m ≡ ok a
caught-ok turn (ok b) a h = h
caught-ok turn (err e) a h = absurd (ground arith)
