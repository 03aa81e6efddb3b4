-- ===== src/Prelude/Outcome.antt =====
-- What a C++ call comes to: a value, a thrown exception, or undefined behaviour.
use mathlib.Core.Path.{◌≡◌, refl}
use mathlib.Core.Logic.{◌⊎◌, inl, inr}
use mathlib.Core.Option.{Option, none, some}

-- The exceptions derived from `std::exception` that the sources throw or let through.
pub data Exception : Type 0 where
  length_error invalid_argument out_of_range logic_error crypto_error json_error system_error :
      Exception

-- `undefined` is the C++ notion: a read or a write outside an object, from which nothing follows.
pub data Outcome {ℓ} (A : Type ℓ) : Type ℓ where
  ok : A → Outcome A
  throw : Exception → Outcome A
  undefined : Outcome A

infixl 5 ◌>>=◌ ◌>>◌
abbrev pub ◌>>=◌ {ℓ κ} : {A : Type ℓ} {B : Type κ} → Outcome A → (A → Outcome B) → Outcome B
ok a >>= f = f a
throw e >>= f = throw e
undefined >>= f = undefined

abbrev pub ◌>>◌ {ℓ} : {B : Type ℓ} → Outcome (Unit {0}) → Outcome B → Outcome B
m >> k = m >>= λ _. k

-- A library call that answers or throws `e`.
abbrev pub or_throw {ℓ} : {A : Type ℓ} → Option A → Exception → Outcome A
or_throw none e = throw e
or_throw (some a) e = ok a

pub Outcome-cases {ℓ} :
    {A : Type ℓ} (r : Outcome A)
    → ((a : A) × (r ≡ ok a)) ⊎ ((e : Exception) × (r ≡ throw e)) ⊎ (r ≡ undefined)
Outcome-cases (ok a) = inl (a, refl)
Outcome-cases (throw e) = inr (inl (e, refl))
Outcome-cases undefined = inr (inr refl)

-- Inversion of a successful bind, for a proof that goes on from the value.
pub >>=-elim {ℓ κ μ} :
    {A : Type ℓ} {B : Type κ} {R : Type μ} (m : Outcome A) (f : A → Outcome B) {b : B}
    → (m >>= f) ≡ ok b
    → ((a : A) → m ≡ ok a → f a ≡ ok b → R)
    → R
>>=-elim (ok a) f h k = k a refl h
>>=-elim (throw e) f h k = absurd (cc h)
>>=-elim undefined f h k = absurd (cc h)

pub >>=-assoc {ℓ κ μ} :
    {A : Type ℓ} {B : Type κ} {C : Type μ} (m : Outcome A) (f : A → Outcome B) (g : B → Outcome C)
    → (m >>= f >>= g) ≡ (m >>= λ a. f a >>= g)
>>=-assoc (ok a) f g = refl
>>=-assoc (throw e) f g = refl
>>=-assoc undefined f g = refl
