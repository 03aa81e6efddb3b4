-- ===== src/Wire/Reads.antt =====
-- A rule for the readers: each either answers with something that `P` holds of, or leaves its buffer.
-- None throws.
use p2p_messenger.Prelude.{
  ℕ, ◌+◌, ◌≡◌, ◌≢◌, subst, arith, length, length-drop, leb, Bool-cases, inl, inr, leb→le,
}
use p2p_messenger.Prelude.Bytes.{Bytes}
use p2p_messenger.Prelude.Outcome.{Outcome, ok, throw, undefined, Exception, ◌>>=◌}
use p2p_messenger.Wire.Memory.{read_uint, read_bytes, skip}

pub data Reads {A : Type 0} (P : A → Type 0) : Outcome A → Type 0 where
  within : {a : A} → P a → Reads P (ok a)
  outside : Reads P undefined

pub Reads-bind :
    {A B : Type 0} {P : A → Type 0} {Q : B → Type 0} {m : Outcome A} {f : A → Outcome B}
    → Reads P m
    → ((a : A) → P a → Reads Q (f a))
    → Reads Q (m >>= f)
Reads-bind (within {a} p) k = k a p
Reads-bind outside k = outside

pub Reads-weaken :
    {A : Type 0} {P Q : A → Type 0} {r : Outcome A} → Reads P r → ((a : A) → P a → Q a) → Reads Q r
Reads-weaken (within {a} p) h = within (h a p)
Reads-weaken outside h = outside

Reads-ne-throw-aux :
    {A : Type 0} {P : A → Type 0} {r : Outcome A} (e : Exception) → Reads P r → r ≢ throw e
Reads-ne-throw-aux e (within p) h = cc
Reads-ne-throw-aux e outside h = cc

pub Reads-ne-throw :
    {A : Type 0} {P : A → Type 0} {r : Outcome A} → Reads P r → (e : Exception) → r ≢ throw e
Reads-ne-throw p e = Reads-ne-throw-aux e p

-- The same where an exception is allowed: what is returned has `P`.
pub data Ensures {A : Type 0} (P : A → Type 0) : Outcome A → Type 0 where
  returned : {a : A} → P a → Ensures P (ok a)
  thrown : (e : Exception) → Ensures P (throw e)
  left : Ensures P undefined

pub Reads-Ensures-bind :
    {A B : Type 0} {P : A → Type 0} {Q : B → Type 0} {m : Outcome A} {f : A → Outcome B}
    → Reads P m
    → ((a : A) → P a → Ensures Q (f a))
    → Ensures Q (m >>= f)
Reads-Ensures-bind (within {a} p) k = k a p
Reads-Ensures-bind outside k = left

Ensures-eq-ok-aux :
    {A : Type 0} {P : A → Type 0} {r : Outcome A} (a : A) → Ensures P r → r ≡ ok a → P a
Ensures-eq-ok-aux {P} a (returned {a = b} p) e = subst P (cc e) p
Ensures-eq-ok-aux a (thrown x) e = cc
Ensures-eq-ok-aux a left e = cc

pub Ensures-eq-ok :
    {A : Type 0} {P : A → Type 0} {r : Outcome A} {a : A} → Ensures P r → r ≡ ok a → P a
Ensures-eq-ok {a} p e = Ensures-eq-ok-aux a p e

-- How many bytes each reader takes.
pub read_bytes-Reads : (n : ℕ) (p : Bytes) → Reads (λ x. length p ≡ n + length x.1) (read_bytes n p)
unfolding read_bytes
read_bytes-Reads n p = elim (Bool-cases (leb n (length p))) [
  | inl fits ↦ rw fits (within (omega (arith, leb→le n (length p) fits, length-drop n p)))
  | inr short ↦ rw short outside
]

pub skip-Reads : (n : ℕ) (p : Bytes) → Reads (λ x. length p ≡ n + length x) (skip n p)
unfolding skip
skip-Reads n p = elim (Bool-cases (leb n (length p))) [
  | inl fits ↦ rw fits (within (omega (arith, leb→le n (length p) fits, length-drop n p)))
  | inr short ↦ rw short outside
]

pub read_uint-Reads : (w : ℕ) (p : Bytes) → Reads (λ x. length p ≡ w + length x.1) (read_uint w p)
unfolding read_uint
read_uint-Reads w p = Reads-bind (read_bytes-Reads w p) λ x h. within h
