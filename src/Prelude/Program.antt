-- ===== src/Prelude/Program.antt =====
-- Code that changes a state and may throw. What was changed before an exception stays changed.
use p2p_messenger.Prelude.Outcome.{Outcome, ok, throw, undefined, Exception}

abbrev pub Program : Type 0 → Type 0 → Type 0
Program S A = S → Outcome A × S

abbrev pub after : {S A B : Type 0} → Outcome A × S → (A → Program S B) → Outcome B × S
after (ok a, s) f = f a s
after (throw e, s) f = (throw e, s)
after (undefined, s) f = (undefined, s)

infixl 5 ◌>>=◌ ◌>>◌
abbrev pub ◌>>=◌ : {S A B : Type 0} → Program S A → (A → Program S B) → Program S B
◌>>=◌ m f s = after (m s) f

abbrev pub ◌>>◌ : {S B : Type 0} → Program S (Unit {0}) → Program S B → Program S B
m >> k = m >>= λ _. k

abbrev pub return : {S A : Type 0} → A → Program S A
return a s = (ok a, s)

-- A call that does not touch the state.
abbrev pub lift : {S A : Type 0} → Outcome A → Program S A
lift r s = (r, s)

abbrev pub modify : {S : Type 0} → (S → S) → Program S (Unit {0})
modify f s = (ok tt, f s)

abbrev pub read : {S A : Type 0} → (S → A) → Program S A
read f s = (ok (f s), s)

abbrev pub handle : {S A : Type 0} → Outcome A × S → (Exception → Program S A) → Outcome A × S
handle (ok a, s) h = (ok a, s)
handle (throw e, s) h = h e s
handle (undefined, s) h = (undefined, s)

-- `try { … } catch (std::exception& e) { … }`
abbrev pub try_catch : {S A : Type 0} → Program S A → (Exception → Program S A) → Program S A
try_catch m h s = handle (m s) h
