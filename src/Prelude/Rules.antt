-- ===== src/Prelude/Rules.antt =====
-- Two rules for programs: what they keep true of the state, and that they come to no undefined
-- behaviour where it is true.
use mathlib.Core.Path.{refl}
use mathlib.Core.Logic.{◌≢◌}
use mathlib.Core.Bool.{Bool, true, false}
use p2p_messenger.Prelude.Tests.{if◌then◌else◌}
use p2p_messenger.Prelude.Outcome.{Outcome, ok, throw, undefined, Exception}
use p2p_messenger.Prelude.Program.{Program, ◌>>=◌, lift, read, try_catch, after, handle}

-- `I` holds of the state whatever the outcome is.
pub record Keeps {S A : Type 0} (I : S → Type 0) (m : Program S A) : Type 0 where
  pub keeps : (s : S) → I s → I (m s).1

pub record Avoids {S A : Type 0} (I : S → Type 0) (m : Program S A) : Type 0 where
  pub avoids : (s : S) → I s → (m s).0 ≢ undefined

module _ {S : Type 0} {I : S → Type 0} where
  Keeps-after :
      {A B : Type 0} (x : Outcome A × S) (f : A → Program S B)
      → I x.1
      → ((a : A) → Keeps I (f a))
      → I (after x f).1
  Keeps-after (ok a, s) f i h = (h a).keeps s i
  Keeps-after (throw e, s) f i h = i
  Keeps-after (undefined, s) f i h = i

  Keeps-handle :
      {A : Type 0} (x : Outcome A × S) (h : Exception → Program S A)
      → I x.1
      → ((e : Exception) → Keeps I (h e))
      → I (handle x h).1
  Keeps-handle (ok a, s) h i k = i
  Keeps-handle (throw e, s) h i k = (k e).keeps s i
  Keeps-handle (undefined, s) h i k = i

  Avoids-after :
      {A B : Type 0} (x : Outcome A × S) (f : A → Program S B)
      → I x.1
      → x.0 ≢ undefined
      → ((a : A) → Avoids I (f a))
      → (after x f).0 ≢ undefined
  Avoids-after (ok a, s) f i n h = (h a).avoids s i
  Avoids-after (throw e, s) f i n h = λ q. cc
  Avoids-after (undefined, s) f i n h = λ q. n refl

  Avoids-handle :
      {A : Type 0} (x : Outcome A × S) (h : Exception → Program S A)
      → I x.1
      → x.0 ≢ undefined
      → ((e : Exception) → Avoids I (h e))
      → (handle x h).0 ≢ undefined
  Avoids-handle (ok a, s) h i n k = n
  Avoids-handle (throw e, s) h i n k = (k e).avoids s i
  Avoids-handle (undefined, s) h i n k = n

  pub Keeps->>= :
      {A B : Type 0} {m : Program S A} {f : A → Program S B}
      → Keeps I m
      → ((a : A) → Keeps I (f a))
      → Keeps I (m >>= f)
  Keeps->>= {m} {f} h k = record { keeps = λ s i. Keeps-after (m s) f (h.keeps s i) k }

  pub Keeps-lift : {A : Type 0} (r : Outcome A) → Keeps I (lift r)
  Keeps-lift r = record { keeps = λ s i. i }

  pub Keeps-read : {A : Type 0} (f : S → A) → Keeps I (read f)
  Keeps-read f = record { keeps = λ s i. i }

  pub Keeps-try_catch :
      {A : Type 0} {m : Program S A} {h : Exception → Program S A}
      → Keeps I m
      → ((e : Exception) → Keeps I (h e))
      → Keeps I (try_catch m h)
  Keeps-try_catch {m} {h} k l = record { keeps = λ s i. Keeps-handle (m s) h (k.keeps s i) l }

  pub Keeps-if :
      {A : Type 0} (b : Bool) {m n : Program S A}
      → Keeps I m
      → Keeps I n
      → Keeps I (if b then m else n)
  Keeps-if true h k = h
  Keeps-if false h k = k

  pub Avoids->>= :
      {A B : Type 0} {m : Program S A} {f : A → Program S B}
      → Keeps I m
      → Avoids I m
      → ((a : A) → Avoids I (f a))
      → Avoids I (m >>= f)
  Avoids->>= {m} {f} h n k = record {
    avoids = λ s i. Avoids-after (m s) f (h.keeps s i) (n.avoids s i) k;
  }

  pub Avoids-lift : {A : Type 0} {r : Outcome A} → r ≢ undefined → Avoids I (lift r)
  Avoids-lift n = record { avoids = λ s i. n }

  pub Avoids-try_catch :
      {A : Type 0} {m : Program S A} {h : Exception → Program S A}
      → Keeps I m
      → Avoids I m
      → ((e : Exception) → Avoids I (h e))
      → Avoids I (try_catch m h)
  Avoids-try_catch {m} {h} k n l = record {
    avoids = λ s i. Avoids-handle (m s) h (k.keeps s i) (n.avoids s i) l;
  }

  pub Avoids-if :
      {A : Type 0} (b : Bool) {m n : Program S A}
      → Avoids I m
      → Avoids I n
      → Avoids I (if b then m else n)
  Avoids-if true h k = h
  Avoids-if false h k = k
