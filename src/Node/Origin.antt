-- ===== src/Node/Origin.antt =====
-- Where the lines of a chat come from: programs that add at most one line to the history, and that
-- say why.
pub mod Datagram
pub mod Task
pub mod Runs
pub mod Chats
use p2p_messenger.Prelude.{◌≡◌, refl, Bool, true, false, ◌⊎◌, inl, inr, if◌then◌else◌, Bool-cases}
use p2p_messenger.Prelude.Outcome.{Outcome, ok, throw, undefined, Exception}
use p2p_messenger.Prelude.Program.{Program, ◌>>=◌, lift, read, try_catch, after, handle}
use p2p_messenger.Prelude.Rules.{Keeps}
use p2p_messenger.External.{OpenDht, Net}
use p2p_messenger.ChatHistory.{ChatHistory, Line, append}
use p2p_messenger.Node.State.{Node}
use p2p_messenger.Node.Messenger.{append_line}

module _ (D : OpenDht) (N : Net) where
  abbrev pub HistoryIs : ChatHistory D → Node D N → Type 0
  HistoryIs h s = s.history ≡ h

  -- The history is as it was, or one line longer, for which `P` holds.
  abbrev pub Extends : (D.InfoHash → Line → Type 0) → ChatHistory D → ChatHistory D → Type 0
  Extends P h h' =
      (h' ≡ h)
      ⊎ ((id : D.InfoHash) × (line : Line) × P id line × (h' ≡ append D id line.0 line.1 h))

  pub record AddsLine {A : Type 0} (P : D.InfoHash → Line → Type 0) (m : Program (Node D N) A)
      : Type 0 where
    pub adds : (s : Node D N) → Extends P s.history (m s).1.history

module _ {D : OpenDht} {N : Net} where
  silent-after :
      {A B : Type 0} (x : Outcome A × Node D N) (f : A → Program (Node D N) B) (h : ChatHistory D)
      → x.1.history ≡ h
      → ((a : A) → Keeps (HistoryIs D N h) (f a))
      → (after x f).1.history ≡ h
  silent-after (ok a, s) f h e k = (k a).keeps s e
  silent-after (throw x, s) f h e k = e
  silent-after (undefined, s) f h e k = e

  silent-handle :
      {A : Type 0} (x : Outcome A × Node D N) (f : Exception → Program (Node D N) A)
      (h : ChatHistory D)
      → x.1.history ≡ h
      → ((e : Exception) → Keeps (HistoryIs D N h) (f e))
      → (handle x f).1.history ≡ h
  silent-handle (ok a, s) f h e k = e
  silent-handle (throw x, s) f h e k = (k x).keeps s e
  silent-handle (undefined, s) f h e k = e

module _ {D : OpenDht} {N : Net} {P : D.InfoHash → Line → Type 0} where
  pub AddsLine-silent :
      {A : Type 0} {m : Program (Node D N) A}
      → ((h : ChatHistory D) → Keeps (HistoryIs D N h) m)
      → AddsLine D N P m
  AddsLine-silent k = record { adds = λ s. inl ((k s.history).keeps s refl) }

  pub AddsLine-append_line :
      (id : D.InfoHash) (line : Line)
      → P id line
      → AddsLine D N P (append_line D N id line.0 line.1)
  AddsLine-append_line id line p = record { adds = λ s. inr (id, line, p, refl) }

  AddsLine-after :
      {A B : Type 0} (x : Outcome A × Node D N) (f : A → Program (Node D N) B) (h : ChatHistory D)
      → x.1.history ≡ h
      → ((a : A) → x.0 ≡ ok a → AddsLine D N P (f a))
      → Extends D N P h (after x f).1.history
  AddsLine-after (ok a, s) f h e k = rw (← e) ((k a refl).adds s)
  AddsLine-after (throw x, s) f h e k = inl e
  AddsLine-after (undefined, s) f h e k = inl e

  -- First code that adds nothing, then code that may.
  pub AddsLine-first :
      {A B : Type 0} {m : Program (Node D N) A} {f : A → Program (Node D N) B}
      → ((h : ChatHistory D) → Keeps (HistoryIs D N h) m)
      → ((a : A) → AddsLine D N P (f a))
      → AddsLine D N P (m >>= f)
  AddsLine-first {m} {f} k l = record {
    adds = λ s. AddsLine-after (m s) f s.history ((k s.history).keeps s refl) λ a e. l a;
  }

  -- A call that touches no state: what follows may use what it returned.
  pub AddsLine-lift :
      {A B : Type 0} {f : A → Program (Node D N) B} (r : Outcome A)
      → ((a : A) → r ≡ ok a → AddsLine D N P (f a))
      → AddsLine D N P (lift r >>= f)
  AddsLine-lift {f} r k = record { adds = λ s. AddsLine-after (r, s) f s.history refl k }

  -- First code that may add a line, then code that adds nothing.
  pub AddsLine-then :
      {A B : Type 0} {m : Program (Node D N) A} {f : A → Program (Node D N) B}
      → AddsLine D N P m
      → ((a : A) (h : ChatHistory D) → Keeps (HistoryIs D N h) (f a))
      → AddsLine D N P (m >>= f)
  AddsLine-then {m} {f} k l = record {
    adds = λ s.
        let same = silent-after (m s) f (m s).1.history refl λ a. l a (m s).1.history in
        rw same (k.adds s);
  }

  pub AddsLine-try_catch :
      {A : Type 0} {m : Program (Node D N) A} {f : Exception → Program (Node D N) A}
      → AddsLine D N P m
      → ((e : Exception) (h : ChatHistory D) → Keeps (HistoryIs D N h) (f e))
      → AddsLine D N P (try_catch m f)
  AddsLine-try_catch {m} {f} k l = record {
    adds = λ s.
        let same = silent-handle (m s) f (m s).1.history refl λ e. l e (m s).1.history in
        rw same (k.adds s);
  }

  pub AddsLine-if :
      {A : Type 0} (b : Bool) {m n : Program (Node D N) A}
      → (b ≡ true → AddsLine D N P m)
      → AddsLine D N P n
      → AddsLine D N P (if b then m else n)
  AddsLine-if true h k = h refl
  AddsLine-if false h k = k
