-- ===== src/LoginPage/Fields.antt =====
-- What the reads of LoginPage/Input find at the front of a text.
use p2p_messenger.Prelude.{
  ℕ, suc, ◌≤◌, ◌≡◌, ◌≢◌, refl, true, false, some, [], ◌∷◌, ◌++◌, All, ◌==◌, bytes_eq, arith,
  append_assoc, ◌∙◌, le→not-ltb,
}
use p2p_messenger.Prelude.Bytes.{Bytes}
use p2p_messenger.External.{IsWord}
use p2p_messenger.Address.{decimal, is_digit, skip_spaces, parse_digits, to_string}
use p2p_messenger.Address.Parse.{Lacks}
use p2p_messenger.Address.Decimal.{
  IsDigit, to_string-IsDigit, parse_digits-append, parse_digits-decimal, decimal-ne-nil,
}
use p2p_messenger.LoginPage.Input.{
  stream_of, read_word, read_unsigned, read_digits, unsigned_at, skip_word, skip_digits, line,
  getline, uint_max,
}

skip_word-append : (w r : Bytes) → IsWord w → skip_word (w ++ (b' ' ∷ r)) ≡ b' ' ∷ r
unfolding skip_word
skip_word-append [] r h = refl
skip_word-append (c ∷ w) r h = rw h.0 (skip_word-append w r h.1)

pub read_word-append :
    (w r : Bytes)
    → w ≢ []
    → IsWord w
    → read_word (stream_of (w ++ (b' ' ∷ r))) ≡ stream_of (b' ' ∷ r)
unfolding read_word skip_spaces
read_word-append [] r e h = absurd (e refl)
read_word-append (c ∷ w) r e h = rw (h.0, skip_word-append (c ∷ w) r h)

skip_digits-append : (ds r : Bytes) → All IsDigit ds → skip_digits (ds ++ (b' ' ∷ r)) ≡ b' ' ∷ r
unfolding skip_digits
skip_digits-append [] r h = refl
skip_digits-append (c ∷ ds) r h = ground (arith, skip_digits-append ds r h.1)

parse_digits-space : (n : ℕ) (r : Bytes) → parse_digits 0 (to_string n ++ (b' ' ∷ r)) ≡ n
unfolding to_string parse_digits
parse_digits-space n r =
    parse_digits-append 0 (to_string n) (b' ' ∷ r) (to_string-IsDigit n)
    ∙ parse_digits-decimal (suc n) n (omega arith)

unsigned_at-append :
    (ds r : Bytes) (n : ℕ)
    → ds ≢ []
    → All IsDigit ds
    → parse_digits 0 (ds ++ (b' ' ∷ r)) ≡ n
    → n ≤ uint_max
    → unsigned_at (ds ++ (b' ' ∷ r)) ≡ (some n, stream_of (b' ' ∷ r))
unfolding unsigned_at read_digits
unsigned_at-append [] r n e h p k = absurd (e refl)
unsigned_at-append (c ∷ ds) r n e h p k =
    rw (no_minus, no_plus, digit, p, le→not-ltb uint_max n k, skip_digits-append (c ∷ ds) r h)
  where
    no_minus : (c == b'-') ≡ false
    no_minus = ground arith

    no_plus : (c == b'+') ≡ false
    no_plus = ground arith

    digit : is_digit c ≡ true
    digit = ground arith

line-append : (text r : Bytes) → Lacks 10 text → line (text ++ (10 ∷ r)) ≡ (text, some r)
unfolding line
line-append [] r h = refl
line-append (c ∷ text) r h = ground (arith, line-append text r h.1)

pub getline-append :
    (text r : Bytes)
    → Lacks 10 text
    → getline (stream_of (text ++ (10 ∷ r))) ≡ (some text, stream_of r)
unfolding getline
getline-append text r h = rw (line-append text r h)

pub read_unsigned-append :
    (n : ℕ) (r : Bytes)
    → n ≤ uint_max
    → read_unsigned (stream_of (b' ' ∷ (to_string n ++ (b' ' ∷ r))))
      ≡ (some n, stream_of (b' ' ∷ r))
unfolding read_unsigned skip_spaces to_string decimal
read_unsigned-append n r k =
    rw (skip_digit (to_string n) r (to_string-IsDigit n) (decimal-ne-nil n n)) (
      unsigned_at-append (to_string n) r n (decimal-ne-nil n n) (to_string-IsDigit n)
        (parse_digits-space n r) k)
  where
    skip_digit :
        (ds r : Bytes)
        → All IsDigit ds
        → ds ≢ []
        → skip_spaces (b' ' ∷ (ds ++ (b' ' ∷ r))) ≡ ds ++ (b' ' ∷ r)
    skip_digit [] r h e = absurd (e refl)
    skip_digit (c ∷ ds) r h e = ground arith

pub Lacks-snoc : (h : Bytes) → Lacks 10 h → Lacks 10 (h ++ (13 ∷ []))
Lacks-snoc [] l = (omega arith, tt)
Lacks-snoc (c ∷ h) l = (l.0, Lacks-snoc h l.1)

-- A line that ends as HTTP ends it.
pub getline-line :
    (text r : Bytes)
    → Lacks 10 text
    → getline (stream_of (text ++ (13 ∷ 10 ∷ r))) ≡ (some (text ++ (13 ∷ [])), stream_of r)
getline-line text r h =
    let split : text ++ (13 ∷ 10 ∷ r) ≡ (text ++ (13 ∷ [])) ++ (10 ∷ r) = simp append_assoc in
    rw split (getline-append (text ++ (13 ∷ [])) r (Lacks-snoc text h))
