-- ===== src/LoginPage/Input.antt =====
-- The operations of `std::istream` that loginpage.cpp reads the answer with.
use p2p_messenger.Prelude.{
  ℕ, zero, suc, ◌-◌, ◌%◌, ◌^◌, ◌<◌, ◌≤◌, ◌≡◌, Bool, true, false, ◌||◌, Option, none, some, [], ◌∷◌,
  length, ltb, ◌==◌, if◌then◌else◌, bytes_eq, arith, Bool-cases, Option-cases, inl, inr,
}
use p2p_messenger.Prelude.Bytes.{Bytes}
use p2p_messenger.Address.{is_digit, is_space, skip_spaces, parse_digits}

-- What a stream has still to give, and its bits.
pub record Stream : Type 0 where
  pub rest : Bytes
  pub eof : Bool
  pub failed : Bool

abbrev pub is_empty : Bytes → Bool
is_empty [] = true
is_empty (c ∷ s) = false

abbrev pub stream_of : Bytes → Stream
stream_of s = record { rest = s; eof = false; failed = false }

-- Every read but of a good stream fails.
abbrev pub is_bad : Stream → Bool
is_bad s = s.eof || s.failed

abbrev pub ended : Stream
ended = record { rest = []; eof = true; failed = true }

-- What follows the word at the front.
unfoldable pub skip_word : Bytes → Bytes
skip_word [] = []
skip_word (c ∷ s) = if is_space c then c ∷ s else skip_word s

-- A read that came to the end sets the bit.
abbrev pub goes_on : Bytes → Bool → Stream
goes_on s failed = record { rest = s; eof = is_empty s; failed = failed }

abbrev pub word_at : Bytes → Stream
word_at [] = ended
word_at (c ∷ s) = goes_on (skip_word (c ∷ s)) false

-- `>> std::string`; nothing reads the word.
unfoldable pub read_word : Stream → Stream
read_word s = if is_bad s then record s { failed = true } else word_at (skip_spaces s.rest)

unfoldable pub skip_digits : Bytes → Bytes
skip_digits [] = []
skip_digits (c ∷ s) = if is_digit c then skip_digits s else c ∷ s

abbrev pub uint_max : ℕ
uint_max = 2 ^ 32 - 1

-- The digits behind the sign. Without one the value is 0, and too many give the greatest value. A
-- minus is taken modulo 2 ^ 32.
unfoldable pub read_digits : Bool → Bytes → Option ℕ × Stream
read_digits negative [] = (some 0, goes_on [] true)
read_digits negative (c ∷ s) =
    let n = parse_digits 0 (c ∷ s) in
    let tail = skip_digits (c ∷ s) in
    if is_digit c
    then if ltb uint_max n
      then (some uint_max, goes_on tail true)
      else (some (if negative then (2 ^ 32 - n) % 2 ^ 32 else n), goes_on tail false)
    else (some 0, goes_on (c ∷ s) true)

unfoldable pub unsigned_at : Bytes → Option ℕ × Stream
unsigned_at [] = (none, ended)
unsigned_at (c ∷ s) =
    if c == b'-'
    then read_digits true s
    else if c == b'+'
    then read_digits false s
    else read_digits false (c ∷ s)

-- `>> unsigned int`; `none` where the variable stays as it was.
unfoldable pub read_unsigned : Stream → Option ℕ × Stream
read_unsigned s =
    if is_bad s then (none, record s { failed = true }) else unsigned_at (skip_spaces s.rest)

-- The text up to the end of the line, and what follows it; `none` without an end of line.
unfoldable pub line : Bytes → Bytes × Option Bytes
line [] = ([], none)
line (c ∷ s) = let (text, rest) = line s in if c == 10 then ([], some s) else (c ∷ text, rest)

abbrev pub line_read : Bytes → Option Bytes → Option Bytes × Stream
line_read text (some rest) = (some text, stream_of rest)
line_read [] none = (none, ended)
line_read (c ∷ text) none = (some (c ∷ text), record { rest = []; eof = true; failed = false })

-- `std::getline`; `none` where it fails.
unfoldable pub getline : Stream → Option Bytes × Stream
getline s =
    if is_bad s
    then (none, record s { failed = true })
    else let (text, rest) = line s.rest in line_read text rest

abbrev pub carriage_return : Bytes
carriage_return = 13 ∷ []

-- `while (std::getline(stream, header) && header != "\r") {}`; `none` is out of fuel.
unfoldable pub skip_headers : ℕ → Stream → Option Stream
skip_headers zero s = none
skip_headers (suc fuel) s =
    let (header, next) = getline s in
    let more = skip_headers fuel next in
    elim header [
      | none ↦ some next
      | some text ↦ if bytes_eq.beq text carriage_return then some next else more
    ]

line_shorter : (s : Bytes) {rest : Bytes} → (line s).1 ≡ some rest → length rest < length s
unfolding line
line_shorter [] e = absurd (cc e)
line_shorter (c ∷ s) e = elim (Bool-cases (c == 10)) [
  | inl found ↦ ground (arith, rw found at e)
  | inr other ↦ omega (arith, line_shorter s (rw other at e))
]

-- What a line that was read leaves is shorter.
line_read_shorter :
    (s : Bytes) {text : Bytes}
    → (line_read (line s).0 (line s).1).0 ≡ some text
    → length (line_read (line s).0 (line s).1).1.rest < length s
unfolding line
line_read_shorter [] e = absurd (cc e)
line_read_shorter (c ∷ s) e = elim (Bool-cases (c == 10)) [
  | inl found ↦ rw found (omega arith)
  | inr other ↦ elim (Option-cases (line s).1) [
    | inl none_left ↦ rw (other, none_left) (omega arith)
    | inr (rest, q) ↦ rw (other, q) (omega (arith, line_shorter s q))
  ]
]

pub getline_shorter :
    (s : Stream) {text : Bytes}
    → (getline s).0 ≡ some text
    → length (getline s).1.rest < length s.rest
unfolding getline
getline_shorter s e = elim (Bool-cases (is_bad s)) [
  | inl bad ↦ absurd (cc (rw bad at e))
  | inr good ↦ rw good (line_read_shorter s.rest (rw good at e))
]

ended_le : (text : Bytes) (n : ℕ) → length (line_read text none).1.rest ≤ n
ended_le [] n = omega arith
ended_le (c ∷ text) n = omega arith

pub getline_le : (s : Stream) → length (getline s).1.rest ≤ length s.rest
unfolding getline
getline_le s = elim (Bool-cases (is_bad s)) [
  | inl bad ↦ rw bad (omega arith)
  | inr good ↦ rw good (elim (Option-cases (line s.rest).1) [
    | inl last ↦ rw last (ended_le (line s.rest).0 (length s.rest))
    | inr (rest, q) ↦ rw q (omega (arith, line_shorter s.rest q))
  ])
]

-- The loop over the headers ends, whatever the stream gives, within one more round than the stream
-- has characters.
pub skip_headers_ends :
    (fuel : ℕ) (s : Stream)
    → length s.rest < fuel
    → (after : Stream) × (skip_headers fuel s ≡ some after)
unfolding skip_headers
skip_headers_ends zero s h = absurd (omega arith)
skip_headers_ends (suc fuel) s h = elim (Option-cases (getline s).0) [
  | inl failed ↦ ((getline s).1, rw (skip_headers, failed))
  | inr (text, read) ↦ elim (Bool-cases (bytes_eq.beq text carriage_return)) [
    | inl last ↦ ((getline s).1, rw (skip_headers, read, last))
    | inr header ↦
        rw (skip_headers, read, header)
          (skip_headers_ends fuel (getline s).1 (omega (arith, getline_shorter s read)))
  ]
]
