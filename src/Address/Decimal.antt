-- ===== src/Address/Decimal.antt =====
-- `std::stoi` reads back what `std::to_string` wrote.
use p2p_messenger.Prelude.{
  ℕ, zero, suc, ◌+◌, ◌-◌, ◌*◌, ◌/◌, ◌%◌, ◌≤◌, ◌<◌, ◌≡◌, ◌≢◌, refl, false, [], ◌∷◌, ◌++◌, All,
  All-append, arith, ltb, Bool-cases, inl, inr,
}
use p2p_messenger.Prelude.Bytes.{Bytes}
use p2p_messenger.Prelude.Outcome.{ok}
use p2p_messenger.Address.{
  decimal, to_string, parse_digits, skip_spaces, parse_magnitude, stoi, int_max,
}

abbrev pub IsDigit : ℕ → Type 0
IsDigit c = (b'0' ≤ c) × (c ≤ b'9')

pub decimal-IsDigit : (fuel n : ℕ) → All IsDigit (decimal fuel n)
unfolding decimal
decimal-IsDigit zero n = tt
decimal-IsDigit (suc fuel) n = ground (
  arith,
  All-append IsDigit (decimal fuel (n / 10)) ((b'0' + n % 10) ∷ []) (decimal-IsDigit fuel (n / 10))
      (omega arith),
)

pub parse_digits-append :
    (acc : ℕ) (xs ys : Bytes)
    → All IsDigit xs
    → parse_digits acc (xs ++ ys) ≡ parse_digits (parse_digits acc xs) ys
unfolding parse_digits
parse_digits-append acc [] ys h = refl
parse_digits-append acc (x ∷ xs) ys h =
    ground (arith, parse_digits-append (acc * 10 + (x - b'0')) xs ys h.1)

pub parse_digits-decimal : (fuel n : ℕ) → n < fuel → parse_digits 0 (decimal fuel n) ≡ n
unfolding decimal
parse_digits-decimal zero n h = absurd (omega arith)
parse_digits-decimal (suc fuel) n h = elim (Bool-cases (ltb n 10)) [
  | inl small ↦ rw small (unfold parse_digits in ground arith)
  | inr large ↦
      rw
        (
          large,
          parse_digits-append 0 (decimal fuel (n / 10)) ((b'0' + n % 10) ∷ [])
              (decimal-IsDigit fuel (n / 10)),
          parse_digits-decimal fuel (n / 10) (ground arith),
        )
        (unfold parse_digits in ground arith)
]

append-ne-nil : (xs ys : Bytes) (y : ℕ) → xs ++ (y ∷ ys) ≢ []
append-ne-nil [] ys y e = cc
append-ne-nil (x ∷ xs) ys y e = cc

pub decimal-ne-nil : (fuel n : ℕ) → decimal (suc fuel) n ≢ []
unfolding decimal
decimal-ne-nil fuel n = ground (arith, append-ne-nil (decimal fuel (n / 10)) [] (b'0' + n % 10))

stoi_digits :
    (s : Bytes)
    → s ≢ []
    → All IsDigit s
    → parse_digits 0 s ≤ int_max
    → stoi s ≡ ok (false, parse_digits 0 s)
unfolding stoi skip_spaces parse_magnitude
stoi_digits [] e h k = absurd (e refl)
stoi_digits (c ∷ s) e h k = ground arith

-- `std::stoi` reads back what `std::to_string` wrote, as far as an `int` reaches.
pub stoi-to_string : (n : ℕ) → n ≤ int_max → stoi (to_string n) ≡ ok (false, n)
unfolding to_string
stoi-to_string n h = ground (
  arith,
  stoi_digits (decimal (suc n) n) (decimal-ne-nil n n) (decimal-IsDigit (suc n) n),
  parse_digits-decimal (suc n) n,
)

-- The digits of a number hold no colon.
pub to_string-IsDigit : (n : ℕ) → All IsDigit (to_string n)
unfolding to_string
to_string-IsDigit n = decimal-IsDigit (suc n) n
