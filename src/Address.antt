-- ===== src/Address.antt =====
-- Addresses as text, `ip:port`: how the resolvers write them and how the sender and the relay take
-- them apart, with the functions of `std::string` that they use.
pub mod Decimal
pub mod Parse
use p2p_messenger.Prelude.{
  ℕ, zero, suc, ◌+◌, ◌-◌, ◌*◌, ◌/◌, ◌%◌, ◌^◌, Bool, true, false, ◌&&◌, ◌||◌, Option, none, some,
  List, [], ◌∷◌, ◌++◌, length, take, drop, ltb, leb, ◌==◌, if◌then◌else◌,
}
use mathlib.Core.Option
use p2p_messenger.Prelude.Bytes.{Bytes}
use p2p_messenger.Prelude.Outcome.{Outcome, ok, throw, invalid_argument, out_of_range, ◌>>=◌}

-- `s.find(c)`; `none` is `std::string::npos`.
unfoldable pub find_char : ℕ → Bytes → Option ℕ
find_char c [] = none
find_char c (x ∷ s) = if x == c then some 0 else Option.map suc (find_char c s)

-- `s.substr(pos)`
unfoldable pub substr_from : ℕ → Bytes → Outcome Bytes
substr_from pos s = if ltb (length s) pos then throw out_of_range else ok (drop pos s)

abbrev pub is_digit : ℕ → Bool
is_digit c = leb b'0' c && leb c b'9'

-- Decimal digits, the last one first to be found; a number below the fuel is written whole.
unfoldable pub decimal : ℕ → ℕ → Bytes
decimal zero n = []
decimal (suc fuel) n =
    let front = decimal fuel (n / 10) in
    if ltb n 10 then (b'0' + n) ∷ [] else front ++ ((b'0' + n % 10) ∷ [])

-- `std::to_string` of an unsigned integer.
unfoldable pub to_string : ℕ → Bytes
to_string n = decimal (suc n) n

-- `std::isspace` in the C locale.
abbrev pub is_space : ℕ → Bool
is_space c = c == 32 || (leb 9 c && leb c 13)

unfoldable pub skip_spaces : Bytes → Bytes
skip_spaces [] = []
skip_spaces (c ∷ s) = if is_space c then skip_spaces s else c ∷ s

-- The value of the digits at the front.
unfoldable pub parse_digits : ℕ → Bytes → ℕ
parse_digits acc [] = acc
parse_digits acc (c ∷ s) = if is_digit c then parse_digits (acc * 10 + (c - b'0')) s else acc

-- A negative number or not, and its magnitude.
abbrev pub SignedInt : Type 0
SignedInt = Bool × ℕ

abbrev pub int_max : ℕ
int_max = 2147483647

-- The digits behind the sign: one at least, and a value that an `int` holds.
unfoldable pub parse_magnitude : Bool → Bytes → Outcome SignedInt
parse_magnitude negative [] = throw invalid_argument
parse_magnitude negative (c ∷ s) =
    let n = parse_digits 0 (c ∷ s) in
    if is_digit c
    then if leb n (if negative then int_max + 1 else int_max)
      then ok (negative, n)
      else throw out_of_range
    else throw invalid_argument

unfoldable pub parse_signed : Bytes → Outcome SignedInt
parse_signed [] = throw invalid_argument
parse_signed (c ∷ s) =
    if c == b'-'
    then parse_magnitude true s
    else if c == b'+'
    then parse_magnitude false s
    else parse_magnitude false (c ∷ s)

-- `std::stoi`, base ten: spaces, a sign, digits, and whatever follows them.
unfoldable pub stoi : Bytes → Outcome SignedInt
unfolding parse_signed
stoi s = parse_signed (skip_spaces s)

-- An `int` assigned to a `uint16_t` wraps.
abbrev pub to_uint16 : SignedInt → ℕ
to_uint16 (false, n) = n % 2 ^ 16
to_uint16 (true, n) = (2 ^ 16 - n % 2 ^ 16) % 2 ^ 16

-- `ip + ":" + std::to_string(port)`
unfoldable pub address_of : Bytes → ℕ → Bytes
address_of ip port = ip ++ (b':' ∷ to_string port)

-- The tail of the address behind the colon at `pos`.
unfoldable pub port_from : ℕ → Bytes → Outcome ℕ
port_from pos address = do
  rest ← substr_from (pos + 1) address
  port ← stoi rest
  ok (to_uint16 port)

unfoldable pub get_ip_and_port_from_address : Bytes → Outcome (Bytes × ℕ)
unfolding port_from
get_ip_and_port_from_address address = elim (find_char b':' address) [
  | none ↦ throw invalid_argument
  | some pos ↦ port_from pos address >>= λ port. ok (take pos address, port)
]
