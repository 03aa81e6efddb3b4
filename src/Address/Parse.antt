-- ===== src/Address/Parse.antt =====
-- Taking an address apart.
use p2p_messenger.Prelude.{
  ℕ, ◌+◌, ◌^◌, ◌<◌, ◌≡◌, ◌≢◌, sym, ap, append_assoc, refl, none, some, [], ◌∷◌, ◌++◌, All, arith,
  ◌∙◌, length, drop, le→not-ltb, length-append, take-length-append,
}
use p2p_messenger.Prelude.Bytes.{Bytes}
use p2p_messenger.Prelude.Outcome.{Outcome, ok, throw, invalid_argument, ◌>>=◌, >>=-assoc, >>=-elim}
use p2p_messenger.Address.{
  find_char, substr_from, to_string, address_of, stoi, to_uint16, port_from,
  get_ip_and_port_from_address,
}
use p2p_messenger.Address.Decimal.{stoi-to_string}
use native.Mathlib.Nat.{mod-eq_of_lt, suc-add}

-- A character does not occur in a text.
abbrev pub Lacks : ℕ → Bytes → Type 0
Lacks c = All (λ x. x ≢ c)

pub find_char-append :
    (c : ℕ) (s rest : Bytes) → Lacks c s → find_char c (s ++ (c ∷ rest)) ≡ some (length s)
unfolding find_char
find_char-append c [] rest h = ground arith
find_char-append c (x ∷ s) rest h = ground (arith, find_char-append c s rest h.1)

pub find_char_absent : (c : ℕ) (s : Bytes) → Lacks c s → find_char c s ≡ none
unfolding find_char
find_char_absent c [] h = refl
find_char_absent c (x ∷ s) h = ground (arith, find_char_absent c s h.1)

drop-suc-append : (c : ℕ) (s rest : Bytes) → drop (length s + 1) (s ++ (c ∷ rest)) ≡ rest
drop-suc-append c [] rest = refl
drop-suc-append c (x ∷ s) rest = rw suc-add (drop-suc-append c s rest)

port_from-append :
    (c : ℕ) (s rest : Bytes)
    → port_from (length s) (s ++ (c ∷ rest)) ≡ (stoi rest >>= λ port. ok (to_uint16 port))
unfolding port_from substr_from
port_from-append c s rest = rw (
  le→not-ltb (length (s ++ (c ∷ rest))) (length s + 1) (omega (arith, length-append s (c ∷ rest))),
  drop-suc-append c s rest,
)

-- Without a colon there is an exception; else what stands before the first is the address.
pub get_ip_and_port_first_colon :
    (ip rest : Bytes)
    → Lacks b':' ip
    → get_ip_and_port_from_address (ip ++ (b':' ∷ rest))
      ≡ (stoi rest >>= λ port. ok (ip, to_uint16 port))
unfolding get_ip_and_port_from_address
get_ip_and_port_first_colon ip rest h =
    rw
      (
        find_char-append b':' ip rest h,
        get_ip_and_port_from_address,
        port_from-append b':' ip rest,
        take-length-append ip (b':' ∷ rest),
      )
      (>>=-assoc (stoi rest) _ _)

pub get_ip_and_port_no_colon :
    (address : Bytes)
    → Lacks b':' address
    → get_ip_and_port_from_address address ≡ throw invalid_argument
unfolding get_ip_and_port_from_address
get_ip_and_port_no_colon address h =
    rw (find_char_absent b':' address h, get_ip_and_port_from_address)

-- An address is taken apart into the parts that it was made of, if its text has no colon and its
-- port fits 16 bits.
pub get_ip_and_port-address_of :
    (ip : Bytes) (port : ℕ)
    → Lacks b':' ip
    → port < 2 ^ 16
    → get_ip_and_port_from_address (address_of ip port) ≡ ok (ip, port)
unfolding address_of
get_ip_and_port-address_of ip port h k = rw (
  get_ip_and_port_first_colon ip (to_string port) h,
  stoi-to_string port (omega arith),
  mod-eq_of_lt k,
)

-- An address whose own text holds a colon, as those of IPv6 do, never comes back.
pub get_ip_and_port_colon_in_ip :
    (front back : Bytes) (port port' : ℕ)
    → Lacks b':' front
    → let ip = front ++ (b':' ∷ back) in
      get_ip_and_port_from_address (address_of ip port) ≢ ok (ip, port')
unfolding address_of
get_ip_and_port_colon_in_ip front back port port' h e =
    >>=-elim (stoi (back ++ (b':' ∷ to_string port))) _ cut
      λ n _ f. omega (arith, ap length (fst_eq f), length-append front (b':' ∷ back))
  where
    cut :
        ◌>>=◌ {B = Bytes × ℕ}
          (stoi (back ++ (b':' ∷ to_string port)))
          (λ n. ok (front, to_uint16 n))
        ≡ ok (front ++ (b':' ∷ back), port')
    cut =
        sym (get_ip_and_port_first_colon front (back ++ (b':' ∷ to_string port)) h)
        ∙ rw append_assoc at e

    fst_eq : {a b : Bytes} {m n : ℕ} → ◌≡◌ {A = Outcome (Bytes × ℕ)} (ok (a, m)) (ok (b, n)) → a ≡ b
    fst_eq q = ground arith
