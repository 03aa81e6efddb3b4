-- ===== src/Wire/Taken.antt =====
-- What the readers take from a buffer of bytes, as what it is written with.
use p2p_messenger.Prelude.{
  ℕ, zero, suc, ◌+◌, ◌*◌, ◌/◌, ◌%◌, ◌^◌, ◌<◌, ◌≡◌, refl, sym, ap, subst, ◌∙◌, inl, inr, arith, [],
  ◌∷◌, ◌++◌, append_assoc, All, length, take, drop, leb, length-take_le, take-append-drop,
  Bool-cases, leb→le,
}
use p2p_messenger.Prelude.Bytes.{Bytes, IsByte, le_bytes, of_le_bytes}
use p2p_messenger.Wire.Message.{clip_fits}
use p2p_messenger.Wire.Memory.{read_uint, read_bytes}
use p2p_messenger.Wire.Layout.{field}
use p2p_messenger.Wire.Reads.{Reads, within, outside, Reads-bind}
use native.Mathlib.Nat.{mod-eq_of_lt, pow-suc}

of_le_bytes_bound : (xs : Bytes) → All IsByte xs → of_le_bytes xs < 256 ^ length xs
unfolding of_le_bytes
of_le_bytes_bound [] h = omega arith
of_le_bytes_bound (x ∷ xs) h = omega (arith, h.0, of_le_bytes_bound xs h.1, pow-suc 256 (length xs))

le_bytes-of_le_bytes : (xs : Bytes) → All IsByte xs → le_bytes (length xs) (of_le_bytes xs) ≡ xs
unfolding of_le_bytes le_bytes
le_bytes-of_le_bytes [] h = refl
le_bytes-of_le_bytes (x ∷ xs) h =
    let low : (x + 256 * of_le_bytes xs) % 256 ≡ x = omega (arith, h.0) in
    let high : (x + 256 * of_le_bytes xs) / 256 ≡ of_le_bytes xs = omega (arith, h.0) in
    rw (low, high, le_bytes-of_le_bytes xs h.1)

All-take : (n : ℕ) (xs : Bytes) → All IsByte xs → All IsByte (take n xs)
All-take zero xs h = tt
All-take (suc n) [] h = tt
All-take (suc n) (x ∷ xs) h = (h.0, All-take n xs h.1)

All-drop : (n : ℕ) (xs : Bytes) → All IsByte xs → All IsByte (drop n xs)
All-drop zero xs h = h
All-drop (suc n) [] h = h
All-drop (suc n) (x ∷ xs) h = All-drop n xs h.1

-- What a reader of `n` bytes leaves behind, and what it took.
abbrev pub Taken : ℕ → Bytes → Bytes × Bytes → Type 0
Taken n p x = (p ≡ x.0 ++ x.1) × (length x.0 ≡ n) × All IsByte x.0 × All IsByte x.1

abbrev pub TakenUint : ℕ → Bytes → ℕ × Bytes → Type 0
TakenUint w p x = (p ≡ le_bytes w x.0 ++ x.1) × (x.0 < 256 ^ w) × All IsByte x.1

pub read_bytes-Taken : (n : ℕ) (p : Bytes) → All IsByte p → Reads (Taken n p) (read_bytes n p)
unfolding read_bytes
read_bytes-Taken n p h = elim (Bool-cases (leb n (length p))) [
  | inl fits ↦ rw fits (
      within (
        sym (take-append-drop n p),
        length-take_le n p (leb→le n (length p) fits),
        All-take n p h,
        All-drop n p h,
      ))
  | inr short ↦ rw short outside
]

pub read_uint-Taken : (w : ℕ) (p : Bytes) → All IsByte p → Reads (TakenUint w p) (read_uint w p)
unfolding read_uint
read_uint-Taken w p h = Reads-bind (read_bytes-Taken w p h) λ x t. within (
  t.0
      ∙ ap (λ r. r ++ x.1)
          (sym (le_bytes-of_le_bytes x.0 t.2) ∙ ap (λ k. le_bytes k (of_le_bytes x.0)) t.1),
  subst (λ k. of_le_bytes x.0 < 256 ^ k) t.1 (of_le_bytes_bound x.0 t.2),
  t.3,
)

-- A size and the bytes that it is of are a field.
pub field-Taken :
    (w : ℕ) (p : Bytes) (x : ℕ × Bytes) (y : Bytes × Bytes)
    → TakenUint w p x
    → Taken x.0 x.1 y
    → (p ≡ field w y.0 ++ y.1) × (length y.0 < 256 ^ w)
unfolding field
field-Taken w p x y s t =
    let fits : length y.0 < 256 ^ w = rw t.1 s.1 in
    (rw (s.0, t.0, mod-eq_of_lt fits, clip_fits w y.0 fits, t.1, append_assoc), fits)
