-- ===== src/Prelude/Bytes.antt =====
-- Buffers of bytes, and integers copied to and from them with `memcpy` on a little-endian machine.
use Prim.Native.Nat.{ℕ, zero, suc, ◌+◌, ◌*◌, ◌/◌, ◌%◌, ◌^◌, ◌<◌}
use mathlib.Core.Path.{◌≡◌, refl, ap, ◌∙◌, sym}
use mathlib.Core.List.{List, [], ◌∷◌}
use native.Mathlib.Omega.{arith}
use native.Mathlib.Nat.{mod-eq_of_lt, mod-lt, div-add-mod, add-mul-mod_self_left, pow-suc}
use p2p_messenger.Prelude.Lists.{length, All}

-- A `std::vector<uint8_t>` or a `std::string`, each element below 256.
abbrev pub Bytes : Type 0
Bytes = List ℕ

abbrev pub IsByte : ℕ → Type 0
IsByte b = b < 256

-- The `w` bytes of an unsigned integer in memory, lowest first.
unfoldable pub le_bytes : ℕ → ℕ → Bytes
le_bytes zero n = []
le_bytes (suc w) n = (n % 256) ∷ le_bytes w (n / 256)

unfoldable pub of_le_bytes : Bytes → ℕ
of_le_bytes [] = 0
of_le_bytes (b ∷ bs) = b + 256 * of_le_bytes bs

pub length-le_bytes : (w n : ℕ) → length (le_bytes w n) ≡ w
unfolding le_bytes
length-le_bytes zero n = refl
length-le_bytes (suc w) n = ap suc (length-le_bytes w (n / 256))

pub le_bytes-IsByte : (w n : ℕ) → All IsByte (le_bytes w n)
unfolding le_bytes
le_bytes-IsByte zero n = tt
le_bytes-IsByte (suc w) n = (omega arith, le_bytes-IsByte w (n / 256))

pow_pos : (w : ℕ) → 0 < 256 ^ w
pow_pos zero = omega arith
pow_pos (suc w) = omega (arith, pow_pos w, pow-suc 256 w)

-- The lowest byte of `n` and the rest, below a further `m`.
split_byte : (n m : ℕ) → 0 < m → n % 256 + 256 * (n / 256 % m) ≡ n % (m * 256)
split_byte n m h = sym (
    ap (λ (t : ℕ). t % (m * 256)) whole
    ∙ add-mul-mod_self_left low (m * 256) top
    ∙ mod-eq_of_lt small)
  where
    low : ℕ
    low = n % 256 + 256 * (n / 256 % m)

    top : ℕ
    top = n / 256 / m

    whole : n ≡ low + m * 256 * top
    whole = omega (arith, div-add-mod (n / 256) m)

    small : low < m * 256
    small = omega (arith, mod-lt (n / 256) h)

-- A round trip keeps the value modulo the width.
pub of_le_bytes-le_bytes : (w n : ℕ) → of_le_bytes (le_bytes w n) ≡ n % 256 ^ w
unfolding le_bytes of_le_bytes
of_le_bytes-le_bytes zero n = omega arith
of_le_bytes-le_bytes (suc w) n =
    rw (of_le_bytes-le_bytes w (n / 256), pow-suc 256 w) (split_byte n (256 ^ w) (pow_pos w))
