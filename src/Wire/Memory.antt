-- ===== src/Wire/Memory.antt =====
-- The `memcpy` calls of the (de)serializers, and their pointer `ptr` into a buffer.
-- A pointer that is read from is the list of the bytes behind it; one that is written through is a
-- `Cursor`. A copy that leaves its buffer is `undefined`.
use p2p_messenger.Prelude.{
  ℕ, zero, suc, subst, ◌+◌, ◌%◌, ◌^◌, ◌≡◌, [], ◌∷◌, ◌++◌, append_assoc, arith, length, take, drop,
  replicate, length-append, take-length-append, drop-length-append, take-append_le, drop-append_le,
  length-drop, length-take_le, leb, le→leb, if◌then◌else◌,
}
use p2p_messenger.Prelude.Bytes.{
  Bytes, le_bytes, of_le_bytes, length-le_bytes, of_le_bytes-le_bytes,
}
use p2p_messenger.Prelude.Outcome.{Outcome, ok, undefined, ◌>>=◌, >>=-elim}
use p2p_messenger.Wire.Message.{clip}
use mathlib.Core.Path.{fun_ext}
use native.Mathlib.Nat.{mod-le, zero-add, add-zero, suc-add}

-- `{ptr, ptr + n}`, and `ptr += n`.
unfoldable pub read_bytes : ℕ → Bytes → Outcome (Bytes × Bytes)
read_bytes n p = if leb n (length p) then ok (take n p, drop n p) else undefined

-- `ptr += n` alone. The pointer may reach the end of the buffer and not pass it.
unfoldable pub skip : ℕ → Bytes → Outcome Bytes
skip n p = if leb n (length p) then ok (drop n p) else undefined

-- `std::memcpy(&x, ptr, w)` and `ptr += w`, for an unsigned integer `x` of `w` bytes.
unfoldable pub read_uint : ℕ → Bytes → Outcome (ℕ × Bytes)
read_uint w p = do (raw, rest) ← read_bytes w p; ok (of_le_bytes raw, rest)

-- A buffer and a pointer into it: the bytes before the pointer and those from it on.
pub record Cursor : Type 0 where
  pub written : Bytes
  pub room : Bytes

-- `std::vector<uint8_t> buffer(size)`, and its start.
abbrev pub start : ℕ → Cursor
start size = record { written = []; room = replicate size 0 }

abbrev pub finish : Cursor → Bytes
finish c = c.written ++ c.room

-- `std::memcpy(ptr, &x, sizeof(x))` and `ptr += sizeof(x)`.
unfoldable pub write : Bytes → Cursor → Outcome Cursor
write xs c =
    if leb (length xs) (length c.room)
    then ok (record { written = c.written ++ xs; room = drop (length xs) c.room })
    else undefined

-- `std::memcpy(ptr, s.data(), n)` and `ptr += n`.
unfoldable pub copy : ℕ → Bytes → Cursor → Outcome Cursor
copy n s c = if leb n (length s) then write (take n s) c else undefined

pub read_bytes-append : (xs rest : Bytes) → read_bytes (length xs) (xs ++ rest) ≡ ok (xs, rest)
unfolding read_bytes
read_bytes-append xs rest = rw (
  le→leb (length xs) (length (xs ++ rest)) (omega (arith, length-append xs rest)),
  take-length-append xs rest,
  drop-length-append xs rest,
)

pub skip-append : (xs rest : Bytes) → skip (length xs) (xs ++ rest) ≡ ok rest
unfolding skip
skip-append xs rest = rw (
  le→leb (length xs) (length (xs ++ rest)) (omega (arith, length-append xs rest)),
  drop-length-append xs rest,
)

pub length-clip : (w : ℕ) (s : Bytes) → length (clip w s) ≡ length s % 256 ^ w
unfolding clip
length-clip w s = length-take_le _ s (mod-le _ _)

pub read_uint-le_bytes :
    (w n : ℕ) (rest : Bytes) → read_uint w (le_bytes w n ++ rest) ≡ ok (n % 256 ^ w, rest)
unfolding read_uint
read_uint-le_bytes w n rest = rw (raw, of_le_bytes-le_bytes w n)
  where
    raw : read_bytes w (le_bytes w n ++ rest) ≡ ok (le_bytes w n, rest)
    raw =
        subst (λ k. read_bytes k (le_bytes w n ++ rest) ≡ ok (le_bytes w n, rest))
          (length-le_bytes w n) (read_bytes-append (le_bytes w n) rest)

pub drop-drop : (m n : ℕ) (xs : Bytes) → drop n (drop m xs) ≡ drop (m + n) xs
drop-drop zero n xs = rw zero-add
drop-drop (suc m) zero [] = rw add-zero
drop-drop (suc m) (suc n) [] = rw suc-add
drop-drop (suc m) n (x ∷ xs) = rw suc-add (drop-drop m n xs)

-- Two copies in a row are one.
pub write-write : (xs ys : Bytes) (c : Cursor) → (write xs c >>= write ys) ≡ write (xs ++ ys) c
unfolding write
write-write xs ys c = ground (
  arith,
  length-append xs ys,
  length-drop (length xs) c.room,
  drop-drop (length xs) (length ys) c.room,
  append_assoc c.written xs ys,
)

pub copy-clip : (w : ℕ) (s : Bytes) → copy (length s % 256 ^ w) s ≡ write (clip w s)
unfolding copy clip
copy-clip w s = fun_ext λ c. rw (le→leb _ _ (mod-le (length s) (256 ^ w)))

-- A read that stays inside a buffer does not see what is added behind it.
pub read_bytes-append_ok :
    (n : ℕ) (p more a r : Bytes)
    → read_bytes n p ≡ ok (a, r)
    → read_bytes n (p ++ more) ≡ ok (a, r ++ more)
unfolding read_bytes
read_bytes-append_ok n p more a r e =
    ground (arith, take-append_le n p more, drop-append_le n p more, length-append p more)

pub read_uint-append_ok :
    (w n : ℕ) (p more r : Bytes)
    → read_uint w p ≡ ok (n, r)
    → read_uint w (p ++ more) ≡ ok (n, r ++ more)
unfolding read_uint
read_uint-append_ok w n p more r e =
    >>=-elim (read_bytes w p) _ e
      λ x e1 f1. rw (read_bytes-append_ok w p more x.0 x.1 e1) (ground arith)

pub length-read_bytes :
    (n : ℕ) (p a r : Bytes)
    → read_bytes n p ≡ ok (a, r)
    → (length a ≡ n) × (length p ≡ n + length r)
unfolding read_bytes
length-read_bytes n p a r e = ground (arith, length-drop n p, length-take_le n p)

pub length-read_uint : (w n : ℕ) (p r : Bytes) → read_uint w p ≡ ok (n, r) → length p ≡ w + length r
unfolding read_uint
length-read_uint w n p r e =
    >>=-elim (read_bytes w p) _ e λ x e1 f1. ground (arith, length-read_bytes w p x.0 x.1)
