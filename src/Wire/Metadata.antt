-- ===== src/Wire/Metadata.antt =====
-- The metadata datagram of the hole puncher: `metadata_to_buffer` and `metadata_from_buffer`.
use p2p_messenger.Prelude.{
  ℕ, ◌+◌, ◌%◌, ◌^◌, ◌≤◌, ◌<◌, ◌≡◌, ◌↔◌, [], ◌∷◌, append-nil, ap, ◌++◌, append_assoc, arith, length,
  length-append, length-replicate, inl, inr,
}
use p2p_messenger.Prelude.Bytes.{Bytes}
use p2p_messenger.Prelude.Outcome.{ok, undefined, ◌>>=◌, >>=-elim, Outcome-cases}
use p2p_messenger.Wire.Message.{clip}
use p2p_messenger.Wire.Memory.{
  start, finish, write, write-write, copy-clip, length-clip, read_uint, read_bytes,
  read_uint-append_ok, read_bytes-append_ok, length-read_uint, length-read_bytes,
}
use p2p_messenger.Wire.Layout.{field, length-field}
use p2p_messenger.Wire.Reading.{read_uint-field, read_bytes-clip}
use p2p_messenger.Wire.Reads.{
  Reads, within, Reads-bind, Reads-ne-throw, read_uint-Reads, read_bytes-Reads,
}
use p2p_messenger.Wire.Serializer.{metadata_to_buffer}
use p2p_messenger.Wire.Deserializer.{metadata_from_buffer}

-- The login and the key, each behind its size of two bytes.
unfoldable pub metadata_layout : Bytes → Bytes → Bytes
metadata_layout login public_key = field 2 login ++ field 2 public_key

length-metadata_layout :
    (l k : Bytes) → length (metadata_layout l k) ≡ 4 + length l % 2 ^ 16 + length k % 2 ^ 16
unfolding metadata_layout
length-metadata_layout l k = simp length-append (omega (arith, length-field 2 l, length-field 2 k))

-- One write of the layout into a buffer of the size that the code computes.
metadata_to_buffer_lem :
    (l k : Bytes)
    → metadata_to_buffer l k
      ≡ (write (metadata_layout l k) (start (1 + length l + (2 + length k))) >>= λ c. ok (finish c))
unfolding metadata_to_buffer metadata_layout field
metadata_to_buffer_lem l k = simp (copy-clip 2 l, copy-clip 2 k, write-write, append_assoc)

write_overflows :
    (size : ℕ) (xs : Bytes)
    → ((write xs (start size) >>= λ c. ok (finish c)) ≡ undefined) ↔ (size < length xs)
unfolding write
write_overflows size xs = ground (arith, length-replicate {A = ℕ} size 0)

-- The buffer is one byte short: for all sizes that two bytes can say, the last byte is written
-- behind it, and for no other.
pub metadata_to_buffer_overflows :
    (l k : Bytes)
    → (metadata_to_buffer l k ≡ undefined) ↔ ((length l < 2 ^ 16) × (length k < 2 ^ 16))
metadata_to_buffer_overflows l k = rw (metadata_to_buffer_lem l k) (
    ground (
      arith,
      write_overflows (1 + length l + (2 + length k)) (metadata_layout l k),
      length-metadata_layout l k,
    ))

-- From the layout, with anything behind it, the login and the key are read, each cut to what its size
-- of two bytes can say.
pub metadata_from_buffer-layout :
    (l k rest : Bytes)
    → metadata_from_buffer (metadata_layout l k ++ rest) ≡ ok (clip 2 l, clip 2 k)
unfolding metadata_from_buffer metadata_layout
metadata_from_buffer-layout l k rest =
    simp (append_assoc, read_uint-field 2, read_bytes-clip 2 l, read_bytes-clip 2 k)

-- What was read is in the buffer, and is read again with more bytes behind.
metadata_from_buffer_local :
    (b more l k : Bytes)
    → metadata_from_buffer b ≡ ok (l, k)
    → (4 + length l + length k ≤ length b) × (metadata_from_buffer (b ++ more) ≡ ok (l, k))
unfolding metadata_from_buffer
metadata_from_buffer_local b more l k e = >>=-elim (read_uint 2 b) _ e λ x1 e1 f1.
    >>=-elim (read_bytes x1.0 x1.1) _ f1 λ x2 e2 f2. >>=-elim (read_uint 2 x2.1) _ f2 λ x3 e3 f3.
      >>=-elim (read_bytes x3.0 x3.1) _ f3 λ x4 e4 f4. (
        ground (
          arith,
          length-read_uint 2 x1.0 b x1.1,
          length-read_bytes x1.0 x1.1 x2.0 x2.1,
          length-read_uint 2 x3.0 x2.1 x3.1,
          length-read_bytes x3.0 x3.1 x4.0 x4.1,
        ),
        rw
            (
              read_uint-append_ok 2 x1.0 b more x1.1 e1,
              read_bytes-append_ok x1.0 x1.1 more x2.0 x2.1 e2,
              read_uint-append_ok 2 x3.0 x2.1 more x3.1 e3,
              read_bytes-append_ok x3.0 x3.1 more x4.0 x4.1 e4,
            )
            f4,
      )

metadata_from_buffer-Reads : (b : Bytes) → Reads (λ x. Unit {0}) (metadata_from_buffer b)
unfolding metadata_from_buffer
metadata_from_buffer-Reads b = Reads-bind (read_uint-Reads 2 b) λ x1 h1.
    Reads-bind (read_bytes-Reads x1.0 x1.1) λ x2 h2.
      Reads-bind (read_uint-Reads 2 x2.1)
        λ x3 h3. Reads-bind (read_bytes-Reads x3.0 x3.1) λ x4 h4. within tt

-- A datagram that was cut anywhere is not refused: it is read past its end.
pub metadata_from_buffer_truncated :
    (l k front back : Bytes) (x : ℕ)
    → metadata_layout l k ≡ front ++ (x ∷ back)
    → metadata_from_buffer front ≡ undefined
metadata_from_buffer_truncated l k front back x e =
    elim (Outcome-cases (metadata_from_buffer front)) [
      | inl ((l', k'), r) ↦ absurd (
          ground (
            arith,
            metadata_from_buffer_local front (x ∷ back) l' k' r,
            whole,
            length-clip 2 l,
            length-clip 2 k,
            length-metadata_layout l k,
            ap (length {A = ℕ}) e,
            length-append front (x ∷ back),
          ))
      | inr (inl (e', r)) ↦ absurd (Reads-ne-throw (metadata_from_buffer-Reads front) e' r)
      | inr (inr r) ↦ r
    ]
  where
    whole : metadata_from_buffer (front ++ (x ∷ back)) ≡ ok (clip 2 l, clip 2 k)
    whole = rw (append-nil, e) at (metadata_from_buffer-layout l k [])
