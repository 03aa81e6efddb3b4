-- ===== src/Wire/Bounds.antt =====
-- What the deserializers do with any buffer, well formed or not: the second comparison of each with
-- the size of the buffer stands behind the reads that it should guard.
use p2p_messenger.Prelude.{
  ℕ, ◌+◌, ◌≤◌, ◌<◌, ◌≡◌, inl, inr, arith, length, take, drop, ltb, leb, if◌then◌else◌, length-drop,
  Bool-cases, le→not-ltb, le→leb, lt→not-leb,
}
use p2p_messenger.Prelude.Bytes.{Bytes, of_le_bytes}
use p2p_messenger.Prelude.Outcome.{ok, throw, undefined, length_error}
use p2p_messenger.Wire.Message.{Message}
use p2p_messenger.Wire.Memory.{read_uint, read_bytes, drop-drop}
use p2p_messenger.Wire.Reads.{
  Reads, within, Reads-bind, Reads-Ensures-bind, Ensures, returned, thrown, Ensures-eq-ok,
  read_uint-Reads, read_bytes-Reads,
}
use p2p_messenger.Wire.Deserializer.{
  signed_message_from_buffer, header_from_buffer, peer_from_buffer, fixed_size,
}

-- The two sizes that a signed message declares.
abbrev pub declared_message_size : Bytes → ℕ
declared_message_size b = of_le_bytes (take 2 b)

abbrev pub declared_signature_size : Bytes → ℕ
declared_signature_size b = of_le_bytes (take 2 (drop (2 + declared_message_size b) b))

-- The second comparison never fires: from four bytes on, the sizes fit and the message is returned,
-- or they do not and the reads have left the buffer.
pub signed_message_from_buffer_late_check :
    (b : Bytes)
    → 4 ≤ length b
    → signed_message_from_buffer b ≡ (
        if leb (4 + declared_message_size b + declared_signature_size b) (length b)
        then ok (record {
          message = take (declared_message_size b) (drop 2 b);
          signature = take (declared_signature_size b) (drop (2 + declared_message_size b + 2) b);
        })
        else undefined)
unfolding signed_message_from_buffer read_uint read_bytes
signed_message_from_buffer_late_check b h =
    let d = declared_message_size b in
    ground (
      arith,
      length-drop 2 b,
      drop-drop 2 d b,
      length-drop (2 + d) b,
      drop-drop (2 + d) 2 b,
      length-drop (2 + d + 2) b,
    )

-- What is added to the size is what is read.
peer_from_buffer-Reads :
    (size : ℕ) (p : Bytes)
    → Reads (λ x. size + length p ≡ x.1 + 6 + length x.2) (peer_from_buffer size p)
unfolding peer_from_buffer
peer_from_buffer-Reads size p = Reads-bind (read_uint-Reads 1 p) λ x1 h1.
    Reads-bind (read_bytes-Reads x1.0 x1.1) λ x2 h2. Reads-bind (read_uint-Reads 2 x2.1) λ x3 h3.
      Reads-bind (read_uint-Reads 1 x3.1) λ x4 h4. Reads-bind (read_bytes-Reads x4.0 x4.1) λ x5 h5.
        Reads-bind (read_uint-Reads 2 x5.1)
          λ x6 h6. Reads-bind (read_bytes-Reads x6.0 x6.1) λ x7 h7. within (omega arith)

pub header_from_buffer-Ensures :
    (b : Bytes) → Ensures (λ x. x.1 ≤ length x.2) (header_from_buffer b)
unfolding header_from_buffer
header_from_buffer-Ensures b = elim (Bool-cases (ltb (length b) fixed_size)) [
  | inl short ↦ rw short (thrown length_error)
  | inr long ↦ rw long (
      Reads-Ensures-bind (read_uint-Reads 8 b) λ x1 h1.
        Reads-Ensures-bind (peer_from_buffer-Reads fixed_size x1.1) λ x2 h2.
          Reads-Ensures-bind (peer_from_buffer-Reads x2.1 x2.2) λ x3 h3.
            Reads-Ensures-bind (read_uint-Reads 2 x3.2)
              λ x4 h4. checked _ (x3.1 + x4.0) x4 λ fits. omega arith)
]
  where
    checked :
        (m : Message) (size : ℕ) (x : ℕ × Bytes)
        → (size ≤ length b → x.0 ≤ length x.1)
        → Ensures
            (λ (y : Message × ℕ × Bytes). y.1 ≤ length y.2)
            (if ltb (length b) size then throw length_error else ok (m, x.0, x.1))
    checked m size x k = elim (Bool-cases (ltb (length b) size)) [
      | inl short ↦ rw short (thrown length_error)
      | inr fits ↦ rw fits (returned (k (ground arith)))
    ]

-- The comparison guards the read of the payload: where the header is accepted, the bytes that its
-- last size declares are there.
pub header_from_buffer_guards_payload :
    (b p : Bytes) (m : Message) (n : ℕ)
    → header_from_buffer b ≡ ok (m, n, p)
    → read_bytes n p ≡ ok (take n p, drop n p)
unfolding read_bytes
header_from_buffer_guards_payload b p m n e =
    rw (le→leb n (length p) (Ensures-eq-ok (header_from_buffer-Ensures b) e))

-- It does not guard the strings before: a size that points behind the buffer is read outside it.
pub header_from_buffer_overdeclared :
    (b : Bytes)
    → fixed_size ≤ length b
    → length b < 9 + of_le_bytes (take 1 (drop 8 b))
    → header_from_buffer b ≡ undefined
unfolding header_from_buffer peer_from_buffer read_uint read_bytes
header_from_buffer_overdeclared b long h = rw (
  le→not-ltb (length b) fixed_size long,
  le→leb 8 (length b) (omega arith),
  le→leb 1 (length (drop 8 b)) (omega (arith, length-drop 8 b)),
  lt→not-leb (of_le_bytes (take 1 (drop 8 b))) (length (drop 1 (drop 8 b)))
      (omega (arith, length-drop 8 b, length-drop 1 (drop 8 b))),
)
