-- ===== src/Wire/Inverse.antt =====
-- What the deserializers return against the buffer that they read: a buffer that they take is the
-- layout of what they return.
use p2p_messenger.Prelude.{
  ℕ, ◌+◌, ◌^◌, ◌≤◌, ◌<◌, ◌≡◌, sym, ◌∙◌, inl, inr, arith, ◌++◌, append_assoc, append-nil,
  length-append, All, length, take, drop, ltb, length-take_le, take-append-drop, Bool-cases,
}
use p2p_messenger.Prelude.Bytes.{Bytes, IsByte, le_bytes}
use p2p_messenger.Prelude.Outcome.{ok, length_error}
use p2p_messenger.Wire.Message.{
  of_peers, empty_payload, Message, SignedMessage, Peer, PeerFits, MessageFits, clip_fits,
}
use p2p_messenger.Wire.Layout.{
  field, peer_layout, message_layout, signed_layout, length-field, signed_message_to_buffer-layout,
}
use p2p_messenger.Wire.Reads.{
  Reads, within, Reads-bind, Reads-Ensures-bind, Ensures, returned, thrown, Ensures-eq-ok,
}
use p2p_messenger.Wire.Bounds.{header_from_buffer-Ensures}
use p2p_messenger.Wire.Serializer.{signed_message_to_buffer}
use p2p_messenger.Wire.Deserializer.{
  signed_message_from_buffer, header_from_buffer, peer_from_buffer, fixed_size,
}
use native.Mathlib.Nat.{mod-eq_of_lt, sub_self}
use p2p_messenger.Wire.Taken.{TakenUint, read_bytes-Taken, read_uint-Taken, field-Taken}

abbrev TakenPeer : Bytes → Peer × ℕ × Bytes → Type 0
TakenPeer p x = (p ≡ peer_layout x.0 ++ x.2) × PeerFits x.0 × All IsByte x.2

peer_joined :
    (p : Bytes) (x2 : Bytes × Bytes) (x3 : ℕ × Bytes) (x5 x7 : Bytes × Bytes)
    → p ≡ field 1 x2.0 ++ x2.1
    → x2.1 ≡ le_bytes 2 x3.0 ++ x3.1
    → x3.1 ≡ field 1 x5.0 ++ x5.1
    → x5.1 ≡ field 2 x7.0 ++ x7.1
    → p ≡ peer_layout (record { ip = x2.0; port = x3.0; login = x5.0; public_key = x7.0 }) ++ x7.1
unfolding peer_layout
peer_joined p x2 x3 x5 x7 a b c d = a ∙ rw (b, c, d) (simp append_assoc)

peer_from_buffer-Taken :
    (size : ℕ) (p : Bytes) → All IsByte p → Reads (TakenPeer p) (peer_from_buffer size p)
unfolding peer_from_buffer
peer_from_buffer-Taken size p h = Reads-bind (read_uint-Taken 1 p h) λ x1 h1.
    Reads-bind (read_bytes-Taken x1.0 x1.1 h1.2) λ x2 h2.
      Reads-bind (read_uint-Taken 2 x2.1 h2.3) λ x3 h3.
        Reads-bind (read_uint-Taken 1 x3.1 h3.2) λ x4 h4.
          Reads-bind (read_bytes-Taken x4.0 x4.1 h4.2) λ x5 h5.
            Reads-bind (read_uint-Taken 2 x5.1 h5.3) λ x6 h6.
              Reads-bind (read_bytes-Taken x6.0 x6.1 h6.2) λ x7 h7.
                let ip = field-Taken 1 p x1 x2 h1 h2 in
                let login = field-Taken 1 x3.1 x4 x5 h4 h5 in
                let key = field-Taken 2 x5.1 x6 x7 h6 h7 in
                within (
                  peer_joined p x2 x3 x5 x7 ip.0 h3.0 login.0 key.0,
                  record { ip = ip.1; port = h3.1; login = login.1; public_key = key.1 },
                  h7.3,
                )

-- The message fits, and the buffer is its layout with the payload that was found, and a rest.
abbrev TakenMessage : Bytes → Message × ℕ × Bytes → Type 0
TakenMessage b x =
    MessageFits x.0
    × (x.1 < 2 ^ 16)
    × (x.1 ≤ length x.2 → b ≡ message_layout x.0 (take x.1 x.2) ++ drop x.1 x.2)

message_joined :
    (b : Bytes) (x1 : ℕ × Bytes) (x2 x3 : Peer × ℕ × Bytes) (x4 : ℕ × Bytes)
    → TakenUint 8 b x1
    → TakenPeer x1.1 x2
    → TakenPeer x2.2 x3
    → TakenUint 2 x3.2 x4
    → TakenMessage b (of_peers x1.0 x2.0 x3.0 empty_payload, x4.0, x4.1)
unfolding message_layout field
message_joined b x1 x2 x3 x4 h1 h2 h3 h4 = (
  record { id = h1.1; source = h2.1; destination = h3.1 },
  h4.1,
  λ fits.
      let size : length (take x4.0 x4.1) ≡ x4.0 = length-take_le x4.0 x4.1 fits in
      let small : length (take x4.0 x4.1) < 256 ^ 2 = rw size h4.1 in
      h1.0
      ∙ rw (h2.0, h3.0, h4.0, mod-eq_of_lt small, clip_fits 2 (take x4.0 x4.1) small, size)
          (simp (append_assoc, take-append-drop x4.0 x4.1)),
)

header_from_buffer-Taken :
    (b : Bytes) → All IsByte b → Ensures (TakenMessage b) (header_from_buffer b)
unfolding header_from_buffer
header_from_buffer-Taken b h = elim (Bool-cases (ltb (length b) fixed_size)) [
  | inl short ↦ rw short (thrown length_error)
  | inr long ↦ rw long (
      Reads-Ensures-bind (read_uint-Taken 8 b h) λ x1 h1.
        Reads-Ensures-bind (peer_from_buffer-Taken fixed_size x1.1 h1.2) λ x2 h2.
          Reads-Ensures-bind (peer_from_buffer-Taken x2.1 x2.2 h2.2) λ x3 h3.
            Reads-Ensures-bind (read_uint-Taken 2 x3.2 h3.2) λ x4 h4.
              elim (Bool-cases (ltb (length b) (x3.1 + x4.0))) [
                | inl short ↦ rw short (thrown length_error)
                | inr fits ↦ rw fits (returned (message_joined b x1 x2 x3 x4 h1 h2 h3 h4))
              ])
]

-- Whatever bytes a header is read from, the message that is returned fits the wire format, and the
-- buffer is the layout of the message with the payload that was found, followed by what is left.
pub message_layout-header_from_buffer :
    (b p : Bytes) (m : Message) (n : ℕ)
    → All IsByte b
    → header_from_buffer b ≡ ok (m, n, p)
    → MessageFits m × (message_layout m (take n p) ++ drop n p ≡ b)
message_layout-header_from_buffer b p m n h e =
    let (fits, small, whole) = Ensures-eq-ok (header_from_buffer-Taken b h) e in
    (fits, sym (whole (Ensures-eq-ok (header_from_buffer-Ensures b) e)))

signed_message_from_buffer-Taken :
    (b : Bytes)
    → All IsByte b
    → Ensures
        (λ m.
          (length m.message < 2 ^ 16)
          × (length m.signature < 2 ^ 16)
          × (rest : Bytes) × (b ≡ signed_layout m ++ rest))
        (signed_message_from_buffer b)
unfolding signed_message_from_buffer signed_layout
signed_message_from_buffer-Taken b h = elim (Bool-cases (ltb (length b) (2 + 2))) [
  | inl short ↦ rw short (thrown length_error)
  | inr long ↦ rw long (
      Reads-Ensures-bind (read_uint-Taken 2 b h) λ x1 h1.
        Reads-Ensures-bind (read_bytes-Taken x1.0 x1.1 h1.2) λ x2 h2.
          Reads-Ensures-bind (read_uint-Taken 2 x2.1 h2.3) λ x3 h3.
            Reads-Ensures-bind (read_bytes-Taken x3.0 x3.1 h3.2) λ x4 h4.
              let message = field-Taken 2 b x1 x2 h1 h2 in
              let signature = field-Taken 2 x2.1 x3 x4 h3 h4 in
              elim (Bool-cases (ltb (length b) (2 + 2 + x1.0 + x3.0))) [
                | inl short ↦ rw short (thrown length_error)
                | inr fits ↦ rw fits (
                    returned (
                      message.1,
                      signature.1,
                      x4.1,
                      message.0 ∙ rw signature.0 (simp append_assoc),
                    ))
              ])
]

signed_size :
    (m : SignedMessage)
    → length m.message < 2 ^ 16
    → length m.signature < 2 ^ 16
    → length (signed_layout m) ≡ 2 + length m.message + (2 + length m.signature)
unfolding signed_layout
signed_size m h k =
    length-append (field 2 m.message) (field 2 m.signature)
    ∙ omega (
      arith,
      length-field 2 m.message,
      length-field 2 m.signature,
      mod-eq_of_lt h,
      mod-eq_of_lt k,
    )

-- Without a wrap of its sizes a signed message is written with no zeros behind it.
signed_exact :
    (m : SignedMessage)
    → length m.message < 2 ^ 16
    → length m.signature < 2 ^ 16
    → signed_message_to_buffer m ≡ ok (signed_layout m)
signed_exact m h k =
    rw
      (
        signed_message_to_buffer-layout m,
        signed_size m h k,
        sub_self (2 + length m.message + (2 + length m.signature)),
      )
      (rw append-nil)

pub signed_message_to_buffer-signed_message_from_buffer :
    (b : Bytes) (m : SignedMessage)
    → All IsByte b
    → signed_message_from_buffer b ≡ ok m
    → (again rest : Bytes) × (signed_message_to_buffer m ≡ ok again) × (b ≡ again ++ rest)
signed_message_to_buffer-signed_message_from_buffer b m h e =
    let (short, short', rest, whole) = Ensures-eq-ok (signed_message_from_buffer-Taken b h) e in
    (signed_layout m, rest, signed_exact m short short', whole)
