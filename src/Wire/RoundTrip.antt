-- ===== src/Wire/RoundTrip.antt =====
-- What the deserializers make of what the serializers wrote.
use p2p_messenger.Prelude.{
  ◌+◌, ◌%◌, ◌^◌, ◌<◌, ◌≡◌, ◌++◌, append_assoc, arith, length, length-append,
}
use p2p_messenger.Prelude.Bytes.{Bytes, length-le_bytes}
use p2p_messenger.Prelude.Outcome.{ok, ◌>>=◌}
use p2p_messenger.Wire.Message.{
  Message, SignedMessage, Peer, clip, source, destination, clip_message, clip_fits, empty_payload,
}
use p2p_messenger.Wire.Memory.{read_uint-le_bytes}
use p2p_messenger.Wire.Layout.{
  field, peer_layout, message_layout, signed_layout, length-field,
  message_to_buffer_with_payload-layout, signed_message_to_buffer-layout,
}
use p2p_messenger.Wire.Reading.{
  read_uint-field, read_bytes-clip, peer_from_buffer-layout, clipped_size, skip-clip, skip-le_bytes,
}
use p2p_messenger.Wire.Serializer.{message_to_buffer_with_payload, signed_message_to_buffer}
use p2p_messenger.Wire.Deserializer.{
  header_from_buffer, signed_message_from_buffer, fixed_size, skip_peer,
  destinantion_public_key_from_buffer, message_with_not_decrypted_payload_from_buffer,
}

length-peer_layout : (p : Peer) → length (peer_layout p) ≡ 6 + clipped_size p
unfolding peer_layout
length-peer_layout p = simp length-append (
    omega (
      arith,
      length-field 1 p.ip,
      length-le_bytes 2 p.port,
      length-field 1 p.login,
      length-field 2 p.public_key,
    ))

length-message_layout :
    (m : Message) (payload rest : Bytes)
    → length (message_layout m payload ++ rest)
      ≡ fixed_size
        + clipped_size (source m)
        + clipped_size (destination m)
        + length payload % 2 ^ 16
        + length rest
unfolding message_layout
length-message_layout m payload rest = simp length-append (
    omega (
      arith,
      length-le_bytes 8 m.id,
      length-peer_layout (source m),
      length-peer_layout (destination m),
      length-field 2 payload,
    ))

pub header_from_buffer-layout :
    (m : Message) (payload rest : Bytes)
    → header_from_buffer (message_layout m payload ++ rest)
      ≡ ok (clip_message m empty_payload, length payload % 2 ^ 16, clip 2 payload ++ rest)
unfolding header_from_buffer
header_from_buffer-layout m payload rest = rw (length-message_layout m payload rest) (
    unfold message_layout in
    simp
      (append_assoc, read_uint-le_bytes 8 m.id, peer_from_buffer-layout, read_uint-field 2 payload)
      (ground arith))

-- The header of a message survives, cut to what its sizes can say, whatever stands for the payload.
pub message_with_not_decrypted_payload-message_to_buffer :
    (m : Message) (payload : Bytes)
    → (message_to_buffer_with_payload m payload >>= message_with_not_decrypted_payload_from_buffer)
      ≡ ok (clip_message m empty_payload)
unfolding message_with_not_decrypted_payload_from_buffer
message_with_not_decrypted_payload-message_to_buffer m payload =
    rw (message_to_buffer_with_payload-layout m payload, header_from_buffer-layout m payload)

skip_peer-layout :
    (p : Peer) (rest : Bytes)
    → skip_peer (peer_layout p ++ rest) ≡ ok (field 2 p.public_key ++ rest)
unfolding skip_peer peer_layout
skip_peer-layout p rest = simp (
  append_assoc,
  read_uint-field 1 p.ip,
  skip-clip 1 p.ip,
  skip-le_bytes 2 p.port,
  read_uint-field 1 p.login,
  skip-clip 1 p.login,
)

pub destinantion_public_key-layout :
    (m : Message) (payload rest : Bytes)
    → destinantion_public_key_from_buffer (message_layout m payload ++ rest)
      ≡ ok (clip 2 m.destination_public_key)
unfolding destinantion_public_key_from_buffer message_layout
destinantion_public_key-layout m payload rest = simp (
  append_assoc,
  skip-le_bytes 8 m.id,
  skip_peer-layout,
  read_uint-field 2,
  skip-clip 2 m.source_public_key,
  read_bytes-clip 2 m.destination_public_key,
)

-- The receiver's key is found in what the sender wrote.
pub destinantion_public_key-message_to_buffer :
    (m : Message) (payload : Bytes)
    → (message_to_buffer_with_payload m payload >>= destinantion_public_key_from_buffer)
      ≡ ok (clip 2 m.destination_public_key)
destinantion_public_key-message_to_buffer m payload =
    rw (message_to_buffer_with_payload-layout m payload, destinantion_public_key-layout m payload)

length-signed_layout :
    (m : SignedMessage) (rest : Bytes)
    → length (signed_layout m ++ rest)
      ≡ 2 + 2 + length m.message % 2 ^ 16 + length m.signature % 2 ^ 16 + length rest
unfolding signed_layout
length-signed_layout m rest =
    simp length-append (omega (arith, length-field 2 m.message, length-field 2 m.signature))

pub signed_message_from_buffer-layout :
    (m : SignedMessage) (rest : Bytes)
    → signed_message_from_buffer (signed_layout m ++ rest)
      ≡ ok (record { message = clip 2 m.message; signature = clip 2 m.signature })
unfolding signed_message_from_buffer
signed_message_from_buffer-layout m rest = rw (length-signed_layout m rest) (
    unfold signed_layout in
    simp
      (append_assoc, read_uint-field 2, read_bytes-clip 2 m.message, read_bytes-clip 2 m.signature)
      (ground arith))

-- A signed message whose two parts have sizes below 2 ^ 16 is read back as it was.
pub signed_message-round_trip :
    (m : SignedMessage)
    → length m.message < 2 ^ 16
    → length m.signature < 2 ^ 16
    → (signed_message_to_buffer m >>= signed_message_from_buffer) ≡ ok m
signed_message-round_trip m h k = rw (
  signed_message_to_buffer-layout m,
  signed_message_from_buffer-layout m,
  clip_fits 2 m.message h,
  clip_fits 2 m.signature k,
)
