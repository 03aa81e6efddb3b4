-- ===== src/Wire/Deserializer.antt =====
-- payload_deserializer.cpp and message_deserializer.cpp.
use p2p_messenger.Prelude.{ℕ, ◌+◌, Bool, length, ltb, if◌then◌else◌}
use p2p_messenger.Prelude.Bytes.{Bytes}
use p2p_messenger.Prelude.Outcome.{
  Outcome, ok, throw, length_error, crypto_error, json_error, out_of_range, or_throw, ◌>>=◌,
}
use p2p_messenger.External.{OpenDht, Json, time_key, text_key}
use p2p_messenger.Wire.Message.{Payload, Message, SignedMessage, Peer, empty_payload, of_peers}
use p2p_messenger.Wire.Memory.{read_bytes, read_uint, skip}

-- The two vectors are filled before the size is compared the second time.
unfoldable pub signed_message_from_buffer : Bytes → Outcome SignedMessage
signed_message_from_buffer buffer = if ltb (length buffer) (2 + 2) then throw length_error else do
  (message_size, p1) ← read_uint 2 buffer
  (message, p2) ← read_bytes message_size p1
  (signature_size, p3) ← read_uint 2 p2
  (signature, p4) ← read_bytes signature_size p3
  if ltb (length buffer) (2 + 2 + message_size + signature_size)
      then throw length_error
      else ok (record { message = message; signature = signature })

-- One side of a message, with the sizes added to `size`.
unfoldable pub peer_from_buffer : ℕ → Bytes → Outcome (Peer × ℕ × Bytes)
peer_from_buffer size p = do
  (ip_size, p1) ← read_uint 1 p
  (ip, p2) ← read_bytes ip_size p1
  (port, p3) ← read_uint 2 p2
  (login_size, p4) ← read_uint 1 p3
  (login, p5) ← read_bytes login_size p4
  (public_key_size, p6) ← read_uint 2 p5
  (public_key, p7) ← read_bytes public_key_size p6
  ok (
    record { ip = ip; port = port; login = login; public_key = public_key },
    size + ip_size + login_size + public_key_size,
    p7,
  )

-- `sizeof` of all the fields of fixed size.
abbrev pub fixed_size : ℕ
fixed_size = 8 + 1 + 2 + 1 + 2 + 1 + 2 + 1 + 2 + 2

-- What the reader of a message whose payload stays closed does, which leaves the payload out.
unfoldable pub header_from_buffer : Bytes → Outcome (Message × ℕ × Bytes)
header_from_buffer buffer = if ltb (length buffer) fixed_size then throw length_error else do
  (id, p1) ← read_uint 8 buffer
  (source, size1, p2) ← peer_from_buffer fixed_size p1
  (destination, size2, p3) ← peer_from_buffer size1 p2
  (payload_buffer_size, p4) ← read_uint 2 p3
  if ltb (length buffer) (size2 + payload_buffer_size)
      then throw length_error
      else ok (of_peers id source destination empty_payload, payload_buffer_size, p4)

unfoldable pub message_with_not_decrypted_payload_from_buffer : Bytes → Outcome Message
message_with_not_decrypted_payload_from_buffer buffer = do
  (message, payload_buffer_size, p) ← header_from_buffer buffer
  ok message

-- One side of a message is passed over up to its key.
unfoldable pub skip_peer : Bytes → Outcome Bytes
skip_peer p = do
  (ip_size, p1) ← read_uint 1 p
  p2 ← skip ip_size p1
  p3 ← skip 2 p2
  (login_size, p4) ← read_uint 1 p3
  skip login_size p4

-- No size is compared here.
unfoldable pub destinantion_public_key_from_buffer : Bytes → Outcome Bytes
destinantion_public_key_from_buffer buffer = do
  p1 ← skip 8 buffer
  p2 ← skip_peer p1
  (source_public_key_size, p3) ← read_uint 2 p2
  p4 ← skip source_public_key_size p3
  p5 ← skip_peer p4
  (destination_public_key_size, p6) ← read_uint 2 p5
  (public_key, p7) ← read_bytes destination_public_key_size p6
  ok public_key

-- Nor here.
unfoldable pub metadata_from_buffer : Bytes → Outcome (Bytes × Bytes)
metadata_from_buffer buffer = do
  (login_size, p1) ← read_uint 2 buffer
  (login, p2) ← read_bytes login_size p1
  (public_key_size, p3) ← read_uint 2 p2
  (public_key, p4) ← read_bytes public_key_size p3
  ok (login, public_key)

module _ (J : Json) where
  unfoldable pub payload_from_buffer : Bytes → Outcome Payload
  payload_from_buffer buffer = do
    value ← or_throw (J.parse buffer) json_error
    json_payload ← or_throw (J.as_object value) json_error
    time_value ← or_throw (J.at json_payload time_key) out_of_range
    time ← or_throw (J.to_number_uint64 time_value) json_error
    text_value ← or_throw (J.at json_payload text_key) out_of_range
    text ← or_throw (J.value_to_string text_value) json_error
    ok (record { time = time; text = text })

module _ (D : OpenDht) where
  unfoldable pub decrypt : Bytes → D.PrivateKey → Outcome Bytes
  decrypt buffer private_key = or_throw (D.decrypt private_key buffer) crypto_error

  unfoldable pub check_signature : SignedMessage → D.PublicKey → Bool
  check_signature m public_key = D.check_signature public_key m.message m.signature

-- `message_from_buffer` up to the payload, of which it finds the size and the place. It is written
-- out on its own in the source, and so it is here.
unfoldable pub message_header_from_buffer : Bytes → Outcome (Message × ℕ × Bytes)
message_header_from_buffer buffer =
    if ltb (length buffer) (8 + 1 + 2 + 1 + 2 + 1 + 2 + 1 + 2 + 2) then throw length_error else do
      (id, p1) ← read_uint 8 buffer
      (source_ip_size, p2) ← read_uint 1 p1
      (source_ip, p3) ← read_bytes source_ip_size p2
      (source_port, p4) ← read_uint 2 p3
      (source_login_size, p5) ← read_uint 1 p4
      (source_login, p6) ← read_bytes source_login_size p5
      (source_public_key_size, p7) ← read_uint 2 p6
      (source_public_key, p8) ← read_bytes source_public_key_size p7
      (destination_ip_size, p9) ← read_uint 1 p8
      (destination_ip, p10) ← read_bytes destination_ip_size p9
      (destination_port, p11) ← read_uint 2 p10
      (destination_login_size, p12) ← read_uint 1 p11
      (destination_login, p13) ← read_bytes destination_login_size p12
      (destination_public_key_size, p14) ← read_uint 2 p13
      (destination_public_key, p15) ← read_bytes destination_public_key_size p14
      (payload_buffer_size, p16) ← read_uint 2 p15
      let size =
          8 + 1 + 2 + 1 + 2 + 1 + 2 + 1 + 2 + 2 + source_ip_size + source_login_size
          + source_public_key_size + destination_ip_size + destination_login_size
          + destination_public_key_size + payload_buffer_size
      if ltb (length buffer) size
          then throw length_error
          else ok (
            record {
              id = id;
              source_ip = source_ip;
              source_port = source_port;
              source_login = source_login;
              source_public_key = source_public_key;
              destination_ip = destination_ip;
              destination_port = destination_port;
              destination_login = destination_login;
              destination_public_key = destination_public_key;
              payload = empty_payload;
            },
            payload_buffer_size,
            p16,
          )

module _ (D : OpenDht) (J : Json) where
  unfoldable pub message_from_buffer : Bytes → D.PrivateKey → Outcome Message
  message_from_buffer buffer private_key = do
    (message, payload_buffer_size, p) ← message_header_from_buffer buffer
    (payload_buffer, rest) ← read_bytes payload_buffer_size p
    plain ← decrypt D payload_buffer private_key
    payload ← payload_from_buffer J plain
    ok (record message { payload = payload })
