-- ===== src/Wire/Serializer.antt =====
-- payload_serializer.cpp and message_serializer.cpp.
use p2p_messenger.Prelude.{ℕ, ◌+◌, ◌%◌, ◌^◌, [], ◌∷◌, Option, none, some, length}
use p2p_messenger.Prelude.Bytes.{Bytes, le_bytes}
use p2p_messenger.Prelude.Outcome.{Outcome, ok, crypto_error, or_throw, ◌>>=◌}
use p2p_messenger.External.{OpenDht, Json, time_key, text_key}
use p2p_messenger.Wire.Message.{Payload, Message, SignedMessage, Peer, source, destination}
use p2p_messenger.Wire.Memory.{Cursor, start, finish, write, copy}

-- The size, the address, the port, the login and the key of one side of the message, as the body of
-- `message_to_buffer` writes them for the source and again for the destination.
-- `static_cast<uint8_t>` is `% 2 ^ 8`, `static_cast<uint16_t>` is `% 2 ^ 16`.
unfoldable pub peer_to_buffer : Peer → Cursor → Outcome Cursor
peer_to_buffer p c =
    let ip_size = length p.ip % 2 ^ 8 in
    let login_size = length p.login % 2 ^ 8 in
    let public_key_size = length p.public_key % 2 ^ 16 in
    write (le_bytes 1 ip_size) c
    >>= copy ip_size p.ip
    >>= write (le_bytes 2 p.port)
    >>= write (le_bytes 1 login_size)
    >>= copy login_size p.login
    >>= write (le_bytes 2 public_key_size)
    >>= copy public_key_size p.public_key

-- The sizes of one side in the sum `size`.
abbrev pub peer_size : Peer → ℕ
peer_size p = 1 + length p.ip + 2 + (1 + length p.login) + (2 + length p.public_key)

-- `message_to_buffer` from its second statement on: the payload has become bytes.
unfoldable pub message_to_buffer_with_payload : Message → Bytes → Outcome Bytes
message_to_buffer_with_payload message payload_buffer = do
  let payload_buffer_size = length payload_buffer % 2 ^ 16
  c ←
      write (le_bytes 8 message.id) (
        start (
          8
          + peer_size (source message)
          + peer_size (destination message)
          + (2 + length payload_buffer)))
      >>= peer_to_buffer (source message)
      >>= peer_to_buffer (destination message)
      >>= write (le_bytes 2 payload_buffer_size)
      >>= copy payload_buffer_size payload_buffer
  ok (finish c)

unfoldable pub signed_message_to_buffer : SignedMessage → Outcome Bytes
signed_message_to_buffer m = do
  let message_size = length m.message % 2 ^ 16
  let signature_size = length m.signature % 2 ^ 16
  c ←
      write (le_bytes 2 message_size) (start (2 + length m.message + (2 + length m.signature)))
      >>= copy message_size m.message
      >>= write (le_bytes 2 signature_size)
      >>= copy signature_size m.signature
  ok (finish c)

-- The buffer is made for a login size of one byte (`sizeof(uint8_t)`), and two are written.
unfoldable pub metadata_to_buffer : Bytes → Bytes → Outcome Bytes
metadata_to_buffer login public_key = do
  let login_size = length login % 2 ^ 16
  let public_key_size = length public_key % 2 ^ 16
  c ←
      write (le_bytes 2 login_size) (start (1 + length login + (2 + length public_key)))
      >>= copy login_size login
      >>= write (le_bytes 2 public_key_size)
      >>= copy public_key_size public_key
  ok (finish c)

module _ (J : Json) where
  unfoldable pub payload_to_buffer : Payload → Bytes
  payload_to_buffer payload =
      J.serialize
        (J.object ((time_key, J.number payload.time) ∷ (text_key, J.string payload.text) ∷ []))

module _ (D : OpenDht) where
  unfoldable pub encrypt : Bytes → D.PublicKey → Outcome Bytes
  encrypt buffer public_key = or_throw (D.encrypt public_key buffer) crypto_error

  unfoldable pub sign : Bytes → D.PrivateKey → Outcome Bytes
  sign buffer private_key = or_throw (D.sign private_key buffer) crypto_error

module _ (D : OpenDht) (J : Json) where
  -- `if (public_key) payload_buffer = encrypt(payload_buffer, *public_key)`
  unfoldable pub encrypt_payload : Bytes → Option D.PublicKey → Outcome Bytes
  encrypt_payload payload_buffer none = ok payload_buffer
  encrypt_payload payload_buffer (some public_key) = encrypt D payload_buffer public_key

  unfoldable pub message_to_buffer : Message → Option D.PublicKey → Outcome Bytes
  unfolding encrypt_payload
  message_to_buffer message public_key = do
    payload_buffer ← encrypt_payload (payload_to_buffer J message.payload) public_key
    message_to_buffer_with_payload message payload_buffer
