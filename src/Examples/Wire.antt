-- ===== src/Examples/Wire.antt =====
-- Wire at concrete messages.
use p2p_messenger.Wire.Headers.{message_header-header}
use p2p_messenger.Wire.Deserializer.{message_header_from_buffer, header_from_buffer}
use p2p_messenger.Prelude.{
  ◌+◌, ◌^◌, ◌<◌, ◌≡◌, ◌↔◌, refl, some, [], ◌∷◌, ◌++◌, arith, length, take, drop, if◌then◌else◌, leb,
  bytes_beq,
}
use p2p_messenger.Prelude.Bytes.{Bytes, le_bytes, of_le_bytes}
use p2p_messenger.Prelude.Outcome.{ok, undefined, ◌>>=◌}
use p2p_messenger.Wire.Message.{SignedMessage, Message, MessageFits, empty_payload}
use p2p_messenger.Wire.Memory.{read_bytes, read_uint, write, copy}
use p2p_messenger.Wire.Serializer.{
  payload_to_buffer, encrypt, encrypt_payload, message_to_buffer, message_to_buffer_with_payload,
  signed_message_to_buffer, metadata_to_buffer, peer_to_buffer,
}
use p2p_messenger.Wire.Deserializer.{
  message_from_buffer, message_with_not_decrypted_payload_from_buffer, signed_message_from_buffer,
  header_from_buffer, peer_from_buffer, decrypt, payload_from_buffer,
}
use p2p_messenger.Wire.Layout.{
  message_layout, padding, message_size, message_to_buffer_with_payload-layout,
}
use p2p_messenger.Wire.Payload.{PayloadFits, message-round_trip}
use p2p_messenger.Wire.Bounds.{
  signed_message_from_buffer_late_check, declared_message_size, declared_signature_size,
}
use p2p_messenger.Wire.Metadata.{metadata_to_buffer_overflows}
use p2p_messenger.Wire.Agree.{message_from_buffer-agrees}
use p2p_messenger.Wire.Inverse.{
  message_layout-header_from_buffer, signed_message_to_buffer-signed_message_from_buffer,
}
use p2p_messenger.Examples.Libraries.{dht, json, dht-IsLawfulDht, json-IsLawfulJson, bytes_of}

abbrev hello : Message
hello = record {
  id = 1;
  source_ip = 1 ∷ 2 ∷ [];
  source_port = 4660;
  source_login = b'a' ∷ [];
  source_public_key = b'k' ∷ 5 ∷ [];
  destination_ip = 3 ∷ [];
  destination_port = 53;
  destination_login = b'b' ∷ b'c' ∷ [];
  destination_public_key = b'k' ∷ 6 ∷ [];
  payload = record { time = 1700000000; text = b'h' ∷ b'i' ∷ [] };
}

hello-Fits : MessageFits hello
hello-Fits = record {
  id = ground arith;
  source = record {
    ip = ground arith;
    port = ground arith;
    login = ground arith;
    public_key = ground arith;
  };
  destination = record {
    ip = ground arith;
    port = ground arith;
    login = ground arith;
    public_key = ground arith;
  };
}

hello-payload : PayloadFits json hello.payload
hello-payload = record { time = ground arith; text = refl }

-- The bytes of the message with three bytes for its payload.
abbrev hello_bytes : Bytes
hello_bytes =
    1 ∷ 0 ∷ 0 ∷ 0 ∷ 0 ∷ 0 ∷ 0 ∷ 0 ∷ 2 ∷ 1 ∷ 2 ∷ 52 ∷ 18 ∷ 1 ∷ b'a' ∷ 2 ∷ 0 ∷ b'k' ∷ 5 ∷ 1 ∷ 3 ∷ 53
    ∷ 0 ∷ 2 ∷ b'b' ∷ b'c' ∷ 2 ∷ 0 ∷ b'k' ∷ 6 ∷ 3 ∷ 0 ∷ 7 ∷ 8 ∷ 9 ∷ []

abbrev plain_hello : Message
plain_hello = record hello { payload = empty_payload }

hello_read : header_from_buffer hello_bytes ≡ ok (plain_hello, 3, 7 ∷ 8 ∷ 9 ∷ [])
unfolding header_from_buffer peer_from_buffer read_uint read_bytes of_le_bytes
hello_read = refl

message_to_buffer_with_payload-layout_example :
    message_to_buffer_with_payload hello (7 ∷ [])
    ≡ ok (
        message_layout hello (7 ∷ [])
        ++ padding (message_size hello (7 ∷ [])) (message_layout hello (7 ∷ [])))
message_to_buffer_with_payload-layout_example = message_to_buffer_with_payload-layout hello (7 ∷ [])

metadata_to_buffer_overflows_example :
    (metadata_to_buffer (b'a' ∷ []) (b'k' ∷ 5 ∷ []) ≡ undefined) ↔ ((1 < 2 ^ 16) × (2 < 2 ^ 16))
metadata_to_buffer_overflows_example = metadata_to_buffer_overflows (b'a' ∷ []) (b'k' ∷ 5 ∷ [])

abbrev short_message : Bytes
short_message = 2 ∷ 0 ∷ 5 ∷ 6 ∷ 9 ∷ 0 ∷ 7 ∷ []

signed_message_from_buffer_late_check_example : signed_message_from_buffer short_message ≡ (
    if leb (4 + declared_message_size short_message + declared_signature_size short_message) 7
    then ok (record {
      message = take (declared_message_size short_message) (drop 2 short_message);
      signature =
          take
            (declared_signature_size short_message)
            (drop (2 + declared_message_size short_message + 2) short_message);
    })
    else undefined)
signed_message_from_buffer_late_check_example =
    signed_message_from_buffer_late_check short_message (ground arith)

message_layout-header_from_buffer_example :
    MessageFits plain_hello
    × (message_layout plain_hello (take 3 (7 ∷ 8 ∷ 9 ∷ [])) ++ drop 3 (7 ∷ 8 ∷ 9 ∷ [])
        ≡ hello_bytes)
message_layout-header_from_buffer_example =
    message_layout-header_from_buffer hello_bytes (7 ∷ 8 ∷ 9 ∷ []) plain_hello 3 (ground arith)
      hello_read

-- A message of two bytes, a signature of one, and a byte more.
abbrev long_message : Bytes
long_message = 2 ∷ 0 ∷ 5 ∷ 6 ∷ 1 ∷ 0 ∷ 7 ∷ 99 ∷ []

abbrev long_parts : SignedMessage
long_parts = record { message = 5 ∷ 6 ∷ []; signature = 7 ∷ [] }

long_read : signed_message_from_buffer long_message ≡ ok long_parts
unfolding signed_message_from_buffer read_uint read_bytes of_le_bytes
long_read = refl

signed_message_to_buffer-signed_message_from_buffer_example :
    (again rest : Bytes) × (signed_message_to_buffer long_parts ≡ ok again)
    × (long_message ≡ again ++ rest)
signed_message_to_buffer-signed_message_from_buffer_example =
    signed_message_to_buffer-signed_message_from_buffer long_message long_parts (ground arith)
      long_read

-- The payload as the cipher of Libraries.antt leaves it.
abbrev hello_cipher : Bytes
hello_cipher = 1 ∷ payload_to_buffer json hello.payload

hello_cipher_short : length hello_cipher < 2 ^ 16
unfolding payload_to_buffer le_bytes
hello_cipher_short = ground arith

message-round_trip_example :
    (message_to_buffer dht json hello (some (6 ∷ [])) >>= λ b.
    message_from_buffer dht json b (6 ∷ []))
    ≡ ok hello
message-round_trip_example =
    message-round_trip dht json dht-IsLawfulDht json-IsLawfulJson hello (6 ∷ []) hello_cipher
      hello-Fits hello-payload refl hello_cipher_short

-- A buffer that the toy libraries read whole.
abbrev whole_hello : Bytes
whole_hello = bytes_of (message_to_buffer dht json hello (some (6 ∷ [])))

whole_hello_read : message_from_buffer dht json whole_hello (6 ∷ []) ≡ ok hello
unfolding message_to_buffer encrypt_payload encrypt payload_to_buffer le_bytes
    message_to_buffer_with_payload peer_to_buffer write copy message_from_buffer
    message_header_from_buffer peer_from_buffer read_uint read_bytes of_le_bytes decrypt
    payload_from_buffer bytes_beq
whole_hello_read = refl

message_header-header_example :
    message_header_from_buffer whole_hello ≡ header_from_buffer whole_hello
message_header-header_example = message_header-header whole_hello

message_from_buffer-agrees_example :
    message_with_not_decrypted_payload_from_buffer whole_hello
    ≡ ok (record hello { payload = empty_payload })
message_from_buffer-agrees_example =
    message_from_buffer-agrees dht json whole_hello (6 ∷ []) hello whole_hello_read
