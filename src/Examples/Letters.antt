-- ===== src/Examples/Letters.antt =====
-- Datagrams of all kinds, for Receiver.antt.
use p2p_messenger.Prelude.{◌≡◌, refl, some, true, Bool, [], ◌∷◌, bytes_beq}
use p2p_messenger.Prelude.Bytes.{Bytes, le_bytes, of_le_bytes}
use p2p_messenger.Prelude.Outcome.{ok}
use p2p_messenger.Wire.Message.{Message, SignedMessage, empty_payload}
use p2p_messenger.Wire.Memory.{write, copy, read_bytes, read_uint, skip}
use p2p_messenger.Wire.Serializer.{
  payload_to_buffer, encrypt, encrypt_payload, message_to_buffer, message_to_buffer_with_payload,
  peer_to_buffer, signed_message_to_buffer,
}
use p2p_messenger.Wire.Deserializer.{
  signed_message_from_buffer, destinantion_public_key_from_buffer,
  message_with_not_decrypted_payload_from_buffer, check_signature, header_from_buffer,
  peer_from_buffer, skip_peer,
}
use p2p_messenger.Node.State.{Config, Node, Endpoint}
use p2p_messenger.Node.Messenger.{initial_node}
use p2p_messenger.Examples.Libraries.{dht, json, net, bytes_of}

-- A node whose private key is `key`.
abbrev pub config : Bytes → Bool → Config dht
config key relay = record {
  my_login = b'b' ∷ [];
  my_ip = b'2' ∷ [];
  my_port = 4660;
  private_key = key;
  relay_node_ip = [];
  relay_node_port = 0;
  relay = relay;
  punch_buffer = 0 ∷ [];
}

abbrev pub node : Node dht net
node = initial_node dht net 4661 (b'3' ∷ []) 4662

abbrev pub remote : Endpoint net
remote = (b'9' ∷ [], 99)

-- A message to the key 6 that names a source key.
abbrev pub letter : Bytes → Message
letter source_public_key = record {
  id = 1;
  source_ip = b'1' ∷ [];
  source_port = 4660;
  source_login = b'a' ∷ [];
  source_public_key = source_public_key;
  destination_ip = b'2' ∷ [];
  destination_port = 4660;
  destination_login = b'b' ∷ [];
  destination_public_key = b'k' ∷ 6 ∷ [];
  payload = record { time = 1; text = b'h' ∷ [] };
}

abbrev pub signed_as : Bytes → Bytes → SignedMessage
signed_as source_public_key signature = record {
  message = bytes_of (message_to_buffer dht json (letter source_public_key) (some (6 ∷ [])));
  signature = signature;
}

abbrev pub bytes_as : Bytes → Bytes → Bytes
bytes_as source_public_key signature =
    bytes_of (signed_message_to_buffer (signed_as source_public_key signature))

pub node_waits : node.waiting ≡ true
unfolding initial_node
node_waits = refl

pub good_signed :
    signed_message_from_buffer (bytes_as (b'k' ∷ 5 ∷ []) (5 ∷ []))
    ≡ ok (signed_as (b'k' ∷ 5 ∷ []) (5 ∷ []))
unfolding signed_message_to_buffer message_to_buffer encrypt_payload encrypt payload_to_buffer
    le_bytes message_to_buffer_with_payload peer_to_buffer write copy signed_message_from_buffer
    read_uint read_bytes of_le_bytes
good_signed = refl

pub keyless_signed : signed_message_from_buffer (bytes_as [] []) ≡ ok (signed_as [] [])
unfolding signed_message_to_buffer message_to_buffer encrypt_payload encrypt payload_to_buffer
    le_bytes message_to_buffer_with_payload peer_to_buffer write copy signed_message_from_buffer
    read_uint read_bytes of_le_bytes
keyless_signed = refl

pub letter_destination :
    destinantion_public_key_from_buffer (signed_as (b'k' ∷ 5 ∷ []) []).message ≡ ok (b'k' ∷ 6 ∷ [])
unfolding message_to_buffer encrypt_payload encrypt payload_to_buffer le_bytes
    message_to_buffer_with_payload peer_to_buffer write copy destinantion_public_key_from_buffer
    skip_peer skip read_uint read_bytes of_le_bytes
letter_destination = refl

pub keyless_destination :
    destinantion_public_key_from_buffer (signed_as [] []).message ≡ ok (b'k' ∷ 6 ∷ [])
unfolding message_to_buffer encrypt_payload encrypt payload_to_buffer le_bytes
    message_to_buffer_with_payload peer_to_buffer write copy destinantion_public_key_from_buffer
    skip_peer skip read_uint read_bytes of_le_bytes
keyless_destination = refl

abbrev pub closed : Bytes → Message
closed source_public_key = record (letter source_public_key) { payload = empty_payload }

pub letter_header :
    message_with_not_decrypted_payload_from_buffer (signed_as (b'k' ∷ 5 ∷ []) []).message
    ≡ ok (closed (b'k' ∷ 5 ∷ []))
unfolding message_to_buffer encrypt_payload encrypt payload_to_buffer le_bytes
    message_to_buffer_with_payload peer_to_buffer write copy
    message_with_not_decrypted_payload_from_buffer header_from_buffer peer_from_buffer read_uint
    read_bytes of_le_bytes
letter_header = refl

pub keyless_header :
    message_with_not_decrypted_payload_from_buffer (signed_as [] []).message ≡ ok (closed [])
unfolding message_to_buffer encrypt_payload encrypt payload_to_buffer le_bytes
    message_to_buffer_with_payload peer_to_buffer write copy
    message_with_not_decrypted_payload_from_buffer header_from_buffer peer_from_buffer read_uint
    read_bytes of_le_bytes
keyless_header = refl

pub good_check : check_signature dht (signed_as (b'k' ∷ 5 ∷ []) (5 ∷ [])) (5 ∷ []) ≡ true
unfolding check_signature bytes_beq
good_check = refl
