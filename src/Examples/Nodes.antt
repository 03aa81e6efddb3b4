-- ===== src/Examples/Nodes.antt =====
-- Two nodes and a message between them, for Node.antt.
use p2p_messenger.Prelude.{
  ◌^◌, ◌<◌, ◌≡◌, refl, some, true, false, [], ◌∷◌, ◌++◌, arith, bytes_eq, bytes_beq, length,
}
use p2p_messenger.Prelude.Bytes.{Bytes, le_bytes}
use p2p_messenger.Prelude.Outcome.{ok}
use p2p_messenger.Prelude.Map.{find, insert}
use p2p_messenger.External.{Net}
use p2p_messenger.Address.{address_of}
use p2p_messenger.Address.Parse.{get_ip_and_port-address_of}
use p2p_messenger.Wire.Message.{Message, MessageFits}
use p2p_messenger.Wire.Memory.{write, copy}
use p2p_messenger.Wire.Serializer.{
  payload_to_buffer, encrypt, encrypt_payload, message_to_buffer, message_to_buffer_with_payload,
  peer_to_buffer, sign, signed_message_to_buffer,
}
use p2p_messenger.Wire.Payload.{PayloadFits}
use p2p_messenger.Resolver.Book
use p2p_messenger.Resolver.Book.{empty_book, put_address, put_public_key}
use p2p_messenger.Resolver.Metadata.{put}
use p2p_messenger.Node.State.{Config, Node, Endpoint}
use p2p_messenger.Node.Sender.{outgoing, sealed}
use p2p_messenger.Node.Receiver.{entered_at}
use p2p_messenger.Node.Messenger.{initial_node, resolve, get_public_key_by_public_key_id}
use p2p_messenger.Node.Sending.{IsFound, copies_to_relay}
use p2p_messenger.Examples.Libraries.{dht, json, net, small_net, bytes_of}

abbrev pub sender_ip : Bytes
sender_ip = b'1' ∷ []

abbrev pub receiver_ip : Bytes
receiver_ip = b'2' ∷ []

abbrev pub relay_ip : Bytes
relay_ip = b'3' ∷ []

-- The node whose private key is `key`.
abbrev pub config : Bytes → Bytes → Bytes → Config dht
config key login relay_node_ip = record {
  my_login = login;
  my_ip = sender_ip;
  my_port = 4660;
  private_key = key;
  relay_node_ip = relay_node_ip;
  relay_node_port = 4700;
  relay = false;
  punch_buffer = 0 ∷ [];
}

abbrev pub alice : Config dht
alice = config (5 ∷ []) (b'a' ∷ []) []

abbrev pub bob : Config dht
bob = config (6 ∷ []) (b'b' ∷ []) []

abbrev pub start_of : (N : Net) → Node dht N
start_of N = initial_node dht N 4661 relay_ip 4662

-- Bob's address is known.
abbrev pub knowing : (N : Net) → Node dht N
knowing N = record (start_of N) {
  metadata = put dht (b'b' ∷ []) (6 ∷ []) receiver_ip 4660 (empty_book dht);
}

abbrev pub hi : Bytes
hi = b'h' ∷ b'i' ∷ []

abbrev pub letter : Config dht → Message
letter c = outgoing dht json c receiver_ip 4660 (b'b' ∷ []) (6 ∷ []) hi

abbrev pub envelope : Config dht → Bytes
envelope c = bytes_of (sealed dht json c (6 ∷ []) (letter c))

pub sealed-letter : sealed dht json alice (6 ∷ []) (letter alice) ≡ ok (envelope alice)
unfolding sealed outgoing sign signed_message_to_buffer message_to_buffer encrypt_payload encrypt
    payload_to_buffer le_bytes message_to_buffer_with_payload peer_to_buffer write copy
sealed-letter = refl

pub letter_short : length (envelope alice) < 2 ^ 16
unfolding sealed outgoing sign signed_message_to_buffer message_to_buffer encrypt_payload encrypt
    payload_to_buffer le_bytes message_to_buffer_with_payload peer_to_buffer write copy
letter_short = ground arith

pub letter-Fits : MessageFits (letter alice)
unfolding outgoing
letter-Fits = record {
  id = ground arith;
  source = record {
    ip = ground arith;
    port = ground arith;
    login = ground arith;
    public_key = ground arith;
  };
  destination = record {
    ip = ground arith;
    port = ground arith;
    login = ground arith;
    public_key = ground arith;
  };
}

pub letter-payload : PayloadFits json (letter alice).payload
unfolding outgoing
letter-payload = record { time = ground arith; text = refl }

pub found : (N : Net) → IsFound dht N (b'b' ∷ []) (6 ∷ []) (knowing N) receiver_ip 4660 (6 ∷ [])
unfolding resolve get_public_key_by_public_key_id put put_address put_public_key find insert
    bytes_beq Book.resolve Book.get_public_key_by_public_key_id
found N = record {
  address = address_of receiver_ip 4660;
  resolved = refl;
  parsed = get_ip_and_port-address_of receiver_ip 4660 (ground arith) (ground arith);
  key = refl;
}

-- The same with a relay node.
abbrev pub carol : Config dht
carol = config (5 ∷ []) (b'a' ∷ []) relay_ip

pub alice_no_copy : copies_to_relay alice receiver_ip ≡ false
unfolding bytes_beq
alice_no_copy = refl

pub start_waits : (start_of net).waiting ≡ true
unfolding initial_node
start_waits = refl

pub letter_source : (letter alice).source_public_key ≡ b'k' ∷ 5 ∷ []
unfolding outgoing
letter_source = refl

pub letter_destination : (letter alice).destination_public_key ≡ b'k' ∷ 6 ∷ []
unfolding outgoing
letter_destination = refl

pub small_idle :
    small_net.send_fails (knowing small_net).sent (envelope carol, receiver_ip, 4660) ≡ false
unfolding initial_node
small_idle = refl

pub small_full :
    small_net.send_fails
      ((knowing small_net).sent ++ ((envelope carol, receiver_ip, 4660) ∷ []))
      (envelope carol, relay_ip, 4700)
    ≡ true
unfolding initial_node
small_full = refl

-- The source address in the letter is not that of the datagram.
abbrev pub remote : Endpoint net
remote = (b'9' ∷ [], 99)

pub entered_known :
    net.make_address (entered_at dht json net (letter alice) remote).0 ≡ some sender_ip
unfolding outgoing bytes_beq
entered_known = refl
