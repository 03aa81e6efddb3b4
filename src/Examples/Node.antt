-- ===== src/Examples/Node.antt =====
-- Two nodes at work.
use p2p_messenger.Prelude.{◌≡◌, refl, some, true, [], ◌∷◌, ◌++◌, bytes_eq, bytes_beq, length}
use p2p_messenger.Prelude.Bytes.{le_bytes}
use p2p_messenger.Prelude.Outcome.{ok}
use p2p_messenger.ChatHistory
use p2p_messenger.ChatHistory.{or_empty}
use p2p_messenger.Wire.Memory.{write, copy}
use p2p_messenger.Wire.Serializer.{
  payload_to_buffer, encrypt, encrypt_payload, message_to_buffer, message_to_buffer_with_payload,
  peer_to_buffer, sign, signed_message_to_buffer,
}
use p2p_messenger.Node.Sender.{outgoing, sealed}
use p2p_messenger.Node.Receiver.{datagram}
use p2p_messenger.Node.Messenger.{send_message, receive}
use p2p_messenger.Node.Inbox.{accepted, receive-sealed}
use p2p_messenger.Node.Sending.{copies_to_relay, send_message_unrecorded}
use p2p_messenger.Node.Exchange.{message_arrives}
use p2p_messenger.Examples.Libraries.{dht, json, net, small_net, dht-IsLawfulDht, json-IsLawfulJson}
use p2p_messenger.Examples.Nodes.{
  sender_ip, receiver_ip, relay_ip, alice, bob, start_of, knowing, hi, letter, envelope,
  sealed-letter, letter_short, letter-Fits, letter-payload, found, carol, alice_no_copy,
  start_waits, letter_source, letter_destination, small_idle, small_full, remote, entered_known,
}

message_arrives_example :
    ((send_message dht json net alice (b'b' ∷ []) (6 ∷ []) hi (knowing net)).1.sent
      ≡ (knowing net).sent ++ ((envelope alice, receiver_ip, 4660) ∷ []))
    × (ChatHistory.get dht
          (5 ∷ [])
          (receive dht json net bob
            (datagram (length (envelope alice)) (envelope alice) remote)
            (start_of net)).1.history
        ≡ some (
            or_empty (ChatHistory.get dht (5 ∷ []) (start_of net).history)
            ++ ((b'a' ∷ [], hi) ∷ [])))
message_arrives_example =
    message_arrives dht json dht-IsLawfulDht json-IsLawfulJson net alice bob (b'b' ∷ []) (6 ∷ [])
      receiver_ip hi (envelope alice) 4660 receiver_ip sender_ip remote (knowing net) (start_of net)
      (found net) sealed-letter refl refl alice_no_copy letter-Fits letter-payload letter_short
      start_waits entered_known refl

receive-sealed_example :
    receive dht json net bob
      (datagram (length (envelope alice)) (envelope alice) remote)
      (start_of net)
    ≡ (ok tt, accepted dht json net bob (letter alice) (5 ∷ []) remote sender_ip (start_of net))
receive-sealed_example =
    receive-sealed dht json dht-IsLawfulDht json-IsLawfulJson net alice bob (letter alice)
      (envelope alice) remote sender_ip (start_of net) letter-Fits letter-payload letter_source
      letter_destination sealed-letter letter_short start_waits entered_known refl

sealed-carol : sealed dht json carol (6 ∷ []) (letter carol) ≡ ok (envelope carol)
unfolding sealed outgoing sign signed_message_to_buffer message_to_buffer encrypt_payload encrypt
    payload_to_buffer le_bytes message_to_buffer_with_payload peer_to_buffer write copy
sealed-carol = refl

carol_copies : copies_to_relay carol receiver_ip ≡ true
unfolding bytes_beq
carol_copies = refl

send_message_unrecorded_example :
    send_message dht json small_net carol (b'b' ∷ []) (6 ∷ []) hi (knowing small_net) ≡ (
      ok tt,
      record (knowing small_net) {
        sent = (knowing small_net).sent ++ ((envelope carol, receiver_ip, 4660) ∷ []);
      },
    )
send_message_unrecorded_example =
    send_message_unrecorded dht json dht-IsLawfulDht small_net carol (b'b' ∷ []) (6 ∷ [])
      receiver_ip hi (envelope carol) 4660 (6 ∷ []) receiver_ip relay_ip (knowing small_net)
      (found small_net) sealed-carol refl small_idle carol_copies refl small_full
