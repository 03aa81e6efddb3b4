-- ===== src/Examples/Receiver.antt =====
-- Datagrams of all kinds at a node that waits.
use p2p_messenger.Prelude.{◌≡◌, refl, none, true, false, [], ◌∷◌, ◌++◌, arith, length, bytes_beq}
use p2p_messenger.Prelude.Outcome.{ok, undefined}
use p2p_messenger.Prelude.Map.{find, insert}
use p2p_messenger.Address.{address_of}
use p2p_messenger.Wire.Metadata.{metadata_layout}
use p2p_messenger.Resolver.Book
use p2p_messenger.Resolver.Book.{put_address, empty_book}
use p2p_messenger.Resolver.Metadata
use p2p_messenger.Resolver.Dht.{dht_ip_resolver}
use p2p_messenger.Node.State.{Node}
use p2p_messenger.Node.Receiver.{datagram, failed}
use p2p_messenger.Node.Messenger.{
  initial_node, get_public_key_by_public_key_id, send_message, receive,
}
use p2p_messenger.Node.Relay.{receive_relayed, GoesTo, as_known}
use p2p_messenger.Node.Datagrams.{receive_punch_undefined}
use p2p_messenger.Node.Keyed.Steps.{Reach, here, next, receives, sends}
use p2p_messenger.Node.Safety.{reachable_send_message_returns, send_message_mid_put}
use p2p_messenger.Node.Timers.{rounds, punched, rounds_punch_all}
use p2p_messenger.Examples.Libraries.{dht, json, net}
use p2p_messenger.Examples.Letters.{
  config, node, remote, signed_as, bytes_as, node_waits, good_signed, letter_destination, closed,
  letter_header, good_check,
}

-- The receiver of the letter is known to be elsewhere than the letter says.
abbrev relaying : Node dht net
relaying = record node {
  metadata = Metadata.put dht (b'b' ∷ []) (6 ∷ []) (b'8' ∷ []) 4663 node.metadata;
}

hop :
    GoesTo
      (closed (b'k' ∷ 5 ∷ []))
      (Book.resolve dht (b'b' ∷ []) (6 ∷ []) relaying.metadata)
      (b'8' ∷ [])
      4663
unfolding initial_node Book.resolve find Metadata.put Book.put_public_key put_address insert
    bytes_beq
hop = as_known (b'8' ∷ []) 4663 (ground arith) (ground arith)

relaying_waits : relaying.waiting ≡ true
unfolding initial_node
relaying_waits = refl

receive_relayed_example :
    let b = bytes_as (b'k' ∷ 5 ∷ []) (5 ∷ []) in
    receive dht json net (config (7 ∷ []) true) (datagram (length b) b remote) relaying
    ≡ (ok tt, record relaying { sent = relaying.sent ++ ((b, b'8' ∷ [], 4663) ∷ []) })
receive_relayed_example =
    receive_relayed dht json net (config (7 ∷ []) true) (bytes_as (b'k' ∷ 5 ∷ []) (5 ∷ []))
      (b'k' ∷ 6 ∷ []) (b'8' ∷ []) 4663 (signed_as (b'k' ∷ 5 ∷ []) (5 ∷ [])) (closed (b'k' ∷ 5 ∷ []))
      (5 ∷ []) (6 ∷ []) (b'8' ∷ []) remote relaying relaying_waits refl good_signed
      letter_destination (ground arith) letter_header refl good_check refl hop refl refl

receive_punch_undefined_example :
    let b = metadata_layout (b'a' ∷ []) (b'k' ∷ 5 ∷ []) in
    (receive dht json net (config (6 ∷ []) false) (datagram (length b) b remote) node).0 ≡ undefined
receive_punch_undefined_example =
    receive_punch_undefined dht json net (config (6 ∷ []) false) (b'a' ∷ []) (b'k' ∷ 5 ∷ []) remote
      node node_waits (ground arith) (ground arith)

-- Two handlers have run.
abbrev later : Node dht net
later =
    (receive dht json net (config (6 ∷ []) false) failed
      (send_message dht json net (config (6 ∷ []) false) (b'a' ∷ []) (5 ∷ []) (b'h' ∷ []) node).1).1

later_reached : Reach dht json net (config (6 ∷ []) false) node later
later_reached = next (next here (sends (b'a' ∷ []) (5 ∷ []) (b'h' ∷ []))) (receives failed)

reachable_send_message_returns_example :
    (send_message dht json net (config (6 ∷ []) false) (b'a' ∷ []) (5 ∷ []) (b'h' ∷ []) later).0
    ≡ ok tt
reachable_send_message_returns_example =
    reachable_send_message_returns dht json net (config (6 ∷ []) false) 4661 (b'3' ∷ []) 4662 later
      later_reached (b'a' ∷ []) (5 ∷ []) (b'h' ∷ [])

-- An address is known.
abbrev knowing : Node dht net
knowing = record node {
  metadata = Metadata.put dht (b'a' ∷ []) (5 ∷ []) (b'1' ∷ []) 4660 (empty_book dht);
}

no_key : get_public_key_by_public_key_id dht net (5 ∷ []) node ≡ none
unfolding initial_node dht_ip_resolver get_public_key_by_public_key_id
    Book.get_public_key_by_public_key_id find
no_key = refl

send_message_mid_put_example :
    let t = record node {
      metadata = put_address dht (b'a' ∷ []) (5 ∷ []) (address_of (b'1' ∷ []) 4660) node.metadata;
    } in
    send_message dht json net (config (6 ∷ []) false) (b'a' ∷ []) (5 ∷ []) (b'h' ∷ []) t
    ≡ (undefined, t)
send_message_mid_put_example =
    send_message_mid_put dht json net (config (6 ∷ []) false) (b'a' ∷ []) (5 ∷ []) (b'1' ∷ [])
      (b'h' ∷ []) 4660 node (ground arith) (ground arith) no_key

abbrev punching : Node dht net
punching = record node { timers = (b'1' ∷ [], 4660) ∷ (b'2' ∷ [], 4661) ∷ [] }

rounds_punch_all_example :
    rounds dht net 2 (0 ∷ []) punching
    ≡ record punching { sent = punching.sent ++ punched dht net (0 ∷ []) punching.timers }
rounds_punch_all_example = rounds_punch_all dht net (0 ∷ []) punching (λ before d. refl)
