-- ===== src/Examples/Origin.antt =====
-- A message that comes once, and again, and what the chat has of it.
use p2p_messenger.Prelude.{◌≡◌, ap, refl, ◌∙◌, true, some, [], ◌∷◌, ◌++◌, All, length, bytes_beq}
use p2p_messenger.Prelude.Map.{find, insert}
use p2p_messenger.ChatHistory
use p2p_messenger.ChatHistory.{Line, or_empty}
use p2p_messenger.ChatHistory.Log.{Entries, replay}
use p2p_messenger.Node.State.{Node, Endpoint}
use p2p_messenger.Node.Receiver.{datagram, entered_at}
use p2p_messenger.Node.Sender.{outgoing}
use p2p_messenger.Node.Messenger.{initial_node, start, receive, get}
use p2p_messenger.Node.Inbox.{receive-sealed}
use p2p_messenger.Node.Keyed.Steps.{Reach, here, next, receives}
use p2p_messenger.Node.Origin.Chats.{Told, get-Told}
use p2p_messenger.Node.Replay.{receive_twice}
use p2p_messenger.Resolver.Dht
use p2p_messenger.Runtime.{
  Process, Ready, ready, event, goes_on, begins, finishes, run, step, begin, run_handler,
  constructed, continue,
}
use p2p_messenger.Runtime.Threads.{finish_lem}
use p2p_messenger.Runtime.Tasks.{outcome_ok}
use p2p_messenger.Runtime.History.{run-Log, Written}
use p2p_messenger.Runtime.Refines.{finished}
use p2p_messenger.Runtime.Counting.{tasks_in, tasks_posted}
use mathlib.Core.List.{Perm}
use p2p_messenger.Examples.Libraries.{dht, json, net, dht-IsLawfulDht, json-IsLawfulJson}
use p2p_messenger.Examples.Nodes.{
  sender_ip, relay_ip, alice, bob, start_of, hi, letter, envelope, sealed-letter, letter_short,
  letter-Fits, letter-payload, start_waits, letter_source, letter_destination, remote,
  entered_known,
}

-- Bob after Alice's letter.
abbrev written_to : Node dht net
written_to =
    (receive dht json net bob (datagram (length (envelope alice)) (envelope alice) remote)
      (start_of net)).1

abbrev arrival : Reach dht json net bob (start_of net) written_to
arrival = next here (receives (datagram (length (envelope alice)) (envelope alice) remote))

letter_kept : get dht net (5 ∷ []) written_to ≡ some ((b'a' ∷ [], hi) ∷ [])
unfolding get ChatHistory.get ChatHistory.append find insert bytes_beq initial_node outgoing
letter_kept =
    ap (λ x. get dht net (5 ∷ []) x.1)
      (receive-sealed dht json dht-IsLawfulDht json-IsLawfulJson net alice bob (letter alice)
        (envelope alice) remote sender_ip (start_of net) letter-Fits letter-payload letter_source
        letter_destination sealed-letter letter_short start_waits entered_known refl)

get-Told_example : All (Told dht json net written_to arrival (5 ∷ [])) ((b'a' ∷ [], hi) ∷ [])
get-Told_example =
    get-Told dht json dht-IsLawfulDht net 4661 relay_ip 4662 arrival (5 ∷ []) ((b'a' ∷ [], hi) ∷ [])
      letter_kept

-- Where the copy comes from.
abbrev elsewhere : Endpoint net
elsewhere = (b'8' ∷ [], 88)

entered_again :
    net.make_address (entered_at dht json net (letter alice) elsewhere).0 ≡ some sender_ip
unfolding outgoing bytes_beq
entered_again = refl

receive_twice_example :
    get dht net
      (5 ∷ [])
      (receive dht json net bob
        (datagram (length (envelope alice)) (envelope alice) elsewhere)
        written_to).1
    ≡ some (
        or_empty (get dht net (5 ∷ []) (start_of net))
        ++ (((letter alice).source_login, (letter alice).payload.text)
            ∷ ((letter alice).source_login, (letter alice).payload.text)
            ∷ []))
receive_twice_example =
    receive_twice dht json dht-IsLawfulDht json-IsLawfulJson net alice bob (letter alice)
      (envelope alice) remote elsewhere sender_ip sender_ip (start_of net) letter-Fits
      letter-payload letter_source letter_destination sealed-letter letter_short start_waits
      entered_known entered_again (λ before d. refl)

-- Bob's messenger has started, and a thread handles the letter.
abbrev started_bob : Node dht net
started_bob = (start dht net bob 0 (start_of net)).1

abbrev letter_comes : Ready dht json net
letter_comes = event (datagram (length (envelope alice)) (envelope alice) remote)

abbrev letter_handled : Process dht json net
letter_handled = record (constructed dht json net bob started_bob) {
  node =
      (receive dht json net bob (datagram (length (envelope alice)) (envelope alice) remote)
        started_bob).1;
}

bob_waits : started_bob.waiting ≡ true
unfolding start initial_node Dht.put_signed Dht.listen bytes_beq
bob_waits = refl

handled :
    run dht json net
      (begins letter_comes ∷ finishes 0 ∷ [])
      (constructed dht json net bob started_bob)
    ≡ goes_on letter_handled
unfolding run step begin run_handler
handled =
    let p : Process dht json net = record (constructed dht json net bob started_bob) {
      running = ready letter_comes ∷ [];
    } in
    ap (λ x. continue dht json net x (run dht json net []))
      (finish_lem dht json net p 0 (ready letter_comes) [] refl refl
        ∙ outcome_ok dht json net (record p { running = [] })
            (receive dht json net bob (datagram (length (envelope alice)) (envelope alice) remote)
              started_bob)
            (ap (λ x. x.0)
              (receive-sealed dht json dht-IsLawfulDht json-IsLawfulJson net alice bob
                (letter alice) (envelope alice) remote sender_ip started_bob letter-Fits
                letter-payload letter_source letter_destination sealed-letter letter_short bob_waits
                entered_known refl)))

run-Log_example :
    let p : Process dht json net = constructed dht json net bob started_bob in
    let xs = begins letter_comes ∷ finishes 0 ∷ [] in
    ((log : Entries dht) × Written dht json net bob (finished dht json net xs p) log
      × (letter_handled.node.history ≡ replay dht log []))
    × Perm (tasks_posted dht json net xs) (
        tasks_in dht json net (finished dht json net xs p)
        ++ (tasks_in dht json net letter_handled.running ++ letter_handled.posted))
run-Log_example =
    run-Log dht json dht-IsLawfulDht net bob 4661 relay_ip 4662 0
      (begins letter_comes ∷ finishes 0 ∷ []) letter_handled (tt, (tt, tt)) handled
