-- ===== src/Examples/Runtime.antt =====
-- A messenger's threads at work, and its end.
use mathlib.Core.List.{Perm}
use p2p_messenger.Prelude.{
  ℕ, List, map, ◌≤◌, ◌≡◌, refl, false, [], ◌∷◌, ◌++◌, replicate, length, arith,
}
use p2p_messenger.Resolver.Book.{empty_book}
use p2p_messenger.Resolver.Dht.{dht_ip_resolver, cancel_listen, join}
use p2p_messenger.Prelude.Bytes.{Bytes}
use p2p_messenger.Resolver.Keyed.{put-IsKeyed, empty_book-IsKeyed}
use p2p_messenger.Node.Receiver.{failed, datagram}
use p2p_messenger.Node.Messenger.{initial_node}
use p2p_messenger.Node.Keyed.{NodeIsKeyed}
use p2p_messenger.Node.Keyed.Steps.{here}
use p2p_messenger.ChatPage.Page.{Task}
use p2p_messenger.ChatPage.Sending.{run_task}
use p2p_messenger.Runtime.{
  Process, ready, event, punch, task, goes_on, terminated, corrupted, posts, begins_task, begins,
  finishes, shuts_down, destroys, run, finish, constructed, message_receiver, message_sender,
}
use p2p_messenger.Runtime.Serving.{tasks_go_on}
use p2p_messenger.Runtime.Overtaking.{task_overtakes}
use p2p_messenger.Runtime.Termination.{receive_terminates}
use p2p_messenger.Runtime.Shutdown.{destruction, shutdown_races, destruction_lem}
use p2p_messenger.Runtime.Idle.{shut_down_idle}
use p2p_messenger.Examples.Libraries.{dht, json, net}
use p2p_messenger.Examples.Nodes.{alice, start_of, knowing, receiver_ip, relay_ip, hi}
use p2p_messenger.Examples.Letters.{
  config, node, remote, signed_as, bytes_as, closed, node_waits, keyless_signed,
  keyless_destination, keyless_header,
}

abbrev greeting : Task dht
greeting = record { login = b'b' ∷ []; public_key_id = 6 ∷ []; message = hi }

abbrev farewell : Task dht
farewell = record { login = b'b' ∷ []; public_key_id = 6 ∷ []; message = b'x' ∷ [] }

knowing-IsKeyed : NodeIsKeyed dht net (knowing net)
unfolding initial_node dht_ip_resolver
knowing-IsKeyed = record {
  metadata =
      put-IsKeyed dht (b'b' ∷ []) (6 ∷ []) receiver_ip 4660 {b = empty_book dht}
        (empty_book-IsKeyed dht);
  dht = empty_book-IsKeyed dht;
}

-- Two tasks wait.
abbrev busy : Process dht json net
busy = record (constructed dht json net alice (knowing net)) { posted = greeting ∷ farewell ∷ [] }

tasks_go_on_example :
    (q : Process dht json net) × (run dht json net
        (posts greeting ∷ begins_task 0 ∷ begins (event failed) ∷ finishes 1 ∷ finishes 0 ∷ [])
        (constructed dht json net alice (start_of net))
      ≡ goes_on q)
    × (length q.running ≤ 4)
tasks_go_on_example =
    tasks_go_on dht json net alice 4661 relay_ip 4662 (start_of net)
      (posts greeting ∷ begins_task 0 ∷ begins (event failed) ∷ finishes 1 ∷ finishes 0 ∷ []) here
      (tt, (tt, (tt, (tt, (tt, tt)))))

task_overtakes_example :
    run dht json net (begins_task 0 ∷ begins_task 0 ∷ finishes 1 ∷ finishes 0 ∷ []) busy
    ≡ goes_on (record busy {
      posted = [];
      running = [];
      node =
          (run_task dht json net busy.config greeting
            (run_task dht json net busy.config farewell busy.node).1).1;
    })
task_overtakes_example =
    task_overtakes dht json net busy greeting farewell [] refl refl refl refl knowing-IsKeyed

-- A datagram without keys has come.
abbrev attacked : Process dht json net
attacked = record (constructed dht json net (config (7 ∷ []) false) node) {
  running = ready (event (datagram (length (bytes_as [] [])) (bytes_as [] []) remote)) ∷ [];
}

receive_terminates_example : finish dht json net 0 attacked ≡ terminated
receive_terminates_example =
    receive_terminates dht json net attacked 0 [] (bytes_as [] []) (b'k' ∷ 6 ∷ []) (signed_as [] [])
      (closed []) remote refl refl node_waits keyless_signed keyless_destination (ground arith)
      keyless_header refl refl

-- A thread is in a task.
abbrev sending : Process dht json net
sending = record busy { posted = []; running = task greeting ∷ [] }

shutdown_races_example :
    run dht json net ((shuts_down ∷ replicate 9 destroys) ++ (finishes 0 ∷ [])) sending ≡ corrupted
shutdown_races_example = shutdown_races dht json net sending 0 (task greeting) [] refl refl

destruction_lem_example :
    (q : Process dht json net) × (run dht json net (destruction dht json net) busy ≡ goes_on q)
    × (q.alive ≡ [])
    × ((registrations : List (Bytes × ℕ)) × Perm registrations
          (map (λ (entry : Bytes × ℕ). (dht.hash entry.0, entry.1)) busy.node.dht.login_to_token)
        × (q.node.dht.calls
            ≡ busy.node.dht.calls
              ++ (map (λ (c : Bytes × ℕ). cancel_listen c.0 c.1) registrations ++ (join ∷ []))))
    × (q.closings ≡ message_receiver ∷ message_sender ∷ [])
    × (q.is_open ≡ false)
    × (q.posted ≡ [])
    × (q.node.timers ≡ [])
    × (q.node.dht.timer ≡ [])
    × (q.node.waiting ≡ false)
    × (q.node.history ≡ busy.node.history)
destruction_lem_example = destruction_lem dht json net busy refl refl refl

shut_down_idle_example :
    (q : Process dht json net) × (run dht json net
        (shuts_down ∷ begins_task 0 ∷ begins (punch false) ∷ destroys ∷ finishes 0 ∷ [])
        busy
      ≡ goes_on q)
    × (q.running ≡ [])
    × (q.node.history ≡ busy.node.history)
shut_down_idle_example =
    shut_down_idle dht json net (begins_task 0 ∷ begins (punch false) ∷ destroys ∷ finishes 0 ∷ [])
      busy refl (tt, (tt, (tt, (tt, tt))))
