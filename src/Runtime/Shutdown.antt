-- ===== src/Runtime/Shutdown.antt =====
-- The destructor of p2p_messenger_impl.cpp and the order of the members in p2p_messenger_impl.h:
-- what a handler that is still in a thread comes to, and the end of a messenger without one.
use p2p_messenger.Prelude.{
  ℕ, ◌≡◌, true, false, some, List, [], ◌∷◌, ◌++◌, replicate, ◌∙◌, refl, map, append_assoc,
}
use p2p_messenger.Prelude.Bytes.{Bytes}
use mathlib.Core.List.{Perm}
use p2p_messenger.External.{OpenDht, Json, Net}
use p2p_messenger.Resolver.Dht
use p2p_messenger.Resolver.Dht.{cancel_listen, join}
use p2p_messenger.Resolver.Dht.Listening.{destroy_calls}
use p2p_messenger.Runtime.{
  Process, Handler, task, ready, event, punch, republish, goes_on, corrupted, Action, finishes,
  shuts_down, destroys, run, step, members, take_at, finish, shut_down, destroy_next, end_of,
  threads, message_receiver, message_sender, end_message_sender, end_message_receiver,
}
use p2p_messenger.Runtime.Threads.{run-append}

module _ (D : OpenDht) (J : Json) (N : Net) where
  -- The destructor: its body, then all members.
  abbrev pub destruction : List (Action D J N)
  destruction = shuts_down ∷ replicate 10 destroys

  -- All members but the threads are destroyed.
  abbrev without_members : Process D J N → Process D J N
  without_members p = record p {
    node = record p.node {
      dht = record (Dht.destroy D p.node.dht) { timer = [] };
      timers = [];
      waiting = false;
    };
    alive = threads ∷ [];
    posted = [];
    guarded = false;
    stopped = true;
    is_open = false;
    closings = p.closings ++ (message_receiver ∷ message_sender ∷ []);
  }

  destroyed :
      (p : Process D J N)
      → p.alive ≡ members
      → run D J N (shuts_down ∷ replicate 9 destroys) p ≡ goes_on (without_members p)
  unfolding run step shut_down destroy_next end_of
  destroyed p e = rw (e, append_assoc)

  finish_late :
      (p : Process D J N) (n : ℕ) (h : Handler D J N) (rest : List (Handler D J N))
      → take_at n p.running ≡ some (h, rest)
      → run D J N (finishes n ∷ []) (without_members p) ≡ corrupted
  unfolding run step finish
  finish_late p n (task t) rest e = rw (finish, e)
  finish_late p n (ready (event x)) rest e = rw (finish, e)
  finish_late p n (ready (punch ec)) rest e = rw (finish, e)
  finish_late p n (ready (republish ec)) rest e = rw (finish, e)

  -- Nothing waits for the handlers that are in a thread when a messenger is destroyed: all members
  -- but the threads can be destroyed before any of the handlers acts, which is then undefined
  -- behaviour.
  pub shutdown_races :
      (p : Process D J N) (n : ℕ) (h : Handler D J N) (rest : List (Handler D J N))
      → p.alive ≡ members
      → take_at n p.running ≡ some (h, rest)
      → run D J N ((shuts_down ∷ replicate 9 destroys) ++ (finishes n ∷ [])) p ≡ corrupted
  shutdown_races p n h rest e f =
      run-append D J N (shuts_down ∷ replicate 9 destroys) (finishes n ∷ []) p
      ∙ rw (destroyed p e) (finish_late p n h rest f)

  -- Where no thread is in a handler, the destructor runs to its end, for a messenger of which no
  -- member is destroyed and whose socket nobody has closed: each registration with the DHT is given
  -- back, once, with the key of its login and its token, and then the node is joined; the receiver
  -- closes the socket, then the sender does; no handler waits any more; the history is as it was.
  pub destruction_lem :
      (p : Process D J N)
      → p.alive ≡ members
      → p.running ≡ []
      → p.closings ≡ []
      → (q : Process D J N) × (run D J N destruction p ≡ goes_on q)
        × (q.alive ≡ [])
        × ((registrations : List (D.InfoHash × ℕ)) × Perm registrations
              (map (λ (entry : Bytes × ℕ). (D.hash entry.0, entry.1)) p.node.dht.login_to_token)
            × (q.node.dht.calls
                ≡ p.node.dht.calls
                  ++ (map (λ (c : D.InfoHash × ℕ). cancel_listen c.0 c.1) registrations
                      ++ (join ∷ []))))
        × (q.closings ≡ message_receiver ∷ message_sender ∷ [])
        × (q.is_open ≡ false)
        × (q.posted ≡ [])
        × (q.node.timers ≡ [])
        × (q.node.dht.timer ≡ [])
        × (q.node.waiting ≡ false)
        × (q.node.history ≡ p.node.history)
  unfolding run step shut_down destroy_next end_of end_message_sender end_message_receiver
  destruction_lem p e f g = (
    record (without_members p) {
      alive = [];
      running = [];
      closings = message_receiver ∷ message_sender ∷ [];
    },
    rw (e, f, g),
    refl,
    destroy_calls D p.node.dht,
    refl,
    refl,
    refl,
    refl,
    refl,
    refl,
    refl,
  )
