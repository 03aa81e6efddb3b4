-- ===== src/Runtime/History.antt =====
-- The history of a messenger whose threads p2p_messenger_impl.cpp runs.
use mathlib.Core.List.{Perm}
use p2p_messenger.Prelude.{ℕ, ◌≡◌, ◌∙◌, refl, subst, List, [], ◌∷◌, ◌++◌, All, inl, inr}
use p2p_messenger.Prelude.Bytes.{Bytes}
use p2p_messenger.External.{OpenDht, IsLawfulDht, Json, Net}
use p2p_messenger.ChatHistory.{Line}
use p2p_messenger.ChatHistory.Log.{Entries, replay}
use p2p_messenger.Node.State.{Config, Node, Endpoint}
use p2p_messenger.Node.Receiver.{Event, failed, unread, datagram}
use p2p_messenger.Node.Messenger.{initial_node, start, receive}
use p2p_messenger.Node.Keyed.{NodeIsKeyed}
use p2p_messenger.Node.Keyed.Steps.{
  here, starts, sends, receives, punches, republishes, Step-NodeIsKeyed, Reach-NodeIsKeyed,
}
use p2p_messenger.Node.Origin.{Extends}
use p2p_messenger.Node.Origin.Datagram.{Authored, HeardAs, receive-Extends}
use p2p_messenger.Node.Origin.Task.{wrote_as, send_message-Extends}
use p2p_messenger.Node.Origin.Runs.{Keeps-start, history-on_timer}
use p2p_messenger.ChatPage.Page.{Task}
use p2p_messenger.ChatPage.Sending.{run_task}
use p2p_messenger.Runtime.{
  Process, Handler, task, ready, event, punch, republish, goes_on, Action, run, constructed,
  run_handler,
}
use p2p_messenger.Runtime.Counting.{tasks_in, tasks_posted}
use p2p_messenger.Runtime.Refines.{NoDestroy, Went, OnGoing, finished, run_handlers, run-Went}

module _ (D : OpenDht) (J : Json) (N : Net) where
  -- What a row of handlers may enter, in their order: a task its own text under the node's login, in
  -- the chat that it names; a datagram a line that it says under a signature that is good for the
  -- key of the chat; each at most once, and no other handler anything.
  pub data Written (c : Config D) : List (Handler D J N) → Entries D → Type 0 where
    nothing : Written c [] []
    silent :
        (h : Handler D J N) {hs : List (Handler D J N)} {log : Entries D}
        → Written c hs log
        → Written c (h ∷ hs) log
    wrote :
        (t : Task D) {hs : List (Handler D J N)} {log : Entries D}
        → Written c hs log
        → Written c (task t ∷ hs) ((t.public_key_id, (c.my_login, t.message)) ∷ log)
    heard :
        (available : ℕ) (b : Bytes) (remote : Endpoint N) (id : D.InfoHash) (line : Line)
        {hs : List (Handler D J N)} {log : Entries D}
        → Authored D J N c b id line
        → Written c hs log
        → Written c (ready (event (datagram available b remote)) ∷ hs) ((id, line) ∷ log)

  run_handler-NodeIsKeyed :
      (c : Config D) (h : Handler D J N) (s : Node D N)
      → NodeIsKeyed D N s
      → NodeIsKeyed D N (run_handler D J N c h s).1
  unfolding run_handler run_task
  run_handler-NodeIsKeyed c (task t) s v =
      Step-NodeIsKeyed D J N {c = c} (sends t.login t.public_key_id t.message) v
  run_handler-NodeIsKeyed c (ready (event e)) s v = Step-NodeIsKeyed D J N {c = c} (receives e) v
  run_handler-NodeIsKeyed c (ready (punch ec)) s v = Step-NodeIsKeyed D J N {c = c} (punches ec) v
  run_handler-NodeIsKeyed c (ready (republish ec)) s v =
      Step-NodeIsKeyed D J N {c = c} (republishes ec) v

module _ (D : OpenDht) (J : Json) (LD : IsLawfulDht D) (N : Net) where
  -- What the handlers have entered, as a log behind what was there.
  abbrev Wrote : Config D → List (Handler D J N) → Node D N → Type 0
  Wrote c hs s =
      (log : Entries D) × Written D J N c hs log
      × ((run_handlers D J N c hs s).history ≡ replay D log s.history)

  same_history :
      (c : Config D) (h : Handler D J N) (hs : List (Handler D J N)) (s : Node D N)
      → (run_handler D J N c h s).1.history ≡ s.history
      → Wrote c hs (run_handler D J N c h s).1
      → Wrote c (h ∷ hs) s
  unfolding run_handlers
  same_history c h hs s same (log, w, e) = (log, silent h w, e ∙ rw same)

  task-Wrote :
      (c : Config D) (t : Task D) (hs : List (Handler D J N)) (s : Node D N)
      → NodeIsKeyed D N s
      → Wrote c hs (run_handler D J N c (task t) s).1
      → Wrote c (task t ∷ hs) s
  unfolding run_handlers replay run_handler run_task
  task-Wrote c t hs s v (log, w, e) =
      elim (send_message-Extends D J LD N c t.login t.public_key_id t.message s v) [
        | inl same ↦ same_history c (task t) hs s same (log, w, e)
        | inr (id, line, wrote_as, grown) ↦
            ((t.public_key_id, (c.my_login, t.message)) ∷ log, wrote t w, e ∙ rw grown)
      ]

  event-Wrote :
      (c : Config D) (e : Event D J N) (hs : List (Handler D J N)) (s : Node D N)
      → Extends D N (HeardAs D J N c e) s.history (receive D J N c e s).1.history
      → Wrote c hs (run_handler D J N c (ready (event e)) s).1
      → Wrote c (ready (event e) ∷ hs) s
  unfolding run_handlers replay run_handler
  event-Wrote c e hs s (inl same) v = same_history c (ready (event e)) hs s same v
  event-Wrote c (datagram available b remote) hs s (inr (id, line, authored, grown)) (log, w, e) =
      ((id, line) ∷ log, heard available b remote id line authored w, e ∙ rw grown)
  event-Wrote c failed hs s (inr (id, line, authored, grown)) v = absurd authored
  event-Wrote c unread hs s (inr (id, line, authored, grown)) v = absurd authored

  run_handlers-Wrote :
      (c : Config D) (hs : List (Handler D J N)) (s : Node D N) → NodeIsKeyed D N s → Wrote c hs s
  unfolding run_handlers replay run_handler
  run_handlers-Wrote c [] s v = ([], nothing, refl)
  run_handlers-Wrote c (h ∷ hs) s v =
      first h (
        run_handlers-Wrote c hs (run_handler D J N c h s).1 (run_handler-NodeIsKeyed D J N c h s v))
    where
      first : (h : Handler D J N) → Wrote c hs (run_handler D J N c h s).1 → Wrote c (h ∷ hs) s
      first (task t) w = task-Wrote c t hs s v w
      first (ready (event e)) w = event-Wrote c e hs s (receive-Extends D J N c e s) w
      first (ready (punch ec)) w =
          same_history c (ready (punch ec)) hs s (history-on_timer D J N c.punch_buffer ec s) w
      first (ready (republish ec)) w = same_history c (ready (republish ec)) hs s refl w

  pub run-Log :
      (c : Config D) (port : ℕ) (ip : Bytes) (bootstrap_port token : ℕ) (xs : List (Action D J N))
      (q : Process D J N)
      → let p =
          constructed D J N c (start D N c token (initial_node D N port ip bootstrap_port)).1 in
        let hs = finished D J N xs p in
        All (NoDestroy D J N) xs
        → run D J N xs p ≡ goes_on q
        → ((log : Entries D) × Written D J N c hs log × (q.node.history ≡ replay D log []))
          × Perm
              (tasks_posted D J N xs)
              (tasks_in D J N hs ++ (tasks_in D J N q.running ++ q.posted))
  unfolding initial_node
  run-Log c port ip bootstrap_port token xs q n e =
      let s = initial_node D N port ip bootstrap_port in
      let t = (start D N c token s).1 in
      let p : Process D J N = constructed D J N c t in
      let v =
        subst (OnGoing D J N (Went D J N p (tasks_posted D J N xs) (finished D J N xs p))) e
          (run-Went D J N xs p n) in
      let (log, w, f) = run_handlers-Wrote c (finished D J N xs p) t (
        Step-NodeIsKeyed D J N {c = c} (starts token)
          (Reach-NodeIsKeyed D J N {c = c} port ip bootstrap_port here)) in
      (
        (log, w, rw v.came (f ∙ rw ((Keeps-start D J N c token s.history).keeps s refl))),
        v.conserved,
      )
