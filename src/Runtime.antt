-- ===== src/Runtime.antt =====
-- The threads of a messenger, and its end: p2p_messenger_impl.cpp, with the order of the members in
-- p2p_messenger_impl.h. A handler begins on one of the threads and acts when it finishes, so that
-- any other thread, and the thread that destroys the messenger, may come in between.
mod Members
pub mod Threads
pub mod Shutdown
pub mod Idle
pub mod Tasks
pub mod Counting
pub mod Refines
pub mod History
pub mod Overtaking
pub mod Termination
pub mod Serving
pub use Members.*
use p2p_messenger.Prelude.{
  ℕ, zero, suc, Bool, true, false, not, ◌&&◌, ◌||◌, Option, none, some, List, [], ◌∷◌, ◌++◌, length,
  leb, ◌==◌, if◌then◌else◌,
}
use p2p_messenger.Prelude.Outcome.{Outcome, ok, throw, undefined}
use p2p_messenger.Prelude.Program.{Program, modify}
use p2p_messenger.External.{OpenDht, Json, Net}
use p2p_messenger.Resolver.Dht
use p2p_messenger.Node.State.{Config, Node}
use p2p_messenger.Node.HolePuncher.{on_timer}
use p2p_messenger.Node.Receiver.{Event}
use p2p_messenger.Node.Messenger.{receive}
use p2p_messenger.ChatPage.Page.{Task}
use p2p_messenger.ChatPage.Sending.{run_task}

module _ (D : OpenDht) (J : Json) (N : Net) where
  -- The handlers of the socket, of a hole puncher's timer and of the resolver's timer. Which of them
  -- is ready, and when, is left open.
  pub data Ready : Type 0 where
    event : Event D J N → Ready
    punch : Bool → Ready
    republish : Bool → Ready

  -- What the io_context runs: these, and the tasks of `send_message`.
  pub data Handler : Type 0 where
    task : Task D → Handler
    ready : Ready → Handler

  -- The members that a handler works with.
  abbrev pub uses : Handler → List Member
  uses (task t) =
      metadata_ip_resolver ∷ dht_ip_resolver ∷ message_sender ∷ socket ∷ chat_history ∷ []
  uses (ready (event e)) =
      message_receiver ∷ socket ∷ metadata_ip_resolver ∷ udp_hole_puncher ∷ chat_history ∷ []
  uses (ready (punch ec)) = udp_hole_puncher ∷ socket ∷ []
  uses (ready (republish ec)) = dht_ip_resolver ∷ []

  unfoldable pub run_handler : Config D → Handler → Program (Node D N) (Unit {0})
  run_handler c (task t) = run_task D J N c t
  run_handler c (ready (event e)) = receive D J N c e
  run_handler c (ready (punch ec)) = on_timer D N c.punch_buffer ec
  run_handler c (ready (republish ec)) = modify λ s. record s { dht = Dht.fire D ec s.dht }

  pub record Process : Type 0 where
    pub config : Config D
    pub node : Node D N
    pub alive : List Member
    -- the tasks that no thread has taken yet, in the order of posting
    pub posted : List (Task D)
    -- the handlers that a thread is in, the latest last
    pub running : List Handler
    pub guarded : Bool
    pub stopped : Bool
    pub is_open : Bool
    -- the members whose destructors have called `socket_.close()`, in their order
    pub closings : List Member

  -- What comes of a step. An exception that leaves a handler leaves `io_context_.run()` and the
  -- function of the thread, which is `std::terminate`; `corrupted` is undefined behaviour.
  pub data Fate : Type 0 where
    goes_on : Process → Fate
    terminated : Fate
    corrupted : Fate

  -- The process after the constructor.
  abbrev pub constructed : Config D → Node D N → Process
  constructed c s = record {
    config = c;
    node = s;
    alive = members;
    posted = [];
    running = [];
    guarded = true;
    stopped = false;
    is_open = true;
    closings = [];
  }

  -- A thread is free, and `io_context_.stop()` was not called.
  abbrev pub may_begin : Process → Bool
  may_begin p = not (p.stopped || leb num_threads (length p.running))

  unfoldable pub begin : Handler → Process → Process
  begin h p = if may_begin p then record p { running = p.running ++ (h ∷ []) } else p

  -- A thread takes the task at a position: any of the posted ones may be next, since nothing is
  -- relied on in which order the io_context hands them out.
  unfoldable pub begin_task : ℕ → Process → Process
  begin_task n p = elim (take_at n p.posted) [
    | none ↦ p
    | some (t, rest) ↦
        if may_begin p then record p { posted = rest; running = p.running ++ (task t ∷ []) } else p
  ]

  abbrev pub outcome : Process → Outcome (Unit {0}) × Node D N → Fate
  outcome p (ok t, s) = goes_on (record p { node = s })
  outcome p (throw e, s) = terminated
  outcome p (undefined, s) = corrupted

  -- The handler at a position does its work and returns: its body is one piece here, so that what
  -- comes in between the bodies of two handlers is seen, and what interleaves within them is not.
  -- One that works with a destroyed member is
  -- counted as undefined behaviour, whichever of them it comes to first.
  unfoldable pub finish : ℕ → Process → Fate
  unfolding run_handler
  finish n p = elim (take_at n p.running) [
    | none ↦ goes_on p
    | some (h, rest) ↦
        if are_alive p.alive (uses h)
        then outcome (record p { running = rest }) (run_handler p.config h p.node)
        else corrupted
  ]

  -- `net::post` in `send_message`.
  unfoldable pub post_task : Task D → Process → Fate
  post_task t p =
      if is_alive p.alive io_context
      then goes_on (record p { posted = p.posted ++ (t ∷ []) })
      else corrupted

  -- The body of the destructor.
  unfoldable pub shut_down : Process → Process
  shut_down p = record p { guarded = false; stopped = true }

  -- `socket_.close()` in the destructor of the sender.
  unfoldable pub end_message_sender : Process → Process
  end_message_sender p = record p {
    is_open = false;
    closings = p.closings ++ (message_sender ∷ []);
  }

  -- And in that of the receiver.
  unfoldable pub end_message_receiver : Process → Process
  end_message_receiver p = record p {
    is_open = false;
    closings = p.closings ++ (message_receiver ∷ []);
  }

  -- The destructor of a member. That of a socket closes it, where it is open still; an io_context
  -- destroys the handlers that it has not run.
  unfoldable pub end_of : Member → Process → Process
  unfolding end_message_sender end_message_receiver
  end_of dht_ip_resolver p = record p { node = record p.node { dht = Dht.destroy D p.node.dht } }
  end_of message_receiver p = end_message_receiver p
  end_of message_sender p = end_message_sender p
  end_of socket p = record p { is_open = false }
  end_of io_context p = record p {
    posted = [];
    node = record p.node { timers = []; waiting = false; dht = record p.node.dht { timer = [] } };
  }
  end_of _ p = p

  abbrev is_nil : {A : Type 0} → List A → Bool
  is_nil [] = true
  is_nil (x ∷ xs) = false

  -- `~jthread` joins: it waits for as long as a thread is in a handler.
  abbrev pub blocks : Member → Process → Bool
  blocks threads p = not (is_nil p.running)
  blocks _ p = false

  -- The next member is destroyed, if that does not wait.
  unfoldable pub destroy_next : Process → Process
  unfolding end_of
  destroy_next p = elim p.alive [
    | [] ↦ p
    | m ∷ rest ↦ if blocks m p then p else end_of m (record p { alive = rest })
  ]

  pub data Action : Type 0 where
    posts : Task D → Action
    begins_task : ℕ → Action
    begins : Ready → Action
    finishes : ℕ → Action
    shuts_down : Action
    destroys : Action

  unfoldable pub step : Action → Process → Fate
  unfolding post_task begin_task begin finish shut_down destroy_next
  step (posts t) p = post_task t p
  step (begins_task n) p = goes_on (begin_task n p)
  step (begins x) p = goes_on (begin (ready x) p)
  step (finishes n) p = finish n p
  step shuts_down p = goes_on (shut_down p)
  step destroys p = goes_on (destroy_next p)

  abbrev pub continue : Fate → (Process → Fate) → Fate
  continue (goes_on p) f = f p
  continue terminated f = terminated
  continue corrupted f = corrupted

  unfoldable pub run : List Action → Process → Fate
  unfolding step
  run [] p = goes_on p
  run (x ∷ xs) p = continue (step x p) (run xs)
