-- ===== src/Runtime/Tasks.antt =====
-- The tasks of `send_message` on the threads of p2p_messenger_impl.cpp.
use p2p_messenger.Prelude.{ℕ, ◌≡◌, refl, ◌∙◌, some, true, List, [], ◌∷◌, ◌++◌}
use p2p_messenger.Prelude.Outcome.{Outcome, ok, throw, undefined}
use p2p_messenger.External.{OpenDht, Json, Net}
use p2p_messenger.Node.State.{Config, Node}
use p2p_messenger.Node.Keyed.{NodeIsKeyed}
use p2p_messenger.Node.Keyed.Sender.{send_message-NodeIsKeyed}
use p2p_messenger.Node.Safety.{send_message_returns}
use p2p_messenger.ChatPage.Page.{Task}
use p2p_messenger.ChatPage.Sending.{run_task}
use p2p_messenger.Runtime.{
  Process, Handler, task, goes_on, members, take_at, begin_task, finish, run_handler, outcome,
  may_begin,
}
use p2p_messenger.Runtime.Threads.{finish_lem}

module _ (D : OpenDht) (J : Json) (N : Net) where
  pub outcome_ok :
      (p : Process D J N) (x : Outcome (Unit {0}) × Node D N)
      → x.0 ≡ ok tt
      → outcome D J N p x ≡ goes_on (record p { node = x.1 })
  outcome_ok p (ok t, s) e = refl
  outcome_ok p (throw x, s) e = absurd (cc e)
  outcome_ok p (undefined, s) e = absurd (cc e)

  run_task_returns :
      (c : Config D) (t : Task D) (s : Node D N)
      → NodeIsKeyed D N s
      → (run_task D J N c t s).0 ≡ ok tt
  unfolding run_task
  run_task_returns c t s v = send_message_returns D J N c t.login t.public_key_id t.message s v

  pub run_task-NodeIsKeyed :
      (c : Config D) (t : Task D) (s : Node D N)
      → NodeIsKeyed D N s
      → NodeIsKeyed D N (run_task D J N c t s).1
  unfolding run_task
  run_task-NodeIsKeyed c t s v =
      send_message-NodeIsKeyed D J N c t.login t.public_key_id t.message s v

  pub finish_task :
      (p : Process D J N) (n : ℕ) (t : Task D) (rest : List (Handler D J N))
      → p.alive ≡ members
      → take_at n p.running ≡ some (task t, rest)
      → NodeIsKeyed D N p.node
      → finish D J N n p
        ≡ goes_on (record p { running = rest; node = (run_task D J N p.config t p.node).1 })
  unfolding run_handler
  finish_task p n t rest e f v =
      finish_lem D J N p n (task t) rest e f
      ∙ outcome_ok (record p { running = rest }) (run_task D J N p.config t p.node)
          (run_task_returns p.config t p.node v)

  pub begin_task_free :
      (p : Process D J N) (n : ℕ) (t : Task D) (rest : List (Task D))
      → take_at n p.posted ≡ some (t, rest)
      → may_begin D J N p ≡ true
      → begin_task D J N n p ≡ record p { posted = rest; running = p.running ++ (task t ∷ []) }
  unfolding begin_task
  begin_task_free p n t rest e free = rw (e, begin_task, free)
