-- ===== src/Runtime/Overtaking.antt =====
-- Two tasks of `send_message` on two threads of p2p_messenger_impl.cpp.
use p2p_messenger.Prelude.{◌≡◌, refl, ◌∙◌, ap, false, List, [], ◌∷◌}
use p2p_messenger.External.{OpenDht, Json, Net}
use p2p_messenger.Node.Keyed.{NodeIsKeyed}
use p2p_messenger.ChatPage.Page.{Task}
use p2p_messenger.ChatPage.Sending.{run_task}
use p2p_messenger.Runtime.{
  Process, task, goes_on, begins_task, finishes, run, step, members, begin_task, continue,
}
use p2p_messenger.Runtime.Tasks.{begin_task_free, finish_task, run_task-NodeIsKeyed}

module _ (D : OpenDht) (J : Json) (N : Net) where
  begin_two :
      (p : Process D J N) (t u : Task D) (rest : List (Task D))
      → p.posted ≡ t ∷ u ∷ rest
      → p.running ≡ []
      → p.stopped ≡ false
      → begin_task D J N 0 (begin_task D J N 0 p)
        ≡ record p { posted = rest; running = task t ∷ task u ∷ [] }
  begin_two p t u rest e f g =
      ap (begin_task D J N 0) (begin_task_free D J N p 0 t (u ∷ rest) (rw e) (rw (f, g)) ∙ rw f)
      ∙ begin_task_free D J N (record p { posted = u ∷ rest; running = task t ∷ [] }) 0 u rest refl
          (rw g)

  -- Of two posted tasks that two threads take in the order of posting, the second may run to its end
  -- before the first acts;
  -- in a messenger whose books are keyed, of which no member is destroyed, with no handler in a
  -- thread, and whose io_context is not stopped.
  pub task_overtakes :
      (p : Process D J N) (t u : Task D) (rest : List (Task D))
      → p.posted ≡ t ∷ u ∷ rest
      → p.running ≡ []
      → p.stopped ≡ false
      → p.alive ≡ members
      → NodeIsKeyed D N p.node
      → run D J N (begins_task 0 ∷ begins_task 0 ∷ finishes 1 ∷ finishes 0 ∷ []) p
        ≡ goes_on (record p {
          posted = rest;
          running = [];
          node = (run_task D J N p.config t (run_task D J N p.config u p.node).1).1;
        })
  unfolding run step
  task_overtakes p t u rest e f g alive v =
      let q : Process D J N = record p { posted = rest; running = task t ∷ task u ∷ [] } in
      let s = (run_task D J N p.config u p.node).1 in
      let r : Process D J N = record q { running = task t ∷ []; node = s } in
      ap (run D J N (finishes 1 ∷ finishes 0 ∷ [])) (begin_two p t u rest e f g)
      ∙ ap (λ x. continue D J N x (run D J N (finishes 0 ∷ [])))
          (finish_task D J N q 1 u (task t ∷ []) alive refl v)
      ∙ ap (λ x. continue D J N x (run D J N []))
          (finish_task D J N r 0 t [] alive refl (run_task-NodeIsKeyed D J N p.config u p.node v))
