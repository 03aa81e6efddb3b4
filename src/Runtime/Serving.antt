-- ===== src/Runtime/Serving.antt =====
-- Any interleaving of tasks on the threads of p2p_messenger_impl.cpp.
use p2p_messenger.Prelude.{
  ℕ, ◌≤◌, ◌<◌, ◌≡◌, refl, ◌∙◌, Bool, true, some, List, [], ◌∷◌, ◌++◌, length, All, All-append,
  arith, leb, Bool-cases, Option-cases, inl, inr, length-append, not, ◌||◌,
}
use p2p_messenger.Prelude.Bytes.{Bytes}
use p2p_messenger.Prelude.Outcome.{ok}
use p2p_messenger.ChatPage.Sending.{run_task}
use p2p_messenger.External.{OpenDht, Json, Net}
use p2p_messenger.Resolver.Dht
use p2p_messenger.Node.State.{Config, Node}
use p2p_messenger.Node.Receiver.{failed, unread, datagram, deliver, async_wait_handler, async_wait}
use p2p_messenger.Node.Messenger.{initial_node, receive}
use p2p_messenger.Node.Keyed.{NodeIsKeyed}
use p2p_messenger.Node.Keyed.Steps.{
  Reach, republishes, receives, Step-NodeIsKeyed, Reach-NodeIsKeyed,
}
use p2p_messenger.ChatPage.Page.{Task}
use p2p_messenger.Runtime.{
  Process, Handler, task, ready, event, punch, republish, goes_on, Action, posts, begins_task,
  begins, finishes, shuts_down, destroys, run, step, members, take_at, begin, begin_task, finish,
  run_handler, shut_down, post_task, constructed, num_threads, may_begin,
}
use p2p_messenger.Runtime.Threads.{take_at-All, finish_lem}
use p2p_messenger.Runtime.Tasks.{outcome_ok, finish_task, run_task-NodeIsKeyed}

free_lt : (b : Bool) (n : ℕ) → not (b || leb num_threads n) ≡ true → n < num_threads
free_lt b n e = ground arith

module _ (D : OpenDht) (J : Json) (N : Net) where
  -- Handlers that meet nothing from outside: tasks, the republication, and a wait that failed.
  abbrev pub IsHarmless : Handler D J N → Type 0
  IsHarmless (task t) = Unit
  IsHarmless (ready (event failed)) = Unit
  IsHarmless (ready (event unread)) = ⊥
  IsHarmless (ready (event (datagram available b remote))) = ⊥
  IsHarmless (ready (punch ec)) = ⊥
  IsHarmless (ready (republish ec)) = Unit

  -- What does not destroy a member, and lets only such handlers begin.
  abbrev pub IsAllowed : Action D J N → Type 0
  IsAllowed (posts t) = Unit
  IsAllowed (begins_task n) = Unit
  IsAllowed (begins x) = IsHarmless (ready x)
  IsAllowed (finishes n) = Unit
  IsAllowed shuts_down = Unit
  IsAllowed destroys = ⊥

  pub record IsServing (p : Process D J N) : Type 0 where
    pub alive : p.alive ≡ members
    pub keyed : NodeIsKeyed D N p.node
    pub harmless : All IsHarmless p.running
    pub bounded : length p.running ≤ num_threads

  room-IsServing :
      (h : Handler D J N) (posted : List (Task D)) (p : Process D J N)
      → may_begin D J N p ≡ true
      → IsHarmless h
      → IsServing p
      → IsServing (record p { posted = posted; running = p.running ++ (h ∷ []) })
  room-IsServing h posted p free i v = record {
    alive = v.alive;
    keyed = v.keyed;
    harmless = All-append IsHarmless p.running (h ∷ []) v.harmless (i, tt);
    bounded =
        omega (arith, length-append p.running (h ∷ []), free_lt p.stopped (length p.running) free);
  }

  begin-IsServing :
      (h : Handler D J N) (p : Process D J N)
      → IsHarmless h
      → IsServing p
      → IsServing (begin D J N h p)
  unfolding begin
  begin-IsServing h p i v = elim (Bool-cases (may_begin D J N p)) [
    | inl free ↦ rw free (room-IsServing h p.posted p free i v)
    | inr busy ↦ rw busy v
  ]

  receive_failed : (c : Config D) (s : Node D N) → (receive D J N c failed s).0 ≡ ok tt
  unfolding receive deliver async_wait_handler async_wait
  receive_failed c s = ground arith

  -- What a harmless handler comes to.
  finish_harmless :
      (p : Process D J N) (n : ℕ) (h : Handler D J N) (rest : List (Handler D J N))
      → IsServing p
      → take_at n p.running ≡ some (h, rest)
      → IsHarmless h
      → (s : Node D N) × (finish D J N n p ≡ goes_on (record p { running = rest; node = s }))
        × NodeIsKeyed D N s
  unfolding run_handler
  finish_harmless p n (task t) rest v e i = (
    (run_task D J N p.config t p.node).1,
    finish_task D J N p n t rest v.alive e v.keyed,
    run_task-NodeIsKeyed D J N p.config t p.node v.keyed,
  )
  finish_harmless p n (ready (event failed)) rest v e i = (
    (receive D J N p.config failed p.node).1,
    finish_lem D J N p n (ready (event failed)) rest v.alive e
        ∙ outcome_ok D J N (record p { running = rest }) (receive D J N p.config failed p.node)
            (receive_failed p.config p.node),
    Step-NodeIsKeyed D J N (receives failed) v.keyed,
  )
  finish_harmless p n (ready (event unread)) rest v e i = absurd i
  finish_harmless p n (ready (event (datagram available b remote))) rest v e i = absurd i
  finish_harmless p n (ready (punch ec)) rest v e i = absurd i
  finish_harmless p n (ready (republish ec)) rest v e i = (
    record p.node { dht = Dht.fire D ec p.node.dht },
    finish_lem D J N p n (ready (republish ec)) rest v.alive e,
    Step-NodeIsKeyed D J N {c = p.config} (republishes ec) v.keyed,
  )

  finish-IsServing :
      (n : ℕ) (p : Process D J N)
      → IsServing p
      → (q : Process D J N) × (finish D J N n p ≡ goes_on q) × IsServing q
  unfolding finish
  finish-IsServing n p v = elim (Option-cases (take_at n p.running)) [
    | inl e ↦ (p, rw (e, finish), v)
    | inr ((h, rest), e) ↦
        let (i, all, size) = take_at-All IsHarmless n p.running e v.harmless in
        let (s, f, keyed) = finish_harmless p n h rest v e i in
        (
          record p { running = rest; node = s },
          f,
          record {
            alive = v.alive;
            keyed = keyed;
            harmless = all;
            bounded = omega (arith, size, v.bounded);
          },
        )
  ]

  begin_task-IsServing :
      (n : ℕ) (p : Process D J N) → IsServing p → IsServing (begin_task D J N n p)
  unfolding begin_task
  begin_task-IsServing n p v = elim (Option-cases (take_at n p.posted)) [
    | inl e ↦ rw (e, begin_task) v
    | inr ((t, rest), e) ↦ elim (Bool-cases (may_begin D J N p)) [
      | inl free ↦ rw (e, begin_task, free) (room-IsServing (task t) rest p free tt v)
      | inr busy ↦ rw (e, begin_task, busy) v
    ]
  ]

  step-IsServing :
      (x : Action D J N) (p : Process D J N)
      → IsAllowed x
      → IsServing p
      → (q : Process D J N) × (step D J N x p ≡ goes_on q) × IsServing q
  unfolding step post_task shut_down
  step-IsServing (posts t) p i v = (
    record p { posted = p.posted ++ (t ∷ []) },
    rw v.alive,
    record { alive = v.alive; keyed = v.keyed; harmless = v.harmless; bounded = v.bounded },
  )
  step-IsServing (begins_task n) p i v = (begin_task D J N n p, refl, begin_task-IsServing n p v)
  step-IsServing (begins x) p i v = (begin D J N (ready x) p, refl, begin-IsServing (ready x) p i v)
  step-IsServing (finishes n) p i v = finish-IsServing n p v
  step-IsServing shuts_down p i v = (
    shut_down D J N p,
    refl,
    record { alive = v.alive; keyed = v.keyed; harmless = v.harmless; bounded = v.bounded },
  )
  step-IsServing destroys p i v = absurd i

  run-IsServing :
      (xs : List (Action D J N)) (p : Process D J N)
      → All IsAllowed xs
      → IsServing p
      → (q : Process D J N) × (run D J N xs p ≡ goes_on q) × IsServing q
  unfolding run
  run-IsServing [] p i v = (p, refl, v)
  run-IsServing (x ∷ xs) p i v =
      let (q, e, w) = step-IsServing x p i.0 v in
      let (r, f, u) = run-IsServing xs q i.1 w in (r, rw (e, f), u)

  -- However the threads interleave the tasks of `send_message`, the republications and the waits
  -- that fail, from any state that the messenger comes to after its start: no exception leaves a
  -- thread, nothing undefined happens, and at most four handlers are in a thread at once; as long as
  -- no member is destroyed.
  pub tasks_go_on :
      (c : Config D) (port : ℕ) (ip : Bytes) (bootstrap_port : ℕ) (s : Node D N)
      (xs : List (Action D J N))
      → Reach D J N c (initial_node D N port ip bootstrap_port) s
      → All IsAllowed xs
      → (q : Process D J N) × (run D J N xs (constructed D J N c s) ≡ goes_on q)
        × (length q.running ≤ 4)
  tasks_go_on c port ip bootstrap_port s xs w i =
      let (q, e, v) = run-IsServing xs (constructed D J N c s) i (record {
        alive = refl;
        keyed = Reach-NodeIsKeyed D J N port ip bootstrap_port w;
        harmless = tt;
        bounded = omega arith;
      }) in
      (q, e, v.bounded)
