-- ===== src/Runtime/Refines.antt =====
-- The process of p2p_messenger_impl.cpp against the handlers that finish in it, one after another.
use mathlib.Core.List.Perm
use mathlib.Core.List.{Perm}
use p2p_messenger.Prelude.{
  ℕ, ◌≡◌, refl, ◌∙◌, List, [], ◌∷◌, ◌++◌, append-nil, append_assoc, All, Bool-cases, Option-cases,
  Option, none, some, inl, inr,
}
use p2p_messenger.Prelude.Outcome.{Outcome, ok, throw, undefined}
use p2p_messenger.External.{OpenDht, Json, Net}
use p2p_messenger.Node.State.{Config, Node}
use p2p_messenger.ChatPage.Page.{Task}
use p2p_messenger.Runtime.{
  Ready, Process, Handler, task, ready, Fate, goes_on, terminated, corrupted, Action, posts,
  begins_task, begins, finishes, shuts_down, destroys, run, step, take_at, may_begin, begin,
  begin_task, finish, run_handler, shut_down, post_task, outcome, continue, is_alive, are_alive,
  uses, io_context,
}
use p2p_messenger.Runtime.Counting.{
  tasks_in, tasks_posted, tasks_in-append, tasks_posted-cons, take_at-tasks_in, take_at-Perm,
}

module _ (D : OpenDht) (J : Json) (N : Net) where
  -- Anything but the destruction of a member.
  abbrev pub NoDestroy : Action D J N → Type 0
  NoDestroy (posts t) = Unit
  NoDestroy (begins_task n) = Unit
  NoDestroy (begins x) = Unit
  NoDestroy (finishes n) = Unit
  NoDestroy shuts_down = Unit
  NoDestroy destroys = ⊥

  abbrev taken : Option (Handler D J N × List (Handler D J N)) → List (Handler D J N)
  taken none = []
  taken (some (h, rest)) = h ∷ []

  -- The handler that finishes in a step, if one does.
  abbrev ended : Action D J N → Process D J N → List (Handler D J N)
  ended (finishes n) p = taken (take_at n p.running)
  ended (posts t) p = []
  ended (begins_task n) p = []
  ended (begins x) p = []
  ended shuts_down p = []
  ended destroys p = []

  abbrev follow : Fate D J N → (Process D J N → List (Handler D J N)) → List (Handler D J N)
  follow (goes_on p) f = f p
  follow terminated f = []
  follow corrupted f = []

  -- The handlers that finish in a run, in the order in which they do.
  unfoldable pub finished : List (Action D J N) → Process D J N → List (Handler D J N)
  finished [] p = []
  finished (x ∷ xs) p = ended x p ++ follow (step D J N x p) (finished xs)

  -- Handlers one after another, each on the node that the one before has left.
  unfoldable pub run_handlers : Config D → List (Handler D J N) → Node D N → Node D N
  run_handlers c [] s = s
  run_handlers c (h ∷ hs) s = run_handlers c hs (run_handler D J N c h s).1

  run_handlers-append :
      (c : Config D) (xs ys : List (Handler D J N)) (s : Node D N)
      → run_handlers c (xs ++ ys) s ≡ run_handlers c ys (run_handlers c xs s)
  unfolding run_handlers
  run_handlers-append c [] ys s = refl
  run_handlers-append c (x ∷ xs) ys s = run_handlers-append c xs ys (run_handler D J N c x s).1

  -- From `p` to `q`, with these tasks posted and these handlers finished: the node is what the
  -- handlers make of it, and no task is lost or made up.
  pub record Went (p : Process D J N) (given : List (Task D)) (hs : List (Handler D J N))
      (q : Process D J N) : Type 0 where
    pub made : q.config ≡ p.config
    pub came : q.node ≡ run_handlers p.config hs p.node
    pub conserved :
        Perm
          ((tasks_in D J N p.running ++ p.posted) ++ given)
          (tasks_in D J N hs ++ (tasks_in D J N q.running ++ q.posted))

  -- `P` holds where the process goes on.
  abbrev pub OnGoing : (Process D J N → Type 0) → Fate D J N → Type 0
  OnGoing P (goes_on p) = P p
  OnGoing P terminated = Unit
  OnGoing P corrupted = Unit

  OnGoing-map :
      (P Q : Process D J N → Type 0) (x : Fate D J N)
      → ((p : Process D J N) → P p → Q p)
      → OnGoing P x
      → OnGoing Q x
  OnGoing-map P Q (goes_on p) f h = f p h
  OnGoing-map P Q terminated f h = tt
  OnGoing-map P Q corrupted f h = tt

  Went-trans :
      {p q r : Process D J N} {given given' : List (Task D)} {hs hs' : List (Handler D J N)}
      → Went p given hs q
      → Went q given' hs' r
      → Went p (given ++ given') (hs ++ hs') r
  unfolding run_handlers
  Went-trans {p} {q} {r} {given} {given'} {hs} {hs'} v w = record {
    made = w.made ∙ v.made;
    came = w.came ∙ rw (v.made, v.came, run_handlers-append p.config hs hs' p.node);
    conserved =
        rw
          (
            ← append_assoc (tasks_in D J N p.running ++ p.posted) given given',
            tasks_in-append D J N hs hs',
            append_assoc (tasks_in D J N hs) (tasks_in D J N hs')
                (tasks_in D J N r.running ++ r.posted),
          )
          (Perm.trans (Perm.append_right given' v.conserved) (
            rw (append_assoc (tasks_in D J N hs) (tasks_in D J N q.running ++ q.posted) given')
              (Perm.append_left (tasks_in D J N hs) w.conserved)));
  }

  -- Nothing happens.
  Went-refl : (p : Process D J N) → Went p [] [] p
  unfolding run_handlers
  Went-refl p = record {
    made = refl;
    came = refl;
    conserved = rw (append-nil (tasks_in D J N p.running ++ p.posted)) Perm.rfl;
  }

  outcome-Went :
      (p : Process D J N) (h : Handler D J N) (rest : List (Handler D J N))
      (x : Outcome (Unit {0}) × Node D N)
      → x.1 ≡ run_handlers p.config (h ∷ []) p.node
      → Perm (tasks_in D J N p.running) (tasks_in D J N (h ∷ rest))
      → OnGoing (Went p [] (h ∷ [])) (outcome D J N (record p { running = rest }) x)
  outcome-Went p h rest (ok t, u) e k = record {
    made = refl;
    came = e;
    conserved =
        rw
          (
            append-nil (tasks_in D J N p.running ++ p.posted),
            ← append_assoc (tasks_in D J N (h ∷ [])) (tasks_in D J N rest) p.posted,
            ← tasks_in-append D J N (h ∷ []) rest,
          )
          (Perm.append_right p.posted k);
  }
  outcome-Went p h rest (throw x, u) e k = tt
  outcome-Went p h rest (undefined, u) e k = tt

  finish-Went :
      (n : ℕ) (p : Process D J N)
      → OnGoing (Went p [] (taken (take_at n p.running))) (finish D J N n p)
  unfolding finish run_handlers
  finish-Went n p = elim (Option-cases (take_at n p.running)) [
    | inl e ↦ rw (e, finish) (Went-refl p)
    | inr ((h, rest), e) ↦ elim (Bool-cases (are_alive p.alive (uses D J N h))) [
      | inl alive ↦
          rw (e, finish, alive)
            (outcome-Went p h rest (run_handler D J N p.config h p.node) refl
              (take_at-tasks_in D J N n p.running e))
      | inr dead ↦ rw (e, finish, dead) tt
    ]
  ]

  begin-Went : (x : Ready D J N) (p : Process D J N) → Went p [] [] (begin D J N (ready x) p)
  unfolding begin run_handlers
  begin-Went x p = elim (Bool-cases (may_begin D J N p)) [
    | inl free ↦ rw free (record {
      made = refl;
      came = refl;
      conserved =
          rw
            (
              append-nil (tasks_in D J N p.running ++ p.posted),
              tasks_in-append D J N p.running (ready x ∷ []),
              append-nil (tasks_in D J N p.running),
            )
            Perm.rfl;
    })
    | inr busy ↦ rw busy (Went-refl p)
  ]

  begin_task-Went : (n : ℕ) (p : Process D J N) → Went p [] [] (begin_task D J N n p)
  unfolding begin_task run_handlers
  begin_task-Went n p = elim (Option-cases (take_at n p.posted)) [
    | inl e ↦ rw (e, begin_task) (Went-refl p)
    | inr ((t, rest), e) ↦ elim (Bool-cases (may_begin D J N p)) [
      | inl free ↦
          rw (e, begin_task, free)
            (record {
              made = refl;
              came = refl;
              conserved =
                  rw
                    (
                      append-nil (tasks_in D J N p.running ++ p.posted),
                      tasks_in-append D J N p.running (task t ∷ []),
                      append_assoc (tasks_in D J N p.running) (t ∷ []) rest,
                    )
                    (Perm.append_left (tasks_in D J N p.running) (take_at-Perm D J N n p.posted e));
            })
      | inr busy ↦ rw (e, begin_task, busy) (Went-refl p)
    ]
  ]

  step-Went :
      (x : Action D J N) (p : Process D J N)
      → NoDestroy x
      → OnGoing (Went p (tasks_posted D J N (x ∷ [])) (ended x p)) (step D J N x p)
  unfolding step post_task shut_down run_handlers
  step-Went (posts t) p n = elim (Bool-cases (is_alive p.alive io_context)) [
    | inl alive ↦ rw alive (record {
      made = refl;
      came = refl;
      conserved = rw (append_assoc (tasks_in D J N p.running) p.posted (t ∷ [])) Perm.rfl;
    })
    | inr dead ↦ rw dead tt
  ]
  step-Went (begins_task n) p k = begin_task-Went n p
  step-Went (begins x) p n = begin-Went x p
  step-Went (finishes n) p k = finish-Went n p
  step-Went shuts_down p n = record {
    made = refl;
    came = refl;
    conserved = rw (append-nil (tasks_in D J N p.running ++ p.posted)) Perm.rfl;
  }
  step-Went destroys p n = absurd n

  continue-Went :
      (p : Process D J N) (given given' : List (Task D)) (hs : List (Handler D J N))
      (xs : List (Action D J N)) (x : Fate D J N)
      → OnGoing (Went p given hs) x
      → ((q : Process D J N) → OnGoing (Went q given' (finished xs q)) (run D J N xs q))
      → OnGoing
          (Went p (given ++ given') (hs ++ follow x (finished xs)))
          (continue D J N x (run D J N xs))
  continue-Went p given given' hs xs (goes_on q) v f =
      OnGoing-map (Went q given' (finished xs q)) (Went p (given ++ given') (hs ++ finished xs q))
        (run D J N xs q) (λ r w. Went-trans v w) (f q)
  continue-Went p given given' hs xs terminated v f = tt
  continue-Went p given given' hs xs corrupted v f = tt

  -- Before a member is destroyed, a run is its handlers, in the order in which they finish.
  pub run-Went :
      (xs : List (Action D J N)) (p : Process D J N)
      → All NoDestroy xs
      → OnGoing (Went p (tasks_posted D J N xs) (finished xs p)) (run D J N xs p)
  unfolding run finished
  run-Went [] p n = Went-refl p
  run-Went (x ∷ xs) p n = rw (tasks_posted-cons D J N x xs) (
      continue-Went p (tasks_posted D J N (x ∷ [])) (tasks_posted D J N xs) (ended x p) xs
        (step D J N x p) (step-Went x p n.0) (λ q. run-Went xs q n.1))
