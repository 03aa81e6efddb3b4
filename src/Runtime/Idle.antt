-- ===== src/Runtime/Idle.antt =====
-- After the body of the destructor of p2p_messenger_impl.cpp: `io_context_.stop()` lets no handler
-- begin.
use p2p_messenger.Prelude.{
  ℕ, ◌≡◌, ◌∙◌, none, refl, sym, true, List, [], ◌∷◌, All, Bool-cases, Option-cases, inl, inr,
}
use p2p_messenger.External.{OpenDht, Json, Net}
use p2p_messenger.ChatHistory.{ChatHistory}
use p2p_messenger.Runtime.{
  Process, goes_on, Action, posts, begins_task, begins, finishes, shuts_down, destroys, run, step,
  take_at, begin, begin_task, finish, shut_down, destroy_next, end_of, blocks, Member, threads,
  io_context, work_guard, socket, message_sender, message_receiver, dht_ip_resolver,
  metadata_ip_resolver, chat_history, udp_hole_puncher,
}

module _ (D : OpenDht) (J : Json) (N : Net) where
  -- Anything but a call of `send_message`.
  abbrev pub NoPost : Action D J N → Type 0
  NoPost (posts t) = ⊥
  NoPost (begins_task n) = Unit
  NoPost (begins x) = Unit
  NoPost (finishes n) = Unit
  NoPost shuts_down = Unit
  NoPost destroys = Unit

  pub record IsIdle (h : ChatHistory D) (p : Process D J N) : Type 0 where
    pub stopped : p.stopped ≡ true
    pub none_running : p.running ≡ []
    pub kept : p.node.history ≡ h

  IsIdle-same :
      {h : ChatHistory D} {p q : Process D J N}
      → q.stopped ≡ p.stopped
      → q.running ≡ p.running
      → q.node.history ≡ p.node.history
      → IsIdle h p
      → IsIdle h q
  IsIdle-same e f g v = record {
    stopped = e ∙ v.stopped;
    none_running = f ∙ v.none_running;
    kept = g ∙ v.kept;
  }

  end_of-IsIdle :
      (m : Member) {h : ChatHistory D} {p : Process D J N}
      → IsIdle h p
      → IsIdle h (end_of D J N m p)
  unfolding end_of
  end_of-IsIdle threads = IsIdle-same refl refl refl
  end_of-IsIdle io_context = IsIdle-same refl refl refl
  end_of-IsIdle work_guard = IsIdle-same refl refl refl
  end_of-IsIdle socket = IsIdle-same refl refl refl
  end_of-IsIdle message_sender = IsIdle-same refl refl refl
  end_of-IsIdle message_receiver = IsIdle-same refl refl refl
  end_of-IsIdle dht_ip_resolver = IsIdle-same refl refl refl
  end_of-IsIdle metadata_ip_resolver = IsIdle-same refl refl refl
  end_of-IsIdle chat_history = IsIdle-same refl refl refl
  end_of-IsIdle udp_hole_puncher = IsIdle-same refl refl refl

  destroy_next-IsIdle :
      {h : ChatHistory D} (p : Process D J N) → IsIdle h p → IsIdle h (destroy_next D J N p)
  unfolding destroy_next
  destroy_next-IsIdle {h} p v = of_alive p.alive refl
    where
      of_alive : (alive : List Member) → p.alive ≡ alive → IsIdle h (destroy_next D J N p)
      of_alive [] e = rw (e, destroy_next) v
      of_alive (m ∷ rest) e = elim (Bool-cases (blocks D J N m p)) [
        | inl waits ↦ rw (e, destroy_next, waits) v
        | inr free ↦ rw (e, destroy_next, free) (end_of-IsIdle m (IsIdle-same refl refl refl v))
      ]

  begin_task-IsIdle :
      {h : ChatHistory D} (n : ℕ) (p : Process D J N) → IsIdle h p → IsIdle h (begin_task D J N n p)
  unfolding begin_task
  begin_task-IsIdle n p v = elim (Option-cases (take_at n p.posted)) [
    | inl e ↦ rw (e, begin_task) v
    | inr ((t, rest), e) ↦ rw (e, begin_task, v.stopped) (IsIdle-same (sym v.stopped) refl refl v)
  ]

  finish_nothing :
      (n : ℕ) (p : Process D J N) → take_at n p.running ≡ none → finish D J N n p ≡ goes_on p
  unfolding finish
  finish_nothing n p e = rw (e, finish)

  step-IsIdle :
      {h : ChatHistory D} (x : Action D J N) (p : Process D J N)
      → NoPost x
      → IsIdle h p
      → (q : Process D J N) × (step D J N x p ≡ goes_on q) × IsIdle h q
  unfolding step begin finish shut_down
  step-IsIdle (posts t) p n v = absurd n
  step-IsIdle (begins_task k) p n v = (begin_task D J N k p, refl, begin_task-IsIdle k p v)
  step-IsIdle (begins x) p n v = (p, rw v.stopped, v)
  step-IsIdle (finishes n) p k v = (p, finish_nothing n p (rw v.none_running), v)
  step-IsIdle shuts_down p n v = (
    shut_down D J N p,
    refl,
    record { stopped = refl; none_running = v.none_running; kept = v.kept },
  )
  step-IsIdle destroys p n v = (destroy_next D J N p, refl, destroy_next-IsIdle p v)

  run-IsIdle :
      {h : ChatHistory D} (xs : List (Action D J N)) (p : Process D J N)
      → All NoPost xs
      → IsIdle h p
      → (q : Process D J N) × (run D J N xs p ≡ goes_on q) × IsIdle h q
  unfolding run
  run-IsIdle [] p n v = (p, refl, v)
  run-IsIdle (x ∷ xs) p n v =
      let (q, e, w) = step-IsIdle x p n.0 v in
      let (r, f, u) = run-IsIdle xs q n.1 w in (r, rw (e, f), u)

  -- When `io_context_.stop()` was called while no thread was in a handler, then whatever becomes
  -- ready, and however far the destruction of the members is, no handler begins, nothing undefined
  -- happens and the history stays as it was; as long as nobody calls `send_message`.
  pub shut_down_idle :
      (xs : List (Action D J N)) (p : Process D J N)
      → p.running ≡ []
      → All NoPost xs
      → (q : Process D J N) × (run D J N (shuts_down ∷ xs) p ≡ goes_on q)
        × (q.running ≡ [])
        × (q.node.history ≡ p.node.history)
  unfolding run step shut_down
  shut_down_idle xs p e n =
      let (q, f, v) =
        run-IsIdle xs (shut_down D J N p) n
          (record { stopped = refl; none_running = e; kept = refl }) in
      (q, f, v.none_running, v.kept)
