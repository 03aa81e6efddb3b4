-- ===== src/Runtime/Counting.antt =====
-- Where the tasks of `send_message` are: those that were posted, those in a thread, and those
-- that finished.
use mathlib.Core.List.Perm
use mathlib.Core.List.{Perm}
use p2p_messenger.Prelude.{
  ℕ, zero, suc, ◌≡◌, refl, ap, subst, some, List, [], ◌∷◌, ◌++◌, Option-cases, inl, inr,
}
use p2p_messenger.External.{OpenDht, Json, Net}
use p2p_messenger.ChatPage.Page.{Task}
use p2p_messenger.Runtime.{
  Handler, task, ready, Action, posts, begins_task, begins, finishes, shuts_down, destroys, take_at,
}
use p2p_messenger.Runtime.Threads.{some_inj}

module _ (D : OpenDht) (J : Json) (N : Net) where
  abbrev pub tasks_in : List (Handler D J N) → List (Task D)
  tasks_in [] = []
  tasks_in (task t ∷ hs) = t ∷ tasks_in hs
  tasks_in (ready x ∷ hs) = tasks_in hs

  abbrev pub tasks_posted : List (Action D J N) → List (Task D)
  tasks_posted [] = []
  tasks_posted (posts t ∷ xs) = t ∷ tasks_posted xs
  tasks_posted (_ ∷ xs) = tasks_posted xs

  pub tasks_posted-cons :
      (x : Action D J N) (xs : List (Action D J N))
      → tasks_posted (x ∷ xs) ≡ tasks_posted (x ∷ []) ++ tasks_posted xs
  tasks_posted-cons (posts t) xs = refl
  tasks_posted-cons (begins_task n) xs = refl
  tasks_posted-cons (begins x) xs = refl
  tasks_posted-cons (finishes n) xs = refl
  tasks_posted-cons shuts_down xs = refl
  tasks_posted-cons destroys xs = refl

  pub tasks_in-append :
      (xs ys : List (Handler D J N)) → tasks_in (xs ++ ys) ≡ tasks_in xs ++ tasks_in ys
  tasks_in-append [] ys = refl
  tasks_in-append (task t ∷ xs) ys = ap (◌∷◌ t) (tasks_in-append xs ys)
  tasks_in-append (ready x ∷ xs) ys = tasks_in-append xs ys

  tasks_in-swap :
      (x y : Handler D J N) (hs : List (Handler D J N))
      → Perm (tasks_in (x ∷ y ∷ hs)) (tasks_in (y ∷ x ∷ hs))
  tasks_in-swap (task t) (task u) hs = Perm.swap u t (tasks_in hs)
  tasks_in-swap (task t) (ready y) hs = Perm.rfl
  tasks_in-swap (ready x) (task u) hs = Perm.rfl
  tasks_in-swap (ready x) (ready y) hs = Perm.rfl

  tasks_in-cons :
      (x : Handler D J N) (xs ys : List (Handler D J N))
      → Perm (tasks_in xs) (tasks_in ys)
      → Perm (tasks_in (x ∷ xs)) (tasks_in (x ∷ ys))
  tasks_in-cons (task t) xs ys p = Perm.cons t p
  tasks_in-cons (ready x) xs ys p = p

  -- Taking a handler out loses no task.
  pub take_at-tasks_in :
      (n : ℕ) (xs : List (Handler D J N)) {h : Handler D J N} {rest : List (Handler D J N)}
      → take_at n xs ≡ some (h, rest)
      → Perm (tasks_in xs) (tasks_in (h ∷ rest))
  take_at-tasks_in n [] e = absurd (cc e)
  take_at-tasks_in zero (x ∷ xs) e =
      subst (λ w. Perm (tasks_in (x ∷ xs)) (tasks_in (w.0 ∷ w.1))) (some_inj e) Perm.rfl
  take_at-tasks_in (suc n) (x ∷ xs) e = elim (Option-cases (take_at n xs)) [
    | inl f ↦ absurd (cc (rw f at e))
    | inr (w, f) ↦
        subst (λ w. Perm (tasks_in (x ∷ xs)) (tasks_in (w.0 ∷ w.1))) (some_inj (rw f at e))
          (Perm.trans (tasks_in-cons x xs (w.0 ∷ w.1) (take_at-tasks_in n xs f))
            (tasks_in-swap x w.0 w.1))
  ]

  -- What was taken out is the rest of what was there.
  pub take_at-Perm :
      {A : Type 0} (n : ℕ) (xs : List A) {x : A} {rest : List A}
      → take_at n xs ≡ some (x, rest)
      → Perm xs (x ∷ rest)
  take_at-Perm n [] e = absurd (cc e)
  take_at-Perm zero (x ∷ xs) e = subst (λ w. Perm (x ∷ xs) (w.0 ∷ w.1)) (some_inj e) Perm.rfl
  take_at-Perm (suc n) (x ∷ xs) e = elim (Option-cases (take_at n xs)) [
    | inl f ↦ absurd (cc (rw f at e))
    | inr (w, f) ↦
        subst (λ w. Perm (x ∷ xs) (w.0 ∷ w.1)) (some_inj (rw f at e))
          (Perm.trans (Perm.cons x (take_at-Perm n xs f)) (Perm.swap w.0 x w.1))
  ]
