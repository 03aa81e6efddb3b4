-- ===== src/Runtime/Threads.antt =====
-- Runs of the threads of p2p_messenger_impl.cpp, and a handler that finishes.
use p2p_messenger.Prelude.{
  ℕ, zero, suc, ◌≡◌, refl, ap, subst, true, some, List, [], ◌∷◌, ◌++◌, All, length, Option-cases,
  inl, inr,
}
use p2p_messenger.External.{OpenDht, Json, Net}
use p2p_messenger.Runtime.{
  Process, Handler, task, ready, event, punch, republish, uses, Fate, goes_on, terminated,
  corrupted, Action, run, step, members, are_alive, take_at, finish, run_handler, outcome, continue,
}

pub some_inj : {A : Type 0} {x y : A} → some x ≡ some y → x ≡ y
some_inj e = cc e

-- What is taken out, and what is left.
pub take_at-All :
    {A : Type 0} (P : A → Type 0) (n : ℕ) (xs : List A) {x : A} {rest : List A}
    → take_at n xs ≡ some (x, rest)
    → All P xs
    → P x × All P rest × (suc (length rest) ≡ length xs)
take_at-All P n [] e h = absurd (cc e)
take_at-All P zero (x ∷ xs) e h =
    subst (λ w. P w.0 × All P w.1 × (suc (length w.1) ≡ suc (length xs))) (some_inj e)
      (h.0, h.1, refl)
take_at-All P (suc n) (x ∷ xs) e h = elim (Option-cases (take_at n xs)) [
  | inl f ↦ absurd (cc (rw f at e))
  | inr (w, f) ↦
      let (p, all, size) = take_at-All P n xs f h.1 in
      subst (λ w. P w.0 × All P w.1 × (suc (length w.1) ≡ suc (length xs))) (some_inj (rw f at e))
        (p, (h.0, all), ap suc size)
]

module _ (D : OpenDht) (J : Json) (N : Net) where
  continue_assoc :
      (x : Fate D J N) (f g h : Process D J N → Fate D J N)
      → ((p : Process D J N) → f p ≡ continue D J N (g p) h)
      → continue D J N x f ≡ continue D J N (continue D J N x g) h
  continue_assoc (goes_on p) f g h e = e p
  continue_assoc terminated f g h e = refl
  continue_assoc corrupted f g h e = refl

  pub run-append :
      (xs ys : List (Action D J N)) (p : Process D J N)
      → run D J N (xs ++ ys) p ≡ continue D J N (run D J N xs p) (run D J N ys)
  unfolding run
  run-append [] ys p = refl
  run-append (x ∷ xs) ys p =
      continue_assoc (step D J N x p) (run D J N (xs ++ ys)) (run D J N xs) (run D J N ys)
        (run-append xs ys)

  -- As long as no member is destroyed, a handler finds what it works with.
  uses_alive :
      (h : Handler D J N) (p : Process D J N)
      → p.alive ≡ members
      → are_alive p.alive (uses D J N h) ≡ true
  uses_alive (task t) p e = rw e
  uses_alive (ready (event x)) p e = rw e
  uses_alive (ready (punch ec)) p e = rw e
  uses_alive (ready (republish ec)) p e = rw e

  pub finish_lem :
      (p : Process D J N) (n : ℕ) (h : Handler D J N) (rest : List (Handler D J N))
      → p.alive ≡ members
      → take_at n p.running ≡ some (h, rest)
      → finish D J N n p
        ≡ outcome D J N (record p { running = rest }) (run_handler D J N p.config h p.node)
  unfolding finish
  finish_lem p n h rest e f = rw (f, finish, uses_alive h p e)
