-- ===== src/ChatHistory/Log.antt =====
-- The history against the plain log of what was appended.
use p2p_messenger.Prelude.{
  ◌≡◌, refl, Option, none, some, List, [], ◌∷◌, ◌++◌, append-nil, append_assoc, All, subst,
  Bool-cases, inl, inr, if◌then◌else◌, ◌∙◌,
}
use p2p_messenger.Prelude.Map.{find, find-insert}
use p2p_messenger.External.{OpenDht}
use p2p_messenger.ChatHistory.{Line, or_empty, ChatHistory, append, get}

module _ (D : OpenDht) where
  -- All lines of all chats, oldest first.
  abbrev pub Entries : Type 0
  Entries = List (D.InfoHash × Line)

  unfoldable pub replay : Entries → ChatHistory D → ChatHistory D
  replay [] h = h
  replay ((id, line) ∷ log) h = replay log (append D id line.0 line.1 h)

  pub replay_last :
      (log : Entries) (id : D.InfoHash) (line : Line) (h : ChatHistory D)
      → replay (log ++ ((id, line) ∷ [])) h ≡ append D id line.0 line.1 (replay log h)
  unfolding replay
  replay_last [] id line h = refl
  replay_last ((j, other) ∷ log) id line h = replay_last log id line (append D j other.0 other.1 h)

  -- The lines of one chat.
  pub lines_of : D.InfoHash → Entries → List Line
  lines_of id [] = []
  lines_of id ((j, line) ∷ log) =
      let rest = lines_of id log in if D.id_eq.beq j id then line ∷ rest else rest

  -- What holds of all entries holds of the lines of each chat.
  pub lines_of-All {ℓ} :
      (P : D.InfoHash → Line → Type ℓ) (id : D.InfoHash) (log : Entries)
      → All (λ entry. P entry.0 entry.1) log
      → All (P id) (lines_of id log)
  unfolding lines_of
  lines_of-All P id [] h = tt
  lines_of-All P id ((j, line) ∷ log) h = elim (Bool-cases (D.id_eq.beq j id)) [
    | inl same ↦
        rw same
          (subst (λ i. P i line) ((D.id_eq.beq_iff j id).0 same) h.0, lines_of-All P id log h.1)
    | inr other ↦ rw other (lines_of-All P id log h.1)
  ]

  -- A chat with no line is not there.
  abbrev pub view : List Line → Option (List Line)
  view [] = none
  view (line ∷ rest) = some (line ∷ rest)

  pub find-append :
      (id j : D.InfoHash) (line : Line) (h : ChatHistory D)
      → get D id (append D j line.0 line.1 h)
        ≡ (if D.id_eq.beq j id then some (or_empty (get D j h) ++ (line ∷ [])) else get D id h)
  unfolding get append
  find-append id j line h = find-insert ⦃e = D.id_eq⦄ id j _ h

  -- What a chat comes to when more lines follow.
  abbrev extend : Option (List Line) → List Line → Option (List Line)
  extend none more = view more
  extend (some xs) more = some (xs ++ more)

  extend_nil : (o : Option (List Line)) → o ≡ extend o []
  extend_nil none = refl
  extend_nil (some xs) = rw append-nil

  extend_cons :
      (o : Option (List Line)) (line : Line) (rest : List Line)
      → extend (some (or_empty o ++ (line ∷ []))) rest ≡ extend o (line ∷ rest)
  extend_cons none line rest = refl
  extend_cons (some xs) line rest = rw append_assoc

  get-replay_from :
      (log : Entries) (id : D.InfoHash) (h : ChatHistory D)
      → get D id (replay log h) ≡ extend (get D id h) (lines_of id log)
  unfolding replay lines_of
  get-replay_from [] id h = extend_nil (get D id h)
  get-replay_from ((j, line) ∷ log) id h =
      get-replay_from log id (append D j line.0 line.1 h)
      ∙ rw (find-append id j line h) (elim (Bool-cases (D.id_eq.beq j id)) [
        | inl same ↦
            rw (same, (D.id_eq.beq_iff j id).0 same)
              (extend_cons (get D id h) line (lines_of id log))
        | inr other ↦ rw other
      ])

  -- After any run of `append`, `get` gives the lines of that chat in order, and null for a chat
  -- without any.
  pub get-replay :
      (log : Entries) (id : D.InfoHash) → get D id (replay log []) ≡ view (lines_of id log)
  unfolding get find
  get-replay log id = get-replay_from log id []

  pub view_lem : (xs : List Line) {lines : List Line} → view xs ≡ some lines → lines ≡ xs
  view_lem [] e = absurd (cc e)
  view_lem (line ∷ rest) e = cc e
