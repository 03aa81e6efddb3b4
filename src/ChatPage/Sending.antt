-- ===== src/ChatPage/Sending.antt =====
-- What the user sends from the chat page, up to the node: `net::post` of p2p_messenger_impl.cpp and
-- the tasks that it posts.
use p2p_messenger.Prelude.{
  ◌≡◌, refl, true, false, some, List, [], ◌∷◌, ◌++◌, if◌then◌else◌, Bool-cases, inl, inr, bytes_eq,
  ◌∙◌, append_assoc, append-nil, ap, sym, map,
}
use p2p_messenger.Prelude.Bytes.{Bytes}
use p2p_messenger.Prelude.Outcome.{Outcome, ok, throw, undefined}
use p2p_messenger.Prelude.Program.{Program, ◌>>=◌, ◌>>◌, modify, return, after}
use p2p_messenger.External.{OpenDht, Json, Net, Texts}
use p2p_messenger.Resolver.Dht.{Contact}
use p2p_messenger.Node.State.{Config, Node}
use p2p_messenger.Node.Messenger.{send_message as send_now}
use p2p_messenger.ChatPage.Page.{
  Page, Slot, Messenger, Task, contact_of, post, send_text, send_message,
}

after_assoc :
    {S A B C : Type 0} (x : Outcome A × S) (f : A → Program S B) (g : B → Program S C)
    → after (after x f) g ≡ after x (λ a. f a >>= g)
after_assoc (ok a, s) f g = refl
after_assoc (throw e, s) f g = refl
after_assoc (undefined, s) f g = refl

after_cong :
    {S A B : Type 0} (x : Outcome A × S) (f g : A → Program S B)
    → ((a : A) (s : S) → f a s ≡ g a s)
    → after x f ≡ after x g
after_cong (ok a, s) f g h = h a s
after_cong (throw e, s) f g h = refl
after_cong (undefined, s) f g h = refl

module _ (D : OpenDht) where
  -- The tasks of what is said.
  tasks_of : Contact D → List Bytes → List (Task D)
  tasks_of contact [] = []
  tasks_of contact (text ∷ texts) =
      let rest = tasks_of contact texts in
      if bytes_eq.beq text []
      then rest
      else record { login = contact.login; public_key_id = contact.public_key_id; message = text }
        ∷ rest

module _ (D : OpenDht) (J : Json) (N : Net) where
  unfoldable pub run_task : Config D → Task D → Program (Node D N) (Unit {0})
  run_task c task = send_now D J N c task.login task.public_key_id task.message

  -- The tasks, one after another. An exception that leaves a task ends the program.
  unfoldable pub run_tasks : Config D → List (Task D) → Program (Node D N) (Unit {0})
  run_tasks c [] = return tt
  run_tasks c (task ∷ tasks) = run_task c task >> run_tasks c tasks

  -- What is said to a contact: texts that are not empty.
  unfoldable pub say : Config D → Contact D → List Bytes → Program (Node D N) (Unit {0})
  say c contact [] = return tt
  say c contact (text ∷ texts) =
      if bytes_eq.beq text []
      then say c contact texts
      else (send_now D J N c contact.login contact.public_key_id text >> say c contact texts)

  run_tasks-append :
      (c : Config D) (xs ys : List (Task D)) (s : Node D N)
      → run_tasks c (xs ++ ys) s ≡ (run_tasks c xs >> run_tasks c ys) s
  unfolding run_tasks
  run_tasks-append c [] ys s = refl
  run_tasks-append c (x ∷ xs) ys s =
      after_cong (run_task c x s) _ _ (λ t. run_tasks-append c xs ys)
      ∙ sym (after_assoc (run_task c x s) (λ t. run_tasks c xs) (λ t. run_tasks c ys))

  run_tasks-tasks_of :
      (c : Config D) (contact : Contact D) (texts : List Bytes) (s : Node D N)
      → run_tasks c (tasks_of D contact texts) s ≡ say c contact texts s
  unfolding run_tasks say tasks_of run_task
  run_tasks-tasks_of c contact [] s = refl
  run_tasks-tasks_of c contact (text ∷ texts) s = elim (Bool-cases (bytes_eq.beq text [])) [
    | inl blank ↦ rw blank (run_tasks-tasks_of c contact texts s)
    | inr some_text ↦ rw some_text (after_cong _ _ _ λ t. run_tasks-tasks_of c contact texts)
  ]

module _ (D : OpenDht) (N : Net) (Q : Texts) where
  -- The user types each text into the line and sends it.
  unfoldable pub send_texts : List Q.QString → Slot D N Q
  send_texts [] = return tt
  send_texts (text ∷ texts) = do
    modify λ p. record p { message_line = text }
    send_message D N Q
    send_texts texts

  post_lem :
      (task : Task D) (p : Page D N Q) (m : Messenger D N)
      → p.messenger ≡ some m
      → post D N Q task p
        ≡ (ok tt, record p { messenger = some (record m { posted = m.posted ++ (task ∷ []) }) })
  unfolding post
  post_lem task p m e = simp e

  pub send_text_lem :
      (item : Q.QString) (contact : Contact D) (text : Bytes) (p : Page D N Q) (m : Messenger D N)
      → p.messenger ≡ some m
      → contact_of D N Q item ≡ ok contact
      → bytes_eq.beq text [] ≡ false
      → send_text D N Q (some item) text p ≡ (
        ok tt,
        record p {
          message_line = Q.from_std_string [];
          messenger = some (record m {
            posted =
                m.posted
                ++ (record {
                  login = contact.login;
                  public_key_id = contact.public_key_id;
                  message = text;
                }
                    ∷ []);
          });
        },
      )
  unfolding send_text
  send_text_lem item contact text p m e r h =
      rw (r, h) (post_lem _ (record p { message_line = Q.from_std_string [] }) m e)

  pub send_blank_lem :
      (item : Q.QString) (contact : Contact D) (text : Bytes) (p : Page D N Q)
      → contact_of D N Q item ≡ ok contact
      → bytes_eq.beq text [] ≡ true
      → send_text D N Q (some item) text p ≡ (ok tt, p)
  unfolding send_text
  send_blank_lem item contact text p r h = rw (r, h)

  send_at_lem :
      (item : Q.QString) (p : Page D N Q)
      → p.current ≡ some item
      → send_message D N Q p ≡ send_text D N Q (some item) (Q.to_std_string p.message_line) p
  unfolding send_message
  send_at_lem item p e = ap (λ o. send_text D N Q o (Q.to_std_string p.message_line) p) e

  -- With a contact selected, sending posts the tasks in order.
  send_texts_lem :
      (texts : List Q.QString) (item : Q.QString) (contact : Contact D) (p : Page D N Q)
      (m : Messenger D N)
      → p.messenger ≡ some m
      → p.current ≡ some item
      → contact_of D N Q item ≡ ok contact
      → ((send_texts texts p).0 ≡ ok tt)
        × ((send_texts texts p).1.messenger
            ≡ some
                (record m { posted = m.posted ++ tasks_of D contact (map Q.to_std_string texts) }))
  unfolding send_texts tasks_of
  send_texts_lem [] item contact p m e f r = (refl, rw append-nil e)
  send_texts_lem (text ∷ texts) item contact p m e f r =
      let typed : Page D N Q = record p { message_line = text } in
      let task : Task D = record {
        login = contact.login;
        public_key_id = contact.public_key_id;
        message = Q.to_std_string text;
      } in
      let more : Messenger D N = record m { posted = m.posted ++ (task ∷ []) } in
      let sent : Page D N Q = record p {
        message_line = Q.from_std_string [];
        messenger = some more;
      } in
      rw (send_at_lem item typed f) (elim (Bool-cases (bytes_eq.beq (Q.to_std_string text) [])) [
        | inl blank ↦
            rw (send_blank_lem item contact (Q.to_std_string text) typed r blank, blank)
              (send_texts_lem texts item contact typed m e f r)
        | inr some_text ↦
            rw (send_text_lem item contact (Q.to_std_string text) typed m e r some_text, some_text)
              (rw append_assoc at (send_texts_lem texts item contact sent more refl f r))
      ])

  -- With a contact selected and no task posted yet, each text that the user sends is said to that
  -- contact, in order, once the posted tasks have run one after another, and an empty one is not.
  pub send_texts-say :
      (J : Json) (texts : List Q.QString) (item : Q.QString) (contact : Contact D) (p : Page D N Q)
      (m : Messenger D N)
      → p.messenger ≡ some m
      → p.current ≡ some item
      → contact_of D N Q item ≡ ok contact
      → m.posted ≡ []
      → ((send_texts texts p).0 ≡ ok tt)
        × (after : Messenger D N) × ((send_texts texts p).1.messenger ≡ some after)
        × (run_tasks D J N after.config after.posted after.node
            ≡ say D J N m.config contact (map Q.to_std_string texts) m.node)
  send_texts-say J texts item contact p m e f r none_posted =
      let (done, posted) = send_texts_lem texts item contact p m e f r in
      (
        done,
        _,
        posted,
        rw none_posted
            (run_tasks-tasks_of D J N m.config contact (map Q.to_std_string texts) m.node),
      )
