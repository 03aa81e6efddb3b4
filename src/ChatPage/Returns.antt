-- ===== src/ChatPage/Returns.antt =====
-- What the user asks of the chat page in a run whose contacts' texts are read back.
use p2p_messenger.Prelude.{
  ◌≡◌, refl, subst, ap, true, Option, none, some, List, [], ◌∷◌, All, Bool-cases, inl, inr,
  bytes_eq,
}
use p2p_messenger.Prelude.Bytes.{Bytes}
use p2p_messenger.Prelude.Outcome.{ok}
use p2p_messenger.External.{OpenDht, Net, Texts}
use p2p_messenger.Resolver.Dht.{Contact}
use p2p_messenger.ChatPage.Page.{
  Page, Item, Messenger, has_item, contact_of, on_contacts_item_clicked, send_text, send_message,
}
use p2p_messenger.ChatPage.Sending.{send_text_lem, send_blank_lem}
use p2p_messenger.ChatPage.Shown.{Shows, click_lem, click-Shows}
use p2p_messenger.ChatPage.Steps.{
  empty_page, Reachable, start, step, IsValid, Reachable-IsValid, is_listed,
}
use p2p_messenger.ChatPage.Readable.{IsContact, IsReadable, Run, begin, next, IsReadable-Step}

module _ (D : OpenDht) (N : Net) (Q : Texts) where
  listed_reads :
      (text : Q.QString) (items : List (Item Q))
      → has_item Q text items ≡ true
      → All (λ (item : Item Q). IsContact D N Q item.text) items
      → IsContact D N Q text
  unfolding has_item
  listed_reads text [] h r = absurd (cc h)
  listed_reads text (item ∷ items) h r = elim (Bool-cases (Q.string_eq.beq item.text text)) [
    | inl same ↦ subst (IsContact D N Q) ((Q.string_eq.beq_iff item.text text).0 same) r.0
    | inr other ↦ listed_reads text items (rw other at h) r.1
  ]

  Run-IsReadable : {p : Page D N Q} → Run D N Q p → IsReadable D N Q p
  unfolding IsReadable empty_page
  Run-IsReadable begin = tt
  Run-IsReadable (next r s c) = IsReadable-Step D N Q (Run-IsReadable r) s c

  Run-IsValid : {p : Page D N Q} → Run D N Q p → IsValid D N Q p
  Run-IsValid r = Reachable-IsValid D N Q (reached r)
    where
      reached : {p : Page D N Q} → Run D N Q p → Reachable D N Q p
      reached begin = start
      reached (next r s c) = step (reached r) s

  send_text_returns :
      (current : Option Q.QString) (text : Bytes) (p : Page D N Q) (m : Messenger D N)
      → p.messenger ≡ some m
      → ((item : Q.QString) → current ≡ some item → IsContact D N Q item)
      → (send_text D N Q current text p).0 ≡ ok tt
  unfolding send_text
  send_text_returns none text p m e h = refl
  send_text_returns (some item) text p m e h =
      let (contact, r) = h item refl in
      elim (Bool-cases (bytes_eq.beq text [])) [
        | inl blank ↦ rw (send_blank_lem D N Q item contact text p r blank)
        | inr written ↦ rw (send_text_lem D N Q item contact text p m e r written)
      ]

  selected_reads :
      (p : Page D N Q)
      → Run D N Q p
      → (item : Q.QString) → p.current ≡ some item
      → IsContact D N Q item
  unfolding IsValid IsReadable
  selected_reads p r item e =
      listed_reads item p.contacts
        (subst (λ c. is_listed D N Q c p.contacts ≡ true) e (Run-IsValid r).1) (Run-IsReadable r)

  -- In a run in which the text of every contact that is added is read back as some contact, and with a
  -- messenger there, a click on any item of the list returns and shows the history of that contact,
  -- and sending returns, whatever is selected and typed: no exception leaves either slot.
  pub slots_return :
      (p : Page D N Q) (m : Messenger D N)
      → Run D N Q p
      → p.messenger ≡ some m
      → ((text : Q.QString)
          → has_item Q text p.contacts ≡ true
          → (contact : Contact D) × (contact_of D N Q text ≡ ok contact)
            × ((on_contacts_item_clicked D N Q text p).0 ≡ ok tt)
            × Shows D N Q contact.public_key_id m.node (on_contacts_item_clicked D N Q text p).1)
        × ((send_message D N Q p).0 ≡ ok tt)
  unfolding IsReadable send_message
  slots_return p m r e = (
    λ text listed.
        let (contact, reads) = listed_reads text p.contacts listed (Run-IsReadable r) in
        (
          contact,
          reads,
          ap (λ x. x.0) (click_lem D N Q text contact p m e reads),
          click-Shows D N Q text contact p m e reads,
        ),
    send_text_returns p.current _ p m e (selected_reads p r),
  )
