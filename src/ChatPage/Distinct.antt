-- ===== src/ChatPage/Distinct.antt =====
-- The contact list: its texts are distinct, and the selected one is among them.
use p2p_messenger.Prelude.{
  ℕ, zero, suc, map, ◌≡◌, refl, sym, Bool, true, false, List, [], ◌∷◌, arith, if◌then◌else◌,
  Bool-cases, inl, inr, beq_refl, beq_ne, Eq,
}
use p2p_messenger.External.{Texts}
use p2p_messenger.ChatPage.Page.{Item, has_item, set_bold, add_item, put_item, with_item}

pub beq_ne_sym : {A : Type 0} ⦃e : Eq A⦄ (a b : A) → e.beq a b ≡ false → e.beq b a ≡ false
beq_ne_sym ⦃e⦄ a b h = beq_ne ⦃e = e⦄ b a λ q. absurd (cc (h, beq_refl ⦃e = e⦄ a, q))

module _ (Q : Texts) where
  -- No text stands twice.
  unfoldable pub Distinct : List (Item Q) → Type 0
  Distinct [] = Unit
  Distinct (item ∷ items) = (has_item Q item.text items ≡ false) × Distinct items

  pub has_item-set_bold :
      (b : Bool) (t u : Q.QString) (items : List (Item Q))
      → has_item Q t (set_bold Q b u items) ≡ has_item Q t items
  unfolding has_item set_bold
  has_item-set_bold b t u [] = refl
  has_item-set_bold b t u (item ∷ items) = ground (arith, has_item-set_bold b t u items)

  pub Distinct-set_bold :
      (b : Bool) (u : Q.QString) (items : List (Item Q))
      → Distinct items
      → Distinct (set_bold Q b u items)
  unfolding Distinct set_bold
  Distinct-set_bold b u [] d = d
  Distinct-set_bold b u (item ∷ items) d = elim (Bool-cases (Q.string_eq.beq item.text u)) [
    | inl same ↦ rw same d
    | inr other ↦
        rw other (rw (has_item-set_bold b item.text u items) d.0, Distinct-set_bold b u items d.1)
  ]

  has_item-put_item :
      (t : Q.QString) (row : ℕ) (new : Item Q) (items : List (Item Q))
      → has_item Q t (put_item Q row new items)
        ≡ (if has_item Q t items then true else Q.string_eq.beq new.text t)
  unfolding has_item put_item
  has_item-put_item t row new [] = ground arith
  has_item-put_item t zero new (item ∷ items) = ground arith
  has_item-put_item t (suc row) new (item ∷ items) =
      ground (arith, has_item-put_item t row new items)

  -- Adding leaves what is there, and adds one text.
  pub has_item-add_item :
      (t u : Q.QString) (items : List (Item Q))
      → has_item Q t (add_item Q u items)
        ≡ (if has_item Q t items then true else Q.string_eq.beq u t)
  unfolding add_item
  has_item-add_item t u items =
      has_item-put_item t (Q.row_of u (map (λ (item : Item Q). item.text) items))
        (record { text = u; bold = false }) items

  Distinct-put_item :
      (row : ℕ) (new : Item Q) (items : List (Item Q))
      → has_item Q new.text items ≡ false
      → Distinct items
      → Distinct (put_item Q row new items)
  unfolding Distinct put_item has_item
  Distinct-put_item row new [] h d = (refl, tt)
  Distinct-put_item zero new (item ∷ items) h d = (h, d)
  Distinct-put_item (suc row) new (item ∷ items) h d =
      elim (Bool-cases (Q.string_eq.beq item.text new.text)) [
        | inl same ↦ absurd (cc (rw same at h))
        | inr other ↦ (
          rw (
            has_item-put_item item.text row new items,
            d.0,
            beq_ne_sym ⦃e = Q.string_eq⦄ item.text new.text other,
          ),
          Distinct-put_item row new items (rw other at h) d.1,
        )
      ]

  pub Distinct-add_item :
      (u : Q.QString) (items : List (Item Q))
      → has_item Q u items ≡ false
      → Distinct items
      → Distinct (add_item Q u items)
  unfolding add_item
  Distinct-add_item u items h d =
      Distinct-put_item (Q.row_of u (map (λ (item : Item Q). item.text) items))
        (record { text = u; bold = false }) items h d

  pub has_item-with_item :
      (t u : Q.QString) (items : List (Item Q))
      → has_item Q t (with_item Q u items)
        ≡ (if has_item Q t items then true else Q.string_eq.beq u t)
  has_item-with_item t u items = elim (Bool-cases (has_item Q u items)) [
    | inl old ↦ rw old (elim (Bool-cases (Q.string_eq.beq u t)) [
      | inl same ↦ rw (sym ((Q.string_eq.beq_iff u t).0 same)) (ground (arith, old))
      | inr other ↦ ground (arith, other)
    ])
    | inr new ↦ rw new (has_item-add_item t u items)
  ]
