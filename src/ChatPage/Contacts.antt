-- ===== src/ChatPage/Contacts.antt =====
-- What reading a contact from a text can come to.
use p2p_messenger.Prelude.{
  ℕ, ◌≢◌, refl, Option, none, some, Bool-cases, Option-cases, inl, inr, bytes_eq, leb, ltb, length,
  ◌+◌,
}
use p2p_messenger.Prelude.Bytes.{Bytes}
use p2p_messenger.Prelude.Outcome
use p2p_messenger.Prelude.Outcome.{Outcome, ok, throw, undefined, or_throw, Exception}
use p2p_messenger.External.{OpenDht}
use p2p_messenger.Address.{find_char, substr_from}
use p2p_messenger.ChatPage.{contact_from_string, contact_between, substr}

bind_defined :
    {A B : Type 0} (r : Outcome A) (f : A → Outcome B)
    → r ≢ undefined
    → ((a : A) → f a ≢ undefined)
    → Outcome.◌>>=◌ r f ≢ undefined
bind_defined (ok a) f h k = k a
bind_defined (throw e) f h k = λ q. absurd (cc q)
bind_defined undefined f h k = λ q. h refl

substr_from_defined : (pos : ℕ) (s : Bytes) → substr_from pos s ≢ undefined
unfolding substr_from
substr_from_defined pos s = elim (Bool-cases (ltb (length s) pos)) [
  | inl far ↦ rw far λ q. absurd (cc q)
  | inr near ↦ rw near λ q. absurd (cc q)
]

substr_defined : (pos n : ℕ) (s : Bytes) → substr pos n s ≢ undefined
unfolding substr
substr_defined pos n s =
    bind_defined (substr_from pos s) _ (substr_from_defined pos s) λ rest q. absurd (cc q)

module _ (D : OpenDht) where
  contact_between_defined :
      (first last : ℕ) (s : Bytes) → contact_between D first last s ≢ undefined
  unfolding contact_between
  contact_between_defined first last s = elim (Bool-cases (leb last first)) [
    | inl swapped ↦ rw swapped λ q. absurd (cc q)
    | inr ordered ↦ rw ordered (
        bind_defined _ _ (substr_defined _ _ s)
          λ id. bind_defined _ _ (substr_from_defined (last + 2) s) λ login q. absurd (cc q))
  ]

  -- A text that is no contact is an exception, never more.
  pub contact_from_string_defined : (s : Bytes) → contact_from_string D s ≢ undefined
  unfolding contact_from_string
  contact_from_string_defined s = elim (Option-cases (find_char b'[' s)) [
    | inl no_bracket ↦ rw (contact_from_string, no_bracket) λ q. absurd (cc q)
    | inr (first, e) ↦ elim (Option-cases (find_char b']' s)) [
      | inl no_bracket ↦ rw (contact_from_string, e, no_bracket) λ q. absurd (cc q)
      | inr (last, f) ↦ rw (contact_from_string, e, f) (contact_between_defined first last s)
    ]
  ]

pub or_throw_defined : {A : Type 0} (o : Option A) (e : Exception) → or_throw o e ≢ undefined
or_throw_defined none e = λ q. absurd (cc q)
or_throw_defined (some a) e = λ q. absurd (cc q)
