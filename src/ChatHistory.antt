-- ===== src/ChatHistory.antt =====
-- chat_history.cpp: the lines of each chat, by the id of the other side's key.
pub mod Log
use p2p_messenger.Prelude.{Option, none, some, List, [], ◌∷◌, ◌++◌, Eq}
use p2p_messenger.Prelude.Bytes.{Bytes}
use p2p_messenger.Prelude.Map.{Map, find, insert}
use p2p_messenger.External.{OpenDht}

-- A login and a message.
abbrev pub Line : Type 0
Line = Bytes × Bytes

abbrev pub or_empty {ℓ} : {A : Type ℓ} → Option (List A) → List A
or_empty none = []
or_empty (some xs) = xs

module _ (D : OpenDht) where
  abbrev pub ChatHistory : Type 0
  ChatHistory = Map D.InfoHash (List Line)

  -- `chat_history_[public_key_id].emplace_back(login, message)`
  unfoldable pub append : D.InfoHash → Bytes → Bytes → ChatHistory → ChatHistory
  append public_key_id login message h =
      insert ⦃e = D.id_eq⦄ public_key_id
        (or_empty (find ⦃e = D.id_eq⦄ public_key_id h) ++ ((login, message) ∷ [])) h

  -- `none` is `nullptr`.
  unfoldable pub get : D.InfoHash → ChatHistory → Option (List Line)
  get public_key_id h = find ⦃e = D.id_eq⦄ public_key_id h
