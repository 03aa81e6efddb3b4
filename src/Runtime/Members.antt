-- ===== src/Runtime/Members.antt =====
-- The members of p2p_messenger_impl.h, in the order of which the destructor goes through them.
use p2p_messenger.Prelude.{
  ℕ, zero, suc, Bool, true, false, ◌&&◌, ◌||◌, Option, none, some, List, [], ◌∷◌, ◌==◌,
}

-- The members that have more than a value in them.
pub data Member : Type 0 where
  threads io_context work_guard socket message_sender message_receiver dht_ip_resolver
        metadata_ip_resolver chat_history udp_hole_puncher :
      Member

-- Members are made in the order of their declarations and destroyed in the opposite order, which is
-- the order here.
abbrev pub members : List Member
members =
    udp_hole_puncher ∷ chat_history ∷ metadata_ip_resolver ∷ dht_ip_resolver ∷ message_receiver
    ∷ message_sender ∷ socket ∷ work_guard ∷ io_context ∷ threads ∷ []

abbrev pub index : Member → ℕ
index threads = 0
index io_context = 1
index work_guard = 2
index socket = 3
index message_sender = 4
index message_receiver = 5
index dht_ip_resolver = 6
index metadata_ip_resolver = 7
index chat_history = 8
index udp_hole_puncher = 9

abbrev pub is_alive : List Member → Member → Bool
is_alive [] m = false
is_alive (x ∷ xs) m = (index x == index m) || is_alive xs m

abbrev pub are_alive : List Member → List Member → Bool
are_alive alive [] = true
are_alive alive (m ∷ ms) = is_alive alive m && are_alive alive ms

-- Takes out the element at a position.
abbrev pub take_at {ℓ} : {A : Type ℓ} → ℕ → List A → Option (A × List A)
take_at n [] = none
take_at zero (x ∷ xs) = some (x, xs)
take_at (suc n) (x ∷ xs) = elim (take_at n xs) [ none ↦ none | some (y, rest) ↦ some (y, x ∷ rest) ]

-- `num_threads_`
abbrev pub num_threads : ℕ
num_threads = 4
