-- ===== src/Node/Timers.antt =====
-- udp_hole_puncher.cpp: the timers that never end, and the buffer that they send.
use p2p_messenger.Prelude.{
  ℕ, zero, suc, ◌^◌, ◌<◌, ◌≡◌, ◌∙◌, Bool, false, List, [], ◌∷◌, ◌++◌, map, append_assoc, append-nil,
  length,
}
use p2p_messenger.Prelude.Bytes.{Bytes}
use p2p_messenger.Prelude.Outcome.{ok, undefined}
use p2p_messenger.External.{OpenDht, Net}
use p2p_messenger.Wire.Metadata.{metadata_to_buffer_overflows}
use p2p_messenger.Node.State.{Node, Endpoint, Sent, send_to}
use p2p_messenger.Node.HolePuncher.{udp_hole_puncher, hole_punch, on_timer}
use p2p_messenger.Node.Messenger.{configure}

module _ (D : OpenDht) (N : Net) where
  -- Every messenger whose login and key have sizes that two bytes can say writes behind the buffer of
  -- its hole puncher when it is made.
  pub configure_overflows :
      (my_login my_ip : Bytes) (my_port : ℕ) (private_key : D.PrivateKey) (relay_node_ip : Bytes)
      (relay_node_port : ℕ) (relay : Bool)
      → length my_login < 2 ^ 16
      → length (D.to_string (D.public_key private_key)) < 2 ^ 16
      → configure D N my_login my_ip my_port private_key relay_node_ip relay_node_port relay
        ≡ undefined
  unfolding configure udp_hole_puncher
  configure_overflows my_login my_ip my_port private_key relay_node_ip relay_node_port relay h k =
      rw ((metadata_to_buffer_overflows my_login (D.to_string (D.public_key private_key))).1 (h, k))

  -- So many timers end, one after the other.
  pub rounds : ℕ → Bytes → Node D N → Node D N
  rounds zero b s = s
  rounds (suc n) b s = rounds n b (on_timer D N b false s).1

  abbrev pub punched : Bytes → List (Endpoint N) → List (Sent N)
  punched b = map (λ (e : Endpoint N). (b, e.0, e.1))

  on_timer_goes :
      (b : Bytes) (e : Endpoint N) (rest : List (Endpoint N)) (s : Node D N)
      → ((before : List (Sent N)) (d : Sent N) → N.send_fails before d ≡ false)
      → s.timers ≡ e ∷ rest
      → on_timer D N b false s
        ≡ (ok tt, record s { timers = rest ++ (e ∷ []); sent = s.sent ++ ((b, e.0, e.1) ∷ []) })
  unfolding on_timer hole_punch send_to
  on_timer_goes b e rest s free h = rw (h, on_timer, free)

  rounds_lem :
      (b : Bytes) (xs ys : List (Endpoint N)) (s : Node D N)
      → ((before : List (Sent N)) (d : Sent N) → N.send_fails before d ≡ false)
      → s.timers ≡ xs ++ ys
      → rounds (length xs) b s ≡ record s { timers = ys ++ xs; sent = s.sent ++ punched b xs }
  unfolding rounds
  rounds_lem b [] ys s free h = rw (append-nil, append-nil, ← h)
  rounds_lem b (e ∷ xs) ys s free h =
      rw (rounds, on_timer_goes b e (xs ++ ys) s free h)
        (rounds_lem b xs (ys ++ (e ∷ []))
            (record s { timers = (xs ++ ys) ++ (e ∷ []); sent = s.sent ++ ((b, e.0, e.1) ∷ []) })
            free (append_assoc xs ys (e ∷ []))
          ∙ rw (
            append_assoc ys (e ∷ []) xs,
            append_assoc s.sent ((b, e.0, e.1) ∷ []) (punched b xs),
          ))

  -- As long as the socket takes the datagrams, all timers in turn send one datagram each to their
  -- endpoints, and all are set again: none ever ends.
  pub rounds_punch_all :
      (b : Bytes) (s : Node D N)
      → ((before : List (Sent N)) (d : Sent N) → N.send_fails before d ≡ false)
      → rounds (length s.timers) b s ≡ record s { sent = s.sent ++ punched b s.timers }
  rounds_punch_all b s free = rounds_lem b s.timers [] s free (rw append-nil)
