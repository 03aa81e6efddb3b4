-- ===== src/Node/HolePuncher.antt =====
-- udp_hole_puncher.cpp. Each start makes a timer of its own, which is set again whenever it ends.
use p2p_messenger.Prelude.{ℕ, [], ◌∷◌, ◌++◌, Bool}
use p2p_messenger.Prelude.Bytes.{Bytes}
use p2p_messenger.Prelude.Outcome.{Outcome, ok}
use p2p_messenger.Prelude.Program.{Program, ◌>>=◌, ◌>>◌, lift, modify}
use p2p_messenger.External.{OpenDht, Net}
use p2p_messenger.Wire.Serializer.{metadata_to_buffer}
use p2p_messenger.Node.State.{Node, Endpoint, send_to, make_address}

-- The constructor fills `buffer_`.
unfoldable pub udp_hole_puncher : Bytes → Bytes → Outcome Bytes
udp_hole_puncher login public_key = metadata_to_buffer login public_key

module _ (D : OpenDht) (N : Net) where
  -- The datagram, then the timer.
  unfoldable pub hole_punch : Bytes → Endpoint N → Program (Node D N) (Unit {0})
  hole_punch buffer endpoint = do
    send_to D N buffer endpoint
    modify λ s. record s { timers = s.timers ++ (endpoint ∷ []) }

  unfoldable pub start_hole_punching : Bytes → Bytes → ℕ → Program (Node D N) (Unit {0})
  start_hole_punching buffer ip port = do
    address ← lift (make_address D N ip)
    hole_punch buffer (address, port)

  -- The handler of the oldest timer, which punches again whether or not there is an error.
  unfoldable pub on_timer : Bytes → Bool → Program (Node D N) (Unit {0})
  on_timer buffer ec s = elim s.timers [
    | [] ↦ (ok tt, s)
    | endpoint ∷ rest ↦ hole_punch buffer endpoint (record s { timers = rest })
  ]
