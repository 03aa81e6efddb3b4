-- ===== src/Wire/Headers.antt =====
-- The two functions of message_deserializer.cpp that read the fields of a message, each with its own
-- code.
use p2p_messenger.Prelude.{◌≡◌}
use p2p_messenger.Prelude.Bytes.{Bytes}
use p2p_messenger.Prelude.Outcome.{>>=-assoc}
use p2p_messenger.Wire.Deserializer.{
  header_from_buffer, peer_from_buffer, message_header_from_buffer,
}

-- The reader that decrypts and the one that does not, up to the payload, read the same fields, size
-- and place of the payload from any buffer, or both fail, in the same way.
pub message_header-header : (b : Bytes) → message_header_from_buffer b ≡ header_from_buffer b
unfolding message_header_from_buffer header_from_buffer peer_from_buffer
message_header-header b = simp (>>=-assoc)
