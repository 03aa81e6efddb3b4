-- ===== src/Node.antt =====
-- The running messenger: the state that its parts share, the socket, and what the parts do to them.
pub mod State
pub mod HolePuncher
pub mod Sender
pub mod Receiver
pub mod Messenger
pub mod Delivery
pub mod Inbox
pub mod Keyed
pub mod Origin
pub mod Safety
pub mod Guards
pub mod Datagrams
pub mod Sending
pub mod Exchange
pub mod Replay
pub mod Timers
pub mod Relay
pub mod Identity
