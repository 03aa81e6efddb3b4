-- ===== src/Examples.antt =====
-- The theorems at concrete inputs.
mod Trim
pub mod Libraries
mod Wire
mod Letters
mod Nodes
mod ChatPage
mod LoginPage
mod Window
mod Receiver
mod Origin
mod Runtime
mod Node
mod Resolver
