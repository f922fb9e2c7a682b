-- ===== src/Server.antt =====
-- letmeind: the server's side of the protocol, as a program over one session with a client.
pub mod Session
pub mod Logic
pub mod Safety
pub mod FirewallClient
pub mod Protocol
pub mod Listen
pub mod Tasks
