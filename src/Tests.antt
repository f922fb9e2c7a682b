-- ===== src/Tests.antt =====
-- Runs of the model at concrete inputs, and each result at inputs where its conditions hold.
mod Server
mod Daemon
mod Protocol
mod Sockets
mod Client
mod Settings
mod Loading
mod Filters
mod Peers
mod Chain
mod Delivery
