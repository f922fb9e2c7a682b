-- ===== src/Proto.antt =====
-- letmein-proto/src/lib.rs: the wire protocol's messages.
pub mod Operation
pub mod Message
pub mod Auth
pub mod Wire
