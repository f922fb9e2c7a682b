-- ===== src/FwProto.antt =====
-- letmein-fwproto/src/lib.rs: the protocol between letmeind and letmeinfwd.
pub mod Fields
pub mod Message
pub mod Wire
