-- ===== src/Socket.antt =====
-- letmein-proto/src/socket.rs: the UDP dispatcher and the sockets over it.
pub mod Dispatcher
pub mod Net
