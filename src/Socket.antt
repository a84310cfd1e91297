-- ===== src/Socket.antt =====
-- The directory socket/: the breaker and the event lists of the poll.
pub mod Breaker
pub mod Polling
pub mod TcpSocket
pub mod Ssl
pub mod Tls
