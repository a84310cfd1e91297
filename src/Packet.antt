-- ===== src/Packet.antt =====
-- packet/: the wire format of the go-socket protocol.
pub mod Error
pub mod Reader
pub mod TcpIo
pub mod Gzip
pub mod Zlib
pub mod Encoding
pub mod Decoding
pub mod Header
pub mod Message
