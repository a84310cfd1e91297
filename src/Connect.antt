-- ===== src/Connect.antt =====
-- The directory connect/: the addresses to connect to, and the connection attempts.
pub mod Dns
pub mod Connector
pub mod Impatient
