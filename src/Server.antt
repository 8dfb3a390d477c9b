-- ===== src/Server.antt =====
-- The server of crates/qftp-server/src/server.rs: what a connection asks for and what it is given.
pub mod Gate
pub mod Plan
pub mod Retry
pub mod Connection
mod Tests
