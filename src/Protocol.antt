-- ===== src/Protocol.antt =====
-- crates/qftp-common/src/protocol.rs: the messages, their numeric codes and their size caps.
pub mod Codes
pub mod Messages
pub mod Names
pub mod Validate
mod Tests
