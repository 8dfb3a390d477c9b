-- ===== src/Upload.antt =====
-- Uploads: crates/qftp-protocol/src/stream.rs, the quota counters of crates/qftp-protocol/src/user.rs,
-- and the driver in crates/qftp-server/src/transfer_put.rs.
pub mod Trailer
pub mod Decoder
pub mod Driver
pub mod Split
pub mod Quota
pub mod Claims
mod Tests
