-- ===== src/Transport.antt =====
-- crates/qftp-common/src/transport.rs: the frames of control messages, the writing of a stream and
-- the batching of datagrams.
pub mod Frame
pub mod Stream
pub mod Gso
mod Tests
