-- ===== src/Lib.antt =====
-- qftp is a file transfer server and its clients over QUIC (crates/). Messages are bincode behind
-- a length prefix (crates/qftp-common); every readable stream of a connection carries one request,
-- which the server checks and turns into an action (crates/qftp-server/src/server.rs), and the
-- handlers, user directory and stream states of crates/qftp-protocol do the work under the user's
-- root. The clients (crates/qftp-client, crates/qftp-web-bridge) speak the same messages.
--
-- Prelude holds what the other modules share: lists and words over native numbers, equality as an
-- instance, association lists for HashMap and HashSet, Rust's Result with `?` as `>>=`, and `str`
-- as bytes.
-- Protocol is crates/qftp-common/src/protocol.rs: Codes has FileType, HashAlgorithm, Encoding and
-- ErrorCode with their numbers, Messages has Request and Response, Validate has validate_request
-- and validate_response, Names has safe_entry_name.
-- Transport is crates/qftp-common/src/transport.rs: Frame has encode_framed_message and
-- decode_framed_message, Stream has stream_send_all, send_message and recv_message over the two
-- stream calls of quiche, Gso has gso_step, the loop of flush_egress_gso over what conn.send
-- answers and over whether each call of send_batch and send_to succeeds, and gso_replay_ranges.
-- Access is Op and Permissions of crates/qftp-protocol/src/user.rs with required_op and acl_reject
-- of crates/qftp-protocol/src/handler.rs.
-- Paths is the path code of crates/qftp-protocol/src/handler.rs: Walk has walk_safe, resolve and
-- resolve_parent, Recheck has the two re-checks. A path is a list of names, and a file system is
-- what lstat answers at one moment, so the re-checks are about the moment at which they run.
-- Download is crates/qftp-server/src/transfer_get.rs: Start has start_get with
-- is_likely_incompressible of crates/qftp-protocol/src/compress.rs, and Download itself
-- drive_one_sender on an uncompressed body, over a list of what the peer takes at each offer.
-- Handlers is handle_request, quota_aware_remove and quota_aware_rename of
-- crates/qftp-protocol/src/handler.rs, over a record of what the file system answers while a path
-- is resolved, when it is looked at again, and at the call itself; a handler gives the response,
-- the working directory and the calls that it made. quota_aware_rename looks at the destination by
-- answers of its own, before the handler's.
-- Limits is crates/qftp-server/src/limits.rs: bucket_key, the connection counter with its slots,
-- and Rate has the token buckets with their sweep and eviction. The lock around each table makes
-- an operation one step, and so it is in the model.
-- Server is crates/qftp-server/src/server.rs: Gate has the gates in the order in which a request
-- meets them, which draw on Limits and Access; Plan has plan_actions over the readable streams of
-- a connection, which draws on Gate, on the frames of Transport and on the caps of Protocol, its
-- child Replayed also on Handlers; Retry is mint_at and verify_at of
-- crates/qftp-server/src/retry.rs with constant_time_eq of crates/qftp-common/src/util.rs.
-- Users is crates/qftp-protocol/src/user.rs: the directory of the users and its lookups, Walk has
-- walk_directory with walk_size and sweep_stale_partials, Config has from_config with the
-- resolution of the homes, and Identity has extract_identity_candidates and resolve_identity, from
-- a parsed certificate on.
-- Server/Connection is ConnectionContext of crates/qftp-server/src/connection.rs and
-- upgrade_user_from_cert of crates/qftp-server/src/server.rs; Server/Connection/Jobs has the
-- requests that the handler threads run (dispatch_handler_job, handler_worker,
-- apply_handler_result, and the fallback of a dead pool), and Jobs/Steps the event loop over its
-- connections as a step relation. What a handler does is any function, another one at each step. A
-- response counts once it is handed to send_message, whose failure the code only logs.
-- Upload is crates/qftp-protocol/src/stream.rs, the counters of crates/qftp-protocol/src/user.rs
-- and the admission and commit of crates/qftp-server/src/transfer_put.rs: Split has
-- classify_put_chunk and, in Split/Stream, the two loops over the chunks of an uncompressed upload
-- before its FIN, Trailer the checksum trailer, Claims the set of destinations in use, Quota the
-- reservations, and Decoder is ZstdDecoder of crates/qftp-protocol/src/compress.rs. The courses of
-- uploads in Quota and Claims are relations between states, one constructor for each thing that
-- the program may do, in any order. Upload/Driver is crates/qftp-server/src/transfer_put.rs as a
-- whole: Driver has the refusals and the steps on the body and the trailer, Driver/Drive has
-- drive_put, and Driver/Start has start_put, which draws on Paths, Claims and Quota. The state is
-- the upload with the bytes that its hasher was given, and the world with the contents of the
-- files; a step that ends the call early carries the response.
--
-- Machine words: lengths and counters are natural numbers with the wrap, the saturation or the
-- clamp of the source written out (`% 2 ^ 32` for the length prefix of a frame, `% 2 ^ 64` for the
-- additions of the atomic counters). A subtraction on natural numbers stops at 0, as
-- saturating_sub does.
-- Loops: stream_send_all runs on a count of rounds that starts at the length of the data, because
-- each round that does not return hands over at least one byte; gso_replay_ranges runs on one that
-- starts at the length of the batch, because each range has at least one byte. `push` of the zstd
-- decoder runs on one that starts at one more than the bytes of the input and of the room below
-- the cap, because each round but the last reads or writes a byte; walk_directory runs on the
-- number of directories of the tree, because each round takes one off the stack. All other loops
-- are structural recursion over a list.
--
-- Parameters, because the code does not define them: bincode (its two functions, with the
-- hypothesis that it reads back what it wrote), the answers of quiche to stream_send, stream_recv
-- and send, the arithmetic of f64, the order in which a HashMap iterates, the answers of lstat,
-- the calls of the file system in from_config and in the upload driver (each may fail, and reads
-- may be short), the hash of the contents, the decoder of the zstd library (which reads no more
-- than it is given and writes no more than it has room for), the certificate after its parsing,
-- the keyed hash and the clock of retry tokens, and the texts of errors.
--
-- Not modelled: sockets, TLS, timers and polling; what the calls of the request handlers do inside
-- the file system; the compressed body of a download and the zstd encoder; the parsing of
-- certificates and of the user file; metrics other than the counters of uploads; the clients, the
-- web bridge and the tools. They are I/O, or stand on the parts above.
pub mod Access
pub mod Download
pub mod Handlers
pub mod Limits
pub mod Paths
pub mod Prelude
pub mod Protocol
pub mod Server
pub mod Transport
pub mod Upload
pub mod Users
