-- ===== src/Server/Plan.antt =====
-- `plan_actions` of crates/qftp-server/src/server.rs: what the server decides to do with the streams
-- that have become readable.
pub mod Admitted
pub mod Once
pub mod Replayed
use qftp.Prelude.{
  ℕ, suc, Bytes, bytes, Bool, true, false, not, ◌||◌, Option, none, some, List, [], ◌∷◌, ◌++◌,
  if◌then◌else◌, Assoc, lookup, insert, and_then, nat_eq, Result, ok, err,
}
use qftp.Protocol.Codes.{HashAlgorithm, blake3, Encoding, malformed, unsupported}
use qftp.Protocol.Messages.{
  Request, ls, cd, pwd, get, put, mkdir, rmdir, rm, rename, chmod, stat, quota, quit, Response,
  err_response, new_error, GetFields, PutFields,
}
use qftp.Protocol.Validate.{ValidationError, validate_request}
use qftp.Transport.Frame.{Bincode, TransportError}
use qftp.Transport.Stream.{Recv, recv_message}
use qftp.Access.{Op}
use qftp.Limits.{IpKey}
use qftp.Limits.Rate.{Floats, Bucket}
use qftp.Server.Gate.{Metrics, Caller, Shared, validate_request_prerequisites}

-- `PutRequest`, what `start_put` gets of a `Put`
pub record PutRequest : Type 0 where
  pub path : Bytes
  pub size : ℕ
  pub mode : ℕ
  pub offset : ℕ
  pub expected_checksum : Option Bytes
  pub no_clobber : Bool
  pub checksum_trailer : Bool
  pub encoding : Encoding
  pub plaintext_size : ℕ
  pub leftover : Bytes

pub data PendingAction : Type 0 where
  start_get : (stream_id : ℕ) → GetFields → PendingAction
  start_put : (stream_id : ℕ) → PutRequest → PendingAction
  quit_action quota_action : (stream_id : ℕ) → PendingAction
  handle_simple : (stream_id : ℕ) → Request → PendingAction
  reject : (stream_id : ℕ) → Response → PendingAction

-- `StreamState`; what a transfer holds is in `P` for an upload.
pub data Phase (P : Type 0) : Type 0 where
  reading_request : (buf : Bytes) → Phase P
  reading_file_data : P → Phase P
  sending_file_data : Phase P
  done : Phase P

unfoldable pub malformed_request : Response
malformed_request = err_response (new_error malformed (bytes "Malformed request"))

unfoldable pub unsupported_hash : Response
unsupported_hash =
    err_response
      (new_error unsupported (bytes "unsupported hash algorithm (only BLAKE3 is supported)"))

abbrev is_blake3 : HashAlgorithm → Bool
is_blake3 blake3 = true
is_blake3 (HashAlgorithm.unknown n) = false

-- The `match req` behind the gates; `leftover` is what arrived behind the request.
unfoldable pub action_for : ℕ → Bytes → Request → PendingAction
action_for stream_id leftover (get f) = start_get stream_id f
action_for stream_id leftover (put f) =
    if is_blake3 f.hash_algorithm
    then start_put stream_id (record {
      path = f.path;
      size = f.size;
      mode = f.mode;
      offset = f.offset;
      expected_checksum = f.checksum;
      no_clobber = f.no_clobber;
      checksum_trailer = f.checksum_trailer;
      encoding = f.encoding;
      plaintext_size = f.plaintext_size;
      leftover = leftover;
    })
    else reject stream_id unsupported_hash
action_for stream_id leftover quit = quit_action stream_id
action_for stream_id leftover quota = quota_action stream_id
action_for stream_id leftover req = handle_simple stream_id req

-- What `drive_put` answers: nothing yet, the response to the upload, or an error of the transport,
-- which `?` passes on.
pub data PutProgress : Type 0 where
  waiting : PutProgress
  answered : Response → PutProgress
  broken : PutProgress

-- What the sweep changes besides the plan: the shared state, the connection's streams, and the
-- responses that an upload's end sends at once.
pub record Sweep (F P : Type 0) : Type 0 where
  pub shared : Shared F
  pub streams : Assoc ℕ (Phase P)
  pub sent : List (ℕ × Response)

abbrev is_err : Response → Bool
is_err (err_response e) = true
is_err _ = false

module _ {F P : Type 0} (floats : Floats F)
    (iter : Assoc IpKey (Bucket F) → List (IpKey × Bucket F)) (codec : Bincode Request)
    (describe : ValidationError → Bytes) (message : Op → Bytes)
    (drive_put : ℕ → P → PutProgress × P) where
  -- A request that was decoded: the caps, the gates, and the action.
  abbrev decide : ℕ → Caller → ℕ → Bytes → Request → Shared F → PendingAction × Shared F
  decide now c stream_id leftover req s = elim (validate_request req) [
    | err e ↦ (reject stream_id (err_response (new_error malformed (describe e))), s)
    | ok u ↦
        let counted : Shared F = record s {
          metrics = record s.metrics { requests_total = suc s.metrics.requests_total };
        } in
        let (refusal, after) =
          validate_request_prerequisites floats iter message now c req counted in
        elim refusal [
          | some resp ↦ (reject stream_id resp, after)
          | none ↦ (action_for stream_id leftover req, after)
        ]
  ]

  abbrev plan_received :
      ℕ
      → Caller
      → ℕ
      → Shared F
      → Result TransportError (Option Request) × Bytes
      → List PendingAction × Phase P × Shared F
  plan_received now c stream_id s (err e, rest) = (reject stream_id malformed_request ∷ [], done, s)
  plan_received now c stream_id s (ok none, rest) = ([], reading_request rest, s)
  plan_received now c stream_id s (ok (some req), rest) =
      let (action, after) = decide now c stream_id rest req s in (action ∷ [], done, after)

  -- One stream that waits for a request, with the answers of the transport to its reads.
  unfoldable pub plan_request :
      ℕ → Caller → ℕ → Bytes → List Recv → Shared F → List PendingAction × Phase P × Shared F
  unfolding recv_message validate_request validate_request_prerequisites action_for
  plan_request now c stream_id buf answers s =
      plan_received now c stream_id s (recv_message codec answers buf)

  abbrev failed_put : Response → Shared F → Shared F
  failed_put resp s =
      if is_err resp
      then record s {
        metrics = record s.metrics { requests_failed = suc s.metrics.requests_failed };
      }
      else s

  abbrev plan_put : ℕ → PutProgress × P → Sweep F P → Option (List PendingAction × Sweep F P)
  plan_put stream_id (waiting, upload) w =
      some ([], record w { streams = insert stream_id (reading_file_data upload) w.streams })
  plan_put stream_id (answered resp, upload) w = some (
    [],
    record {
      shared = failed_put resp w.shared;
      streams = insert stream_id done w.streams;
      sent = w.sent ++ (stream_id, resp) ∷ [];
    },
  )
  plan_put stream_id (broken, upload) w = none

  abbrev phase_or_new : Option (Phase P) → Phase P
  phase_or_new none = reading_request []
  phase_or_new (some phase) = phase

  abbrev plan_phase :
      ℕ → Caller → ℕ → List Recv → Sweep F P → Phase P → Option (List PendingAction × Sweep F P)
  plan_phase now c stream_id answers w (reading_request buf) =
      let (actions, phase, shared) = plan_request now c stream_id buf answers w.shared in
      some (actions, record w { shared = shared; streams = insert stream_id phase w.streams })
  plan_phase now c stream_id answers w (reading_file_data upload) =
      plan_put stream_id (drive_put stream_id upload) w
  plan_phase now c stream_id answers w sending_file_data = some ([], w)
  plan_phase now c stream_id answers w done = some ([], w)

  -- One round of `for &stream_id in readable_ids`.
  unfoldable pub plan_stream :
      ℕ → Caller → ℕ × List Recv → Sweep F P → Option (List PendingAction × Sweep F P)
  unfolding plan_request
  plan_stream now c (stream_id, answers) w =
      plan_phase now c stream_id answers w (phase_or_new (lookup stream_id w.streams))

  -- `none`: an error of the transport ended the sweep.
  unfoldable pub plan_actions :
      ℕ → Caller → List (ℕ × List Recv) → Sweep F P → Option (List PendingAction × Sweep F P)
  unfolding plan_stream
  plan_actions now c [] w = some ([], w)
  plan_actions now c (readable ∷ more) w = and_then (plan_stream now c readable w) λ planned.
      and_then (plan_actions now c more planned.1) λ later. some (planned.0 ++ later.0, later.1)
