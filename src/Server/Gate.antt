-- ===== src/Server/Gate.antt =====
-- The gates of crates/qftp-server/src/server.rs that every request passes: the rate limit, the
-- protection of early data, and the ACL, in this order.
pub mod Verdicts
use qftp.Prelude.{
  ℕ, suc, Bytes, bytes, Bool, true, false, not, ◌||◌, Option, none, some, List, if◌then◌else◌,
  Assoc,
}
use qftp.Protocol.Codes.{rate_limited, unsupported}
use qftp.Protocol.Messages.{
  Request, ls, cd, pwd, get, put, mkdir, rmdir, rm, rename, chmod, stat, quota, quit, Response,
  err_response, new_error, with_details, retry_after,
}
use qftp.Access.{Op, Permissions, acl_reject}
use qftp.Limits.{IpAddr, IpKey}
use qftp.Limits.Rate.{Floats, Bucket, RateLimiter, try_consume, retry_after_millis}

unfoldable pub request_is_replay_safe : Request → Bool
request_is_replay_safe (cd path) = true
request_is_replay_safe pwd = true
request_is_replay_safe (stat path) = true
request_is_replay_safe quit = true
request_is_replay_safe (ls path cursor) = false
request_is_replay_safe (get f) = false
request_is_replay_safe (put f) = false
request_is_replay_safe (mkdir path) = false
request_is_replay_safe (rmdir path) = false
request_is_replay_safe (rm path) = false
request_is_replay_safe (rename from_path to_path) = false
request_is_replay_safe (chmod path mode) = false
request_is_replay_safe quota = false

unfoldable pub early_data_refused : Bool → Request → Bool
unfolding request_is_replay_safe
early_data_refused refuse_all req = refuse_all || not (request_is_replay_safe req)

-- the counters of the server's metrics that the gates move
pub record Metrics : Type 0 where
  pub requests_total : ℕ
  pub requests_failed : ℕ
  pub requests_rate_limited : ℕ
  pub zero_rtt_rejected : ℕ
  pub zero_rtt_accepted : ℕ

-- What a gate looks at besides the request: the connection's phase, its peer and its user.
pub record Caller : Type 0 where
  pub in_early_data : Bool
  pub peer_ip : IpAddr
  pub permissions : Permissions
  pub refuse_all_early_data : Bool

-- What the connections share.
pub record Shared (F : Type 0) : Type 0 where
  pub limiter : RateLimiter F
  pub metrics : Metrics

unfoldable pub rate_limit_exceeded : ℕ → Response
rate_limit_exceeded millis =
    err_response (with_details rate_limited (bytes "Rate limit exceeded") (retry_after millis))

unfoldable pub requires_1rtt : Response
requires_1rtt = err_response (new_error unsupported (bytes "Operation requires 1-RTT data"))

module _ {F : Type 0} (floats : Floats F)
    (iter : Assoc IpKey (Bucket F) → List (IpKey × Bucket F)) where
  abbrev early_data_gate : Caller → Request → Metrics → Option Response × Metrics
  early_data_gate c req m =
      if c.in_early_data
      then if early_data_refused c.refuse_all_early_data req
        then (some requires_1rtt, record m { zero_rtt_rejected = suc m.zero_rtt_rejected })
        else (none, record m { zero_rtt_accepted = suc m.zero_rtt_accepted })
      else (none, m)

  abbrev acl_gate : (Op → Bytes) → Caller → Request → Option Response → Option Response
  acl_gate message c req (some resp) = some resp
  acl_gate message c req none = acl_reject message c.permissions req

  -- `message` is the text of the ACL's refusal. `some` is a rejection.
  unfoldable pub validate_request_prerequisites :
      (Op → Bytes) → ℕ → Caller → Request → Shared F → Option Response × Shared F
  unfolding try_consume early_data_refused
  validate_request_prerequisites message now c req s =
      let (granted, limiter) = try_consume floats iter now c.peer_ip s.limiter in
      let (refusal, counted) = early_data_gate c req s.metrics in
      if granted
      then (acl_gate message c req refusal, record { limiter = limiter; metrics = counted })
      else (
        some (rate_limit_exceeded (retry_after_millis floats iter limiter)),
        record {
          limiter = limiter;
          metrics = record s.metrics {
            requests_rate_limited = suc s.metrics.requests_rate_limited;
          };
        },
      )
