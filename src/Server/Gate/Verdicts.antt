-- ===== src/Server/Gate/Verdicts.antt =====
-- Whom the gates of crates/qftp-server/src/server.rs let through.
use qftp.Prelude.{ℕ, Bytes, true, false, none, List, Assoc, ◌≡◌, ◌↔◌, arith}
use qftp.Protocol.Messages.{Request}
use qftp.Access.{Op, acl_reject}
use qftp.Limits.{IpKey}
use qftp.Limits.Rate.{Floats, Bucket, try_consume}
use qftp.Server.Gate.{early_data_refused, Caller, Shared, validate_request_prerequisites}

module _ {F : Type 0} (floats : Floats F)
    (iter : Assoc IpKey (Bucket F) → List (IpKey × Bucket F)) where
  -- A request passes the gates exactly when its address has a token left, it may be served in the
  -- phase of the connection that it arrived in, and the user's permissions cover it.
  pub validate_request_prerequisites_iff :
      (message : Op → Bytes) (now : ℕ) (c : Caller) (req : Request) (s : Shared F)
      → ((validate_request_prerequisites floats iter message now c req s).0 ≡ none) ↔ (
          ((try_consume floats iter now c.peer_ip s.limiter).0 ≡ true)
          × (c.in_early_data ≡ true → early_data_refused c.refuse_all_early_data req ≡ false)
          × (acl_reject message c.permissions req ≡ none))
  unfolding validate_request_prerequisites
  validate_request_prerequisites_iff message now c req s = ground arith
