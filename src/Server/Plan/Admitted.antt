-- ===== src/Server/Plan/Admitted.antt =====
-- The actions that `plan_actions` of crates/qftp-server/src/server.rs plans, against the gates.
use qftp.Prelude.{
  ℕ, suc, Bytes, true, false, Option, none, some, List, [], ◌∷◌, All, All-append, Assoc, lookup,
  and_then, nat_eq, ◌≡◌, ◌⊎◌, inl, inr, refl, sym, ap, subst, Bool-cases, Option-cases, Result,
  Result-cases, ok, err,
}
use qftp.Protocol.Codes.{HashAlgorithm, blake3}
use qftp.Protocol.Messages.{Request, ls, get, put, quota, quit, PutFields}
use qftp.Protocol.Validate.{ValidationError, validate_request}
use qftp.Transport.Frame.{Bincode, TransportError}
use qftp.Transport.Stream.{Recv, recv_message}
use qftp.Access.{Op, acl_reject}
use qftp.Limits.{IpKey}
use qftp.Limits.Rate.{Floats, Bucket}
use qftp.Server.Gate.{Caller, Shared, early_data_refused, validate_request_prerequisites}
use qftp.Server.Gate.Verdicts.{validate_request_prerequisites_iff}
use qftp.Server.Plan.{
  PendingAction, start_get, start_put, quit_action, quota_action, handle_simple, reject, Phase,
  PutProgress, waiting, answered, broken, reading_request, reading_file_data, sending_file_data,
  done, Sweep, action_for, is_blake3, decide, plan_request, plan_put, plan_received, plan_phase,
  phase_or_new, plan_stream, plan_actions,
}

-- The request that an action serves; a rejection serves none.
abbrev pub action_request : PendingAction → Option Request
action_request (start_get stream_id f) = some (get f)
action_request (start_put stream_id p) = some (
    put (record {
      path = p.path;
      size = p.size;
      mode = p.mode;
      offset = p.offset;
      hash_algorithm = blake3;
      checksum = p.expected_checksum;
      no_clobber = p.no_clobber;
      checksum_trailer = p.checksum_trailer;
      encoding = p.encoding;
      plaintext_size = p.plaintext_size;
    }))
action_request (quit_action stream_id) = some quit
action_request (quota_action stream_id) = some quota
action_request (handle_simple stream_id req) = some req
action_request (reject stream_id resp) = none

-- A request within the caps, that the user may make, and that may be served in the phase of the
-- connection.
abbrev pub IsServable : (Op → Bytes) → Caller → Option Request → Type 0
IsServable message c none = Unit {0}
IsServable message c (some req) =
    (validate_request req ≡ ok tt)
    × (acl_reject message c.permissions req ≡ none)
    × (c.in_early_data ≡ true → early_data_refused c.refuse_all_early_data req ≡ false)

abbrev pub IsAdmitted : (Op → Bytes) → Caller → PendingAction → Type 0
IsAdmitted message c action = IsServable message c (action_request action)

-- A plan, unless an error of the transport ended the sweep.
abbrev pub IsAdmittedPlan :
    {F P : Type 0} → (Op → Bytes) → Caller → Option (List PendingAction × Sweep F P) → Type 0
IsAdmittedPlan message c none = Unit {0}
IsAdmittedPlan message c (some (actions, after)) = All (IsAdmitted message c) actions

put-same : (f : PutFields) → f.hash_algorithm ≡ blake3 → record f { hash_algorithm = blake3 } ≡ f
put-same f h = ap (λ a. record f { hash_algorithm = a }) (sym h)

action_for-request :
    (stream_id : ℕ) (leftover : Bytes) (req : Request)
    → (action_request (action_for stream_id leftover req) ≡ none)
      ⊎ (action_request (action_for stream_id leftover req) ≡ some req)
unfolding action_for
action_for-request stream_id leftover (put f) = elim (Bool-cases (is_blake3 f.hash_algorithm)) [
  | inr e ↦ inl (rw e refl)
  | inl e ↦ inr (rw e (ap (λ p. some (put p)) (put-same f (only_blake3 f.hash_algorithm e))))
]
  where
    only_blake3 : (a : HashAlgorithm) → is_blake3 a ≡ true → a ≡ blake3
    only_blake3 blake3 h = refl
    only_blake3 (HashAlgorithm.unknown n) h = cc
action_for-request stream_id leftover quit = inr refl
action_for-request stream_id leftover quota = inr refl
action_for-request stream_id leftover (get f) = inr refl
action_for-request stream_id leftover (ls path cursor) = inr refl
action_for-request stream_id leftover _ = inr refl

module _ {F P : Type 0} (floats : Floats F)
    (iter : Assoc IpKey (Bucket F) → List (IpKey × Bucket F)) (codec : Bincode Request)
    (describe : ValidationError → Bytes) (message : Op → Bytes)
    (drive_put : ℕ → P → PutProgress × P) where
  passed-IsAdmitted :
      (now : ℕ) (c : Caller) (stream_id : ℕ) (leftover : Bytes) (req : Request) (s : Shared F)
      → validate_request req ≡ ok tt
      → (validate_request_prerequisites floats iter message now c req s).0 ≡ none
      → IsAdmitted message c (action_for stream_id leftover req)
  passed-IsAdmitted now c stream_id leftover req s valid passed =
      let (granted, timely, allowed) =
        (validate_request_prerequisites_iff floats iter message now c req s).0 passed in
      elim (action_for-request stream_id leftover req) [
        | inl e ↦ subst (IsServable message c) (sym e) tt
        | inr e ↦ subst (IsServable message c) (sym e) (valid, allowed, timely)
      ]

  decide-IsAdmitted :
      (now : ℕ) (c : Caller) (stream_id : ℕ) (leftover : Bytes) (req : Request) (s : Shared F)
      → IsAdmitted message c
          (decide floats iter codec describe message drive_put now c stream_id leftover req s).0
  decide-IsAdmitted now c stream_id leftover req s = elim (Result-cases (validate_request req)) [
    | inr (e, invalid) ↦ rw (invalid, decide) tt
    | inl (u, valid) ↦
        let counted : Shared F = record s {
          metrics = record s.metrics { requests_total = suc s.metrics.requests_total };
        } in
        elim (Option-cases
          (validate_request_prerequisites floats iter message now c req counted).0) [
            | inr (resp, refused) ↦ rw (valid, decide, refused) tt
            | inl passed ↦
                rw (valid, decide, passed)
                  (passed-IsAdmitted now c stream_id leftover req counted valid passed)
          ]
  ]

  plan_received-IsAdmitted :
      (now : ℕ) (c : Caller) (stream_id : ℕ) (s : Shared F)
      (r : Result TransportError (Option Request) × Bytes)
      → All
          (IsAdmitted message c)
          (plan_received floats iter codec describe message drive_put now c stream_id s r).0
  plan_received-IsAdmitted now c stream_id s (err e, rest) = (tt, tt)
  plan_received-IsAdmitted now c stream_id s (ok none, rest) = tt
  plan_received-IsAdmitted now c stream_id s (ok (some req), rest) =
      (decide-IsAdmitted now c stream_id rest req s, tt)

  plan_put-IsAdmitted :
      (c : Caller) (stream_id : ℕ) (r : PutProgress × P) (w : Sweep F P)
      → IsAdmittedPlan message c
          (plan_put floats iter codec describe message drive_put stream_id r w)
  plan_put-IsAdmitted c stream_id (waiting, upload) w = tt
  plan_put-IsAdmitted c stream_id (answered resp, upload) w = tt
  plan_put-IsAdmitted c stream_id (broken, upload) w = tt

  plan_phase-IsAdmitted :
      (now : ℕ) (c : Caller) (stream_id : ℕ) (answers : List Recv) (w : Sweep F P) (phase : Phase P)
      → IsAdmittedPlan message c
          (plan_phase floats iter codec describe message drive_put now c stream_id answers w phase)
  unfolding plan_request
  plan_phase-IsAdmitted now c stream_id answers w (reading_request buf) =
      plan_received-IsAdmitted now c stream_id w.shared (recv_message codec answers buf)
  plan_phase-IsAdmitted now c stream_id answers w (reading_file_data upload) =
      plan_put-IsAdmitted c stream_id (drive_put stream_id upload) w
  plan_phase-IsAdmitted now c stream_id answers w sending_file_data = tt
  plan_phase-IsAdmitted now c stream_id answers w done = tt

  plan_stream-IsAdmitted :
      (now : ℕ) (c : Caller) (readable : ℕ × List Recv) (w : Sweep F P)
      → IsAdmittedPlan message c
          (plan_stream floats iter codec describe message drive_put now c readable w)
  unfolding plan_stream
  plan_stream-IsAdmitted now c (stream_id, answers) w =
      plan_phase-IsAdmitted now c stream_id answers w
        (phase_or_new floats iter codec describe message drive_put (lookup stream_id w.streams))

  and_then-IsAdmittedPlan :
      (c : Caller) (plan : Option (List PendingAction × Sweep F P))
      (rest : List PendingAction × Sweep F P → Option (List PendingAction × Sweep F P))
      → IsAdmittedPlan message c plan
      → ((p : List PendingAction × Sweep F P)
          → All (IsAdmitted message c) p.0
          → IsAdmittedPlan message c (rest p))
      → IsAdmittedPlan message c (and_then plan rest)
  and_then-IsAdmittedPlan c none rest h more = tt
  and_then-IsAdmittedPlan c (some p) rest h more = more p h

  -- Whatever arrives on whatever streams, in whatever pieces, each action that the sweep plans, other
  -- than a rejection, serves a request that is within the size caps, that the user's permissions
  -- cover, and that may be served in early data if the connection still is in that phase.
  pub plan_actions-IsAdmitted :
      (now : ℕ) (c : Caller) (readable : List (ℕ × List Recv)) (w : Sweep F P)
      → IsAdmittedPlan message c
          (plan_actions floats iter codec describe message drive_put now c readable w)
  unfolding plan_actions
  plan_actions-IsAdmitted now c [] w = tt
  plan_actions-IsAdmitted now c (readable ∷ more) w =
      and_then-IsAdmittedPlan c _ _ (plan_stream-IsAdmitted now c readable w) λ first admitted.
        and_then-IsAdmittedPlan c _ _ (plan_actions-IsAdmitted now c more first.1)
          λ later admitted_later.
            All-append (IsAdmitted message c) first.0 later.0 admitted admitted_later
