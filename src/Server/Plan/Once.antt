-- ===== src/Server/Plan/Once.antt =====
-- The streams of the actions that `plan_actions` of crates/qftp-server/src/server.rs plans.
use qftp.Prelude.{
  ℕ, suc, Bytes, Option, none, some, List, [], ◌∷◌, ◌++◌, All, All-append, All-map, Assoc, lookup,
  insert, lookup-insert, and_then, nat_eq, nat_beq_iff, ◌≡◌, ◌≢◌, subst, inl, inr, refl, arith,
  Option-cases, Result, Result-cases, ok, err,
}
use qftp.Protocol.Messages.{Request, ls, put}
use qftp.Protocol.Validate.{ValidationError, validate_request}
use qftp.Transport.Frame.{Bincode, TransportError}
use qftp.Transport.Stream.{Recv, recv_message}
use qftp.Access.{Op}
use qftp.Limits.{IpKey}
use qftp.Limits.Rate.{Floats, Bucket}
use qftp.Server.Gate.{Caller, Shared, validate_request_prerequisites}
use qftp.Server.Plan.{
  PendingAction, start_get, start_put, quit_action, quota_action, handle_simple, reject, Phase,
  PutProgress, waiting, answered, broken, reading_request, reading_file_data, sending_file_data,
  done, Sweep, action_for, decide, plan_request, plan_put, plan_received, plan_phase, phase_or_new,
  plan_stream, plan_actions,
}

abbrev pub stream_of : PendingAction → ℕ
stream_of (start_get stream_id f) = stream_id
stream_of (start_put stream_id p) = stream_id
stream_of (quit_action stream_id) = stream_id
stream_of (quota_action stream_id) = stream_id
stream_of (handle_simple stream_id req) = stream_id
stream_of (reject stream_id resp) = stream_id

stream_of-action_for :
    (stream_id : ℕ) (leftover : Bytes) (req : Request)
    → stream_of (action_for stream_id leftover req) ≡ stream_id
unfolding action_for
stream_of-action_for stream_id leftover (put f) = ground arith
stream_of-action_for stream_id leftover (ls path cursor) = refl
stream_of-action_for stream_id leftover _ = refl

abbrev pub IsDone : {P : Type 0} → Assoc ℕ (Phase P) → ℕ → Type 0
IsDone streams stream_id = lookup stream_id streams ≡ some done

-- The streams of the actions are all different.
abbrev pub IsApart : List PendingAction → Type 0
IsApart [] = Unit {0}
IsApart (a ∷ firsts) = All (λ b. stream_of a ≢ stream_of b) firsts × IsApart firsts

-- Each action is for a stream that was not done before and is done after, a stream that was done
-- stays so, and no two actions are for one stream.
abbrev pub IsServedOnce :
    {F P : Type 0} → Assoc ℕ (Phase P) → Option (List PendingAction × Sweep F P) → Type 0
IsServedOnce before none = Unit {0}
IsServedOnce before (some (actions, after)) =
    All (λ a. (IsDone before (stream_of a) → ⊥) × IsDone after.streams (stream_of a)) actions
    × ((stream_id : ℕ) → IsDone before stream_id → IsDone after.streams stream_id)
    × IsApart actions

IsApart-append :
    (firsts laters : List PendingAction)
    → IsApart firsts
    → IsApart laters
    → All (λ a. All (λ b. stream_of a ≢ stream_of b) laters) firsts
    → IsApart (firsts ++ laters)
IsApart-append [] laters h k apart = k
IsApart-append (a ∷ firsts) laters h k apart =
    (All-append _ firsts laters h.0 apart.0, IsApart-append firsts laters h.1 k apart.1)

-- Streams that are done are not those that are not.
done-apart :
    {P : Type 0} (streams : Assoc ℕ (Phase P)) (firsts laters : List PendingAction)
    → All (λ a. IsDone streams (stream_of a)) firsts
    → All (λ b. IsDone streams (stream_of b) → ⊥) laters
    → All (λ a. All (λ b. stream_of a ≢ stream_of b) laters) firsts
done-apart streams firsts laters ended open_still =
    All-map
      (λ a was.
        All-map (λ b not_yet. λ same. not_yet (subst (IsDone streams) same was)) laters open_still)
      firsts ended

module _ {F P : Type 0} (floats : Floats F)
    (iter : Assoc IpKey (Bucket F) → List (IpKey × Bucket F)) (codec : Bincode Request)
    (describe : ValidationError → Bytes) (message : Op → Bytes)
    (drive_put : ℕ → P → PutProgress × P) where
  stream_of-decide :
      (now : ℕ) (c : Caller) (stream_id : ℕ) (leftover : Bytes) (req : Request) (s : Shared F)
      → stream_of
          (decide floats iter codec describe message drive_put now c stream_id leftover req s).0
        ≡ stream_id
  stream_of-decide now c stream_id leftover req s = elim (Result-cases (validate_request req)) [
    | inr (e, invalid) ↦ rw (invalid, decide) refl
    | inl (u, valid) ↦
        let counted : Shared F = record s {
          metrics = record s.metrics { requests_total = suc s.metrics.requests_total };
        } in
        elim (Option-cases
          (validate_request_prerequisites floats iter message now c req counted).0) [
            | inr (resp, refused) ↦ rw (valid, decide, refused) refl
            | inl passed ↦ rw (valid, decide, passed) (stream_of-action_for stream_id leftover req)
          ]
  ]

  -- replacing the phase of a stream that is open
  insert-keeps_IsDone :
      (streams : Assoc ℕ (Phase P)) (stream_id : ℕ) (phase : Phase P)
      → (IsDone streams stream_id → ⊥)
      → (id : ℕ) → IsDone streams id
      → IsDone (insert stream_id phase streams) id
  insert-keeps_IsDone streams stream_id phase open_still id h =
      ground
        (arith, lookup-insert stream_id id phase streams, nat_beq_iff stream_id id, h, open_still)

  insert-IsDone :
      (streams : Assoc ℕ (Phase P)) (stream_id : ℕ)
      → IsDone (insert stream_id done streams) stream_id
  insert-IsDone streams stream_id =
      ground
        (arith, lookup-insert stream_id stream_id done streams, nat_beq_iff stream_id stream_id)

  plan_received-IsServedOnce :
      (now : ℕ) (c : Caller) (stream_id : ℕ) (w : Sweep F P)
      (r : Result TransportError (Option Request) × Bytes)
      → (IsDone w.streams stream_id → ⊥)
      → let (actions, phase, shared) =
          plan_received floats iter codec describe message drive_put now c stream_id w.shared r in
        IsServedOnce w.streams
          (some (actions, record w { shared = shared; streams = insert stream_id phase w.streams }))
  plan_received-IsServedOnce now c stream_id w (err e, rest) open_still = (
    ((open_still, insert-IsDone w.streams stream_id), tt),
    insert-keeps_IsDone w.streams stream_id done open_still,
    (tt, tt),
  )
  plan_received-IsServedOnce now c stream_id w (ok none, rest) open_still =
      (tt, insert-keeps_IsDone w.streams stream_id (reading_request rest) open_still, tt)
  plan_received-IsServedOnce now c stream_id w (ok (some req), rest) open_still = (
    (
      (
        rw (stream_of-decide now c stream_id rest req w.shared) open_still,
        rw (stream_of-decide now c stream_id rest req w.shared) (insert-IsDone w.streams stream_id),
      ),
      tt,
    ),
    insert-keeps_IsDone w.streams stream_id done open_still,
    (tt, tt),
  )

  plan_put-IsServedOnce :
      (stream_id : ℕ) (r : PutProgress × P) (w : Sweep F P)
      → (IsDone w.streams stream_id → ⊥)
      → IsServedOnce w.streams (plan_put floats iter codec describe message drive_put stream_id r w)
  plan_put-IsServedOnce stream_id (waiting, upload) w open_still =
      (tt, insert-keeps_IsDone w.streams stream_id (reading_file_data upload) open_still, tt)
  plan_put-IsServedOnce stream_id (answered resp, upload) w open_still =
      (tt, insert-keeps_IsDone w.streams stream_id done open_still, tt)
  plan_put-IsServedOnce stream_id (broken, upload) w open_still = tt

  plan_phase-IsServedOnce :
      (now : ℕ) (c : Caller) (stream_id : ℕ) (answers : List Recv) (w : Sweep F P)
      (held : Option (Phase P))
      → lookup stream_id w.streams ≡ held
      → IsServedOnce w.streams (
          plan_phase floats iter codec describe message drive_put now c stream_id answers w
            (phase_or_new floats iter codec describe message drive_put held))
  unfolding plan_request
  plan_phase-IsServedOnce now c stream_id answers w none e =
      plan_received-IsServedOnce now c stream_id w (recv_message codec answers []) (λ h. cc)
  plan_phase-IsServedOnce now c stream_id answers w (some (reading_request buf)) e =
      plan_received-IsServedOnce now c stream_id w (recv_message codec answers buf) (λ h. cc)
  plan_phase-IsServedOnce now c stream_id answers w (some (reading_file_data upload)) e =
      plan_put-IsServedOnce stream_id (drive_put stream_id upload) w (λ h. cc)
  plan_phase-IsServedOnce now c stream_id answers w (some sending_file_data) e =
      (tt, (λ id h. h), tt)
  plan_phase-IsServedOnce now c stream_id answers w (some done) e = (tt, (λ id h. h), tt)

  and_then-IsServedOnce :
      (before : Assoc ℕ (Phase P)) (first : List PendingAction × Sweep F P)
      (plan : Option (List PendingAction × Sweep F P))
      → IsServedOnce before (some first)
      → IsServedOnce first.1.streams plan
      → IsServedOnce before (and_then plan λ later. some (first.0 ++ later.0, later.1))
  and_then-IsServedOnce before first none h more = tt
  and_then-IsServedOnce before first (some later) h more = (
    All-append _ first.0 later.0
        (All-map (λ a served. (served.0, more.1 (stream_of a) served.1)) first.0 h.0)
        (All-map (λ a served. (λ was. served.0 (h.1 (stream_of a) was), served.1)) later.0 more.0),
    λ id was. more.1 id (h.1 id was),
    IsApart-append first.0 later.0 h.2 more.2 (
        done-apart first.1.streams first.0 later.0 (All-map (λ a served. served.1) first.0 h.0)
          (All-map (λ b served. served.0) later.0 more.0)),
  )

  sweep-IsServedOnce :
      (before : Assoc ℕ (Phase P)) (plan : Option (List PendingAction × Sweep F P))
      (rest : Sweep F P → Option (List PendingAction × Sweep F P))
      → IsServedOnce before plan
      → ((w : Sweep F P) → IsServedOnce w.streams (rest w))
      → IsServedOnce before (
          and_then plan
            λ first. and_then (rest first.1) λ later. some (first.0 ++ later.0, later.1))
  sweep-IsServedOnce before none rest h more = tt
  sweep-IsServedOnce before (some first) rest h more =
      and_then-IsServedOnce before first (rest first.1) h (more first.1)

  -- In one sweep no stream is planned for twice, whatever arrives, also when a stream is reported
  -- readable more than once: no two actions are for the same stream, each is for a stream that was
  -- not done before the sweep and is done after it, and a stream that is done stays so.
  pub plan_actions-IsServedOnce :
      (now : ℕ) (c : Caller) (readable : List (ℕ × List Recv)) (w : Sweep F P)
      → IsServedOnce w.streams
          (plan_actions floats iter codec describe message drive_put now c readable w)
  unfolding plan_actions plan_stream
  plan_actions-IsServedOnce now c [] w = (tt, (λ id h. h), tt)
  plan_actions-IsServedOnce now c ((stream_id, answers) ∷ more) w =
      sweep-IsServedOnce w.streams
        (plan_stream floats iter codec describe message drive_put now c (stream_id, answers) w)
        (plan_actions floats iter codec describe message drive_put now c more)
        (plan_phase-IsServedOnce now c stream_id answers w (lookup stream_id w.streams) refl)
        (plan_actions-IsServedOnce now c more)
