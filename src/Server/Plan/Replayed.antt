-- ===== src/Server/Plan/Replayed.antt =====
-- What the first flight of a connection, which may be replayed, gets done by `plan_actions` of
-- crates/qftp-server/src/server.rs and `handle_request` of crates/qftp-protocol/src/handler.rs.
use qftp.Prelude.{
  ℕ, Bytes, Bool, true, false, ◌||◌, Option, none, some, List, [], All, All-map, Assoc, Bool-cases,
  ◌==◌, nat_eq, list_eq, if◌then◌else◌, Result, ok, err, ◌≡◌, inl, inr, refl,
}
use qftp.Protocol.Messages.{Request, cd, pwd, stat, quit, ErrorResponse}
use qftp.Protocol.Validate.{ValidationError}
use qftp.Transport.Frame.{Bincode}
use qftp.Transport.Stream.{Recv}
use qftp.Paths.{FilePath, Stat, found, failed, is_symlink}
use qftp.Paths.Walk.{resolve}
use qftp.Paths.Recheck.{recheck_ancestors_no_symlinks, recheck_path_no_symlinks}
use qftp.Access.{Op}
use qftp.Limits.{IpKey}
use qftp.Limits.Rate.{Floats, Bucket}
use qftp.Handlers.{Fs, Handled, if_safe, on_path, enter_if, stat_target, checked, handle_request}
use qftp.Server.Gate.{Caller, early_data_refused}
use qftp.Server.Plan.{
  PendingAction, start_get, start_put, quit_action, quota_action, handle_simple, reject,
  PutProgress, Sweep, plan_actions,
}
use qftp.Server.Plan.Admitted.{IsAdmitted, IsAdmittedPlan, plan_actions-IsAdmitted}

not_in_time : (refuse_all : Bool) → (refuse_all || true) ≡ false → ⊥
not_in_time true h = cc
not_in_time false h = cc

module _ (fs : Fs) (root cwd : FilePath) where
  abbrev IsCallFree : Handled → Type 0
  IsCallFree handled = handled.2 ≡ []

  -- It starts no transfer, and makes no call that changes the file system.
  abbrev pub IsHarmless : PendingAction → Type 0
  IsHarmless (start_get stream_id f) = ⊥
  IsHarmless (start_put stream_id p) = ⊥
  IsHarmless (quit_action stream_id) = Unit {0}
  IsHarmless (quota_action stream_id) = ⊥
  IsHarmless (handle_simple stream_id req) = (handle_request fs root req cwd).2 ≡ []
  IsHarmless (reject stream_id resp) = Unit {0}

  abbrev pub IsHarmlessPlan : {F P : Type 0} → Option (List PendingAction × Sweep F P) → Type 0
  IsHarmlessPlan none = Unit {0}
  IsHarmlessPlan (some (actions, after)) = All IsHarmless actions

  on_path-IsCallFree :
      (further : FilePath → Handled) (r : Result ErrorResponse FilePath)
      → ((p : FilePath) → IsCallFree (further p))
      → IsCallFree (on_path fs root cwd further r)
  on_path-IsCallFree further (err e) h = refl
  on_path-IsCallFree further (ok p) h = h p

  if_safe-IsCallFree :
      (further : Handled) (r : Result ErrorResponse (Unit {0}))
      → IsCallFree further
      → IsCallFree (if_safe fs root cwd further r)
  if_safe-IsCallFree further (err e) h = refl
  if_safe-IsCallFree further (ok u) h = h

  enter_if-IsCallFree :
      (path : Bytes) (target : FilePath) (dir : Bool)
      → IsCallFree (enter_if fs root path cwd target dir)
  enter_if-IsCallFree path target true = refl
  enter_if-IsCallFree path target false = refl

  stat_target-IsCallFree : (s : Stat) → IsCallFree (stat_target fs root cwd s)
  stat_target-IsCallFree (failed e) = refl
  stat_target-IsCallFree (found meta) = elim (Bool-cases (is_symlink meta.kind)) [
    | inl link ↦ rw link refl
    | inr solid ↦ rw solid refl
  ]

  stat-IsCallFree :
      (target : FilePath)
      → IsCallFree (
          if target == root
          then stat_target fs root cwd (fs.calling target)
          else checked fs root cwd target (stat_target fs root cwd (fs.calling target)))
  stat-IsCallFree target = elim (Bool-cases (target == root)) [
    | inl top ↦ rw top (stat_target-IsCallFree (fs.calling target))
    | inr below ↦ rw below (
        if_safe-IsCallFree _ (recheck_ancestors_no_symlinks fs.rechecking target root)
          (stat_target-IsCallFree (fs.calling target)))
  ]

  -- The requests that early data may carry change no file.
  handle_request-IsCallFree :
      (refuse_all : Bool) (req : Request)
      → early_data_refused refuse_all req ≡ false
      → IsCallFree (handle_request fs root req cwd)
  unfolding early_data_refused handle_request
  handle_request-IsCallFree refuse_all pwd h = refl
  handle_request-IsCallFree refuse_all (cd path) h =
      on_path-IsCallFree _ (resolve fs.resolving fs.follows cwd root path) λ target.
        if_safe-IsCallFree _ (recheck_path_no_symlinks fs.rechecking target root)
          (enter_if-IsCallFree path target (fs.is_dir target))
  handle_request-IsCallFree refuse_all (stat path) h =
      on_path-IsCallFree _ (resolve fs.resolving fs.follows cwd root path) stat-IsCallFree
  handle_request-IsCallFree refuse_all quit h = refl
  handle_request-IsCallFree true _ h = cc
  handle_request-IsCallFree false _ h = cc

  admitted-IsHarmless :
      (message : Op → Bytes) (c : Caller)
      → c.in_early_data ≡ true
      → (action : PendingAction) → IsAdmitted message c action
      → IsHarmless action
  unfolding early_data_refused
  admitted-IsHarmless message c early (start_get stream_id f) h =
      absurd (not_in_time c.refuse_all_early_data (h.2 early))
  admitted-IsHarmless message c early (start_put stream_id p) h =
      absurd (not_in_time c.refuse_all_early_data (h.2 early))
  admitted-IsHarmless message c early (quit_action stream_id) h = tt
  admitted-IsHarmless message c early (quota_action stream_id) h =
      absurd (not_in_time c.refuse_all_early_data (h.2 early))
  admitted-IsHarmless message c early (handle_simple stream_id req) h =
      handle_request-IsCallFree c.refuse_all_early_data req (h.2 early)
  admitted-IsHarmless message c early (reject stream_id resp) h = tt

  plan-IsHarmless :
      {F P : Type 0} (message : Op → Bytes) (c : Caller)
      → c.in_early_data ≡ true
      → (plan : Option (List PendingAction × Sweep F P)) → IsAdmittedPlan message c plan
      → IsHarmlessPlan plan
  plan-IsHarmless message c early none h = tt
  plan-IsHarmless message c early (some (actions, after)) h =
      All-map (admitted-IsHarmless message c early) actions h

  -- While a connection is in early data, whatever arrives: no action that the sweep plans starts a
  -- download or an upload or asks for the usage, and a request that a handler gets makes no call that
  -- changes the file system, in whatever directory and whatever the file system answers.
  pub plan_actions-IsHarmless :
      {F P : Type 0} (floats : Floats F) (iter : Assoc IpKey (Bucket F) → List (IpKey × Bucket F))
      (codec : Bincode Request) (describe : ValidationError → Bytes) (message : Op → Bytes)
      (drive_put : ℕ → P → PutProgress × P) (now : ℕ) (c : Caller) (readable : List (ℕ × List Recv))
      (w : Sweep F P)
      → c.in_early_data ≡ true
      → IsHarmlessPlan (plan_actions floats iter codec describe message drive_put now c readable w)
  plan_actions-IsHarmless floats iter codec describe message drive_put now c readable w early =
      plan-IsHarmless message c early _
        (plan_actions-IsAdmitted floats iter codec describe message drive_put now c readable w)
