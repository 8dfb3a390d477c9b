-- ===== src/Server/Connection/Jobs.antt =====
-- The requests of a connection that the handler threads of crates/qftp-server/src/server.rs run, and
-- how their results come back to it.
pub mod Steps
pub mod Answered
pub mod Kept
pub mod Reached
use qftp.Prelude.{
  ℕ, ◌+◌, ◌<◌, ◌*◌, ◌^◌, suc, Bytes, bytes, Bool, true, false, not, ◌&&◌, Option, none, some, List,
  [], ◌∷◌, ◌++◌, ◌==◌, nat_eq, list_eq, if◌then◌else◌, Assoc, lookup, insert, remove, ◌≡◌,
}
use qftp.Protocol.Codes.{internal}
use qftp.Protocol.Messages.{Request, ls, cd, pwd, Response, err_response, new_error}
use qftp.Paths.{FilePath}
use qftp.Users.{User, UserDirectory, ArcUser, anonymous_user, ptr_eq}
use qftp.Server.Gate.{requires_1rtt}
use qftp.Server.Connection.{ConnectionContext, new_connection, upgrade_user_from_cert}

-- `HandlerJob`
pub record HandlerJob : Type 0 where
  pub conn_key : Bytes
  pub generation : ℕ
  pub stream_id : ℕ
  pub req : Request
  pub cwd : FilePath
  pub user : ArcUser

-- `HandlerResult`
pub record HandlerResult : Type 0 where
  pub conn_key : Bytes
  pub generation : ℕ
  pub stream_id : ℕ
  pub response : Response
  pub new_cwd : FilePath
  pub user : ArcUser

-- What the pool holds: jobs that no thread has finished, and results that the event loop has not
-- taken. `alive`: the channel of the jobs still has a receiver.
pub data Work : Type 0 where
  queued : HandlerJob → Work
  finished : HandlerResult → Work

pub record HandlerPool : Type 0 where
  pub work : List Work
  pub alive : Bool

-- `run_handler`: its response, `none` where it panics, and the working directory after it. What it
-- does depends on the files, so that each step has its own.
abbrev pub Handler : Type 0
Handler = Request → FilePath → ArcUser → Option Response × FilePath

unfoldable pub handler_result_is_stale : (ctx_generation result_generation : ℕ) → Bool
handler_result_is_stale ctx_generation result_generation = not (ctx_generation == result_generation)

unfoldable pub handler_result_user_matches : (ctx_user result_user : ArcUser) → Bool
unfolding ptr_eq
handler_result_user_matches ctx_user result_user = ptr_eq ctx_user result_user

abbrev pub is_cd : Request → Bool
is_cd (cd path) = true
is_cd _ = false

abbrev pub handler_crashed : Response
handler_crashed = err_response (new_error internal (bytes "handler crashed"))

-- After a panic the working directory of a `Cd` is what it was.
unfoldable pub handle_handler_panic : Handler → Request → FilePath → ArcUser → Response × FilePath
handle_handler_panic run req cwd user = elim (run req cwd user).0 [
  | some response ↦ (response, (run req cwd user).1)
  | none ↦ (handler_crashed, if is_cd req then cwd else (run req cwd user).1)
]

-- One round of `handler_worker`
unfoldable pub handler_worker : Handler → HandlerJob → HandlerResult
unfolding handle_handler_panic
handler_worker run job =
    let outcome = handle_handler_panic run job.req job.cwd job.user in
    record {
      conn_key = job.conn_key;
      generation = job.generation;
      stream_id = job.stream_id;
      response = outcome.0;
      new_cwd = outcome.1;
      user = job.user;
    }

-- `send_message`, whose failure is only logged
abbrev pub respond : ℕ → Response → ConnectionContext → ConnectionContext
respond stream_id response ctx = record ctx {
  answered = ctx.answered ++ (stream_id, response) ∷ [];
}

unfoldable pub run_handler_inline :
    Handler → ℕ → Request → FilePath → ArcUser → ConnectionContext → ConnectionContext
unfolding handle_handler_panic
run_handler_inline run stream_id req cwd user ctx =
    let outcome = handle_handler_panic run req cwd user in
    respond stream_id outcome.0 (record ctx { cwd = outcome.1 })

-- The loop of the dead pool, over the queue from its front
unfoldable pub run_backlog : Handler → List (ℕ × Request) → ConnectionContext → ConnectionContext
unfolding run_handler_inline
run_backlog run [] ctx = record ctx { pending_handler_jobs = [] }
run_backlog run ((stream_id, req) ∷ rest) ctx =
    run_backlog run rest (run_handler_inline run stream_id req ctx.cwd ctx.user ctx)

unfoldable pub dispatch_handler_job :
    Handler
    → (scid : Bytes) → ℕ
    → Request
    → HandlerPool × ConnectionContext
    → HandlerPool × ConnectionContext
unfolding run_handler_inline run_backlog
dispatch_handler_job run scid stream_id req (pool, ctx) =
    let job : HandlerJob = record {
      conn_key = scid;
      generation = ctx.generation;
      stream_id = stream_id;
      req = req;
      cwd = ctx.cwd;
      user = ctx.user;
    } in
    if pool.alive
    then (
      record pool { work = pool.work ++ queued job ∷ [] },
      record ctx { handler_in_flight = true },
    )
    else (
      pool,
      run_backlog run ctx.pending_handler_jobs
          (record (run_handler_inline run stream_id req job.cwd job.user ctx) {
            handler_in_flight = false;
          }),
    )

-- `PendingAction::HandleSimple` of `execute_pending_actions`
unfoldable pub handle_simple :
    Handler
    → (scid : Bytes) → ℕ
    → Request
    → HandlerPool × ConnectionContext
    → HandlerPool × ConnectionContext
unfolding dispatch_handler_job
handle_simple run scid stream_id req (pool, ctx) =
    if ctx.handler_in_flight
    then (
      pool,
      record ctx { pending_handler_jobs = ctx.pending_handler_jobs ++ (stream_id, req) ∷ [] },
    )
    else dispatch_handler_job run scid stream_id req (pool, ctx)

-- the next request in the queue, if any
abbrev pub dispatch_next :
    Handler
    → (scid : Bytes) → List (ℕ × Request)
    → HandlerPool × ConnectionContext
    → HandlerPool × ConnectionContext
dispatch_next run scid [] (pool, ctx) = (pool, ctx)
dispatch_next run scid ((stream_id, req) ∷ rest) (pool, ctx) =
    dispatch_handler_job run scid stream_id req (pool, record ctx { pending_handler_jobs = rest })

abbrev pub take_result : HandlerResult → ConnectionContext → ConnectionContext
take_result result ctx =
    if handler_result_user_matches ctx.user result.user
    then respond result.stream_id result.response (record ctx { cwd = result.new_cwd })
    else respond result.stream_id requires_1rtt ctx

abbrev pub Table : Type 0
Table = Assoc Bytes ConnectionContext

abbrev pub put_back : Bytes → Table → HandlerPool × ConnectionContext → HandlerPool × Table
put_back scid table (pool, ctx) = (pool, insert scid ctx table)

abbrev pub apply_to :
    Handler → HandlerResult → Table → HandlerPool → Option ConnectionContext → HandlerPool × Table
apply_to run result table pool none = (pool, table)
apply_to run result table pool (some ctx) =
    if handler_result_is_stale ctx.generation result.generation
    then (pool, table)
    else put_back result.conn_key table (
        dispatch_next run result.conn_key ctx.pending_handler_jobs
          (pool, record (take_result result ctx) { handler_in_flight = false }))

unfoldable pub apply_handler_result :
    Handler → HandlerResult → HandlerPool × Table → HandlerPool × Table
unfolding handler_result_is_stale handler_result_user_matches dispatch_handler_job lookup insert
apply_handler_result run result (pool, table) =
    apply_to run result table pool (lookup result.conn_key table)
