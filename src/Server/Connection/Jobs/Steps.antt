-- ===== src/Server/Connection/Jobs/Steps.antt =====
-- The event loop of crates/qftp-server/src/server.rs over its connections and its handler threads, as
-- a step relation.
use qftp.Prelude.{
  ℕ, ◌+◌, ◌<◌, ◌^◌, ◌%◌, Bytes, Bool, true, false, ◌&&◌, Option, none, some, List, [], ◌∷◌, ◌++◌,
  ◌==◌, nat_eq, list_eq, if◌then◌else◌, lookup, insert, remove, ◌≡◌, ◌⊎◌, inl, inr, refl, ap,
  Bool-cases,
}
use qftp.Protocol.Messages.{Request}
use qftp.Paths.{FilePath}
use qftp.Users.{UserDirectory, anonymous_user}
use qftp.Users.Identity.{Certificate}
use qftp.Server.Connection.{ConnectionContext, new_connection, upgrade_user_from_cert}
use qftp.Server.Connection.Jobs.{
  HandlerJob, HandlerResult, Work, queued, finished, HandlerPool, Handler, handler_worker,
  handle_simple, Table, apply_handler_result,
}

-- A request: the key and the generation of its connection, and its stream
abbrev pub Ticket : Type 0
Ticket = Bytes × ℕ × ℕ

abbrev pub ticket : Work → Ticket
ticket (queued job) = (job.conn_key, job.generation, job.stream_id)
ticket (finished result) = (result.conn_key, result.generation, result.stream_id)

abbrev pub is_of : Bytes → ℕ → Ticket → Bool
is_of k g t = k == t.0 && g == t.1

-- The streams among these of the connection with this key and this generation
unfoldable pub streams_of : Bytes → ℕ → List Ticket → List ℕ
streams_of k g [] = []
streams_of k g (t ∷ ts) = let rest = streams_of k g ts in if is_of k g t then t.2 ∷ rest else rest

unfoldable pub tickets : List Work → List Ticket
tickets [] = []
tickets (w ∷ ws) = ticket w ∷ tickets ws

unfoldable pub ids {ℓ} : {A : Type ℓ} → List (ℕ × A) → List ℕ
ids [] = []
ids ((n, a) ∷ rest) = n ∷ ids rest

-- The event loop, and the requests that its connections have made of the handlers
pub record Loop : Type 0 where
  pub pool : HandlerPool
  pub table : Table
  pub next_generation : ℕ
  pub asked : List Ticket

-- `accept_connection`, from its look for the key on
unfoldable pub accept_connection : Bytes → (home : FilePath) → Loop → Loop
unfolding lookup insert new_connection
accept_connection scid home s = elim (lookup scid s.table) [
  | some there ↦ s
  | none ↦ record s {
    next_generation = (s.next_generation + 1) % 2 ^ 64;
    table = insert scid (new_connection anonymous_user home s.next_generation) s.table;
  }
]

abbrev pub ask : Handler → Bytes → ℕ → Request → ConnectionContext → Loop → Loop
ask run scid stream_id req ctx s =
    let r = handle_simple run scid stream_id req (s.pool, ctx) in
    record s {
      pool = r.0;
      table = insert scid r.1 s.table;
      asked = s.asked ++ (scid, ctx.generation, stream_id) ∷ [];
    }

abbrev pub apply : Handler → HandlerResult → List Work → Loop → Loop
apply run result left s =
    let r = apply_handler_result run result (record s.pool { work = left }, s.table) in
    record s { pool = r.0; table = r.1 }

abbrev pub authenticate :
    UserDirectory → Bool → Option (Option Certificate) → Bytes → ConnectionContext → Loop → Loop
authenticate users mtls_required cert scid ctx s = record s {
  table =
      insert scid
        (upgrade_user_from_cert users mtls_required
          (record ctx { established = true; peer_cert = cert })).1
        s.table;
}

-- A step. The threads take and finish the jobs in any order, and the loop takes the results in any
-- order, which the queues of the code allow and more. A connection is accepted while fewer than 2^64
-- have been: after that a generation is used again.
pub data Next : Loop → Loop → Type 0 where
  asks :
      (run : Handler) (scid : Bytes) (stream_id : ℕ) (req : Request) (ctx : ConnectionContext)
      (s : Loop)
      → lookup scid s.table ≡ some ctx
      → Next s (ask run scid stream_id req ctx s)
  works :
      (run : Handler) (before after : List Work) (job : HandlerJob) (s : Loop)
      → s.pool.work ≡ before ++ queued job ∷ after
      → Next s (record s {
        pool = record s.pool { work = before ++ finished (handler_worker run job) ∷ after };
      })
  applies :
      (run : Handler) (before after : List Work) (result : HandlerResult) (s : Loop)
      → s.pool.work ≡ before ++ finished result ∷ after
      → Next s (apply run result (before ++ after) s)
  accepts :
      (scid : Bytes) (home : FilePath) (s : Loop)
      → s.next_generation + 1 < 2 ^ 64
      → Next s (accept_connection scid home s)
  authenticates :
      (users : UserDirectory) (mtls_required : Bool) (cert : Option (Option Certificate))
      (scid : Bytes) (ctx : ConnectionContext) (s : Loop)
      → lookup scid s.table ≡ some ctx
      → Next s (authenticate users mtls_required cert scid ctx s)
  reaps : (scid : Bytes) (s : Loop) → Next s (record s { table = remove scid s.table })
  dies : (s : Loop) → Next s (record s { pool = record s.pool { alive = false } })

abbrev pub start : Loop
start = record {
  pool = record { work = []; alive = true };
  table = [];
  next_generation = 0;
  asked = [];
}

pub data Reach : Loop → Type 0 where
  begins : Reach start
  steps : {s t : Loop} → Reach s → Next s t → Reach t

-- One job is with the handlers, and everything asked before it is answered; or none is, and
-- everything is answered.
abbrev pub Accounted : List ℕ → List ℕ → ConnectionContext → Type 0
Accounted asked flying ctx =
    (ctx.handler_in_flight ≡ true)
      × ((id : ℕ) × (flying ≡ id ∷ [])
          × (asked ≡ ids ctx.answered ++ id ∷ ids ctx.pending_handler_jobs))
    ⊎ (ctx.handler_in_flight ≡ false)
      × (flying ≡ [])
      × (ctx.pending_handler_jobs ≡ [])
      × (asked ≡ ids ctx.answered)

pub ids-append {ℓ} : {A : Type ℓ} (xs ys : List (ℕ × A)) → ids (xs ++ ys) ≡ ids xs ++ ids ys
unfolding ids
ids-append [] ys = refl
ids-append ((n, a) ∷ xs) ys = ap (λ r. n ∷ r) (ids-append xs ys)

pub streams_of-append :
    (k : Bytes) (g : ℕ) (xs ys : List Ticket)
    → streams_of k g (xs ++ ys) ≡ streams_of k g xs ++ streams_of k g ys
unfolding streams_of
streams_of-append k g [] ys = refl
streams_of-append k g (t ∷ xs) ys = elim (Bool-cases (is_of k g t)) [
  | inl same ↦ rw same (ap (λ r. t.2 ∷ r) (streams_of-append k g xs ys))
  | inr other ↦ rw other (streams_of-append k g xs ys)
]

pub tickets-append : (xs ys : List Work) → tickets (xs ++ ys) ≡ tickets xs ++ tickets ys
unfolding tickets
tickets-append [] ys = refl
tickets-append (w ∷ xs) ys = ap (λ r. ticket w ∷ r) (tickets-append xs ys)
