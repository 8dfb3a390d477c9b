-- ===== src/Server/Connection/Jobs/Answered.antt =====
-- The handler jobs of crates/qftp-server/src/server.rs: one at a time for a connection, in order.
use mathlib.Core.List.{append_assoc, append-nil}
use qftp.Prelude.{
  ℕ, ◌≤◌, ◌<◌, Bytes, true, false, some, List, [], ◌∷◌, ◌++◌, ◌==◌, nat_eq, list_eq, list_beq_iff,
  beq_refl, if◌then◌else◌, lookup, insert, lookup-insert, ◌≡◌, ◌⊎◌, inl, inr, refl, sym, ap, ◌∙◌,
  subst, arith, Bool-cases,
}
use qftp.Protocol.Messages.{Request}
use qftp.Server.Connection.{ConnectionContext}
use qftp.Server.Connection.Jobs.{
  Work, queued, HandlerPool, Handler, handle_handler_panic, run_handler_inline, run_backlog,
  dispatch_handler_job, Table,
}
use qftp.Server.Connection.Jobs.Steps.{
  Ticket, ticket, is_of, streams_of, tickets, ids, Loop, Accounted, ids-append, streams_of-append,
  tickets-append,
}

run_backlog-Answered :
    (run : Handler) (queue : List (ℕ × Request)) (ctx : ConnectionContext)
    → let after = run_backlog run queue ctx in
      (ids after.answered ≡ ids ctx.answered ++ ids queue)
      × (after.pending_handler_jobs ≡ [])
      × (after.handler_in_flight ≡ ctx.handler_in_flight)
      × (after.generation ≡ ctx.generation)
unfolding run_backlog run_handler_inline ids
run_backlog-Answered run [] ctx = (sym (append-nil (ids ctx.answered)), refl, refl, refl)
run_backlog-Answered run ((id, req) ∷ rest) ctx =
    let one = run_handler_inline run id req ctx.cwd ctx.user ctx in
    let (said, empty, flag, gen) = run_backlog-Answered run rest one in
    (
      said
          ∙ (ap (λ r. r ++ ids rest)
                (ids-append ctx.answered
                  ((id, (handle_handler_panic run req ctx.cwd ctx.user).0) ∷ []))
              ∙ append_assoc (ids ctx.answered) (id ∷ []) (ids rest)),
      empty,
      flag,
      gen,
    )

pub is_of_self : (k : Bytes) (g id : ℕ) → is_of k g (k, g, id) ≡ true
is_of_self k g id = rw (beq_refl k, beq_refl g) refl

pub streams_of_self : (k : Bytes) (g id : ℕ) → streams_of k g ((k, g, id) ∷ []) ≡ id ∷ []
unfolding streams_of
streams_of_self k g id = rw (is_of_self k g id) refl

streams_of-push :
    (k : Bytes) (g : ℕ) (work : List Work) (w : Work)
    → streams_of k g (tickets (work ++ w ∷ []))
      ≡ streams_of k g (tickets work) ++ streams_of k g (ticket w ∷ [])
unfolding tickets
streams_of-push k g work w =
    ap (streams_of k g) (tickets-append work (w ∷ []))
    ∙ streams_of-append k g (tickets work) (ticket w ∷ [])

pub streams_of-other :
    (k k' : Bytes) (g g' id : ℕ) → ¬ ((k' ≡ k) × (g' ≡ g)) → streams_of k' g' ((k, g, id) ∷ []) ≡ []
unfolding streams_of
streams_of-other k k' g g' id other = elim (Bool-cases (is_of k' g' (k, g, id))) [
  | inr apart ↦ rw apart refl
  | inl same ↦ absurd (other (ground (arith, same, list_beq_iff k' k)))
]

-- The connection with this key and this generation, and only it, is what the step is about.
abbrev pub Unmoved : Bytes → ℕ → List Ticket → List Ticket → Type 0
Unmoved k g old new =
    (k' : Bytes) (g' : ℕ) → ¬ ((k' ≡ k) × (g' ≡ g)) → streams_of k' g' new ≡ streams_of k' g' old

pub Unmoved-push :
    (k : Bytes) (g id : ℕ) (old : List Ticket) → Unmoved k g old (old ++ (k, g, id) ∷ [])
Unmoved-push k g id old k' g' other =
    streams_of-append k' g' old ((k, g, id) ∷ [])
    ∙ (ap (λ r. streams_of k' g' old ++ r) (streams_of-other k k' g g' id other)
        ∙ append-nil (streams_of k' g' old))

Unmoved-queue :
    (k : Bytes) (g id : ℕ) (work : List Work) (w : Work)
    → ticket w ≡ (k, g, id)
    → Unmoved k g (tickets work) (tickets (work ++ w ∷ []))
unfolding tickets
Unmoved-queue k g id work w same k' g' other =
    ap (streams_of k' g') (tickets-append work (w ∷ []) ∙ ap (λ t. tickets work ++ t ∷ []) same)
    ∙ Unmoved-push k g id (tickets work) k' g' other

-- What a request of the connection leaves, once it is with the handlers
abbrev pub Dispatched : Bytes → ℕ → List ℕ → List Work → HandlerPool × ConnectionContext → Type 0
Dispatched k g asked work r =
    (r.1.generation ≡ g)
    × Accounted asked (streams_of k g (tickets r.0.work)) r.1
    × Unmoved k g (tickets work) (tickets r.0.work)

pub dispatch_handler_job-Dispatched :
    (run : Handler) (k : Bytes) (id : ℕ) (req : Request) (pool : HandlerPool)
    (ctx : ConnectionContext) (asked : List ℕ)
    → streams_of k ctx.generation (tickets pool.work) ≡ []
    → asked ≡ ids ctx.answered ++ id ∷ ids ctx.pending_handler_jobs
    → Dispatched k ctx.generation asked pool.work (dispatch_handler_job run k id req (pool, ctx))
unfolding dispatch_handler_job run_handler_inline ids
dispatch_handler_job-Dispatched run k id req pool ctx asked idle owed =
    let g = ctx.generation in
    elim (Bool-cases pool.alive) [
      | inl alive ↦
          let w : Work = queued (record {
            conn_key = k;
            generation = g;
            stream_id = id;
            req = req;
            cwd = ctx.cwd;
            user = ctx.user;
          }) in
          rw alive (
            refl,
            inl (
              refl,
              (
                id,
                streams_of-push k g pool.work w
                    ∙ (ap (λ r. r ++ streams_of k g ((k, g, id) ∷ [])) idle
                        ∙ streams_of_self k g id),
                owed,
              ),
            ),
            Unmoved-queue k g id pool.work w refl,
          )
      | inr dead ↦
          let first = record (run_handler_inline run id req ctx.cwd ctx.user ctx) {
            handler_in_flight = false;
          } in
          let (said, empty, flag, gen) = run_backlog-Answered run ctx.pending_handler_jobs first in
          rw dead (
            gen,
            inr (
              flag,
              idle,
              empty,
              owed
                  ∙ (sym (append_assoc (ids ctx.answered) (id ∷ []) (ids ctx.pending_handler_jobs))
                      ∙ (ap (λ r. r ++ ids ctx.pending_handler_jobs)
                            (sym (
                              ids-append ctx.answered
                                ((id, (handle_handler_panic run req ctx.cwd ctx.user).0) ∷ [])))
                          ∙ sym said)),
            ),
            λ k' g' other. refl,
          )
    ]

-- What holds of the event loop: nothing is known of a connection that has not been accepted yet, and
-- every connection is accounted for.
pub record IsSound (s : Loop) : Type 0 where
  pub fresh :
      (k : Bytes) (g : ℕ)
      → s.next_generation ≤ g
      → (streams_of k g s.asked ≡ []) × (streams_of k g (tickets s.pool.work) ≡ [])
  pub accounts :
      (k : Bytes) (ctx : ConnectionContext)
      → lookup k s.table ≡ some ctx
      → (ctx.generation < s.next_generation)
        × Accounted
            (streams_of k ctx.generation s.asked)
            (streams_of k ctx.generation (tickets s.pool.work))
            ctx

-- A step that is about one connection
pub update-IsSound :
    (k : Bytes) (g : ℕ) (s t : Loop)
    → IsSound s
    → g < s.next_generation
    → t.next_generation ≡ s.next_generation
    → Unmoved k g s.asked t.asked
    → Unmoved k g (tickets s.pool.work) (tickets t.pool.work)
    → ((k' : Bytes) (ctx : ConnectionContext)
        → lookup k' t.table ≡ some ctx
        → (k' ≡ k)
            × (ctx.generation ≡ g)
            × Accounted (streams_of k g t.asked) (streams_of k g (tickets t.pool.work)) ctx
          ⊎ (lookup k' s.table ≡ some ctx) × ¬ ((k' ≡ k) × (ctx.generation ≡ g)))
    → IsSound t
update-IsSound k g s t h old next asked work table = record {
  fresh = λ k' g' late.
      let other : ¬ ((k' ≡ k) × (g' ≡ g)) = λ (e, f). omega (arith, f, old, next, late) in
      let (a, b) = h.fresh k' g' (omega (arith, next, late)) in
      (asked k' g' other ∙ a, work k' g' other ∙ b);
  accounts = λ k' ctx held. elim (table k' ctx held) [
    | inl (e, f, account) ↦ (
      omega (arith, f, old, next),
      subst
          (λ k''.
            Accounted (streams_of k'' ctx.generation t.asked)
              (streams_of k'' ctx.generation (tickets t.pool.work)) ctx)
          (sym e)
          (subst
            (λ g''.
              Accounted (streams_of k g'' t.asked) (streams_of k g'' (tickets t.pool.work)) ctx)
            (sym f) account),
    )
    | inr (there, other) ↦
        let (low, account) = h.accounts k' ctx there in
        (
          omega (arith, low, next),
          subst (λ a. Accounted a (streams_of k' ctx.generation (tickets t.pool.work)) ctx)
              (sym (asked k' ctx.generation other))
              (subst (λ f. Accounted (streams_of k' ctx.generation s.asked) f ctx)
                (sym (work k' ctx.generation other)) account),
        )
  ];
}

-- The table after a step that has put back the connection
pub insert-Moved :
    (k : Bytes) (g : ℕ) (table : Table) (new : ConnectionContext)
    (Good : ConnectionContext → Type 0)
    → ((ctx : ConnectionContext) → lookup k table ≡ some ctx → ctx.generation ≡ g)
    → new.generation ≡ g
    → Good new
    → (k' : Bytes) (ctx : ConnectionContext) → lookup k' (insert k new table) ≡ some ctx
    → (k' ≡ k) × (ctx.generation ≡ g) × Good ctx
      ⊎ (lookup k' table ≡ some ctx) × ¬ ((k' ≡ k) × (ctx.generation ≡ g))
insert-Moved k g table new Good only same good k' ctx held = elim (Bool-cases (k == k')) [
  | inl e ↦
      let new_ctx : new ≡ ctx = ground (arith, held, lookup-insert k k' new table, e) in
      inl (
        sym ((list_beq_iff k k').0 e),
        subst (λ c. c.generation ≡ g) new_ctx same,
        subst Good new_ctx good,
      )
  | inr e ↦ inr (
    sym (ap (λ b. if b then some new else lookup k' table) e)
        ∙ (sym (lookup-insert k k' new table) ∙ held),
    (λ (f, _). ground (arith, e, list_beq_iff k k', f)),
  )
]
