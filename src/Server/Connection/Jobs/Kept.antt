-- ===== src/Server/Connection/Jobs/Kept.antt =====
-- The steps of the event loop of crates/qftp-server/src/server.rs keep its connections accounted for.
use mathlib.Core.List.{append_assoc, append-nil}
use qftp.Prelude.{
  ℕ, ◌<◌, Bytes, false, some, List, [], ◌∷◌, ◌++◌, ◌==◌, nat_eq, list_eq, lookup, insert, length,
  length-append, ◌≡◌, ◌≢◌, inl, inr, refl, sym, ap, ◌∙◌, subst, arith, Bool-cases, Option-cases,
  leb,
}
use qftp.Protocol.Messages.{Request}
use qftp.Server.Gate.{requires_1rtt}
use qftp.Server.Connection.{ConnectionContext}
use qftp.Server.Connection.Jobs.{
  HandlerResult, Work, finished, HandlerPool, Handler, handler_result_is_stale,
  handler_result_user_matches, handle_simple, dispatch_next, take_result, Table,
  apply_handler_result,
}
use qftp.Server.Connection.Jobs.Steps.{
  ticket, streams_of, tickets, ids, Loop, ask, apply, Accounted, ids-append, streams_of-append,
  tickets-append,
}
use qftp.Server.Connection.Jobs.Answered.{
  Unmoved, Unmoved-push, Dispatched, dispatch_handler_job-Dispatched, IsSound, update-IsSound,
  insert-Moved, streams_of_self, streams_of-other,
}

handle_simple-Dispatched :
    (run : Handler) (k : Bytes) (id : ℕ) (req : Request) (pool : HandlerPool)
    (ctx : ConnectionContext) (asked : List ℕ)
    → Accounted asked (streams_of k ctx.generation (tickets pool.work)) ctx
    → Dispatched k ctx.generation
        (asked ++ id ∷ [])
        pool.work
        (handle_simple run k id req (pool, ctx))
unfolding handle_simple ids
handle_simple-Dispatched run k id req pool ctx asked (inl (busy, (first, flying, owed))) = rw busy (
  refl,
  inl (
    refl,
    (
      first,
      flying,
      ap (λ r. r ++ id ∷ []) owed
          ∙ (append_assoc (ids ctx.answered) (first ∷ ids ctx.pending_handler_jobs) (id ∷ [])
              ∙ ap (λ r. ids ctx.answered ++ first ∷ r)
                  (sym (ids-append ctx.pending_handler_jobs ((id, req) ∷ [])))),
    ),
  ),
  λ k' g' other. refl,
)
handle_simple-Dispatched run k id req pool ctx asked (inr (idle, flying, empty, owed)) = rw idle (
    dispatch_handler_job-Dispatched run k id req pool ctx (asked ++ id ∷ []) flying (
      ap (λ r. r ++ id ∷ []) owed
      ∙ ap (λ (q : List (ℕ × Request)). ids ctx.answered ++ id ∷ ids q) (sym empty)))

pub same_generation :
    (k : Bytes) (table : Table) (ctx : ConnectionContext)
    → lookup k table ≡ some ctx
    → (other : ConnectionContext) → lookup k table ≡ some other
    → other.generation ≡ ctx.generation
same_generation k table ctx held other held' =
    let same : other ≡ ctx = ground (arith, held, held') in
    ap (λ (c : ConnectionContext). c.generation) same

pub ask-IsSound :
    (run : Handler) (k : Bytes) (id : ℕ) (req : Request) (ctx : ConnectionContext) (s : Loop)
    → lookup k s.table ≡ some ctx
    → IsSound s
    → IsSound (ask run k id req ctx s)
ask-IsSound run k id req ctx s held h =
    let g = ctx.generation in
    let (low, account) = h.accounts k ctx held in
    let r = handle_simple run k id req (s.pool, ctx) in
    let (same, now, rest) = handle_simple-Dispatched run k id req s.pool ctx _ account in
    update-IsSound k g s (ask run k id req ctx s) h low refl (Unmoved-push k g id s.asked) rest (
      insert-Moved k g s.table r.1
        (Accounted (streams_of k g (s.asked ++ (k, g, id) ∷ []))
          (streams_of k g (tickets r.0.work)))
        (same_generation k s.table ctx held) same
        (subst (λ a. Accounted a (streams_of k g (tickets r.0.work)) r.1)
          (sym (
            streams_of-append k g s.asked ((k, g, id) ∷ [])
            ∙ ap (λ l. streams_of k g s.asked ++ l) (streams_of_self k g id)))
          now))

-- What is in the pool at a place of it
pub streams_of-mid :
    (k : Bytes) (g : ℕ) (before after : List Work) (w : Work)
    → streams_of k g (tickets (before ++ w ∷ after))
      ≡ streams_of k g (tickets before)
        ++ (streams_of k g (ticket w ∷ []) ++ streams_of k g (tickets after))
unfolding tickets
streams_of-mid k g before after w =
    ap (streams_of k g) (tickets-append before (w ∷ after))
    ∙ (streams_of-append k g (tickets before) (ticket w ∷ tickets after)
        ∙ ap (λ l. streams_of k g (tickets before) ++ l)
            (streams_of-append k g (ticket w ∷ []) (tickets after)))

streams_of-left :
    (k : Bytes) (g : ℕ) (before after : List Work)
    → streams_of k g (tickets (before ++ after))
      ≡ streams_of k g (tickets before) ++ streams_of k g (tickets after)
streams_of-left k g before after =
    ap (streams_of k g) (tickets-append before after)
    ∙ streams_of-append k g (tickets before) (tickets after)

single :
    (xs ys : List ℕ) (id first : ℕ)
    → xs ++ (id ∷ ys) ≡ first ∷ []
    → (xs ≡ []) × (ys ≡ []) × (id ≡ first)
single [] ys id first h = (refl, ground (arith, h), ground (arith, h))
single (x ∷ xs) ys id first h =
    absurd (omega (arith, ap (λ (l : List ℕ). length l) h, length-append xs (id ∷ ys)))

not_nil : (xs ys : List ℕ) (id : ℕ) → xs ++ (id ∷ ys) ≢ []
not_nil [] ys id h = ground (arith, h)
not_nil (x ∷ xs) ys id h = ground (arith, h)

module _ (k : Bytes) (g id : ℕ) (before after : List Work) (w : Work)
    (its : ticket w ≡ (k, g, id)) where
  streams_of-here :
      streams_of k g (tickets (before ++ w ∷ after))
      ≡ streams_of k g (tickets before) ++ id ∷ streams_of k g (tickets after)
  streams_of-here =
      streams_of-mid k g before after w
      ∙ ap (λ l. streams_of k g (tickets before) ++ (l ++ streams_of k g (tickets after)))
          (ap (λ t. streams_of k g (t ∷ [])) its ∙ streams_of_self k g id)

  Unmoved-taken : Unmoved k g (tickets (before ++ w ∷ after)) (tickets (before ++ after))
  Unmoved-taken k' g' other =
      streams_of-left k' g' before after
      ∙ sym (
          streams_of-mid k' g' before after w
          ∙ ap (λ l. streams_of k' g' (tickets before) ++ (l ++ streams_of k' g' (tickets after)))
              (ap (λ t. streams_of k' g' (t ∷ [])) its ∙ streams_of-other k k' g g' id other))

  old_generation :
      (s : Loop) → s.pool.work ≡ before ++ w ∷ after → IsSound s → g < s.next_generation
  old_generation s same h = elim (Bool-cases (leb s.next_generation g)) [
    | inr old ↦ ground (arith, old)
    | inl late ↦ absurd (
        not_nil (streams_of k g (tickets before)) (streams_of k g (tickets after)) id (
          sym streams_of-here
          ∙ (ap (λ l. streams_of k g (tickets l)) (sym same)
              ∙ (h.fresh k g (ground (arith, late))).1)))
  ]

-- The result goes out, and the next request of the queue is with the handlers.
take_result-Answered :
    (result : HandlerResult) (ctx : ConnectionContext)
    → let after = take_result result ctx in
      (ids after.answered ≡ ids ctx.answered ++ result.stream_id ∷ [])
      × (after.pending_handler_jobs ≡ ctx.pending_handler_jobs)
      × (after.generation ≡ ctx.generation)
unfolding ids
take_result-Answered result ctx =
    elim (Bool-cases (handler_result_user_matches ctx.user result.user)) [
      | inl same ↦
          rw same (ids-append ctx.answered ((result.stream_id, result.response) ∷ []), refl, refl)
      | inr other ↦
          rw other (ids-append ctx.answered ((result.stream_id, requires_1rtt) ∷ []), refl, refl)
    ]

dispatch_next-Dispatched :
    (run : Handler) (k : Bytes) (queue : List (ℕ × Request)) (pool : HandlerPool)
    (ctx : ConnectionContext) (asked : List ℕ)
    → streams_of k ctx.generation (tickets pool.work) ≡ []
    → asked ≡ ids ctx.answered ++ ids queue
    → ctx.handler_in_flight ≡ false
    → ctx.pending_handler_jobs ≡ queue
    → Dispatched k ctx.generation asked pool.work (dispatch_next run k queue (pool, ctx))
unfolding ids
dispatch_next-Dispatched run k [] pool ctx asked idle owed flag empty =
    (refl, inr (flag, idle, empty, owed ∙ append-nil (ids ctx.answered)), λ k' g' other. refl)
dispatch_next-Dispatched run k ((id, req) ∷ rest) pool ctx asked idle owed flag queue =
    dispatch_handler_job-Dispatched run k id req pool (record ctx { pending_handler_jobs = rest })
      asked idle owed

module _ (run : Handler) (before after : List Work) (result : HandlerResult) (s : Loop)
    (h : IsSound s) (there : s.pool.work ≡ before ++ finished result ∷ after) where
  abbrev Left : HandlerPool
  Left = record s.pool { work = before ++ after }

  low : result.generation < s.next_generation
  low =
      old_generation result.conn_key result.generation result.stream_id before after
        (finished result) refl s there h

  moved :
      Unmoved result.conn_key result.generation (tickets s.pool.work) (tickets (before ++ after))
  moved k' g' other =
      Unmoved-taken result.conn_key result.generation result.stream_id before after
        (finished result) refl k' g' other
      ∙ ap (λ l. streams_of k' g' (tickets l)) (sym there)

  -- The result of a connection that is gone
  dropped-IsSound :
      ((ctx : ConnectionContext)
        → lookup result.conn_key s.table ≡ some ctx
        → ctx.generation ≢ result.generation)
      → IsSound (record s { pool = Left; table = s.table })
  dropped-IsSound gone =
      update-IsSound result.conn_key result.generation s (record s { pool = Left; table = s.table })
        h low refl (λ k' g' other. refl) moved
        (λ k' ctx held.
          inr (held, λ (e, f). gone ctx (subst (λ k''. lookup k'' s.table ≡ some ctx) e held) f))

  abbrev Taken : ConnectionContext → HandlerPool × ConnectionContext
  Taken ctx =
      dispatch_next run result.conn_key ctx.pending_handler_jobs
        (Left, record (take_result result ctx) { handler_in_flight = false })

  abbrev asked_before : List ℕ
  asked_before = streams_of result.conn_key result.generation s.asked

  taken-Dispatched :
      (ctx : ConnectionContext)
      → ctx.generation ≡ result.generation
      → Accounted asked_before
          (streams_of result.conn_key result.generation (tickets s.pool.work))
          ctx
      → Dispatched result.conn_key result.generation asked_before (before ++ after) (Taken ctx)
  taken-Dispatched ctx same (inr (flag, flying, empty, owed)) = absurd (
      not_nil (streams_of result.conn_key result.generation (tickets before))
        (streams_of result.conn_key result.generation (tickets after)) result.stream_id
        (sym (
            streams_of-here result.conn_key result.generation result.stream_id before after
              (finished result) refl)
          ∙ (ap (λ l. streams_of result.conn_key result.generation (tickets l)) (sym there)
              ∙ flying)))
  taken-Dispatched ctx same (inl (flag, (first, flying, owed))) =
      let (said, queue, gen) = take_result-Answered result ctx in
      let (no_before, no_after, it) =
        single (streams_of result.conn_key result.generation (tickets before))
          (streams_of result.conn_key result.generation (tickets after)) result.stream_id first
          (sym (
              streams_of-here result.conn_key result.generation result.stream_id before after
                (finished result) refl)
            ∙ (ap (λ l. streams_of result.conn_key result.generation (tickets l)) (sym there)
                ∙ flying)) in
      subst (λ g. Dispatched result.conn_key g asked_before (before ++ after) (Taken ctx))
        (gen ∙ same)
        (dispatch_next-Dispatched run result.conn_key ctx.pending_handler_jobs Left
          (record (take_result result ctx) { handler_in_flight = false }) asked_before
          (ap (λ g. streams_of result.conn_key g (tickets (before ++ after))) (gen ∙ same)
            ∙ (streams_of-left result.conn_key result.generation before after
                ∙ rw (no_before, no_after) refl))
          (owed
            ∙ (ap (λ i. ids ctx.answered ++ i ∷ ids ctx.pending_handler_jobs) (sym it)
                ∙ (sym (
                      append_assoc (ids ctx.answered) (result.stream_id ∷ [])
                        (ids ctx.pending_handler_jobs))
                    ∙ ap (λ l. l ++ ids ctx.pending_handler_jobs) (sym said))))
          refl queue)

  taken-IsSound :
      (ctx : ConnectionContext)
      → lookup result.conn_key s.table ≡ some ctx
      → ctx.generation ≡ result.generation
      → IsSound
          (record s { pool = (Taken ctx).0; table = insert result.conn_key (Taken ctx).1 s.table })
  taken-IsSound ctx held same =
      let (here, now, rest) = taken-Dispatched ctx same (
        subst
          (λ g.
            Accounted (streams_of result.conn_key g s.asked)
              (streams_of result.conn_key g (tickets s.pool.work)) ctx)
          same (h.accounts result.conn_key ctx held).1) in
      update-IsSound result.conn_key result.generation s
        (record s { pool = (Taken ctx).0; table = insert result.conn_key (Taken ctx).1 s.table }) h
        low refl (λ k' g' other. refl) (λ k' g' other. rest k' g' other ∙ moved k' g' other)
        (insert-Moved result.conn_key result.generation s.table (Taken ctx).1
          (Accounted asked_before
            (streams_of result.conn_key result.generation (tickets (Taken ctx).0.work)))
          (λ other held'. same_generation result.conn_key s.table ctx held other held' ∙ same) here
          now)

  pub apply-IsSound : IsSound (apply run result (before ++ after) s)
  unfolding apply_handler_result handler_result_is_stale
  apply-IsSound = elim (Option-cases (lookup result.conn_key s.table)) [
    | inl gone ↦ rw gone (dropped-IsSound (λ ctx held. ground (arith, gone, held)))
    | inr (ctx, held) ↦ elim (Bool-cases (ctx.generation == result.generation)) [
      | inr stale ↦
          rw (held, stale)
            (dropped-IsSound (λ other held' same.
              ground
                (arith, stale, same_generation result.conn_key s.table ctx held other held', same)))
      | inl live ↦ rw (held, live) (taken-IsSound ctx held (ground (arith, live)))
    ]
  ]
