-- ===== src/Server/Connection/Jobs/Reached.antt =====
-- What is so of every state that the event loop of crates/qftp-server/src/server.rs reaches.
use qftp.Prelude.{
  ℕ, ◌+◌, ◌<◌, ◌^◌, ◌%◌, Bytes, Bool, true, false, not, Option, none, some, List, ◌∷◌, ◌++◌, ◌==◌,
  nat_eq, list_eq, if◌then◌else◌, lookup, insert, lookup-insert, lookup-remove, ◌≡◌, inl, inr, refl,
  sym, ap, ◌∙◌, subst, arith, Bool-cases, Option-cases,
}
use qftp.Paths.{FilePath}
use qftp.Users.{UserDirectory, anonymous_user, ptr_eq}
use qftp.Users.Identity.{
  Certificate, extract_identity_candidates, IdentityResolution, matched, no_match, ambiguous,
  resolve_identity,
}
use qftp.Server.Connection.{
  ConnectionContext, new_connection, upgrade_user_from_cert, close, apply_identity, identify,
}
use qftp.Server.Connection.Jobs.{HandlerJob, Work, queued, finished, Handler, handler_worker}
use qftp.Server.Connection.Jobs.Steps.{
  streams_of, tickets, ids, Loop, accept_connection, authenticate, Next, asks, works, applies,
  accepts, authenticates, reaps, dies, start, Reach, begins, steps, Accounted, tickets-append,
}
use qftp.Server.Connection.Jobs.Answered.{IsSound, update-IsSound, insert-Moved}
use qftp.Server.Connection.Jobs.Kept.{ask-IsSound, apply-IsSound, same_generation}

start-IsSound : IsSound start
unfolding lookup streams_of tickets
start-IsSound = record {
  fresh = λ k g late. (refl, refl);
  accounts = λ k ctx held. ground (arith, held);
}

-- What the handlers have to do with a connection
abbrev SameJobs : ConnectionContext → ConnectionContext → Type 0
SameJobs old new =
    (new.generation ≡ old.generation)
    × (new.handler_in_flight ≡ old.handler_in_flight)
    × (new.pending_handler_jobs ≡ old.pending_handler_jobs)
    × (new.answered ≡ old.answered)

close-SameJobs :
    (code : ℕ) (reason : Bytes) (ctx : ConnectionContext) → SameJobs ctx (close code reason ctx)
close-SameJobs code reason ctx = elim (Option-cases ctx.closed) [
  | inl open_yet ↦ rw open_yet (refl, refl, refl, refl)
  | inr (c, before) ↦ rw before (refl, refl, refl, refl)
]

identify-SameJobs :
    (users : UserDirectory) (mtls : Bool) (cert : Option (Option Certificate))
    (ctx : ConnectionContext)
    → SameJobs ctx (identify users mtls cert ctx).1
identify-SameJobs users true none ctx = close-SameJobs _ _ ctx
identify-SameJobs users false none ctx = (refl, refl, refl, refl)
identify-SameJobs users mtls (some der) ctx =
    resolved (resolve_identity (extract_identity_candidates der) users)
  where
    resolved : (r : IdentityResolution) → SameJobs ctx (apply_identity users r ctx).1
    resolved (matched id user) = (refl, refl, refl, refl)
    resolved no_match = close-SameJobs _ _ ctx
    resolved (ambiguous names) = close-SameJobs _ _ ctx

checked-SameJobs :
    (users : UserDirectory) (mtls anonymous established : Bool) (ctx : ConnectionContext)
    → SameJobs ctx
        (if not anonymous
          then (true, ctx)
          else if not established
          then (true, ctx)
          else identify users mtls ctx.peer_cert ctx).1
checked-SameJobs users mtls false established ctx = (refl, refl, refl, refl)
checked-SameJobs users mtls true false ctx = (refl, refl, refl, refl)
checked-SameJobs users mtls true true ctx = identify-SameJobs users mtls ctx.peer_cert ctx

upgrade_user_from_cert-SameJobs :
    (users : UserDirectory) (mtls : Bool) (ctx : ConnectionContext)
    → SameJobs ctx (upgrade_user_from_cert users mtls ctx).1
unfolding upgrade_user_from_cert
upgrade_user_from_cert-SameJobs users mtls ctx =
    checked-SameJobs users mtls (ptr_eq ctx.user anonymous_user) ctx.established ctx

Accounted-SameJobs :
    (asked flying : List ℕ) (old new : ConnectionContext)
    → SameJobs old new
    → Accounted asked flying old
    → Accounted asked flying new
Accounted-SameJobs asked flying old new (gen, flag, queue, said) (inl (busy, (id, one, owed))) =
    inl (flag ∙ busy, (id, one, rw (queue, said) owed))
Accounted-SameJobs asked flying old new (gen, flag, queue, said)
      (inr (idle, none_flying, empty, owed)) =
    inr (flag ∙ idle, none_flying, queue ∙ empty, rw said owed)

authenticate-IsSound :
    (users : UserDirectory) (mtls : Bool) (cert : Option (Option Certificate)) (k : Bytes)
    (ctx : ConnectionContext) (s : Loop)
    → lookup k s.table ≡ some ctx
    → IsSound s
    → IsSound (authenticate users mtls cert k ctx s)
authenticate-IsSound users mtls cert k ctx s held h =
    let g = ctx.generation in
    let shaken = record ctx { established = true; peer_cert = cert } in
    let new = (upgrade_user_from_cert users mtls shaken).1 in
    let same : SameJobs shaken new = upgrade_user_from_cert-SameJobs users mtls shaken in
    let (low, account) = h.accounts k ctx held in
    update-IsSound k g s (authenticate users mtls cert k ctx s) h low refl (λ k' g' other. refl)
      (λ k' g' other. refl)
      (insert-Moved k g s.table new
        (Accounted (streams_of k g s.asked) (streams_of k g (tickets s.pool.work)))
        (same_generation k s.table ctx held) same.0
        (Accounted-SameJobs _ _ shaken new same account))

-- The connection that is new has asked nothing.
accepted-IsSound :
    (k : Bytes) (home : FilePath) (s : Loop)
    → IsSound s
    → IsSound (record s {
      next_generation = s.next_generation + 1;
      table = insert k (new_connection anonymous_user home s.next_generation) s.table;
    })
unfolding new_connection ids
accepted-IsSound k home s h =
    let n = s.next_generation in
    let new = new_connection anonymous_user home n in
    record {
      fresh = λ k' g late. h.fresh k' g (omega (arith, late));
      accounts = λ k' ctx held. elim (Bool-cases (k == k')) [
        | inl e ↦
            let new_ctx : new ≡ ctx = ground (arith, held, lookup-insert k k' new s.table, e) in
            let (asked, flying) = h.fresh k' n (omega arith) in
            subst
              (λ (c : ConnectionContext).
                (c.generation < n + 1)
                × Accounted (streams_of k' c.generation s.asked)
                    (streams_of k' c.generation (tickets s.pool.work)) c)
              new_ctx (omega arith, inr (refl, flying, refl, asked))
        | inr e ↦
            let (low, account) = h.accounts k' ctx (
              sym (ap (λ b. if b then some new else lookup k' s.table) e)
              ∙ (sym (lookup-insert k k' new s.table) ∙ held)) in
            (omega (arith, low), account)
      ];
    }

accept_connection-IsSound :
    (k : Bytes) (home : FilePath) (s : Loop)
    → s.next_generation + 1 < 2 ^ 64
    → IsSound s
    → IsSound (accept_connection k home s)
unfolding accept_connection
accept_connection-IsSound k home s small h = elim (Option-cases (lookup k s.table)) [
  | inr (ctx, there) ↦ rw (there, accept_connection) h
  | inl new ↦
      let whole : (s.next_generation + 1) % 2 ^ 64 ≡ s.next_generation + 1 = omega (arith, small) in
      rw (new, whole, accept_connection) (accepted-IsSound k home s h)
]

worked :
    (run : Handler) (before after : List Work) (job : HandlerJob)
    → tickets (before ++ finished (handler_worker run job) ∷ after)
      ≡ tickets (before ++ queued job ∷ after)
unfolding tickets handler_worker
worked run before after job =
    tickets-append before (finished (handler_worker run job) ∷ after)
    ∙ sym (tickets-append before (queued job ∷ after))

Next-IsSound : {s t : Loop} → Next s t → IsSound s → IsSound t
Next-IsSound (asks run k id req ctx s held) h = ask-IsSound run k id req ctx s held h
Next-IsSound (works run before after job s there) h =
    let same : tickets (before ++ finished (handler_worker run job) ∷ after) ≡ tickets s.pool.work =
      worked run before after job ∙ ap tickets (sym there) in
    record {
      fresh = λ k g late. rw same (h.fresh k g late);
      accounts = λ k ctx held. rw same (h.accounts k ctx held);
    }
Next-IsSound (applies run before after result s there) h =
    apply-IsSound run before after result s h there
Next-IsSound (accepts k home s small) h = accept_connection-IsSound k home s small h
Next-IsSound (authenticates users mtls cert k ctx s held) h =
    authenticate-IsSound users mtls cert k ctx s held h
Next-IsSound (reaps k s) h = record {
  fresh = h.fresh;
  accounts = λ k' ctx held. elim (Bool-cases (k == k')) [
    | inl e ↦ ground (arith, held, lookup-remove k k' s.table, e)
    | inr e ↦ h.accounts k' ctx (
        sym (ap (λ b. if b then none else lookup k' s.table) e)
        ∙ (sym (lookup-remove k k' s.table) ∙ held))
  ];
}
Next-IsSound (dies s) h = record { fresh = h.fresh; accounts = h.accounts }

Reach-IsSound : {s : Loop} → Reach s → IsSound s
Reach-IsSound begins = start-IsSound
Reach-IsSound (steps before next) = Next-IsSound next (Reach-IsSound before)

-- However the requests, the handler threads, their results, the handshakes, the end of connections
-- and the acceptance of new ones under the same key interleave, with the pool alive or not, and with
-- handlers that panic: exactly one response to each of the requests that a connection in the table
-- has made of the handlers has been handed to `send_message` (whose failure is only logged), in the
-- order of the requests, except for one that is with the handlers, of which there is at most one, and
-- for those that wait behind it; none waits where none is with the handlers. This is so while fewer
-- than 2^64 connections have been accepted.
pub Reach-Accounted :
    {s : Loop} (k : Bytes) (ctx : ConnectionContext)
    → Reach s
    → lookup k s.table ≡ some ctx
    → Accounted
        (streams_of k ctx.generation s.asked)
        (streams_of k ctx.generation (tickets s.pool.work))
        ctx
Reach-Accounted k ctx reached held = ((Reach-IsSound reached).accounts k ctx held).1
