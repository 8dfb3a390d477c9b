-- ===== src/Server/Connection/Tests.antt =====
-- Connections of two clients, their requests to the handlers, and a certificate.
use qftp.Prelude.{
  bytes, true, false, none, some, [], ◌∷◌, nat_eq, list_eq, lookup, ◌≡◌, refl, arith,
}
use qftp.Protocol.Messages.{cd, pwd, ok_response}
use qftp.Paths.{FilePath}
use qftp.Access.{full, read_only}
use qftp.Users.{User, UserDirectory, anonymous_user}
use qftp.Users.Identity.{dns_name}
use qftp.Server.Connection.{ConnectionContext, new_connection, upgrade_user_from_cert}
use qftp.Server.Connection.Identified.{Outcome, upgrade_user_from_cert-Outcome}
use qftp.Server.Connection.Jobs.{HandlerJob, HandlerPool, Handler, queued, finished, handler_worker}
use qftp.Server.Connection.Jobs.Steps.{
  Loop, start, Reach, begins, steps, accepts, asks, accept_connection, ask, streams_of, tickets,
  Accounted,
}
use qftp.Server.Connection.Jobs.Reached.{Reach-Accounted}

abbrev srv : FilePath
srv = bytes "srv" ∷ []

abbrev ann : User
ann = record {
  name = bytes "ann";
  home = bytes "srv" ∷ bytes "ann" ∷ [];
  permissions = full;
  quota_bytes = none;
  used_bytes = 0;
  in_flight_bytes = 0;
  active_uploads = [];
}

abbrev users : UserDirectory
users = record {
  by_name = (bytes "ann", ann) ∷ [];
  anonymous = record ann { name = bytes "anonymous"; home = srv; permissions = read_only };
}

abbrev shaken : ConnectionContext
shaken = record {
  user = anonymous_user;
  cwd = srv;
  generation = 0;
  handler_in_flight = false;
  pending_handler_jobs = [];
  established = true;
  peer_cert = some (some (record { san = some (dns_name (bytes "ann") ∷ []); common_names = [] }));
  closed = none;
  answered = [];
}

upgrade_user_from_cert-Outcome_example :
    Outcome users true shaken (upgrade_user_from_cert users true shaken)
upgrade_user_from_cert-Outcome_example = upgrade_user_from_cert-Outcome users true shaken refl refl

-- A handler that answers everything, and goes where it is told.
abbrev run : Handler
run (cd path) cwd user = (some ok_response, path ∷ [])
run req cwd user = (some ok_response, cwd)

abbrev accepted : Loop
accepted = accept_connection (bytes "k") srv start

abbrev fresh : ConnectionContext
fresh = new_connection anonymous_user srv 0

fresh-there : lookup (bytes "k") accepted.table ≡ some fresh
unfolding lookup accept_connection
fresh-there = refl

abbrev asked : Loop
asked = ask run (bytes "k") 4 (cd (bytes "x")) fresh accepted

abbrev busy : ConnectionContext
busy = record fresh { handler_in_flight = true }

busy-there : lookup (bytes "k") asked.table ≡ some busy
unfolding lookup accept_connection new_connection qftp.Server.Connection.Jobs.handle_simple
busy-there = refl

-- the second request waits behind the first
abbrev waiting : Loop
waiting = ask run (bytes "k") 8 pwd busy asked

abbrev queueing : ConnectionContext
queueing = record busy { pending_handler_jobs = (8, pwd) ∷ [] }

queueing-there : lookup (bytes "k") waiting.table ≡ some queueing
unfolding lookup accept_connection new_connection qftp.Server.Connection.Jobs.handle_simple
queueing-there = refl

waiting-Reach : Reach waiting
waiting-Reach =
    steps
      (steps (steps begins (accepts (bytes "k") srv start (omega arith)))
        (asks run (bytes "k") 4 (cd (bytes "x")) fresh accepted fresh-there))
      (asks run (bytes "k") 8 pwd busy asked busy-there)

Reach-Accounted_example :
    Accounted
      (streams_of (bytes "k") queueing.generation waiting.asked)
      (streams_of (bytes "k") queueing.generation (tickets waiting.pool.work))
      queueing
Reach-Accounted_example = Reach-Accounted (bytes "k") queueing waiting-Reach queueing-there
