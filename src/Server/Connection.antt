-- ===== src/Server/Connection.antt =====
-- What the server keeps of a connection, crates/qftp-server/src/connection.rs, and how it comes to
-- act for a user: `upgrade_user_from_cert` of crates/qftp-server/src/server.rs.
pub mod Identified
pub mod Jobs
mod Tests
use qftp.Prelude.{
  ℕ, Bytes, bytes, Bool, true, false, not, ◌&&◌, Option, none, some, List, [], ◌∷◌, leb,
  if◌then◌else◌,
}
use qftp.Protocol.Messages.{Request, Response}
use qftp.Paths.{FilePath}
use qftp.Users.{User, UserDirectory, ArcUser, anonymous_user, ptr_eq, user_at, has_named_users}
use qftp.Users.Identity.{
  Certificate, extract_identity_candidates, IdentityResolution, matched, no_match, ambiguous,
  resolve_identity,
}

-- `ConnectionContext`. Of the QUIC connection: whether the handshake is done, the certificate of the
-- peer (`none` inside, one that cannot be parsed), the code and the reason it was closed with, and
-- the responses handed to it, by stream.
pub record ConnectionContext : Type 0 where
  pub user : ArcUser
  pub cwd : FilePath
  pub generation : ℕ
  pub handler_in_flight : Bool
  pub pending_handler_jobs : List (ℕ × Request)
  pub established : Bool
  pub peer_cert : Option (Option Certificate)
  pub closed : Option (ℕ × Bytes)
  pub answered : List (ℕ × Response)

-- `ConnectionContext::new`
unfoldable pub new_connection : ArcUser → (home : FilePath) → (generation : ℕ) → ConnectionContext
new_connection user home generation = record {
  user = user;
  cwd = home;
  generation = generation;
  handler_in_flight = false;
  pending_handler_jobs = [];
  established = false;
  peer_cert = none;
  closed = none;
  answered = [];
}

-- `conn.close`; the library keeps the first close.
abbrev pub close : ℕ → Bytes → ConnectionContext → ConnectionContext
close code reason ctx = elim ctx.closed [
  | none ↦ record ctx { closed = some (code, reason) }
  | some _ ↦ ctx
]

abbrev pub home_at : UserDirectory → ArcUser → FilePath → FilePath
home_at users user otherwise = elim (user_at users user) [ none ↦ otherwise | some u ↦ u.home ]

abbrev pub apply_identity :
    UserDirectory → IdentityResolution → ConnectionContext → Bool × ConnectionContext
apply_identity users (matched id user) ctx =
    (true, record ctx { cwd = home_at users user ctx.cwd; user = user })
apply_identity users no_match ctx = (false, close 0x101 (bytes "unknown identity") ctx)
apply_identity users (ambiguous names) ctx = (false, close 0x101 (bytes "ambiguous identity") ctx)

abbrev pub identify :
    UserDirectory
    → Bool
    → Option (Option Certificate)
    → ConnectionContext
    → Bool × ConnectionContext
identify users mtls_required none ctx =
    if mtls_required
    then (false, close 0x101 (bytes "client certificate required") ctx)
    else (true, ctx)
identify users mtls_required (some der) ctx =
    apply_identity users (resolve_identity (extract_identity_candidates der) users) ctx

-- Whether the connection is served.
unfoldable pub upgrade_user_from_cert :
    UserDirectory → Bool → ConnectionContext → Bool × ConnectionContext
unfolding ptr_eq user_at resolve_identity extract_identity_candidates
upgrade_user_from_cert users mtls_required ctx =
    if not (ptr_eq ctx.user anonymous_user)
    then (true, ctx)
    else if not ctx.established
    then (true, ctx)
    else identify users mtls_required ctx.peer_cert ctx

-- in nanoseconds
abbrev pub half_open_timeout : ℕ
half_open_timeout = 5000000000

unfoldable pub half_open_expired : (established : Bool) → (age : ℕ) → Bool
half_open_expired established age = not established && leb half_open_timeout age

-- the argument that `process_readable_streams` gives `plan_actions`
unfoldable pub refuse_all_early_data : Bool → UserDirectory → Bool
unfolding has_named_users
refuse_all_early_data mtls_required users = if mtls_required then true else has_named_users users
