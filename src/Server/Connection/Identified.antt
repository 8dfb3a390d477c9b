-- ===== src/Server/Connection/Identified.antt =====
-- Whom a connection of crates/qftp-server/src/server.rs acts for after `upgrade_user_from_cert`.
use qftp.Prelude.{
  ℕ, Bytes, Bool, true, false, Option, none, some, ◌≡◌, ◌≢◌, ◌⊎◌, refl, sym, subst, arith, inl, inr,
}
use qftp.Users.{UserDirectory, ArcUser, anonymous_user, named_user, lookup_strict}
use qftp.Users.Identity.{
  Certificate, extract_identity_candidates, IdentityResolution, matched, no_match, ambiguous,
}
use qftp.Users.Identity.Unique.{IsResolved, resolve_identity-IsResolved}
use qftp.Server.Connection.{
  ConnectionContext, close, home_at, apply_identity, identify, upgrade_user_from_cert,
}

lookup_strict-named :
    (dir : UserDirectory) (id : Bytes) {u : ArcUser}
    → lookup_strict dir id ≡ some u
    → u ≢ anonymous_user
unfolding lookup_strict
lookup_strict-named dir id h e = ground (arith, h, e)

-- The identities of the certificate name the user, and none of them names another one.
abbrev pub Identifies : UserDirectory → Option Certificate → ArcUser → Type 0
Identifies users der user =
    (id : Bytes) × IsResolved users (extract_identity_candidates der) (matched id user)

-- What is owed to a connection that was anonymous and has finished its handshake: it is served as
-- the user that its certificate names, in that user's home; or without a certificate, where none is
-- required; or it is not served, and closed.
abbrev pub Outcome : UserDirectory → Bool → ConnectionContext → Bool × ConnectionContext → Type 0
Outcome users mtls_required ctx (true, after) =
    (ctx.peer_cert ≡ none) × (mtls_required ≡ false) × (after ≡ ctx)
    ⊎ ((der : Option Certificate) × (ctx.peer_cert ≡ some der)
        × Identifies users der after.user
        × (after.user ≢ anonymous_user)
        × (after.cwd ≡ home_at users after.user ctx.cwd))
Outcome users mtls_required ctx (false, after) =
    (after.closed ≢ none) × (after.user ≡ ctx.user) × (after.cwd ≡ ctx.cwd)

close-IsClosed :
    (code : ℕ) (reason : Bytes) (ctx : ConnectionContext)
    → let after = close code reason ctx in
      (after.closed ≢ none) × (after.user ≡ ctx.user) × (after.cwd ≡ ctx.cwd)
close-IsClosed code reason ctx = (λ e. ground (arith, e), ground arith, ground arith)

apply_identity-Outcome :
    (users : UserDirectory) (mtls : Bool) (ctx : ConnectionContext) (der : Option Certificate)
    (r : IdentityResolution)
    → ctx.peer_cert ≡ some der
    → IsResolved users (extract_identity_candidates der) r
    → Outcome users mtls ctx (apply_identity users r ctx)
apply_identity-Outcome users mtls ctx der (matched id user) c r =
    inr (der, c, (id, r), lookup_strict-named users id r.1, refl)
apply_identity-Outcome users mtls ctx der no_match c r = close-IsClosed _ _ ctx
apply_identity-Outcome users mtls ctx der (ambiguous names) c r = close-IsClosed _ _ ctx

identify-Outcome :
    (users : UserDirectory) (mtls : Bool) (ctx : ConnectionContext)
    (cert : Option (Option Certificate))
    → ctx.peer_cert ≡ cert
    → Outcome users mtls ctx (identify users mtls cert ctx)
identify-Outcome users true ctx none c = close-IsClosed _ _ ctx
identify-Outcome users false ctx none c = inl (c, refl, refl)
identify-Outcome users mtls ctx (some der) c =
    apply_identity-Outcome users mtls ctx der _ c
      (resolve_identity-IsResolved users (extract_identity_candidates der))

-- An anonymous connection that has finished its handshake is served as anonymous only if it has
-- no certificate and none is required; else it is served as the one user whom its certificate
-- identifies, from that user's home, or it is closed and nothing of it changes.
pub upgrade_user_from_cert-Outcome :
    (users : UserDirectory) (mtls_required : Bool) (ctx : ConnectionContext)
    → ctx.user ≡ anonymous_user
    → ctx.established ≡ true
    → Outcome users mtls_required ctx (upgrade_user_from_cert users mtls_required ctx)
unfolding upgrade_user_from_cert
upgrade_user_from_cert-Outcome users mtls ctx a e =
    let same : upgrade_user_from_cert users mtls ctx ≡ identify users mtls ctx.peer_cert ctx =
      ground (arith, a, e) in
    subst (Outcome users mtls ctx) (sym same) (identify-Outcome users mtls ctx ctx.peer_cert refl)

-- A connection that has a user keeps it.
pub upgrade_user_from_cert-named :
    (users : UserDirectory) (mtls_required : Bool) (ctx : ConnectionContext)
    → ctx.user ≢ anonymous_user
    → upgrade_user_from_cert users mtls_required ctx ≡ (true, ctx)
unfolding upgrade_user_from_cert
upgrade_user_from_cert-named users mtls ctx h = go ctx.user refl
  where
    go : (u : ArcUser) → ctx.user ≡ u → upgrade_user_from_cert users mtls ctx ≡ (true, ctx)
    go anonymous_user e = absurd (h e)
    go (named_user n) e = rw (e, upgrade_user_from_cert)
