-- ===== src/Access/Grants.antt =====
-- The ACL of crates/qftp-protocol/src/handler.rs under the permissions that the program itself
-- names.
use qftp.Prelude.{Bool, true, false, none, Bytes, ◌≡◌, ◌↔◌, arith}
use qftp.Protocol.Messages.{Request, ls, get, put, mkdir, rmdir, rm, rename, chmod, stat}
use qftp.Access.{
  Op, delete, mkdir_op, rmdir_op, rename_op, chmod_op, Permissions, read_only, allows, acl_reject,
}

-- The requests that change the files of a user.
abbrev pub is_mutation : Request → Bool
is_mutation (put f) = true
is_mutation (mkdir path) = true
is_mutation (rmdir path) = true
is_mutation (rm path) = true
is_mutation (rename from_path to_path) = true
is_mutation (chmod path mode) = true
is_mutation _ = false

-- The requests that return what the files hold, their names or their metadata.
abbrev pub is_lookup : Request → Bool
is_lookup (ls path cursor) = true
is_lookup (get f) = true
is_lookup (stat path) = true
is_lookup _ = false

-- The permissions of the implicit anonymous user let no request through that changes a file, and
-- let all others through.
pub read_only-acl_reject :
    (message : Op → Bytes) (r : Request)
    → (acl_reject message read_only r ≡ none) ↔ (is_mutation r ≡ false)
unfolding acl_reject read_only
read_only-acl_reject message (ls path cursor) = ground arith
read_only-acl_reject message _ = ground arith

-- Without any permission a client still moves about, asks for its usage and leaves, and nothing else.
pub nothing-acl_reject :
    (message : Op → Bytes) (r : Request) (p : Permissions)
    → ((op : Op) → allows p op ≡ false)
    → (acl_reject message p r ≡ none) ↔ ((is_mutation r ≡ false) × (is_lookup r ≡ false))
unfolding acl_reject
nothing-acl_reject message (ls path cursor) p h = ground (arith, h Op.read)
nothing-acl_reject message _ p h =
    ground (arith, h Op.read, h Op.write, h delete, h mkdir_op, h rmdir_op, h rename_op, h chmod_op)
