-- ===== src/Access.antt =====
-- Who may do what: `Op` and `Permissions` of crates/qftp-protocol/src/user.rs, `required_op` and
-- `acl_reject` of crates/qftp-protocol/src/handler.rs, and the replay gate of early data in
-- crates/qftp-server/src/server.rs.
pub mod Grants
mod Tests
use qftp.Prelude.{Bool, true, false, ◌&&◌, ◌||◌, not, Option, none, some, Bytes, if◌then◌else◌}
use qftp.Protocol.Codes.{permission_denied}
use qftp.Protocol.Messages.{
  Request, ls, cd, pwd, get, put, mkdir, rmdir, rm, rename, chmod, stat, quota, quit, Response,
  err_response, new_error,
}

pub data Op : Type 0 where
  read write delete mkdir_op rmdir_op rename_op chmod_op : Op

pub record Permissions : Type 0 where
  pub read : Bool
  pub write : Bool
  pub delete : Bool
  pub mkdir : Bool
  pub rmdir : Bool
  pub rename : Bool
  pub chmod : Bool

unfoldable pub full : Permissions
full = record {
  read = true;
  write = true;
  delete = true;
  mkdir = true;
  rmdir = true;
  rename = true;
  chmod = true;
}

unfoldable pub read_only : Permissions
read_only = record {
  read = true;
  write = false;
  delete = false;
  mkdir = false;
  rmdir = false;
  rename = false;
  chmod = false;
}

unfoldable pub allows : Permissions → Op → Bool
allows p Op.read = p.read
allows p Op.write = p.write
allows p delete = p.delete
allows p mkdir_op = p.mkdir
allows p rmdir_op = p.rmdir
allows p rename_op = p.rename
allows p chmod_op = p.chmod

-- The request types of this version are all known, so the arm `_ => Err(())` is not reached and
-- `Ok(None)` is `none`.
unfoldable pub required_op : Request → Option Op
required_op pwd = none
required_op (cd path) = none
required_op quit = none
required_op quota = none
required_op (ls path cursor) = some Op.read
required_op (stat path) = some Op.read
required_op (get f) = some Op.read
required_op (put f) = some Op.write
required_op (mkdir path) = some mkdir_op
required_op (rmdir path) = some rmdir_op
required_op (rm path) = some delete
required_op (rename from_path to_path) = some rename_op
required_op (chmod path mode) = some chmod_op

-- The message, `user '{}' is not allowed to {:?}`, is a parameter.
unfoldable pub acl_reject : (Op → Bytes) → Permissions → Request → Option Response
unfolding required_op allows new_error
acl_reject message p req = elim (required_op req) [
  | none ↦ none
  | some op ↦
      if allows p op then none else some (err_response (new_error permission_denied (message op)))
]
