-- ===== src/Access/Tests.antt =====
-- The ACL on a few requests.
use qftp.Prelude.{Bytes, bytes, false, ◌≡◌, arith}
use qftp.Access.{Op, Permissions, allows}

abbrev message : Op → Bytes
message op = bytes "not allowed"

abbrev no_permissions : Permissions
no_permissions = record {
  read = false;
  write = false;
  delete = false;
  mkdir = false;
  rmdir = false;
  rename = false;
  chmod = false;
}

nothing_allowed : (op : Op) → allows no_permissions op ≡ false
unfolding allows
nothing_allowed op = ground arith
