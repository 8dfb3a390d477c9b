-- ===== src/Users/Tests.antt =====
-- A directory of two users with homes below /srv, and the certificates of one of them.
use qftp.Prelude.{
  ℕ, ◌-◌, ◌^◌, min, bytes, true, none, some, [], ◌∷◌, ◌==◌, nat_eq, list_eq, if◌then◌else◌, ok, ◌≡◌,
  refl,
}
use qftp.Paths.{FilePath, Metadata, regular_file, directory_file}
use qftp.Access.{full, read_only}
use qftp.Users.{User, UserDirectory, named_user}
use qftp.Users.Walk.{Listing, unreadable, listed, end, entry_failed, entry, walk_size}
use qftp.Users.Walk.Totals.{total_bytes, total_files, walk_size-totals}
use qftp.Users.Config.{UserSpec, UserConfig, Disk, from_config}
use qftp.Users.Config.Valid.{IsBuilt, from_config-IsBuilt}
use qftp.Users.Identity.{dns_name, rfc822_name, uri, Certificate, matched, resolve_identity}
use qftp.Users.Identity.Unique.{IsResolved, resolve_identity-IsResolved}
use qftp.Users.Identity.Candidates.{}

abbrev file_of : ℕ → Metadata
file_of n = record {
  kind = regular_file;
  len = n;
  modified = 0;
  mtime_nanos = 0;
  uid = 0;
  gid = 0;
  mode = 0;
}

abbrev directory : Metadata
directory = record (file_of 0) { kind = directory_file }

-- Three files, one of them below a directory, and an entry that cannot be read.
abbrev tree : Listing
tree = listed (
    entry (bytes "a") (file_of 3) unreadable (
      entry (bytes "d") directory (listed (entry (bytes "b") (file_of 4) unreadable end))
        (entry_failed (entry (bytes "c") (file_of 5) unreadable end))))

abbrev srv : FilePath
srv = bytes "srv" ∷ []

walk_size-totals_example :
    walk_size srv tree ≡ (min (total_bytes tree) (2 ^ 64 - 1), min (total_files tree) (2 ^ 64 - 1))
walk_size-totals_example = walk_size-totals srv tree

-- A disk that holds every path as it is written, each with the tree.
abbrev disk : Disk (Unit {0})
disk = record {
  exists = λ path s. true;
  create_dir_all = λ path s. (ok tt, s);
  canonicalize = λ path s.
      if path == bytes "/srv"
      then ok srv
      else if path == bytes "/srv/ann"
      then ok (bytes "srv" ∷ bytes "ann" ∷ [])
      else ok (bytes "srv" ∷ bytes "bob" ∷ []);
  remove_dir = λ path s. s;
  listing = λ path s. tree;
  remove_file = λ path s. s;
  now = λ s. 0;
}

abbrev ann_spec : UserSpec
ann_spec = record { name = bytes "ann"; home = none; permissions = full; quota_bytes = some 100 }

abbrev config : UserConfig
config = record {
  anonymous = none;
  users =
      ann_spec
      ∷ record ann_spec { name = bytes "bob"; home = some (bytes "bob"); quota_bytes = none }
      ∷ [];
}

abbrev ann : User
ann = record {
  name = bytes "ann";
  home = bytes "srv" ∷ bytes "ann" ∷ [];
  permissions = full;
  quota_bytes = some 100;
  used_bytes = 12;
  in_flight_bytes = 0;
  active_uploads = [];
}

abbrev users : UserDirectory
users = record {
  by_name =
      (bytes "ann", ann)
      ∷ (
        bytes "bob",
        record ann {
          name = bytes "bob";
          home = bytes "srv" ∷ bytes "bob" ∷ [];
          quota_bytes = none;
        },
      )
      ∷ [];
  anonymous = record {
    name = bytes "anonymous";
    home = srv;
    permissions = read_only;
    quota_bytes = none;
    used_bytes = 12;
    in_flight_bytes = 0;
    active_uploads = [];
  };
}

config-accepted : (from_config disk (bytes "/srv") config tt).0 ≡ ok users
unfolding from_config
config-accepted = refl

from_config-IsBuilt_example :
    (root : FilePath) × (disk.canonicalize (bytes "/srv") tt ≡ ok root) × IsBuilt root config users
from_config-IsBuilt_example = from_config-IsBuilt disk (bytes "/srv") config tt config-accepted

abbrev certificate : Certificate
certificate = record {
  san = some (rfc822_name (bytes "x@y") ∷ dns_name (bytes " ann ") ∷ uri (bytes "bad") ∷ []);
  common_names = some (bytes "nobody") ∷ none ∷ [];
}

resolve_identity-IsResolved_example :
    IsResolved users
      (bytes "nobody" ∷ bytes " ann" ∷ bytes "ann" ∷ [])
      (resolve_identity (bytes "nobody" ∷ bytes " ann" ∷ bytes "ann" ∷ []) users)
resolve_identity-IsResolved_example =
    resolve_identity-IsResolved users (bytes "nobody" ∷ bytes " ann" ∷ bytes "ann" ∷ [])

ann_resolved :
    resolve_identity (bytes "nobody" ∷ bytes " ann" ∷ bytes "ann" ∷ []) users
    ≡ matched (bytes " ann") (named_user (bytes "ann"))
unfolding resolve_identity
ann_resolved = refl
