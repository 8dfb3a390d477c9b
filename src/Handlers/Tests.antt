-- ===== src/Handlers/Tests.antt =====
-- Requests in a root /srv that holds a directory and a file.
use qftp.Prelude.{
  bytes, true, none, [], ◌∷◌, ◌++◌, ◌==◌, nat_eq, list_eq, if◌then◌else◌, ok, ◌≡◌, refl,
}
use qftp.Protocol.Messages.{ls, rename, rm, ok_response}
use qftp.Paths.{
  FilePath, push, Metadata, FileKind, regular_file, directory_file, Stat, found, failed, Lstat,
  kind_not_found,
}
use qftp.Paths.Walk.{resolve}
use qftp.Upload.Quota.{Usage}
use qftp.Handlers.{Fs, rename_file, handle_request, quota_aware_remove, quota_aware_rename}
use qftp.Handlers.Confined.{IsConfined, handle_request-IsConfined}
use qftp.Handlers.Accounted.{
  IsAccounted, IsRenameAccounted, removed_size, quota_aware_remove-IsAccounted,
  quota_aware_rename-IsAccounted,
}
use qftp.Handlers.Listed.{IsListing, handle_request-IsListing}

abbrev srv : FilePath
srv = bytes "srv" ∷ []

abbrev meta_of : FileKind → Metadata
meta_of kind = record {
  kind = kind;
  len = 7;
  modified = 0;
  mtime_nanos = 0;
  uid = 0;
  gid = 0;
  mode = 0;
}

-- /srv and /srv/d are directories, all else is a file of seven bytes.
abbrev stat_at : Lstat
stat_at p = found (
    meta_of (
      if p == srv
      then directory_file
      else if p == push srv (bytes "d")
      then directory_file
      else regular_file))

abbrev fs : Fs
fs = record {
  resolving = stat_at;
  rechecking = stat_at;
  calling = stat_at;
  follows = λ p. true;
  is_dir = λ p. true;
  read_dir = λ p. ok (
      ok (record {
        name = bytes "b";
        metadata = ok (meta_of regular_file);
        file_type = ok regular_file;
      })
      ∷ ok (record {
        name = bytes "a";
        metadata = ok (meta_of regular_file);
        file_type = ok regular_file;
      })
      ∷ []);
  run = λ call. none;
}

handle_request-IsConfined_example :
    IsConfined fs srv (handle_request fs srv (rename (bytes "a") (bytes "/d/b")) (srv ++ []))
handle_request-IsConfined_example =
    handle_request-IsConfined fs srv [] (rename (bytes "a") (bytes "/d/b"))

handle_request-IsListing_example : IsListing (handle_request fs srv (ls [] none) srv).0
handle_request-IsListing_example = handle_request-IsListing fs srv [] none srv

abbrev usage : Usage
usage = record { used_bytes = 20; in_flight_bytes = 0; quota_bytes = none }

quota_aware_rename-IsAccounted_example :
    IsRenameAccounted fs srv fs
      (bytes "a")
      (bytes "/d/b")
      srv
      usage
      (quota_aware_rename fs srv fs (bytes "a") (bytes "/d/b") srv usage)
quota_aware_rename-IsAccounted_example =
    quota_aware_rename-IsAccounted fs srv fs (bytes "a") (bytes "/d/b") srv usage

quota_aware_remove-IsAccounted_example :
    IsAccounted fs srv
      (handle_request fs srv (rm (bytes "a")) srv)
      (removed_size fs srv (resolve stat_at fs.follows srv srv (bytes "a")))
      usage
      (quota_aware_remove fs srv (bytes "a") srv usage)
quota_aware_remove-IsAccounted_example = quota_aware_remove-IsAccounted fs srv (bytes "a") srv usage

rename_runs : handle_request fs srv (rename (bytes "a") (bytes "/d/b")) srv ≡ (
  ok_response,
  srv,
  rename_file (push srv (bytes "a")) (push (push srv (bytes "d")) (bytes "b")) ∷ [],
)
unfolding handle_request qftp.Paths.Walk.walk_component qftp.Paths.starts_with qftp.Paths.parent
    qftp.Paths.Recheck.recheck_ancestor
rename_runs = refl
