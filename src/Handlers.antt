-- ===== src/Handlers.antt =====
-- The request handlers of crates/qftp-protocol/src/handler.rs, over what the file system answers.
pub mod Confined
pub mod Accounted
pub mod Listed
mod Tests
use qftp.Prelude.{
  ℕ, zero, suc, ◌+◌, ◌-◌, ◌*◌, ◌%◌, ◌^◌, Bytes, bytes, Bool, true, false, not, ◌&&◌, ◌||◌, Option,
  none, some, List, [], ◌∷◌, ◌++◌, length, ltb, leb, ◌==◌, nat_eq, list_eq, if◌then◌else◌, Result,
  ok, err,
}
use qftp.Protocol.Codes.{
  FileType, regular, directory, symlink, other, permission_denied, not_a_directory, internal,
  malformed, unsupported,
}
use qftp.Protocol.Messages.{
  Request, ls, cd, pwd, get, put, mkdir, rmdir, rm, rename, chmod, stat, quota, quit, Response,
  ok_response, err_response, dir_listing, path_response, file_stat, DirEntry, FileStat,
  ErrorResponse, new_error,
}
use qftp.Protocol.Validate.{max_dir_entries}
use qftp.Paths.{
  FilePath, display, IoError, Metadata, FileKind, regular_file, directory_file, symbolic_link,
  special_file, is_symlink, is_file, Stat, found, failed, Lstat,
}
use qftp.Paths.Walk.{resolve, resolve_parent}
use qftp.Paths.Recheck.{recheck_ancestors_no_symlinks, recheck_path_no_symlinks}
use qftp.Upload.Claims.{is_upload_temp}
use qftp.Upload.Quota.{Usage, refund}
use qftp.Upload.Driver.{io_code}

-- The calls that change the file system
pub data FsCall : Type 0 where
  create_dir remove_dir remove_file : FilePath → FsCall
  rename_file : (from_path to_path : FilePath) → FsCall
  set_permissions : FilePath → (mode : ℕ) → FsCall

-- One entry that `read_dir` gives, its name as text
pub record DirRead : Type 0 where
  pub name : Bytes
  pub metadata : Result IoError Metadata
  pub file_type : Result IoError FileKind

-- What the file system answers during one request: `lstat` while the path is resolved, when it is
-- looked at again, and at the call; `Path::exists` and `Path::is_dir`, which follow links; the
-- entries of a directory; and a call that changes something, `none` where it succeeds.
pub record Fs : Type 0 where
  pub resolving : Lstat
  pub rechecking : Lstat
  pub calling : Lstat
  pub follows : FilePath → Bool
  pub is_dir : FilePath → Bool
  pub read_dir : FilePath → Result IoError (List (Result IoError DirRead))
  pub run : FsCall → Option IoError

-- The response, the working directory after it, and the calls that were made
abbrev pub Handled : Type 0
Handled = Response × FilePath × List FsCall

unfoldable pub file_type_of : FileKind → FileType
file_type_of directory_file = directory
file_type_of symbolic_link = symlink
file_type_of regular_file = regular
file_type_of special_file = other

-- a name of `DirEntry` and what `ls` reports of it
abbrev pub dir_entry : Bytes → Metadata → FileKind → DirEntry
dir_entry name meta kind = record {
  name = name;
  file_type = file_type_of kind;
  size = meta.len;
  modified = meta.modified;
  mtime_nanos = meta.mtime_nanos;
  uid = meta.uid;
  gid = meta.gid;
  mode = meta.mode;
}

abbrev pub max_dir_scan : ℕ
max_dir_scan = max_dir_entries * 4

-- the order of `String`
unfoldable pub precedes : Bytes → Bytes → Bool
precedes [] n = true
precedes (c ∷ m) [] = false
precedes (c ∷ m) (d ∷ n) = ltb c d || c == d && precedes m n

unfoldable pub insert_entry : DirEntry → List DirEntry → List DirEntry
unfolding precedes
insert_entry e [] = e ∷ []
insert_entry e (f ∷ es) =
    let rest = insert_entry e es in if precedes e.name f.name then e ∷ f ∷ es else f ∷ rest

-- `sort_by`, which keeps equal names in order
unfoldable pub sort_entries : List DirEntry → List DirEntry
unfolding insert_entry
sort_entries [] = []
sort_entries (e ∷ es) = insert_entry e (sort_entries es)

abbrev pub refuse : ErrorResponse → FilePath → Handled
refuse e cwd = (err_response e, cwd, [])

abbrev pub read_dir_error : IoError → Response
read_dir_error e = err_response (new_error (io_code e.kind) (bytes "Read dir error: " ++ e.text))

abbrev pub metadata_error : IoError → Response
metadata_error e = err_response (new_error (io_code e.kind) (bytes "Metadata error: " ++ e.text))

-- an entry that is listed, or the end of the listing
abbrev pub add_entry : (List DirEntry → Response) → List DirEntry → DirRead → Response
add_entry further listing entry = elim entry.metadata [
  | err e ↦ metadata_error e
  | ok meta ↦ elim entry.file_type [
    | err e ↦ metadata_error e
    | ok kind ↦ further (listing ++ dir_entry entry.name meta kind ∷ [])
  ]
]

abbrev pub read_entry :
    (List DirEntry → Response) → List DirEntry → Result IoError DirRead → Response
read_entry further listing (err e) = read_dir_error e
read_entry further listing (ok entry) =
    if is_upload_temp entry.name then further listing else add_entry further listing entry

-- The loop over the entries
unfoldable pub scan_entries :
    List (Result IoError DirRead) → (scanned : ℕ) → List DirEntry → Response
unfolding sort_entries is_upload_temp io_code file_type_of
scan_entries [] scanned listing = dir_listing (sort_entries listing) none
scan_entries (entry ∷ entries) scanned listing =
    let further = scan_entries entries (suc scanned) in
    if ltb max_dir_scan (suc scanned)
    then err_response (
        new_error internal
          (bytes "directory scan exceeded 400000 entries (too many hidden / temp files)"))
    else if leb max_dir_entries (length listing)
    then err_response (new_error internal (bytes "directory listing exceeds 100000 entries"))
    else read_entry further listing entry

abbrev pub cannot_list : IoError → Response
cannot_list e =
    err_response (new_error (io_code e.kind) (bytes "Cannot list directory: " ++ e.text))

abbrev pub is_empty : Bytes → Bool
is_empty [] = true
is_empty (c ∷ s) = false

module _ (fs : Fs) (root : FilePath) where
  abbrev pub list_entries : Result IoError (List (Result IoError DirRead)) → Response
  list_entries (err e) = cannot_list e
  list_entries (ok entries) = scan_entries entries 0 []

  abbrev pub list_if_safe : FilePath → Result ErrorResponse (Unit {0}) → Response
  list_if_safe dir (err e) = err_response e
  list_if_safe dir (ok u) = list_entries (fs.read_dir dir)

  abbrev pub list_dir : Result ErrorResponse FilePath → Response
  list_dir (err e) = err_response e
  list_dir (ok dir) = list_if_safe dir (recheck_path_no_symlinks fs.rechecking dir root)

  abbrev pub call_result : (IoError → Response) → FilePath → FsCall → Option IoError → Handled
  call_result failure cwd call none = (ok_response, cwd, call ∷ [])
  call_result failure cwd call (some e) = (failure e, cwd, call ∷ [])

  abbrev pub labelled : Bytes → IoError → Response
  labelled label e = err_response (new_error (io_code e.kind) (label ++ e.text))

  -- a call, with the label of its error
  abbrev pub called : Bytes → FilePath → FsCall → Handled
  called label cwd call = call_result (labelled label) cwd call (fs.run call)

  abbrev pub if_safe : FilePath → Handled → Result ErrorResponse (Unit {0}) → Handled
  if_safe cwd further (err e) = refuse e cwd
  if_safe cwd further (ok u) = further

  -- `check_path_safe`, before the call
  abbrev pub checked : FilePath → FilePath → Handled → Handled
  checked cwd target further =
      if_safe cwd further (recheck_ancestors_no_symlinks fs.rechecking target root)

  abbrev pub on_path : FilePath → (FilePath → Handled) → Result ErrorResponse FilePath → Handled
  on_path cwd further (err e) = refuse e cwd
  on_path cwd further (ok target) = further target

  abbrev pub enter_if : Bytes → FilePath → FilePath → Bool → Handled
  enter_if path cwd target true = (ok_response, target, [])
  enter_if path cwd target false =
      refuse (new_error not_a_directory (bytes "Not a directory: " ++ path)) cwd

  abbrev pub enter : Bytes → FilePath → FilePath → Handled
  enter path cwd target =
      if_safe cwd (enter_if path cwd target (fs.is_dir target))
        (recheck_path_no_symlinks fs.rechecking target root)

  abbrev pub chmod_failed : IoError → Response
  chmod_failed e = err_response (new_error internal (bytes "chmod failed: " ++ e.text))

  -- `set_mode`, on what `lstat` answers just before the call
  abbrev pub set_mode : FilePath → FilePath → ℕ → Stat → Handled
  set_mode cwd target mode (failed e) =
      refuse (new_error (io_code e.kind) (bytes "re-stat failed: " ++ e.text)) cwd
  set_mode cwd target mode (found meta) =
      if is_symlink meta.kind
      then refuse
          (new_error permission_denied
            (bytes "target became a symlink between resolve and chmod (#106)"))
          cwd
      else call_result chmod_failed cwd (set_permissions target (mode % 512))
          (fs.run (set_permissions target (mode % 512)))

  abbrev pub stat_of : Metadata → FileStat
  stat_of meta = record {
    file_type = file_type_of meta.kind;
    size = meta.len;
    modified = meta.modified;
    mtime_nanos = meta.mtime_nanos;
    uid = meta.uid;
    gid = meta.gid;
    mode = meta.mode;
  }

  abbrev pub stat_target : FilePath → Stat → Handled
  stat_target cwd (failed e) =
      refuse (new_error (io_code e.kind) (bytes "stat failed: " ++ e.text)) cwd
  stat_target cwd (found meta) =
      if is_symlink meta.kind
      then refuse
          (new_error permission_denied
            (bytes "target became a symlink between resolve and stat (#106)"))
          cwd
      else (file_stat (stat_of meta), cwd, [])

  abbrev pub strip : FilePath → FilePath → FilePath
  strip [] p = p
  strip (r ∷ rs) [] = []
  strip (r ∷ rs) (n ∷ p) = if r == n then strip rs p else []

  abbrev pub rename_to : FilePath → FilePath → FilePath → Handled
  rename_to cwd src dst =
      checked cwd src (checked cwd dst (called (bytes "rename failed: ") cwd (rename_file src dst)))

  unfoldable pub handle_request : Request → FilePath → Handled
  unfolding resolve resolve_parent recheck_ancestors_no_symlinks recheck_path_no_symlinks
      is_upload_temp io_code scan_entries display file_type_of
  handle_request pwd cwd = (path_response (display (strip root cwd)), cwd, [])
  handle_request (cd path) cwd =
      on_path cwd (enter path cwd) (resolve fs.resolving fs.follows cwd root path)
  handle_request (ls path cursor) cwd = (
    list_dir (if is_empty path then ok cwd else resolve fs.resolving fs.follows cwd root path),
    cwd,
    [],
  )
  handle_request (mkdir path) cwd =
      on_path cwd
        (λ target. checked cwd target (called (bytes "mkdir failed: ") cwd (create_dir target)))
        (resolve_parent fs.resolving cwd root path)
  handle_request (rmdir path) cwd =
      on_path cwd
        (λ target. checked cwd target (called (bytes "rmdir failed: ") cwd (remove_dir target)))
        (resolve fs.resolving fs.follows cwd root path)
  handle_request (rm path) cwd =
      if is_upload_temp path
      then refuse
          (new_error permission_denied (bytes "cannot remove a server-internal upload temp file"))
          cwd
      else on_path cwd
          (λ target. checked cwd target (called (bytes "rm failed: ") cwd (remove_file target)))
          (resolve fs.resolving fs.follows cwd root path)
  handle_request (rename from_path to_path) cwd =
      if is_upload_temp from_path || is_upload_temp to_path
      then refuse
          (new_error permission_denied (bytes "cannot rename a server-internal upload temp file"))
          cwd
      else on_path cwd
          (λ src. on_path cwd (rename_to cwd src) (resolve_parent fs.resolving cwd root to_path))
          (resolve fs.resolving fs.follows cwd root from_path)
  handle_request (chmod path mode) cwd =
      on_path cwd (λ target. checked cwd target (set_mode cwd target mode (fs.calling target)))
        (resolve fs.resolving fs.follows cwd root path)
  handle_request (stat path) cwd =
      on_path cwd
        (λ target.
          if target == root
          then stat_target cwd (fs.calling target)
          else checked cwd target (stat_target cwd (fs.calling target)))
        (resolve fs.resolving fs.follows cwd root path)
  handle_request (get fields) cwd =
      refuse (new_error malformed (bytes "unexpected command on simple-handler path")) cwd
  handle_request (put fields) cwd =
      refuse (new_error malformed (bytes "unexpected command on simple-handler path")) cwd
  handle_request quit cwd =
      refuse (new_error malformed (bytes "unexpected command on simple-handler path")) cwd
  handle_request quota cwd =
      refuse (new_error unsupported (bytes "request variant not understood")) cwd

  -- the size of a regular file, 0 of anything else
  abbrev pub size_of : Stat → ℕ
  size_of (failed e) = 0
  size_of (found meta) = if is_file meta.kind then meta.len else 0

  abbrev pub is_ok : Response → Bool
  is_ok ok_response = true
  is_ok _ = false

  abbrev pub refund_if : Bool → ℕ → Usage → Usage
  refund_if done size usage = if done then refund size usage else usage

  abbrev pub remove_resolved : FilePath → Usage → Result ErrorResponse FilePath → Handled × Usage
  remove_resolved cwd usage (err e) = (refuse e cwd, usage)
  remove_resolved cwd usage (ok target) =
      let handled = checked cwd target (called (bytes "rm failed: ") cwd (remove_file target)) in
      (handled, refund_if (is_ok handled.0) (size_of (fs.calling target)) usage)

  unfoldable pub quota_aware_remove : Bytes → FilePath → Usage → Handled × Usage
  unfolding resolve recheck_ancestors_no_symlinks is_upload_temp io_code refund
  quota_aware_remove path cwd usage =
      if is_upload_temp path
      then (
        refuse
            (new_error permission_denied (bytes "cannot remove a server-internal upload temp file"))
            cwd,
        usage,
      )
      else remove_resolved cwd usage (resolve fs.resolving fs.follows cwd root path)

  -- What a rename overwrites, by `lstat` before it
  abbrev pub clobbered : Lstat → Result ErrorResponse FilePath → Result ErrorResponse FilePath → ℕ
  clobbered lstat (ok f) (ok t) = if f == t then 0 else size_of (lstat t)
  clobbered lstat (ok f) (err e) = 0
  clobbered lstat (err e) t = 0

  -- `before` is what the file system answers to the look before `handle_request`, which looks again.
  unfoldable pub quota_aware_rename :
      (before : Fs) (from_path to_path : Bytes) → FilePath → Usage → Handled × Usage
  unfolding resolve resolve_parent handle_request refund
  quota_aware_rename before from_path to_path cwd usage =
      let handled = handle_request (rename from_path to_path) cwd in
      (
        handled,
        refund_if (is_ok handled.0)
            (clobbered before.calling (resolve before.resolving before.follows cwd root from_path)
              (resolve_parent before.resolving cwd root to_path))
            usage,
      )
