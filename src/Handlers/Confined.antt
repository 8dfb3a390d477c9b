-- ===== src/Handlers/Confined.antt =====
-- Where the handlers of crates/qftp-protocol/src/handler.rs act.
use mathlib.Core.List.{append-nil}
use qftp.Prelude.{
  ℕ, ◌%◌, Bytes, bytes, Bool, true, false, not, ◌||◌, Option, none, some, ◌++◌, ◌==◌, nat_eq,
  list_eq, if◌then◌else◌, Result, ok, err, All, >>=-eq-ok, [], ◌∷◌, ◌≡◌, ◌⊎◌, inl, inr, refl, ap,
  ◌∙◌, subst, arith, Bool-cases,
}
use qftp.Protocol.Messages.{
  Request, ls, cd, pwd, get, put, mkdir, rmdir, rm, rename, chmod, stat, quota, quit, Response,
  ErrorResponse,
}
use qftp.Paths.{FilePath, IoError, parent, push, Lstat, Stat, found, failed, is_symlink}
use qftp.Paths.Walk.{resolve, resolve_parent, walk_safe, check_parent}
use qftp.Paths.Walk.Lexical.{walk_safe-lexical}
use qftp.Paths.Recheck.{recheck_ancestors_no_symlinks, recheck_path_no_symlinks}
use qftp.Paths.Recheck.Below.{IsFound, IsSolidFrom, recheck_ancestors_iff, recheck_ancestors-root}
use qftp.Upload.Claims.{is_upload_temp}
use qftp.Handlers.{
  FsCall, create_dir, remove_dir, remove_file, rename_file, set_permissions, Fs, Handled, refuse,
  called, call_result, labelled, chmod_failed, if_safe, enter_if, checked, on_path, enter, set_mode,
  stat_target, rename_to, handle_request,
}

-- It is there, and no link.
abbrev pub is_solid : Stat → Bool
is_solid (found meta) = not (is_symlink meta.kind)
is_solid (failed e) = false

checked_parent :
    (lstat : Lstat) (path p : FilePath) (above : Option FilePath)
    → check_parent lstat path above ≡ ok p
    → p ≡ path
checked_parent lstat path p none h = absurd (cc)
checked_parent lstat path p (some above) h = ground (arith, h)

path-cases : (p : FilePath) → (p ≡ []) ⊎ ((rel : FilePath) × (name : Bytes) × (p ≡ push rel name))
path-cases [] = inl refl
path-cases (n ∷ p) = elim (path-cases p) [
  | inl top ↦ inr ([], n, ap (λ q. n ∷ q) top)
  | inr (rel, name, e) ↦ inr (n ∷ rel, name, ap (λ q. n ∷ q) e)
]

module _ (fs : Fs) (root : FilePath) where
  abbrev pub IsUnder : FilePath → Type 0
  IsUnder p = (end : FilePath) × (p ≡ root ++ end)

  -- A path strictly below the root; just before, the root was there, and every directory between the
  -- root and the path was there and was no link. Or both are `/`, above which there is nothing.
  abbrev pub IsSafe : FilePath → Type 0
  IsSafe p =
      ((rel : FilePath) × (name : Bytes) × (p ≡ root ++ push rel name)
        × IsFound (fs.rechecking root)
        × IsSolidFrom fs.rechecking root rel)
      ⊎ ((root ≡ []) × (p ≡ []))

  abbrev pub IsSafeCall : FsCall → Type 0
  IsSafeCall (create_dir p) = IsSafe p
  IsSafeCall (remove_dir p) = IsSafe p
  IsSafeCall (remove_file p) = IsSafe p
  IsSafeCall (rename_file p q) = IsSafe p × IsSafe q
  IsSafeCall (set_permissions p mode) = IsSafe p × (is_solid (fs.calling p) ≡ true)

  abbrev pub IsConfined : Handled → Type 0
  IsConfined (resp, cwd, calls) = IsUnder cwd × All IsSafeCall calls

  resolve-IsUnder :
      (rel : FilePath) (path : Bytes) (p : FilePath)
      → resolve fs.resolving fs.follows (root ++ rel) root path ≡ ok p
      → IsUnder p
  unfolding resolve
  resolve-IsUnder rel path p h =
      let (q, walked, exists) = >>=-eq-ok (walk_safe fs.resolving root (root ++ rel) path) _ h in
      let (end, lexical, same) = walk_safe-lexical fs.resolving root rel path q walked in
      (end, ground (arith, exists, same))

  resolve_parent-IsUnder :
      (rel : FilePath) (path : Bytes) (p : FilePath)
      → resolve_parent fs.resolving (root ++ rel) root path ≡ ok p
      → IsUnder p
  unfolding resolve_parent
  resolve_parent-IsUnder rel path p h =
      let (q, walked, exists) = >>=-eq-ok (walk_safe fs.resolving root (root ++ rel) path) _ h in
      let (end, lexical, same) = walk_safe-lexical fs.resolving root rel path q walked in
      (end, checked_parent fs.resolving q p (parent q) exists ∙ same)

  IsUnder-IsSafe :
      (p : FilePath)
      → IsUnder p
      → recheck_ancestors_no_symlinks fs.rechecking p root ≡ ok tt
      → IsSafe p
  IsUnder-IsSafe p (end, same) again = elim (path-cases end) [
    | inl top ↦
        let at_root : p ≡ root = rw (same, top) (append-nil root) in
        let slash : root ≡ [] =
          recheck_ancestors-root fs.rechecking root (
            subst (λ q. recheck_ancestors_no_symlinks fs.rechecking q root ≡ ok tt) at_root
              again) in
        inr (slash, at_root ∙ slash)
    | inr (rel, name, below) ↦
        let here : p ≡ root ++ push rel name = same ∙ ap (λ q. root ++ q) below in
        let (there, solid) =
          (recheck_ancestors_iff fs.rechecking root rel name).0
            (subst (λ q. recheck_ancestors_no_symlinks fs.rechecking q root ≡ ok tt) here again) in
        inl (rel, name, here, there, solid)
  ]

  module _ (rel : FilePath) where
    abbrev here : FilePath
    here = root ++ rel

    refuse-IsConfined : (e : ErrorResponse) → IsConfined (refuse e here)
    refuse-IsConfined e = ((rel, refl), tt)

    on_path-IsConfined :
        (further : FilePath → Handled) (r : Result ErrorResponse FilePath)
        → ((p : FilePath) → r ≡ ok p → IsUnder p)
        → ((p : FilePath) → IsUnder p → IsConfined (further p))
        → IsConfined (on_path fs root here further r)
    on_path-IsConfined further (err e) under k = refuse-IsConfined e
    on_path-IsConfined further (ok p) under k = k p (under p refl)

    if_safe-IsConfined :
        (further : Handled) (r : Result ErrorResponse (Unit {0}))
        → (r ≡ ok tt → IsConfined further)
        → IsConfined (if_safe fs root here further r)
    if_safe-IsConfined further (err e) k = refuse-IsConfined e
    if_safe-IsConfined further (ok u) k = k refl

    checked-IsConfined :
        (target : FilePath) (further : Handled)
        → (recheck_ancestors_no_symlinks fs.rechecking target root ≡ ok tt → IsConfined further)
        → IsConfined (checked fs root here target further)
    checked-IsConfined target further k = if_safe-IsConfined further _ k

    call_result-IsConfined :
        (failure : IoError → Response) (call : FsCall) (r : Option IoError)
        → IsSafeCall call
        → IsConfined (call_result fs root failure here call r)
    call_result-IsConfined failure call none safe = ((rel, refl), (safe, tt))
    call_result-IsConfined failure call (some e) safe = ((rel, refl), (safe, tt))

    called-IsConfined :
        (label : Bytes) (call : FsCall)
        → IsSafeCall call
        → IsConfined (called fs root label here call)
    called-IsConfined label call safe =
        call_result-IsConfined (labelled fs root label) call (fs.run call) safe

    checked_call-IsConfined :
        (label : Bytes) (call : FilePath → FsCall)
        → ((p : FilePath) → IsSafe p → IsSafeCall (call p))
        → (target : FilePath) → IsUnder target
        → IsConfined (checked fs root here target (called fs root label here (call target)))
    checked_call-IsConfined label call safe target under = checked-IsConfined target _ (λ again.
        called-IsConfined label (call target) (safe target (IsUnder-IsSafe target under again)))

    enter_if-IsConfined :
        (path : Bytes) (target : FilePath) (dir : Bool)
        → IsUnder target
        → IsConfined (enter_if fs root path here target dir)
    enter_if-IsConfined path target true under = (under, tt)
    enter_if-IsConfined path target false under = ((rel, refl), tt)

    enter-IsConfined :
        (path : Bytes) (target : FilePath)
        → IsUnder target
        → IsConfined (enter fs root path here target)
    enter-IsConfined path target under =
        if_safe-IsConfined _ (recheck_path_no_symlinks fs.rechecking target root)
          (λ safe. enter_if-IsConfined path target (fs.is_dir target) under)

    set_mode-IsConfined :
        (target : FilePath) (mode : ℕ) (s : Stat)
        → fs.calling target ≡ s
        → IsSafe target
        → IsConfined (set_mode fs root here target mode s)
    set_mode-IsConfined target mode (failed e) at safe = ((rel, refl), tt)
    set_mode-IsConfined target mode (found meta) at safe =
        elim (Bool-cases (is_symlink meta.kind)) [
          | inl link ↦ rw link ((rel, refl), tt)
          | inr solid ↦ rw solid (
              call_result-IsConfined (chmod_failed fs root) (set_permissions target (mode % 512))
                (fs.run (set_permissions target (mode % 512)))
                (safe, ap is_solid at ∙ ap not solid))
        ]

    stat_target-IsConfined : (s : Stat) → IsConfined (stat_target fs root here s)
    stat_target-IsConfined (failed e) = ((rel, refl), tt)
    stat_target-IsConfined (found meta) = elim (Bool-cases (is_symlink meta.kind)) [
      | inl link ↦ rw link ((rel, refl), tt)
      | inr solid ↦ rw solid ((rel, refl), tt)
    ]

    stat-IsConfined :
        (target : FilePath)
        → IsConfined (
            if target == root
            then stat_target fs root here (fs.calling target)
            else checked fs root here target (stat_target fs root here (fs.calling target)))
    stat-IsConfined target = elim (Bool-cases (target == root)) [
      | inl top ↦ rw top (stat_target-IsConfined (fs.calling target))
      | inr below ↦
          rw below
            (checked-IsConfined target _ (λ again. stat_target-IsConfined (fs.calling target)))
    ]

    rename_to-IsConfined :
        (src dst : FilePath)
        → IsUnder src
        → IsUnder dst
        → IsConfined (rename_to fs root here src dst)
    rename_to-IsConfined src dst under_src under_dst = checked-IsConfined src _ (λ safe_src.
        checked-IsConfined dst _ (λ safe_dst.
          called-IsConfined (bytes "rename failed: ") (rename_file src dst)
            (IsUnder-IsSafe src under_src safe_src, IsUnder-IsSafe dst under_dst safe_dst)))

    -- Whatever a client asks from a working directory under the root, and whatever the file system
    -- answers: the working directory after it is under the root; and each path that a call which
    -- changes the file system is made on is strictly below the root (or both are `/`), when the root
    -- was there and every directory strictly between the two was there and was no link as they were
    -- looked at again before the call; and the path of a mode change is itself no link.
    pub handle_request-IsConfined :
        (req : Request) → IsConfined (handle_request fs root req (root ++ rel))
    unfolding handle_request
    handle_request-IsConfined pwd = ((rel, refl), tt)
    handle_request-IsConfined (cd path) =
        on_path-IsConfined _ _ (resolve-IsUnder rel path) (enter-IsConfined path)
    handle_request-IsConfined (ls path cursor) = ((rel, refl), tt)
    handle_request-IsConfined (mkdir path) =
        on_path-IsConfined _ _ (resolve_parent-IsUnder rel path)
          (checked_call-IsConfined (bytes "mkdir failed: ") create_dir (λ p s. s))
    handle_request-IsConfined (rmdir path) =
        on_path-IsConfined _ _ (resolve-IsUnder rel path)
          (checked_call-IsConfined (bytes "rmdir failed: ") remove_dir (λ p s. s))
    handle_request-IsConfined (rm path) = elim (Bool-cases (is_upload_temp path)) [
      | inl partial ↦ rw partial (((rel, refl), tt))
      | inr plain ↦ rw plain (
          on_path-IsConfined _ _ (resolve-IsUnder rel path)
            (checked_call-IsConfined (bytes "rm failed: ") remove_file (λ p s. s)))
    ]
    handle_request-IsConfined (rename from_path to_path) =
        elim (Bool-cases (is_upload_temp from_path || is_upload_temp to_path)) [
          | inl partial ↦ rw partial (((rel, refl), tt))
          | inr plain ↦ rw plain (
              on_path-IsConfined _ _ (resolve-IsUnder rel from_path) (λ src under.
                on_path-IsConfined _ _ (resolve_parent-IsUnder rel to_path)
                  (λ dst under'. rename_to-IsConfined src dst under under')))
        ]
    handle_request-IsConfined (chmod path mode) =
        on_path-IsConfined _ _ (resolve-IsUnder rel path) (λ target under.
          checked-IsConfined target _ (λ again.
            set_mode-IsConfined target mode (fs.calling target) refl
              (IsUnder-IsSafe target under again)))
    handle_request-IsConfined (stat path) =
        on_path-IsConfined _ _ (resolve-IsUnder rel path) (λ target under. stat-IsConfined target)
    handle_request-IsConfined (get fields) = ((rel, refl), tt)
    handle_request-IsConfined (put fields) = ((rel, refl), tt)
    handle_request-IsConfined quit = ((rel, refl), tt)
    handle_request-IsConfined quota = ((rel, refl), tt)
