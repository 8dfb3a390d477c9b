-- ===== src/Users/Config.antt =====
-- `UserDirectory::from_config` of crates/qftp-protocol/src/user.rs: the homes of the configured
-- users are resolved, kept apart, and made into a directory.
pub mod Apart
pub mod Valid
use qftp.Prelude.{
  ℕ, Bytes, bytes, Bool, true, false, not, ◌&&◌, ◌||◌, Option, none, some, List, [], ◌∷◌, ◌++◌,
  ◌==◌, nat_eq, list_eq, if◌then◌else◌, Assoc, lookup, insert, Result, ok, err,
}
use qftp.Paths.{FilePath, Component, parent_dir, components, is_absolute, starts_with, IoError}
use qftp.Access.{Permissions, read_only}
use qftp.Users.{User, UserDirectory}
use qftp.Users.Walk.{Listing, walk_size, sweep_stale_partials}

-- `UserSpec` and `UserConfig`, as parsed
pub record UserSpec : Type 0 where
  pub name : Bytes
  pub home : Option Bytes
  pub permissions : Permissions
  pub quota_bytes : Option ℕ

pub record UserConfig : Type 0 where
  pub anonymous : Option UserSpec
  pub users : List UserSpec

-- the refusals of `UserDirectoryError`, by what their texts say
pub data ConfigError : Type 0 where
  io : IoError → ConfigError
  zero_quota parent_in_home duplicate_name : Bytes → ConfigError
  home_escapes : Bytes → FilePath → ConfigError
  homes_overlap : (name : Bytes) → (home : FilePath) → Bytes × FilePath → ConfigError

-- The calls of the file system, on its state: those on a path as it is written, and those on a
-- canonical path.
pub record Disk (S : Type 0) : Type 0 where
  pub exists : Bytes → S → Bool
  pub create_dir_all : Bytes → S → Result IoError (Unit {0}) × S
  pub canonicalize : Bytes → S → Result IoError FilePath
  pub remove_dir : Bytes → S → S
  pub listing : FilePath → S → Listing
  pub remove_file : FilePath → S → S
  pub now : S → ℕ

-- `Path::join`
unfoldable pub join : Bytes → Bytes → Bytes
unfolding is_absolute
join base path =
    if is_absolute path
    then path
    else elim (ends_in_slash base) [ true ↦ base ++ path | false ↦ base ++ b'/' ∷ path ]
  where
    ends_in_slash : Bytes → Bool
    ends_in_slash [] = true
    ends_in_slash (c ∷ []) = c == b'/'
    ends_in_slash (c ∷ d ∷ s) = ends_in_slash (d ∷ s)

abbrev is_parent : Component → Bool
is_parent parent_dir = true
is_parent _ = false

unfoldable pub climbs : List Component → Bool
climbs [] = false
climbs (c ∷ cs) = is_parent c || climbs cs

abbrev has_zero_quota : Option ℕ → Bool
has_zero_quota none = false
has_zero_quota (some n) = n == 0

unfoldable pub validate_users : List UserSpec → Option Bytes
validate_users [] = none
validate_users (spec ∷ specs) =
    if has_zero_quota spec.quota_bytes then some spec.name else validate_users specs

abbrev with_anonymous : UserConfig → List UserSpec
with_anonymous cfg = elim cfg.anonymous [ none ↦ cfg.users | some spec ↦ cfg.users ++ spec ∷ [] ]

-- `validate_specs`
unfoldable pub validate_specs : UserConfig → Result ConfigError (Unit {0})
unfolding validate_users
validate_specs cfg = elim (validate_users (with_anonymous cfg)) [
  | none ↦ ok tt
  | some name ↦ err (zero_quota name)
]

-- `check_home_overlap`: `find` gives the first that overlaps.
unfoldable pub check_home_overlap : FilePath → List (Bytes × FilePath) → Option (Bytes × FilePath)
unfolding starts_with
check_home_overlap home [] = none
check_home_overlap home ((name, other) ∷ resolved) =
    if starts_with other home || starts_with home other
    then some (name, other)
    else check_home_overlap home resolved

module _ {S : Type 0} (d : Disk S) where
  -- The path of a home as it is written
  unfoldable pub raw_home : Bytes → UserSpec → Result ConfigError Bytes
  unfolding join climbs components is_absolute
  raw_home global_root spec = elim spec.home [
    | none ↦ ok (join global_root spec.name)
    | some h ↦
        if is_absolute h
        then ok h
        else if climbs (components h)
        then err (parent_in_home spec.name)
        else ok (join global_root h)
  ]

  -- After `create_dir_all`: the canonical form must lie in the root.
  abbrev check_home :
      FilePath
      → Bytes
      → Bytes
      → Bool
      → Result IoError FilePath
      → S
      → Result ConfigError FilePath × S
  check_home canonical_root name raw pre_existed (err e) s = (err (io e), s)
  check_home canonical_root name raw pre_existed (ok canonical) s =
      if not (starts_with canonical_root canonical)
      then (err (home_escapes name canonical), if not pre_existed then d.remove_dir raw s else s)
      else (ok canonical, s)

  abbrev create_home :
      FilePath
      → Bytes
      → Bytes
      → Bool
      → Result IoError (Unit {0}) × S
      → Result ConfigError FilePath × S
  create_home canonical_root name raw pre_existed (err e, s) = (err (io e), s)
  create_home canonical_root name raw pre_existed (ok u, s) =
      check_home canonical_root name raw pre_existed (d.canonicalize raw s) s

  abbrev resolve_raw :
      FilePath → Bytes → Result ConfigError Bytes → S → Result ConfigError FilePath × S
  resolve_raw canonical_root name (err e) s = (err e, s)
  resolve_raw canonical_root name (ok raw) s =
      create_home canonical_root name raw (d.exists raw s) (d.create_dir_all raw s)

  -- `resolve_home`
  unfoldable pub resolve_home : Bytes → FilePath → UserSpec → S → Result ConfigError FilePath × S
  unfolding raw_home starts_with
  resolve_home global_root canonical_root spec s =
      resolve_raw canonical_root spec.name (raw_home global_root spec) s

  unfoldable pub remove_files : List FilePath → S → S
  remove_files [] s = s
  remove_files (p ∷ removed) s = d.remove_file p (remove_files removed s)

  unfoldable pub sweep : FilePath → S → S
  unfolding remove_files sweep_stale_partials
  sweep home s = remove_files (sweep_stale_partials (d.now s) home (d.listing home s)) s

  -- `build_user`
  unfoldable pub build_user : UserSpec → FilePath → S → User × S
  unfolding sweep walk_size
  build_user spec home s =
      let swept = sweep home s in
      (
        record {
          name = spec.name;
          home = home;
          permissions = spec.permissions;
          quota_bytes = spec.quota_bytes;
          used_bytes = (walk_size home (d.listing home swept)).0;
          in_flight_bytes = 0;
          active_uploads = [];
        },
        swept,
      )

  -- A resolved home that must not overlap with the earlier ones.
  abbrev keep_apart :
      Bytes
      → List (Bytes × FilePath)
      → Result ConfigError FilePath × S
      → Result ConfigError FilePath × S
  keep_apart name resolved (err e, s) = (err e, s)
  keep_apart name resolved (ok home, s) = elim (check_home_overlap home resolved) [
    | none ↦ (ok home, s)
    | some other ↦ (err (homes_overlap name home other), s)
  ]

  -- one round of the first loop of `from_config`
  unfoldable pub resolve_apart :
      Bytes → FilePath → UserSpec → List (Bytes × FilePath) → S → Result ConfigError FilePath × S
  unfolding resolve_home check_home_overlap
  resolve_apart global_root canonical_root spec resolved s =
      keep_apart spec.name resolved (resolve_home global_root canonical_root spec s)

  -- The first loop; the latest home stands at the end.
  unfoldable pub resolve_all :
      Bytes
      → FilePath
      → List UserSpec
      → List (Bytes × FilePath)
      → S
      → Result ConfigError (List (Bytes × FilePath)) × S
  unfolding resolve_apart
  resolve_all global_root canonical_root [] resolved s = (ok resolved, s)
  resolve_all global_root canonical_root (spec ∷ specs) resolved s =
      let (r, s') = resolve_apart global_root canonical_root spec resolved s in
      elim r [
        | err e ↦ (err e, s')
        | ok home ↦
            resolve_all global_root canonical_root specs (resolved ++ (spec.name, home) ∷ []) s'
      ]

  -- The second loop, over `zip` of the specs and their homes
  unfoldable pub build_all :
      List UserSpec
      → List (Bytes × FilePath)
      → Assoc Bytes User
      → S
      → Result ConfigError (Assoc Bytes User) × S
  unfolding build_user lookup insert
  build_all [] resolved by_name s = (ok by_name, s)
  build_all (spec ∷ specs) [] by_name s = (ok by_name, s)
  build_all (spec ∷ specs) ((n, home) ∷ resolved) by_name s =
      let (user, s') = build_user spec home s in
      elim (lookup spec.name by_name) [
        | some _ ↦ (err (duplicate_name spec.name), s')
        | none ↦ build_all specs resolved (insert spec.name user by_name) s'
      ]

  abbrev built : UserSpec → Result ConfigError FilePath × S → Result ConfigError User × S
  built spec (err e, s) = (err e, s)
  built spec (ok home, s) = let (user, s') = build_user spec home s in (ok user, s')

  -- The implicit anonymous user reads the whole root, and has no quota.
  unfoldable pub build_anonymous :
      Bytes → FilePath → Option UserSpec → List (Bytes × FilePath) → S → Result ConfigError User × S
  unfolding resolve_apart build_user sweep walk_size read_only
  build_anonymous global_root canonical_root (some spec) resolved s =
      built spec (resolve_apart global_root canonical_root spec resolved s)
  build_anonymous global_root canonical_root none resolved s =
      let swept = sweep canonical_root s in
      (
        ok (record {
          name = bytes "anonymous";
          home = canonical_root;
          permissions = read_only;
          quota_bytes = none;
          used_bytes = (walk_size canonical_root (d.listing canonical_root swept)).0;
          in_flight_bytes = 0;
          active_uploads = [];
        }),
        swept,
      )

  abbrev with_users :
      Assoc Bytes User → Result ConfigError User × S → Result ConfigError UserDirectory × S
  with_users by_name (err e, s) = (err e, s)
  with_users by_name (ok anonymous, s) =
      (ok (record { by_name = by_name; anonymous = anonymous }), s)

  abbrev from_tables :
      Bytes
      → FilePath
      → UserConfig
      → List (Bytes × FilePath)
      → Result ConfigError (Assoc Bytes User) × S
      → Result ConfigError UserDirectory × S
  from_tables global_root canonical_root cfg resolved (err e, s) = (err e, s)
  from_tables global_root canonical_root cfg resolved (ok by_name, s) =
      with_users by_name (build_anonymous global_root canonical_root cfg.anonymous resolved s)

  abbrev from_resolved :
      Bytes
      → FilePath
      → UserConfig
      → Result ConfigError (List (Bytes × FilePath)) × S
      → Result ConfigError UserDirectory × S
  from_resolved global_root canonical_root cfg (err e, s) = (err e, s)
  from_resolved global_root canonical_root cfg (ok resolved, s) =
      from_tables global_root canonical_root cfg resolved (build_all cfg.users resolved [] s)

  abbrev from_valid :
      Bytes
      → FilePath
      → UserConfig
      → Result ConfigError (Unit {0})
      → S
      → Result ConfigError UserDirectory × S
  from_valid global_root canonical_root cfg (err e) s = (err e, s)
  from_valid global_root canonical_root cfg (ok u) s =
      from_resolved global_root canonical_root cfg
        (resolve_all global_root canonical_root cfg.users [] s)

  abbrev from_root :
      Bytes → UserConfig → Result IoError FilePath → S → Result ConfigError UserDirectory × S
  from_root global_root cfg (err e) s = (err (io e), s)
  from_root global_root cfg (ok canonical_root) s =
      from_valid global_root canonical_root cfg (validate_specs cfg) s

  -- `UserDirectory::from_config`
  unfoldable pub from_config : Bytes → UserConfig → S → Result ConfigError UserDirectory × S
  unfolding validate_specs resolve_all build_all build_anonymous
  from_config global_root cfg s = from_root global_root cfg (d.canonicalize global_root s) s

-- `UserDirectory::default_anonymous` after its sweep
unfoldable pub default_anonymous : FilePath → UserDirectory
unfolding read_only
default_anonymous global_root = record {
  by_name = [];
  anonymous = record {
    name = bytes "anonymous";
    home = global_root;
    permissions = read_only;
    quota_bytes = none;
    used_bytes = 0;
    in_flight_bytes = 0;
    active_uploads = [];
  };
}
