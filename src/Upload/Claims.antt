-- ===== src/Upload/Claims.antt =====
-- The claims on upload destinations, and their temp files: `UploadClaim` and `temp_path_for` of
-- crates/qftp-protocol/src/stream.rs, and `is_upload_temp` of crates/qftp-protocol/src/handler.rs.
pub mod Exclusive
use qftp.Prelude.{
  ℕ, Bytes, bytes, Bool, true, false, Option, none, some, List, [], ◌∷◌, ◌++◌, ◌==◌, nat_eq,
  list_eq, contains, ends_with, if◌then◌else◌,
}
use qftp.Paths.{FilePath, parent, file_name, push, components, normal, Component}

abbrev pub partial_suffix : Bytes
partial_suffix = bytes ".qftp.partial"

-- A path of an upload has a name; of one that has none the suffix would be the whole name.
unfoldable pub temp_path_for : FilePath → FilePath
unfolding parent file_name
temp_path_for final_path =
    push (above (parent final_path)) (name_of (file_name final_path) ++ partial_suffix)
  where
    above : Option FilePath → FilePath
    above none = []
    above (some p) = p

    name_of : Option Bytes → Bytes
    name_of none = []
    name_of (some n) = n

-- `Path::file_name` of a text: its last component, if that is a name
unfoldable pub last_name : List Component → Option Bytes
last_name [] = none
last_name (normal n ∷ []) = some n
last_name (_ ∷ c ∷ cs) = last_name (c ∷ cs)
last_name (_ ∷ []) = none

unfoldable pub is_upload_temp : Bytes → Bool
unfolding components last_name ends_with
is_upload_temp path = elim (last_name (components path)) [
  | none ↦ false
  | some n ↦ ends_with partial_suffix n
]

-- `HashSet::insert` on the user's `active_uploads`: whether the claim was granted, and the set
unfoldable pub try_claim : FilePath → List FilePath → Bool × List FilePath
try_claim path active = if contains active path then (false, active) else (true, path ∷ active)

-- `HashSet::remove`, in `Drop` of an `UploadClaim`
unfoldable pub drop_claim : FilePath → List FilePath → List FilePath
drop_claim path [] = []
drop_claim path (p ∷ active) =
    let rest = drop_claim path active in if p == path then rest else p ∷ rest
