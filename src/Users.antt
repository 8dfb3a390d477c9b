-- ===== src/Users.antt =====
-- The users of crates/qftp-protocol/src/user.rs: their records, and the directory that the server
-- looks them up in.
pub mod Walk
pub mod Config
pub mod Identity
mod Tests
use qftp.Prelude.{
  ℕ, Bytes, bytes, Bool, true, false, not, ◌&&◌, ◌||◌, Option, none, some, List, [], ◌∷◌, ◌++◌,
  ◌==◌, nat_eq, list_eq, leb, if◌then◌else◌, Assoc, lookup,
}
use mathlib.Core.List.{reverse}
use qftp.Paths.{FilePath}
use qftp.Access.{Permissions}

-- `User`; `active_uploads` is the set of the destinations in use.
pub record User : Type 0 where
  pub name : Bytes
  pub home : FilePath
  pub permissions : Permissions
  pub quota_bytes : Option ℕ
  pub used_bytes : ℕ
  pub in_flight_bytes : ℕ
  pub active_uploads : List FilePath

-- `UserDirectory`
pub record UserDirectory : Type 0 where
  pub by_name : Assoc Bytes User
  pub anonymous : User

-- Which allocation an `Arc<User>` points to: the one of the anonymous user, or the one under a name
-- in the table. `Arc::ptr_eq` compares these.
pub data ArcUser : Type 0 where
  anonymous_user : ArcUser
  named_user : Bytes → ArcUser

unfoldable pub ptr_eq : ArcUser → ArcUser → Bool
ptr_eq anonymous_user anonymous_user = true
ptr_eq anonymous_user (named_user m) = false
ptr_eq (named_user n) anonymous_user = false
ptr_eq (named_user n) (named_user m) = n == m

-- The encodings of the white space of Unicode in UTF-8: one byte, two bytes, three bytes.
abbrev is_space_1 : ℕ → Bool
is_space_1 c = leb 9 c && leb c 13 || c == 32

abbrev is_space_2 : ℕ → ℕ → Bool
is_space_2 c d = c == 0xC2 && (d == 0x85 || d == 0xA0)

abbrev is_space_3 : ℕ → ℕ → ℕ → Bool
is_space_3 c d e =
    c == 0xE1 && d == 0x9A && e == 0x80
    || c == 0xE2 && d == 0x80 && (leb 0x80 e && leb e 0x8A || e == 0xA8 || e == 0xA9 || e == 0xAF)
    || c == 0xE2 && d == 0x81 && e == 0x9F
    || c == 0xE3 && d == 0x80 && e == 0x80

-- `trim_start`
unfoldable pub trim_start : Bytes → Bytes
trim_start [] = []
trim_start (c ∷ []) = if is_space_1 c then [] else c ∷ []
trim_start (c ∷ d ∷ []) = elim (is_space_1 c) [
  | true ↦ trim_start (d ∷ [])
  | false ↦ if is_space_2 c d then [] else c ∷ d ∷ []
]
trim_start (c ∷ d ∷ e ∷ s) = elim (is_space_1 c) [
  | true ↦ trim_start (d ∷ e ∷ s)
  | false ↦ elim (is_space_2 c d) [
    | true ↦ trim_start (e ∷ s)
    | false ↦ elim (is_space_3 c d e) [ true ↦ trim_start s | false ↦ c ∷ d ∷ e ∷ s ]
  ]
]

-- `trim_start` on a text that is read backwards
unfoldable pub trim_back : Bytes → Bytes
trim_back [] = []
trim_back (c ∷ []) = if is_space_1 c then [] else c ∷ []
trim_back (c ∷ d ∷ []) = elim (is_space_1 c) [
  | true ↦ trim_back (d ∷ [])
  | false ↦ if is_space_2 d c then [] else c ∷ d ∷ []
]
trim_back (c ∷ d ∷ e ∷ s) = elim (is_space_1 c) [
  | true ↦ trim_back (d ∷ e ∷ s)
  | false ↦ elim (is_space_2 d c) [
    | true ↦ trim_back (e ∷ s)
    | false ↦ elim (is_space_3 e d c) [ true ↦ trim_back s | false ↦ c ∷ d ∷ e ∷ s ]
  ]
]

-- `str::trim`
unfoldable pub trim : Bytes → Bytes
unfolding trim_start trim_back
trim s = reverse (trim_back (reverse (trim_start s)))

-- `UserDirectory::lookup_strict`
unfoldable pub lookup_strict : UserDirectory → Bytes → Option ArcUser
unfolding trim lookup
lookup_strict dir cn = elim (lookup (trim cn) dir.by_name) [
  | none ↦ none
  | some u ↦ some (named_user (trim cn))
]

-- `UserDirectory::lookup`
unfoldable pub lookup_user : UserDirectory → Option Bytes → ArcUser
unfolding lookup_strict
lookup_user dir none = anonymous_user
lookup_user dir (some cn) = elim (lookup_strict dir cn) [ none ↦ anonymous_user | some u ↦ u ]

-- `UserDirectory::has_named_users`
unfoldable pub has_named_users : UserDirectory → Bool
has_named_users dir = elim dir.by_name [ [] ↦ false | _ ∷ _ ↦ true ]

-- the user that an `Arc` points to
unfoldable pub user_at : UserDirectory → ArcUser → Option User
unfolding lookup
user_at dir anonymous_user = some dir.anonymous
user_at dir (named_user n) = lookup n dir.by_name
