-- ===== src/Users/Identity.antt =====
-- From a client certificate to a user: `extract_identity_candidates` and `resolve_identity` of
-- crates/qftp-protocol/src/user.rs. The parsing of the certificate is a library's.
pub mod Unique
pub mod Candidates
use qftp.Prelude.{
  ℕ, Bytes, Bool, true, false, not, ◌&&◌, ◌||◌, Option, none, some, List, [], ◌∷◌, ◌++◌, map, ◌==◌,
  nat_eq, list_eq, ltb, any, if◌then◌else◌,
}
use qftp.Users.{User, UserDirectory, ArcUser, lookup_strict, trim, user_at}

-- `GeneralName` of the certificate library, as far as the program tells its cases apart
pub data GeneralName : Type 0 where
  dns_name rfc822_name uri : Bytes → GeneralName
  other_name : GeneralName

-- A certificate that was parsed: the names of its SAN extension, if it has a valid one, and its
-- common names, `none` for one that is no text.
pub record Certificate : Type 0 where
  pub san : Option (List GeneralName)
  pub common_names : List (Option Bytes)

-- no ASCII control characters
abbrev pub is_safe : Bytes → Bool
is_safe s = not (any (λ b. ltb b 0x20 || b == 0x7F) s)

abbrev pub is_empty : Bytes → Bool
is_empty [] = true
is_empty (c ∷ s) = false

-- A name goes into its bucket trimmed, if anything is left and it is safe.
unfoldable pub keep : Bytes → List Bytes → List Bytes
unfolding trim
keep s bucket =
    if not (is_empty (trim s)) && is_safe (trim s) then bucket ++ trim s ∷ [] else bucket

pub record Buckets : Type 0 where
  pub dns : List Bytes
  pub email : List Bytes
  pub uris : List Bytes

unfoldable pub bucket_name : GeneralName → Buckets → Buckets
unfolding keep
bucket_name (dns_name s) b = record b { dns = keep s b.dns }
bucket_name (rfc822_name s) b = record b { email = keep s b.email }
bucket_name (uri s) b = record b { uris = keep s b.uris }
bucket_name other_name b = b

unfoldable pub bucket_names : List GeneralName → Buckets → Buckets
unfolding bucket_name
bucket_names [] b = b
bucket_names (gn ∷ gns) b = bucket_names gns (bucket_name gn b)

unfoldable pub keep_common_names : List (Option Bytes) → List Bytes → List Bytes
unfolding keep
keep_common_names [] out = out
keep_common_names (none ∷ attrs) out = keep_common_names attrs out
keep_common_names (some s ∷ attrs) out = keep_common_names attrs (keep s out)

abbrev pub san_candidates : Option (List GeneralName) → List Bytes
san_candidates none = []
san_candidates (some names) =
    let b = bucket_names names (record { dns = []; email = []; uris = [] }) in
    b.dns ++ (b.email ++ b.uris)

-- `extract_identity_candidates`, on what parsing the certificate gave
unfoldable pub extract_identity_candidates : Option Certificate → List Bytes
unfolding bucket_names keep_common_names
extract_identity_candidates none = []
extract_identity_candidates (some cert) =
    keep_common_names cert.common_names (san_candidates cert.san)

-- `IdentityResolution`
pub data IdentityResolution : Type 0 where
  matched : (id : Bytes) → (user : ArcUser) → IdentityResolution
  no_match : IdentityResolution
  ambiguous : List Bytes → IdentityResolution

-- `u.name` through the `Arc`
unfoldable pub name_at : UserDirectory → ArcUser → Bytes
unfolding user_at
name_at dir u = elim (user_at dir u) [ none ↦ [] | some user ↦ user.name ]

abbrev pub Matches : Type 0
Matches = List (Bytes × ArcUser)

unfoldable pub is_listed : UserDirectory → ArcUser → Matches → Bool
unfolding name_at
is_listed dir user [] = false
is_listed dir user ((id, u) ∷ ms) = name_at dir u == name_at dir user || is_listed dir user ms

abbrev add_match : UserDirectory → Bytes → Option ArcUser → Matches → Matches
add_match dir id none ms = ms
add_match dir id (some user) ms = if not (is_listed dir user ms) then ms ++ (id, user) ∷ [] else ms

-- the loop of `resolve_identity`
unfoldable pub match_all : UserDirectory → List Bytes → Matches → Matches
unfolding lookup_strict is_listed
match_all dir [] ms = ms
match_all dir (id ∷ ids) ms = match_all dir ids (add_match dir id (lookup_strict dir id) ms)

abbrev resolution : UserDirectory → Matches → IdentityResolution
resolution dir [] = no_match
resolution dir ((id, user) ∷ []) = matched id user
resolution dir (m ∷ n ∷ ms) =
    ambiguous (map (λ (x : Bytes × ArcUser). name_at dir x.1) (m ∷ n ∷ ms))

unfoldable pub resolve_identity : List Bytes → UserDirectory → IdentityResolution
unfolding match_all name_at
resolve_identity candidates dir = resolution dir (match_all dir candidates [])
