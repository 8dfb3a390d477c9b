-- ===== src/Protocol/Validate/Caps.antt =====
-- `validate_request` and `validate_response` of crates/qftp-common/src/protocol.rs against the
-- list of the fields that a message carries.
use qftp.Prelude.{
  ℕ, ◌≤◌, ◌≡◌, ◌↔◌, arith, Bytes, Option, none, some, List, [], ◌∷◌, length, All, ok,
}
use qftp.Protocol.Messages.{
  Request, ls, cd, get, put, mkdir, rmdir, rm, rename, chmod, stat, Response, ok_response,
  err_response, dir_listing, path_response, DirEntry,
}
use qftp.Protocol.Validate.{
  max_path_len, max_error_message_len, max_dir_entries, max_checksum_len, check_path, check_entries,
  validate_request, validate_response,
}

abbrev option_list {ℓ} : {A : Type ℓ} → Option A → List A
option_list none = []
option_list (some a) = a ∷ []

-- Every path-like text of a request, the cursor of a listing included.
abbrev pub request_texts : Request → List Bytes
request_texts (ls path cursor) = path ∷ option_list cursor
request_texts (put f) = f.path ∷ []
request_texts (cd path) = path ∷ []
request_texts (get f) = f.path ∷ []
request_texts (mkdir path) = path ∷ []
request_texts (rmdir path) = path ∷ []
request_texts (rm path) = path ∷ []
request_texts (chmod path mode) = path ∷ []
request_texts (stat path) = path ∷ []
request_texts (rename from_path to_path) = from_path ∷ to_path ∷ []
request_texts _ = []

abbrev pub request_checksums : Request → List Bytes
request_checksums (put f) = option_list f.checksum
request_checksums _ = []

abbrev pub IsWithin : ℕ → List Bytes → Type 0
IsWithin cap = All (λ t. length t ≤ cap)

-- A decoded request passes exactly if each of its paths and its cursor has at most 4096 bytes and
-- its checksum has at most 64.
pub validate_request-ok :
    (r : Request)
    → (validate_request r ≡ ok tt)
      ↔ (IsWithin max_path_len (request_texts r) × IsWithin max_checksum_len (request_checksums r))
unfolding validate_request
validate_request-ok (ls path none) = ground arith
validate_request-ok (ls path (some c)) = ground arith
validate_request-ok (put f) = ground arith
validate_request-ok _ = ground arith

abbrev pub entry_names : List DirEntry → List Bytes
entry_names [] = []
entry_names (e ∷ es) = e.name ∷ entry_names es

check_entries-ok :
    (es : List DirEntry) → (check_entries es ≡ ok tt) ↔ IsWithin max_path_len (entry_names es)
unfolding check_entries check_path
check_entries-ok [] = ground arith
check_entries-ok (e ∷ es) = ground (arith, check_entries-ok es)

-- What a response carries that is bounded: the message of an error, the number of entries of a
-- listing and their names, and a path. The `next_cursor` of a listing is not among them.
abbrev pub IsBounded : Response → Type 0
IsBounded (err_response e) = length e.message ≤ max_error_message_len
IsBounded (dir_listing entries next_cursor) =
    (length entries ≤ max_dir_entries) × IsWithin max_path_len (entry_names entries)
IsBounded (path_response p) = length p ≤ max_path_len
IsBounded _ = Unit {0}

-- A decoded response passes exactly if its error message has at most 1024 bytes, its listing at
-- most 100000 entries with names of at most 4096 bytes each, and its path at most 4096 bytes.
pub validate_response-ok : (r : Response) → (validate_response r ≡ ok tt) ↔ IsBounded r
unfolding validate_response check_path
validate_response-ok (dir_listing entries next_cursor) = ground (arith, check_entries-ok entries)
validate_response-ok ok_response = ground arith
validate_response-ok _ = ground arith
