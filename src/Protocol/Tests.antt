-- ===== src/Protocol/Tests.antt =====
-- Runs of the protocol's checks on small inputs.
use qftp.Prelude.{◌≤◌, ◌<◌, bytes, true, ◌≡◌, ◌↔◌, refl, ok}
use qftp.Protocol.Codes.{ErrorCode, client, error_code_to_u32, error_code_from_u32, class}
use qftp.Protocol.Codes.RoundTrip.{IsCanonical, class-client}
use qftp.Protocol.Messages.{Request, rename, path_response}
use qftp.Protocol.Names.{safe_entry_name}
use qftp.Protocol.Names.Laws.{IsOneEntry, safe_entry_name-IsOneEntry}
use qftp.Protocol.Validate.{validate_response}
use qftp.Protocol.Validate.Caps.{IsBounded, validate_response-ok}

canonical : IsCanonical (error_code_from_u32 404)
unfolding error_code_from_u32
canonical = tt

same_number : error_code_to_u32 (error_code_from_u32 404) ≡ error_code_to_u32 ErrorCode.not_found
unfolding error_code_from_u32
same_number = refl

class-client_example : (class ErrorCode.not_found ≡ client) ↔ (
    (400 ≤ error_code_to_u32 ErrorCode.not_found) × (error_code_to_u32 ErrorCode.not_found < 500))
class-client_example = class-client ErrorCode.not_found

safe_entry_name-IsOneEntry_example :
    (safe_entry_name (bytes "a.txt") ≡ true) ↔ IsOneEntry (bytes "a.txt")
safe_entry_name-IsOneEntry_example = safe_entry_name-IsOneEntry (bytes "a.txt")

abbrev move : Request
move = rename (bytes "a") (bytes "b")

validate_response-ok_example :
    (validate_response (path_response (bytes "/a")) ≡ ok tt)
    ↔ IsBounded (path_response (bytes "/a"))
validate_response-ok_example = validate_response-ok (path_response (bytes "/a"))
