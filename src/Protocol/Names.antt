-- ===== src/Protocol/Names.antt =====
-- `safe_entry_name` of crates/qftp-common/src/protocol.rs: names that a peer sends and that are
-- joined to a local directory.
pub mod Laws
use qftp.Prelude.{
  ℕ, Bytes, bytes, Bool, true, false, not, [], ◌∷◌, ◌||◌, any, ◌==◌, nat_eq, list_eq, if◌then◌else◌,
}

abbrev pub slash : ℕ
slash = b'/'

abbrev pub backslash : ℕ
backslash = 0x5c

-- `name.contains(['/', '\\', '\0'])` tests every character against the three.
abbrev pub is_separator : ℕ → Bool
is_separator c = c == slash || c == backslash || c == 0

unfoldable pub safe_entry_name : Bytes → Bool
safe_entry_name name =
    if name == [] || name == bytes "." || name == bytes ".."
    then false
    else not (any is_separator name)
