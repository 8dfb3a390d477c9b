-- ===== src/Prelude/Texts.antt =====
-- Rust's `str` and byte slices as lists of bytes, with the `str` methods that the program calls.
use Prim.Native.Nat.{ℕ, ◌+◌, ◌-◌, ◌<◌}
use Prim.Native.Char.{code}
use Prim.Native.String.{String}
use mathlib.Core.Bool.{Bool, ◌&&◌}
use mathlib.Core.Option.{Option, none, some}
use mathlib.Core.List.{List, [], ◌∷◌, map}
use qftp.Prelude.Tests.{leb, if◌then◌else◌}
use qftp.Prelude.Lists.{length, drop}
use qftp.Prelude.Equality.{◌==◌, nat_eq, list_eq}

abbrev pub Bytes : Type 0
Bytes = List ℕ

abbrev pub IsByte : ℕ → Type 0
IsByte b = b < 256

-- The bytes of an ASCII literal.
abbrev pub bytes : String → Bytes
bytes String.[] = []
bytes (String.◌∷◌ c s) = code c ∷ bytes s

-- `u8::to_ascii_lowercase`, `str::to_ascii_lowercase`
unfoldable pub ascii_lower : ℕ → ℕ
ascii_lower c = if leb b'A' c && leb c b'Z' then c + 32 else c

abbrev pub to_ascii_lowercase : Bytes → Bytes
to_ascii_lowercase = map ascii_lower

unfoldable pub is_ascii_digit : ℕ → Bool
is_ascii_digit c = leb b'0' c && leb c b'9'

-- `slice::starts_with`, and `strip_prefix`
unfoldable pub strip_prefix : Bytes → Bytes → Option Bytes
strip_prefix [] s = some s
strip_prefix (p ∷ ps) [] = none
strip_prefix (p ∷ ps) (c ∷ s) = if p == c then strip_prefix ps s else none

-- `slice::ends_with`
unfoldable pub ends_with : Bytes → Bytes → Bool
ends_with suffix s = leb (length suffix) (length s) && drop (length s - length suffix) s == suffix

-- `split(sep)` on a single byte: always one piece more than there are separators
unfoldable pub split_on : ℕ → Bytes → List Bytes
split_on sep [] = [] ∷ []
split_on sep (c ∷ s) = add_piece (split_on sep s)
  where
    add_piece : List Bytes → List Bytes
    add_piece [] = (c ∷ []) ∷ []
    add_piece (p ∷ ps) = if c == sep then [] ∷ p ∷ ps else (c ∷ p) ∷ ps
