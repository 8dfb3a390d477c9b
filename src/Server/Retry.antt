-- ===== src/Server/Retry.antt =====
-- Retry tokens: crates/qftp-server/src/retry.rs, over the keyed hash, with `constant_time_eq` of
-- crates/qftp-common/src/util.rs.
pub mod SameBytes
pub mod Window
pub mod Issued
pub mod Families
mod Tests
use Prim.Native.Nat.{bit_or, bit_xor}
use qftp.Prelude.{
  ℕ, zero, suc, ◌+◌, ◌-◌, ◌*◌, ◌/◌, ◌%◌, Bytes, bytes, Bool, true, false, not, ◌&&◌, Option, none,
  some, List, [], ◌∷◌, ◌++◌, length, take, drop, ltb, leb, ◌==◌, nat_eq, list_eq, if◌then◌else◌,
  to_be_bytes, from_be_bytes,
}
use qftp.Limits.{IpAddr, v4, v6}

-- `std::net::SocketAddr`
pub record SocketAddr : Type 0 where
  pub ip : IpAddr
  pub port : ℕ

abbrev pub magic : Bytes
magic = bytes "qftp1"

abbrev pub octets_of : IpAddr → Bytes
octets_of (v4 octets) = octets
octets_of (v6 octets) = octets

abbrev pub ip_len_of : IpAddr → ℕ
ip_len_of (v4 octets) = 4
ip_len_of (v6 octets) = 16

-- the loop of `constant_time_eq`, over the shorter of the two
unfoldable pub diff_from : ℕ → Bytes → Bytes → ℕ
diff_from diff [] b = diff
diff_from diff (x ∷ a) [] = diff
diff_from diff (x ∷ a) (y ∷ b) = diff_from (bit_or diff (bit_xor x y)) a b

unfoldable pub constant_time_eq : Bytes → Bytes → Bool
unfolding diff_from
constant_time_eq a b = if not (length a == length b) then false else diff_from 0 a b == 0

-- `(8..=20).contains(..)`
abbrev pub is_dcid_len : ℕ → Bool
is_dcid_len n = leb 8 n && leb n 20

abbrev pub payload_of : SocketAddr → Bytes → ℕ → Bytes
payload_of peer odcid now =
    magic
    ++ (to_be_bytes 8 now
        ++ (octets_of peer.ip ++ (to_be_bytes 2 peer.port ++ length odcid ∷ odcid)))

unfoldable pub mint_at : (Bytes → Bytes) → SocketAddr → Bytes → ℕ → Option Bytes
unfolding to_be_bytes
mint_at sign peer odcid now =
    if not (is_dcid_len (length odcid))
    then none
    else some (payload_of peer odcid now ++ sign (payload_of peer odcid now))

-- The length byte and the connection id behind it. There is a byte: the length was checked.
abbrev pub verify_dcid : Bytes → Option Bytes
verify_dcid [] = none
verify_dcid (dcid_len ∷ cursor) =
    if not (length cursor == dcid_len)
    then none
    else if not (is_dcid_len dcid_len)
    then none
    else some cursor

abbrev pub verify_port : ℕ → Bytes → Option Bytes
verify_port port cursor =
    if not (from_be_bytes (take 2 cursor) == port) then none else verify_dcid (drop 2 cursor)

abbrev pub verify_peer : SocketAddr → Bytes → Option Bytes
verify_peer peer cursor =
    if ltb (length cursor) (ip_len_of peer.ip + 3)
    then none
    else if not (take (ip_len_of peer.ip) cursor == octets_of peer.ip)
    then none
    else verify_port peer.port (drop (ip_len_of peer.ip) cursor)

-- the acceptance window around the mint time
abbrev pub verify_age : ℕ → ℕ → SocketAddr → Bytes → Option Bytes
verify_age now minted peer cursor =
    if ltb 60 (now - minted)
    then none
    else if ltb 60 (minted - now)
    then none
    else verify_peer peer cursor

abbrev pub verify_payload : SocketAddr → Bytes → ℕ → Option Bytes
verify_payload peer payload now =
    verify_age now (from_be_bytes (take 8 (drop 5 payload))) peer (drop 13 payload)

-- the payload and the tag of a token: the tag must be the hash of the payload
unfoldable pub verify_tag : (Bytes → Bytes) → SocketAddr → ℕ → Bytes → Bytes → Option Bytes
unfolding constant_time_eq from_be_bytes
verify_tag sign peer now payload tag =
    if not (constant_time_eq tag (sign payload)) then none else verify_payload peer payload now

unfoldable pub verify_at : (Bytes → Bytes) → SocketAddr → Bytes → ℕ → Option Bytes
unfolding verify_tag
verify_at sign peer token now =
    if ltb (length token) 32
    then none
    else if not (take 5 token == magic)
    then none
    else verify_tag sign peer now (take (length token - 16) token) (drop (length token - 16) token)
