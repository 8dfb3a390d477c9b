-- ===== src/Server/Retry/Families.antt =====
-- The payload of retry tokens of crates/qftp-server/src/retry.rs over the two families of addresses.
use mathlib.Core.List.{append_assoc}
use qftp.Prelude.{
  ℕ, Bytes, IsByte, All, none, some, ◌∷◌, ◌++◌, length, ◌≡◌, sym, ap, ◌∙◌, arith, not, to_be_bytes,
  from_be_bytes, length-append, to_be_bytes-from_be_bytes, if◌then◌else◌,
}
use qftp.Limits.{v4, v6}
use qftp.Server.Retry.{SocketAddr, magic, is_dcid_len, payload_of, mint_at}

-- A token for an IPv4 address and a connection id of 20 bytes that holds the byte 8 at place 11 is
-- also the token, of the same time, for an IPv6 address that begins with the IPv4 address and its
-- port, with the last 8 bytes as the connection id.
pub mint_at-family :
    (sign : Bytes → Bytes) (octets nine port eight : Bytes) (p now : ℕ)
    → length nine ≡ 9
    → length port ≡ 2
    → length eight ≡ 8
    → All IsByte port
    → mint_at sign (record { ip = v4 octets; port = p }) (nine ++ (port ++ 8 ∷ eight)) now
      ≡ mint_at sign
          (record { ip = v6 (octets ++ (to_be_bytes 2 p ++ 20 ∷ nine)); port = from_be_bytes port })
          eight
          now
unfolding mint_at
mint_at-family sign octets nine port eight p now n q e v =
    let long : length (nine ++ (port ++ 8 ∷ eight)) ≡ 20 =
      omega (arith, length-append nine (port ++ 8 ∷ eight), length-append port (8 ∷ eight)) in
    let four : SocketAddr = record { ip = v4 octets; port = p } in
    let six : SocketAddr = record {
      ip = v6 (octets ++ (to_be_bytes 2 p ++ 20 ∷ nine));
      port = from_be_bytes port;
    } in
    let front = to_be_bytes 2 p ++ 20 ∷ nine in
    let same : payload_of four (nine ++ (port ++ 8 ∷ eight)) now ≡ payload_of six eight now =
      ap (λ r. magic ++ (to_be_bytes 8 now ++ r))
        (ap (λ m. octets ++ (to_be_bytes 2 p ++ m ∷ (nine ++ (port ++ 8 ∷ eight)))) long
          ∙ (ap (λ r. octets ++ r)
                (sym (append_assoc (to_be_bytes 2 p) (20 ∷ nine) (port ++ 8 ∷ eight)))
              ∙ (sym (append_assoc octets front (port ++ 8 ∷ eight))
                  ∙ (ap (λ r. (octets ++ front) ++ (r ++ 8 ∷ eight))
                        (sym (to_be_bytes-from_be_bytes 2 port q v))
                      ∙ ap
                          (λ m.
                            (octets ++ front) ++ (to_be_bytes 2 (from_be_bytes port) ++ m ∷ eight))
                          (sym e))))) in
    ap
      (λ m.
        if not (is_dcid_len m)
        then none
        else some (
            payload_of four (nine ++ (port ++ 8 ∷ eight)) now
            ++ sign (payload_of four (nine ++ (port ++ 8 ∷ eight)) now)))
      long
    ∙ (ap (λ r. some (r ++ sign r)) same
        ∙ ap
            (λ m.
              if not (is_dcid_len m)
              then none
              else some (payload_of six eight now ++ sign (payload_of six eight now)))
            (sym e))
