-- ===== src/Server/Retry/Window.antt =====
-- Retry tokens of crates/qftp-server/src/retry.rs from `mint_at` to `verify_at`.
use qftp.Prelude.{
  ℕ, ◌+◌, ◌-◌, ◌^◌, ◌≤◌, ◌<◌, Bytes, true, false, not, none, some, ◌∷◌, ◌++◌, length, take, drop,
  ltb, nat_eq, list_eq, beq_refl, if◌then◌else◌, to_be_bytes, from_be_bytes, ◌≡◌, ◌↔◌, refl, sym,
  ap, ◌∙◌, arith, length-append, length-to_be_bytes, from_be_bytes-to_be_bytes, take-length_append,
  drop-length_append,
}
use qftp.Server.Retry.{
  SocketAddr, magic, octets_of, ip_len_of, is_dcid_len, payload_of, mint_at, verify_dcid,
  verify_port, verify_peer, verify_age, verify_payload, verify_tag, verify_at,
}
use qftp.Server.Retry.SameBytes.{constant_time_eq_iff}

-- a socket address as Rust has it: four or sixteen octets, and a port of 16 bits
abbrev pub IsSocketAddr : SocketAddr → Type 0
IsSocketAddr peer = (length (octets_of peer.ip) ≡ ip_len_of peer.ip) × (peer.port < 2 ^ 16)

verify_dcid-own :
    (odcid : Bytes)
    → is_dcid_len (length odcid) ≡ true
    → verify_dcid (length odcid ∷ odcid) ≡ some odcid
verify_dcid-own odcid h = grind (arith)

verify_port-own :
    (port : ℕ) (cursor : Bytes)
    → port < 2 ^ 16
    → verify_port port (to_be_bytes 2 port ++ cursor) ≡ verify_dcid cursor
verify_port-own port cursor h =
    let p = to_be_bytes 2 port in
    ground (
      arith,
      take-length_append 2 p cursor (length-to_be_bytes 2 port),
      drop-length_append 2 p cursor (length-to_be_bytes 2 port),
      from_be_bytes-to_be_bytes 2 port (omega arith),
    )

verify_peer-own :
    (peer : SocketAddr) (cursor : Bytes)
    → IsSocketAddr peer
    → 3 ≤ length cursor
    → verify_peer peer (octets_of peer.ip ++ cursor) ≡ verify_port peer.port cursor
verify_peer-own peer cursor a h =
    let o = octets_of peer.ip in
    let n = ip_len_of peer.ip in
    ground (
      arith,
      length-append o cursor,
      take-length_append n o cursor a.0,
      drop-length_append n o cursor a.0,
      beq_refl o,
    )

-- the two halves of the test of the mint time
abbrev pub InWindow : ℕ → ℕ → Type 0
InWindow minted now = (now ≤ minted + 60) × (minted ≤ now + 60)

verify_age-own :
    (now minted : ℕ) (peer : SocketAddr) (cursor odcid : Bytes)
    → verify_peer peer cursor ≡ some odcid
    → (verify_age now minted peer cursor ≡ some odcid) ↔ InWindow minted now
verify_age-own now minted peer cursor odcid h =
    (λ e. (ground arith, ground arith), λ w. ground (arith, w))

verify_payload-own :
    (peer : SocketAddr) (odcid : Bytes) (minted now : ℕ)
    → minted < 2 ^ 64
    → verify_payload peer (payload_of peer odcid minted) now
      ≡ verify_age now minted peer
          (octets_of peer.ip ++ (to_be_bytes 2 peer.port ++ length odcid ∷ odcid))
verify_payload-own peer odcid minted now h =
    let t = to_be_bytes 8 minted in
    let rest = octets_of peer.ip ++ (to_be_bytes 2 peer.port ++ length odcid ∷ odcid) in
    ap (λ x. verify_age now (from_be_bytes x) peer (drop 8 (t ++ rest)))
      (take-length_append 8 t rest (length-to_be_bytes 8 minted))
    ∙ (ap (λ n. verify_age now n peer (drop 8 (t ++ rest)))
          (from_be_bytes-to_be_bytes 8 minted (omega arith))
        ∙ ap (verify_age now minted peer)
            (drop-length_append 8 t rest (length-to_be_bytes 8 minted)))

verify_payload-iff_window :
    (peer : SocketAddr) (odcid : Bytes) (minted now : ℕ)
    → IsSocketAddr peer
    → minted < 2 ^ 64
    → is_dcid_len (length odcid) ≡ true
    → (verify_payload peer (payload_of peer odcid minted) now ≡ some odcid) ↔ InWindow minted now
verify_payload-iff_window peer odcid minted now a h d =
    let cursor = to_be_bytes 2 peer.port ++ length odcid ∷ odcid in
    let own =
      verify_peer-own peer cursor a (
        omega (
          arith,
          length-append (to_be_bytes 2 peer.port) (length odcid ∷ odcid),
          length-to_be_bytes 2 peer.port,
        ))
      ∙ (verify_port-own peer.port (length odcid ∷ odcid) a.1 ∙ verify_dcid-own odcid d) in
    let w = verify_age-own now minted peer (octets_of peer.ip ++ cursor) odcid own in
    let e = verify_payload-own peer odcid minted now h in (λ p. w.0 (sym e ∙ p), λ p. e ∙ w.1 p)

-- `verify_at` on a payload and a tag for it
verify_at-signed :
    (sign : Bytes → Bytes) (peer : SocketAddr) (rest tag : Bytes) (now : ℕ)
    → length tag ≡ 16
    → 11 ≤ length rest
    → tag ≡ sign (magic ++ rest)
    → verify_at sign peer ((magic ++ rest) ++ tag) now ≡ verify_payload peer (magic ++ rest) now
unfolding verify_at verify_tag
verify_at-signed sign peer rest tag now n m e =
    let payload = magic ++ rest in
    let t = length (payload ++ tag) - 16 in
    let whole : t ≡ length payload = omega (arith, length-append payload tag) in
    let long : ltb (length (payload ++ tag)) 32 ≡ false =
      ground (arith, length-append payload tag) in
    ap
      (λ b.
        if b
        then none
        else verify_tag sign peer now (take t (payload ++ tag)) (drop t (payload ++ tag)))
      long
    ∙ (ap (λ k. verify_tag sign peer now (take k (payload ++ tag)) (drop k (payload ++ tag))) whole
        ∙ (ap (λ p. verify_tag sign peer now p (drop (length payload) (payload ++ tag)))
              (take-length_append (length payload) payload tag refl)
            ∙ (ap (verify_tag sign peer now payload)
                  (drop-length_append (length payload) payload tag refl)
                ∙ ap (λ b. if not b then none else verify_payload peer payload now)
                    ((constant_time_eq_iff tag (sign payload)).1 e))))

mint_at-shape :
    (sign : Bytes → Bytes) (peer : SocketAddr) (odcid : Bytes) (minted : ℕ) {token : Bytes}
    → mint_at sign peer odcid minted ≡ some token
    → (is_dcid_len (length odcid) ≡ true)
      × (token ≡ payload_of peer odcid minted ++ sign (payload_of peer odcid minted))
unfolding mint_at
mint_at-shape sign peer odcid minted e = (ground (arith, e), ground (arith, e))

-- the length of what stands behind the magic bytes
length-rest :
    (peer : SocketAddr) (odcid : Bytes) (minted : ℕ)
    → length (
        to_be_bytes 8 minted
        ++ (octets_of peer.ip ++ (to_be_bytes 2 peer.port ++ length odcid ∷ odcid)))
      ≡ 11 + length (octets_of peer.ip) + length odcid
length-rest peer odcid minted =
    let dcid = length odcid ∷ odcid in
    let port = to_be_bytes 2 peer.port ++ dcid in
    omega (
      arith,
      length-append (to_be_bytes 8 minted) (octets_of peer.ip ++ port),
      length-append (octets_of peer.ip) port,
      length-append (to_be_bytes 2 peer.port) dcid,
      length-to_be_bytes 8 minted,
      length-to_be_bytes 2 peer.port,
    )

-- A token that was minted for an address gives its connection id back to that address exactly
-- within 60 seconds of the mint time, before or after.
pub verify_at-mint_at :
    (sign : Bytes → Bytes) (peer : SocketAddr) (odcid : Bytes) (minted now : ℕ) {token : Bytes}
    → ((bs : Bytes) → length (sign bs) ≡ 16)
    → IsSocketAddr peer
    → minted < 2 ^ 64
    → mint_at sign peer odcid minted ≡ some token
    → (verify_at sign peer token now ≡ some odcid) ↔ InWindow minted now
verify_at-mint_at sign peer odcid minted now s a h e =
    let shape = mint_at-shape sign peer odcid minted e in
    let payload = payload_of peer odcid minted in
    let rest =
      to_be_bytes 8 minted
      ++ (octets_of peer.ip ++ (to_be_bytes 2 peer.port ++ length odcid ∷ odcid)) in
    let w = verify_payload-iff_window peer odcid minted now a h shape.0 in
    let signed =
      ap (λ t. verify_at sign peer t now) shape.1
      ∙ verify_at-signed sign peer rest (sign payload) now (s payload)
          (omega (arith, length-rest peer odcid minted)) refl in
    (λ v. w.0 (sym signed ∙ v), λ v. signed ∙ w.1 v)
