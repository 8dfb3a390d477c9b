-- ===== src/Server/Retry/Issued.antt =====
-- The tokens that `verify_at` of crates/qftp-server/src/retry.rs accepts, against `mint_at`.
use qftp.Prelude.{
  ℕ, zero, suc, take-append_front, ◌+◌, ◌-◌, ◌≤◌, Bytes, IsByte, All, All-take, All-drop, true, not,
  none, some, [], ◌∷◌, ◌++◌, length, take, drop, ◌==◌, nat_eq, list_eq, list_beq_iff, if◌then◌else◌,
  to_be_bytes, from_be_bytes, ◌≡◌, refl, sym, ap, ◌∙◌, arith, length-take, length-drop,
  take-append-drop, to_be_bytes-from_be_bytes,
}
use qftp.Server.Retry.{
  SocketAddr, magic, octets_of, ip_len_of, is_dcid_len, payload_of, mint_at, verify_dcid,
  verify_port, verify_peer, verify_age, verify_payload, verify_tag, verify_at, constant_time_eq,
}
use qftp.Server.Retry.SameBytes.{constant_time_eq_iff}
use qftp.Server.Retry.Window.{InWindow}

-- What a step of the parser has cut off, and what it leaves.
verify_dcid-some :
    (cursor : Bytes) {odcid : Bytes}
    → verify_dcid cursor ≡ some odcid
    → (cursor ≡ length odcid ∷ odcid) × (is_dcid_len (length odcid) ≡ true)
verify_dcid-some [] h = absurd (cc)
verify_dcid-some (n ∷ cursor) h = ground (arith, h)

verify_port-some :
    (port : ℕ) (cursor : Bytes) {odcid : Bytes}
    → All IsByte cursor
    → 3 ≤ length cursor
    → verify_port port cursor ≡ some odcid
    → (cursor ≡ to_be_bytes 2 port ++ drop 2 cursor) × (verify_dcid (drop 2 cursor) ≡ some odcid)
verify_port-some port cursor v n h =
    let two : length (take 2 cursor) ≡ 2 = omega (arith, length-take 2 cursor) in
    let same : from_be_bytes (take 2 cursor) ≡ port = ground (arith, h) in
    (
      sym (take-append-drop 2 cursor)
          ∙ ap (λ p. p ++ drop 2 cursor)
              (sym (to_be_bytes-from_be_bytes 2 (take 2 cursor) two (All-take IsByte 2 cursor v))
                ∙ ap (to_be_bytes 2) same),
      ground (arith, h),
    )

verify_peer-some :
    (peer : SocketAddr) (cursor : Bytes) {odcid : Bytes}
    → verify_peer peer cursor ≡ some odcid
    → let rest = drop (ip_len_of peer.ip) cursor in
      (cursor ≡ octets_of peer.ip ++ rest)
      × (3 ≤ length rest)
      × (verify_port peer.port rest ≡ some odcid)
verify_peer-some peer cursor h =
    let n = ip_len_of peer.ip in
    let long : n + 3 ≤ length cursor = ground (arith, h) in
    let same : (take n cursor == octets_of peer.ip) ≡ true = ground (arith, h) in
    (
      sym (take-append-drop n cursor)
          ∙ ap (λ o. o ++ drop n cursor)
              ((list_beq_iff (take n cursor) (octets_of peer.ip)).0 same),
      omega (arith, long, length-drop n cursor),
      ground (arith, h),
    )

verify_age-some :
    (now minted : ℕ) (peer : SocketAddr) (cursor : Bytes) {odcid : Bytes}
    → verify_age now minted peer cursor ≡ some odcid
    → InWindow minted now × (verify_peer peer cursor ≡ some odcid)
verify_age-some now minted peer cursor h =
    ((ground (arith, h), ground (arith, h)), ground (arith, h))

verify_at-some :
    (sign : Bytes → Bytes) (peer : SocketAddr) (token : Bytes) (now : ℕ) {odcid : Bytes}
    → verify_at sign peer token now ≡ some odcid
    → let payload = take (length token - 16) token in
      (32 ≤ length token)
      × (take 5 token ≡ magic)
      × (token ≡ payload ++ sign payload)
      × (verify_payload peer payload now ≡ some odcid)
unfolding verify_at verify_tag
verify_at-some sign peer token now h =
    let n = length token - 16 in
    let same : constant_time_eq (drop n token) (sign (take n token)) ≡ true = ground (arith, h) in
    (
      ground (arith, h),
      (list_beq_iff (take 5 token) magic).0 (ground (arith, h)),
      sym (take-append-drop n token)
          ∙ ap (λ t. take n token ++ t)
              ((constant_time_eq_iff (drop n token) (sign (take n token))).0 same),
      ground (arith, h),
    )

drop-drop : (n m k : ℕ) (xs : Bytes) → n + m ≡ k → drop m (drop n xs) ≡ drop k xs
drop-drop zero m k xs h = ap (λ j. drop j xs) (omega (arith, h))
drop-drop (suc n) m zero xs h = absurd (omega (arith, h))
drop-drop (suc n) zero (suc k) [] h = refl
drop-drop (suc n) (suc m) (suc k) [] h = refl
drop-drop (suc n) m (suc k) (x ∷ xs) h = drop-drop n m k xs (omega (arith, h))

-- the magic bytes and the mint time before what `verify_peer` reads
stamped :
    (payload : Bytes)
    → All IsByte payload
    → 13 ≤ length payload
    → take 5 payload ≡ magic
    → payload
      ≡ magic ++ (to_be_bytes 8 (from_be_bytes (take 8 (drop 5 payload))) ++ drop 13 payload)
stamped payload v n h =
    let behind = drop 5 payload in
    let eight : length (take 8 behind) ≡ 8 =
      omega (arith, length-take 8 behind, length-drop 5 payload) in
    let time =
      to_be_bytes-from_be_bytes 8 (take 8 behind) eight
        (All-take IsByte 8 behind (All-drop IsByte 5 payload v)) in
    sym (take-append-drop 5 payload)
    ∙ (ap (λ p. p ++ behind) h
        ∙ ap (λ p. magic ++ p)
            (sym (take-append-drop 8 behind)
              ∙ (ap (λ p. p ++ drop 8 behind) (sym time)
                  ∙ ap (λ p. to_be_bytes 8 (from_be_bytes (take 8 behind)) ++ p)
                      (drop-drop 5 8 13 payload refl))))

-- what `verify_payload` accepts is the payload of a token for the peer
verify_payload-some :
    (peer : SocketAddr) (payload : Bytes) (now : ℕ) {odcid : Bytes}
    → All IsByte payload
    → 13 ≤ length payload
    → take 5 payload ≡ magic
    → verify_payload peer payload now ≡ some odcid
    → let minted = from_be_bytes (take 8 (drop 5 payload)) in
      InWindow minted now
      × (is_dcid_len (length odcid) ≡ true)
      × (payload ≡ payload_of peer odcid minted)
verify_payload-some peer payload now {odcid} v n m h =
    let minted = from_be_bytes (take 8 (drop 5 payload)) in
    let cursor = drop 13 payload in
    let k = ip_len_of peer.ip in
    let age = verify_age-some now minted peer cursor h in
    let ip = verify_peer-some peer cursor age.1 in
    let port =
      verify_port-some peer.port (drop k cursor)
        (All-drop IsByte k cursor (All-drop IsByte 13 payload v)) ip.1 ip.2 in
    let dcid = verify_dcid-some (drop 2 (drop k cursor)) port.1 in
    (
      age.0,
      dcid.1,
      stamped payload v n m
          ∙ ap (λ p. magic ++ (to_be_bytes 8 minted ++ p))
              (ip.0
                ∙ ap (λ p. octets_of peer.ip ++ p)
                    (port.0 ∙ ap (λ p. to_be_bytes 2 peer.port ++ p) dcid.0)),
    )

-- A token that verifies for a peer is the very token that is minted for that peer and the
-- connection id that comes out, at some time within 60 seconds, when it consists of bytes.
pub verify_at-IsIssued :
    (sign : Bytes → Bytes) (peer : SocketAddr) (token : Bytes) (now : ℕ) {odcid : Bytes}
    → All IsByte token
    → verify_at sign peer token now ≡ some odcid
    → (minted : ℕ) × InWindow minted now × (mint_at sign peer odcid minted ≡ some token)
unfolding mint_at
verify_at-IsIssued sign peer token now {odcid} v h =
    let n = length token - 16 in
    let payload = take n token in
    let minted = from_be_bytes (take 8 (drop 5 payload)) in
    let t = verify_at-some sign peer token now h in
    let long : 13 ≤ length payload = omega (arith, t.0, length-take n token) in
    let front : take 5 payload ≡ magic =
      sym (take-append_front 5 payload (sign payload) (omega (arith, long)))
      ∙ (ap (take 5) (sym t.2) ∙ t.1) in
    let p = verify_payload-some peer payload now (All-take IsByte n token v) long front t.3 in
    (
      minted,
      p.0,
      ap
            (λ b.
              if not b
              then none
              else some (payload_of peer odcid minted ++ sign (payload_of peer odcid minted)))
            p.1
          ∙ ap some (ap (λ q. q ++ sign q) (sym p.2) ∙ sym t.2),
    )
