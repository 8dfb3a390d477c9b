-- ===== src/Limits/Keys.antt =====
-- Which addresses share a bucket in crates/qftp-server/src/limits.rs.
use qftp.Prelude.{
  ℕ, Bytes, [], ◌∷◌, ◌++◌, map, length, take, drop, replicate, length-take, length-drop,
  take-length_append, drop-length_append, ◌≡◌, ◌↔◌, refl, sym, ap, ◌∙◌, arith,
}
use qftp.Limits.{IpAddr, v4, v6, bucket_key}

-- An address has its octets.
abbrev pub IsAddress : IpAddr → Type 0
IsAddress (v4 octets) = length octets ≡ 4
IsAddress (v6 octets) = length octets ≡ 16

-- The same IPv4 address, or IPv6 addresses of one /64 network.
abbrev pub SameClient : IpAddr → IpAddr → Type 0
SameClient (v4 a) (v4 b) = a ≡ b
SameClient (v6 a) (v6 b) = take 8 a ≡ take 8 b
SameClient _ _ = ⊥

map_zero : (xs : Bytes) → map {B = ℕ} (λ b. 0) xs ≡ replicate (length xs) 0
map_zero [] = refl
map_zero (x ∷ xs) = ap (λ r. 0 ∷ r) (map_zero xs)

v6_key : (a : Bytes) → length a ≡ 16 → bucket_key (v6 a) ≡ take 8 a ++ replicate 8 0
unfolding bucket_key
v6_key a h = ground (arith, map_zero (drop 8 a), length-drop 8 a)

v4_v6_differ : (a b : Bytes) → length b ≡ 16 → bucket_key (v4 a) ≡ bucket_key (v6 b) → ⊥
unfolding bucket_key
v4_v6_differ a b h e =
    let tail =
      ap (drop 8) (e ∙ v6_key b h)
      ∙ drop-length_append 8 (take 8 b) (replicate 8 0) (omega (arith, length-take 8 b)) in
    ground (arith, tail)

network : (a : Bytes) → length a ≡ 16 → take 8 (take 8 a ++ replicate 8 0) ≡ take 8 a
network a h = take-length_append 8 (take 8 a) (replicate 8 0) (omega (arith, length-take 8 a))

-- Two addresses share a bucket exactly when they are the same IPv4 address or IPv6 addresses of one
-- /64 network; an IPv4 address never shares one with an IPv6 address, its mapped form included.
pub bucket_key-SameClient :
    (a b : IpAddr) → IsAddress a → IsAddress b → (bucket_key a ≡ bucket_key b) ↔ SameClient a b
unfolding bucket_key
bucket_key-SameClient (v4 a) (v4 b) ha hb =
    (λ e. ap (drop 12) e, λ e. ap (λ octets. bucket_key (v4 octets)) e)
bucket_key-SameClient (v6 a) (v6 b) ha hb = (
  λ e. sym (network a ha) ∙ ap (take 8) (sym (v6_key a ha) ∙ e ∙ v6_key b hb) ∙ network b hb,
  λ e. v6_key a ha ∙ ap (λ front. front ++ replicate 8 0) e ∙ sym (v6_key b hb),
)
bucket_key-SameClient (v4 a) (v6 b) ha hb = (λ e. v4_v6_differ a b hb e, λ e. absurd e)
bucket_key-SameClient (v6 a) (v4 b) ha hb = (λ e. v4_v6_differ b a ha (sym e), λ e. absurd e)
