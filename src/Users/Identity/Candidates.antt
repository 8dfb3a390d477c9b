-- ===== src/Users/Identity/Candidates.antt =====
-- The identities that `extract_identity_candidates` of crates/qftp-protocol/src/user.rs reads off a
-- certificate, and their order.
use mathlib.Core.List.{append_assoc, append-nil}
use qftp.Prelude.{
  Bytes, Bool, not, ◌&&◌, Option, none, some, List, [], ◌∷◌, ◌++◌, ◌≡◌, refl, sym, ap, ◌∙◌,
  if◌then◌else◌, Bool-cases, inl, inr,
}
use qftp.Users.{trim}
use qftp.Users.Identity.{
  GeneralName, dns_name, rfc822_name, uri, other_name, Certificate, is_safe, is_empty,
  san_candidates, keep, Buckets, bucket_name, bucket_names, keep_common_names,
  extract_identity_candidates,
}

abbrev pub is_identity : Bytes → Bool
unfolding trim
is_identity s = not (is_empty (trim s)) && is_safe (trim s)

-- The texts that are an identity once they are trimmed, in order.
unfoldable pub identities : List Bytes → List Bytes
unfolding trim
identities [] = []
identities (s ∷ ss) = (if is_identity s then trim s ∷ [] else []) ++ identities ss

abbrev pub dns_names : List GeneralName → List Bytes
dns_names [] = []
dns_names (dns_name s ∷ gns) = s ∷ dns_names gns
dns_names (_ ∷ gns) = dns_names gns

abbrev pub emails : List GeneralName → List Bytes
emails [] = []
emails (rfc822_name s ∷ gns) = s ∷ emails gns
emails (_ ∷ gns) = emails gns

abbrev pub uri_names : List GeneralName → List Bytes
uri_names [] = []
uri_names (uri s ∷ gns) = s ∷ uri_names gns
uri_names (_ ∷ gns) = uri_names gns

abbrev pub texts : List (Option Bytes) → List Bytes
texts [] = []
texts (none ∷ attrs) = texts attrs
texts (some s ∷ attrs) = s ∷ texts attrs

abbrev pub san_names : Option (List GeneralName) → List GeneralName
san_names none = []
san_names (some gns) = gns

keep-append :
    (s : Bytes) (bucket rest : List Bytes)
    → keep s bucket ++ rest ≡ bucket ++ ((if is_identity s then trim s ∷ [] else []) ++ rest)
unfolding keep
keep-append s bucket rest = elim (Bool-cases (is_identity s)) [
  | inl e ↦ rw (e, keep) (append_assoc bucket (trim s ∷ []) rest)
  | inr e ↦ rw (e, keep)
]

abbrev IsFilled : List GeneralName → Buckets → Buckets → Type 0
IsFilled gns b r =
    (r.dns ≡ b.dns ++ identities (dns_names gns))
    × (r.email ≡ b.email ++ identities (emails gns))
    × (r.uris ≡ b.uris ++ identities (uri_names gns))

bucket_names-IsFilled : (gns : List GeneralName) (b : Buckets) → IsFilled gns b (bucket_names gns b)
unfolding bucket_names bucket_name identities
bucket_names-IsFilled [] b =
    (sym (append-nil b.dns), sym (append-nil b.email), sym (append-nil b.uris))
bucket_names-IsFilled (dns_name s ∷ gns) b =
    let r = bucket_names-IsFilled gns (bucket_name (dns_name s) b) in
    (r.0 ∙ keep-append s b.dns (identities (dns_names gns)), r.1, r.2)
bucket_names-IsFilled (rfc822_name s ∷ gns) b =
    let r = bucket_names-IsFilled gns (bucket_name (rfc822_name s) b) in
    (r.0, r.1 ∙ keep-append s b.email (identities (emails gns)), r.2)
bucket_names-IsFilled (uri s ∷ gns) b =
    let r = bucket_names-IsFilled gns (bucket_name (uri s) b) in
    (r.0, r.1, r.2 ∙ keep-append s b.uris (identities (uri_names gns)))
bucket_names-IsFilled (other_name ∷ gns) b = bucket_names-IsFilled gns b

keep_common_names_lem :
    (attrs : List (Option Bytes)) (out : List Bytes)
    → keep_common_names attrs out ≡ out ++ identities (texts attrs)
unfolding keep_common_names identities
keep_common_names_lem [] out = sym (append-nil out)
keep_common_names_lem (none ∷ attrs) out = keep_common_names_lem attrs out
keep_common_names_lem (some s ∷ attrs) out =
    keep_common_names_lem attrs (keep s out) ∙ keep-append s out (identities (texts attrs))

san_candidates_lem :
    (san : Option (List GeneralName))
    → san_candidates san
      ≡ identities (dns_names (san_names san))
        ++ (identities (emails (san_names san)) ++ identities (uri_names (san_names san)))
unfolding identities bucket_names
san_candidates_lem none = refl
san_candidates_lem (some gns) =
    let b = bucket_names gns (record { dns = []; email = []; uris = [] }) in
    let r = bucket_names-IsFilled gns (record { dns = []; email = []; uris = [] }) in
    let dns = identities (dns_names gns) in
    let mails = identities (emails gns) in
    ap (λ (d : List Bytes). d ++ (b.email ++ b.uris)) r.0
    ∙ (ap (λ (e : List Bytes). dns ++ (e ++ b.uris)) r.1
        ∙ ap (λ (u : List Bytes). dns ++ (mails ++ u)) r.2)

-- The identities of a certificate are its DNS names, then its e-mail addresses, then its URIs, then
-- its common names, each kind in the order of the certificate, trimmed, and without those that are
-- empty or hold a control character.
pub extract_identity_candidates_lem :
    (cert : Certificate)
    → let san = san_names cert.san in
      extract_identity_candidates (some cert)
      ≡ (identities (dns_names san) ++ (identities (emails san) ++ identities (uri_names san)))
        ++ identities (texts cert.common_names)
unfolding extract_identity_candidates identities
extract_identity_candidates_lem cert =
    keep_common_names_lem cert.common_names (san_candidates cert.san)
    ∙ ap (λ l. l ++ identities (texts cert.common_names)) (san_candidates_lem cert.san)
