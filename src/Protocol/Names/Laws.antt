-- ===== src/Protocol/Names/Laws.antt =====
-- What `safe_entry_name` of crates/qftp-common/src/protocol.rs rules out.
use qftp.Prelude.{
  Bytes, bytes, true, false, ◌≡◌, ◌≢◌, ◌↔◌, refl, [], ◌∷◌, any, All, arith, list_beq_iff, nat_eq,
  list_eq,
}
use qftp.Protocol.Names.{slash, backslash, is_separator, safe_entry_name}

-- A name that names one entry of its directory on every platform.
pub record IsOneEntry (name : Bytes) : Type 0 where
  pub nonempty : name ≢ []
  pub not_here : name ≢ bytes "."
  pub not_parent : name ≢ bytes ".."
  pub characters : All (λ c. (c ≢ slash) × (c ≢ backslash) × (c ≢ 0)) name

no_separator :
    (name : Bytes)
    → any is_separator name ≡ false
    → All (λ c. (c ≢ slash) × (c ≢ backslash) × (c ≢ 0)) name
no_separator [] h = tt
no_separator (c ∷ cs) h = ground (arith, no_separator cs)

separator-free :
    (name : Bytes)
    → All (λ c. (c ≢ slash) × (c ≢ backslash) × (c ≢ 0)) name
    → any is_separator name ≡ false
separator-free [] h = refl
separator-free (c ∷ cs) h = ground (arith, separator-free cs h.1)

-- `safe_entry_name` accepts exactly the names that are nonempty, are not `.` or `..`, and hold no
-- `/`, no backslash and no NUL.
pub safe_entry_name-IsOneEntry : (name : Bytes) → (safe_entry_name name ≡ true) ↔ IsOneEntry name
unfolding safe_entry_name
safe_entry_name-IsOneEntry name = (
  λ h. record {
    nonempty = ground (arith, list_beq_iff name []);
    not_here = ground (arith, list_beq_iff name (bytes "."));
    not_parent = ground (arith, list_beq_iff name (bytes ".."));
    characters = no_separator name (ground arith);
  },
  λ s. ground (
    arith,
    separator-free name s.characters,
    list_beq_iff name [],
    list_beq_iff name (bytes "."),
    list_beq_iff name (bytes ".."),
    s.nonempty,
    s.not_here,
    s.not_parent,
  ),
)
