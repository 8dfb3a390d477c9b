-- ===== src/Server/Retry/Tests.antt =====
-- Retry tokens of a local address.
use qftp.Prelude.{
  ℕ, to_be_bytes, from_be_bytes, ◌+◌, ◌%◌, Bytes, bytes, IsByte, All, none, some, [], ◌∷◌, ◌++◌,
  replicate, ◌≡◌, ◌↔◌, refl, arith,
}
use qftp.Limits.{v4, v6}
use qftp.Server.Retry.{SocketAddr, mint_at, verify_at}
use qftp.Server.Retry.Window.{InWindow, verify_at-mint_at}
use qftp.Server.Retry.Families.{mint_at-family}
use qftp.Server.Retry.Issued.{verify_at-IsIssued}

-- a hash of sixteen bytes
abbrev sum : Bytes → ℕ
sum [] = 0
sum (b ∷ bs) = (b + sum bs) % 256

abbrev sign : Bytes → Bytes
sign bs = replicate 15 7 ++ sum bs ∷ []

abbrev peer : SocketAddr
peer = record { ip = v4 (127 ∷ 0 ∷ 0 ∷ 1 ∷ []); port = 4433 }

abbrev odcid : Bytes
odcid = 1 ∷ 2 ∷ 3 ∷ 4 ∷ 5 ∷ 6 ∷ 7 ∷ 8 ∷ []

abbrev token : Bytes
token =
    bytes "qftp1"
    ++ (0 ∷ 0 ∷ 0 ∷ 0 ∷ 0 ∷ 0 ∷ 3 ∷ 232 ∷ 127 ∷ 0 ∷ 0 ∷ 1 ∷ 17 ∷ 81 ∷ 8 ∷ odcid
        ++ (replicate 15 7 ++ 229 ∷ []))

mints : mint_at sign peer odcid 1000 ≡ some token
unfolding mint_at
mints = refl

verifies : verify_at sign peer token 1060 ≡ some odcid
unfolding verify_at
verifies = refl

too_late : verify_at sign peer token 1061 ≡ none
unfolding verify_at
too_late = refl

too_short : mint_at sign peer (bytes "1234567") 1000 ≡ none
unfolding mint_at
too_short = refl

verify_at-mint_at_example : (verify_at sign peer token 1060 ≡ some odcid) ↔ InWindow 1000 1060
verify_at-mint_at_example =
    verify_at-mint_at sign peer odcid 1000 1060 (λ bs. refl) (refl, omega arith) (omega arith) mints

verify_at-IsIssued_example :
    (minted : ℕ) × InWindow minted 1060 × (mint_at sign peer odcid minted ≡ some token)
verify_at-IsIssued_example = verify_at-IsIssued sign peer token 1060 token_bytes verifies
  where
    token_bytes : All IsByte token
    token_bytes = grind arith

mint_at-family_example :
    mint_at sign
      (record { ip = v4 (32 ∷ 1 ∷ 13 ∷ 184 ∷ []); port = 4433 })
      (replicate 9 0 ++ (17 ∷ 81 ∷ 8 ∷ odcid))
      1000
    ≡ mint_at sign
        (record {
          ip = v6 ((32 ∷ 1 ∷ 13 ∷ 184 ∷ []) ++ (to_be_bytes 2 4433 ++ 20 ∷ replicate 9 0));
          port = from_be_bytes (17 ∷ 81 ∷ []);
        })
        odcid
        1000
mint_at-family_example =
    mint_at-family sign (32 ∷ 1 ∷ 13 ∷ 184 ∷ []) (replicate 9 0) (17 ∷ 81 ∷ []) odcid 4433 1000 refl
      refl refl (omega arith, (omega arith, tt))
