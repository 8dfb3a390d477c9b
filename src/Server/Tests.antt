-- ===== src/Server/Tests.antt =====
-- Runs of the server's gates and plans.
use qftp.Prelude.{
  ℕ, Bytes, bytes, true, false, Option, none, some, List, [], ◌∷◌, Assoc, nat_eq, ◌==◌, refl, ◌+◌,
  ◌-◌, ◌*◌, ◌/◌, min, leb, ok,
}
use qftp.Protocol.Messages.{Request, pwd}
use qftp.Protocol.Validate.{ValidationError}
use qftp.Transport.Frame.{Bincode}
use qftp.Transport.Stream.{Recv, received, done}
use qftp.Access.{Op, read_only}
use qftp.Limits.{v4, IpKey}
use qftp.Limits.Rate.{Floats, Bucket, new_limiter}
use qftp.Server.Gate.{Caller, Shared}
use qftp.Server.Plan.{PutProgress, waiting, Sweep, plan_actions, reading_file_data}
use qftp.Server.Plan.Admitted.{IsAdmittedPlan, plan_actions-IsAdmitted}
use qftp.Paths.{Lstat, FilePath, failed, kind_not_found}
use qftp.Handlers.{Fs}
use qftp.Server.Plan.Replayed.{IsHarmlessPlan, plan_actions-IsHarmless}
use qftp.Server.Plan.Once.{IsServedOnce, plan_actions-IsServedOnce}

-- whole tokens, a nanosecond for a second
abbrev tokens : Floats ℕ
tokens = record {
  add = λ a b. a + b;
  mul = λ a b. a * b;
  sub = λ a b. a - b;
  lesser = min;
  at_least = λ a b. leb b a;
  one = 1;
  seconds = λ n. n;
  le_zero = λ a. a == 0;
  millis_per = λ a. 1000 / a;
}

abbrev as_listed : Assoc IpKey (Bucket ℕ) → List (IpKey × Bucket ℕ)
as_listed m = m

abbrev caller : Caller
caller = record {
  in_early_data = true;
  peer_ip = v4 (10 ∷ 0 ∷ 0 ∷ 1 ∷ []);
  permissions = read_only;
  refuse_all_early_data = false;
}

abbrev fresh : Shared ℕ
fresh = record {
  limiter = new_limiter 1 3 0;
  metrics = record {
    requests_total = 0;
    requests_failed = 0;
    requests_rate_limited = 0;
    zero_rtt_rejected = 0;
    zero_rtt_accepted = 0;
  };
}

abbrev refusal : Op → Bytes
refusal op = bytes "not allowed"

-- Every payload of one byte is `Pwd`, every other is no request.
abbrev one_byte : Bincode Request
one_byte = record { serialized_size = λ r. 1; serialize = λ r. 0 ∷ []; deserialize = decoded }
  where
    decoded : Bytes → Option Request
    decoded [] = none
    decoded (b ∷ []) = some pwd
    decoded (b ∷ c ∷ bs) = none

abbrev describe : ValidationError → Bytes
describe e = bytes "too long"

abbrev still_waiting : ℕ → Unit {0} → PutProgress × Unit {0}
still_waiting stream_id upload = (waiting, upload)

-- A request on stream 4, a broken frame on stream 8, an upload on stream 12, and stream 4 again.
abbrev arrivals : List (ℕ × List Recv)
arrivals =
    (4, received (0 ∷ 0 ∷ 0 ∷ 1 ∷ 7 ∷ []) ∷ done ∷ [])
    ∷ (8, received (255 ∷ 0 ∷ 0 ∷ 1 ∷ 7 ∷ []) ∷ done ∷ [])
    ∷ (12, [])
    ∷ (4, received (0 ∷ 0 ∷ 0 ∷ 1 ∷ 7 ∷ []) ∷ done ∷ [])
    ∷ []

abbrev sweep : Sweep ℕ (Unit {0})
sweep = record { shared = fresh; streams = (12, reading_file_data tt) ∷ []; sent = [] }

plan_actions-IsAdmitted_example :
    IsAdmittedPlan refusal caller (
      plan_actions tokens as_listed one_byte describe refusal still_waiting 5 caller arrivals sweep)
plan_actions-IsAdmitted_example =
    plan_actions-IsAdmitted tokens as_listed one_byte describe refusal still_waiting 5 caller
      arrivals sweep

plan_actions-IsServedOnce_example :
    IsServedOnce sweep.streams (
      plan_actions tokens as_listed one_byte describe refusal still_waiting 5 caller arrivals sweep)
plan_actions-IsServedOnce_example =
    plan_actions-IsServedOnce tokens as_listed one_byte describe refusal still_waiting 5 caller
      arrivals sweep

-- nothing is there
abbrev bare : Fs
bare = record {
  resolving = missing;
  rechecking = missing;
  calling = missing;
  follows = λ p. false;
  is_dir = λ p. false;
  read_dir = λ p. ok [];
  run = λ call. none;
}
  where
    missing : Lstat
    missing p = failed (record { kind = kind_not_found; text = bytes "missing" })

abbrev srv : FilePath
srv = bytes "srv" ∷ []

plan_actions-IsHarmless_example :
    IsHarmlessPlan bare srv srv (
      plan_actions tokens as_listed one_byte describe refusal still_waiting 5 caller arrivals sweep)
plan_actions-IsHarmless_example =
    plan_actions-IsHarmless bare srv srv tokens as_listed one_byte describe refusal still_waiting 5
      caller arrivals sweep refl
