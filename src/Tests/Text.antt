-- ===== src/Tests/Text.antt =====
-- Job identifiers, error codes and the limits of a job.
use micro_sandbox.Prelude.Words.{u64_max}
use micro_sandbox.Prelude.{
  min, ℕ, ◌≡◌, ◌≢◌, ◌≤◌, ◌↔◌, ◌⊎◌, ◌/◌, refl, false, true, Option, none, some, [], ◌∷◌, ◌++◌, All,
  arith, if◌then◌else◌, ◌==◌, leb, ltb,
}
use micro_sandbox.Error.{
  Text, ok, policy_violation, literal, SandboxError, relayed, error_body, from_wire, wire_codes,
}
use micro_sandbox.Error.Relay.{IsWire, relay_keeps, from_wire-cases}
use micro_sandbox.Text.{codes}
use micro_sandbox.JobId.{
  owner_token, job_id, job_owner, validate_job_id, owner_is_dead, process_start_time,
  parse_start_time, staging_owner, staging_name,
}
use micro_sandbox.JobId.Ownership.{
  job_owner-job_id, owner_is_dead-job_id, validate_job_id-job_id, parse_start_time-name,
  staging_owner-staging_name,
}
use micro_sandbox.Config.{
  Float, ResourceLimits, valid, validate_transport_bounds, cpu_quota_micros, max_raw_io_bytes,
  thousand_f64,
}
use micro_sandbox.Config.Bounds.{validate_transport_bounds-exact}

job_owner-job_id_example : job_owner (job_id (owner_token 12 345) 6) ≡ some (12, 345)
job_owner-job_id_example = job_owner-job_id 12 345 6 (omega arith) (omega arith) (omega arith)

-- Process 12 is another one by now.
abbrev reused : ℕ → Option Text
reused pid = some (codes "12 (a) b) S 1 2 3 4 5 6 7 8 9 10 11 12 13 14 15 16 17 18 999 20")

owner_is_dead-job_id_example :
    (owner_is_dead reused (job_id (owner_token 12 345) 6) ≡ false)
    ↔ (process_start_time reused 12 ≡ some 345)
owner_is_dead-job_id_example =
    owner_is_dead-job_id 12 345 6 reused (omega arith) (omega arith) (omega arith)

own_identifier_passes : validate_job_id (job_id (owner_token 12 345) 6) ≡ ok tt
own_identifier_passes = validate_job_id-job_id 12 345 6 (omega arith) (omega arith) (omega arith)

start_time_behind_a_name :
    parse_start_time (codes "12 " ++ b'(' ∷ (codes "a) (b" ++ b')' ∷ codes " S 1"))
    ≡ parse_start_time (b')' ∷ codes " S 1")
start_time_behind_a_name = parse_start_time-name (codes "12 ") (codes "a) (b") (codes " S 1") refl

own_staging_root_found :
    staging_owner (staging_name (codes "job-1-2-3") (codes "x7Kq2z")) ≡ some (codes "job-1-2-3")
own_staging_root_found = staging_owner-staging_name (codes "job-1-2-3") (codes "x7Kq2z") refl

abbrev failed : SandboxError
failed = policy_violation (literal "x")

relay_keeps_example :
    (r : SandboxError) × (from_wire (error_body failed).code (error_body failed).message ≡ some r)
    × (error_body r ≡ error_body failed)
relay_keeps_example = relay_keeps failed tt

unknown_code_refused :
    (All (λ k. k ≢ "NOT_A_CODE") wire_codes × (from_wire "NOT_A_CODE" [] ≡ none))
    ⊎ (IsWire (relayed "NOT_A_CODE" [])
        × (from_wire "NOT_A_CODE" [] ≡ some (relayed "NOT_A_CODE" [])))
unknown_code_refused = from_wire-cases "NOT_A_CODE" []

-- Fixed-point numbers in place of an f64: a CPU limit in hundred-thousandths of a CPU.
abbrev pub fixed_point : Float
fixed_point = record {
  is_finite = λ a. true;
  le = leb;
  gt = λ a b. ltb b a;
  mul = λ a b. if b == thousand_f64 then a / 100 else a;
  round = λ a. a;
  ceil = λ a. a;
  of_u64 = λ a. a;
  as_u64 = λ a. min a u64_max;
}

abbrev pub limits : ResourceLimits
limits = record {
  timeout_ms = 5000;
  memory_mb = 256;
  cpu = 50000;
  pids = 16;
  input_bytes = 65536;
  output_bytes = 262144;
}

small_limits_pass :
    (validate_transport_bounds limits ≡ valid tt)
    ↔ ((1 ≤ 65536) × (65536 ≤ max_raw_io_bytes) × (1 ≤ 262144) × (262144 ≤ max_raw_io_bytes))
small_limits_pass = validate_transport_bounds-exact limits

quota_half : cpu_quota_micros fixed_point limits ≡ valid 50000
unfolding cpu_quota_micros
quota_half = refl
