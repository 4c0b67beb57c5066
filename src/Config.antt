-- ===== src/Config.antt =====
-- native/src/config.rs: the limits of a job. An f64 is its bit pattern, and the operations on it are
-- the record `Float`: those of IEEE 754 are not under the repository.
pub mod Bounds
use micro_sandbox.Prelude.{
  ℕ, ◌*◌, String, Bool, true, false, not, ◌||◌, leb, ltb, ◌==◌, if◌then◌else◌,
}
use micro_sandbox.Error.{Result, ok, err, policy_violation, literal}

pub record Float : Type 0 where
  pub is_finite : ℕ → Bool
  -- `a <= b`, false where either is a NaN.
  pub le : ℕ → ℕ → Bool
  -- `a > b`, false where either is a NaN.
  pub gt : ℕ → ℕ → Bool
  pub mul : ℕ → ℕ → ℕ
  pub round : ℕ → ℕ
  pub ceil : ℕ → ℕ
  -- `as f64` of a u64 and `as u64`.
  pub of_u64 : ℕ → ℕ
  pub as_u64 : ℕ → ℕ

-- The literals 0.0, 1024.0 and 1000.0.
abbrev pub zero_f64 : ℕ
zero_f64 = 0

abbrev pub max_cpus : ℕ
max_cpus = 0x4090000000000000

abbrev pub thousand_f64 : ℕ
thousand_f64 = 0x408f400000000000

abbrev pub max_raw_io_bytes : ℕ
max_raw_io_bytes = 524288

abbrev pub cpu_period_micros : ℕ
cpu_period_micros = 100000

abbrev pub min_cpu_quota_micros : ℕ
min_cpu_quota_micros = 1000

pub record ResourceLimits : Type 0 where
  pub timeout_ms : ℕ
  pub memory_mb : ℕ
  pub cpu : ℕ
  pub pids : ℕ
  pub input_bytes : ℕ
  pub output_bytes : ℕ

-- `Result<T, &'static str>`.
pub data Checked (A : Type 0) : Type 0 where
  valid : A → Checked A
  invalid : String → Checked A

-- `map_err(|message| PolicyViolation(message.into()))`.
abbrev pub as_policy : {A : Type 0} → Checked A → Result A
as_policy (valid a) = ok a
as_policy (invalid m) = err (policy_violation (literal m))

unfoldable pub validate_transport_bounds : ResourceLimits → Checked (Unit {0})
validate_transport_bounds l =
    if l.input_bytes == 0 || ltb max_raw_io_bytes l.input_bytes
    then invalid "input limit must be between 1 byte and 512 KiB"
    else if l.output_bytes == 0 || ltb max_raw_io_bytes l.output_bytes
    then invalid "output limit must be between 1 byte and 512 KiB"
    else valid tt

unfoldable pub cpu_quota_micros : Float → ResourceLimits → Checked ℕ
cpu_quota_micros f l =
    if not (f.is_finite l.cpu) || (f.le l.cpu zero_f64 || f.gt l.cpu max_cpus)
    then invalid "CPU limit must be positive, finite, and at most 1024 CPUs"
    else (let quota = f.as_u64 (f.round (f.mul l.cpu (f.of_u64 cpu_period_micros))) in
        if ltb quota min_cpu_quota_micros
        then invalid "CPU limit must be at least 0.01 CPUs"
        else valid quota)
