-- ===== src/Tests/Resources.antt =====
-- Capacities of native/src/resources.rs.
use micro_sandbox.Prelude.{
  List, any, ◌≡◌, ◌≤◌, ◌-◌, ◌*◌, ◌/◌, ◌↔◌, refl, true, false, Bool, none, some, [], ◌∷◌, ◌++◌, All,
  arith, inr, if◌then◌else◌,
}
use micro_sandbox.Prelude.Words.{saturating_mul_u64}
use micro_sandbox.Error.{Text, ok}
use micro_sandbox.Text.{
  codes, text_eq, decimal, trim, split_whitespace, lines, strip_prefix, parse_unsigned,
}
use micro_sandbox.Host.{FilePath, Host, IoResult}
use micro_sandbox.Scheduler.{Capacity}
use micro_sandbox.Scheduler.Admission.{◌≤ᶜ◌}
use micro_sandbox.Resources.Parse.{parse_number, parse_limit, parse_cpu_max}
use micro_sandbox.Resources.RoundTrip.{parse_limit-decimal, parse_cpu_max-decimal}
use micro_sandbox.Resources.Admission.{
  ResourceSnapshot, ResourceFallbacks, admission_capacity, unlimited, reserve_margin,
  effective_admission_capacity, effective_admission_capacity-greatest, admission_capacity-headroom,
}
use micro_sandbox.Resources.Detect.{
  has_controllers, walk, has_no_pid_limit, read_snapshot, detect_admission_capacity, host_fallbacks,
  mem_available,
}
use micro_sandbox.Resources.Chain.{detect_admission_capacity-root}

abbrev snapshot : ResourceSnapshot
snapshot = record {
  memory_limit_bytes = some 1000;
  memory_current_bytes = 400;
  cpu_limit_millis = some 2000;
  pids_limit = some 50;
  pids_current = 10;
}

abbrev fallbacks : ResourceFallbacks
fallbacks = record { memory_bytes = 5000; cpu_millis = 4000; pids = 300 }

abbrev bound : Capacity
bound = record { memory_bytes = 480; cpu_millis = 1600; pids = 32 }

effective_admission_capacity-greatest_example :
    ◌≤ᶜ◌ bound (effective_admission_capacity (snapshot ∷ []) fallbacks) ↔ (
      ◌≤ᶜ◌ bound (admission_capacity unlimited fallbacks)
      × All (λ s. ◌≤ᶜ◌ bound (admission_capacity s fallbacks)) (snapshot ∷ []))
effective_admission_capacity-greatest_example =
    effective_admission_capacity-greatest (snapshot ∷ []) fallbacks bound

four_fifths_admitted :
    ((admission_capacity snapshot fallbacks).memory_bytes * 100 ≤ (1000 - 400) * 80)
    × ((admission_capacity snapshot fallbacks).pids * 100 ≤ (50 - 10) * 80)
four_fifths_admitted = admission_capacity-headroom snapshot fallbacks 1000 50 refl refl

written_limit_read :
    (parse_limit (decimal 4096 ++ 10 ∷ []) ≡ ok (some 4096))
    × (parse_limit (codes "max" ++ 10 ∷ []) ≡ ok none)
written_limit_read = parse_limit-decimal 4096 (omega arith)

written_quota_read :
    parse_cpu_max (decimal 50000 ++ 32 ∷ (decimal 100000 ++ 10 ∷ []))
    ≡ ok (some (saturating_mul_u64 50000 1000 / 100000))
written_quota_read = parse_cpu_max-decimal 50000 100000 (omega arith) (omega arith) (omega arith)

-- A host with one cgroup, `job`, with limits.
abbrev file_text : Text → Text
file_text name =
    if text_eq name (codes "memory.max")
    then codes "1073741824\n"
    else if text_eq name (codes "memory.current")
    then codes "73741824\n"
    else if text_eq name (codes "cpu.max")
    then codes "200000 100000\n"
    else if text_eq name (codes "pids.max")
    then codes "50\n"
    else if text_eq name (codes "pids.current")
    then codes "10\n"
    else if text_eq name (codes "meminfo")
    then codes "MemAvailable:    8388608 kB\n"
    else codes "0\n"

abbrev read_file : FilePath → IoResult Text
read_file [] = inr []
read_file (name ∷ path) = inr (file_text name)

-- There are controllers in `/cg` alone.
abbrev in_cgroup : FilePath → Bool
in_cgroup (file ∷ cgroup ∷ []) = text_eq cgroup (codes "cg")
in_cgroup _ = false

abbrev pub host : Host
host = record {
  exists = in_cgroup;
  read_to_string = read_file;
  parallelism = inr 4;
  proc_entries = inr [];
}

abbrev pub root : FilePath
root = codes "cg" ∷ []

abbrev pub detected : Capacity
detected = record { memory_bytes = 800000000; cpu_millis = 1600; pids = 32 }

detects : detect_admission_capacity host root ≡ ok detected
unfolding detect_admission_capacity read_snapshot host_fallbacks mem_available parse_number
    parse_limit parse_cpu_max effective_admission_capacity admission_capacity reserve_margin trim
    split_whitespace lines strip_prefix parse_unsigned
detects = refl

detect_admission_capacity-root_example :
    (has_controllers host root ≡ true)
    × ((s : ResourceSnapshot) × (more : List ResourceSnapshot) × (f : ResourceFallbacks)
        × (read_snapshot host root ≡ ok s)
        × (walk host root [] ≡ ok (s ∷ more))
        × (host_fallbacks host (any has_no_pid_limit (s ∷ more)) ≡ ok f)
        × ◌≤ᶜ◌ detected (admission_capacity s f)
        × ◌≤ᶜ◌ detected (admission_capacity unlimited f))
detect_admission_capacity-root_example = detect_admission_capacity-root host root detected detects
