-- ===== src/Resources/Detect.antt =====
-- `detect_admission_capacity`, `jobs_usage` and what they read, of native/src/resources.rs. The paths
-- that the sources write out are lists of components, innermost first.
use micro_sandbox.Prelude.{
  ℕ, ◌+◌, ◌-◌, ◌%◌, ◌^◌, Bool, true, false, not, ◌&&◌, Option, none, some, List, [], ◌∷◌, ◌++◌, all,
  any, String, if◌then◌else◌,
}
use micro_sandbox.Prelude.Words.{
  u64_max, checked_mul_u64, saturating_add_u64, saturating_mul_u64, and_then,
}
use micro_sandbox.Error.{
  Text, literal, Result, ok, err, invalid_cgroup_value, cgroup_unavailable, ok_or, ◌>>=◌,
}
use micro_sandbox.Text.{
  codes, strip_prefix, split_whitespace, parse_unsigned, lines, is_ascii_digit,
}
use micro_sandbox.Host.{FilePath, join, from_io, Host, shown}
use micro_sandbox.Scheduler.{Capacity, no_capacity}
use micro_sandbox.Resources.Parse.{parse_number, parse_limit, parse_cpu_max}
use micro_sandbox.Resources.Admission.{
  ResourceSnapshot, ResourceFallbacks, effective_admission_capacity,
}

module _ (host : Host) where
  read : FilePath → Result Text
  read path = from_io (host.read_to_string path)

  unfoldable pub read_snapshot : FilePath → Result ResourceSnapshot
  unfolding read
  read_snapshot cgroup = do
    memory_max ← read (join cgroup "memory.max")
    memory_limit ← parse_limit memory_max
    memory_text ← read (join cgroup "memory.current")
    memory_current ← parse_number memory_text
    cpu_text ← read (join cgroup "cpu.max")
    cpu_limit ← parse_cpu_max cpu_text
    pids_max ← read (join cgroup "pids.max")
    pids_limit ← parse_limit pids_max
    pids_text ← read (join cgroup "pids.current")
    pids_current ← parse_number pids_text
    ok (record {
      memory_limit_bytes = memory_limit;
      memory_current_bytes = memory_current;
      cpu_limit_millis = cpu_limit;
      pids_limit = pids_limit;
      pids_current = pids_current;
    })

  abbrev pub has_controllers : FilePath → Bool
  has_controllers path = host.exists (join path "cgroup.controllers")

  -- `path.parent().is_none_or(|parent| !...exists())`.
  abbrev pub hierarchy_root : Option FilePath → Bool
  hierarchy_root none = true
  hierarchy_root (some p) = not (has_controllers p)

  abbrev pub no_limit_files : FilePath → Bool
  no_limit_files path =
      all (λ name. not (host.exists (join path name))) ("memory.max" ∷ "cpu.max" ∷ "pids.max" ∷ [])

  abbrev pub is_nil : List ResourceSnapshot → Bool
  is_nil [] = true
  is_nil (_ ∷ _) = false

  abbrev pub push :
      List ResourceSnapshot
      → Result ResourceSnapshot
      → (List ResourceSnapshot → Result (List ResourceSnapshot))
      → Result (List ResourceSnapshot)
  push snapshots (err e) next = err e
  push snapshots (ok s) next = next (snapshots ++ s ∷ [])

  -- The `while let` loop: from a cgroup to its parent, as long as there are controllers.
  unfoldable pub walk : FilePath → List ResourceSnapshot → Result (List ResourceSnapshot)
  walk [] snapshots =
      if not (has_controllers [])
      then ok snapshots
      else if not (is_nil snapshots) && no_limit_files []
      then ok snapshots
      else push snapshots (read_snapshot []) (λ more. ok more)
  walk (name ∷ path) snapshots =
      let next = walk path in
      if not (has_controllers (name ∷ path))
      then ok snapshots
      else if not (is_nil snapshots) && (not (has_controllers path) && no_limit_files (name ∷ path))
      then ok snapshots
      else push snapshots (read_snapshot (name ∷ path)) next

abbrev first : List Text → Option Text
first [] = none
first (w ∷ _) = some w

-- `find_map(|line| line.strip_prefix(prefix))`.
find_prefixed : Text → List Text → Option Text
find_prefixed prefix [] = none
find_prefixed prefix (l ∷ rest) = elim (strip_prefix prefix l) [
  | none ↦ find_prefixed prefix rest
  | some value ↦ some value
]

-- `MemAvailable` of `/proc/meminfo`, in bytes.
unfoldable pub mem_available : Text → Option ℕ
unfolding find_prefixed
mem_available meminfo = and_then (find_prefixed (codes "MemAvailable:") (lines meminfo)) λ value.
    and_then (first (split_whitespace value))
      λ word. and_then (parse_unsigned u64_max word) λ kilobytes. checked_mul_u64 kilobytes 1024

-- The tasks of the processes, whose entries have names of digits only, in a u64 that wraps, as in a
-- release build.
abbrev process_tasks : List (Text × ℕ) → ℕ
process_tasks [] = 0
process_tasks ((name, tasks) ∷ rest) =
    ((if all is_ascii_digit name then tasks else 0) + process_tasks rest) % 2 ^ 64

abbrev proc_file : String → FilePath
proc_file name = codes name ∷ codes "proc" ∷ []

-- `/proc/sys/kernel/pid_max`.
abbrev pid_max_file : FilePath
pid_max_file = codes "pid_max" ∷ codes "kernel" ∷ codes "sys" ∷ codes "proc" ∷ []

-- Without `count_tasks` every cgroup of the chain bounds the processes.
unfoldable pub host_fallbacks : Host → Bool → Result ResourceFallbacks
unfolding read mem_available
host_fallbacks host count_tasks = do
  meminfo ← read host (proc_file "meminfo")
  memory ← ok_or (mem_available meminfo) (invalid_cgroup_value (literal "MemAvailable is invalid"))
  cpus ← from_io host.parallelism
  let cpu_millis = saturating_mul_u64 cpus 1000
  if not count_tasks
      then ok (record { memory_bytes = memory; cpu_millis = cpu_millis; pids = u64_max })
      else do
        pid_text ← read host pid_max_file
        pid_max ← parse_number pid_text
        entries ← from_io host.proc_entries
        ok (record {
          memory_bytes = memory;
          cpu_millis = cpu_millis;
          pids = pid_max - process_tasks entries;
        })

abbrev pub has_no_pid_limit : ResourceSnapshot → Bool
has_no_pid_limit s = elim s.pids_limit [ none ↦ true | some _ ↦ false ]

unfoldable pub capacity_of : Host → FilePath → List ResourceSnapshot → Result Capacity
unfolding host_fallbacks
capacity_of host root [] =
    err (cgroup_unavailable (shown root ++ literal " has no readable cgroup controllers"))
capacity_of host root (s ∷ rest) = do
  fallbacks ← host_fallbacks host (any has_no_pid_limit (s ∷ rest))
  ok (effective_admission_capacity (s ∷ rest) fallbacks)

unfoldable pub detect_admission_capacity : Host → FilePath → Result Capacity
unfolding walk capacity_of
detect_admission_capacity host cgroup_root = do
  snapshots ← walk host cgroup_root []
  capacity_of host cgroup_root snapshots

-- `.ok().and_then(...).unwrap_or(0)` on a file.
abbrev usage_of : Result Text → ℕ
usage_of (err e) = 0
usage_of (ok t) = elim (parse_number t) [ ok n ↦ n | err e ↦ 0 ]

-- The live memory and processes of some job cgroups.
usage_from : Host → FilePath → Capacity → List Text → Capacity
unfolding read
usage_from host root total [] = total
usage_from host root total (id ∷ rest) =
    usage_from host root
      (record {
        memory_bytes =
            saturating_add_u64 total.memory_bytes
              (usage_of (read host (join (id ∷ root) "memory.current")));
        cpu_millis = 0;
        pids =
            saturating_add_u64 total.pids (usage_of (read host (join (id ∷ root) "pids.current")));
      })
      rest

unfoldable pub jobs_usage : Host → FilePath → List Text → Capacity
unfolding usage_from
jobs_usage host cgroup_root job_ids = usage_from host cgroup_root no_capacity job_ids
