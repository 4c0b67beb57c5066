-- ===== src/Tests/Reconcile.antt =====
-- `reconcile_stale_jobs` of native/src/supervisor.rs, over a store with two cgroups: one of a process
-- that runs, and one of a process that has ended.
use micro_sandbox.Prelude.{
  ℕ, ◌≡◌, refl, Bool, true, false, Option, none, some, [], ◌∷◌, inl, inr, Bool-cases, if◌then◌else◌,
  ◌==◌,
}
use micro_sandbox.Error.{Text, IoError, not_found, literal}
use micro_sandbox.Text.{
  codes, rsplit_once, strip_prefix, parse_unsigned, split, split_whitespace, split_fields,
  is_whitespace,
}
use micro_sandbox.Host.{FilePath, IoResult}
use micro_sandbox.JobId.{
  owner_is_dead, job_owner, process_start_time, parse_start_time, validate_job_id,
}
use micro_sandbox.Cgroup.{CgroupFs, cgroup2_super_magic, remove_job_dir, remove_dir, remove_until}
use micro_sandbox.Path.{path_eq}
use micro_sandbox.Supervisor.Reconcile.{
  DirEntry, Machine, reconcile_stale_jobs, reconcile_cgroups, reconcile_cgroup, staging_roots,
  reconcile_staging,
}
use micro_sandbox.Supervisor.Reconcile.Live.{reconcile_stale_jobs-live}

record Cgroups : Type 0 where
  live : Bool
  dead : Bool

abbrev root : FilePath
root = codes "cg" ∷ []

abbrev live_id : Text
live_id = codes "job-12-345-7"

abbrev dead_id : Text
dead_id = codes "job-13-300-1"

abbrev missing : IoError
missing = record { kind = not_found; raw_os_error = none; display = literal "missing" }

abbrev cgroup_fs : CgroupFs Cgroups
cgroup_fs = record {
  host = λ s. record {
    exists = λ path.
        if path_eq path (dead_id ∷ root)
        then s.dead
        else if path_eq path (live_id ∷ root)
        then s.live
        else false;
    read_to_string = λ path. inl missing;
    parallelism = inr 1;
    proc_entries = inr [];
  };
  create_dir = λ path s. (inl missing, s);
  write = λ path t s. (inr tt, s);
  read_dir = λ path s. inr [];
  is_file = λ path s. false;
  remove_file = λ path s. (inl missing, s);
  remove_dir = λ path s.
      if path_eq path (dead_id ∷ root)
      then (inr tt, record s { dead = false })
      else if path_eq path (live_id ∷ root)
      then (inr tt, record s { live = false })
      else (inl missing, s);
  magic = λ path s. inr cgroup2_super_magic;
  now = λ s. 0;
  sleep = λ d s. s;
}

abbrev entry_of : Text → IoResult DirEntry
entry_of name = inr (record { file_name = name; is_utf8 = true; is_dir = inr true })

abbrev stat : ℕ → Option Text
stat pid =
    if pid == 12
    then some (codes "12 (micro) S 1 1 1 0 0 0 0 0 0 0 0 0 0 0 0 0 1 0 345 9")
    else none

abbrev machine : Machine Cgroups
machine = record {
  fs = cgroup_fs;
  read_dir = λ path s.
      if path_eq path root then inr (entry_of live_id ∷ entry_of dead_id ∷ []) else inl missing;
  proc_stat = λ s. stat;
  staging_base = codes "tmp" ∷ [];
}

abbrev both : Cgroups
both = record { live = true; dead = true }

alive : (s : Cgroups) → owner_is_dead (machine.proc_stat s) live_id ≡ false
unfolding owner_is_dead job_owner process_start_time parse_start_time rsplit_once strip_prefix
    parse_unsigned split split_whitespace split_fields is_whitespace
alive s = refl

remove_dir-other :
    (path : FilePath) (s : Cgroups)
    → path_eq path (live_id ∷ root) ≡ false
    → (cgroup_fs.host ((cgroup_fs.remove_dir path s).1)).exists (live_id ∷ root)
      ≡ (cgroup_fs.host s).exists (live_id ∷ root)
remove_dir-other path s ne = elim (Bool-cases (path_eq path (dead_id ∷ root))) [
  | inl p ↦ rw p refl
  | inr p ↦ rw (p, ne) refl
]

dead_removed : ((reconcile_stale_jobs machine root both).1).dead ≡ false
unfolding reconcile_stale_jobs reconcile_cgroups reconcile_cgroup staging_roots reconcile_staging
    remove_job_dir remove_dir remove_until validate_job_id owner_is_dead job_owner
    process_start_time parse_start_time rsplit_once strip_prefix parse_unsigned split
    split_whitespace split_fields is_whitespace
dead_removed = refl

reconcile_stale_jobs-live_example :
    (cgroup_fs.host ((reconcile_stale_jobs machine root both).1)).exists (live_id ∷ root)
    ≡ (cgroup_fs.host both).exists (live_id ∷ root)
reconcile_stale_jobs-live_example =
    reconcile_stale_jobs-live machine root live_id alive refl remove_dir-other (λ path t s. refl)
      (λ d s. refl) both
