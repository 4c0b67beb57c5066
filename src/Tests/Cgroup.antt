-- ===== src/Tests/Cgroup.antt =====
-- Cgroups of native/src/linux/cgroup.rs, over a store that holds one directory.
use micro_sandbox.Prelude.{
  ℕ, String, ◌++◌, ◌+◌, ◌*◌, ◌≤◌, ◌≡◌, refl, Bool, true, false, none, some, List, [], ◌∷◌, inl, inr,
  Bool-cases, arith, if◌then◌else◌,
}
use micro_sandbox.Error.{Text, IoError, not_found, already_exists, IoKind, ok, literal}
use micro_sandbox.Text.{
  codes, text_eq, decimal, trim, trim_start, trim_end, is_whitespace, split_whitespace,
  split_fields, parse_unsigned,
}
use micro_sandbox.Text.Equal.{text_eq_refl}
use micro_sandbox.Host.{FilePath, IoResult, join}
use micro_sandbox.Config.{valid, cpu_quota_micros}
use micro_sandbox.Cgroup.{
  Cgroup, CgroupFs, kernel, cgroup2_super_magic, remove_timeout, is_not_found, remove_until,
  remove_dir, cleanup, create_in, kill_all, write, validate_limits, verify_cgroup2, path_cstring,
  configure,
}
use micro_sandbox.JobId.{validate_job_id}
use micro_sandbox.Resources.Parse.{parse_number, parse_limit, parse_cpu_max}
use micro_sandbox.Cgroup.Removal.{remove_dir_ends, cleanup_gone}
use micro_sandbox.Cgroup.ReadBack.{Limited}
use micro_sandbox.Cgroup.Limits.{IsLimit, is_limit_file, create_in-limits}
use micro_sandbox.Path.{path_eq}
use micro_sandbox.Resources.Admission.{ResourceSnapshot}
use micro_sandbox.Resources.Detect.{read_snapshot}
use micro_sandbox.Tests.Text.{fixed_point, limits}

record Store : Type 0 where
  files : List (FilePath × Text)
  present : Bool
  clock : ℕ

abbrev failed : IoKind → IoError
failed kind = record { kind = kind; raw_os_error = none; display = literal "failed" }

abbrev lookup : FilePath → List (FilePath × Text) → IoResult Text
lookup path [] = inl (failed not_found)
lookup path ((other, t) ∷ rest) = if path_eq other path then inr t else lookup path rest

abbrev store : CgroupFs Store
store = record {
  host = λ s. record {
    exists = λ path. s.present;
    read_to_string = λ path. lookup path s.files;
    parallelism = inr 1;
    proc_entries = inr [];
  };
  create_dir = λ path s. if s.present then (inl (failed already_exists), s) else (
    inr tt,
    record s {
      present = true;
      files =
          (join path "memory.current", codes "0\n")
          ∷ (join path "pids.current", codes "0\n")
          ∷ s.files;
    },
  );
  write = λ path t s. (inr tt, record s { files = (path, t) ∷ s.files });
  read_dir = λ path s. inr [];
  is_file = λ path s. true;
  remove_file = λ path s. (inr tt, s);
  remove_dir = λ path s.
      if s.present
      then (inr tt, record s { present = false; clock = s.clock + 1 })
      else (inl (failed not_found), s);
  magic = λ path s. inr cgroup2_super_magic;
  now = λ s. s.clock;
  sleep = λ d s. record s { clock = s.clock + d };
}

abbrev root : FilePath
root = codes "cg" ∷ []

abbrev id : Text
id = codes "job-12-345-7"

abbrev empty_store : Store
empty_store = record { files = []; present = false; clock = 5 }

abbrev cgroup : Cgroup
cgroup = record { path = id ∷ root; mode = kernel; cleaned = false }

path_eq_refl : (path : FilePath) → path_eq path path ≡ true
path_eq_refl [] = refl
path_eq_refl (name ∷ path) = ground (arith, text_eq_refl name, path_eq_refl path)

remove_dir-now :
    (path : FilePath) (s : Store) → store.now s ≤ store.now ((store.remove_dir path s).1)
remove_dir-now path s = elim (Bool-cases s.present) [ inl p ↦ ground arith | inr p ↦ ground arith ]

remove_dir_ends_example :
    remove_until store 500 (id ∷ root) true (5 + remove_timeout) empty_store
    ≡ remove_dir store (id ∷ root) true empty_store
remove_dir_ends_example =
    remove_dir_ends store remove_dir-now (λ d s. omega arith) 500 (id ∷ root) true empty_store
      (omega arith)

remove_dir-gone :
    (path : FilePath) (s : Store)
    → (store.remove_dir path s).0 ≡ inr tt
    → (store.host ((store.remove_dir path s).1)).exists path ≡ false
remove_dir-gone path s h = elim (Bool-cases s.present) [
  | inl p ↦ ground arith
  | inr p ↦ ground arith
]

not_found-gone :
    (path : FilePath) (s : Store) (e : IoError)
    → (store.remove_dir path s).0 ≡ inl e
    → is_not_found e.kind ≡ true
    → (store.host ((store.remove_dir path s).1)).exists path ≡ false
not_found-gone path s e h k = elim (Bool-cases s.present) [
  | inl p ↦ ground arith
  | inr p ↦ ground arith
]

abbrev full_store : Store
full_store = record { files = []; present = true; clock = 5 }

cleanup_ok : (cleanup store cgroup full_store).0 ≡ ok tt
unfolding cleanup kill_all write remove_dir remove_until
cleanup_ok = refl

cleanup_gone_example :
    ((store.host ((cleanup store cgroup full_store).1.1)).exists (id ∷ root) ≡ false)
    × ((cleanup store cgroup full_store).1.0.cleaned ≡ true)
cleanup_gone_example =
    cleanup_gone store remove_dir-gone not_found-gone cgroup full_store refl cleanup_ok

create_ok : (create_in store fixed_point root id limits kernel empty_store).0 ≡ ok cgroup
unfolding create_in validate_job_id validate_limits verify_cgroup2 path_cstring configure write
    cpu_quota_micros
create_ok = refl

abbrev new_snapshot : ResourceSnapshot
new_snapshot = record {
  memory_limit_bytes = some 268435456;
  memory_current_bytes = 0;
  cpu_limit_millis = some 500;
  pids_limit = some 16;
  pids_current = 0;
}

snapshot_ok :
    read_snapshot
      (store.host ((create_in store fixed_point root id limits kernel empty_store).1))
      (id ∷ root)
    ≡ ok new_snapshot
unfolding create_in validate_job_id validate_limits verify_cgroup2 path_cstring configure write
    cpu_quota_micros read_snapshot parse_limit parse_number parse_cpu_max decimal trim trim_start
    trim_end is_whitespace split_whitespace split_fields parse_unsigned
snapshot_ok = refl

write-same :
    (path : FilePath) (name : String) (value : Text) (s : Store)
    → IsLimit name value
    → (store.write (join path name) (value ++ 10 ∷ []) s).0 ≡ inr tt
    → (store.host ((store.write (join path name) (value ++ 10 ∷ []) s).1)).read_to_string
        (join path name)
      ≡ inr (value ++ 10 ∷ [])
write-same path name value s limit h = rw path_eq_refl refl

path_eq-join :
    (path : FilePath) (name other : String)
    → text_eq (codes name) (codes other) ≡ false
    → path_eq (join path name) (join path other) ≡ false
path_eq-join path name other ne = rw ne refl

write-other :
    (path : FilePath) (name other : String) (t : Text) (s : Store)
    → is_limit_file (codes name) ≡ true
    → is_limit_file (codes other) ≡ true
    → text_eq (codes name) (codes other) ≡ false
    → (store.host ((store.write (join path name) t s).1)).read_to_string (join path other)
      ≡ (store.host s).read_to_string (join path other)
write-other path name other t s one two ne = rw (path_eq-join path name other ne) refl

create_in-limits_example :
    (quota : ℕ) × (cpu_quota_micros fixed_point limits ≡ valid quota)
    × Limited (256 * 1048576) 16 quota new_snapshot
create_in-limits_example =
    create_in-limits store write-same write-other fixed_point root id limits kernel empty_store
      cgroup new_snapshot (λ x. omega arith) (omega arith) (omega arith) create_ok snapshot_ok
