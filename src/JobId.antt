-- ===== src/JobId.antt =====
-- The filesystem identifiers of jobs: `start_job`, `job_owner` and `parse_start_time` of
-- native/src/supervisor.rs, `validate_job_id` of native/src/linux/cgroup.rs, and the staging roots of
-- native/src/linux/mount.rs that are named after them.
pub mod Ownership
use micro_sandbox.Prelude.{
  ℕ, zero, suc, Bool, ◌||◌, not, Option, none, some, List, [], ◌∷◌, ◌++◌, all, get_elem?, ltb, ◌==◌,
  if◌then◌else◌,
}
use micro_sandbox.Prelude.Words.{u64_max, ◌>>=◌}
use micro_sandbox.Error.{Text, Result, policy_violation, literal, refuse_if}
use micro_sandbox.Text.{
  codes, split, strip_prefix, parse_unsigned, decimal, str_len, is_ascii_alphanumeric, rsplit_once,
  split_whitespace,
}

abbrev pub u32_max : ℕ
u32_max = 4294967295

-- `format!("{}-{}", pid, start)` in `supervise`.
unfoldable pub owner_token : ℕ → ℕ → Text
owner_token pid start = decimal pid ++ b'-' ∷ decimal start

-- `format!("job-{}-{request_id}", self.owner_token)` in `start_job`.
unfoldable pub job_id : Text → ℕ → Text
job_id token request_id = codes "job-" ++ (token ++ b'-' ∷ decimal request_id)

abbrev pub job_id_byte : ℕ → Bool
job_id_byte c = is_ascii_alphanumeric c || (c == b'-' || c == b'_')

abbrev is_nil : Text → Bool
is_nil [] = Bool.true
is_nil (_ ∷ _) = Bool.false

-- Every byte of a character that is not ASCII fails the test, as the character does here.
unfoldable pub validate_job_id : Text → Result (Unit {0})
validate_job_id id =
    refuse_if (is_nil id || (ltb 64 (str_len id) || not (all job_id_byte id)))
      (policy_violation (literal "invalid cgroup job ID"))

numbers : Option ℕ → Option ℕ → Option ℕ → Option (ℕ × ℕ)
numbers (some pid) (some start) (some request) = some (pid, start)
numbers _ _ _ = none

-- The four `fields.next()` of `job_owner`: exactly three fields, all of them numbers.
owner_fields : List Text → Option (ℕ × ℕ)
unfolding numbers
owner_fields (pid ∷ start ∷ request ∷ []) =
    numbers (parse_unsigned u32_max pid) (parse_unsigned u64_max start)
      (parse_unsigned u64_max request)
owner_fields _ = none

unfoldable pub job_owner : Text → Option (ℕ × ℕ)
unfolding owner_fields
job_owner id = strip_prefix (codes "job-") id >>= λ rest. owner_fields (split b'-' rest)

-- Field 22 of a `/proc/<pid>/stat` record, counted after the last `)`.
unfoldable pub parse_start_time : Text → Option ℕ
parse_start_time stat = do
  (_, after_name) ← rsplit_once b')' stat
  field ← get_elem? (split_whitespace after_name) 19
  parse_unsigned u64_max field

-- `proc_stat pid` is the record of a process, if it can be read.
unfoldable pub process_start_time : (ℕ → Option Text) → ℕ → Option ℕ
process_start_time proc_stat pid = proc_stat pid >>= parse_start_time

abbrev started_at : Option ℕ → ℕ → Bool
started_at none start = Bool.false
started_at (some s) start = s == start

abbrev owner_gone : (ℕ → Option Text) → Option (ℕ × ℕ) → Bool
owner_gone proc_stat none = Bool.false
owner_gone proc_stat (some (pid, start)) = not (started_at (process_start_time proc_stat pid) start)

unfoldable pub owner_is_dead : (ℕ → Option Text) → Text → Bool
owner_is_dead proc_stat id = owner_gone proc_stat (job_owner id)

-- `base.join(format!("{job_id}-XXXXXX"))` after mkdtemp has put `suffix` for the six letters.
unfoldable pub staging_name : Text → Text → Text
staging_name id suffix = id ++ b'-' ∷ suffix

-- The job ID that `staging_roots` reads off the name of a staging root.
unfoldable pub staging_owner : Text → Option Text
staging_owner name = do (id, _) ← rsplit_once b'-' name; some id
