-- ===== src/JobId/Ownership.antt =====
-- The identifiers that a supervisor makes are accepted as path names, and name their owner.
use mathlib.Core.List.{append_assoc}
use micro_sandbox.Prelude.{
  ℕ, ◌≤◌, ◌≡◌, ◌↔◌, refl, ap, ◌∙◌, true, false, Option, some, [], ◌∷◌, ◌++◌, all, length, sym,
  all-append, arith,
}
use micro_sandbox.Prelude.Words.{u64_max}
use micro_sandbox.Error.{Text, ok}
use micro_sandbox.Text.{codes, split, decimal, is_ascii_digit, str_len}
use micro_sandbox.Text.Decimal.{parse_unsigned-decimal, all-decimal, length-decimal_le}
use micro_sandbox.Text.Split.{
  without, split-field, split-last, strip_prefix-append, rsplit_once-append, digits-without,
  str_len-digits, str_len-append,
}
use micro_sandbox.JobId.{
  u32_max, owner_token, job_id, job_id_byte, is_nil, validate_job_id, job_owner, parse_start_time,
  process_start_time, owner_is_dead, staging_name, staging_owner,
}

digit_bytes : (t : Text) → all is_ascii_digit t ≡ true → all job_id_byte t ≡ true
digit_bytes [] h = refl
digit_bytes (c ∷ t) h = ground (arith, digit_bytes t)

decimal_len : (n : ℕ) → str_len (decimal n) ≡ length (decimal n)
decimal_len n = str_len-digits (decimal n) (all-decimal n)

validate_job_id-ok :
    (id : Text)
    → is_nil id ≡ false
    → str_len id ≤ 64
    → all job_id_byte id ≡ true
    → validate_job_id id ≡ ok tt
unfolding validate_job_id
validate_job_id-ok id h l b = ground arith

module _ (pid start request : ℕ) where
  no_dash : (n : ℕ) → without b'-' (decimal n) ≡ true
  no_dash n = digits-without b'-' (decimal n) refl (all-decimal n)

  split-job_id :
      split b'-' ((decimal pid ++ b'-' ∷ decimal start) ++ b'-' ∷ decimal request)
      ≡ decimal pid ∷ decimal start ∷ decimal request ∷ []
  split-job_id =
      ap (split b'-') (append_assoc (decimal pid) (b'-' ∷ decimal start) (b'-' ∷ decimal request))
      ∙ split-field b'-' (decimal pid) (decimal start ++ b'-' ∷ decimal request) (no_dash pid)
      ∙ ap (◌∷◌ (decimal pid)) (
          split-field b'-' (decimal start) (decimal request) (no_dash start)
          ∙ ap (◌∷◌ (decimal start)) (split-last b'-' (decimal request) (no_dash request)))

  -- A supervisor's identifiers name it: reading back the identifier that it makes for any request
  -- gives its process ID and its start time.
  pub job_owner-job_id :
      pid ≤ u32_max
      → start ≤ u64_max
      → request ≤ u64_max
      → job_owner (job_id (owner_token pid start) request) ≡ some (pid, start)
  job_owner-job_id hp hs hr =
      unfold job_owner job_id owner_token in
      rw (
        strip_prefix-append (codes "job-"),
        split-job_id,
        parse_unsigned-decimal u32_max pid hp,
        parse_unsigned-decimal u64_max start hs,
        parse_unsigned-decimal u64_max request hr,
      )

  -- A supervisor that starts takes a job for a dead owner's exactly when no process has the
  -- recorded ID with the recorded start time: the jobs of a live owner stay.
  pub owner_is_dead-job_id :
      (proc_stat : ℕ → Option Text)
      → pid ≤ u32_max
      → start ≤ u64_max
      → request ≤ u64_max
      → (owner_is_dead proc_stat (job_id (owner_token pid start) request) ≡ false)
        ↔ (process_start_time proc_stat pid ≡ some start)
  unfolding owner_is_dead
  owner_is_dead-job_id proc_stat hp hs hr = rw (job_owner-job_id hp hs hr) (ground arith)

  job_id-ne_nil : is_nil (job_id (owner_token pid start) request) ≡ false
  unfolding job_id
  job_id-ne_nil = refl

  job_id-bytes : all job_id_byte (job_id (owner_token pid start) request) ≡ true
  job_id-bytes =
      unfold job_id owner_token in
      simp (
        all-append,
        digit_bytes (decimal pid) (all-decimal pid),
        digit_bytes (decimal start) (all-decimal start),
        digit_bytes (decimal request) (all-decimal request),
      )

  job_id-len :
      pid ≤ u32_max
      → start ≤ u64_max
      → request ≤ u64_max
      → str_len (job_id (owner_token pid start) request) ≤ 64
  job_id-len hp hs hr =
      unfold job_id owner_token in
      simp (str_len-append, decimal_len)
        (omega (
          arith,
          length-decimal_le 9 pid (omega arith),
          length-decimal_le 19 start (omega arith),
          length-decimal_le 19 request (omega arith),
        ))

  -- The identifiers that the supervisor makes pass its own check of path names.
  pub validate_job_id-job_id :
      pid ≤ u32_max
      → start ≤ u64_max
      → request ≤ u64_max
      → validate_job_id (job_id (owner_token pid start) request) ≡ ok tt
  validate_job_id-job_id hp hs hr =
      validate_job_id-ok _ job_id-ne_nil (job_id-len hp hs hr) job_id-bytes

-- Whatever the command name of a process holds, parentheses and spaces too, the start time is read
-- off the text behind the parenthesis that closes the name, which holds none.
pub parse_start_time-name :
    (before name tail : Text)
    → without b')' tail ≡ true
    → parse_start_time (before ++ b'(' ∷ (name ++ b')' ∷ tail)) ≡ parse_start_time (b')' ∷ tail)
unfolding parse_start_time
parse_start_time-name before name tail h = rw (
  sym (append_assoc before (b'(' ∷ name) (b')' ∷ tail)),
  rsplit_once-append b')' (before ++ b'(' ∷ name) tail h,
  rsplit_once-append b')' [] tail h,
)

-- The staging root of a job is found again by its job ID, whatever letters mkdtemp chose.
pub staging_owner-staging_name :
    (id suffix : Text)
    → without b'-' suffix ≡ true
    → staging_owner (staging_name id suffix) ≡ some id
unfolding staging_owner staging_name
staging_owner-staging_name id suffix h = rw (rsplit_once-append b'-' id suffix h)
