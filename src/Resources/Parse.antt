-- ===== src/Resources/Parse.antt =====
-- The parsers of native/src/resources.rs, and what they read back of what native/src/linux/cgroup.rs
-- writes.
use micro_sandbox.Prelude.{
  ℕ, ◌/◌, Bool, true, false, ◌||◌, Option, none, some, List, [], ◌∷◌, ◌==◌, if◌then◌else◌,
}
use micro_sandbox.Prelude.Words.{u64_max, saturating_mul_u64}
use micro_sandbox.Error.{
  Text, lit, quoted, literal, Result, ok, err, invalid_cgroup_value, ok_or, refuse_if, ◌>>=◌, ◌>>◌,
}
use micro_sandbox.Text.{codes, text_eq, trim, split_whitespace, parse_unsigned}

unfoldable pub parse_number : Text → Result ℕ
parse_number value =
    ok_or (parse_unsigned u64_max (trim value))
      (invalid_cgroup_value (lit "expected non-negative integer, got " ∷ quoted value ∷ []))

-- `max` is no limit.
unfoldable pub parse_limit : Text → Result (Option ℕ)
parse_limit value = if text_eq (trim value) (codes "max") then ok none else do
  limit ← ok_or (parse_unsigned u64_max (trim value)) (
      invalid_cgroup_value
        (lit "expected non-negative integer or max, got " ∷ quoted (trim value) ∷ []))
  ok (some limit)

-- The quota in thousandths of a CPU.
cpu_quota : Text → ℕ → Result (Option ℕ)
cpu_quota quota period = if text_eq quota (codes "max") then ok none else do
  q ←
      ok_or (parse_unsigned u64_max quota)
        (invalid_cgroup_value (literal "cpu.max quota is invalid"))
  ok (some (saturating_mul_u64 q 1000 / period))

abbrev has_more : List Text → Bool
has_more [] = false
has_more (_ ∷ _) = true

-- The fields of `cpu.max`, as the calls of `fields.next()` take them.
cpu_fields : List Text → Result (Option ℕ)
unfolding cpu_quota
cpu_fields [] = err (invalid_cgroup_value (literal "cpu.max is empty"))
cpu_fields (quota ∷ []) = err (invalid_cgroup_value (literal "cpu.max period is missing"))
cpu_fields (quota ∷ period_text ∷ rest) = do
  period ←
      ok_or (parse_unsigned u64_max period_text)
        (invalid_cgroup_value (literal "cpu.max period is invalid"))
  refuse_if (period == 0 || has_more rest)
      (invalid_cgroup_value (literal "cpu.max must contain quota and a non-zero period"))
  cpu_quota quota period

unfoldable pub parse_cpu_max : Text → Result (Option ℕ)
unfolding cpu_fields
parse_cpu_max value = cpu_fields (split_whitespace value)
