-- ===== src/Tests/Job.antt =====
-- Launchers of native/src/job.rs: a specification, and a guest's output of 6 bytes on one stream and 4 on the other, of which 5 may be
-- kept.
use micro_sandbox.Prelude.{
  ◌+◌, ◌≡◌, ◌↔◌, refl, true, false, none, any, min, List, [], ◌∷◌, length, ltb, if◌then◌else◌,
}
use micro_sandbox.Error.{ok}
use micro_sandbox.Text.{codes, text_eq, split}
use micro_sandbox.Config.{validate_transport_bounds}
use micro_sandbox.Job.{LaunchSpec}
use micro_sandbox.Path.{is_absolute}
use micro_sandbox.Job.Spec.{validate_guest_path, valid_environment_name, validate_fields}
use micro_sandbox.Job.Spec.Paths.{validate_guest_path-exact}
use micro_sandbox.Job.Exec.{exec, extend, default_variables, assignments}
use micro_sandbox.Job.Exec.Ready.{exec-validate_fields}
use micro_sandbox.Tests.Text.{limits}
use micro_sandbox.Job.Output.{
  stdout, stderr, Collected, Round, not_started, read_streams, read_round, claim_output_bytes,
  claim_loop,
}
use micro_sandbox.Job.Output.Claims.{IsPrefix, written}
use micro_sandbox.Job.Output.Budget.{read_streams-budget}

abbrev rounds : List Round
rounds =
    record { stream = stdout; bytes = 1 ∷ 2 ∷ 3 ∷ []; stale = [] }
    ∷ record { stream = stderr; bytes = 4 ∷ 5 ∷ 6 ∷ 7 ∷ []; stale = 7 ∷ 5 ∷ [] }
    ∷ record { stream = stdout; bytes = 8 ∷ 9 ∷ 10 ∷ []; stale = [] }
    ∷ []

abbrev collected : Collected
collected = read_streams (not_started 5) rounds

kept_of_stderr : collected.stderr_bytes ≡ 4 ∷ 5 ∷ []
unfolding read_streams read_round claim_output_bytes claim_loop
kept_of_stderr = refl

woken_once : collected.wakes ≡ 1
unfolding read_streams read_round claim_output_bytes claim_loop
woken_once = refl

read_streams-budget_example :
    IsPrefix collected.stdout_bytes (written stdout rounds)
    × IsPrefix collected.stderr_bytes (written stderr rounds)
    × (length collected.stdout_bytes + length collected.stderr_bytes
        ≡ min 5 (length (written stdout rounds) + length (written stderr rounds)))
    × (collected.overflow ≡ ltb 5 (length (written stdout rounds) + length (written stderr rounds)))
    × (collected.wakes ≡ (if collected.overflow then 1 else 0))
read_streams-budget_example = read_streams-budget 5 rounds

abbrev pub spec : LaunchSpec
spec = record {
  job_id = [];
  rootfs = codes "runtime" ∷ [];
  command = codes "/bin/./sh";
  args = codes "-c" ∷ codes "env" ∷ [];
  cwd = codes "/";
  env = (codes "HOME", codes "/work") ∷ (codes "TERM", codes "dumb") ∷ [];
  stdin_base64 = [];
  limits = limits;
  workspace = none;
}

spec_accepted : validate_fields spec ≡ ok tt
unfolding validate_fields validate_guest_path valid_environment_name validate_transport_bounds split
spec_accepted = refl

exec-validate_fields_example :
    exec spec ≡ ok (spec.command ∷ spec.args, assignments (extend default_variables spec.env))
exec-validate_fields_example = exec-validate_fields spec spec_accepted

validate_guest_path-exact_example : (validate_guest_path (codes "/bin/./sh") "command" ≡ ok tt) ↔ (
    (is_absolute (codes "/bin/./sh") ≡ true)
    × (any (λ name. text_eq name (codes "..")) (split b'/' (codes "/bin/./sh")) ≡ false))
validate_guest_path-exact_example = validate_guest_path-exact (codes "/bin/./sh") "command"
