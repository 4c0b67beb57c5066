-- ===== src/Tests/Supervisor.antt =====
-- A supervisor of native/src/supervisor.rs with concrete messages, files and processes.
use micro_sandbox.Prelude.{
  ℕ, ◌≡◌, ◌≢◌, ◌+◌, refl, true, false, Option, none, some, List, [], ◌∷◌, ◌++◌, inl, inr, length,
  if◌then◌else◌, arith,
}
use micro_sandbox.Error.{Text, SandboxError, cancelled, Result, ok, err}
use micro_sandbox.Text.{codes, decimal, trim, split_whitespace, lines, strip_prefix, parse_unsigned}
use micro_sandbox.Scheduler.{new, no_capacity, checked_add, reserve_with_limit}
use micro_sandbox.Job.{LaunchSpec}
use micro_sandbox.JobId.{owner_token, job_id, validate_job_id}
use micro_sandbox.Config.{validate_transport_bounds, cpu_quota_micros}
use micro_sandbox.Resources.Parse.{parse_number, parse_limit, parse_cpu_max}
use micro_sandbox.Resources.Admission.{
  effective_admission_capacity, admission_capacity, reserve_margin,
}
use micro_sandbox.Resources.Detect.{
  detect_admission_capacity, jobs_usage, read_snapshot, host_fallbacks, mem_available,
}
use micro_sandbox.Protocol.{Bytes, Request, Serde, success, failure, encode_response}
use micro_sandbox.Supervisor.State.{
  Supervisor, ActiveJob, initial, find_job, kill_pidfd, remove_job, mark_cancelled, mark_all,
  drop_job,
}
use micro_sandbox.Supervisor.Start.{World, start_job, prepare, resource_request, spawn_launcher}
use micro_sandbox.Supervisor.Handle.{
  handle_request, cancel, cancel_all, run_request, write_frame, finish, finished_frame, respond,
  job_success_frame, launcher_error, bounded_json, FinishedJob,
}
use micro_sandbox.Supervisor.Jobs.Accounts.{IsSound}
use micro_sandbox.Supervisor.Start.Account.{Started, start_job-Started}
use micro_sandbox.Supervisor.Jobs.{cancelled_if}
use micro_sandbox.Supervisor.Handle.Cancel.{cancel-finish, shutdown-refuses}
use micro_sandbox.Supervisor.Run.{Event, request, finished, run, closing, handle_event}
use micro_sandbox.Supervisor.Run.Safety.{run_accounts, run_returns_empty}
use micro_sandbox.Supervisor.Run.Answers.{demand, run_settles}
use micro_sandbox.Tests.Resources.{host, root, detected}
use micro_sandbox.Tests.Text.{fixed_point, limits}

-- A message is a number; a response is its ID, whether it is a success, and a byte that stands for
-- the rest.
abbrev spec : LaunchSpec
spec = record {
  job_id = [];
  rootfs = [];
  command = codes "/bin/true";
  args = [];
  cwd = codes "/";
  env = [];
  stdin_base64 = [];
  limits = limits;
  workspace = none;
}

abbrev pub serde : Serde ℕ
serde = record {
  parse_request = λ b. inl [];
  parse_value = λ b. inr 0;
  launch_spec = λ v. inr spec;
  cancel_payload = λ v. inr v;
  launcher_failure = λ t. none;
  health = λ pid n c. n;
  closed = 99;
  to_vec = λ r. inr (r.id ∷ (if r.is_ok then 1 else 0) ∷ []);
}

abbrev world : World
world = record {
  self_pid = 12;
  float = fixed_point;
  host = host;
  spawning = record {
    current_exe = inr tt;
    wait_thread = inr tt;
    spawn = inr 500;
    has_stdin = true;
    write_spec = λ s. inr tt;
    pidfd_open = λ pid. inr 9;
    waiter_listens = true;
  };
  output_directory = λ w. ok [];
  available_bytes = λ p. ok 0;
  spurious = 0;
  write = λ b. inr tt;
}

abbrev token : Text
token = owner_token 12 345

abbrev asks : ℕ → ℕ → Request ℕ
asks id payload = record { version = 1; id = id; kind = "run"; payload = payload }

abbrev ended : FinishedJob
ended = record {
  request_id = 7;
  output = inr (record { succeeded = true; stdout = []; stderr = [] });
  cleanup = ok tt;
}

-- Two jobs start, one is cancelled and ends, the other ends, then a shutdown.
abbrev events : List (Event ℕ × World)
events =
    (request (ok (some (asks 7 0))), world)
    ∷ (request (ok (some (record (asks 8 7) { kind = "cancel" }))), world)
    ∷ (finished ended, world)
    ∷ (request (ok (some (record (asks 9 0) { kind = "shutdown" }))), world)
    ∷ []

abbrev start : Supervisor
start = initial root (new detected) token

abbrev outcome : Option (Result (Unit {0})) × List Bytes
outcome = let (r, s) = run serde world start events in (r, s.written)

-- The cancelled job and the shutdown are answered.
scenario : outcome ≡ (some (ok tt), (7 ∷ 0 ∷ 10 ∷ []) ∷ (9 ∷ 1 ∷ 10 ∷ []) ∷ [])
unfolding run closing handle_event handle_request cancel cancel_all run_request respond write_frame
    finish finished_frame start_job prepare resource_request spawn_launcher validate_job_id job_id
    owner_token decimal validate_transport_bounds cpu_quota_micros checked_add reserve_with_limit
    detect_admission_capacity jobs_usage read_snapshot host_fallbacks mem_available parse_number
    parse_limit parse_cpu_max effective_admission_capacity admission_capacity reserve_margin trim
    split_whitespace lines strip_prefix parse_unsigned find_job remove_job mark_cancelled mark_all
    drop_job encode_response success failure new job_success_frame launcher_error bounded_json
scenario = refl

returned : (run serde world start events).0 ≡ some (ok tt)
unfolding run closing handle_event handle_request cancel cancel_all run_request respond write_frame
    finish finished_frame start_job prepare resource_request spawn_launcher validate_job_id job_id
    owner_token decimal validate_transport_bounds cpu_quota_micros checked_add reserve_with_limit
    detect_admission_capacity jobs_usage read_snapshot host_fallbacks mem_available parse_number
    parse_limit parse_cpu_max effective_admission_capacity admission_capacity reserve_margin trim
    split_whitespace lines strip_prefix parse_unsigned find_job remove_job mark_cancelled mark_all
    drop_job encode_response success failure new job_success_frame launcher_error bounded_json
returned = refl

run_accounts_example : IsSound (run serde world start events).1
run_accounts_example = run_accounts serde world root detected token events

run_returns_empty_example :
    let s = (run serde world start events).1 in
    (s.active ≡ []) × (s.scheduler.reserved ≡ no_capacity) × (s.workspace_reserved ≡ 0)
run_returns_empty_example = run_returns_empty serde world root detected token events returned

no_error : (e : SandboxError) → (run serde world start events).0 ≢ some (err e)
no_error e h = cc (returned, h)

run_settles_example :
    let s = (run serde world start events).1 in
    length s.written + length s.active ≡ demand serde world start events
run_settles_example = run_settles serde world root detected token events no_error

start_job-Started_example : Started start (start_job serde world start 7 0)
start_job-Started_example = start_job-Started serde world start 7 0 (omega arith)

abbrev job : ActiveJob
job = record {
  pidfd = 9;
  job_id = codes "job-12-345-7";
  cancelled = false;
  reservation = record { request = no_capacity; released = false };
  workspace_reservation = none;
}

abbrev busy : Supervisor
busy = record start { active = (7, job) ∷ (6, job) ∷ [] }

abbrev cancel_7 : Request ℕ
cancel_7 = record (asks 8 7) { kind = "cancel" }

cancel-finish_example :
    let (c, s1) = handle_request serde world busy cancel_7 in
    let (d, s2) = finish serde world s1 ended in
    (c ≡ ok tt)
    × (s1.written ≡ busy.written)
    × (s1.effects ≡ busy.effects ++ kill_pidfd 9 ∷ [])
    × ((k : ℕ) → 7 ≢ k → find_job k s1.active ≡ find_job k busy.active)
    × (d ≡ ok tt)
    × (s2.written ≡ busy.written ++ (7 ∷ 0 ∷ 10 ∷ []) ∷ [])
    × (find_job 7 s2.active ≡ none)
unfolding find_job encode_response failure
cancel-finish_example =
    cancel-finish serde world world busy cancel_7 ended job (7 ∷ 0 ∷ 10 ∷ []) refl
      (refl, (refl, tt)) refl refl refl refl refl

abbrev shutdown_9 : Request ℕ
shutdown_9 = record (asks 9 0) { kind = "shutdown" }

shutdown-refuses_example :
    let (c, s1) = handle_request serde world busy shutdown_9 in
    (c ≡ ok tt)
    × (s1.written ≡ busy.written)
    × (s1.shutdown_id ≡ some 9)
    × ((k : ℕ) → find_job k s1.active ≡ cancelled_if (find_job k busy.active))
    × (handle_request serde world s1 (asks 10 0) ≡ respond serde world s1 (failure 10 cancelled))
    × ((handle_request serde world s1 (asks 10 0)).1.active ≡ s1.active)
shutdown-refuses_example = shutdown-refuses serde world world busy shutdown_9 (asks 10 0) refl refl
