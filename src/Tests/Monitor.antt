-- ===== src/Tests/Monitor.antt =====
-- The loop of `supervise_child` in native/src/job.rs: a guest that is looked at twice and then
-- overruns its deadline.
use micro_sandbox.Prelude.{
  ℕ, ◌≡◌, refl, ◌/◌, ◌%◌, ◌==◌, not, true, false, none, some, List, [], ◌∷◌, inr,
}
use micro_sandbox.Host.{IoResult}
use micro_sandbox.Job.Report.{LaunchResult, Codec, Finish, launch_result}
use micro_sandbox.Error.{Result, ok}
use micro_sandbox.Job.Monitor.{MonitorRound, Monitor, Ended, monitor}
use micro_sandbox.Job.Monitor.Deadline.{monitor-is_late}
use micro_sandbox.Job.Monitor.Decision.{Decided, monitor-Decided}

abbrev in_time : MonitorRound
in_time = record {
  waitpid = inr none;
  now = 30000000;
  memory = some 4096;
  artifacts = ok tt;
  overflow = false;
  signal = ok tt;
  kill_all = ok tt;
  wait = ok 9;
  event = ok tt;
}

abbrev rounds : List MonitorRound
rounds =
    in_time
    ∷ record in_time { now = 40000000; memory = none }
    ∷ record in_time { now = 60000000 }
    ∷ []

abbrev start : Monitor
start = record { next_check = 0; peak_memory = 0 }

monitor-is_late_example : (result : Result Ended) × (monitor 50000000 rounds start ≡ some result)
monitor-is_late_example = monitor-is_late 50000000 rounds start refl

abbrev killed : Ended
killed = record { status = 9; timed_out = true; artifact_error = none; peak_memory = 4096 }

killed_late : monitor 50000000 rounds start ≡ some (ok killed)
unfolding monitor
killed_late = refl

monitor-Decided_example : Decided 50000000 rounds killed
monitor-Decided_example = monitor-Decided 50000000 rounds start killed killed_late

-- The status of a killed guest is 9; the codec of libc reads it so.
abbrev codec : Codec
codec = record {
  wifexited = λ status. status % 128 == 0;
  wexitstatus = λ status. status / 256 % 256;
  wifsignaled = λ status. not (status % 128 == 0);
  wtermsig = λ status. status % 128;
  encode = λ bytes. bytes;
}

abbrev last_steps : Finish
last_steps = record {
  kill_all = ok tt;
  memory_peak = none;
  oom_killed = false;
  stdout = ok (104 ∷ 105 ∷ []);
  stderr = ok [];
  input = some (inr tt);
  cleanup = ok tt;
  artifacts = ok [];
  overflow = false;
  elapsed = 61;
}

abbrev wake : IoResult (ℕ × ℕ)
wake = inr (3, 4)

abbrev result : LaunchResult
result = launch_result codec last_steps killed (104 ∷ 105 ∷ []) [] []

killed_by_signal : result.signal ≡ some 9
unfolding launch_result
killed_by_signal = refl
