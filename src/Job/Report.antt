-- ===== src/Job/Report.antt =====
-- `supervise_child` of native/src/job.rs behind its loop: the guest's cgroup is emptied and removed,
-- the threads are joined, and the result is put together. The macros of libc on a status and base64
-- are parameters. `drop` of the child on an early error is `drop_child` of Linux/Clone; it makes no
-- difference to what is returned.
pub mod Honest
use micro_sandbox.Prelude.{
  ℕ, Bool, true, false, Option, none, some, List, [], ◌∷◌, inl, inr, min, if◌then◌else◌,
}
use micro_sandbox.Prelude.Words.{u64_max}
use micro_sandbox.Error.{
  Text, IoKind, broken_pipe, SandboxError, io, security, literal, Result, ok, err, ◌>>=◌, ◌>>◌,
}
use micro_sandbox.Host.{IoResult, from_io}
use micro_sandbox.Artifact.Manifest.{ArtifactManifestEntry}
use micro_sandbox.Protocol.{Bytes}
use micro_sandbox.Job.Monitor.{MonitorRound, Monitor, Ended, monitor}

pub record IsolationReport : Type 0 where
  pub user_namespace : Bool
  pub pid_namespace : Bool
  pub mount_namespace : Bool
  pub network_namespace : Bool
  pub ipc_namespace : Bool
  pub uts_namespace : Bool
  pub cgroup_namespace : Bool
  pub cgroup_v2 : Bool
  pub seccomp : Bool
  pub no_new_privileges : Bool
  pub capabilities_dropped : Bool
  pub pivot_root : Bool

-- `IsolationReport::complete`.
abbrev pub complete : IsolationReport
complete = record {
  user_namespace = true;
  pid_namespace = true;
  mount_namespace = true;
  network_namespace = true;
  ipc_namespace = true;
  uts_namespace = true;
  cgroup_namespace = true;
  cgroup_v2 = true;
  seccomp = true;
  no_new_privileges = true;
  capabilities_dropped = true;
  pivot_root = true;
}

pub record JobMetrics : Type 0 where
  pub duration_ms : ℕ
  pub peak_memory_bytes : ℕ

pub record LaunchResult : Type 0 where
  pub exit_code : Option ℕ
  pub signal : Option ℕ
  pub timed_out : Bool
  pub output_limit_exceeded : Bool
  pub oom_killed : Bool
  pub stdout_base64 : Text
  pub stderr_base64 : Text
  pub isolation : IsolationReport
  pub metrics : JobMetrics
  pub artifacts : List ArtifactManifestEntry

-- What is taken from libc and base64.
pub record Codec : Type 0 where
  pub wifexited : ℕ → Bool
  pub wexitstatus : ℕ → ℕ
  pub wifsignaled : ℕ → Bool
  pub wtermsig : ℕ → ℕ
  pub encode : Bytes → Text

-- What each step behind the loop finds.
pub record Finish : Type 0 where
  pub kill_all : Result (Unit {0})
  pub memory_peak : Option ℕ
  pub oom_killed : Bool
  -- The readers' threads, joined.
  pub stdout : Result Bytes
  pub stderr : Result Bytes
  -- The writer's thread, unless it has panicked.
  pub input : Option (IoResult (Unit {0}))
  pub cleanup : Result (Unit {0})
  -- `collect_outputs`, or nothing where there is no workspace.
  pub artifacts : Result (List ArtifactManifestEntry)
  pub overflow : Bool
  -- Milliseconds since the start.
  pub elapsed : ℕ

abbrev pub is_broken_pipe : IoKind → Bool
is_broken_pipe broken_pipe = true
is_broken_pipe _ = false

-- A guest that closes its standard input early is no failure.
abbrev pub input_written : Option (IoResult (Unit {0})) → Result (Unit {0})
input_written none = err (security (literal "input writer panicked"))
input_written (some (inr _)) = ok tt
input_written (some (inl e)) = if is_broken_pipe e.kind then ok tt else err (io e)

abbrev pub no_artifact_error : Option SandboxError → Result (Unit {0})
no_artifact_error none = ok tt
no_artifact_error (some e) = err e

abbrev pub or_observed : Option ℕ → ℕ → ℕ
or_observed none observed = observed
or_observed (some peak) observed = peak

-- The exit code and the signal.
abbrev pub exit_of : Codec → ℕ → Option ℕ × Option ℕ
exit_of codec status =
    if codec.wifexited status
    then (some (codec.wexitstatus status), none)
    else if codec.wifsignaled status
    then (none, some (codec.wtermsig status))
    else (none, none)

unfoldable pub launch_result :
    Codec → Finish → Ended → Bytes → Bytes → List ArtifactManifestEntry → LaunchResult
launch_result codec f e stdout stderr artifacts = record {
  exit_code = (exit_of codec e.status).0;
  signal = (exit_of codec e.status).1;
  timed_out = e.timed_out;
  output_limit_exceeded = f.overflow;
  oom_killed = f.oom_killed;
  stdout_base64 = codec.encode stdout;
  stderr_base64 = codec.encode stderr;
  isolation = complete;
  metrics = record {
    duration_ms = min f.elapsed u64_max;
    peak_memory_bytes = or_observed f.memory_peak e.peak_memory;
  };
  artifacts = artifacts;
}

unfoldable pub finish_child : Codec → Finish → Ended → Result LaunchResult
unfolding launch_result
finish_child codec f e = do
  f.kill_all
  stdout ← f.stdout
  stderr ← f.stderr
  input_written f.input
  f.cleanup
  no_artifact_error e.artifact_error
  artifacts ← f.artifacts
  ok (launch_result codec f e stdout stderr artifacts)

abbrev pub reported : Codec → Finish → Option (Result Ended) → Option (Result LaunchResult)
reported codec f none = none
reported codec f (some (err e)) = some (err e)
reported codec f (some (ok e)) = some (finish_child codec f e)

-- The first look at the guest is due at once.
-- Before the loop comes the pipe by which the readers wake the monitor.
unfoldable pub supervise_child :
    Codec
    → IoResult (ℕ × ℕ)
    → ℕ
    → Monitor
    → List MonitorRound
    → Finish
    → Option (Result LaunchResult)
unfolding monitor finish_child
supervise_child codec (inl e) deadline m rounds f = some (err (io e))
supervise_child codec (inr wake) deadline m rounds f = reported codec f (monitor deadline rounds m)
