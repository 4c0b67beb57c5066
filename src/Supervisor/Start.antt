-- ===== src/Supervisor/Start.antt =====
-- `resource_request`, `start_job` and `spawn_launcher` of native/src/supervisor.rs.
pub mod Account
use micro_sandbox.Prelude.{
  ℕ, zero, suc, String, ◌*◌, ◌≡◌, Bool, true, false, not, Option, none, some, List, [], ◌∷◌, ◌++◌,
  ◌⊎◌, inl, inr, leb, ◌==◌, if◌then◌else◌, map,
}
use micro_sandbox.Prelude.Words.{checked_mul_u64}
use micro_sandbox.Error.{
  Text, Message, lit, literal, SandboxError, protocol, policy_violation, capacity_exceeded,
  security, io, json, Result, ok, err, ok_or, ◌>>=◌, ◌>>◌,
}
use micro_sandbox.Host.{FilePath, IoResult, from_io, Host}
use micro_sandbox.Config.{
  Float, ResourceLimits, Checked, valid, invalid, thousand_f64, cpu_quota_micros,
  validate_transport_bounds, as_policy,
}
use micro_sandbox.Scheduler.{
  Capacity, Scheduler, Reservation, checked_add, reserve_with_limit, drop_reservation,
}
use micro_sandbox.Resources.Detect.{detect_admission_capacity, jobs_usage}
use micro_sandbox.Artifact.{WorkspaceSpec}
use micro_sandbox.Job.{LaunchSpec}
use micro_sandbox.JobId.{job_id, validate_job_id}
use micro_sandbox.Disk.{reserve_workspace, release_workspace}
use micro_sandbox.Protocol.{Serde, Bytes}
use micro_sandbox.Supervisor.State.{Supervisor, ActiveJob, Jobs, Effect, kill_launcher, cleanup_job}

-- What the operating system answers while one job is started. A number is a process or a descriptor.
pub record Spawning : Type 0 where
  pub current_exe : IoResult (Unit {0})
  pub wait_thread : IoResult (Unit {0})
  pub spawn : IoResult ℕ
  -- `child.stdin.take()`.
  pub has_stdin : Bool
  pub write_spec : LaunchSpec → Message ⊎ Unit {0}
  pub pidfd_open : ℕ → IoResult ℕ
  -- Whether the waiter thread still receives.
  pub waiter_listens : Bool

-- One moment of the world around the supervisor.
pub record World : Type 0 where
  pub self_pid : ℕ
  pub float : Float
  pub host : Host
  pub spawning : Spawning
  -- `artifact::resolve_output_directory` and `artifact::available_bytes`, on the file system.
  pub output_directory : WorkspaceSpec → Result FilePath
  pub available_bytes : FilePath → Result ℕ
  -- Failed exchanges of the disk counter. No other thread changes it.
  pub spurious : ℕ
  -- `write_all` and `flush` of one frame.
  pub write : Bytes → IoResult (Unit {0})

abbrev job_overhead : Capacity
job_overhead = record { memory_bytes = 16777216; cpu_millis = 25; pids = 3 }

abbrev as_protocol : {A : Type 0} → String → Message ⊎ A → Result A
as_protocol what (inl m) = err (protocol (lit what ∷ m))
as_protocol what (inr a) = ok a

unfoldable pub resource_request : Float → ResourceLimits → Result Capacity
unfolding cpu_quota_micros
resource_request f limits = do
  quota ← as_policy (cpu_quota_micros f limits)
  memory ←
      ok_or (checked_mul_u64 limits.memory_mb 1048576)
        (policy_violation (literal "memory limit overflows"))
  ok (record {
    memory_bytes = memory;
    cpu_millis = f.as_u64 (f.ceil (f.mul limits.cpu thousand_f64));
    pids = limits.pids;
  })

-- `PidFd::open`, on a PID that fits an i32.
abbrev i32_max : ℕ
i32_max = 2147483647

pidfd_of : Spawning → ℕ → Result ℕ
pidfd_of w pid =
    if not (leb pid i32_max)
    then err (security (literal "launcher PID does not fit platform PID type"))
    else if pid == 0
    then err (policy_violation (literal "PID must be positive"))
    else from_io (w.pidfd_open pid)

abbrev as_json : Message ⊎ Unit {0} → Result (Unit {0})
as_json (inl m) = err (json m)
as_json (inr _) = ok tt

-- The closure `setup`, and the hand-over of the child to its waiter.
setup : Spawning → LaunchSpec → ℕ → Result ℕ
unfolding pidfd_of
setup w spec pid = do
  if w.has_stdin then ok tt else err (security (literal "launcher stdin is unavailable"))
  as_json (w.write_spec spec)
  pidfd ← pidfd_of w pid
  if w.waiter_listens
      then ok pidfd
      else err (security (literal "launcher waiter stopped unexpectedly"))

-- A setup failure kills and reaps the launcher and cleans the job up.
after_setup : Text → ℕ → Result ℕ → Result ℕ × List Effect
after_setup id pid (ok pidfd) = (ok pidfd, [])
after_setup id pid (err e) = (err e, kill_launcher pid ∷ cleanup_job id ∷ [])

after_spawn : Spawning → LaunchSpec → Result ℕ → Result ℕ × List Effect
unfolding setup after_setup
after_spawn w spec (err e) = (err e, [])
after_spawn w spec (ok pid) = after_setup spec.job_id pid (setup w spec pid)

unfoldable pub spawn_launcher : Spawning → LaunchSpec → Result ℕ × List Effect
unfolding after_spawn
spawn_launcher w spec =
    after_spawn w spec (do from_io w.current_exe; from_io w.wait_thread; from_io w.spawn)

-- What is known of a job before anything is reserved: its specification, its request, the live
-- headroom and the usage of the running jobs.
pub record Prepared : Type 0 where
  pub spec : LaunchSpec
  pub request : Capacity
  pub live_headroom : Capacity
  pub own_usage : Capacity

abbrev job_ids : Jobs → List Text
job_ids [] = []
job_ids ((_, job) ∷ rest) = job.job_id ∷ job_ids rest

module _ {V : Type 0} (serde : Serde V) (w : World) where
  unfoldable pub prepare : Supervisor → ℕ → V → Result Prepared
  unfolding resource_request
  prepare s request_id payload = do
    parsed ← as_protocol "invalid run payload: " (serde.launch_spec payload)
    let spec = record parsed { job_id = job_id s.owner_token request_id }
    validate_job_id spec.job_id
    as_policy (validate_transport_bounds spec.limits)
    base ← resource_request w.float spec.limits
    request ← ok_or (checked_add base job_overhead) capacity_exceeded
    live_headroom ← detect_admission_capacity w.host s.cgroup_root
    ok (record {
      spec = spec;
      request = request;
      live_headroom = live_headroom;
      own_usage = jobs_usage w.host s.cgroup_root (job_ids s.active);
    })

-- As many spurious failures see the counter as it is.
abbrev repeated : ℕ → ℕ → List ℕ
repeated zero v = []
repeated (suc n) v = v ∷ repeated n v

module _ (w : World) where
  -- The counter's new value and the bytes, for a job with a workspace.
  reserve_disk : Supervisor → WorkspaceSpec → Result (ℕ × ℕ)
  reserve_disk s workspace = do
    output ← w.output_directory workspace
    available ← w.available_bytes output
    reserved ←
        reserve_workspace s.workspace_reserved available workspace.limits.output_bytes
          (repeated w.spurious s.workspace_reserved)
    ok (reserved.1, reserved.0.bytes)

  abbrev release_bytes : Option ℕ → Supervisor → Supervisor
  release_bytes none s = s
  release_bytes (some bytes) s = record s {
    workspace_reserved = release_workspace s.workspace_reserved bytes;
  }

  abbrev release_both : Reservation → Option ℕ → Supervisor → Supervisor
  release_both r disk s =
      let s' = release_bytes disk s in record s' { scheduler = drop_reservation r s'.scheduler }

  -- The launcher, last. On a failure the reservations are dropped.
  spawned :
      LaunchSpec → Reservation → Option ℕ → Supervisor → Result ℕ → Result ActiveJob × Supervisor
  spawned spec r disk s (err e) = (err e, release_both r disk s)
  spawned spec r disk s (ok pidfd) = (
    ok (record {
      pidfd = pidfd;
      job_id = spec.job_id;
      cancelled = false;
      reservation = r;
      workspace_reservation = disk;
    }),
    s,
  )

  abbrev add_effects : List Effect → Supervisor → Supervisor
  add_effects more s = record s { effects = s.effects ++ more }

  launch_job : LaunchSpec → Reservation → Option ℕ → Supervisor → Result ActiveJob × Supervisor
  unfolding spawned
  launch_job spec r disk s =
      let (pidfd, more) = spawn_launcher w.spawning spec in
      spawned spec r disk (add_effects more s) pidfd

  with_disk : LaunchSpec → Reservation → Supervisor → Result (ℕ × ℕ) → Result ActiveJob × Supervisor
  unfolding launch_job
  with_disk spec r s (err e) = (err e, release_both r none s)
  with_disk spec r s (ok (next, bytes)) =
      launch_job spec r (some bytes) (record s { workspace_reserved = next })

  with_reservation :
      LaunchSpec → Reservation → Supervisor → Option WorkspaceSpec → Result ActiveJob × Supervisor
  unfolding reserve_disk with_disk launch_job
  with_reservation spec r s none = launch_job spec r none s
  with_reservation spec r s (some workspace) = with_disk spec r s (reserve_disk s workspace)

  with_capacity :
      Prepared → Supervisor → Result (Reservation × Scheduler) → Result ActiveJob × Supervisor
  unfolding with_reservation
  with_capacity p s (err e) = (err e, s)
  with_capacity p s (ok (r, scheduler)) =
      with_reservation p.spec r (record s { scheduler = scheduler }) p.spec.workspace

  when_prepared : Supervisor → Result Prepared → Result ActiveJob × Supervisor
  unfolding with_capacity
  when_prepared s (err e) = (err e, s)
  when_prepared s (ok p) =
      with_capacity p s (reserve_with_limit s.scheduler p.request p.live_headroom p.own_usage)

unfoldable pub start_job :
    {V : Type 0} → Serde V → World → Supervisor → ℕ → V → Result ActiveJob × Supervisor
unfolding prepare when_prepared
start_job serde w s request_id payload = when_prepared w s (prepare serde w s request_id payload)
