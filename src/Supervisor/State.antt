-- ===== src/Supervisor/State.antt =====
-- The supervisor of native/src/supervisor.rs and the table of its running jobs. `Arc`-shared
-- counters are fields: the protocol loop is the only thread that changes them.
use micro_sandbox.Prelude.{
  ℕ, Bool, true, false, Option, none, some, List, [], ◌∷◌, ◌==◌, if◌then◌else◌,
}
use micro_sandbox.Error.{Text}
use micro_sandbox.Host.{FilePath}
use micro_sandbox.Scheduler.{Scheduler, Reservation, drop_reservation}
use micro_sandbox.Disk.{release_workspace}
use micro_sandbox.Protocol.{Bytes}

abbrev pub max_active_jobs : ℕ
max_active_jobs = 64

pub record ActiveJob : Type 0 where
  pub pidfd : ℕ
  pub job_id : Text
  pub cancelled : Bool
  pub reservation : Reservation
  -- The bytes of the workspace reservation.
  pub workspace_reservation : Option ℕ

-- What the supervisor does to processes and directories, in order.
pub data Effect : Type 0 where
  -- SIGKILL through a pidfd.
  kill_pidfd : ℕ → Effect
  -- `kill` and `wait` on a launcher that was not set up.
  kill_launcher : ℕ → Effect
  cleanup_job : Text → Effect

abbrev pub Jobs : Type 0
Jobs = List (ℕ × ActiveJob)

pub record Supervisor : Type 0 where
  -- The frames written so far, the first in front.
  pub written : List Bytes
  pub effects : List Effect
  pub cgroup_root : FilePath
  pub scheduler : Scheduler
  pub owner_token : Text
  pub workspace_reserved : ℕ
  pub active : Jobs
  pub shutdown_id : Option ℕ
  pub eof : Bool

abbrev pub initial : FilePath → Scheduler → Text → Supervisor
initial cgroup_root scheduler owner_token = record {
  written = [];
  effects = [];
  cgroup_root = cgroup_root;
  scheduler = scheduler;
  owner_token = owner_token;
  workspace_reserved = 0;
  active = [];
  shutdown_id = none;
  eof = false;
}

-- The `HashMap` of active jobs.
unfoldable pub find_job : ℕ → Jobs → Option ActiveJob
find_job id [] = none
find_job id ((k, job) ∷ rest) = if k == id then some job else find_job id rest

abbrev is_some : Option ActiveJob → Bool
is_some none = false
is_some (some _) = true

abbrev pub contains_key : ℕ → Jobs → Bool
contains_key id jobs = is_some (find_job id jobs)

unfoldable pub remove_job : ℕ → Jobs → Jobs
remove_job id [] = []
remove_job id ((k, job) ∷ rest) = if k == id then rest else (k, job) ∷ remove_job id rest

abbrev pub cancel_job : ActiveJob → ActiveJob
cancel_job job = record job { cancelled = true }

-- `get_mut(id)`, with the flag set.
unfoldable pub mark_cancelled : ℕ → Jobs → Jobs
mark_cancelled id [] = []
mark_cancelled id ((k, job) ∷ rest) =
    if k == id then (k, cancel_job job) ∷ rest else (k, job) ∷ mark_cancelled id rest

unfoldable pub mark_all : Jobs → Jobs
mark_all [] = []
mark_all ((k, job) ∷ rest) = (k, cancel_job job) ∷ mark_all rest

abbrev pub release_budget : Option ℕ → ℕ → ℕ
release_budget none reserved = reserved
release_budget (some bytes) reserved = release_workspace reserved bytes

-- What dropping an `ActiveJob` does to the shared counters.
unfoldable pub drop_job : ActiveJob → Supervisor → Supervisor
unfolding release_workspace drop_reservation
drop_job job s = record s {
  scheduler = drop_reservation job.reservation s.scheduler;
  workspace_reserved = release_budget job.workspace_reservation s.workspace_reserved;
}
