-- ===== src/Supervisor/Jobs/Accounts.antt =====
-- The shared counters of native/src/supervisor.rs against the table of running jobs, and the
-- changes to the table that keep them in step.
use micro_sandbox.Prelude.{ℕ, ◌+◌, ◌≤◌, ◌<◌, ◌≡◌, ◌∙◌, Option, none, some, ◌∷◌, length, arith}
use micro_sandbox.Prelude.Words.{u64_max}
use micro_sandbox.Error.{ok}
use micro_sandbox.Scheduler.{Scheduler, drop_reservation}
use micro_sandbox.Scheduler.Ledger.{Holds, drop-Holds}
use micro_sandbox.Disk.{release_workspace}
use micro_sandbox.Supervisor.State.{
  max_active_jobs, ActiveJob, Jobs, Supervisor, find_job, remove_job, mark_cancelled, mark_all,
  release_budget,
}
use micro_sandbox.Supervisor.Start.Account.{Started}
use micro_sandbox.Supervisor.Jobs.{
  reservations, budget, budgets, Distinct, remove_job-Distinct, total-remove_job,
  budgets-remove_job, length-remove_job, IsLive-remove_job, reservations-mark_cancelled,
  budgets-mark_cancelled, length-mark_cancelled, mark_cancelled-Distinct, reservations-mark_all,
  budgets-mark_all, length-mark_all, mark_all-Distinct,
}

-- The scheduler's account is the sum of the jobs' reservations, live and within the limit; the disk
-- counter is the sum of their budgets; there are at most 64 jobs, each under its own request ID.
pub record Accounts (scheduler : Scheduler) (disk : ℕ) (jobs : Jobs) : Type 0 where
  pub holds : Holds scheduler (reservations jobs)
  pub disk_total : disk ≡ budgets jobs
  pub disk_small : disk ≤ u64_max
  pub few : length jobs ≤ max_active_jobs
  pub distinct : Distinct jobs

abbrev pub IsSound : Supervisor → Type 0
IsSound s = Accounts s.scheduler s.workspace_reserved s.active

release_budget-rest :
    (budgeted : Option ℕ) (disk rest : ℕ)
    → disk ≡ budget budgeted + rest
    → disk ≤ u64_max
    → release_budget budgeted disk ≡ rest
unfolding release_workspace
release_budget-rest none disk rest e small = omega (arith, e)
release_budget-rest (some b) disk rest e small = omega (arith, e, small)

pub remove_job-Accounts :
    (scheduler : Scheduler) (disk id : ℕ) (jobs : Jobs) (job : ActiveJob)
    → find_job id jobs ≡ some job
    → Accounts scheduler disk jobs
    → Accounts
        (drop_reservation job.reservation scheduler)
        (release_budget job.workspace_reservation disk)
        (remove_job id jobs)
remove_job-Accounts scheduler disk id jobs job e a =
    let (live, others) = IsLive-remove_job id jobs job e a.holds.live in
    let split : disk ≡ budget job.workspace_reservation + budgets (remove_job id jobs) =
      a.disk_total ∙ budgets-remove_job id jobs job e in
    let rest =
      release_budget-rest job.workspace_reservation disk (budgets (remove_job id jobs)) split
        a.disk_small in
    record {
      holds = drop-Holds job.reservation a.holds (total-remove_job id jobs job e) live others;
      disk_total = rest;
      disk_small = omega (arith, rest, split, a.disk_small);
      few = omega (arith, length-remove_job id jobs job e, a.few);
      distinct = remove_job-Distinct id jobs a.distinct;
    }

pub mark_cancelled-Accounts :
    (scheduler : Scheduler) (disk id : ℕ) (jobs : Jobs)
    → Accounts scheduler disk jobs
    → Accounts scheduler disk (mark_cancelled id jobs)
mark_cancelled-Accounts scheduler disk id jobs a = record {
  holds = rw (reservations-mark_cancelled id jobs) a.holds;
  disk_total = rw (budgets-mark_cancelled id jobs) a.disk_total;
  disk_small = a.disk_small;
  few = rw (length-mark_cancelled id jobs) a.few;
  distinct = mark_cancelled-Distinct id jobs a.distinct;
}

pub mark_all-Accounts :
    (scheduler : Scheduler) (disk : ℕ) (jobs : Jobs)
    → Accounts scheduler disk jobs
    → Accounts scheduler disk (mark_all jobs)
mark_all-Accounts scheduler disk jobs a = record {
  holds = rw (reservations-mark_all jobs) a.holds;
  disk_total = rw (budgets-mark_all jobs) a.disk_total;
  disk_small = a.disk_small;
  few = rw (length-mark_all jobs) a.few;
  distinct = mark_all-Distinct jobs a.distinct;
}

pub insert-Accounts :
    (s s' : Supervisor) (id : ℕ) (job : ActiveJob)
    → find_job id s.active ≡ none
    → length s.active < max_active_jobs
    → Started s (ok job, s')
    → IsSound s
    → Accounts s'.scheduler s'.workspace_reserved ((id, job) ∷ s.active)
insert-Accounts s s' id job new room (e, fresh, live, le, small) a = record {
  holds = record {
    account = ground (arith, a.holds.account);
    live = (live, a.holds.live);
    within = le;
  };
  disk_total = ground (arith, a.disk_total);
  disk_small = small;
  few = omega arith;
  distinct = (new, a.distinct);
}
