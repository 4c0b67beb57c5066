-- ===== src/Supervisor/Jobs.antt =====
-- The table of running jobs: what each operation on it leaves of the reservations, the disk budgets
-- and the request IDs.
pub mod Accounts
use micro_sandbox.Prelude.{
  ℕ, ◌+◌, ◌≡◌, ◌≢◌, refl, false, Option, none, some, List, [], ◌∷◌, length, All, arith,
}
use micro_sandbox.Scheduler.{Reservation}
use micro_sandbox.Scheduler.Admission.{plus}
use micro_sandbox.Scheduler.Ledger.{total}
use micro_sandbox.Supervisor.State.{
  ActiveJob, Jobs, cancel_job, find_job, remove_job, mark_cancelled, mark_all,
}

abbrev pub reservations : Jobs → List Reservation
reservations [] = []
reservations ((_, job) ∷ rest) = job.reservation ∷ reservations rest

abbrev pub budget : Option ℕ → ℕ
budget none = 0
budget (some bytes) = bytes

-- The disk budgets of the jobs, added up.
abbrev pub budgets : Jobs → ℕ
budgets [] = 0
budgets ((_, job) ∷ rest) = budget job.workspace_reservation + budgets rest

abbrev pub IsLive : Reservation → Type 0
IsLive r = r.released ≡ false

-- No request ID stands twice.
abbrev pub Distinct : Jobs → Type 0
Distinct [] = Unit
Distinct ((id, _) ∷ rest) = (find_job id rest ≡ none) × Distinct rest

find_job-remove_job-none :
    (id k : ℕ) (jobs : Jobs) → find_job k jobs ≡ none → find_job k (remove_job id jobs) ≡ none
unfolding find_job remove_job
find_job-remove_job-none id k [] h = h
find_job-remove_job-none id k ((j, job) ∷ jobs) h =
    ground (arith, find_job-remove_job-none id k jobs)

pub remove_job-Distinct : (id : ℕ) (jobs : Jobs) → Distinct jobs → Distinct (remove_job id jobs)
unfolding remove_job
remove_job-Distinct id [] h = h
remove_job-Distinct id ((j, job) ∷ jobs) h =
    ground (arith, remove_job-Distinct id jobs, find_job-remove_job-none id j jobs)

pub find_job-remove_job :
    (id : ℕ) (jobs : Jobs) → Distinct jobs → find_job id (remove_job id jobs) ≡ none
unfolding remove_job find_job
find_job-remove_job id [] h = refl
find_job-remove_job id ((j, job) ∷ jobs) h = ground (arith, find_job-remove_job id jobs)

pub remove_job_absent : (id : ℕ) (jobs : Jobs) → find_job id jobs ≡ none → remove_job id jobs ≡ jobs
unfolding remove_job find_job
remove_job_absent id [] h = refl
remove_job_absent id ((j, job) ∷ jobs) h = ground (arith, remove_job_absent id jobs)

-- What a job held is what the table holds less after it is removed.
pub total-remove_job :
    (id : ℕ) (jobs : Jobs) (job : ActiveJob)
    → find_job id jobs ≡ some job
    → total (reservations jobs)
      ≡ plus job.reservation.request (total (reservations (remove_job id jobs)))
unfolding find_job remove_job
total-remove_job id [] job h = cc
total-remove_job id ((j, job') ∷ jobs) job h = ground (arith, total-remove_job id jobs job)

pub budgets-remove_job :
    (id : ℕ) (jobs : Jobs) (job : ActiveJob)
    → find_job id jobs ≡ some job
    → budgets jobs ≡ budget job.workspace_reservation + budgets (remove_job id jobs)
unfolding find_job remove_job
budgets-remove_job id [] job h = cc
budgets-remove_job id ((j, job') ∷ jobs) job h = ground (arith, budgets-remove_job id jobs job)

pub length-remove_job :
    (id : ℕ) (jobs : Jobs) (job : ActiveJob)
    → find_job id jobs ≡ some job
    → length jobs ≡ length (remove_job id jobs) + 1
unfolding find_job remove_job
length-remove_job id [] job h = cc
length-remove_job id ((j, job') ∷ jobs) job h = ground (arith, length-remove_job id jobs job)

pub IsLive-remove_job :
    (id : ℕ) (jobs : Jobs) (job : ActiveJob)
    → find_job id jobs ≡ some job
    → All IsLive (reservations jobs)
    → IsLive job.reservation × All IsLive (reservations (remove_job id jobs))
unfolding find_job remove_job
IsLive-remove_job id [] job h l = cc
IsLive-remove_job id ((j, job') ∷ jobs) job h l = ground (arith, IsLive-remove_job id jobs job)

-- Flags are all that a cancellation changes.
pub reservations-mark_cancelled :
    (id : ℕ) (jobs : Jobs) → reservations (mark_cancelled id jobs) ≡ reservations jobs
unfolding mark_cancelled
reservations-mark_cancelled id [] = refl
reservations-mark_cancelled id ((j, job) ∷ jobs) =
    ground (arith, reservations-mark_cancelled id jobs)

pub budgets-mark_cancelled :
    (id : ℕ) (jobs : Jobs) → budgets (mark_cancelled id jobs) ≡ budgets jobs
unfolding mark_cancelled
budgets-mark_cancelled id [] = refl
budgets-mark_cancelled id ((j, job) ∷ jobs) = ground (arith, budgets-mark_cancelled id jobs)

pub length-mark_cancelled : (id : ℕ) (jobs : Jobs) → length (mark_cancelled id jobs) ≡ length jobs
unfolding mark_cancelled
length-mark_cancelled id [] = refl
length-mark_cancelled id ((j, job) ∷ jobs) = ground (arith, length-mark_cancelled id jobs)

abbrev pub cancelled_if : Option ActiveJob → Option ActiveJob
cancelled_if none = none
cancelled_if (some job) = some (cancel_job job)

-- The job that is cancelled has its flag set, and every other job stays as it is.
pub find_job-mark_cancelled :
    (id k : ℕ) (jobs : Jobs)
    → ((id ≡ k → find_job k (mark_cancelled id jobs) ≡ cancelled_if (find_job k jobs))
        × (id ≢ k → find_job k (mark_cancelled id jobs) ≡ find_job k jobs))
unfolding mark_cancelled find_job
find_job-mark_cancelled id k [] = (λ e. refl, λ e. refl)
find_job-mark_cancelled id k ((j, job) ∷ jobs) = (
  λ e. ground (arith, (find_job-mark_cancelled id k jobs).0),
  λ ne. ground (arith, (find_job-mark_cancelled id k jobs).1),
)

find_job-mark_cancelled-none :
    (id k : ℕ) (jobs : Jobs) → find_job k jobs ≡ none → find_job k (mark_cancelled id jobs) ≡ none
unfolding mark_cancelled find_job
find_job-mark_cancelled-none id k [] h = refl
find_job-mark_cancelled-none id k ((j, job) ∷ jobs) h =
    ground (arith, find_job-mark_cancelled-none id k jobs)

pub mark_cancelled-Distinct :
    (id : ℕ) (jobs : Jobs) → Distinct jobs → Distinct (mark_cancelled id jobs)
unfolding mark_cancelled
mark_cancelled-Distinct id [] h = h
mark_cancelled-Distinct id ((j, job) ∷ jobs) h =
    ground (arith, mark_cancelled-Distinct id jobs, find_job-mark_cancelled-none id j jobs)

pub reservations-mark_all : (jobs : Jobs) → reservations (mark_all jobs) ≡ reservations jobs
unfolding mark_all
reservations-mark_all [] = refl
reservations-mark_all ((j, job) ∷ jobs) = ground (arith, reservations-mark_all jobs)

pub budgets-mark_all : (jobs : Jobs) → budgets (mark_all jobs) ≡ budgets jobs
unfolding mark_all
budgets-mark_all [] = refl
budgets-mark_all ((j, job) ∷ jobs) = ground (arith, budgets-mark_all jobs)

pub length-mark_all : (jobs : Jobs) → length (mark_all jobs) ≡ length jobs
unfolding mark_all
length-mark_all [] = refl
length-mark_all ((j, job) ∷ jobs) = ground (arith, length-mark_all jobs)

pub find_job-mark_all :
    (k : ℕ) (jobs : Jobs) → find_job k (mark_all jobs) ≡ cancelled_if (find_job k jobs)
unfolding mark_all find_job
find_job-mark_all k [] = refl
find_job-mark_all k ((j, job) ∷ jobs) = ground (arith, find_job-mark_all k jobs)

pub mark_all-Distinct : (jobs : Jobs) → Distinct jobs → Distinct (mark_all jobs)
unfolding mark_all
mark_all-Distinct [] h = h
mark_all-Distinct ((j, job) ∷ jobs) h =
    ground (arith, mark_all-Distinct jobs, find_job-mark_all j jobs)
