-- ===== src/Supervisor/Run/Safety.antt =====
-- What holds of the supervisor after any events, and when its loop returns.
use micro_sandbox.Prelude.{
  ℕ, ◌≡◌, refl, ap, true, Option, none, some, List, [], ◌∷◌, arith, Bool-cases, Option-cases, inl,
  inr, ◌∙◌,
}
use micro_sandbox.Error.{Text, ok, err}
use micro_sandbox.Host.{FilePath}
use micro_sandbox.Scheduler.{Capacity, no_capacity, new}
use micro_sandbox.Scheduler.Ledger.{new-Holds, total}
use micro_sandbox.Protocol.{Serde, success}
use micro_sandbox.Supervisor.State.{Supervisor, Jobs, initial}
use micro_sandbox.Supervisor.Start.{World}
use micro_sandbox.Supervisor.Jobs.{reservations, budgets}
use micro_sandbox.Supervisor.Handle.{Handled}
use micro_sandbox.Supervisor.Jobs.Accounts.{IsSound}
use micro_sandbox.Supervisor.Handle.Accounts.{
  respond-IsSound, cancel_all-IsSound, handle_request-IsSound, finish-IsSound, respond-active,
}
use micro_sandbox.Supervisor.Run.{
  Event, request, finished, no_jobs, closing, closing_by, handle_event, go_on, run, Ran,
}

pub initial-IsSound :
    (root : FilePath) (limit : Capacity) (token : Text) → IsSound (initial root (new limit) token)
unfolding new
initial-IsSound root limit token = record {
  holds = new-Holds limit;
  disk_total = refl;
  disk_small = omega arith;
  few = omega arith;
  distinct = tt;
}

module _ {V : Type 0} (serde : Serde V) where
  pub handle_event-IsSound :
      (w : World) (s : Supervisor) (e : Event V) → IsSound s → IsSound (handle_event serde w s e).1
  unfolding handle_event
  handle_event-IsSound w s (request (ok (some r))) a = handle_request-IsSound serde w s r a
  handle_event-IsSound w s (request (ok none)) a =
      cancel_all-IsSound serde w (record s { eof = true }) a
  handle_event-IsSound w s (request (err e)) a = a
  handle_event-IsSound w s (finished f) a = finish-IsSound serde w s f a

  -- A return keeps the accounts, and one that is no failure leaves no job.
  abbrev Closes : Option Handled → Type 0
  Closes none = Unit
  Closes (some (r, s)) = IsSound s × (r ≡ ok tt → s.active ≡ [])

  no_jobs-nil : (jobs : Jobs) → no_jobs jobs ≡ true → jobs ≡ []
  no_jobs-nil [] h = refl
  no_jobs-nil (j ∷ jobs) h = cc

  closing-Closes : (w : World) (s : Supervisor) → IsSound s → Closes (closing serde w s)
  unfolding closing closing_by
  closing-Closes w s a = by s.shutdown_id
    where
      by : (id : Option ℕ) → Closes (closing_by serde w s id)
      by (some id) = elim (Bool-cases (no_jobs s.active)) [
        | inl e ↦ rw e (
          respond-IsSound serde w s (success id serde.closed) a,
          λ h. respond-active serde w s (success id serde.closed) ∙ no_jobs-nil s.active e,
        )
        | inr e ↦ rw e tt
      ]
      by none = elim (Bool-cases s.eof) [
        | inl closed ↦ elim (Bool-cases (no_jobs s.active)) [
          | inl e ↦ rw (closed, e) (a, λ h. no_jobs-nil s.active e)
          | inr e ↦ rw (closed, e) tt
        ]
        | inr closed ↦ rw closed tt
      ]

  -- How a run stands.
  abbrev Safe : Ran serde → Type 0
  Safe (r, s) = IsSound s × (r ≡ some (ok tt) → s.active ≡ [])

  go_on-Safe :
      (h : Handled) (next : Supervisor → Ran serde)
      → IsSound h.1
      → ((s : Supervisor) → IsSound s → Safe (next s))
      → Safe (go_on serde h next)
  go_on-Safe (err e, s) next a k = (a, λ h. cc)
  go_on-Safe (ok _, s) next a k = k s a

  run-Safe :
      (w : World) (s : Supervisor) (events : List (Event V × World))
      → IsSound s
      → Safe (run serde w s events)
  unfolding run
  run-Safe w s [] a = elim (Option-cases (closing serde w s)) [
    | inl e ↦ rw (e, run) (a, λ h. cc)
    | inr ((r, s'), e) ↦
        let (sound, left) = rw e at (closing-Closes w s a) in
        rw (e, run) (sound, λ h. left (ground arith))
  ]
  run-Safe w s ((event, later) ∷ rest) a = elim (Option-cases (closing serde w s)) [
    | inl e ↦
        rw (e, run)
          (go_on-Safe (handle_event serde w s event) (λ s'. run serde later s' rest)
            (handle_event-IsSound w s event a) (λ s' a'. run-Safe later s' rest a'))
    | inr ((r, s'), e) ↦
        let (sound, left) = rw e at (closing-Closes w s a) in
        rw (e, run) (sound, λ h. left (ground arith))
  ]

-- After any events, however they end, the accounts of a supervisor that started empty are right:
-- the scheduler's reserved total is the sum of the running jobs' reservations, which are live, and
-- within its limit, the disk counter is the sum of their budgets and a u64, and at most 64 jobs run,
-- under different request IDs.
pub run_accounts :
    {V : Type 0} (serde : Serde V) (w : World) (root : FilePath) (limit : Capacity) (token : Text)
    (events : List (Event V × World))
    → IsSound (run serde w (initial root (new limit) token) events).1
run_accounts serde w root limit token events =
    (run-Safe serde w (initial root (new limit) token) events (initial-IsSound root limit token)).0

-- Where the loop of a supervisor that started empty returns with no error, no job runs any more and
-- nothing is reserved, neither capacity nor disk.
pub run_returns_empty :
    {V : Type 0} (serde : Serde V) (w : World) (root : FilePath) (limit : Capacity) (token : Text)
    (events : List (Event V × World))
    → (run serde w (initial root (new limit) token) events).0 ≡ some (ok tt)
    → let s = (run serde w (initial root (new limit) token) events).1 in
      (s.active ≡ []) × (s.scheduler.reserved ≡ no_capacity) × (s.workspace_reserved ≡ 0)
run_returns_empty serde w root limit token events h =
    let (a, left) =
      run-Safe serde w (initial root (new limit) token) events (initial-IsSound root limit token) in
    let e = left h in
    (e, a.holds.account ∙ ap (λ jobs. total (reservations jobs)) e, a.disk_total ∙ ap budgets e)
