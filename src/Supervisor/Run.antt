-- ===== src/Supervisor/Run.antt =====
-- `run` and `Drop` of native/src/supervisor.rs: the protocol loop over the events that its channel
-- delivers. The supervisor holds a sender itself, so the channel is never closed: a run over a list
-- of events either returns or waits for more.
pub mod Safety
pub mod Answers
use micro_sandbox.Prelude.{
  Bool, true, false, Option, none, some, List, [], ◌∷◌, ◌++◌, ℕ, if◌then◌else◌,
}
use micro_sandbox.Error.{Result, ok, err}
use micro_sandbox.Protocol.{Request, Serde, success}
use micro_sandbox.Supervisor.State.{Supervisor, Jobs, Effect, kill_pidfd, cleanup_job}
use micro_sandbox.Supervisor.Start.{World}
use micro_sandbox.Supervisor.Handle.{
  Handled, respond, cancel_all, FinishedJob, handle_request, finish,
}

-- What the reader thread and the waiter threads send.
pub data Event (V : Type 0) : Type 0 where
  request : Result (Option (Request V)) → Event V
  finished : FinishedJob → Event V

abbrev pub no_jobs : Jobs → Bool
no_jobs [] = true
no_jobs (_ ∷ _) = false

-- What `Drop` does with the jobs that are left: a launcher is killed and its job cleaned up.
abbrev drop_effects : Jobs → List Effect
drop_effects [] = []
drop_effects ((_, job) ∷ rest) = kill_pidfd job.pidfd ∷ cleanup_job job.job_id ∷ drop_effects rest

unfoldable pub drop_supervisor : Supervisor → List Effect
drop_supervisor s = s.effects ++ drop_effects s.active

module _ {V : Type 0} (serde : Serde V) where
  -- The two tests at the head of the loop: whether it returns, and how.
  closing_by : World → Supervisor → Option ℕ → Option Handled
  closing_by w s (some id) =
      if no_jobs s.active then some (respond serde w s (success id serde.closed)) else none
  closing_by w s none = if s.eof then (if no_jobs s.active then some (ok tt, s) else none) else none

  unfoldable pub closing : World → Supervisor → Option Handled
  unfolding closing_by
  closing w s = closing_by w s s.shutdown_id

  -- The `match` on an event.
  unfoldable pub handle_event : World → Supervisor → Event V → Handled
  handle_event w s (request (ok (some r))) = handle_request serde w s r
  handle_event w s (request (ok none)) = (ok tt, cancel_all serde (record s { eof = true }))
  handle_event w s (request (err e)) = (err e, s)
  handle_event w s (finished f) = finish serde w s f

  -- How a run stands: it has returned, or it waits for an event.
  abbrev Ran : Type 0
  Ran = Option (Result (Unit {0})) × Supervisor

  abbrev go_on : Handled → (Supervisor → Ran) → Ran
  go_on (err e, s) next = (some (err e), s)
  go_on (ok _, s) next = next s

  -- The loop. Each round has its own moment of the world.
  unfoldable pub run : World → Supervisor → List (Event V × World) → Ran
  run w s [] = elim (closing w s) [ some (r, s') ↦ (some r, s') | none ↦ (none, s) ]
  run w s ((event, later) ∷ rest) = elim (closing w s) [
    | some (r, s') ↦ (some r, s')
    | none ↦ go_on (handle_event w s event) (λ s'. run later s' rest)
  ]
