-- ===== src/Supervisor/Run/Answers.antt =====
-- The answers of a whole run of native/src/supervisor.rs: as many frames as its events are owed.
use micro_sandbox.Prelude.{
  ℕ, ◌+◌, ◌≡◌, ◌≢◌, refl, Option, none, some, List, [], ◌∷◌, length, arith, Option-cases, inl, inr,
  Bool-cases,
}
use micro_sandbox.Error.{Text, SandboxError, ok, err}
use micro_sandbox.Host.{FilePath}
use micro_sandbox.Scheduler.{Capacity, new}
use micro_sandbox.Protocol.{Serde}
use micro_sandbox.Supervisor.State.{Supervisor, initial}
use micro_sandbox.Supervisor.Start.{World}
use micro_sandbox.Supervisor.Handle.{Handled, cancel_all}
use micro_sandbox.Supervisor.Jobs.Accounts.{IsSound}
use micro_sandbox.Supervisor.Handle.Answers.{
  owed, settled, Settles, handle_request-Settles, finish-Settles, respond-Settles,
}
use micro_sandbox.Supervisor.Jobs.{length-mark_all}
use micro_sandbox.Supervisor.Run.{
  Event, request, finished, no_jobs, closing, closing_by, handle_event, go_on, run, Ran,
}
use micro_sandbox.Supervisor.Run.Safety.{initial-IsSound, handle_event-IsSound}

module _ {V : Type 0} (serde : Serde V) where
  abbrev owed_event : Supervisor → Event V → ℕ
  owed_event s (request (ok (some r))) = owed serde s r
  owed_event s (request (ok none)) = 0
  owed_event s (request (err e)) = 0
  owed_event s (finished f) = 0

  abbrev owed_return : Option Handled → Option ℕ → ℕ
  owed_return none shutdown = 0
  owed_return (some _) none = 0
  owed_return (some _) (some id) = 1

  -- The answers that a run owes: those of the requests that it takes up, and the one to the shutdown
  -- with which it returns.
  pub demand : World → Supervisor → List (Event V × World) → ℕ
  demand w s [] = owed_return (closing serde w s) s.shutdown_id
  demand w s ((event, later) ∷ rest) = elim (closing serde w s) [
    | some h ↦ owed_return (some h) s.shutdown_id
    | none ↦ owed_event s event + demand later (handle_event serde w s event).1 rest
  ]

  handle_event-Settles :
      (w : World) (s : Supervisor) (e : Event V)
      → IsSound s
      → Settles s (owed_event s e) (handle_event serde w s e)
  unfolding handle_event cancel_all
  handle_event-Settles w s (request (ok (some r))) a = handle_request-Settles serde w s r a
  handle_event-Settles w s (request (ok none)) a = omega (arith, length-mark_all s.active)
  handle_event-Settles w s (request (err e)) a = tt
  handle_event-Settles w s (finished f) a = finish-Settles serde w s f

  -- A run that has not failed has settled what it owes.
  abbrev Settled : Supervisor → ℕ → Ran serde → Type 0
  Settled s n (some (err e), s') = Unit
  Settled s n (some (ok _), s') = settled s' ≡ settled s + n
  Settled s n (none, s') = settled s' ≡ settled s + n

  returns-Settled :
      (s : Supervisor) (n : ℕ) (h : Handled) → Settles s n h → Settled s n (some h.0, h.1)
  returns-Settled s n (err e, s') k = tt
  returns-Settled s n (ok _, s') k = k

  abbrev Closed : Supervisor → Option ℕ → Option Handled → Type 0
  Closed s shutdown none = Unit
  Closed s shutdown (some h) = Settled s (owed_return (some h) shutdown) (some h.0, h.1)

  closing_by-Closed :
      (w : World) (s : Supervisor) (id : Option ℕ) → Closed s id (closing_by serde w s id)
  unfolding closing_by
  closing_by-Closed w s (some id) = elim (Bool-cases (no_jobs s.active)) [
    | inl e ↦ rw e (returns-Settled s 1 _ (respond-Settles serde w s _))
    | inr e ↦ rw e tt
  ]
  closing_by-Closed w s none = elim (Bool-cases s.eof) [
    | inl ended ↦ elim (Bool-cases (no_jobs s.active)) [
      | inl e ↦ rw (ended, e) (omega arith)
      | inr e ↦ rw (ended, e) tt
    ]
    | inr ended ↦ rw ended tt
  ]

  closing-Closed : (w : World) (s : Supervisor) → Closed s s.shutdown_id (closing serde w s)
  unfolding closing
  closing-Closed w s = closing_by-Closed w s s.shutdown_id

  Settled-later :
      (s s' : Supervisor) (n m : ℕ) (r : Ran serde)
      → settled s' ≡ settled s + n
      → Settled s' m r
      → Settled s (n + m) r
  Settled-later s s' n m (some (err e), t) h k = tt
  Settled-later s s' n m (some (ok _), t) h k = omega (arith, h, k)
  Settled-later s s' n m (none, t) h k = omega (arith, h, k)

  go_on-Settled :
      (s : Supervisor) (h : Handled) (next : Supervisor → Ran serde) (n m : ℕ)
      → Settles s n h
      → Settled h.1 m (next h.1)
      → Settled s (n + m) (go_on serde h next)
  go_on-Settled s (err e, s') next n m h k = tt
  go_on-Settled s (ok _, s') next n m h k = Settled-later s s' n m (next s') h k

  run-Settled :
      (w : World) (s : Supervisor) (events : List (Event V × World))
      → IsSound s
      → Settled s (demand w s events) (run serde w s events)
  unfolding run demand
  run-Settled w s [] a = elim (Option-cases (closing serde w s)) [
    | inl e ↦ rw (e, run, demand) (omega arith)
    | inr (h, e) ↦ rw (e, run, demand) (rw e at (closing-Closed w s))
  ]
  run-Settled w s ((event, later) ∷ rest) a = elim (Option-cases (closing serde w s)) [
    | inl e ↦
        rw (e, run, demand)
          (go_on-Settled s (handle_event serde w s event) (λ s'. run serde later s' rest) _ _
            (handle_event-Settles w s event a)
            (run-Settled later (handle_event serde w s event).1 rest
              (handle_event-IsSound serde w s event a)))
    | inr (h, e) ↦ rw (e, run, demand) (rw e at (closing-Closed w s))
  ]

-- A run that has not failed has written a frame for every answer that the requests it took up ask
-- for, less one for each job that still runs: every `health`, `run` and unknown request asks for
-- one, a cancel that cannot be read too unless it carries the ID of a running job, a cancel that
-- can be read for none, a shutdown for the one that is written when the loop returns, and any
-- request after a shutdown for one.
pub run_settles :
    {V : Type 0} (serde : Serde V) (w : World) (root : FilePath) (limit : Capacity) (token : Text)
    (events : List (Event V × World))
    → ((e : SandboxError) → (run serde w (initial root (new limit) token) events).0 ≢ some (err e))
    → let s = (run serde w (initial root (new limit) token) events).1 in
      length s.written + length s.active ≡ demand serde w (initial root (new limit) token) events
run_settles serde w root limit token events no_error =
    by (run serde w start events)
      (run-Settled serde w start events (initial-IsSound root limit token)) no_error
  where
    start : Supervisor
    start = initial root (new limit) token

    by :
        (r : Ran serde)
        → Settled serde start (demand serde w start events) r
        → ((e : SandboxError) → r.0 ≢ some (err e))
        → length r.1.written + length r.1.active ≡ demand serde w start events
    by (some (err e), s') h ne = absurd (ne e refl)
    by (some (ok _), s') h ne = omega (arith, h)
    by (none, s') h ne = omega (arith, h)
