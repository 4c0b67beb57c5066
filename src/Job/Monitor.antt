-- ===== src/Job/Monitor.antt =====
-- The loop of `supervise_child` in native/src/job.rs, with `try_wait` of
-- native/src/linux/clone.rs. The kernel, the readers and the artifact check are seen in rounds; a
-- list of rounds that is over means that the loop still runs. Instants are in nanoseconds.
pub mod Decision
pub mod Deadline
use micro_sandbox.Prelude.{
  ℕ, ◌+◌, max, Bool, true, false, ◌||◌, Option, none, some, List, [], ◌∷◌, inl, inr, leb,
  if◌then◌else◌,
}
use micro_sandbox.Error.{SandboxError, io, Result, ok, err, ◌>>=◌, ◌>>◌}
use micro_sandbox.Host.{IoResult}
use micro_sandbox.Linux.{is_interrupted}

-- Twenty milliseconds.
abbrev pub monitor_interval : ℕ
monitor_interval = 20000000

-- What the loop can find in one round.
pub record MonitorRound : Type 0 where
  -- `waitpid` with WNOHANG: the status, once the child has ended.
  pub waitpid : IoResult (Option ℕ)
  pub now : ℕ
  -- `memory_current_bytes`.
  pub memory : Option ℕ
  -- `validate_outputs`, which holds where there is no workspace.
  pub artifacts : Result (Unit {0})
  pub overflow : Bool
  -- `send_signal(SIGKILL)`, `kill_all` and `wait`, should the child be killed.
  pub signal : Result (Unit {0})
  pub kill_all : Result (Unit {0})
  pub wait : Result ℕ
  -- `wait_for_event`.
  pub event : Result (Unit {0})

-- The variables of the loop.
pub record Monitor : Type 0 where
  pub next_check : ℕ
  pub peak_memory : ℕ

-- How the loop ends.
pub record Ended : Type 0 where
  pub status : ℕ
  pub timed_out : Bool
  pub artifact_error : Option SandboxError
  pub peak_memory : ℕ

pub data Turn : Type 0 where
  again : Monitor → Turn
  stopped : Result Ended → Turn

-- `RunningChild::try_wait`.
abbrev pub try_wait : IoResult (Option ℕ) → Result (Option ℕ)
try_wait (inl e) = if is_interrupted e.kind then ok none else err (io e)
try_wait (inr status) = ok status

abbrev unwrap_or_zero : Option ℕ → ℕ
unwrap_or_zero none = 0
unwrap_or_zero (some n) = n

unfoldable pub kill_and_wait : MonitorRound → Result ℕ
kill_and_wait round = do round.signal; round.kill_all; round.wait

abbrev pub ended : Bool → Option SandboxError → ℕ → Result ℕ → Result Ended
ended timed_out artifact_error peak waited = do
  status ← waited
  ok (record {
    status = status;
    timed_out = timed_out;
    artifact_error = artifact_error;
    peak_memory = peak;
  })

module _ (deadline : ℕ) where
  abbrev pub next_turn : Monitor → Result (Unit {0}) → Turn
  next_turn m (err e) = stopped (err e)
  next_turn m (ok _) = again m

  -- The deadline, the output budget, and the wait for an event.
  unfoldable pub check_bounds : MonitorRound → Monitor → Turn
  unfolding kill_and_wait
  check_bounds round m =
      if leb deadline round.now || round.overflow
      then stopped (ended (leb deadline round.now) none m.peak_memory (kill_and_wait round))
      else next_turn m round.event

  abbrev pub checked : MonitorRound → ℕ → Result (Unit {0}) → Turn
  checked round peak (err e) = stopped (ended false (some e) peak (kill_and_wait round))
  checked round peak (ok _) =
      check_bounds round (record { next_check = round.now + monitor_interval; peak_memory = peak })

  unfoldable pub look : MonitorRound → Monitor → Result (Option ℕ) → Turn
  unfolding check_bounds
  look round m (err e) = stopped (err e)
  look round m (ok (some status)) = stopped (ended false none m.peak_memory (ok status))
  look round m (ok none) =
      if leb m.next_check round.now
      then checked round (max m.peak_memory (unwrap_or_zero round.memory)) round.artifacts
      else check_bounds round m

  unfoldable pub turn : MonitorRound → Monitor → Turn
  unfolding look
  turn round m = look round m (try_wait round.waitpid)

  unfoldable pub monitor : List MonitorRound → Monitor → Option (Result Ended)
  unfolding turn
  monitor [] m = none
  monitor (round ∷ rest) m = elim (turn round m) [
    | again m' ↦ monitor rest m'
    | stopped result ↦ some result
  ]
