-- ===== src/Job/Monitor/Decision.antt =====
-- Why the loop of `supervise_child` in native/src/job.rs has ended, where it ends without an error.
use mathlib.Core.Path.{subst}
use micro_sandbox.Prelude.{
  ℕ, ◌≡◌, refl, ap, Bool, true, false, ◌||◌, Option, none, some, List, [], ◌∷◌, ◌++◌, All, leb,
  Bool-cases, inl, inr, ◌⊎◌, if◌then◌else◌,
}
use micro_sandbox.Error.{SandboxError, Result, ok, err}
use micro_sandbox.Job.Monitor.{
  MonitorRound, Monitor, Ended, Turn, again, stopped, ended, kill_and_wait, try_wait, next_turn,
  check_bounds, checked, look, turn, monitor,
}

-- The child runs on, in time and within its output budget.
abbrev pub RunsOn : ℕ → MonitorRound → Type 0
RunsOn deadline round =
    (try_wait round.waitpid ≡ ok none) × ((leb deadline round.now || round.overflow) ≡ false)

abbrev pub Exited : MonitorRound → Ended → Type 0
Exited round e =
    (try_wait round.waitpid ≡ ok (some e.status))
    × (e.timed_out ≡ false)
    × (e.artifact_error ≡ none)

abbrev pub Stopped : ℕ → MonitorRound → Ended → Type 0
Stopped deadline round e =
    (try_wait round.waitpid ≡ ok none)
    × (kill_and_wait round ≡ ok e.status)
    × ((leb deadline round.now || round.overflow) ≡ true)
    × (e.timed_out ≡ leb deadline round.now)
    × (e.artifact_error ≡ none)

abbrev pub Refused : MonitorRound → Ended → Type 0
Refused round e =
    (try_wait round.waitpid ≡ ok none)
    × (kill_and_wait round ≡ ok e.status)
    × (e.timed_out ≡ false)
    × ((failure : SandboxError) × (round.artifacts ≡ err failure)
        × (e.artifact_error ≡ some failure))

abbrev pub Cause : ℕ → MonitorRound → Ended → Type 0
Cause deadline round e = Exited round e ⊎ (Stopped deadline round e ⊎ Refused round e)

-- What a turn says of its round.
abbrev Means : ℕ → MonitorRound → Turn → Type 0
Means deadline round (again _) = RunsOn deadline round
Means deadline round (stopped (err _)) = Unit
Means deadline round (stopped (ok e)) = Cause deadline round e

next_turn-Means :
    (deadline : ℕ) (round : MonitorRound) (m : Monitor) (event : Result (Unit {0}))
    → RunsOn deadline round
    → Means deadline round (next_turn deadline m event)
next_turn-Means deadline round m (err e) h = tt
next_turn-Means deadline round m (ok _) h = h

stopped-Means :
    (deadline : ℕ) (round : MonitorRound) (peak : ℕ) (waited : Result ℕ)
    → kill_and_wait round ≡ waited
    → try_wait round.waitpid ≡ ok none
    → (leb deadline round.now || round.overflow) ≡ true
    → Means deadline round (stopped (ended (leb deadline round.now) none peak waited))
stopped-Means deadline round peak (err e) w runs h = tt
stopped-Means deadline round peak (ok status) w runs h = inr (inl (runs, w, h, refl, refl))

refused-Means :
    (deadline : ℕ) (round : MonitorRound) (peak : ℕ) (waited : Result ℕ) (failure : SandboxError)
    → kill_and_wait round ≡ waited
    → try_wait round.waitpid ≡ ok none
    → round.artifacts ≡ err failure
    → Means deadline round (stopped (ended false (some failure) peak waited))
refused-Means deadline round peak (err e) failure w runs h = tt
refused-Means deadline round peak (ok status) failure w runs h =
    inr (inr (runs, w, refl, (failure, h, refl)))

bounds_mean :
    (deadline : ℕ) (round : MonitorRound) (m : Monitor)
    → try_wait round.waitpid ≡ ok none
    → Means deadline round (check_bounds deadline round m)
unfolding check_bounds
bounds_mean deadline round m runs = elim (Bool-cases (leb deadline round.now || round.overflow)) [
  | inl p ↦ rw p (stopped-Means deadline round m.peak_memory (kill_and_wait round) refl runs p)
  | inr p ↦ rw p (next_turn-Means deadline round m round.event (runs, p))
]

checked-Means :
    (deadline : ℕ) (round : MonitorRound) (peak : ℕ) (artifacts : Result (Unit {0}))
    → round.artifacts ≡ artifacts
    → try_wait round.waitpid ≡ ok none
    → Means deadline round (checked deadline round peak artifacts)
checked-Means deadline round peak (err e) h runs =
    refused-Means deadline round peak (kill_and_wait round) e refl runs h
checked-Means deadline round peak (ok _) h runs = bounds_mean deadline round _ runs

if_Means :
    (deadline : ℕ) (round : MonitorRound) (b : Bool) (x y : Turn)
    → Means deadline round x
    → Means deadline round y
    → Means deadline round (if b then x else y)
if_Means deadline round true x y s t = s
if_Means deadline round false x y s t = t

look-Means :
    (deadline : ℕ) (round : MonitorRound) (m : Monitor) (r : Result (Option ℕ))
    → try_wait round.waitpid ≡ r
    → Means deadline round (look deadline round m r)
unfolding look
look-Means deadline round m (err e) h = tt
look-Means deadline round m (ok (some status)) h = inl (h, refl, refl)
look-Means deadline round m (ok none) h =
    if_Means deadline round (leb m.next_check round.now) _ _
      (checked-Means deadline round _ round.artifacts refl h) (bounds_mean deadline round m h)

turn-Means :
    (deadline : ℕ) (round : MonitorRound) (m : Monitor)
    → Means deadline round (turn deadline round m)
unfolding turn
turn-Means deadline round m = look-Means deadline round m (try_wait round.waitpid) refl

-- How the rounds went.
abbrev pub Decided : ℕ → List MonitorRound → Ended → Type 0
Decided deadline rounds e =
    (before : List MonitorRound) × (round : MonitorRound) × (after : List MonitorRound) × (rounds
      ≡ before ++ round ∷ after)
    × All (RunsOn deadline) before
    × Cause deadline round e

Decided-by :
    (deadline : ℕ) (rest : List MonitorRound) (m : Monitor) (e : Ended) (t : Turn)
    (round : MonitorRound)
    → turn deadline round m ≡ t
    → Means deadline round t
    → ((m' : Monitor) → monitor deadline rest m' ≡ some (ok e) → Decided deadline rest e)
    → monitor deadline (round ∷ rest) m ≡ some (ok e)
    → Decided deadline (round ∷ rest) e
unfolding monitor
Decided-by deadline rest m e (again m') round h runs later result =
    let (before, last, after, split, on, cause) = later m' (rw (monitor, h) at result) in
    (round ∷ before, last, after, ap (λ l. round ∷ l) split, (runs, on), cause)
Decided-by deadline rest m e (stopped (err failure)) round h means later result =
    absurd (cc (rw (monitor, h) at result))
Decided-by deadline rest m e (stopped (ok e')) round h cause later result =
    let same : e' ≡ e = cc (rw (monitor, h) at result) in
    ([], round, rest, refl, tt, subst (Cause deadline round) same cause)

-- Where the loop ends without an error, the child ran on in every round but the last one looked at:
-- it had not ended, the clock was before the deadline and the output within its budget. In the last
-- one it is one of three things. The child has ended by itself, and its status is the one reported.
-- Or the deadline has passed or the output is over its budget: the child was killed, its cgroup
-- too, and it was waited for; and `timed_out` says whether the deadline had passed. Or the check of
-- the artifacts has failed: the child was killed in the same way, and the failure is reported.
pub monitor-Decided :
    (deadline : ℕ) (rounds : List MonitorRound) (m : Monitor) (e : Ended)
    → monitor deadline rounds m ≡ some (ok e)
    → Decided deadline rounds e
unfolding monitor
monitor-Decided deadline [] m e h = absurd (cc h)
monitor-Decided deadline (round ∷ rest) m e h =
    Decided-by deadline rest m e (turn deadline round m) round refl (turn-Means deadline round m)
      (λ m'. monitor-Decided deadline rest m' e) h
