-- ===== src/Job/Monitor/Deadline.antt =====
-- The loop of `supervise_child` in native/src/job.rs ends at its deadline.
use micro_sandbox.Prelude.{
  ℕ, ◌≡◌, refl, Bool, true, false, Option, none, some, List, [], ◌∷◌, any, leb, Bool-cases, inl,
  inr, arith, if◌then◌else◌,
}
use micro_sandbox.Error.{Result, ok, err}
use micro_sandbox.Job.Monitor.{
  MonitorRound, Monitor, Ended, Turn, again, stopped, ended, kill_and_wait, try_wait, check_bounds,
  checked, look, turn, monitor,
}

abbrev pub is_late : ℕ → MonitorRound → Bool
is_late deadline round = leb deadline round.now

abbrev Stops : Turn → Type 0
Stops t = (result : Result Ended) × (t ≡ stopped result)

if_Stops : (b : Bool) (x y : Turn) → Stops x → Stops y → Stops (if b then x else y)
if_Stops true x y s t = s
if_Stops false x y s t = t

late_bounds :
    (deadline : ℕ) (round : MonitorRound) (m : Monitor)
    → leb deadline round.now ≡ true
    → Stops (check_bounds deadline round m)
unfolding check_bounds
late_bounds deadline round m late =
    (ended (leb deadline round.now) none m.peak_memory (kill_and_wait round), rw late refl)

late_checked :
    (deadline : ℕ) (round : MonitorRound) (peak : ℕ) (artifacts : Result (Unit {0}))
    → leb deadline round.now ≡ true
    → Stops (checked deadline round peak artifacts)
late_checked deadline round peak (err e) late =
    (ended false (some e) peak (kill_and_wait round), refl)
late_checked deadline round peak (ok _) late = late_bounds deadline round _ late

late_look :
    (deadline : ℕ) (round : MonitorRound) (m : Monitor) (r : Result (Option ℕ))
    → leb deadline round.now ≡ true
    → Stops (look deadline round m r)
unfolding look
late_look deadline round m (err e) late = (err e, refl)
late_look deadline round m (ok (some status)) late =
    (ended false none m.peak_memory (ok status), refl)
late_look deadline round m (ok none) late =
    if_Stops (leb m.next_check round.now) _ _ (late_checked deadline round _ round.artifacts late)
      (late_bounds deadline round m late)

late_turn :
    (deadline : ℕ) (round : MonitorRound) (m : Monitor)
    → leb deadline round.now ≡ true
    → Stops (turn deadline round m)
unfolding turn
late_turn deadline round m late = late_look deadline round m (try_wait round.waitpid) late

ends_by :
    (deadline : ℕ) (rounds : List MonitorRound) (m : Monitor) (t : Turn) (round : MonitorRound)
    → turn deadline round m ≡ t
    → ((m' : Monitor) → (result : Result Ended) × (monitor deadline rounds m' ≡ some result))
    → (result : Result Ended) × (monitor deadline (round ∷ rounds) m ≡ some result)
unfolding monitor
ends_by deadline rounds m (stopped result) round h later = (result, rw (monitor, h) refl)
ends_by deadline rounds m (again m') round h later =
    let (result, eq) = later m' in (result, rw (monitor, h) eq)

-- The loop ends, with a result or an error, in the first round that looks at the clock at or behind
-- the deadline, if not earlier: whatever the child, the readers and the checks do, and from any
-- state of the loop.
pub monitor-is_late :
    (deadline : ℕ) (rounds : List MonitorRound) (m : Monitor)
    → any (is_late deadline) rounds ≡ true
    → (result : Result Ended) × (monitor deadline rounds m ≡ some result)
unfolding monitor
monitor-is_late deadline [] m h = absurd (cc h)
monitor-is_late deadline (round ∷ rest) m h = elim (Bool-cases (is_late deadline round)) [
  | inl late ↦ let (result, eq) = late_turn deadline round m late in (result, rw (monitor, eq) refl)
  | inr early ↦
      ends_by deadline rest m (turn deadline round m) round refl
        λ m'. monitor-is_late deadline rest m' (ground (arith, h, early))
]
