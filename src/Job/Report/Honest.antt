-- ===== src/Job/Report/Honest.antt =====
-- What a result of `supervise_child` in native/src/job.rs says of the guest.
use micro_sandbox.Prelude.{
  ℕ, ◌≡◌, Bool, true, false, ◌||◌, leb, none, some, List, ◌∷◌, ◌++◌, ◌⊎◌, All,
}
use micro_sandbox.Error.{ok}
use micro_sandbox.Protocol.{Bytes}
use micro_sandbox.Job.Monitor.{MonitorRound, Monitor, Ended, kill_and_wait, try_wait}
use micro_sandbox.Job.Monitor.Decision.{RunsOn, Exited, Stopped}
use micro_sandbox.Job.Report.{LaunchResult, Codec, Finish}

-- How the guest ended, by the last round that was looked at.
abbrev EndedBy : ℕ → MonitorRound → Ended → Type 0
EndedBy deadline round e = Exited round e ⊎ Stopped deadline round e

-- The status and `timed_out`, by that round.
abbrev pub Ending : ℕ → MonitorRound → ℕ → Bool → Type 0
Ending deadline round status timed_out =
    ((try_wait round.waitpid ≡ ok (some status)) × (timed_out ≡ false))
    ⊎ ((try_wait round.waitpid ≡ ok none)
        × (kill_and_wait round ≡ ok status)
        × ((leb deadline round.now || round.overflow) ≡ true)
        × (timed_out ≡ leb deadline round.now))

-- The exit code of a guest that exited, the signal of one that a signal ended, and no more.
abbrev pub ExitOf : Codec → ℕ → LaunchResult → Type 0
ExitOf codec status result =
    ((codec.wifexited status ≡ true)
      × (result.exit_code ≡ some (codec.wexitstatus status))
      × (result.signal ≡ none))
    ⊎ (((codec.wifexited status ≡ false)
          × (codec.wifsignaled status ≡ true)
          × (result.exit_code ≡ none)
          × (result.signal ≡ some (codec.wtermsig status)))
        ⊎ ((codec.wifexited status ≡ false)
            × (codec.wifsignaled status ≡ false)
            × (result.exit_code ≡ none)
            × (result.signal ≡ none)))

-- What was collected behind the loop, and that each of its steps succeeded.
abbrev pub Carries : Codec → Finish → LaunchResult → Type 0
Carries codec f result =
    (stdout : Bytes) × (stderr : Bytes) × (f.kill_all ≡ ok tt)
    × (f.cleanup ≡ ok tt)
    × (f.stdout ≡ ok stdout)
    × (result.stdout_base64 ≡ codec.encode stdout)
    × (f.stderr ≡ ok stderr)
    × (result.stderr_base64 ≡ codec.encode stderr)
    × (f.artifacts ≡ ok result.artifacts)
    × (result.output_limit_exceeded ≡ f.overflow)
    × (result.oom_killed ≡ f.oom_killed)

abbrev pub IsHonest : Codec → ℕ → List MonitorRound → Finish → LaunchResult → Type 0
IsHonest codec deadline rounds f result =
    (before : List MonitorRound) × (round : MonitorRound) × (after : List MonitorRound)
    × (status : ℕ) × (rounds ≡ before ++ round ∷ after)
    × All (RunsOn deadline) before
    × Ending deadline round status result.timed_out
    × ExitOf codec status result
    × Carries codec f result
