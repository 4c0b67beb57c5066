-- ===== src/Linux/Clone.antt =====
-- The parent's half of native/src/linux/clone.rs: it waits for the child, maps the user, and lets
-- the child go on; and a child that is given up is killed and reaped, as `drop` does. Also
-- `send_signal` of native/src/linux/pidfd.rs. Instants are in nanoseconds.
pub mod Handshake
pub mod Ready
pub mod Isolated
use micro_sandbox.Prelude.{
  ℕ, String, Bool, true, false, ◌&&◌, Option, none, some, List, [], ◌∷◌, ◌++◌, inl, inr, leb, ◌==◌,
  if◌then◌else◌,
}
use micro_sandbox.Error.{Text, IoError, SandboxError, io, security, literal, Result, ok, err}
use micro_sandbox.Text.{codes, decimal}
use micro_sandbox.Host.{FilePath, join, IoResult, from_io}
use micro_sandbox.Cgroup.{is_not_found, has_errno}
use micro_sandbox.Linux.{
  Call, write_file, pidfd_signal, reap_process, PollRound, poll_failed, poll_nothing, poll_ready,
  Polled, Kernel, Io, follow, ◌>>=◌, ◌>>◌, perform, lift, or_io, is_interrupted, uninterrupted,
  read_byte, write_byte,
}

abbrev pub sigkill : ℕ
sigkill = 9

abbrev pub esrch : ℕ
esrch = 3

pub record RunningChild : Type 0 where
  pub pid : ℕ
  pub pidfd : ℕ
  pub reaped : Bool

-- `NamespaceParent`.
pub record NamespaceParent : Type 0 where
  pub child : RunningChild
  pub release_fd : ℕ
  pub armed_fd : ℕ

abbrev pub gone : IoError → Result (Unit {0})
gone e = if has_errno e esrch then ok tt else err (io e)

abbrev pub setup_timed_out : SandboxError
setup_timed_out = security (literal "isolated child setup timed out")

abbrev pub setup_failed : SandboxError
setup_failed = security (literal "isolated child failed before completing security setup")

abbrev no_setgroups : IoError → Result (Unit {0})
no_setgroups e = if is_not_found e.kind then ok tt else err (io e)

-- The byte that the first descriptor has.
abbrev pub is_one : IoResult (Option ℕ) → Bool
is_one (inr (some byte)) = byte == 1
is_one _ = false

-- What a round of `wait_until_ready` decides: `none` goes on to the next one.
unfoldable pub poll_round : ℕ → Bool → PollRound → Option (Result (Unit {0}))
poll_round deadline byte_is_one round =
    if leb deadline round.now then some (err setup_timed_out) else elim round.polled [
      | poll_failed e ↦ if is_interrupted e.kind then none else some (err (io e))
      | poll_nothing ↦ none
      | poll_ready pollin ↦ if pollin && byte_is_one then some (ok tt) else some (err setup_failed)
    ]

-- The loop. Behind the rounds that are listed the clock has passed the deadline.
unfoldable pub poll_rounds : ℕ → Bool → List PollRound → Result (Unit {0})
unfolding poll_round
poll_rounds deadline byte_is_one [] = err setup_timed_out
poll_rounds deadline byte_is_one (round ∷ rest) = elim (poll_round deadline byte_is_one round) [
  | none ↦ poll_rounds deadline byte_is_one rest
  | some result ↦ result
]

abbrev pub proc_file : ℕ → String → FilePath
proc_file pid name = codes name ∷ decimal pid ∷ codes "proc" ∷ []

module _ (k : Kernel) where
  -- The byte is read in the round that ends the loop, and nobody else reads it.
  unfoldable pub wait_until_ready : ℕ → ℕ → Io (Unit {0})
  unfolding poll_rounds uninterrupted
  wait_until_ready fd deadline = λ log.
      (let (earlier, last) = k.read log fd in
        (poll_rounds deadline (is_one (uninterrupted earlier last)) (k.poll log fd), log))

  unfoldable pub send_signal : RunningChild → ℕ → Io (Unit {0})
  send_signal child signal = perform k gone (pidfd_signal child.pidfd signal)

  -- `reap`, which does not look at the status or at a failure.
  unfoldable pub reap : ℕ → List Call → List Call
  reap pid log = log ++ reap_process pid ∷ []

  -- `wait`, with the child as it is left.
  unfoldable pub wait : RunningChild → List Call → (Result ℕ × RunningChild) × List Call
  unfolding uninterrupted
  wait child log =
      let (earlier, last) = k.waitpid log child.pid in
      let status = uninterrupted earlier last in
      (
        (from_io status, elim status [ inl _ ↦ child | inr _ ↦ record child { reaped = true } ]),
        log ++ reap_process child.pid ∷ [],
      )

  -- `Drop for RunningChild`.
  unfoldable pub drop_child : RunningChild → List Call → List Call
  unfolding send_signal reap
  drop_child child log =
      if child.reaped then log else reap child.pid (send_signal child sigkill log).1

  -- An early return drops the child.
  unfoldable pub or_drop : {A : Type 0} → RunningChild → Result A × List Call → Result A × List Call
  unfolding drop_child
  or_drop child (err e, log) = (err e, drop_child child log)
  or_drop child (ok a, log) = (ok a, log)

  -- The files that map the user and the group, with the numbers of the caller.
  unfoldable pub map_user : ℕ → ℕ → ℕ → Io (Unit {0})
  map_user pid uid gid = do
    perform k no_setgroups (write_file (proc_file pid "setgroups") (codes "deny\n"))
    perform k or_io
        (write_file (proc_file pid "uid_map") (codes "0 " ++ (decimal uid ++ codes " 1\n")))
    perform k or_io
        (write_file (proc_file pid "gid_map") (codes "0 " ++ (decimal gid ++ codes " 1\n")))

  unfoldable pub map_current_user_and_release : NamespaceParent → ℕ → ℕ → ℕ → Io RunningChild
  unfolding wait_until_ready map_user write_byte or_drop
  map_current_user_and_release parent uid gid deadline = λ log. or_drop parent.child (
      (do
        wait_until_ready parent.armed_fd deadline
        map_user parent.child.pid uid gid
        write_byte k parent.release_fd 1
        lift (ok parent.child))
        log)

  -- A child that does not say that it is ready is dropped.
  unfoldable pub confirm_ready : ℕ → ℕ → RunningChild → Io RunningChild
  unfolding wait_until_ready or_drop
  confirm_ready ready_fd deadline child =
      λ log. or_drop child (follow (wait_until_ready ready_fd deadline log) λ _. lift (ok child))

  -- The parent's part of `launch` up to the monitor.
  unfoldable pub start_child : NamespaceParent → ℕ → ℕ → ℕ → ℕ → Io RunningChild
  unfolding map_current_user_and_release confirm_ready
  start_child parent uid gid ready_fd deadline =
      map_current_user_and_release parent uid gid deadline >>= confirm_ready ready_fd deadline
