-- ===== src/Linux/Clone/Handshake.antt =====
-- What `map_current_user_and_release`, and the wait for a ready child behind it, of native/src/linux/clone.rs has done when it returns.
use mathlib.Core.Path.{subst}
use mathlib.Core.List.{append_assoc, append-nil}
use micro_sandbox.Prelude.{ℕ, ◌≡◌, refl, sym, ◌∙◌, ap, false, List, [], ◌∷◌, ◌++◌, inl, inr, ◌⊎◌}
use micro_sandbox.Error.{SandboxError, Result, ok, err}
use micro_sandbox.Text.{codes, decimal}
use micro_sandbox.Linux.{
  Call, write_file, write_to, pidfd_signal, reap_process, Kernel, follow, ◌>>◌, write_byte, follow,
  lift, or_io, uninterrupted,
}
use micro_sandbox.Linux.Completion.{
  Ends, Completes, Completes-then, Completes-perform, Completes-write_byte, Completes-lift,
}
use micro_sandbox.Linux.Clone.Ready.{Armed, poll_rounds-Armed}
use micro_sandbox.Linux.Clone.{
  RunningChild, NamespaceParent, sigkill, proc_file, wait_until_ready, send_signal, reap,
  drop_child, is_one, or_drop, map_user, map_current_user_and_release, confirm_ready, start_child,
}

-- What is written for the child, in order, and the byte that lets it go on.
abbrev pub release_calls : NamespaceParent → ℕ → ℕ → List Call
release_calls parent uid gid =
    let pid = parent.child.pid in
    write_file (proc_file pid "setgroups") (codes "deny\n")
    ∷ write_file (proc_file pid "uid_map") (codes "0 " ++ (decimal uid ++ codes " 1\n"))
    ∷ write_file (proc_file pid "gid_map") (codes "0 " ++ (decimal gid ++ codes " 1\n"))
    ∷ write_to parent.release_fd 1
    ∷ []

-- A killed and reaped child.
abbrev pub dropping_calls : RunningChild → List Call
dropping_calls child = pidfd_signal child.pidfd sigkill ∷ reap_process child.pid ∷ []

-- A wait for the descriptor, started behind this log, that has ended with the byte one in time.
abbrev pub Heard : Kernel → ℕ → ℕ → List Call → Type 0
Heard k fd deadline log =
    Armed deadline (is_one (uninterrupted (k.read log fd).0 (k.read log fd).1)) (k.poll log fd)

heard :
    (k : Kernel) (fd deadline : ℕ) (log : List Call)
    → (wait_until_ready k fd deadline log).0 ≡ ok tt
    → Heard k fd deadline log
unfolding wait_until_ready
heard k fd deadline log h = (poll_rounds-Armed deadline _ (k.poll log fd)).0 h

-- The two ways in which the parent goes on: with a child that it has let go, where `Good` holds, and
-- with none.
abbrev Ended :
    Type 0 → NamespaceParent → ℕ → ℕ → List Call → Result RunningChild × List Call → Type 0
Ended Good parent uid gid log r =
    (Good × (r ≡ (ok parent.child, log ++ release_calls parent uid gid)))
    ⊎ ((e : SandboxError) × (done : List Call) × (left : List Call) × (release_calls parent uid gid
          ≡ done ++ left)
        × (r ≡ (err e, log ++ (done ++ dropping_calls parent.child))))

-- As `start_child` leaves it: a child that is returned said that it was armed before the first of
-- the calls, and that it was ready behind the last.
abbrev pub Released :
    Kernel → NamespaceParent → ℕ → ℕ → ℕ → ℕ → List Call → Result RunningChild × List Call → Type 0
Released k parent uid gid ready_fd deadline log r =
    Ended
      (Heard k parent.armed_fd deadline log
        × Heard k ready_fd deadline (log ++ release_calls parent uid gid))
      parent uid gid log r

module _ (k : Kernel) (parent : NamespaceParent) (uid gid : ℕ) where
  released-Completes :
      Completes
        (do
          map_user k parent.child.pid uid gid
          write_byte k parent.release_fd 1
          lift (ok parent.child))
        (release_calls parent uid gid)
        parent.child
  unfolding map_user
  released-Completes =
      Completes-then
        (Completes-then (Completes-perform k _ (write_file _ _)) λ _.
          Completes-then (Completes-perform k or_io (write_file _ _))
            λ _. Completes-perform k or_io (write_file _ _))
        λ _.
          Completes-then (Completes-write_byte k parent.release_fd 1)
            λ _. Completes-lift parent.child

  dropped_log :
      (log done : List Call)
      → parent.child.reaped ≡ false
      → drop_child k parent.child (log ++ done) ≡ log ++ (done ++ dropping_calls parent.child)
  unfolding drop_child send_signal reap
  dropped_log log done alive = rw alive (
      append_assoc (log ++ done) (pidfd_signal parent.child.pidfd sigkill ∷ []) _
      ∙ append_assoc log done (dropping_calls parent.child))

  -- Behind the wait.
  dropped-Ends :
      (Good : Type 0) (log : List Call) (r : Result RunningChild × List Call)
      → parent.child.reaped ≡ false
      → Good
      → Ends (release_calls parent uid gid) parent.child log r
      → Ended Good parent uid gid log (or_drop k parent.child r)
  unfolding or_drop
  dropped-Ends Good log r alive good (inl eq) = inl (good, ap (or_drop k parent.child) eq)
  dropped-Ends Good log r alive good (inr (e, done, left, split, eq)) = inr (
    e,
    done,
    left,
    split,
    ap (or_drop k parent.child) eq ∙ ap (λ l. (err e, l)) (dropped_log log done alive),
  )

  waited_ends :
      (Good : Type 0) (log : List Call) (waited : Result (Unit {0}))
      → parent.child.reaped ≡ false
      → (waited ≡ ok tt → Good)
      → Ended Good parent uid gid log (
          or_drop k parent.child (
            follow
              (waited, log)
              λ _. do
                map_user k parent.child.pid uid gid
                write_byte k parent.release_fd 1
                lift (ok parent.child)))
  unfolding or_drop
  waited_ends Good log (err e) alive good = inr (
    e,
    [],
    release_calls parent uid gid,
    refl,
    ap (λ l. (err e, drop_child k parent.child l)) (sym (append-nil log))
        ∙ ap (λ l. (err e, l)) (dropped_log log [] alive),
  )
  waited_ends Good log (ok _) alive good =
      dropped-Ends Good log _ alive (good refl) (released-Completes.ends log)

  -- A child that has not been reaped ends in one of two ways. Either all is well: the child has said
  -- that it is armed, `setgroups` was denied, the user and the group were mapped, and then the byte
  -- that lets the child go on was written, in this order and with nothing else. Or there is an error:
  -- some first ones of these four calls were made, and behind them the child was killed and reaped.
  map_current_user_and_release-Ended :
      (deadline : ℕ) (log : List Call)
      → parent.child.reaped ≡ false
      → Ended
          (Heard k parent.armed_fd deadline log)
          parent
          uid
          gid
          log
          (map_current_user_and_release k parent uid gid deadline log)
  unfolding map_current_user_and_release wait_until_ready
  map_current_user_and_release-Ended deadline log alive =
      waited_ends (Heard k parent.armed_fd deadline log) log _ alive
        (heard k parent.armed_fd deadline log)

  ready_ends :
      (Good : Type 0) (log : List Call) (waited : Result (Unit {0}))
      → parent.child.reaped ≡ false
      → (waited ≡ ok tt → Good)
      → Ended Good parent uid gid log (
          or_drop k parent.child
            (follow (waited, log ++ release_calls parent uid gid) λ _. lift (ok parent.child)))
  unfolding or_drop
  ready_ends Good log (ok _) alive good = inl (good refl, refl)
  ready_ends Good log (err e) alive good = inr (
    e,
    release_calls parent uid gid,
    [],
    refl,
    ap (λ l. (err e, l)) (dropped_log log (release_calls parent uid gid) alive),
  )

  ready-Released :
      (ready_fd deadline : ℕ) (log : List Call) (r : Result RunningChild × List Call)
      → parent.child.reaped ≡ false
      → Ended (Heard k parent.armed_fd deadline log) parent uid gid log r
      → Released k parent uid gid ready_fd deadline log
          (follow r (confirm_ready k ready_fd deadline))
  unfolding confirm_ready wait_until_ready
  ready-Released ready_fd deadline log r alive (inl (armed, eq)) =
      subst
        (λ r.
          Released k parent uid gid ready_fd deadline log
            (follow r (confirm_ready k ready_fd deadline)))
        (sym eq)
        (ready_ends
          (Heard k parent.armed_fd deadline log
            × Heard k ready_fd deadline (log ++ release_calls parent uid gid))
          log _ alive
          (λ h. (armed, heard k ready_fd deadline (log ++ release_calls parent uid gid) h)))
  ready-Released ready_fd deadline log r alive (inr (e, done, left, split, eq)) =
      inr (e, done, left, split, ap (λ r. follow r (confirm_ready k ready_fd deadline)) eq)

  pub start_child-Released :
      (ready_fd deadline : ℕ) (log : List Call)
      → parent.child.reaped ≡ false
      → Released k parent uid gid ready_fd deadline log
          (start_child k parent uid gid ready_fd deadline log)
  unfolding start_child
  start_child-Released ready_fd deadline log alive =
      ready-Released ready_fd deadline log _ alive
        (map_current_user_and_release-Ended deadline log alive)
