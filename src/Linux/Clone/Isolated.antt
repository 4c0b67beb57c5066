-- ===== src/Linux/Clone/Isolated.antt =====
-- `clone_isolated` of native/src/linux/clone.rs, in the parent and in the child.
pub mod Started
use micro_sandbox.Prelude.{
  ℕ, String, ◌≡◌, refl, Bool, true, false, Option, none, some, List, [], ◌∷◌, ◌++◌, inl, inr, ◌==◌,
  if◌then◌else◌,
}
use micro_sandbox.Error.{Result, ok, err, io, ◌>>=◌}
use micro_sandbox.Host.{IoResult, from_io}
use micro_sandbox.Linux.{os_error}
use micro_sandbox.Linux.Clone.{RunningChild, NamespaceParent}

pub data CloneFlag : Type 0 where
  newuser newpid newns newnet newipc newuts newcgroup clone_pidfd into_cgroup : CloneFlag

-- The fields of `CloneArgs` that are not zero.
pub record CloneArgs : Type 0 where
  pub flags : List CloneFlag
  pub exit_signal : ℕ
  pub cgroup : ℕ

pub data CloneOutcome : Type 0 where
  in_parent : NamespaceParent → CloneOutcome
  -- `NamespaceChild`, with the descriptor that it waits on.
  in_child : ℕ → CloneOutcome
  -- The child has written this and is gone.
  aborted : String → CloneOutcome

-- What the calls answer. `clone3` gives the child 0, and the parent the child's ID and pidfd.
pub record Cloner : Type 0 where
  pub ready_pipe : IoResult (ℕ × ℕ)
  pub armed_pipe : IoResult (ℕ × ℕ)
  pub clone3 : CloneArgs → IoResult (ℕ × ℕ)
  pub set_pdeathsig : IoResult (Unit {0})
  -- `write_byte` on the descriptor.
  pub arm : ℕ → IoResult (Unit {0})

abbrev pub sigchld : ℕ
sigchld = 17

abbrev pub isolating : List CloneFlag
isolating = newuser ∷ newpid ∷ newns ∷ newnet ∷ newipc ∷ newuts ∷ newcgroup ∷ clone_pidfd ∷ []

unfoldable pub clone_args : Option ℕ → CloneArgs
clone_args none = record { flags = isolating; exit_signal = sigchld; cgroup = 0 }
clone_args (some cgroup_fd) = record {
  flags = into_cgroup ∷ isolating;
  exit_signal = sigchld;
  cgroup = cgroup_fd;
}

abbrev armed : ℕ → IoResult (Unit {0}) → CloneOutcome
armed ready_fd (inl e) =
    aborted "ISOLATION_UNAVAILABLE: launcher exited during parent-death setup\n"
armed ready_fd (inr _) = in_child ready_fd

abbrev pub deathsig_set : IoResult (Unit {0}) → CloneOutcome → CloneOutcome
deathsig_set (inl e) outcome = aborted "ISOLATION_UNAVAILABLE: PR_SET_PDEATHSIG failed\n"
deathsig_set (inr _) outcome = outcome

-- The child's part, which never returns an error.
unfoldable pub child_setup : Cloner → ℕ → ℕ → CloneOutcome
child_setup c ready_fd armed_write_fd =
    deathsig_set c.set_pdeathsig (armed ready_fd (c.arm armed_write_fd))

abbrev parent_of : ℕ → ℕ → ℕ → ℕ → CloneOutcome
parent_of pid pidfd release_fd armed_fd = in_parent (record {
  child = record { pid = pid; pidfd = pidfd; reaped = false };
  release_fd = release_fd;
  armed_fd = armed_fd;
})

abbrev pub cloned : IoResult (ℕ × ℕ) → Result (ℕ × ℕ)
cloned (inl e) = err (os_error "clone3" e)
cloned (inr ids) = ok ids

unfoldable pub clone_isolated : Cloner → Option ℕ → Result CloneOutcome
unfolding clone_args child_setup
clone_isolated c cgroup_fd = do
  ready ← from_io c.ready_pipe
  arming ← from_io c.armed_pipe
  ids ← cloned (c.clone3 (clone_args cgroup_fd))
  ok (if ids.0 == 0 then child_setup c ready.0 arming.1 else parent_of ids.0 ids.1 ready.1 arming.0)
