-- ===== src/Linux/Clone/Isolated/Started.antt =====
-- What becomes of a child that `clone_isolated` of native/src/linux/clone.rs has made.
use micro_sandbox.Prelude.{◌≡◌, false}
use micro_sandbox.Linux.Clone.Isolated.{CloneOutcome, in_parent, in_child, aborted}

-- A parent's child that nobody has reaped.
abbrev Alive : CloneOutcome → Type 0
Alive (in_parent parent) = parent.child.reaped ≡ false
Alive (in_child _) = Unit
Alive (aborted _) = Unit
