-- ===== src/Tests/Linux.antt =====
-- The isolated child of native/src/job.rs and native/src/linux, on a kernel that lets everything
-- pass, with a runtime that has one directory and a workspace with one declared output.
use micro_sandbox.Prelude.{
  ◌≡◌, ◌↔◌, ◌≢◌, refl, Bool, true, false, some, List, [], ◌∷◌, inr, if◌then◌else◌,
}
use micro_sandbox.Error.{Text, ok}
use micro_sandbox.Text.{codes, text_eq, lines, parse_unsigned, trim}
use micro_sandbox.Host.{FilePath}
use micro_sandbox.Artifact.Workspace.{ValidatedWorkspace}
use micro_sandbox.Linux.{Kernel, poll_ready, poll_nothing, PollRound}
use micro_sandbox.Linux.Masks.{no_capabilities, capability_masks}
use micro_sandbox.Linux.Capabilities.{last_capability, drop_all}
use micro_sandbox.Linux.Capabilities.Dropped.{dropping_calls, drop_all-no_capabilities}
use micro_sandbox.Linux.Clone.{NamespaceParent, poll_rounds, map_current_user_and_release}
use micro_sandbox.Linux.Clone.Ready.{Armed, poll_rounds-Armed}
use micro_sandbox.Linux.Clone.Isolated.{Cloner}
use micro_sandbox.Job.Child.{ChildSetup}

abbrev status : Text
status =
    codes
      "Name:\tsh\nCapInh:\t0000000000000000\nCapPrm:\t0000000000000000\nCapEff:\t0\nCapBnd:\t0\nCapAmb:\t0\n"

-- `cap_last_cap` holds the number of the last capability, here 2.
abbrev proc_file : FilePath → Text
proc_file (name ∷ _) = if text_eq name (codes "status") then status else codes "2\n"
proc_file [] = []

abbrev is_bin : FilePath → Bool
is_bin (name ∷ _) = text_eq name (codes "bin")
is_bin [] = false

abbrev rounds : List PollRound
rounds =
    record { now = 5; polled = poll_nothing } ∷ record { now = 8; polled = poll_ready true } ∷ []

abbrev kernel : Kernel
kernel = record {
  answer = λ log call. inr tt;
  write = λ log fd value. ([], inr 1);
  read = λ log fd. ([], inr (some 1));
  read_to_string = λ log path. inr (proc_file path);
  exists = λ log path. is_bin path;
  is_dir = λ log path. true;
  canonicalize = λ log path. inr path;
  poll = λ log fd. rounds;
  waitpid = λ log pid. ([], inr 0);
  metadata = λ log path. inr (1, 77);
  handle_metadata = λ log handle. inr (1, 77);
}

abbrev workspace : ValidatedWorkspace
workspace = record {
  input = codes "input" ∷ codes "w" ∷ [];
  output = codes "output" ∷ codes "w" ∷ [];
  outputs =
      record {
        relative = codes "out.txt";
        host = codes "out.txt" ∷ codes "output" ∷ codes "w" ∷ [];
        handle = 9;
        max_bytes = 100;
        required = true;
      }
      ∷ [];
  file_size_limit = some 100;
}

abbrev given_setup : ChildSetup
given_setup = record {
  mapping_fd = 3;
  rootfs = codes "runtime" ∷ [];
  staging_root = codes "root" ∷ codes "tmp" ∷ [];
  workspace = some workspace;
  pipes = record { stdin_read = 4; stdout_write = 5; stderr_write = 6; ready_write = 7 };
}

abbrev parent : NamespaceParent
parent = record {
  child = record { pid = 12; pidfd = 8; reaped = false };
  release_fd = 10;
  armed_fd = 11;
}

all_dropped : drop_all kernel [] ≡ (ok tt, (drop_all kernel []).1)
unfolding drop_all parse_unsigned trim lines
all_dropped = refl

drop_all-no_capabilities_example :
    ((drop_all kernel []).1 ≡ dropping_calls (last_capability kernel []))
    × (capability_masks kernel (drop_all kernel []).1 ≡ ok no_capabilities)
drop_all-no_capabilities_example =
    drop_all-no_capabilities kernel [] (drop_all kernel []).1 all_dropped

-- The parent's side of a clone.
abbrev cloner : Cloner
cloner = record {
  ready_pipe = inr (20, 10);
  armed_pipe = inr (11, 21);
  clone3 = λ args. inr (12, 8);
  set_pdeathsig = inr tt;
  arm = λ fd. inr tt;
}

poll_rounds-Armed_example : (poll_rounds 10 true rounds ≡ ok tt) ↔ Armed 10 true rounds
poll_rounds-Armed_example = poll_rounds-Armed 10 true rounds

let_go : (map_current_user_and_release kernel parent 1000 1000 10 []).0 ≡ ok parent.child
unfolding map_current_user_and_release
let_go = refl

-- A deadline that passes before the child is ready.
too_late : poll_rounds 7 true rounds ≢ ok tt
unfolding poll_rounds
too_late = λ h. cc h
