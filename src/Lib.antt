-- ===== src/Lib.antt =====
-- micro-sandbox runs untrusted jobs: a supervisor reads requests from its standard input, admits a
-- job against the capacity of its cgroup, and starts a launcher that isolates and runs it. This is a
-- model of the native program, native/src, with proofs of what its parts promise.
--
-- How the parts interact: `supervise` (native/src/supervisor.rs) measures the capacity once
-- (native/src/resources.rs), makes a scheduler for it (native/src/scheduler.rs), and runs the
-- protocol loop. The loop takes requests, read as bounded frames (native/src/protocol.rs), and ends
-- of launchers off one channel, keeps a table of running jobs, reserves capacity and disk for each,
-- and writes one frame for each answer. A launcher checks its specification (native/src/job.rs,
-- native/src/artifact.rs), makes a cgroup (native/src/linux/cgroup.rs) and clones a child
-- (native/src/linux/clone.rs), which waits for its user mapping, builds its root
-- (native/src/linux/mount.rs), gives up its capabilities (native/src/linux/capabilities.rs), installs
-- the seccomp filter (native/src/linux/seccomp.rs) and runs the command, while the launcher collects
-- the output, watches the deadline and the artifacts, and reports.
--
-- Which file models which part:
--   Error, Error/Relay: native/src/error.rs, codes, messages and the wire form.
--   Text, Text/*: the operations of the standard library on strings that the sources use.
--   JobId: the identifiers of jobs, native/src/supervisor.rs, native/src/linux/cgroup.rs and
--     native/src/linux/mount.rs.
--   Host: what is asked of files. Path: paths of the standard library. Config: native/src/config.rs.
--   Scheduler: native/src/scheduler.rs. The scheduler is a record that each method takes and gives
--     back, since each runs under the lock; `Scheduler/Ledger` has the histories of grants and drops.
--   Disk: `WorkspaceReservation` of native/src/supervisor.rs, an atomic counter; what other threads
--     do to it between two exchanges is an argument; `Disk/History` has the histories of the grants and
--     drops.
--   Resources: native/src/resources.rs.
--   Protocol: native/src/protocol.rs and `read_bounded_frame`; the stream is the list of what its
--     buffer holds each time that it is filled. `Requests` has `read_requests`.
--   Supervisor: native/src/supervisor.rs. `State` has the supervisor and the table of jobs, `Start`
--     has `start_job` and `spawn_launcher`, `Handle` the handlers and `finish`, `Run` the loop, and
--     `Reconcile` has what is removed of ended jobs, with the staging roots of
--     native/src/linux/mount.rs. What the loop does to processes and directories is a log of effects
--     in the supervisor's state.
--   Cgroup: native/src/linux/cgroup.rs, over a cgroup file system and a clock (`CgroupFs`) whose
--     state every operation passes on (both in `Files`). `Usage` reads the counters at a job's end;
--     `Removal` is about `remove_dir` and `cleanup`, `Limits` and `ReadBack` about what `configure`
--     writes.
--   Artifact: native/src/artifact.rs, the limits, and in `Tree` the walk of `inspect_tree` over one
--     moment of a tree. `Outputs` has `validate_declared_outputs`, `Workspace` has
--     `validate_workspace`, and `Manifest` has `collect_outputs`.
--   Job: native/src/job.rs. `Spec` has the checks of a specification but for its
--     workspace, `Exec` the strings of the call of `execve`, and `Output` the collection of the
--     guest's output by two threads, whose rounds are a list in the order of their claims. `Child` is
--     the isolated child of `launch` up to `execve`, `Monitor` the loop of `supervise_child`, in
--     rounds of what it finds, `Report` what follows the loop, and `Input` what
--     native/src/main.rs reads for a launch.
--   Linux: what native/src/linux asks of the kernel. A call that changes something is an entry of a
--     log, and the kernel answers by the log so far (`Kernel`); an operation takes the log and returns
--     its result and the longer log. `Masks` and `Capabilities` are native/src/linux/capabilities.rs,
--     `Harden` has `harden` of native/src/linux/mod.rs, `Paths` and `Mount` are
--     native/src/linux/paths.rs and native/src/linux/mount.rs, `Staging` has
--     `create_staging_root`, and `Clone` is native/src/linux/clone.rs, with `clone_isolated` in
--     `Isolated`. `Trace` and `Completion` have the rules to reason on logs.
--   Seccomp: native/src/linux/seccomp.rs, the filter and an interpreter of classic BPF.
--   Tests: the theorems at concrete inputs, and runs.
--
-- Bounds and fuel: a u64 is a number with its checked, saturating or wrapping operation written out.
-- The decimal printer takes fuel, one more than the number printed, which has fewer digits.
-- `remove_dir` is given 100 pauses, since 100 pauses of 10 ms take the second that it may last, and the
-- walk over an artifact tree one round for each directory of the tree, since it reads each once. Every
-- other loop is a recursion on what it walks over: a path, a list of buffers, of events, of rounds or
-- of failed exchanges. A call that a signal interrupts is repeated along the list of its attempts.
--
-- Parameters, for code that is not in the repository: serde_json (`Serde`), the f64 operations
-- (`Float`), the libc numbers (`Libc`), the file system and the processes (`Host`, `World`,
-- `CgroupFs`, `Machine`, `Kernel`, `WorkspaceFiles`, `PinnedFiles`,
-- `StagingFiles`, `Cloner`), the macros on a wait status (`Codec`), base64 and `openat2` (`Launcher`).
--
-- Not modelled: the system calls themselves, and the functions that only make one (`pipe`, `open_fd`);
-- `launch` as one function, with the guards that remove the staging root and the cgroup on every way
-- out; the probes of native/src/main.rs and the choice of its mode; lines written to stderr; and the
-- TypeScript client.
pub mod Prelude
pub mod Error
pub mod Text
pub mod JobId
pub mod Host
pub mod Path
pub mod Cgroup
pub mod Config
pub mod Scheduler
pub mod Resources
pub mod Artifact
pub mod Job
pub mod Linux
pub mod Protocol
pub mod Disk
pub mod Supervisor
pub mod Seccomp
pub mod Tests
