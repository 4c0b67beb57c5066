-- ===== src/Job/Child.antt =====
-- The isolated child of `launch` in native/src/job.rs, up to `execve`, with `wait_for_mapping` of
-- native/src/linux/clone.rs.
pub mod Order
use micro_sandbox.Prelude.{
  ℕ, Option, none, some, List, [], ◌∷◌, ◌++◌, inl, inr, ◌==◌, if◌then◌else◌, String,
}
use micro_sandbox.Prelude.Words.{and_then}
use micro_sandbox.Error.{
  Text, Message, SandboxError, policy_violation, security, literal, lit, error_code, display,
  Result, ok, err,
}
use micro_sandbox.Text.{codes}
use micro_sandbox.Path.{components, join_components}
use micro_sandbox.Host.{FilePath, IoResult}
use micro_sandbox.Artifact.Workspace.{ValidatedWorkspace}
use micro_sandbox.Seccomp.Filter.{Arch, Libc}
use micro_sandbox.Linux.{
  Call, change_dir, duplicate, execute, Kernel, Io, ◌>>=◌, ◌>>◌, perform, lift, or_io, read_byte,
  write_byte,
}
use micro_sandbox.Linux.Mount.{build_root}
use micro_sandbox.Linux.Harden.{harden}
use micro_sandbox.Job.{LaunchSpec}
use micro_sandbox.Job.Exec.{c_string, exec}

pub record ChildPipes : Type 0 where
  pub stdin_read : ℕ
  pub stdout_write : ℕ
  pub stderr_write : ℕ
  pub ready_write : ℕ

abbrev pub guest_dir : Text → FilePath
guest_dir path = join_components [] (components path)

abbrev mapped : IoResult (Option ℕ) → Result (Unit {0})
mapped (inr (some byte)) =
    if byte == 1 then ok tt else err (security (literal "parent did not complete UID/GID mappings"))
mapped _ = err (security (literal "parent did not complete UID/GID mappings"))

abbrev pub file_size_limit_of : Option ValidatedWorkspace → Option ℕ
file_size_limit_of workspace = and_then workspace λ value. value.file_size_limit

-- What `child_exit` writes to the standard error before it ends the child with code 127.
unfoldable pub exit_message : Result (Unit {0}) → Option Message
unfolding error_code display
exit_message (ok _) = none
exit_message (err e) = some (lit (error_code e) ∷ lit ": " ∷ (display e ++ literal "\n"))

module _ (k : Kernel) where
  unfoldable pub wait_for_mapping : ℕ → Io (Unit {0})
  unfolding read_byte
  wait_for_mapping fd = λ log. (let (r, log') = read_byte k fd log in (mapped r, log'))

  unfoldable pub change_directory : Text → Io (Unit {0})
  change_directory path = do
    _ ← lift (c_string (literal "working directory contains NUL") path)
    perform k or_io (change_dir (guest_dir path))

  unfoldable pub redirect_standard_streams : ChildPipes → Io (Unit {0})
  redirect_standard_streams pipes = do
    perform k or_io (duplicate pipes.stdin_read 0)
    perform k or_io (duplicate pipes.stdout_write 1)
    perform k or_io (duplicate pipes.stderr_write 2)

  -- The call of `exec`; behind its success another program runs.
  unfoldable pub exec_call : LaunchSpec → Io (Unit {0})
  unfolding exec
  exec_call spec = do strings ← lift (exec spec); perform k or_io (execute strings.0 strings.1)

-- What the child was given before it was cloned.
pub record ChildSetup : Type 0 where
  pub mapping_fd : ℕ
  pub rootfs : FilePath
  pub staging_root : FilePath
  pub workspace : Option ValidatedWorkspace
  pub pipes : ChildPipes

module _ (k : Kernel) (a : Arch) (c : Libc) (setup : ChildSetup) (spec : LaunchSpec) where
  unfoldable pub prepare_child : Io (Unit {0})
  unfolding wait_for_mapping build_root change_directory harden redirect_standard_streams write_byte
  prepare_child = do
    wait_for_mapping k setup.mapping_fd
    build_root k setup.rootfs setup.staging_root setup.workspace
    change_directory k spec.cwd
    harden k a c (file_size_limit_of setup.workspace)
    redirect_standard_streams k setup.pipes
    write_byte k setup.pipes.ready_write 1

  unfoldable pub run_child : Io (Unit {0})
  unfolding prepare_child exec_call
  run_child = do prepare_child; exec_call k spec
