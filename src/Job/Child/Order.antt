-- ===== src/Job/Child/Order.antt =====
-- The order in which the isolated child of native/src/job.rs restricts itself.
use micro_sandbox.Prelude.{ℕ, ◌≡◌, true, some, List, [], ◌∷◌, ◌++◌, inr}
use micro_sandbox.Error.{Text, ok}
use micro_sandbox.Seccomp.Filter.{Arch, Libc}
use micro_sandbox.Linux.{
  Call, change_dir, duplicate, write_to, read_from, execute, Kernel, uninterrupted,
}
use micro_sandbox.Linux.Trace.{Calls}
use micro_sandbox.Linux.Mount.Sealed.{sealed}
use micro_sandbox.Linux.Mount.Root.{is_writable, pivot_calls}
use micro_sandbox.Linux.Harden.Steps.{limit_calls, harden_calls}
use micro_sandbox.Linux.Capabilities.{last_capability}
use micro_sandbox.Job.{LaunchSpec}
use micro_sandbox.Job.Exec.{exec}
use micro_sandbox.Job.Child.{ChildPipes, ChildSetup, guest_dir, file_size_limit_of}

-- The byte that the parent sends when the user is mapped.
abbrev pub WasReleased : Kernel → ℕ → List Call → Type 0
WasReleased k fd log = uninterrupted (k.read log fd).0 (k.read log fd).1 ≡ inr (some 1)

abbrev Mapped : Kernel → ℕ → Calls
Mapped k fd before calls = (calls ≡ read_from fd ∷ []) × WasReleased k fd before

abbrev pub redirecting : ChildPipes → List Call
redirecting pipes =
    duplicate pipes.stdin_read 0
    ∷ duplicate pipes.stdout_write 1
    ∷ duplicate pipes.stderr_write 2
    ∷ []

-- Behind the mounts: the working directory, the restrictions with the last capability of the
-- kernel, the standard streams and the byte for the parent.
abbrev pub closing_calls : Arch → Libc → ChildSetup → LaunchSpec → ℕ → List Call
closing_calls a c setup spec last =
    change_dir (guest_dir spec.cwd)
    ∷ (harden_calls a c (file_size_limit_of setup.workspace) last
        ++ (redirecting setup.pipes ++ write_to setup.pipes.ready_write 1 ∷ []))

-- The calls up to the moment at which the last capability is read.
abbrev pub opening_calls : ChildSetup → LaunchSpec → List Call → List Call
opening_calls setup spec mounts =
    read_from setup.mapping_fd
    ∷ (mounts
        ++ (pivot_calls setup.staging_root
            ++ change_dir (guest_dir spec.cwd) ∷ limit_calls (file_size_limit_of setup.workspace)))

-- What a child has called that reported that it is ready. The last capability is the one that the
-- kernel names just before the first is dropped.
abbrev Prepared : Kernel → Arch → Libc → ChildSetup → LaunchSpec → Calls
Prepared k a c setup spec before calls =
    (mounts : List Call) × (calls
      ≡ read_from setup.mapping_fd
        ∷ (mounts
            ++ (pivot_calls setup.staging_root
                ++ closing_calls a c setup spec
                    (last_capability k (before ++ opening_calls setup spec mounts)))))
    × WasReleased k setup.mapping_fd before
    × (sealed (is_writable setup.staging_root setup.workspace) mounts ≡ true)

-- What a child has called that runs the command.
abbrev pub Executed :
    Kernel → Arch → Libc → ChildSetup → LaunchSpec → List Call → List Call → Type 0
Executed k a c setup spec log log' =
    (mounts : List Call) × (argv : List Text) × (envp : List Text) × (log'
      ≡ log
        ++ ((read_from setup.mapping_fd
              ∷ (mounts
                  ++ (pivot_calls setup.staging_root
                      ++ closing_calls a c setup spec
                          (last_capability k (log ++ opening_calls setup spec mounts)))))
            ++ execute argv envp ∷ []))
    × WasReleased k setup.mapping_fd log
    × (sealed (is_writable setup.staging_root setup.workspace) mounts ≡ true)
    × (exec spec ≡ ok (argv, envp))
