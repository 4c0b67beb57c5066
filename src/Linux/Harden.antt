-- ===== src/Linux/Harden.antt =====
-- `harden` of native/src/linux/mod.rs, with `apply_baseline` of native/src/linux/seccomp.rs.
pub mod Steps
use micro_sandbox.Prelude.{ℕ, Option, none, some, List, [], ◌∷◌, length, ltb}
use micro_sandbox.Error.{SandboxError, security, literal, refuse_if, ok}
use micro_sandbox.Seccomp.Filter.{Arch, Libc, baseline_filter}
use micro_sandbox.Linux.{
  rlimit_fsize, rlimit_core, set_rlimit, set_dumpable, set_no_new_privs, set_seccomp, Kernel, Io,
  ◌>>=◌, ◌>>◌, perform, lift, or_os_error,
}
use micro_sandbox.Linux.Capabilities.{drop_all}

module _ (k : Kernel) (a : Arch) (c : Libc) where
  unfoldable pub apply_baseline : Io (Unit {0})
  apply_baseline = do
    perform k (or_os_error "PR_SET_NO_NEW_PRIVS") set_no_new_privs
    lift (
        refuse_if (ltb 65535 (length (baseline_filter a c)))
          (security (literal "seccomp filter is too large")))
    perform k (or_os_error "PR_SET_SECCOMP") (set_seccomp (baseline_filter a c))

  unfoldable pub limit_file_size : Option ℕ → Io (Unit {0})
  limit_file_size none = lift (ok tt)
  limit_file_size (some bytes) =
      perform k (or_os_error "setrlimit RLIMIT_FSIZE") (set_rlimit rlimit_fsize bytes)

  unfoldable pub harden : Option ℕ → Io (Unit {0})
  unfolding drop_all limit_file_size apply_baseline
  harden file_size_limit = do
    limit_file_size file_size_limit
    drop_all k
    perform k (or_os_error "setrlimit RLIMIT_CORE") (set_rlimit rlimit_core 0)
    perform k (or_os_error "PR_SET_DUMPABLE") (set_dumpable 0)
    apply_baseline
