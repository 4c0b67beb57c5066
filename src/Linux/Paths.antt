-- ===== src/Linux/Paths.antt =====
-- native/src/linux/paths.rs, and the comparison of inodes in native/src/linux/mount.rs: what is
-- looked up in the host's files while the guest's root is put together.
use micro_sandbox.Prelude.{ℕ, String, not, ◌&&◌, ◌||◌, [], ◌∷◌, ◌==◌, List}
use micro_sandbox.Error.{
  security, policy_violation, lit, quoted, literal, Result, ok, refuse_if, ◌>>=◌, ◌>>◌,
}
use micro_sandbox.Text.{codes}
use micro_sandbox.Path.{starts_with}
use micro_sandbox.Host.{FilePath, join, from_io}
use micro_sandbox.Linux.{Call, Kernel}

module _ (k : Kernel) where
  unfoldable pub resolve_runtime_directory : FilePath → String → List Call → Result FilePath
  resolve_runtime_directory runtime_root relative log = do
    root ← from_io (k.canonicalize log runtime_root)
    resolved ← from_io (k.canonicalize log (join root relative))
    refuse_if (not (starts_with resolved root) || not (k.is_dir log resolved)) (
        policy_violation
          (lit "runtime directory " ∷ quoted (codes relative) ∷ lit " escapes its root" ∷ []))
    ok resolved

  -- The mounted file is the pinned one.
  unfoldable pub same_inode : FilePath → ℕ → List Call → Result (Unit {0})
  same_inode target handle log = do
    mounted ← from_io (k.metadata log target)
    pinned ← from_io (k.handle_metadata log handle)
    refuse_if (not (mounted.0 == pinned.0 && mounted.1 == pinned.1))
        (security (literal "declared artifact output changed before it was mounted"))
