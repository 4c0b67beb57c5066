-- ===== src/Linux/Mount.antt =====
-- `build_root` of native/src/linux/mount.rs: the root that the guest sees, before and behind
-- `pivot_root`.
pub mod Sealed
pub mod Steps
pub mod Root
use micro_sandbox.Prelude.{
  ℕ, String, Bool, true, false, not, ◌&&◌, ◌||◌, Option, none, some, List, [], ◌∷◌, ◌++◌, ◌==◌,
  if◌then◌else◌,
}
use micro_sandbox.Error.{
  IoError, security, policy_violation, lit, quoted, literal, Result, ok, err, refuse_if,
}
use micro_sandbox.Error
use micro_sandbox.Text.{codes}
use micro_sandbox.Path.{components, join_components, starts_with}
use micro_sandbox.Host.{FilePath, join, from_io, shown}
use micro_sandbox.Cgroup.{path_cstring}
use micro_sandbox.Artifact.Outputs.{ValidatedOutput}
use micro_sandbox.Artifact.Workspace.{ValidatedWorkspace}
use micro_sandbox.Linux.{
  MountFlag, ms_bind, ms_rec, ms_private, ms_nosuid, ms_nodev, ms_noexec, MountAttr, attr_rdonly,
  attr_nosuid, attr_nodev, attr_noexec, Call, mount_at, set_attributes, make_dirs, create_file,
  delete_dir, change_dir, swap_root, unmount_detached, Kernel, Io, ◌>>=◌, ◌>>◌, perform, lift,
  observe, or_os_error, or_io,
}
use micro_sandbox.Linux.Paths.{resolve_runtime_directory, same_inode}

abbrev pub runtime_dirs : List String
runtime_dirs = "bin" ∷ "sbin" ∷ "usr" ∷ "lib" ∷ "lib64" ∷ []

abbrev pub safe_devices : List String
safe_devices = "null" ∷ "zero" ∷ "random" ∷ "urandom" ∷ []

abbrev pub old_root : FilePath
old_root = codes ".old_root" ∷ []

abbrev source_cstring : Option FilePath → Result (Unit {0})
source_cstring none = ok tt
source_cstring (some path) = path_cstring path

abbrev pub output_target : FilePath → ValidatedOutput → FilePath
output_target target declared = join_components target (components declared.relative)

module _ (k : Kernel) where
  -- The file system types and the data of this file are literals, without a NUL.
  unfoldable pub mount :
      Option FilePath → FilePath → Option String → List MountFlag → Option String → Io (Unit {0})
  mount source target filesystem flags options = do
    lift (source_cstring source)
    lift (path_cstring target)
    perform k (λ e. err (security (lit "mount " ∷ (shown target ++ lit ": " ∷ e.display))))
        (mount_at source target filesystem flags options)

  unfoldable pub set_mount_attributes_recursive : FilePath → List MountAttr → Io (Unit {0})
  set_mount_attributes_recursive target attributes = do
    lift (path_cstring target)
    perform k (or_os_error "mount_setattr") (set_attributes target true attributes)

  unfoldable pub bind_read_only : FilePath → FilePath → Io (Unit {0})
  unfolding mount set_mount_attributes_recursive
  bind_read_only source target = do
    perform k or_io (make_dirs target)
    mount (some source) target none (ms_bind ∷ ms_rec ∷ []) none
    set_mount_attributes_recursive target (attr_rdonly ∷ attr_nosuid ∷ attr_nodev ∷ [])

  -- One round of the loop over the runtime's directories.
  unfoldable pub bind_runtime_dir : FilePath → FilePath → String → Io (Unit {0})
  unfolding bind_read_only resolve_runtime_directory
  bind_runtime_dir source_root new_root relative = λ log.
      (if k.exists log (join source_root relative)
          then (observe (resolve_runtime_directory k source_root relative) >>= λ source.
              bind_read_only source (join new_root relative))
          else lift (ok tt))
        log

  unfoldable pub bind_runtime : FilePath → FilePath → List String → Io (Unit {0})
  unfolding bind_runtime_dir
  bind_runtime source_root new_root [] = lift (ok tt)
  bind_runtime source_root new_root (relative ∷ rest) = do
    bind_runtime_dir source_root new_root relative
    bind_runtime source_root new_root rest

  unfoldable pub bind_output : FilePath → ValidatedOutput → Io (Unit {0})
  unfolding mount set_mount_attributes_recursive same_inode
  bind_output target declared = do
    mount (some declared.host) (output_target target declared) none (ms_bind ∷ []) none
    observe (same_inode k (output_target target declared) declared.handle)
    set_mount_attributes_recursive (output_target target declared)
        (attr_nosuid ∷ attr_nodev ∷ attr_noexec ∷ [])

  unfoldable pub bind_outputs : FilePath → List ValidatedOutput → Io (Unit {0})
  unfolding bind_output
  bind_outputs target [] = lift (ok tt)
  bind_outputs target (declared ∷ rest) = do bind_output target declared; bind_outputs target rest

  -- Either directory of the workspace.
  unfoldable pub bind_closed : FilePath → FilePath → Io (Unit {0})
  unfolding mount set_mount_attributes_recursive
  bind_closed source target = do
    perform k or_io (make_dirs target)
    mount (some source) target none (ms_bind ∷ []) none
    set_mount_attributes_recursive target
        (attr_rdonly ∷ attr_nosuid ∷ attr_nodev ∷ attr_noexec ∷ [])

  unfoldable pub bind_artifacts : ValidatedWorkspace → FilePath → Io (Unit {0})
  unfolding bind_closed bind_outputs
  bind_artifacts workspace new_root = do
    bind_closed workspace.input (join new_root "input")
    bind_closed workspace.output (join new_root "output")
    bind_outputs (join new_root "output") workspace.outputs

  unfoldable pub mount_safe_devices : FilePath → List String → Io (Unit {0})
  unfolding mount set_mount_attributes_recursive
  mount_safe_devices new_root [] = lift (ok tt)
  mount_safe_devices new_root (name ∷ rest) = do
    perform k or_io (create_file (join (join new_root "dev") name))
    mount (some (join (join [] "dev") name)) (join (join new_root "dev") name) none (ms_bind ∷ [])
        none
    set_mount_attributes_recursive (join (join new_root "dev") name)
        (attr_nosuid ∷ attr_noexec ∷ [])
    mount_safe_devices new_root rest

  unfoldable pub pivot_root : FilePath → Io (Unit {0})
  pivot_root new_root = do
    lift (path_cstring new_root)
    perform k (or_os_error "chdir new root") (change_dir new_root)
    perform k (or_os_error "pivot_root") swap_root
    perform k (or_os_error "chdir /") (change_dir [])
    perform k (or_os_error "unmount old root") (unmount_detached old_root)
    perform k or_io (delete_dir old_root)

  unfoldable pub bind_workspace : Option ValidatedWorkspace → FilePath → Io (Unit {0})
  unfolding bind_artifacts
  bind_workspace none new_root = lift (ok tt)
  bind_workspace (some workspace) new_root = bind_artifacts workspace new_root

  -- Everything before `pivot_root`.
  unfoldable pub fill_root : FilePath → FilePath → Option ValidatedWorkspace → Io (Unit {0})
  unfolding mount bind_runtime bind_workspace mount_safe_devices
  fill_root source_root new_root workspace = do
    mount none [] none (ms_rec ∷ ms_private ∷ []) none
    mount (some (codes "tmpfs" ∷ [])) new_root (some "tmpfs") (ms_nosuid ∷ ms_nodev ∷ [])
        (some "mode=0755,size=16m")
    bind_runtime source_root new_root runtime_dirs
    perform k or_io (make_dirs (join new_root "proc"))
    perform k or_io (make_dirs (join new_root "tmp"))
    perform k or_io (make_dirs (join new_root "dev"))
    perform k or_io (make_dirs (join new_root ".old_root"))
    bind_workspace workspace new_root
    mount_safe_devices new_root safe_devices
    mount (some (codes "tmpfs" ∷ [])) (join new_root "tmp") (some "tmpfs")
        (ms_nosuid ∷ ms_nodev ∷ ms_noexec ∷ []) (some "mode=1777,size=16m")
    mount (some (codes "proc" ∷ [])) (join new_root "proc") (some "proc")
        (ms_nosuid ∷ ms_nodev ∷ ms_noexec ∷ []) none

  unfoldable pub build_root : FilePath → FilePath → Option ValidatedWorkspace → Io (Unit {0})
  unfolding fill_root pivot_root
  build_root source_root new_root workspace = do
    fill_root source_root new_root workspace
    pivot_root new_root
