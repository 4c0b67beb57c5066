-- ===== src/Linux/Mount/Steps.antt =====
-- The steps of `build_root` of native/src/linux/mount.rs close what they mount.
use micro_sandbox.Prelude.{
  All, ◌≡◌, refl, sym, Bool, true, Option, none, some, List, [], ◌∷◌, String,
}
use mathlib.Core.Path.{subst}
use micro_sandbox.Host.{FilePath, join}
use micro_sandbox.Artifact.Outputs.{ValidatedOutput}
use micro_sandbox.Artifact.Workspace.{ValidatedWorkspace}
use micro_sandbox.Linux.{
  ms_bind, ms_rec, attr_nosuid, attr_nodev, attr_noexec, make_dirs, create_file, Kernel, perform,
  or_io,
}
use micro_sandbox.Linux.Trace.{Does, weaken, exactly_then, Does-observe, Does-from, Does-if}
use micro_sandbox.Linux.Paths.{resolve_runtime_directory, same_inode}
use micro_sandbox.Linux.Mount.{
  output_target, bind_read_only, bind_runtime_dir, bind_runtime, bind_output, bind_outputs,
  bind_closed, bind_artifacts, mount_safe_devices, bind_workspace,
}
use micro_sandbox.Linux.Mount.Sealed.{
  bind_then, closed_mount-sealed, Sealing, sealed, Sealing-then, plain_call, bind-Does,
  nothing-Sealing, look-Sealing, mount-Does, attributes-Does,
}

abbrev pub outputs_of : Option ValidatedWorkspace → List ValidatedOutput
outputs_of none = []
outputs_of (some workspace) = workspace.outputs

module _ (k : Kernel) (writable : FilePath → Bool) where
  pub make_dirs-Sealing :
      (target : FilePath) → Does (perform k or_io (make_dirs target)) (Sealing writable)
  unfolding sealed
  make_dirs-Sealing target = plain_call k or_io (make_dirs target) refl (λ _. refl) writable

  bind_read_only-Sealing :
      (source target : FilePath) → Does (bind_read_only k source target) (Sealing writable)
  unfolding bind_read_only
  bind_read_only-Sealing source target =
      Sealing-then writable (make_dirs-Sealing target)
        λ _. bind-Does k writable source target (ms_bind ∷ ms_rec ∷ []) _ refl refl

  bind_runtime_dir-Sealing :
      (source_root new_root : FilePath) (relative : String)
      → Does (bind_runtime_dir k source_root new_root relative) (Sealing writable)
  unfolding bind_runtime_dir
  bind_runtime_dir-Sealing source_root new_root relative =
      Does-from {P = λ _. Sealing writable} λ now.
        Does-if (k.exists now (join source_root relative))
          (look-Sealing writable (resolve_runtime_directory k source_root relative)
            λ source. bind_read_only-Sealing source (join new_root relative))
          (nothing-Sealing writable)

  pub bind_runtime-Sealing :
      (source_root new_root : FilePath) (names : List String)
      → Does (bind_runtime k source_root new_root names) (Sealing writable)
  unfolding bind_runtime
  bind_runtime-Sealing source_root new_root [] = nothing-Sealing writable
  bind_runtime-Sealing source_root new_root (name ∷ rest) =
      Sealing-then writable (bind_runtime_dir-Sealing source_root new_root name)
        λ _. bind_runtime-Sealing source_root new_root rest

  pub bind_closed-Sealing :
      (source target : FilePath) → Does (bind_closed k source target) (Sealing writable)
  unfolding bind_closed
  bind_closed-Sealing source target =
      Sealing-then writable (make_dirs-Sealing target)
        λ _. bind-Does k writable source target (ms_bind ∷ []) _ refl refl

  bind_output-Sealing :
      (target : FilePath) (declared : ValidatedOutput)
      → writable (output_target target declared) ≡ true
      → Does (bind_output k target declared) (Sealing writable)
  unfolding bind_output
  bind_output-Sealing target declared w =
      weaken
        (exactly_then
          (mount-Does k (some declared.host) (output_target target declared) none (ms_bind ∷ [])
            none)
          λ _.
            exactly_then
              (Does-observe (same_inode k (output_target target declared) declared.handle))
              λ _.
                attributes-Does k (output_target target declared)
                  (attr_nosuid ∷ attr_nodev ∷ attr_noexec ∷ []))
        λ before calls eq.
          subst (λ l. sealed writable l ≡ true) (sym eq)
            (closed_mount-sealed writable declared.host (output_target target declared)
              (ms_bind ∷ []) (attr_nosuid ∷ attr_nodev ∷ attr_noexec ∷ []) refl w)

  bind_outputs-Sealing :
      (target : FilePath) (outputs : List ValidatedOutput)
      → All (λ declared. writable (output_target target declared) ≡ true) outputs
      → Does (bind_outputs k target outputs) (Sealing writable)
  unfolding bind_outputs
  bind_outputs-Sealing target [] w = nothing-Sealing writable
  bind_outputs-Sealing target (declared ∷ rest) (w, ws) =
      Sealing-then writable (bind_output-Sealing target declared w)
        λ _. bind_outputs-Sealing target rest ws

  pub bind_workspace-Sealing :
      (workspace : Option ValidatedWorkspace) (new_root : FilePath)
      → All
          (λ declared. writable (output_target (join new_root "output") declared) ≡ true)
          (outputs_of workspace)
      → Does (bind_workspace k workspace new_root) (Sealing writable)
  unfolding bind_workspace bind_artifacts
  bind_workspace-Sealing none new_root w = nothing-Sealing writable
  bind_workspace-Sealing (some workspace) new_root w =
      Sealing-then writable (bind_closed-Sealing workspace.input (join new_root "input")) λ _.
        Sealing-then writable (bind_closed-Sealing workspace.output (join new_root "output"))
          λ _. bind_outputs-Sealing (join new_root "output") workspace.outputs w

  pub devices-Sealing :
      (new_root : FilePath) (names : List String)
      → All (λ name. writable (join (join new_root "dev") name) ≡ true) names
      → Does (mount_safe_devices k new_root names) (Sealing writable)
  unfolding mount_safe_devices sealed
  devices-Sealing new_root [] w = nothing-Sealing writable
  devices-Sealing new_root (name ∷ rest) (w, ws) =
      Sealing-then writable
        (plain_call k or_io (create_file (join (join new_root "dev") name)) refl (λ _. refl)
          writable)
        λ _.
          bind_then k writable (join (join [] "dev") name) (join (join new_root "dev") name)
            (ms_bind ∷ []) (attr_nosuid ∷ attr_noexec ∷ []) refl w
            (devices-Sealing new_root rest ws)
