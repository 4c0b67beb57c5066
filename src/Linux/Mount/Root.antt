-- ===== src/Linux/Mount/Root.antt =====
-- The root that `build_root` of native/src/linux/mount.rs leaves.
use mathlib.Core.Path.{subst}
use mathlib.Core.List.{append_assoc, append-nil}
use micro_sandbox.Prelude.{
  ◌≡◌, refl, sym, Bool, true, Option, none, some, List, [], ◌∷◌, ◌++◌, All, any, map, String, arith,
}
use micro_sandbox.Error.{Text}
use micro_sandbox.Text.{codes}
use micro_sandbox.Path.{path_eq}
use micro_sandbox.Host.{FilePath, join}
use micro_sandbox.Cgroup.{path_cstring}
use micro_sandbox.Artifact.Workspace.{ValidatedWorkspace}
use micro_sandbox.Linux.{
  MountFlag, ms_rec, ms_private, ms_nosuid, ms_nodev, ms_noexec, Call, change_dir, swap_root,
  unmount_detached, delete_dir, Kernel,
}
use micro_sandbox.Linux.Trace.{
  Exactly, Then, Does, weaken, Does-then, exactly_then, Does-lift, Does-perform,
}
use micro_sandbox.Linux.Mount.{
  safe_devices, runtime_dirs, old_root, output_target, mount, pivot_root, fill_root, build_root,
}
use micro_sandbox.Linux.Mount.Sealed.{Sealing, sealed, Sealing-then, mount-Does, path_eq_refl}
use micro_sandbox.Linux.Mount.Steps.{
  outputs_of, make_dirs-Sealing, bind_runtime-Sealing, bind_workspace-Sealing, devices-Sealing,
}

-- What the guest may write: the devices and the declared outputs.
abbrev pub writable_targets : FilePath → Option ValidatedWorkspace → List FilePath
writable_targets new_root workspace =
    map (λ name. join (join new_root "dev") name) safe_devices
    ++ map (output_target (join new_root "output")) (outputs_of workspace)

abbrev pub is_writable : FilePath → Option ValidatedWorkspace → FilePath → Bool
is_writable new_root workspace target = any (path_eq target) (writable_targets new_root workspace)

-- The calls of `pivot_root`.
abbrev pub pivot_calls : FilePath → List Call
pivot_calls new_root =
    change_dir new_root
    ∷ swap_root
    ∷ change_dir []
    ∷ unmount_detached old_root
    ∷ delete_dir old_root
    ∷ []

in_the_middle :
    (target : FilePath) (front back : List FilePath)
    → any (path_eq target) (front ++ target ∷ back) ≡ true
in_the_middle target [] back = rw (path_eq_refl target) refl
in_the_middle target (other ∷ front) back = ground (arith, in_the_middle target front back)

-- Every member of a part of a list is in the list.
All-within {ℓ} :
    {A : Type ℓ} (f : A → FilePath) (front : List FilePath) (xs : List A) (back : List FilePath)
    → All (λ x. any (path_eq (f x)) (front ++ (map f xs ++ back)) ≡ true) xs
All-within f front [] back = tt
All-within f front (x ∷ xs) back = (
  in_the_middle (f x) front (map f xs ++ back),
  subst (λ l. All (λ y. any (path_eq (f y)) l ≡ true) xs)
      (append_assoc front (f x ∷ []) (map f xs ++ back)) (All-within f (front ++ f x ∷ []) xs back),
)

outputs_writable :
    (new_root : FilePath) (workspace : Option ValidatedWorkspace)
    → All
        (λ declared.
          is_writable new_root workspace (output_target (join new_root "output") declared) ≡ true)
        (outputs_of workspace)
outputs_writable new_root workspace =
    let target = output_target (join new_root "output") in
    let devices = map (λ name. join (join new_root "dev") name) safe_devices in
    subst
      (λ l.
        All (λ declared. any (path_eq (target declared)) (devices ++ l) ≡ true)
          (outputs_of workspace))
      (append-nil (map target (outputs_of workspace)))
      (All-within target devices (outputs_of workspace) [])

filesystem-Sealing :
    (k : Kernel) (writable : FilePath → Bool) (source : Text) (target : FilePath)
    (filesystem : String) (flags : List MountFlag) (options : Option String)
    → Does
        (mount k (some (source ∷ [])) target (some filesystem) (ms_nosuid ∷ flags) options)
        (Sealing writable)
unfolding sealed
filesystem-Sealing k writable source target filesystem flags options =
    weaken (mount-Does k (some (source ∷ [])) target (some filesystem) (ms_nosuid ∷ flags) options)
      λ before calls eq. subst (λ l. sealed writable l ≡ true) (sym eq) refl

private-Sealing :
    (k : Kernel) (writable : FilePath → Bool)
    → Does (mount k none [] none (ms_rec ∷ ms_private ∷ []) none) (Sealing writable)
unfolding sealed
private-Sealing k writable =
    weaken (mount-Does k none [] none (ms_rec ∷ ms_private ∷ []) none)
      λ before calls eq. subst (λ l. sealed writable l ≡ true) (sym eq) refl

fill_root-Sealing :
    (k : Kernel) (source_root new_root : FilePath) (workspace : Option ValidatedWorkspace)
    → Does (fill_root k source_root new_root workspace) (Sealing (is_writable new_root workspace))
unfolding fill_root
fill_root-Sealing k source_root new_root workspace =
    let w : FilePath → Bool = is_writable new_root workspace in
    let made = λ (name : String). make_dirs-Sealing k w (join new_root name) in
    Sealing-then w (private-Sealing k w) λ _.
      Sealing-then w
        (filesystem-Sealing k w (codes "tmpfs") new_root "tmpfs" (ms_nodev ∷ [])
          (some "mode=0755,size=16m"))
        λ _. Sealing-then w (bind_runtime-Sealing k w source_root new_root runtime_dirs) λ _.
          Sealing-then w (made "proc") λ _. Sealing-then w (made "tmp") λ _.
            Sealing-then w (made "dev") λ _. Sealing-then w (made ".old_root") λ _.
              Sealing-then w
                (bind_workspace-Sealing k w workspace new_root
                  (outputs_writable new_root workspace))
                λ _.
                  Sealing-then w
                    (devices-Sealing k w new_root safe_devices (
                      All-within (λ name. join (join new_root "dev") name) [] safe_devices
                        (map (output_target (join new_root "output")) (outputs_of workspace))))
                    λ _.
                      Sealing-then w
                        (filesystem-Sealing k w (codes "tmpfs") (join new_root "tmp") "tmpfs"
                          (ms_nodev ∷ ms_noexec ∷ []) (some "mode=1777,size=16m"))
                        λ _.
                          filesystem-Sealing k w (codes "proc") (join new_root "proc") "proc"
                            (ms_nodev ∷ ms_noexec ∷ []) none

pivot-Does :
    (k : Kernel) (new_root : FilePath)
    → Does (pivot_root k new_root) (Exactly λ _. pivot_calls new_root)
unfolding pivot_root
pivot-Does k new_root = exactly_then (Does-lift (path_cstring new_root)) λ _.
    exactly_then (Does-perform k _ (change_dir new_root) refl) λ _.
      exactly_then (Does-perform k _ swap_root refl) λ _.
        exactly_then (Does-perform k _ (change_dir []) refl) λ _.
          exactly_then (Does-perform k _ (unmount_detached old_root) refl)
            λ _. Does-perform k _ (delete_dir old_root) refl

pub build_root-Does :
    (k : Kernel) (source_root new_root : FilePath) (workspace : Option ValidatedWorkspace)
    → Does
        (build_root k source_root new_root workspace)
        (Then (Sealing (is_writable new_root workspace)) (Exactly λ _. pivot_calls new_root))
unfolding build_root
build_root-Does k source_root new_root workspace =
    Does-then (fill_root-Sealing k source_root new_root workspace) λ _. pivot-Does k new_root
