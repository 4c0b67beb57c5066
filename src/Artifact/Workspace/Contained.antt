-- ===== src/Artifact/Workspace/Contained.antt =====
-- What holds of a workspace that `validate_workspace` of native/src/artifact.rs accepts.
use micro_sandbox.Prelude.{
  String, ◌≡◌, refl, ◌∙◌, ap, true, false, not, ◌||◌, Option, none, some, List, inl, inr, ◌==◌,
  arith,
}
use mathlib.Core.Path.{subst}
use micro_sandbox.Error.{
  Result, ok, err, ok_or, refuse_if, refuse_if-ok, >>=-eq-ok, ok_injective, SandboxError,
}
use micro_sandbox.Path.{starts_with}
use micro_sandbox.Host.{FilePath, join, IoResult, from_io}
use micro_sandbox.Artifact.{WorkspaceSpec, validate_limits}
use micro_sandbox.Artifact.Tree.{Found, inspect_tree}
use micro_sandbox.Artifact.Outputs.{ValidatedOutput, validate_declared_outputs}
use micro_sandbox.Artifact.Workspace.{
  ValidatedWorkspace, WorkspaceFiles, EntryMetadata, OwnerMetadata, is_shared, has_parent,
  first_max, canonicalize, validate_private_directory, resolve_workspace, contained_directory,
  resolve_directories, input_tree, with_outputs, with_input, with_directories, validate_workspace,
}

ok_or-eq-ok : {A : Type 0} (o : Option A) (e : SandboxError) {a : A} → ok_or o e ≡ ok a → o ≡ some a
ok_or-eq-ok none e h = absurd (cc h)
ok_or-eq-ok (some b) e h = ap some (ok_injective h)

accepted_injective : {A : Type 0} {a b : A} → some (ok a) ≡ some (ok b) → a ≡ b
accepted_injective h = cc h

from_io-eq-ok : {A : Type 0} (r : IoResult A) {a : A} → from_io r ≡ ok a → r ≡ inr a
from_io-eq-ok (inl e) h = absurd (cc h)
from_io-eq-ok (inr b) h = ap inr (ok_injective h)

module _ (files : WorkspaceFiles) where
  -- Owned by the service user, and nobody else may write.
  abbrev pub IsPrivate : FilePath → Type 0
  IsPrivate path =
      (metadata : OwnerMetadata) × (files.owner_metadata path ≡ inr metadata)
      × ((metadata.uid == files.effective_uid) ≡ true)
      × (is_shared metadata.mode ≡ false)

  -- A real directory, whose own path lies in the root.
  abbrev pub IsInside : FilePath → FilePath → FilePath → Type 0
  IsInside root path resolved =
      (metadata : EntryMetadata) × (files.entry_metadata path ≡ inr metadata)
      × (metadata.is_dir ≡ true)
      × (metadata.is_symlink ≡ false)
      × (files.output_files.canonicalize path ≡ inr resolved)
      × (starts_with resolved root ≡ true)

  private_lem :
      (path : FilePath) (label : String)
      → validate_private_directory files path label ≡ ok tt
      → IsPrivate path
  unfolding validate_private_directory
  private_lem path label h =
      let (metadata, read, checked) = >>=-eq-ok (from_io (files.owner_metadata path)) _ h in
      let passed = refuse_if-ok _ _ checked in
      (
        metadata,
        from_io-eq-ok (files.owner_metadata path) read,
        ground (arith, passed),
        ground (arith, passed),
      )

  inside_lem :
      (root : FilePath) (name : String) (resolved : FilePath)
      → contained_directory files root name ≡ ok resolved
      → IsInside root (join root name) resolved
  unfolding contained_directory
  inside_lem root name resolved h =
      let path = join root name in
      let (metadata, read, h1) = >>=-eq-ok (from_io (files.entry_metadata path)) _ h in
      let (canonical, found, h2) = >>=-eq-ok (canonicalize files path) _ h1 in
      let (_, checked, h3) =
        >>=-eq-ok
          (refuse_if
            (not metadata.is_dir || (metadata.is_symlink || not (starts_with canonical root))) _)
          _ h2 in
      let passed = refuse_if-ok _ _ checked in
      let same : canonical ≡ resolved = ok_injective h3 in
      (
        metadata,
        from_io-eq-ok (files.entry_metadata path) read,
        ground (arith, passed),
        ground (arith, passed),
        from_io-eq-ok (files.output_files.canonicalize path) found ∙ ap inr same,
        subst (λ p. starts_with p root ≡ true) same (ground (arith, passed)),
      )

  -- A real directory that stands directly in the configured root, which is private.
  abbrev pub IsConfigured : FilePath → FilePath → Type 0
  IsConfigured path workspace =
      (configured : FilePath) × (root : FilePath) × (metadata : EntryMetadata)
      × (files.workspace_root ≡ some configured)
      × (files.output_files.canonicalize configured ≡ inr root)
      × IsPrivate root
      × (files.entry_metadata path ≡ inr metadata)
      × (metadata.is_dir ≡ true)
      × (metadata.is_symlink ≡ false)
      × (files.output_files.canonicalize path ≡ inr workspace)
      × (has_parent workspace root ≡ true)

  configured_lem :
      (spec : WorkspaceSpec) (workspace : FilePath)
      → resolve_workspace files spec ≡ ok workspace
      → IsConfigured spec.path workspace
  unfolding resolve_workspace
  configured_lem spec workspace h =
      let (configured, named, h1) = >>=-eq-ok (ok_or files.workspace_root _) _ h in
      let (root, found, h2) = >>=-eq-ok (canonicalize files configured) _ h1 in
      let (_, private, h3) =
        >>=-eq-ok (validate_private_directory files root "workspace root") _ h2 in
      let (metadata, read, h4) = >>=-eq-ok (from_io (files.entry_metadata spec.path)) _ h3 in
      let (_, real, h5) =
        >>=-eq-ok (refuse_if (not metadata.is_dir || metadata.is_symlink) _) _ h4 in
      let (canonical, there, h6) = >>=-eq-ok (canonicalize files spec.path) _ h5 in
      let (_, under, h7) = >>=-eq-ok (refuse_if (not (has_parent canonical root)) _) _ h6 in
      let passed = refuse_if-ok _ _ real in
      let above : has_parent canonical root ≡ true = ground (arith, refuse_if-ok _ _ under) in
      let same : canonical ≡ workspace = ok_injective h7 in
      (
        configured,
        root,
        metadata,
        ok_or-eq-ok files.workspace_root _ named,
        from_io-eq-ok (files.output_files.canonicalize configured) found,
        private_lem root "workspace root" private,
        from_io-eq-ok (files.entry_metadata spec.path) read,
        ground (arith, passed),
        ground (arith, passed),
        from_io-eq-ok (files.output_files.canonicalize spec.path) there ∙ ap inr same,
        subst (λ p. has_parent p root ≡ true) same above,
      )

  -- The two directories that are looked up.
  abbrev pub IsResolved : WorkspaceSpec → FilePath × FilePath → Type 0
  IsResolved spec (input, output) =
      (workspace : FilePath) × (validate_limits spec.limits ≡ ok tt)
      × IsConfigured spec.path workspace
      × IsPrivate workspace
      × IsInside workspace (join workspace "input") input
      × IsInside workspace (join workspace "output") output

  resolved_lem :
      (spec : WorkspaceSpec) (input output : FilePath)
      → resolve_directories files spec ≡ ok (input, output)
      → IsResolved spec (input, output)
  unfolding resolve_directories
  resolved_lem spec input output h =
      let (_, limits, h1) = >>=-eq-ok (validate_limits spec.limits) _ h in
      let (workspace, placed, h2) = >>=-eq-ok (resolve_workspace files spec) _ h1 in
      let (in_dir, in_eq, h3) = >>=-eq-ok (contained_directory files workspace "input") _ h2 in
      let (out_dir, out_eq, h4) = >>=-eq-ok (contained_directory files workspace "output") _ h3 in
      let (_, private, h5) =
        >>=-eq-ok (validate_private_directory files workspace "workspace") _ h4 in
      let same : (in_dir, out_dir) ≡ (input, output) = ok_injective h5 in
      (
        workspace,
        limits,
        configured_lem spec workspace placed,
        private_lem workspace "workspace" private,
        subst (IsInside workspace (join workspace "input")) (ap (λ p. p.0) same)
            (inside_lem workspace "input" in_dir in_eq),
        subst (IsInside workspace (join workspace "output")) (ap (λ p. p.1) same)
            (inside_lem workspace "output" out_dir out_eq),
      )

  abbrev pub IsAccepted : WorkspaceSpec → ValidatedWorkspace → Type 0
  IsAccepted spec w =
      IsResolved spec (w.input, w.output)
      × ((found : Found) × (inspect_tree (input_tree files spec.limits w.input)
              (files.output_files.directory w.input)
            ≡ some (ok found)))
      × (validate_declared_outputs files.output_files w.output spec.limits spec.outputs
          ≡ some (ok w.outputs))
      × (w.file_size_limit ≡ first_max w.outputs)

  outputs-IsAccepted :
      (spec : WorkspaceSpec) (input output : FilePath) (w : ValidatedWorkspace) (found : Found)
      (outputs : Option (Result (List ValidatedOutput)))
      → IsResolved spec (input, output)
      → inspect_tree (input_tree files spec.limits input) (files.output_files.directory input)
        ≡ some (ok found)
      → validate_declared_outputs files.output_files output spec.limits spec.outputs ≡ outputs
      → with_outputs files input output outputs ≡ some (ok w)
      → IsAccepted spec w
  outputs-IsAccepted spec input output w found none placed tree eq h = absurd (cc h)
  outputs-IsAccepted spec input output w found (some (err e)) placed tree eq h = absurd (cc h)
  outputs-IsAccepted spec input output w found (some (ok outputs)) placed tree eq h =
      subst (IsAccepted spec) (accepted_injective h) (placed, (found, tree), eq, refl)

  input-IsAccepted :
      (spec : WorkspaceSpec) (input output : FilePath) (w : ValidatedWorkspace)
      (found : Option (Result Found))
      → IsResolved spec (input, output)
      → inspect_tree (input_tree files spec.limits input) (files.output_files.directory input)
        ≡ found
      → with_input files spec input output found ≡ some (ok w)
      → IsAccepted spec w
  input-IsAccepted spec input output w none placed tree h = absurd (cc h)
  input-IsAccepted spec input output w (some (err e)) placed tree h = absurd (cc h)
  input-IsAccepted spec input output w (some (ok found)) placed tree h =
      outputs-IsAccepted spec input output w found _ placed tree refl h

  directories-IsAccepted :
      (spec : WorkspaceSpec) (w : ValidatedWorkspace) (r : Result (FilePath × FilePath))
      → resolve_directories files spec ≡ r
      → with_directories files spec r ≡ some (ok w)
      → IsAccepted spec w
  directories-IsAccepted spec w (err e) eq h = absurd (cc h)
  directories-IsAccepted spec w (ok (input, output)) eq h =
      input-IsAccepted spec input output w _ (resolved_lem spec input output eq) refl h

  -- A workspace that is accepted is a real directory that stands directly in the configured root;
  -- both belong to the service user, and neither can be written by group or others. Its input and
  -- output directories are real directories inside it. The walk over the input holds within the
  -- limits, the outputs are those that the check of the declared outputs accepts, and the file size
  -- limit is the maximum of the first one.
  pub validate_workspace-IsAccepted :
      (spec : WorkspaceSpec) (w : ValidatedWorkspace)
      → validate_workspace files spec ≡ some (ok w)
      → IsAccepted spec w
  unfolding validate_workspace
  validate_workspace-IsAccepted spec w h =
      directories-IsAccepted spec w (resolve_directories files spec) refl h
