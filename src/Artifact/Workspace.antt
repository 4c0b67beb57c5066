-- ===== src/Artifact/Workspace.antt =====
-- `validate_workspace` of native/src/artifact.rs, over one moment of the workspace's directories.
pub mod Contained
use Prim.Native.Nat.{bit_and}
use micro_sandbox.Prelude.{
  ℕ, String, Bool, false, not, ◌||◌, Option, none, some, List, [], ◌∷◌, ◌++◌, inl, inr, ◌==◌,
  if◌then◌else◌,
}
use micro_sandbox.Error.{
  Message, lit, literal, policy_violation, Result, ok, err, ok_or, refuse_if, ◌>>=◌, ◌>>◌,
}
use micro_sandbox.Path.{path_eq, starts_with}
use micro_sandbox.Host.{FilePath, join, parent, IoResult, from_io}
use micro_sandbox.Artifact.{ArtifactLimits, WorkspaceSpec, validate_limits}
use micro_sandbox.Artifact.Tree.{Inspection, Found, inspect_tree}
use micro_sandbox.Artifact.Outputs.{OutputFiles, ValidatedOutput, validate_declared_outputs}

pub record ValidatedWorkspace : Type 0 where
  pub input : FilePath
  pub output : FilePath
  pub outputs : List ValidatedOutput
  pub file_size_limit : Option ℕ

-- What the checks read of a directory: of the entry itself, and of what it leads to.
pub record EntryMetadata : Type 0 where
  pub is_dir : Bool
  pub is_symlink : Bool

pub record OwnerMetadata : Type 0 where
  pub uid : ℕ
  pub mode : ℕ

pub record WorkspaceFiles : Type 0 where
  -- The variable MICRO_SANDBOX_WORKSPACE_ROOT.
  pub workspace_root : Option FilePath
  pub effective_uid : ℕ
  pub entry_metadata : FilePath → IoResult EntryMetadata
  pub owner_metadata : FilePath → IoResult OwnerMetadata
  pub output_files : OutputFiles

-- `0o022`, and the test on it.
abbrev pub is_shared : ℕ → Bool
is_shared mode = not (bit_and mode 18 == 0)

abbrev pub has_parent : FilePath → FilePath → Bool
has_parent path root = elim (parent path) [ none ↦ false | some above ↦ path_eq above root ]

abbrev pub first_max : List ValidatedOutput → Option ℕ
first_max [] = none
first_max (output ∷ _) = some output.max_bytes

module _ (files : WorkspaceFiles) where
  abbrev pub canonicalize : FilePath → Result FilePath
  canonicalize path = from_io (files.output_files.canonicalize path)

  unfoldable pub validate_private_directory : FilePath → String → Result (Unit {0})
  validate_private_directory path label = do
    metadata ← from_io (files.owner_metadata path)
    refuse_if (not (metadata.uid == files.effective_uid) || is_shared metadata.mode) (
        policy_violation (
          lit label
          ∷ lit " must be owned by the supervisor user and not group/world writable"
          ∷ []))

  unfoldable pub resolve_workspace : WorkspaceSpec → Result FilePath
  unfolding validate_private_directory
  resolve_workspace spec = do
    configured_root ←
        ok_or files.workspace_root (policy_violation (literal "workspace root is not configured"))
    root ← canonicalize configured_root
    validate_private_directory root "workspace root"
    metadata ← from_io (files.entry_metadata spec.path)
    refuse_if (not metadata.is_dir || metadata.is_symlink)
        (policy_violation (literal "workspace must be a real directory"))
    workspace ← canonicalize spec.path
    refuse_if (not (has_parent workspace root))
        (policy_violation (literal "workspace escapes its configured root"))
    ok workspace

  unfoldable pub contained_directory : FilePath → String → Result FilePath
  contained_directory root name = do
    metadata ← from_io (files.entry_metadata (join root name))
    resolved ← canonicalize (join root name)
    refuse_if (not metadata.is_dir || (metadata.is_symlink || not (starts_with resolved root)))
        (policy_violation (lit "workspace " ∷ lit name ∷ lit " directory is unsafe" ∷ []))
    ok resolved

  unfoldable pub resolve_output_directory : WorkspaceSpec → Result FilePath
  unfolding resolve_workspace contained_directory
  resolve_output_directory spec =
      resolve_workspace spec >>= λ root. contained_directory root "output"

  -- The input and the output directory, before either is read.
  unfoldable pub resolve_directories : WorkspaceSpec → Result (FilePath × FilePath)
  unfolding validate_limits resolve_workspace contained_directory validate_private_directory
  resolve_directories spec = do
    validate_limits spec.limits
    workspace ← resolve_workspace spec
    input ← contained_directory workspace "input"
    output ← contained_directory workspace "output"
    validate_private_directory workspace "workspace"
    ok (input, output)

  abbrev pub input_tree : ArtifactLimits → FilePath → Inspection
  input_tree limits input = record {
    root = input;
    max_files = limits.input_files;
    max_bytes = limits.input_bytes;
    max_file_bytes = limits.input_file_bytes;
    require_empty = false;
  }

  abbrev pub with_outputs :
      FilePath
      → FilePath
      → Option (Result (List ValidatedOutput))
      → Option (Result ValidatedWorkspace)
  with_outputs input output none = none
  with_outputs input output (some (err e)) = some (err e)
  with_outputs input output (some (ok outputs)) = some (
      ok (record {
        input = input;
        output = output;
        outputs = outputs;
        file_size_limit = first_max outputs;
      }))

  abbrev pub with_input :
      WorkspaceSpec
      → FilePath
      → FilePath
      → Option (Result Found)
      → Option (Result ValidatedWorkspace)
  with_input spec input output none = none
  with_input spec input output (some (err e)) = some (err e)
  with_input spec input output (some (ok _)) =
      with_outputs input output
        (validate_declared_outputs files.output_files output spec.limits spec.outputs)

  abbrev pub with_directories :
      WorkspaceSpec → Result (FilePath × FilePath) → Option (Result ValidatedWorkspace)
  with_directories spec (err e) = some (err e)
  with_directories spec (ok (input, output)) =
      with_input spec input output
        (inspect_tree (input_tree spec.limits input) (files.output_files.directory input))

  -- `none` where the walk of a tree has not ended, which it always does.
  unfoldable pub validate_workspace : WorkspaceSpec → Option (Result ValidatedWorkspace)
  unfolding resolve_directories
  validate_workspace spec = with_directories spec (resolve_directories spec)
