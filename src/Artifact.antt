-- ===== src/Artifact.antt =====
-- native/src/artifact.rs: the limits of a workspace, and what a caller may declare of it. `Tree`,
-- `Outputs` and `Workspace` have the checks of its directories, `Manifest` what is reported of it.
pub mod Tree
pub mod Outputs
pub mod Workspace
pub mod Manifest
use micro_sandbox.Prelude.{ℕ, Bool, ◌||◌, Option, List, ltb, ◌==◌}
use micro_sandbox.Error.{Text, Result, policy_violation, literal, refuse_if}
use micro_sandbox.Host.{FilePath}

pub record ArtifactLimits : Type 0 where
  pub input_files : ℕ
  pub input_bytes : ℕ
  pub input_file_bytes : ℕ
  pub output_files : ℕ
  pub output_bytes : ℕ
  pub output_file_bytes : ℕ

pub record DeclaredOutput : Type 0 where
  pub path : Text
  pub max_bytes : Option ℕ
  pub required : Bool

pub record WorkspaceSpec : Type 0 where
  pub path : FilePath
  pub limits : ArtifactLimits
  pub outputs : List DeclaredOutput

abbrev pub max_artifact_bytes : ℕ
max_artifact_bytes = 1073741824

abbrev pub max_artifact_files : ℕ
max_artifact_files = 1024

abbrev pub max_artifact_entries : ℕ
max_artifact_entries = 4096

abbrev pub max_artifact_depth : ℕ
max_artifact_depth = 32

unfoldable pub validate_limits : ArtifactLimits → Result (Unit {0})
validate_limits l =
    refuse_if
      (l.input_files == 0
        || (l.output_files == 0
            || (ltb max_artifact_files l.input_files
                || (ltb max_artifact_files l.output_files
                    || (l.input_bytes == 0
                        || (l.input_file_bytes == 0
                            || (l.output_bytes == 0
                                || (l.output_file_bytes == 0
                                    || (ltb max_artifact_bytes l.input_bytes
                                        || (ltb l.input_bytes l.input_file_bytes
                                            || (ltb max_artifact_bytes l.output_bytes
                                                || ltb l.output_bytes l.output_file_bytes)))))))))))
      (policy_violation (literal "artifact limits exceed immutable native bounds"))
