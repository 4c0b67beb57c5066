-- ===== src/Tests/Workspace.antt =====
-- Workspaces of native/src/artifact.rs: one is checked, and its outputs are reported.
use micro_sandbox.Prelude.{◌≡◌, refl, true, false, some, inr, ◌==◌, List, [], ◌∷◌, if◌then◌else◌}
use micro_sandbox.Error.{ok}
use micro_sandbox.Text.{codes, split}
use micro_sandbox.Host.{FilePath, join}
use micro_sandbox.Path.{path_eq}
use micro_sandbox.Artifact.{WorkspaceSpec}
use micro_sandbox.Artifact.Tree.{inspect_tree, add_file}
use micro_sandbox.Artifact.Outputs.{
  ValidatedOutput, validate_declared_outputs, declare, declare_all,
}
use micro_sandbox.Artifact.Workspace.{ValidatedWorkspace, WorkspaceFiles, validate_workspace}
use micro_sandbox.Artifact.Workspace.Contained.{IsAccepted, validate_workspace-IsAccepted}
use micro_sandbox.Artifact.Manifest.{ArtifactManifestEntry, PinnedFiles, collect_outputs}
use micro_sandbox.Artifact.Manifest.Reported.{IsManifest, collect_outputs-IsManifest}
use micro_sandbox.Job.Exec.{text_less}
use micro_sandbox.Tests.Artifact.{tree, output_files, output_tree, declared, artifact_limits}

abbrev workspace_dir : FilePath
workspace_dir = codes "job" ∷ codes "workspaces" ∷ []

-- The service user is 1000; the workspace is 0o700.
abbrev files : WorkspaceFiles
files = record {
  workspace_root = some (codes "workspaces" ∷ []);
  effective_uid = 1000;
  entry_metadata = λ path. inr (record { is_dir = true; is_symlink = false });
  owner_metadata = λ path. inr (record { uid = 1000; mode = 448 });
  output_files = record output_files {
    directory = λ path. if path_eq path (join workspace_dir "output") then output_tree else tree;
  };
}

abbrev spec : WorkspaceSpec
spec = record { path = workspace_dir; limits = artifact_limits; outputs = declared }

abbrev pinned_outputs : List ValidatedOutput
pinned_outputs =
    record {
      relative = codes "a.txt";
      host = codes "a.txt" ∷ join workspace_dir "output";
      handle = 5;
      max_bytes = 4096;
      required = true;
    }
    ∷ record {
      relative = codes "sub/b.txt";
      host = codes "b.txt" ∷ codes "sub" ∷ join workspace_dir "output";
      handle = 5;
      max_bytes = 4096;
      required = false;
    }
    ∷ []

abbrev accepted : ValidatedWorkspace
accepted = record {
  input = join workspace_dir "input";
  output = join workspace_dir "output";
  outputs = pinned_outputs;
  file_size_limit = some 4096;
}

workspace_accepted : validate_workspace files spec ≡ some (ok accepted)
unfolding validate_workspace validate_declared_outputs declare_all declare inspect_tree add_file
    split
workspace_accepted = refl

validate_workspace-IsAccepted_example : IsAccepted files spec accepted
validate_workspace-IsAccepted_example =
    validate_workspace-IsAccepted files spec accepted workspace_accepted

-- Two outputs, the second of which was declared first; a third is empty and not required.
abbrev finished_workspace : ValidatedWorkspace
finished_workspace = record accepted {
  outputs =
      record {
        relative = codes "b";
        host = codes "b" ∷ [];
        handle = 5;
        max_bytes = 4096;
        required = true;
      }
      ∷ record {
        relative = codes "a";
        host = codes "a" ∷ [];
        handle = 6;
        max_bytes = 4096;
        required = true;
      }
      ∷ record {
        relative = codes "c";
        host = codes "c" ∷ [];
        handle = 7;
        max_bytes = 4096;
        required = false;
      }
      ∷ [];
}

abbrev pinned : PinnedFiles
pinned = record {
  try_clone = λ handle. inr handle;
  metadata =
      λ file. inr (record { is_file = true; nlink = 1; len = if file == 7 then 0 else file });
  reads = λ file. inr (codes "xyz") ∷ [];
  sha256 = λ bytes. bytes;
}

abbrev manifest : List ArtifactManifestEntry
manifest =
    record { path = codes "a"; size = 6; sha256 = codes "xyz" }
    ∷ record { path = codes "b"; size = 5; sha256 = codes "xyz" }
    ∷ []

outputs_reported :
    collect_outputs pinned tree finished_workspace artifact_limits ≡ some (ok manifest)
unfolding collect_outputs inspect_tree add_file text_less
outputs_reported = refl

collect_outputs-IsManifest_example : IsManifest pinned finished_workspace.outputs manifest
collect_outputs-IsManifest_example =
    collect_outputs-IsManifest pinned tree finished_workspace artifact_limits manifest
      outputs_reported
