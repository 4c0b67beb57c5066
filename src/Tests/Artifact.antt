-- ===== src/Tests/Artifact.antt =====
-- Artifact trees of native/src/artifact.rs.
use mathlib.Core.List.{Perm}
use micro_sandbox.Prelude.{
  ℕ, ◌≡◌, ◌≤◌, ◌<◌, refl, true, false, Option, none, some, inr, List, [], ◌∷◌, All, length,
}
use micro_sandbox.Error.{Result, ok}
use micro_sandbox.Text.{codes, split}
use micro_sandbox.Host.{FilePath}
use micro_sandbox.Artifact.{ArtifactLimits, DeclaredOutput}
use micro_sandbox.Artifact.Outputs.{
  OutputFiles, ValidatedOutput, declare, declare_all, validate_declared_outputs,
}
use micro_sandbox.Artifact.Outputs.Round.{paths, declared_paths, Distinct, budget}
use micro_sandbox.Artifact.Outputs.Bounds.{validate_declared_outputs_sound}
use micro_sandbox.Artifact.Tree.{
  Metadata, Directory, listing, entry, finished, directory, other, Inspection, Found, inspect_tree,
  add_file,
}
use micro_sandbox.Artifact.Tree.Figures.{
  is_plain_directory, listed_in_directory, files_of_directory, bytes_of_directory, sizes,
}
use micro_sandbox.Artifact.Tree.Counts.{IsWithin}
use micro_sandbox.Artifact.Tree.Bounds.{inspect_tree_ends, inspect_tree-plain}

abbrev file : ℕ → Metadata
file bytes = record { is_file = true; nlink = 1; len = bytes; blocks = 8; blksize = 4096 }

abbrev pub tree : Directory
tree = listing (
    entry (codes "a.txt") (other (file 12)) (
      entry (codes "sub") (directory (listing (entry (codes "b.txt") (other (file 30)) finished)))
        finished))

abbrev inspection : Inspection
inspection = record {
  root = codes "input" ∷ [];
  max_files = 8;
  max_bytes = 65536;
  max_file_bytes = 4096;
  require_empty = false;
}

abbrev found : Found
found = record {
  files =
      (codes "a.txt" ∷ codes "input" ∷ [], 12)
      ∷ (codes "b.txt" ∷ codes "sub" ∷ codes "input" ∷ [], 30)
      ∷ [];
  total = 42;
  allocated = 8192;
  allocation_overhead = 32760;
  entries = 3;
}

tree_accepted : inspect_tree inspection tree ≡ some (ok found)
unfolding inspect_tree add_file
tree_accepted = refl

inspect_tree_returns : (r : Result Found) × (inspect_tree inspection tree ≡ some r)
inspect_tree_returns = inspect_tree_ends inspection tree

inspect_tree-plain_example :
    (is_plain_directory 0 tree ≡ true)
    × Perm found.files (listed_in_directory (codes "input" ∷ []) tree)
    × (length found.files ≡ files_of_directory tree)
    × (sizes found.files ≡ bytes_of_directory tree)
    × IsWithin inspection found
inspect_tree-plain_example = inspect_tree-plain inspection tree found tree_accepted

-- Two outputs, declared and empty.
abbrev pub output_tree : Directory
output_tree = listing (
    entry (codes "a.txt") (other (file 0)) (
      entry (codes "sub") (directory (listing (entry (codes "b.txt") (other (file 0)) finished)))
        finished))

abbrev output_root : FilePath
output_root = codes "output" ∷ []

abbrev pub output_files : OutputFiles
output_files = record {
  symlink_metadata =
      λ path. inr (record { is_file = true; is_symlink = false; nlink = 1; len = 0 });
  canonicalize = λ path. inr path;
  open_read_write = λ path. inr 5;
  directory = λ path. output_tree;
}

abbrev pub artifact_limits : ArtifactLimits
artifact_limits = record {
  input_files = 8;
  input_bytes = 65536;
  input_file_bytes = 4096;
  output_files = 8;
  output_bytes = 65536;
  output_file_bytes = 4096;
}

abbrev pub declared : List DeclaredOutput
declared =
    record { path = codes "a.txt"; max_bytes = none; required = true }
    ∷ record { path = codes "sub/b.txt"; max_bytes = some 4096; required = false }
    ∷ []

abbrev outputs : List ValidatedOutput
outputs =
    record {
      relative = codes "a.txt";
      host = codes "a.txt" ∷ output_root;
      handle = 5;
      max_bytes = 4096;
      required = true;
    }
    ∷ record {
      relative = codes "sub/b.txt";
      host = codes "b.txt" ∷ codes "sub" ∷ output_root;
      handle = 5;
      max_bytes = 4096;
      required = false;
    }
    ∷ []

outputs_accepted :
    validate_declared_outputs output_files output_root artifact_limits declared ≡ some (ok outputs)
unfolding validate_declared_outputs declare_all declare inspect_tree add_file split
outputs_accepted = refl

validate_declared_outputs_sound_example :
    (paths outputs ≡ declared_paths declared)
    × Distinct outputs
    × All (λ o. (0 < o.max_bytes) × (o.max_bytes ≤ 4096)) outputs
    × ((uniform : Option ℕ) × All (λ o. some o.max_bytes ≡ uniform) outputs)
    × (budget outputs ≤ 65536)
    × (files_of_directory output_tree ≡ length outputs)
    × (bytes_of_directory output_tree ≡ 0)
validate_declared_outputs_sound_example =
    validate_declared_outputs_sound output_files output_root artifact_limits declared outputs
      outputs_accepted
