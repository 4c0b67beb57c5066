-- ===== src/Artifact/Manifest.antt =====
-- `collect_outputs` of native/src/artifact.rs, over one moment of the pinned files. The hash is a
-- parameter, of all the bytes that were read.
pub mod Order
pub mod Reported
use micro_sandbox.Prelude.{
  ℕ, Bool, false, not, ◌&&◌, ◌||◌, Option, none, some, List, [], ◌∷◌, ◌++◌, inl, inr, ltb, ◌==◌,
  if◌then◌else◌,
}
use micro_sandbox.Error.{
  Text, IoError, lit, literal, security, Result, ok, err, refuse_if, ◌>>=◌, ◌>>◌, SandboxError,
}
use micro_sandbox.Host.{IoResult}
use micro_sandbox.Artifact.{ArtifactLimits}
use micro_sandbox.Artifact.Tree.{Directory, Inspection, Found, inspect_tree}
use micro_sandbox.Artifact.Outputs.{ValidatedOutput}
use micro_sandbox.Artifact.Workspace.{ValidatedWorkspace}
use micro_sandbox.Job.Exec.{text_less}
use micro_sandbox.Protocol.{Bytes}

pub record ArtifactManifestEntry : Type 0 where
  pub path : Text
  pub size : ℕ
  pub sha256 : Text

pub record PinnedMetadata : Type 0 where
  pub is_file : Bool
  pub nlink : ℕ
  pub len : ℕ

pub record PinnedFiles : Type 0 where
  pub try_clone : ℕ → IoResult ℕ
  pub metadata : ℕ → IoResult PinnedMetadata
  -- What the reads of a file return, in order.
  pub reads : ℕ → List (IoResult Bytes)
  pub sha256 : Bytes → Text

abbrev pub or_security : {A : Type 0} → IoResult A → (IoError → SandboxError) → Result A
or_security (inl e) to_error = err (to_error e)
or_security (inr a) to_error = ok a

-- The reads up to the first empty one.
unfoldable pub read_pinned : Bytes → List (IoResult Bytes) → Result Bytes
read_pinned read [] = ok read
read_pinned read (inl e ∷ rest) = err (security (lit "read pinned artifact output: " ∷ e.display))
read_pinned read (inr [] ∷ rest) = ok read
read_pinned read (inr (b ∷ t) ∷ rest) = read_pinned (read ++ b ∷ t) rest

-- The place of an entry among sorted ones; `sort_by` keeps the order of equal paths.
unfoldable pub insert_entry :
    ArtifactManifestEntry → List ArtifactManifestEntry → List ArtifactManifestEntry
insert_entry entry [] = entry ∷ []
insert_entry entry (other ∷ rest) =
    let later = insert_entry entry rest in
    if text_less other.path entry.path then other ∷ later else entry ∷ other ∷ rest

unfoldable pub sort_entries : List ArtifactManifestEntry → List ArtifactManifestEntry
unfolding insert_entry
sort_entries [] = []
sort_entries (entry ∷ rest) = insert_entry entry (sort_entries rest)

module _ (files : PinnedFiles) where
  unfoldable pub report :
      ValidatedOutput → ℕ → PinnedMetadata → Result (Option ArtifactManifestEntry)
  unfolding read_pinned
  report output file metadata = do
    refuse_if
        (not metadata.is_file || (not (metadata.nlink == 1) || ltb output.max_bytes metadata.len))
        (security (literal "artifact changed after validation"))
    read ← read_pinned [] (files.reads file)
    ok (some (record { path = output.relative; size = metadata.len; sha256 = files.sha256 read }))

  -- One round of the loop: an empty file that is not required is left out.
  unfoldable pub collect_output : ValidatedOutput → Result (Option ArtifactManifestEntry)
  unfolding report
  collect_output output = do
    file ←
        or_security (files.try_clone output.handle)
          λ e. (security (lit "clone pinned artifact output: " ∷ e.display))
    metadata ←
        or_security (files.metadata file)
          λ e. (security (lit "stat pinned artifact output: " ∷ e.display))
    if metadata.len == 0 && not output.required then ok none else report output file metadata

  abbrev pub push :
      Option ArtifactManifestEntry → List ArtifactManifestEntry → List ArtifactManifestEntry
  push none rest = rest
  push (some entry) rest = entry ∷ rest

  unfoldable pub collect_all : List ValidatedOutput → Result (List ArtifactManifestEntry)
  unfolding collect_output
  collect_all [] = ok []
  collect_all (output ∷ rest) = do
    entry ← collect_output output
    later ← collect_all rest
    ok (push entry later)

  abbrev pub output_tree : ArtifactLimits → ValidatedWorkspace → Inspection
  output_tree limits workspace = record {
    root = workspace.output;
    max_files = limits.output_files;
    max_bytes = limits.output_bytes;
    max_file_bytes = limits.output_file_bytes;
    require_empty = false;
  }

  abbrev pub collected :
      ValidatedWorkspace → Option (Result Found) → Option (Result (List ArtifactManifestEntry))
  collected workspace none = none
  collected workspace (some (err e)) = some (err e)
  collected workspace (some (ok _)) =
      some (collect_all workspace.outputs >>= λ entries. ok (sort_entries entries))

  -- `none` where the walk of the tree has not ended, which it always does.
  unfoldable pub collect_outputs :
      Directory → ValidatedWorkspace → ArtifactLimits → Option (Result (List ArtifactManifestEntry))
  unfolding collect_all sort_entries
  collect_outputs directory workspace limits =
      collected workspace (inspect_tree (output_tree limits workspace) directory)
