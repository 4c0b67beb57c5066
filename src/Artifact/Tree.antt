-- ===== src/Artifact/Tree.antt =====
-- `inspect_tree` of native/src/artifact.rs, over one moment of the tree that it reads.
pub mod Figures
pub mod Steps
pub mod Counts
pub mod Bounds
use micro_sandbox.Prelude.{
  ℕ, zero, suc, ◌+◌, ◌-◌, ◌*◌, min, max, Bool, true, false, not, ◌&&◌, ◌||◌, Option, none, some,
  List, [], ◌∷◌, ◌++◌, length, leb, ltb, ◌==◌, if◌then◌else◌,
}
use micro_sandbox.Prelude.Words.{checked_add_u64, saturating_add_u64, saturating_mul_u64}
use micro_sandbox.Error.{
  Text, Message, lit, literal, IoError, policy_violation, security, Result, ok, err, ok_or,
  refuse_if, ◌>>=◌, ◌>>◌,
}
use micro_sandbox.Host.{FilePath, shown}
use micro_sandbox.Artifact.{max_artifact_entries, max_artifact_depth}

-- What the source reads of the metadata of an entry that is no symbolic link and no directory.
pub record Metadata : Type 0 where
  pub is_file : Bool
  pub nlink : ℕ
  pub len : ℕ
  pub blocks : ℕ
  pub blksize : ℕ

mutual
  pub data Node : Type 0 where
    -- `symlink_metadata` fails.
    unreadable : IoError → Node
    symlink : Node
    directory : Directory → Node
    other : Metadata → Node

  pub data Directory : Type 0 where
    -- `read_dir` fails.
    closed : IoError → Directory
    listing : Entries → Directory

  pub data Entries : Type 0 where
    finished : Entries
    failed : IoError → Entries → Entries
    entry : Text → Node → Entries → Entries

-- The arguments of `inspect_tree`.
pub record Inspection : Type 0 where
  pub root : FilePath
  pub max_files : ℕ
  pub max_bytes : ℕ
  pub max_file_bytes : ℕ
  pub require_empty : Bool

pub record Found : Type 0 where
  -- Paths with their sizes.
  pub files : List (FilePath × ℕ)
  pub total : ℕ
  pub allocated : ℕ
  pub allocation_overhead : ℕ
  pub entries : ℕ

abbrev pub nothing_found : Found
nothing_found = record {
  files = [];
  total = 0;
  allocated = 0;
  allocation_overhead = 0;
  entries = 0;
}

-- `max_files.saturating_mul(4).clamp(64, MAX_ARTIFACT_ENTRIES)`.
abbrev pub max_entries : Inspection → ℕ
max_entries l = min (max (saturating_mul_u64 l.max_files 4) 64) max_artifact_entries

-- The directories that are still to be read, the next one first, with their paths below the root.
abbrev pub Pending : Type 0
Pending = List (FilePath × Directory)

module _ (l : Inspection) where
  abbrev pub exceeds : Found → ℕ → Bool
  exceeds w size =
      ltb l.max_files (length w.files)
      || (ltb l.max_bytes w.total
          || (ltb (saturating_add_u64 l.max_bytes w.allocation_overhead) w.allocated
              || ltb l.max_file_bytes size))

  -- A file's size and blocks, counted.
  abbrev pub count_file : FilePath → Metadata → Found → ℕ → ℕ → Found
  count_file path m w total allocated = record {
    files = w.files ++ (path ++ l.root, m.len) ∷ [];
    total = total;
    allocated = allocated;
    allocation_overhead =
        max w.allocation_overhead (saturating_mul_u64 l.max_files (m.blksize - 1));
    entries = w.entries;
  }

  unfoldable pub add_file : FilePath → Metadata → Found → Result Found
  add_file path m w = do
    refuse_if (not m.is_file || not (m.nlink == 1))
        (policy_violation (literal "artifact trees may contain only regular unlinked files"))
    refuse_if (l.require_empty && not (m.len == 0))
        (policy_violation (literal "declared artifact outputs must start empty"))
    total ←
        ok_or (checked_add_u64 w.total m.len)
          (policy_violation (literal "artifact byte count overflowed"))
    allocated ←
        ok_or (checked_add_u64 w.allocated (saturating_mul_u64 m.blocks 512))
          (policy_violation (literal "artifact allocation count overflowed"))
    refuse_if (exceeds (count_file path m w total allocated) m.len)
        (policy_violation (literal "artifact tree exceeds its configured limits"))
    ok (count_file path m w total allocated)

  add_node : FilePath → Node → Found → Pending → Result (Found × Pending)
  unfolding add_file
  add_node path (unreadable e) w pending =
      err (security (lit "stat artifact tree entry: " ∷ e.display))
  add_node path symlink w pending =
      err (policy_violation (literal "artifact trees may not contain symbolic links"))
  add_node path (directory d) w pending =
      if ltb max_artifact_depth (length path)
      then err (policy_violation (literal "artifact tree is nested too deeply"))
      else ok (w, (path, d) ∷ pending)
  add_node path (other m) w pending = add_file path m w >>= λ w'. ok (w', pending)

  -- One entry: it is counted, and then looked at.
  add_entry : FilePath → Node → Found → Pending → Result (Found × Pending)
  unfolding add_node
  add_entry path node w pending =
      let entries = saturating_add_u64 w.entries 1 in
      if ltb (max_entries l) entries
      then err (policy_violation (literal "artifact tree contains too many entries"))
      else add_node path node (record w { entries = entries }) pending

  -- The `for` loop over one directory.
  scan : FilePath → Entries → Found → Pending → Result (Found × Pending)
  unfolding add_entry
  scan path finished w pending = ok (w, pending)
  scan path (failed e rest) w pending =
      err (security (lit "read artifact directory entry: " ∷ e.display))
  scan path (entry name node rest) w pending =
      add_entry (name ∷ path) node w pending >>= λ r. scan path rest r.0 r.1

  pub scan_directory : FilePath → Directory → Found → Pending → Result (Found × Pending)
  unfolding scan
  scan_directory path (closed e) w pending =
      err (
        security
          (lit "read artifact directory " ∷ (shown (path ++ l.root) ++ lit ": " ∷ e.display)))
  scan_directory path (listing es) w pending = scan path es w pending

  -- The `while let` loop, on fuel: nothing where the fuel does not suffice.
  abbrev go_on :
      Result (Found × Pending) → (Found → Pending → Option (Result Found)) → Option (Result Found)
  go_on (err e) next = some (err e)
  go_on (ok (w, pending)) next = next w pending

  unfoldable pub walk : ℕ → Pending → Found → Option (Result Found)
  unfolding scan_directory
  walk fuel [] w = some (ok w)
  walk zero (_ ∷ _) w = none
  walk (suc fuel) ((path, d) ∷ pending) w =
      go_on (scan_directory path d w pending) λ w' pending'. walk fuel pending' w'

-- The directories of a tree, each of which is read once.
abbrev mutual
  pub directories_of_node : Node → ℕ
  directories_of_node (unreadable e) = 0
  directories_of_node symlink = 0
  directories_of_node (directory d) = directories d
  directories_of_node (other m) = 0

  pub directories : Directory → ℕ
  directories (closed e) = 1
  directories (listing es) = 1 + directories_of es

  pub directories_of : Entries → ℕ
  directories_of finished = 0
  directories_of (failed e rest) = directories_of rest
  directories_of (entry name node rest) = directories_of_node node + directories_of rest

-- The files and the tree's other figures, or the first error.
unfoldable pub inspect_tree : Inspection → Directory → Option (Result Found)
unfolding walk
inspect_tree l root = walk l (directories root) (([], root) ∷ []) nothing_found
