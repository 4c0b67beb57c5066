-- ===== src/Artifact/Tree/Figures.antt =====
-- Figures of a tree that `inspect_tree` of native/src/artifact.rs reads, independent of the walk.
use micro_sandbox.Prelude.{
  ℕ, suc, ◌+◌, Bool, true, false, ◌&&◌, List, [], ◌∷◌, ◌++◌, length, leb, ◌==◌, sum_of,
}
use micro_sandbox.Host.{FilePath}
use micro_sandbox.Artifact.{max_artifact_depth}
use micro_sandbox.Artifact.Tree.{
  Node, Directory, Entries, unreadable, symlink, directory, other, closed, listing, finished,
  failed, entry, Pending, directories,
}

-- How many files a tree has, and how many bytes they have together.
abbrev mutual
  pub files_of_node : Node → ℕ
  files_of_node (unreadable e) = 0
  files_of_node symlink = 0
  files_of_node (directory d) = files_of_directory d
  files_of_node (other m) = 1

  pub files_of_directory : Directory → ℕ
  files_of_directory (closed e) = 0
  files_of_directory (listing es) = files_of es

  pub files_of : Entries → ℕ
  files_of finished = 0
  files_of (failed e rest) = files_of rest
  files_of (entry name node rest) = files_of_node node + files_of rest

abbrev mutual
  pub bytes_of_node : Node → ℕ
  bytes_of_node (unreadable e) = 0
  bytes_of_node symlink = 0
  bytes_of_node (directory d) = bytes_of_directory d
  bytes_of_node (other m) = m.len

  pub bytes_of_directory : Directory → ℕ
  bytes_of_directory (closed e) = 0
  bytes_of_directory (listing es) = bytes_of es

  pub bytes_of : Entries → ℕ
  bytes_of finished = 0
  bytes_of (failed e rest) = bytes_of rest
  bytes_of (entry name node rest) = bytes_of_node node + bytes_of rest

-- The paths and sizes of the files of a tree that stands at a path.
abbrev mutual
  pub listed_in_node : FilePath → Node → List (FilePath × ℕ)
  listed_in_node path (unreadable e) = []
  listed_in_node path symlink = []
  listed_in_node path (directory d) = listed_in_directory path d
  listed_in_node path (other m) = (path, m.len) ∷ []

  pub listed_in_directory : FilePath → Directory → List (FilePath × ℕ)
  listed_in_directory path (closed e) = []
  listed_in_directory path (listing es) = listed_in path es

  pub listed_in : FilePath → Entries → List (FilePath × ℕ)
  listed_in path finished = []
  listed_in path (failed e rest) = listed_in path rest
  listed_in path (entry name node rest) = listed_in_node (name ∷ path) node ++ listed_in path rest

-- A tree with nothing in it but directories, 32 deep at most, and regular files with one link, all
-- of which can be read.
abbrev mutual
  pub is_plain_node : ℕ → Node → Bool
  is_plain_node depth (unreadable e) = false
  is_plain_node depth symlink = false
  is_plain_node depth (directory d) = leb depth max_artifact_depth && is_plain_directory depth d
  is_plain_node depth (other m) = m.is_file && m.nlink == 1

  pub is_plain_directory : ℕ → Directory → Bool
  is_plain_directory depth (closed e) = false
  is_plain_directory depth (listing es) = is_plain depth es

  pub is_plain : ℕ → Entries → Bool
  is_plain depth finished = true
  is_plain depth (failed e rest) = false
  is_plain depth (entry name node rest) = is_plain_node (suc depth) node && is_plain depth rest

-- The same figures of the directories that are still to be read.
abbrev pub pending_files : Pending → ℕ
pending_files [] = 0
pending_files ((path, d) ∷ rest) = files_of_directory d + pending_files rest

abbrev pub pending_bytes : Pending → ℕ
pending_bytes [] = 0
pending_bytes ((path, d) ∷ rest) = bytes_of_directory d + pending_bytes rest

abbrev pub pending_directories : Pending → ℕ
pending_directories [] = 0
pending_directories ((path, d) ∷ rest) = directories d + pending_directories rest

abbrev pub pending_listed : FilePath → Pending → List (FilePath × ℕ)
pending_listed root [] = []
pending_listed root ((path, d) ∷ rest) =
    listed_in_directory (path ++ root) d ++ pending_listed root rest

abbrev pub pending_plain : Pending → Bool
pending_plain [] = true
pending_plain ((path, d) ∷ rest) = is_plain_directory (length path) d && pending_plain rest

abbrev pub sizes : List (FilePath × ℕ) → ℕ
sizes files = sum_of (λ f. f.1) files
