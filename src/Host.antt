-- ===== src/Host.antt =====
-- What the sources ask of the operating system's files. A path is its components, innermost first,
-- so that `join` puts one in front and `parent` takes it off; the root has none.
use micro_sandbox.Prelude.{ℕ, Bool, Option, none, some, List, [], ◌∷◌, ◌++◌, ◌⊎◌, inl, inr, String}
use micro_sandbox.Error.{Text, Part, lit, plain, IoError, Result, ok, err, io}
use micro_sandbox.Text.{codes}

abbrev pub FilePath : Type 0
FilePath = List Text

abbrev pub join : FilePath → String → FilePath
join p name = codes name ∷ p

abbrev pub parent : FilePath → Option FilePath
parent [] = none
parent (_ ∷ p) = some p

-- A path's own display, before it is rendered.
abbrev pub shown : FilePath → List Part
shown [] = []
shown (name ∷ path) = shown path ++ lit "/" ∷ plain name ∷ []

-- An `io::Result`, and `?` on it, which makes an `Io` error.
abbrev pub IoResult : Type 0 → Type 0
IoResult A = IoError ⊎ A

abbrev pub from_io : {A : Type 0} → IoResult A → Result A
from_io (inl e) = err (io e)
from_io (inr a) = ok a

-- One moment of the file system and of the host.
pub record Host : Type 0 where
  pub exists : FilePath → Bool
  pub read_to_string : FilePath → IoResult Text
  -- `std::thread::available_parallelism()`.
  pub parallelism : IoResult ℕ
  -- The readable entries of `/proc`: the name, and the number of entries of its `task` directory,
  -- 0 where that cannot be read.
  pub proc_entries : IoResult (List (Text × ℕ))
