-- ===== src/Path.antt =====
-- `std::path` on Unix, as native/src/job.rs and native/src/artifact.rs use it.
use micro_sandbox.Prelude.{Bool, true, false, ◌||◌, ◌&&◌, List, [], ◌∷◌, if◌then◌else◌, ◌==◌}
use micro_sandbox.Error.{Text}
use micro_sandbox.Text.{codes, text_eq, split}
use micro_sandbox.Host.{FilePath}

-- `std::path::Component` on Unix.
pub data Component : Type 0 where
  root_dir cur_dir parent_dir : Component
  normal : Text → Component

-- Behind the first one, empty components and `.` are left out.
abbrev pub later_components : List Text → List Component
later_components [] = []
later_components (name ∷ rest) =
    if text_eq name [] || text_eq name (codes ".")
    then later_components rest
    else if text_eq name (codes "..")
    then parent_dir ∷ later_components rest
    else normal name ∷ later_components rest

abbrev pub first_components : List Text → List Component
first_components [] = []
first_components (name ∷ rest) =
    if text_eq name (codes ".")
    then cur_dir ∷ later_components rest
    else later_components (name ∷ rest)

abbrev pub is_absolute : Text → Bool
is_absolute [] = false
is_absolute (c ∷ _) = c == b'/'

-- `Path::components`.
abbrev pub components : Text → List Component
components path =
    if is_absolute path
    then root_dir ∷ later_components (split b'/' path)
    else first_components (split b'/' path)

-- `join` of a relative path, whose components are normal ones.
abbrev pub join_components : FilePath → List Component → FilePath
join_components path [] = path
join_components path (normal name ∷ rest) = join_components (name ∷ path) rest
join_components path (_ ∷ rest) = join_components path rest

abbrev pub path_eq : FilePath → FilePath → Bool
path_eq [] [] = true
path_eq (a ∷ p) (b ∷ q) = text_eq a b && path_eq p q
path_eq _ _ = false

-- `starts_with`.
abbrev pub starts_with : FilePath → FilePath → Bool
starts_with [] root = path_eq [] root
starts_with (name ∷ path) root = path_eq (name ∷ path) root || starts_with path root
