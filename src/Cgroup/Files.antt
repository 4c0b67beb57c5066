-- ===== src/Cgroup/Files.antt =====
-- native/src/linux/cgroup.rs: the file system of the cgroups and the state of one. The cgroup file
-- system and the clock are the record `CgroupFs`, over a state that every operation passes on;
-- instants are in nanoseconds.
use micro_sandbox.Prelude.{ℕ, Bool, true, false, none, some, List, any, ◌==◌}
use micro_sandbox.Error.{
  Text, IoKind, not_found, IoError, policy_violation, literal, Result, refuse_if,
}
use micro_sandbox.Host.{FilePath, IoResult, Host}

abbrev pub cgroup2_super_magic : ℕ
cgroup2_super_magic = 0x63677270

-- One second.
abbrev pub remove_timeout : ℕ
remove_timeout = 1000000000

-- The ten milliseconds between two tries.
abbrev pub retry_pause : ℕ
retry_pause = 10000000

abbrev pub ebusy : ℕ
ebusy = 16

pub data CgroupMode : Type 0 where
  kernel emulated : CgroupMode

pub record Cgroup : Type 0 where
  pub path : FilePath
  pub mode : CgroupMode
  pub cleaned : Bool

-- What the sources call of `std::fs`, `statfs` and the clock. Other processes act between two
-- calls, so that an operation may leave any state.
pub record CgroupFs (S : Type 0) : Type 0 where
  pub host : S → Host
  pub create_dir : FilePath → S → IoResult (Unit {0}) × S
  pub write : FilePath → Text → S → IoResult (Unit {0}) × S
  -- The entries' paths.
  pub read_dir : FilePath → S → IoResult (List (IoResult FilePath))
  pub is_file : FilePath → S → Bool
  pub remove_file : FilePath → S → IoResult (Unit {0}) × S
  pub remove_dir : FilePath → S → IoResult (Unit {0}) × S
  -- `f_type` of `statfs`.
  pub magic : FilePath → S → IoResult ℕ
  pub now : S → ℕ
  pub sleep : ℕ → S → S

abbrev pub is_not_found : IoKind → Bool
is_not_found not_found = true
is_not_found _ = false

abbrev pub has_errno : IoError → ℕ → Bool
has_errno e errno = elim e.raw_os_error [ none ↦ false | some raw ↦ raw == errno ]

abbrev pub is_kernel : CgroupMode → Bool
is_kernel kernel = true
is_kernel emulated = false

-- `path_cstring` of native/src/linux/paths.rs, of which only the failure matters here.
unfoldable pub path_cstring : FilePath → Result (Unit {0})
path_cstring path =
    refuse_if (any (any (λ c. c == 0)) path) (policy_violation (literal "path contains NUL"))
