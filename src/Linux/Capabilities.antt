-- ===== src/Linux/Capabilities.antt =====
-- `drop_all` of native/src/linux/capabilities.rs: the calling process gives up every capability.
pub mod Dropped
use micro_sandbox.Prelude.{
  ℕ, zero, suc, min, ◌||◌, none, some, [], ◌∷◌, inl, inr, List, if◌then◌else◌,
}
use micro_sandbox.Error.{IoError, Text, security, lit, num, Result, ok, err}
use micro_sandbox.Text.{codes, trim, parse_unsigned}
use micro_sandbox.Host.{FilePath, IoResult}
use micro_sandbox.Cgroup.{has_errno}
use micro_sandbox.Linux.{
  Call, bounding_drop, capset_none, ambient_clear_all, Kernel, Io, ◌>>=◌, ◌>>◌, perform, lift,
  observe, or_os_error,
}
use micro_sandbox.Linux.Masks.{check_masks}

abbrev pub max_capability : ℕ
max_capability = 63

abbrev u32_max : ℕ
u32_max = 4294967295

abbrev pub eperm : ℕ
eperm = 1

abbrev pub einval : ℕ
einval = 22

abbrev last_path : FilePath
last_path = codes "cap_last_cap" ∷ codes "kernel" ∷ codes "sys" ∷ codes "proc" ∷ []

abbrev last_of : IoResult Text → ℕ
last_of (inl e) = max_capability
last_of (inr value) = elim (parse_unsigned u32_max (trim value)) [
  | none ↦ max_capability
  | some last ↦ last
]

abbrev dropping : ℕ → IoError → Result (Unit {0})
dropping capability e =
    if has_errno e einval || has_errno e eperm
    then ok tt
    else err (security (lit "dropping capability " ∷ num capability ∷ lit ": " ∷ e.display))

abbrev clearing : IoError → Result (Unit {0})
clearing e =
    if has_errno e einval
    then ok tt
    else err (security (lit "clearing ambient capabilities: " ∷ e.display))

module _ (k : Kernel) where
  unfoldable pub last_capability : List Call → ℕ
  last_capability log = min (last_of (k.read_to_string log last_path)) max_capability

  -- The loop, for as many capabilities.
  unfoldable pub drop_bounding : ℕ → ℕ → Io (Unit {0})
  drop_bounding zero capability = lift (ok tt)
  drop_bounding (suc n) capability = do
    perform k (dropping capability) (bounding_drop capability)
    drop_bounding n (suc capability)

  -- The calls, for the capabilities up to the last one.
  unfoldable pub drop_up_to : ℕ → Io (Unit {0})
  unfolding drop_bounding
  drop_up_to last = do
    drop_bounding (suc last) 0
    perform k (or_os_error "capset") capset_none
    perform k clearing ambient_clear_all

  unfoldable pub drop_all : Io (Unit {0})
  unfolding last_capability drop_up_to check_masks
  drop_all = λ log. (drop_up_to (last_capability log) >> observe (check_masks k)) log
