-- ===== src/Cgroup/Usage.antt =====
-- native/src/linux/cgroup.rs: what a finished job's cgroup says of its use of memory.
use micro_sandbox.Prelude.{
  ℕ, Bool, false, Option, none, some, List, [], ◌∷◌, inl, inr, ltb, if◌then◌else◌,
}
use micro_sandbox.Prelude.Words.{u64_max, and_then}
use micro_sandbox.Error.{Text}
use micro_sandbox.Text.{codes, text_eq, trim, lines, split_whitespace, parse_unsigned}
use micro_sandbox.Host.{FilePath, join, IoResult, Host}

-- `find_map` over the lines of `memory.events`.
oom_field : List Text → Option ℕ
oom_field (name ∷ count ∷ rest) =
    if text_eq name (codes "oom_kill") then parse_unsigned u64_max count else none
oom_field _ = none

oom_count : List Text → Option ℕ
unfolding oom_field
oom_count [] = none
oom_count (line ∷ rest) = elim (oom_field (split_whitespace line)) [
  | none ↦ oom_count rest
  | some count ↦ some count
]

abbrev text_of : IoResult Text → Option Text
text_of (inl e) = none
text_of (inr t) = some t

unfoldable pub oom_killed : Host → FilePath → Bool
unfolding oom_count
oom_killed host path =
    elim (and_then (text_of (host.read_to_string (join path "memory.events")))
      λ events. oom_count (lines events)) [ none ↦ false | some count ↦ ltb 0 count ]

unfoldable pub read_u64 : Host → FilePath → Option ℕ
read_u64 host path =
    and_then (text_of (host.read_to_string path)) λ value. parse_unsigned u64_max (trim value)
