-- ===== src/Job/Input.antt =====
-- What `launch` of native/src/main.rs reads before it launches, with `root_from_env` of
-- native/src/linux/cgroup.rs.
use micro_sandbox.Prelude.{ℕ, zero, suc, ◌+◌, Option, [], ◌∷◌, ◌⊎◌, inl, inr, length, ltb}
use micro_sandbox.Error.{
  Message, lit, literal, protocol, cgroup_unavailable, Result, ok, err, ok_or, refuse_if, ◌>>=◌,
  ◌>>◌,
}
use micro_sandbox.Host.{FilePath}
use micro_sandbox.Protocol.{Bytes, max_frame_bytes}
use micro_sandbox.Job.{LaunchSpec}

-- `take`.
unfoldable pub take : ℕ → Bytes → Bytes
take zero bytes = []
take (suc n) [] = []
take (suc n) (b ∷ t) = b ∷ take n t

abbrev pub parsed_spec : Message ⊎ LaunchSpec → Result LaunchSpec
parsed_spec (inl m) = err (protocol (lit "invalid launch spec: " ∷ m))
parsed_spec (inr spec) = ok spec

unfoldable pub root_from_env : Option FilePath → Result FilePath
root_from_env variable =
    ok_or variable (cgroup_unavailable (literal "MICRO_SANDBOX_CGROUP_ROOT is not set"))

-- The specification and the cgroup root, from the whole standard input.
unfoldable pub read_spec :
    (Bytes → Message ⊎ LaunchSpec) → Option FilePath → Bytes → Result (LaunchSpec × FilePath)
unfolding take root_from_env
read_spec from_slice variable stdin = do
  let input = take (max_frame_bytes + 1) stdin
  refuse_if (ltb max_frame_bytes (length input)) (protocol (literal "launch spec exceeds 1 MiB"))
  spec ← parsed_spec (from_slice input)
  root ← root_from_env variable
  ok (spec, root)
