-- ===== src/Job/Spec.antt =====
-- The checks of a specification in native/src/job.rs, up to those of its workspace.
pub mod Paths
use micro_sandbox.Prelude.{
  ℕ, String, Bool, true, false, not, ◌&&◌, ◌||◌, Option, none, some, List, [], ◌∷◌, ◌++◌, all, any,
  length, ltb, ◌==◌, if◌then◌else◌,
}
use micro_sandbox.Prelude.Words.{saturating_add_u64}
use micro_sandbox.Error.{
  Text, lit, plain, literal, policy_violation, Result, ok, err, ok_or, refuse_if, ◌>>=◌, ◌>>◌,
}
use micro_sandbox.Text.{codes, text_eq, split, str_len, is_ascii_alphabetic, is_ascii_alphanumeric}
use micro_sandbox.Host.{FilePath, IoResult, from_io}
use micro_sandbox.Config.{ResourceLimits, validate_transport_bounds, as_policy}
use micro_sandbox.Protocol.{Bytes}
use micro_sandbox.Path.{Component, root_dir, normal, is_absolute, components}
use micro_sandbox.Job.{LaunchSpec}

abbrev pub is_guest_component : Component → Bool
is_guest_component root_dir = true
is_guest_component (normal _) = true
is_guest_component _ = false

unfoldable pub validate_guest_path : Text → String → Result (Unit {0})
validate_guest_path path label =
    refuse_if (not (is_absolute path) || any (λ c. not (is_guest_component c)) (components path))
      (policy_violation (plain (codes label) ∷ literal " must be a normalized absolute path"))

unfoldable pub valid_environment_name : Text → Bool
valid_environment_name [] = false
valid_environment_name (c ∷ name) =
    (is_ascii_alphabetic c || c == b'_') && all (λ b. is_ascii_alphanumeric b || b == b'_') name

abbrev pub has_nul : Text → Bool
has_nul t = any (λ c. c == 0) t

abbrev pub bad_variable : Text × Text → Bool
bad_variable (name, value) =
    not (valid_environment_name name)
    || (has_nul value || ltb 16384 (saturating_add_u64 (str_len name) (str_len value)))

-- What the checks ask of base64 and of the file system. `openat2` resolves a path inside a directory
-- and says whether it found a regular file.
pub record Launcher : Type 0 where
  pub decode : Text → Option Bytes
  pub canonicalize : FilePath → IoResult FilePath
  pub is_dir : FilePath → Bool
  pub opens_directory : FilePath → Bool
  pub openat2 : FilePath → Text → Option Bool

-- `trim_start_matches('/')`.
abbrev pub trim_slashes : Text → Text
trim_slashes [] = []
trim_slashes (c ∷ t) = if c == b'/' then trim_slashes t else c ∷ t

unfoldable pub is_runtime_file : Launcher → FilePath → Text → Bool
is_runtime_file host rootfs command =
    host.opens_directory rootfs
    && (not (has_nul (trim_slashes command))
        && elim (host.openat2 rootfs (trim_slashes command)) [ none ↦ false | some found ↦ found ])

-- The checks that read nothing but the specification.
unfoldable pub validate_fields : LaunchSpec → Result (Unit {0})
unfolding validate_guest_path valid_environment_name
validate_fields spec = do
  refuse_if (spec.limits.timeout_ms == 0)
      (policy_violation (literal "timeout limit must be positive"))
  as_policy (validate_transport_bounds spec.limits)
  validate_guest_path spec.command "command"
  refuse_if (has_nul spec.command || any has_nul spec.args)
      (policy_violation (literal "command and arguments may not contain NUL"))
  validate_guest_path spec.cwd "working directory"
  refuse_if (ltb 128 (length spec.env) || any bad_variable spec.env)
      (policy_violation (literal "environment variables are invalid or too large"))

-- `validate_spec` before its workspace: the runtime root and the standard input.
unfoldable pub validate_runtime : Launcher → LaunchSpec → Result (FilePath × Bytes)
unfolding validate_fields is_runtime_file
validate_runtime host spec = do
  validate_fields spec
  stdin ←
      ok_or (host.decode spec.stdin_base64) (policy_violation (literal "stdin is not valid base64"))
  refuse_if (ltb spec.limits.input_bytes (length stdin))
      (policy_violation (literal "stdin exceeds the input limit"))
  rootfs ← from_io (host.canonicalize spec.rootfs)
  refuse_if (not (host.is_dir rootfs))
      (policy_violation (literal "runtime root must be a directory"))
  refuse_if (not (is_runtime_file host rootfs spec.command))
      (policy_violation (lit "command does not exist in runtime: " ∷ plain spec.command ∷ []))
  ok (rootfs, stdin)
