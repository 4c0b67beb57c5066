-- ===== src/Artifact/Outputs.antt =====
-- `validate_declared_outputs` of native/src/artifact.rs, over one moment of the output directory.
pub mod Round
pub mod Bounds
use micro_sandbox.Prelude.{
  ℕ, ◌+◌, Bool, true, false, not, ◌&&◌, ◌||◌, Option, none, some, List, [], ◌∷◌, ◌++◌, any, length,
  ltb, ◌==◌, if◌then◌else◌,
}
use micro_sandbox.Prelude.Words.{checked_add_u64}
use micro_sandbox.Error.{
  Text, literal, policy_violation, SandboxError, Result, ok, err, ok_or, refuse_if, ◌>>=◌, ◌>>◌,
}
use micro_sandbox.Text.{text_eq, str_len}
use micro_sandbox.Path.{Component, normal, is_absolute, components, join_components, starts_with}
use micro_sandbox.Host.{FilePath, IoResult, from_io}
use micro_sandbox.Artifact.{ArtifactLimits, DeclaredOutput}
use micro_sandbox.Artifact.Tree.{Directory, Inspection, Found, inspect_tree}

-- What `symlink_metadata` says of an output.
pub record OutputMetadata : Type 0 where
  pub is_file : Bool
  pub is_symlink : Bool
  pub nlink : ℕ
  pub len : ℕ

pub record OutputFiles : Type 0 where
  pub symlink_metadata : FilePath → IoResult OutputMetadata
  pub canonicalize : FilePath → IoResult FilePath
  -- `open_path` for reading and writing: a descriptor.
  pub open_read_write : FilePath → IoResult ℕ
  pub directory : FilePath → Directory

pub record ValidatedOutput : Type 0 where
  pub relative : Text
  pub host : FilePath
  pub handle : ℕ
  pub max_bytes : ℕ
  pub required : Bool

-- The variables of the loop.
pub record Declared : Type 0 where
  pub outputs : List ValidatedOutput
  pub declared_bytes : ℕ
  pub uniform_max : Option ℕ

abbrev pub is_normal : Component → Bool
is_normal (normal _) = true
is_normal _ = false

abbrev is_nil : Text → Bool
is_nil [] = true
is_nil (_ ∷ _) = false

abbrev pub bad_path : Text → Bool
bad_path path =
    is_nil path
    || (ltb 1024 (str_len path)
        || (any (λ c. c == b'\\') path
            || (is_absolute path || any (λ c. not (is_normal c)) (components path))))

abbrev pub differs : Option ℕ → ℕ → Bool
differs none max_bytes = false
differs (some expected) max_bytes = not (expected == max_bytes)

abbrev pub max_of : DeclaredOutput → ArtifactLimits → ℕ
max_of item limits = elim item.max_bytes [ none ↦ limits.output_file_bytes | some n ↦ n ]

abbrev pub is_declared : Text → List ValidatedOutput → Bool
is_declared path outputs = any (λ o. text_eq o.relative path) outputs

abbrev pub unsafe_output : FilePath → OutputMetadata → FilePath → Text → List ValidatedOutput → Bool
unsafe_output root metadata canonical path outputs =
    not metadata.is_file
    || (metadata.is_symlink
        || (not (metadata.nlink == 1)
            || (not (metadata.len == 0)
                || (not (starts_with canonical root) || is_declared path outputs))))

module _ (files : OutputFiles) (root : FilePath) (limits : ArtifactLimits) where
  -- One round of the loop.
  unfoldable pub declare : DeclaredOutput → Declared → Result Declared
  declare item d = do
    refuse_if (bad_path item.path)
        (policy_violation (literal "declared artifact output path is invalid"))
    let max_bytes = max_of item limits
    refuse_if (differs d.uniform_max max_bytes)
        (policy_violation (literal "declared outputs must use one uniform hard maximum"))
    declared_bytes ←
        ok_or (checked_add_u64 d.declared_bytes max_bytes)
          (policy_violation (literal "artifact output byte count overflowed"))
    refuse_if
        (max_bytes == 0
          || (ltb limits.output_file_bytes max_bytes || ltb limits.output_bytes declared_bytes))
        (policy_violation (literal "declared outputs exceed their limits"))
    let host = join_components root (components item.path)
    metadata ← from_io (files.symlink_metadata host)
    canonical ← from_io (files.canonicalize host)
    refuse_if (unsafe_output root metadata canonical item.path d.outputs)
        (policy_violation (literal "declared artifact output is unsafe"))
    handle ← from_io (files.open_read_write host)
    ok (record {
      outputs =
          d.outputs
          ++ record {
            relative = item.path;
            host = canonical;
            handle = handle;
            max_bytes = max_bytes;
            required = item.required;
          }
            ∷ [];
      declared_bytes = declared_bytes;
      uniform_max = some max_bytes;
    })

  unfoldable pub declare_all : List DeclaredOutput → Declared → Result Declared
  declare_all [] d = ok d
  declare_all (item ∷ rest) d = declare item d >>= declare_all rest

  -- What `inspect_tree` is asked of the output directory.
  abbrev pub empty_tree : Inspection
  empty_tree = record {
    root = root;
    max_files = limits.output_files;
    max_bytes = 0;
    max_file_bytes = 0;
    require_empty = true;
  }

  abbrev pub nothing_declared : Declared
  nothing_declared = record { outputs = []; declared_bytes = 0; uniform_max = none }

  abbrev compare_tree : List ValidatedOutput → Result Found → Result (List ValidatedOutput)
  compare_tree outputs (err e) = err e
  compare_tree outputs (ok found) =
      if not (length found.files == length outputs)
      then err (policy_violation (literal "artifact output tree contains undeclared files"))
      else ok outputs

  abbrev compared :
      List ValidatedOutput → Option (Result Found) → Option (Result (List ValidatedOutput))
  compared outputs none = none
  compared outputs (some r) = some (compare_tree outputs r)

  abbrev declared_tree : Result Declared → Option (Result (List ValidatedOutput))
  declared_tree (err e) = some (err e)
  declared_tree (ok d) = compared d.outputs (inspect_tree empty_tree (files.directory root))

  unfoldable pub validate_declared_outputs :
      List DeclaredOutput → Option (Result (List ValidatedOutput))
  unfolding declare_all
  validate_declared_outputs declared =
      if ltb limits.output_files (length declared)
      then some (err (policy_violation (literal "declared artifact output count is invalid")))
      else declared_tree (declare_all declared nothing_declared)
