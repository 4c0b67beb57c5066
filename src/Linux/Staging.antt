-- ===== src/Linux/Staging.antt =====
-- `create_staging_root` of native/src/linux/mount.rs: the private directory of one job.
use Prim.Native.Nat.{bit_and}
use micro_sandbox.Prelude.{
  ℕ, Bool, false, true, not, ◌||◌, ◌∷◌, ◌++◌, inl, inr, ◌==◌, if◌then◌else◌,
}
use micro_sandbox.Error.{
  Text, IoKind, already_exists, io, security, lit, literal, Result, ok, err, refuse_if, ◌>>=◌, ◌>>◌,
}
use micro_sandbox.Text.{codes, decimal}
use micro_sandbox.Host.{FilePath, IoResult, from_io, shown}
use micro_sandbox.JobId.{staging_name}
use micro_sandbox.Cgroup.{path_cstring}
use micro_sandbox.Linux.{os_error}

pub record BaseMetadata : Type 0 where
  pub is_dir : Bool
  pub uid : ℕ
  pub mode : ℕ

pub record StagingFiles : Type 0 where
  pub temp_dir : FilePath
  pub effective_uid : ℕ
  -- `DirBuilder` with the mode 0o700.
  pub create_dir : FilePath → IoResult (Unit {0})
  pub symlink_metadata : FilePath → IoResult BaseMetadata
  -- `mkdtemp`, which replaces the six last characters of the path.
  pub mkdtemp : FilePath → IoResult Text

abbrev is_already_there : IoKind → Bool
is_already_there already_exists = true
is_already_there _ = false

abbrev pub base_created : IoResult (Unit {0}) → Result (Unit {0})
base_created (inr _) = ok tt
base_created (inl e) = if is_already_there e.kind then ok tt else err (io e)

abbrev pub made : IoResult Text → Result Text
made (inl e) = err (os_error "mkdtemp staging root" e)
made (inr suffix) = ok suffix

module _ (files : StagingFiles) where
  unfoldable pub staging_base : FilePath
  staging_base = (codes "micro-sandbox-" ++ decimal files.effective_uid) ∷ files.temp_dir

  -- `0o077`.
  abbrev pub is_open_base : BaseMetadata → Bool
  is_open_base metadata =
      not metadata.is_dir
      || (not (metadata.uid == files.effective_uid) || not (bit_and metadata.mode 63 == 0))

  unfoldable pub create_staging_root : Text → Result FilePath
  unfolding staging_base path_cstring
  create_staging_root job_id = do
    base_created (files.create_dir staging_base)
    metadata ← from_io (files.symlink_metadata staging_base)
    refuse_if (is_open_base metadata) (
        security (
          lit "staging directory "
          ∷ (shown staging_base
              ++ literal " must be a private directory owned by the service user")))
    path_cstring (staging_name job_id (codes "XXXXXX") ∷ staging_base)
    suffix ← made (files.mkdtemp (staging_name job_id (codes "XXXXXX") ∷ staging_base))
    ok (staging_name job_id suffix ∷ staging_base)
