-- ===== src/Job.antt =====
-- native/src/job.rs: what a launcher is asked to run.
pub mod Spec
pub mod Exec
pub mod Output
pub mod Child
pub mod Monitor
pub mod Report
pub mod Input
use micro_sandbox.Prelude.{Option, List}
use micro_sandbox.Error.{Text}
use micro_sandbox.Host.{FilePath}
use micro_sandbox.Config.{ResourceLimits}
use micro_sandbox.Artifact.{WorkspaceSpec}

pub record LaunchSpec : Type 0 where
  pub job_id : Text
  pub rootfs : FilePath
  pub command : Text
  pub args : List Text
  pub cwd : Text
  -- A `BTreeMap`, by ascending names.
  pub env : List (Text × Text)
  pub stdin_base64 : Text
  pub limits : ResourceLimits
  pub workspace : Option WorkspaceSpec
