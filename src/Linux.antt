-- ===== src/Linux.antt =====
-- What native/src/linux and the isolated child in native/src/job.rs ask of the kernel: a system
-- call that changes something is an entry of a log, and what the kernel answers may depend on the
-- whole log. An operation takes the log and returns its result and the longer log.
pub mod Trace
pub mod Completion
pub mod Masks
pub mod Capabilities
pub mod Harden
pub mod Paths
pub mod Mount
pub mod Clone
pub mod Staging
use micro_sandbox.Prelude.{
  ℕ, String, Bool, true, false, Option, none, some, List, [], ◌∷◌, ◌++◌, inl, inr, ◌==◌,
  if◌then◌else◌,
}
use micro_sandbox.Error.{
  Text, IoKind, interrupted, other_kind, IoError, SandboxError, io, security, lit, literal, Result,
  ok, err,
}
use micro_sandbox.Host.{FilePath, IoResult, from_io}
use micro_sandbox.Seccomp.Bpf.{SockFilter}

-- The flags of `mount` and the attributes of `mount_setattr`, one bit each; a mask is the list of
-- its bits.
pub data MountFlag : Type 0 where
  ms_bind ms_rec ms_private ms_nosuid ms_nodev ms_noexec : MountFlag

pub data MountAttr : Type 0 where
  attr_rdonly attr_nosuid attr_nodev attr_noexec : MountAttr

pub data Resource : Type 0 where
  rlimit_fsize rlimit_core : Resource

-- A relative path of the two calls that move the root.
pub data Call : Type 0 where
  bounding_drop : ℕ → Call
  capset_none : Call
  ambient_clear_all : Call
  set_rlimit : Resource → ℕ → Call
  set_dumpable : ℕ → Call
  set_no_new_privs : Call
  set_seccomp : List SockFilter → Call
  mount_at : Option FilePath → FilePath → Option String → List MountFlag → Option String → Call
  -- `mount_setattr`, with `AT_RECURSIVE` or without.
  set_attributes : FilePath → Bool → List MountAttr → Call
  make_dirs : FilePath → Call
  create_file : FilePath → Call
  delete_dir : FilePath → Call
  change_dir : FilePath → Call
  -- `pivot_root(".", ".old_root")`.
  swap_root : Call
  unmount_detached : FilePath → Call
  duplicate : ℕ → ℕ → Call
  read_from : ℕ → Call
  write_to : ℕ → ℕ → Call
  write_file : FilePath → Text → Call
  -- A signal through a pidfd.
  pidfd_signal : ℕ → ℕ → Call
  -- `waitpid` until the process has ended.
  reap_process : ℕ → Call
  -- The command with its arguments, and the environment.
  execute : List Text → List Text → Call

-- Repeated attempts at one call: what they answer, in order, and the last answer.
abbrev pub Attempts : Type 0 → Type 0
Attempts A = List (IoResult A) × IoResult A

-- One round of `wait_until_ready`: the clock before it, and what `poll` finds: whether the first
-- descriptor can be read.
pub data Polled : Type 0 where
  poll_failed : IoError → Polled
  poll_nothing : Polled
  poll_ready : Bool → Polled

pub record PollRound : Type 0 where
  pub now : ℕ
  pub polled : Polled

-- The kernel and the files, at the moment that the log has reached.
pub record Kernel : Type 0 where
  pub answer : List Call → Call → IoResult (Unit {0})
  -- The number of bytes that `write` has taken.
  pub write : List Call → ℕ → ℕ → Attempts ℕ
  -- The byte that `read` has found, unless the file is at its end.
  pub read : List Call → ℕ → Attempts (Option ℕ)
  pub read_to_string : List Call → FilePath → IoResult Text
  pub exists : List Call → FilePath → Bool
  pub is_dir : List Call → FilePath → Bool
  pub canonicalize : List Call → FilePath → IoResult FilePath
  -- What the parent sees of its child: `poll` on two descriptors, and `waitpid`.
  pub poll : List Call → ℕ → List PollRound
  pub waitpid : List Call → ℕ → Attempts ℕ
  -- The device and the inode.
  pub metadata : List Call → FilePath → IoResult (ℕ × ℕ)
  pub handle_metadata : List Call → ℕ → IoResult (ℕ × ℕ)

abbrev pub Io : Type 0 → Type 0
Io A = List Call → Result A × List Call

abbrev pub follow : {A B : Type 0} → Result A × List Call → (A → Io B) → Result B × List Call
follow (err e, log) next = (err e, log)
follow (ok a, log) next = next a log

infixl 5 ◌>>=◌ ◌>>◌
-- `?`.
abbrev pub ◌>>=◌ : {A B : Type 0} → Io A → (A → Io B) → Io B
m >>= next = λ log. follow (m log) next

abbrev pub ◌>>◌ : {B : Type 0} → Io (Unit {0}) → Io B → Io B
m >> next = m >>= λ _. next

abbrev pub observe : {A : Type 0} → (List Call → Result A) → Io A
observe look = λ log. (look log, log)

abbrev pub lift : {A : Type 0} → Result A → Io A
lift r = λ log. (r, log)

-- `os_error`.
abbrev pub os_error : String → IoError → SandboxError
os_error operation e = security (lit operation ∷ lit ": " ∷ e.display)

abbrev pub is_interrupted : IoKind → Bool
is_interrupted interrupted = true
is_interrupted _ = false

-- The loops of `write_byte` and `read_byte`: an attempt that a signal interrupts is repeated.
unfoldable pub uninterrupted : {A : Type 0} → List (IoResult A) → IoResult A → IoResult A
uninterrupted [] last = last
uninterrupted (inr a ∷ later) last = inr a
uninterrupted (inl e ∷ later) last =
    if is_interrupted e.kind then uninterrupted later last else inl e

abbrev write_zero : IoError
write_zero = record { kind = other_kind; raw_os_error = none; display = literal "failed to write" }

abbrev wrote_one : IoResult ℕ → IoResult (Unit {0})
wrote_one (inl e) = inl e
wrote_one (inr written) = if written == 1 then inr tt else inl write_zero

abbrev pub answered : (IoError → Result (Unit {0})) → IoResult (Unit {0}) → Result (Unit {0})
answered on_error (inl e) = on_error e
answered on_error (inr _) = ok tt

abbrev pub or_os_error : String → IoError → Result (Unit {0})
or_os_error operation e = err (os_error operation e)

abbrev pub or_io : IoError → Result (Unit {0})
or_io e = err (io e)

module _ (k : Kernel) where
  -- A system call, and what the source makes of its failure.
  abbrev pub perform : (IoError → Result (Unit {0})) → Call → Io (Unit {0})
  perform on_error call = λ log. (answered on_error (k.answer log call), log ++ call ∷ [])

  unfoldable pub write_byte : ℕ → ℕ → Io (Unit {0})
  unfolding uninterrupted
  write_byte fd value = λ log.
      (let (earlier, last) = k.write log fd value in
        (from_io (wrote_one (uninterrupted earlier last)), log ++ write_to fd value ∷ []))

  -- The caller of this one looks at the failure.
  unfoldable pub read_byte : ℕ → List Call → IoResult (Option ℕ) × List Call
  unfolding uninterrupted
  read_byte fd log =
      let (earlier, last) = k.read log fd in (uninterrupted earlier last, log ++ read_from fd ∷ [])
