-- ===== src/Cgroup.antt =====
-- native/src/linux/cgroup.rs: the cgroup of one job. `Files` has its state and the file system,
-- `Usage` the counters that are read at its end; the other modules have the proofs.
pub mod Files
pub mod Usage
pub mod Removal
pub mod ReadBack
pub mod Limits
pub use micro_sandbox.Cgroup.Files.{
  cgroup2_super_magic, remove_timeout, retry_pause, ebusy, CgroupMode, kernel, emulated, Cgroup,
  CgroupFs, is_not_found, has_errno, is_kernel,
}
unfoldable pub use micro_sandbox.Cgroup.Files.{path_cstring}
use micro_sandbox.Prelude.{
  ℕ, zero, suc, ◌+◌, String, Bool, true, false, not, ◌&&◌, ◌||◌, List, [], ◌∷◌, ◌++◌, inl, inr, ltb,
  ◌==◌, if◌then◌else◌,
}
use micro_sandbox.Prelude.Words.{checked_mul_u64}
use micro_sandbox.Error.{
  Text, IoError, io, policy_violation, cgroup_unavailable, lit, literal, Result, ok, err, ok_or,
  refuse_if, ◌>>=◌, ◌>>◌,
}
use micro_sandbox.Text.{codes, decimal}
use micro_sandbox.Host.{FilePath, join, IoResult, from_io, shown}
use micro_sandbox.Config.{
  Float, ResourceLimits, zero_f64, cpu_period_micros, cpu_quota_micros, as_policy,
}
use micro_sandbox.JobId.{validate_job_id}

unfoldable pub validate_limits : Float → ResourceLimits → Result (Unit {0})
validate_limits f l =
    refuse_if
      (l.memory_mb == 0 || (l.pids == 0 || (not (f.is_finite l.cpu) || f.le l.cpu zero_f64)))
      (policy_violation (literal "cgroup limits must be positive and finite"))

module _ {S : Type 0} (fs : CgroupFs S) where
  -- A fallible operation's result with the state behind it, and `?` on it.
  abbrev pub Ran : Type 0 → Type 0
  Ran A = Result A × S

  abbrev pub and_next : {A B : Type 0} → Ran A → (A → S → Ran B) → Ran B
  and_next (err e, s) next = (err e, s)
  and_next (ok a, s) next = next a s

  abbrev pub on_io : {A : Type 0} → IoResult A × S → Ran A
  on_io (r, s) = (from_io r, s)

  unfoldable pub write : Cgroup → String → Text → S → Ran (Unit {0})
  write c name value s = on_io (fs.write (join c.path name) (value ++ 10 ∷ []) s)

  unfoldable pub kill_all : Cgroup → S → Ran (Unit {0})
  unfolding write
  kill_all c s = write c "cgroup.kill" (codes "1") s

  -- The `match` on a `remove_dir`, up to the arm for a busy directory.
  abbrev pub removed : IoResult (Unit {0}) × S → (IoError → S → Ran (Unit {0})) → Ran (Unit {0})
  removed (inr _, s) busy = (ok tt, s)
  removed (inl e, s) busy = if is_not_found e.kind then (ok tt, s) else busy e s

  abbrev pub retries : Bool → ℕ → IoError → S → Bool
  retries retry_busy deadline e s = retry_busy && (has_errno e ebusy && ltb (fs.now s) deadline)

  -- The loop, with the number of pauses that it may still take.
  unfoldable pub remove_until : ℕ → FilePath → Bool → ℕ → S → Ran (Unit {0})
  remove_until zero path retry_busy deadline s =
      removed (fs.remove_dir path s) λ e s'. (err (io e), s')
  remove_until (suc pauses) path retry_busy deadline s = removed (fs.remove_dir path s) λ e s'.
      (if retries retry_busy deadline e s'
        then remove_until pauses path retry_busy deadline (fs.sleep retry_pause s')
        else (err (io e), s'))

  abbrev pub max_pauses : ℕ
  max_pauses = 100

  unfoldable pub remove_dir : FilePath → Bool → S → Ran (Unit {0})
  unfolding remove_until
  remove_dir path retry_busy s =
      remove_until max_pauses path retry_busy (fs.now s + remove_timeout) s

  -- The files of an emulated cgroup.
  unfoldable pub remove_files : List (IoResult FilePath) → S → Ran (Unit {0})
  remove_files [] s = (ok tt, s)
  remove_files (inl e ∷ rest) s = (err (io e), s)
  remove_files (inr path ∷ rest) s =
      if fs.is_file path s
      then and_next (on_io (fs.remove_file path s)) (λ _ s'. remove_files rest s')
      else remove_files rest s

  empty_emulated : Cgroup → S → Ran (Unit {0})
  unfolding remove_files
  empty_emulated c s =
      if is_kernel c.mode
      then (ok tt, s)
      else and_next (from_io (fs.read_dir c.path s), s) remove_files

  abbrev pub Cleaned : Type 0
  Cleaned = Result (Unit {0}) × (Cgroup × S)

  -- `self.cleaned = true; kill_result`, unless a step before has failed.
  abbrev mark_cleaned : Cgroup → Result (Unit {0}) → Ran (Unit {0}) → Cleaned
  mark_cleaned c kill_result (err e, s) = (err e, (c, s))
  mark_cleaned c kill_result (ok _, s) = (kill_result, (record c { cleaned = true }, s))

  after_kill : Cgroup → Ran (Unit {0}) → Cleaned
  unfolding empty_emulated remove_dir
  after_kill c (kill_result, s) =
      mark_cleaned c kill_result
        (and_next (empty_emulated c s) λ _ s'. remove_dir c.path (is_kernel c.mode) s')

  unfoldable pub cleanup : Cgroup → S → Cleaned
  unfolding after_kill kill_all
  cleanup c s =
      if c.cleaned
      then (ok tt, (c, s))
      else if not ((fs.host s).exists c.path)
      then (ok tt, (record c { cleaned = true }, s))
      else after_kill c (kill_all c s)

  -- `drop`.
  unfoldable pub drop_cgroup : Cgroup → S → S
  unfolding cleanup
  drop_cgroup c s = (cleanup c s).1.1

  -- The five writes of `configure`.
  write_limits : Cgroup → ℕ → ℕ → ℕ → S → Ran (Unit {0})
  unfolding write
  write_limits c memory_bytes pids quota s =
      and_next (write c "memory.max" (decimal memory_bytes) s) λ _ s1.
        and_next (write c "memory.swap.max" (codes "0") s1) λ _ s2.
          and_next (write c "memory.oom.group" (codes "1") s2) λ _ s3.
            and_next (write c "pids.max" (decimal pids) s3)
              λ _ s4. write c "cpu.max" (decimal quota ++ 32 ∷ decimal cpu_period_micros) s4

  unfoldable pub configure : Float → Cgroup → ResourceLimits → S → Ran (Unit {0})
  unfolding write_limits
  configure f c l s =
      and_next
        (
          ok_or (checked_mul_u64 l.memory_mb 1048576)
              (policy_violation (literal "memory limit overflows")),
          s,
        )
        λ memory_bytes s.
          and_next (as_policy (cpu_quota_micros f l), s)
            λ quota s. write_limits c memory_bytes l.pids quota s

  unfoldable pub verify_cgroup2 : FilePath → S → Result (Unit {0})
  unfolding path_cstring
  verify_cgroup2 root s = do
    path_cstring root
    f_type ← from_io (fs.magic root s)
    refuse_if (not (f_type == cgroup2_super_magic))
        (cgroup_unavailable (shown root ++ literal " is not a cgroup v2 filesystem"))

  -- A cgroup whose limits cannot be set is cleaned up, and then dropped.
  configured : Cgroup → Ran (Unit {0}) → Ran Cgroup
  unfolding cleanup drop_cgroup
  configured c (ok _, s) = (ok c, s)
  configured c (err e, s) = let (c', s') = (cleanup c s).1 in (err e, drop_cgroup c' s')

  created : Float → Cgroup → ResourceLimits → IoResult (Unit {0}) × S → Ran Cgroup
  unfolding configured configure
  created f c l (inl e, s) =
      (err (cgroup_unavailable (lit "cannot create " ∷ (shown c.path ++ lit ": " ∷ e.display))), s)
  created f c l (inr _, s) = configured c (configure f c l s)

  -- What is checked before the directory is made.
  check_request : Float → FilePath → Text → ResourceLimits → CgroupMode → S → Result (Unit {0})
  unfolding validate_limits verify_cgroup2
  check_request f root id l mode s = do
    validate_job_id id
    validate_limits f l
    if is_kernel mode then verify_cgroup2 root s else ok tt

  unfoldable pub create_in : Float → FilePath → Text → ResourceLimits → CgroupMode → S → Ran Cgroup
  unfolding created check_request
  create_in f root id l mode s =
      and_next (check_request f root id l mode s, s)
        λ _ s.
          (let c : Cgroup = record { path = id ∷ root; mode = mode; cleaned = false } in
            created f c l (fs.create_dir c.path s))

  -- `remove_job_dir`, which kills what is left without looking at the result.
  unfoldable pub remove_job_dir : FilePath → Text → S → Ran (Unit {0})
  unfolding remove_dir
  remove_job_dir root id s =
      and_next (validate_job_id id, s)
        λ _ s.
          (if not ((fs.host s).exists (id ∷ root))
            then (ok tt, s)
            else remove_dir (id ∷ root) true
                (fs.write (join (id ∷ root) "cgroup.kill") (codes "1\n") s).1)
