-- ===== src/Supervisor/Reconcile.antt =====
-- What native/src/supervisor.rs removes of jobs that have ended: `cleanup_job` and
-- `reconcile_stale_jobs`, with the staging roots of native/src/linux/mount.rs. A directory is listed
-- at the moment that its walk begins.
pub mod Live
use micro_sandbox.Prelude.{
  ℕ, Bool, true, false, not, Option, none, some, List, [], ◌∷◌, inl, inr, if◌then◌else◌,
}
use micro_sandbox.Error.{Text, IoError, io, Result, ok, err}
use micro_sandbox.Text.{text_eq, rsplit_once}
use micro_sandbox.Host.{FilePath, IoResult, from_io}
use micro_sandbox.JobId.{owner_is_dead, staging_owner}
use micro_sandbox.Cgroup.{CgroupFs, Ran, and_next, on_io, is_not_found, remove_job_dir}

pub record DirEntry : Type 0 where
  pub file_name : Text
  -- Whether `to_str` gives the name.
  pub is_utf8 : Bool
  pub is_dir : IoResult Bool

-- The operating system, as these functions use it.
pub record Machine (S : Type 0) : Type 0 where
  pub fs : CgroupFs S
  pub read_dir : FilePath → S → IoResult (List (IoResult DirEntry))
  -- `/proc/<pid>/stat`, where it can be read.
  pub proc_stat : S → ℕ → Option Text
  pub staging_base : FilePath

module _ {S : Type 0} (m : Machine S) where
  -- `if owner_is_dead(...) && let Err(error) = remove_job_dir(...) { log }`.
  unfoldable pub reconcile_cgroup : FilePath → Text → S → S
  reconcile_cgroup root id s =
      if owner_is_dead (m.proc_stat s) id then (remove_job_dir m.fs root id s).1 else s

  -- The loop over the cgroups.
  unfoldable pub reconcile_cgroups : FilePath → List (IoResult DirEntry) → S → Ran m.fs (Unit {0})
  unfolding reconcile_cgroup
  reconcile_cgroups root [] s = (ok tt, s)
  reconcile_cgroups root (inl e ∷ rest) s = (err (io e), s)
  reconcile_cgroups root (inr d ∷ rest) s =
      and_next m.fs (from_io d.is_dir, s)
        λ is_dir s.
          reconcile_cgroups root rest
            (if is_dir then (if d.is_utf8 then reconcile_cgroup root d.file_name s else s) else s)

  -- The job ID and the path of a staging root's entry.
  abbrev pub staging_entry : DirEntry → Option (Text × FilePath)
  staging_entry d =
      if d.is_utf8
      then elim (staging_owner d.file_name) [
        | none ↦ none
        | some id ↦ some (id, d.file_name ∷ m.staging_base)
      ]
      else none

  abbrev pub cons_root :
      Option (Text × FilePath)
      → IoResult (List (Text × FilePath))
      → IoResult (List (Text × FilePath))
  cons_root root (inl e) = inl e
  cons_root none (inr roots) = inr roots
  cons_root (some root) (inr roots) = inr (root ∷ roots)

  abbrev pub staging_list : List (IoResult DirEntry) → IoResult (List (Text × FilePath))
  staging_list [] = inr []
  staging_list (inl e ∷ rest) = inl e
  staging_list (inr d ∷ rest) = cons_root (staging_entry d) (staging_list rest)

  abbrev listed : IoResult (List (IoResult DirEntry)) → IoResult (List (Text × FilePath))
  listed (inl e) = if is_not_found e.kind then inr [] else inl e
  listed (inr entries) = staging_list entries

  unfoldable pub staging_roots : S → IoResult (List (Text × FilePath))
  staging_roots s = listed (m.read_dir m.staging_base s)

  -- A missing directory counts as removed.
  abbrev present_only : IoResult (Unit {0}) × S → IoResult (Unit {0}) × S
  present_only (inl e, s) = (if is_not_found e.kind then inr tt else inl e, s)
  present_only (inr _, s) = (inr tt, s)

  unfoldable pub remove_staging_root : FilePath → S → IoResult (Unit {0}) × S
  remove_staging_root path s = present_only (m.fs.remove_dir path s)

  -- The first failure ends the loop.
  unfoldable pub remove_owned : Text → List (Text × FilePath) → S → Ran m.fs (Unit {0})
  unfolding remove_staging_root
  remove_owned id [] s = (ok tt, s)
  remove_owned id ((owner, path) ∷ rest) s =
      if text_eq owner id
      then and_next m.fs (on_io m.fs (remove_staging_root path s)) (λ _ s. remove_owned id rest s)
      else remove_owned id rest s

  unfoldable pub remove_staging_roots : Text → S → Ran m.fs (Unit {0})
  unfolding remove_owned staging_roots
  remove_staging_roots id s = and_next m.fs (from_io (staging_roots s), s) (remove_owned id)

  -- `cgroup.and(staging)`, of which both have been run.
  abbrev both : Result (Unit {0}) → Result (Unit {0}) → Result (Unit {0})
  both (err e) staging = err e
  both (ok _) staging = staging

  unfoldable pub cleanup_job : FilePath → Text → S → Ran m.fs (Unit {0})
  unfolding remove_staging_roots
  cleanup_job root id s =
      let (cgroup, s1) = remove_job_dir m.fs root id s in
      let (staging, s2) = remove_staging_roots id s1 in (both cgroup staging, s2)

  -- The loop over the staging roots, whose failures are only logged.
  unfoldable pub reconcile_staging : List (Text × FilePath) → S → S
  unfolding remove_staging_root
  reconcile_staging [] s = s
  reconcile_staging ((id, path) ∷ rest) s =
      reconcile_staging rest
        (if owner_is_dead (m.proc_stat s) id then (remove_staging_root path s).1 else s)

  abbrev reconcile_listed : IoResult (List (Text × FilePath)) → S → S
  reconcile_listed (inl e) s = s
  reconcile_listed (inr roots) s = reconcile_staging roots s

  unfoldable pub reconcile_stale_jobs : FilePath → S → Ran m.fs (Unit {0})
  unfolding reconcile_cgroups staging_roots reconcile_staging
  reconcile_stale_jobs root s =
      and_next m.fs (from_io (m.read_dir root s), s)
        λ entries s.
          and_next m.fs (reconcile_cgroups root entries s)
            λ _ s. (ok tt, reconcile_listed (staging_roots s) s)
