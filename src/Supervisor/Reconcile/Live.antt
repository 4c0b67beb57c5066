-- ===== src/Supervisor/Reconcile/Live.antt =====
-- What `reconcile_stale_jobs` of native/src/supervisor.rs leaves alone.
use micro_sandbox.Prelude.{
  ℕ, zero, suc, ◌≡◌, refl, ap, ◌∙◌, Bool, true, false, Option, none, some, List, [], ◌∷◌, inl, inr,
  All, Bool-cases, arith, if◌then◌else◌,
}
use micro_sandbox.Error.{Text, IoError, ok, err}
use micro_sandbox.Text.{codes, text_eq}
use micro_sandbox.Text.Equal.{text_eq_sound}
use micro_sandbox.Host.{FilePath, join, IoResult, from_io}
use micro_sandbox.JobId.{owner_is_dead, staging_owner, validate_job_id}
use micro_sandbox.Cgroup.{
  Ran, and_next, removed, retries, remove_until, remove_dir, remove_job_dir, max_pauses,
  retry_pause, is_not_found,
}
use micro_sandbox.Path.{path_eq}
use micro_sandbox.Supervisor.Reconcile.{
  DirEntry, Machine, reconcile_cgroup, reconcile_cgroups, staging_roots, staging_list,
  staging_entry, cons_root, listed, remove_staging_root, present_only, reconcile_staging,
  reconcile_listed, reconcile_stale_jobs,
}

module _ {S : Type 0} (m : Machine S) (root : FilePath) (id : Text)
    (alive : (s : S) → owner_is_dead (m.proc_stat s) id ≡ false)
    (apart : path_eq m.staging_base root ≡ false)
    (remove_dir-other : (path : FilePath) (s : S)
      → path_eq path (id ∷ root) ≡ false
      → (m.fs.host ((m.fs.remove_dir path s).1)).exists (id ∷ root)
        ≡ (m.fs.host s).exists (id ∷ root))
    (write-exists : (path : FilePath) (t : Text) (s : S)
      → (m.fs.host ((m.fs.write path t s).1)).exists (id ∷ root) ≡ (m.fs.host s).exists (id ∷ root))
    (sleep-exists : (d : ℕ) (s : S)
      → (m.fs.host (m.fs.sleep d s)).exists (id ∷ root) ≡ (m.fs.host s).exists (id ∷ root)) where
  abbrev there : S → Bool
  there s = (m.fs.host s).exists (id ∷ root)

  removed-there :
      (r : IoResult (Unit {0}) × S) (busy : IoError → S → Ran m.fs (Unit {0})) (s : S)
      → there r.1 ≡ there s
      → ((e : IoError) → there ((busy e r.1).1) ≡ there s)
      → there ((removed m.fs r busy).1) ≡ there s
  removed-there (inr _, s') busy s h k = h
  removed-there (inl e, s') busy s h k = elim (Bool-cases (is_not_found e.kind)) [
    | inl p ↦ rw p h
    | inr p ↦ rw p (k e)
  ]

  remove_until-there :
      (tries : ℕ) (path : FilePath) (retry_busy : Bool) (deadline : ℕ) (s : S)
      → path_eq path (id ∷ root) ≡ false
      → there ((remove_until m.fs tries path retry_busy deadline s).1) ≡ there s
  unfolding remove_until
  remove_until-there zero path retry_busy deadline s ne =
      removed-there (m.fs.remove_dir path s) _ s (remove_dir-other path s ne)
        λ e. remove_dir-other path s ne
  remove_until-there (suc tries) path retry_busy deadline s ne =
      let s' = (m.fs.remove_dir path s).1 in
      removed-there (m.fs.remove_dir path s) _ s (remove_dir-other path s ne) λ e.
        elim (Bool-cases (retries m.fs retry_busy deadline e s')) [
          | inl p ↦ rw p (
              remove_until-there tries path retry_busy deadline (m.fs.sleep retry_pause s') ne
              ∙ sleep-exists retry_pause s'
              ∙ remove_dir-other path s ne)
          | inr p ↦ rw p (remove_dir-other path s ne)
        ]

  remove_dir-there :
      (path : FilePath) (retry_busy : Bool) (s : S)
      → path_eq path (id ∷ root) ≡ false
      → there ((remove_dir m.fs path retry_busy s).1) ≡ there s
  unfolding remove_dir
  remove_dir-there path retry_busy s ne =
      remove_until-there (max_pauses m.fs) path retry_busy _ s ne

  and_next-there :
      {A B : Type 0} (r : Ran m.fs A) (next : A → S → Ran m.fs B) (s : S)
      → there r.1 ≡ there s
      → ((a : A) (s' : S) → there s' ≡ there s → there ((next a s').1) ≡ there s)
      → there ((and_next m.fs r next).1) ≡ there s
  and_next-there (err e, s') next s h k = h
  and_next-there (ok a, s') next s h k = k a s' h

  remove_job_dir-there :
      (other : Text) (s : S)
      → text_eq other id ≡ false
      → there ((remove_job_dir m.fs root other s).1) ≡ there s
  unfolding remove_job_dir
  remove_job_dir-there other s ne =
      and_next-there (validate_job_id other, s) _ s refl
        λ _ s' h. elim (Bool-cases ((m.fs.host s').exists (other ∷ root))) [
          | inl p ↦ rw p (
              remove_dir-there (other ∷ root) true _ (rw ne refl)
              ∙ write-exists (join (other ∷ root) "cgroup.kill") (codes "1\n") s'
              ∙ h)
          | inr p ↦ rw p h
        ]

  dead_apart :
      (other : Text) (s : S) → owner_is_dead (m.proc_stat s) other ≡ true → text_eq other id ≡ false
  dead_apart other s dead = elim (Bool-cases (text_eq other id)) [
    | inl same ↦ absurd (cc (text_eq_sound other id same, dead, alive s))
    | inr p ↦ p
  ]

  reconcile_cgroup-there :
      (other : Text) (s : S) → there (reconcile_cgroup m root other s) ≡ there s
  unfolding reconcile_cgroup
  reconcile_cgroup-there other s = elim (Bool-cases (owner_is_dead (m.proc_stat s) other)) [
    | inl dead ↦ rw dead (remove_job_dir-there other s (dead_apart other s dead))
    | inr p ↦ rw p refl
  ]

  reconcile_entry :
      (is_dir is_utf8 : Bool) (other : Text) (s : S)
      → there (if is_dir then (if is_utf8 then reconcile_cgroup m root other s else s) else s)
        ≡ there s
  reconcile_entry false is_utf8 other s = refl
  reconcile_entry true false other s = refl
  reconcile_entry true true other s = reconcile_cgroup-there other s

  reconcile_cgroups-there :
      (entries : List (IoResult DirEntry)) (s : S)
      → there ((reconcile_cgroups m root entries s).1) ≡ there s
  unfolding reconcile_cgroups
  reconcile_cgroups-there [] s = refl
  reconcile_cgroups-there (inl e ∷ rest) s = refl
  reconcile_cgroups-there (inr d ∷ rest) s =
      and_next-there (from_io d.is_dir, s) _ s refl
        λ is_dir s' h.
          reconcile_cgroups-there rest _ ∙ reconcile_entry is_dir d.is_utf8 d.file_name s' ∙ h

  -- A staging root is in no cgroup.
  abbrev Apart : Text × FilePath → Type 0
  Apart r = path_eq r.1 (id ∷ root) ≡ false

  abbrev AllApart : IoResult (List (Text × FilePath)) → Type 0
  AllApart (inl e) = Unit {0}
  AllApart (inr roots) = All Apart roots

  path-Apart : (name : Text) → path_eq (name ∷ m.staging_base) (id ∷ root) ≡ false
  path-Apart name = ground (arith, apart)

  named-Apart :
      (is_utf8 : Bool) (owner : Option Text) (name : Text) (roots : List (Text × FilePath))
      → All Apart roots
      → AllApart (
          cons_root m
            (if is_utf8
              then elim owner [ none ↦ none | some id' ↦ some (id', name ∷ m.staging_base) ]
              else none)
            (inr roots))
  named-Apart false owner name roots h = h
  named-Apart true none name roots h = h
  named-Apart true (some _) name roots h = (path-Apart name, h)

  cons_root-Apart :
      (d : DirEntry) (roots : IoResult (List (Text × FilePath)))
      → AllApart roots
      → AllApart (cons_root m (staging_entry m d) roots)
  cons_root-Apart d (inl e) h = tt
  cons_root-Apart d (inr roots) h =
      named-Apart d.is_utf8 (staging_owner d.file_name) d.file_name roots h

  staging_list-Apart : (entries : List (IoResult DirEntry)) → AllApart (staging_list m entries)
  staging_list-Apart [] = tt
  staging_list-Apart (inl e ∷ rest) = tt
  staging_list-Apart (inr d ∷ rest) =
      cons_root-Apart d (staging_list m rest) (staging_list-Apart rest)

  present_only-state : (r : IoResult (Unit {0}) × S) → (present_only m r).1 ≡ r.1
  present_only-state (inl e, s) = refl
  present_only-state (inr _, s) = refl

  reconcile_root-there :
      (dead : Bool) (path : FilePath) (s : S)
      → path_eq path (id ∷ root) ≡ false
      → there (if dead then (remove_staging_root m path s).1 else s) ≡ there s
  unfolding remove_staging_root
  reconcile_root-there false path s ne = refl
  reconcile_root-there true path s ne =
      ap there (present_only-state (m.fs.remove_dir path s)) ∙ remove_dir-other path s ne

  reconcile_staging-there :
      (roots : List (Text × FilePath)) (s : S)
      → All Apart roots
      → there (reconcile_staging m roots s) ≡ there s
  unfolding reconcile_staging
  reconcile_staging-there [] s h = refl
  reconcile_staging-there ((other, path) ∷ rest) s (ne, h) =
      reconcile_staging-there rest _ h
      ∙ reconcile_root-there (owner_is_dead (m.proc_stat s) other) path s ne

  listed-Apart : (r : IoResult (List (IoResult DirEntry))) → AllApart (listed m r)
  listed-Apart (inl e) = elim (Bool-cases (is_not_found e.kind)) [
    | inl p ↦ rw p tt
    | inr p ↦ rw p tt
  ]
  listed-Apart (inr entries) = staging_list-Apart entries

  reconcile_listed-there :
      (r : IoResult (List (Text × FilePath))) (s : S)
      → AllApart r
      → there (reconcile_listed m r s) ≡ there s
  reconcile_listed-there (inl e) s h = refl
  reconcile_listed-there (inr roots) s h = reconcile_staging-there roots s h

  -- The clean-up at the start of a supervisor never removes the cgroup of a job whose owner is still
  -- running, whatever it finds: the directory is there afterwards if it was before. It is taken that
  -- the owner runs throughout, that the staging roots are not kept in the cgroup root, and that a
  -- `remove_dir` of another directory, a write and a pause do not remove the job's.
  pub reconcile_stale_jobs-live :
      (s : S)
      → (m.fs.host ((reconcile_stale_jobs m root s).1)).exists (id ∷ root)
        ≡ (m.fs.host s).exists (id ∷ root)
  unfolding reconcile_stale_jobs staging_roots
  reconcile_stale_jobs-live s =
      and_next-there (from_io (m.read_dir root s), s) _ s refl
        λ entries s1 h1.
          and_next-there (reconcile_cgroups m root entries s1) _ s
            (reconcile_cgroups-there entries s1 ∙ h1)
            λ _ s2 h2.
              reconcile_listed-there _ s2 (listed-Apart (m.read_dir m.staging_base s2)) ∙ h2
