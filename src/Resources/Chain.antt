-- ===== src/Resources/Chain.antt =====
-- What `detect_admission_capacity` of native/src/resources.rs looks at before it answers.
use mathlib.Core.List.{append-nil, append_assoc}
use micro_sandbox.Prelude.{
  ◌≡◌, refl, ap, ◌∙◌, Bool, true, false, not, ◌&&◌, List, [], ◌∷◌, ◌++◌, any, inl, inr, ◌⊎◌,
  if◌then◌else◌, arith,
}
use micro_sandbox.Error.{Result, ok, err, Result-cases}
use micro_sandbox.Host.{FilePath, Host}
use micro_sandbox.Scheduler.{Capacity}
use micro_sandbox.Scheduler.Admission.{◌≤ᶜ◌}
use micro_sandbox.Resources.Admission.{
  ResourceSnapshot, ResourceFallbacks, admission_capacity, unlimited, effective_admission_capacity,
  effective_admission_capacity-le,
}
use micro_sandbox.Resources.Detect.{
  read_snapshot, has_controllers, no_limit_files, is_nil, push, walk, has_no_pid_limit,
  host_fallbacks, capacity_of, detect_admission_capacity,
}

abbrev Extends : List ResourceSnapshot → List ResourceSnapshot → Type 0
Extends snapshots found = (more : List ResourceSnapshot) × (found ≡ snapshots ++ more)

stays-Extends :
    (snapshots found : List ResourceSnapshot) → ok snapshots ≡ ok found → Extends snapshots found
stays-Extends snapshots found h = ([], ground (arith, append-nil snapshots))

module _ (host : Host) where
  round-Extends :
      (stop top : Bool) (r : Result ResourceSnapshot)
      (next : List ResourceSnapshot → Result (List ResourceSnapshot))
      (snapshots found : List ResourceSnapshot)
      → ((s : ResourceSnapshot)
          → next (snapshots ++ s ∷ []) ≡ ok found
          → Extends (snapshots ++ s ∷ []) found)
      → (if stop then ok snapshots else if top then ok snapshots else push host snapshots r next)
        ≡ ok found
      → Extends snapshots found
  round-Extends true top r next snapshots found ih h = stays-Extends snapshots found h
  round-Extends false true r next snapshots found ih h = stays-Extends snapshots found h
  round-Extends false false (err e) next snapshots found ih h = cc
  round-Extends false false (ok s) next snapshots found ih h =
      let (more, e) = ih s h in (s ∷ more, e ∙ append_assoc snapshots (s ∷ []) more)

  -- The loop only ever adds snapshots behind those that it has.
  walk-Extends :
      (path : FilePath) (snapshots found : List ResourceSnapshot)
      → walk host path snapshots ≡ ok found
      → Extends snapshots found
  unfolding walk
  walk-Extends [] snapshots found h =
      round-Extends (not (has_controllers host []))
        (not (is_nil host snapshots) && no_limit_files host []) (read_snapshot host [])
        (λ more. ok more) snapshots found (λ s. stays-Extends (snapshots ++ s ∷ []) found) h
  walk-Extends (name ∷ path) snapshots found h =
      round-Extends (not (has_controllers host (name ∷ path)))
        (not (is_nil host snapshots)
          && (not (has_controllers host path) && no_limit_files host (name ∷ path)))
        (read_snapshot host (name ∷ path)) (walk host path) snapshots found
        (λ s. walk-Extends path (snapshots ++ s ∷ []) found) h

  round_first :
      (controllers top : Bool) (r : Result ResourceSnapshot)
      (next : List ResourceSnapshot → Result (List ResourceSnapshot))
      (found : List ResourceSnapshot)
      → ((s : ResourceSnapshot) → next (s ∷ []) ≡ ok found → Extends (s ∷ []) found)
      → (if not controllers then ok [] else if false && top then ok [] else push host [] r next)
        ≡ ok found
      → (found ≡ [])
        ⊎ ((controllers ≡ true) × ((s : ResourceSnapshot) × (r ≡ ok s) × Extends (s ∷ []) found))
  round_first false top r next found ih h = inl (ground arith)
  round_first true top (err e) next found ih h = cc
  round_first true top (ok s) next found ih h = inr (refl, (s, refl, ih s h))

  walk_first :
      (path : FilePath) (found : List ResourceSnapshot)
      → walk host path [] ≡ ok found
      → (found ≡ [])
        ⊎ ((has_controllers host path ≡ true)
            × ((s : ResourceSnapshot) × (read_snapshot host path ≡ ok s) × Extends (s ∷ []) found))
  unfolding walk
  walk_first [] found h =
      round_first (has_controllers host []) (no_limit_files host []) (read_snapshot host [])
        (λ more. ok more) found (λ s. stays-Extends (s ∷ []) found) h
  walk_first (name ∷ path) found h =
      round_first (has_controllers host (name ∷ path))
        (not (has_controllers host path) && no_limit_files host (name ∷ path))
        (read_snapshot host (name ∷ path)) (walk host path) found
        (λ s. walk-Extends path (s ∷ []) found) h

capacity_of-le :
    (host : Host) (root : FilePath) (s : ResourceSnapshot) (rest : List ResourceSnapshot)
    (c : Capacity)
    → capacity_of host root (s ∷ rest) ≡ ok c
    → (f : ResourceFallbacks) × (host_fallbacks host (any has_no_pid_limit (s ∷ rest)) ≡ ok f)
      × ◌≤ᶜ◌ c (admission_capacity s f)
      × ◌≤ᶜ◌ c (admission_capacity unlimited f)
unfolding capacity_of
capacity_of-le host root s rest c h =
    elim (Result-cases (host_fallbacks host (any has_no_pid_limit (s ∷ rest)))) [
      | inl (e, p) ↦ absurd (cc (rw p at h))
      | inr (f, p) ↦
          let e : ok (effective_admission_capacity (s ∷ rest) f) ≡ ok c = rw p at h in
          let (all, below) = effective_admission_capacity-le (s ∷ rest) f in
          let same : effective_admission_capacity (s ∷ rest) f ≡ c = cc in
          (f, p, rw same at (below.0), rw same at all)
    ]

no_snapshots : (host : Host) (root : FilePath) (c : Capacity) → capacity_of host root [] ≡ ok c → ⊥
unfolding capacity_of
no_snapshots host root c h = cc

-- Whatever is admitted was measured on the configured cgroup: it has controllers, its limits and
-- usage could be read, first of all the snapshots that the walk took, and the capacity is within
-- what they leave, and within what the host has free of memory, of CPU time and, if a cgroup of the
-- chain has no limit of its own, of processes. Without controllers there is no capacity.
pub detect_admission_capacity-root :
    (host : Host) (root : FilePath) (c : Capacity)
    → detect_admission_capacity host root ≡ ok c
    → (has_controllers host root ≡ true)
      × ((s : ResourceSnapshot) × (more : List ResourceSnapshot) × (f : ResourceFallbacks)
          × (read_snapshot host root ≡ ok s)
          × (walk host root [] ≡ ok (s ∷ more))
          × (host_fallbacks host (any has_no_pid_limit (s ∷ more)) ≡ ok f)
          × ◌≤ᶜ◌ c (admission_capacity s f)
          × ◌≤ᶜ◌ c (admission_capacity unlimited f))
unfolding detect_admission_capacity
detect_admission_capacity-root host root c h = elim (Result-cases (walk host root [])) [
  | inl (e, p) ↦ absurd (cc (rw p at h))
  | inr (found, p) ↦ elim (walk_first host root found p) [
    | inl empty ↦ absurd (no_snapshots host root c (rw (p, empty) at h))
    | inr (hc, (s, hs, (more, e))) ↦
        let (f, left, here, top) = capacity_of-le host root s more c (rw (p, e) at h) in
        (hc, (s, more, f, hs, p ∙ ap ok e, left, here, top))
  ]
]
