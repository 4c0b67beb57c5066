-- ===== src/Resources/Admission.antt =====
-- Admission capacity of native/src/resources.rs: the margin, the headroom of one cgroup and the
-- minimum over a chain of them.
use micro_sandbox.Prelude.{
  ℕ, ◌-◌, ◌*◌, ◌/◌, ◌≤◌, ◌≡◌, ◌↔◌, Option, none, some, List, [], ◌∷◌, min, All, arith,
}
use micro_sandbox.Prelude.Words.{saturating_mul_u64}
use micro_sandbox.Scheduler.{Capacity}
use micro_sandbox.Scheduler.Admission.{◌≤ᶜ◌}

abbrev pub admission_percent : ℕ
admission_percent = 80

pub record ResourceSnapshot : Type 0 where
  pub memory_limit_bytes : Option ℕ
  pub memory_current_bytes : ℕ
  pub cpu_limit_millis : Option ℕ
  pub pids_limit : Option ℕ
  pub pids_current : ℕ

pub record ResourceFallbacks : Type 0 where
  pub memory_bytes : ℕ
  pub cpu_millis : ℕ
  pub pids : ℕ

unfoldable pub reserve_margin : ℕ → ℕ
reserve_margin value = saturating_mul_u64 value admission_percent / 100

abbrev pub unwrap_or : Option ℕ → ℕ → ℕ
unwrap_or none d = d
unwrap_or (some v) d = v

-- `limit.map(|limit| limit.saturating_sub(current))`.
abbrev pub headroom : Option ℕ → ℕ → Option ℕ
headroom none current = none
headroom (some limit) current = some (limit - current)

abbrev pub memory_headroom_bytes : ResourceSnapshot → Option ℕ
memory_headroom_bytes s = headroom s.memory_limit_bytes s.memory_current_bytes

abbrev pub pid_headroom : ResourceSnapshot → Option ℕ
pid_headroom s = headroom s.pids_limit s.pids_current

unfoldable pub admission_capacity : ResourceSnapshot → ResourceFallbacks → Capacity
admission_capacity s f = record {
  memory_bytes = reserve_margin (unwrap_or (memory_headroom_bytes s) f.memory_bytes);
  cpu_millis = reserve_margin (unwrap_or s.cpu_limit_millis f.cpu_millis);
  pids = reserve_margin (unwrap_or (pid_headroom s) f.pids);
}

-- A cgroup with no limit.
abbrev pub unlimited : ResourceSnapshot
unlimited = record {
  memory_limit_bytes = none;
  memory_current_bytes = 0;
  cpu_limit_millis = none;
  pids_limit = none;
  pids_current = 0;
}

abbrev pub least : Capacity → Capacity → Capacity
least a b = record {
  memory_bytes = min a.memory_bytes b.memory_bytes;
  cpu_millis = min a.cpu_millis b.cpu_millis;
  pids = min a.pids b.pids;
}

-- The `fold` over the snapshots.
fold_capacity : ResourceFallbacks → Capacity → List ResourceSnapshot → Capacity
fold_capacity f effective [] = effective
fold_capacity f effective (s ∷ rest) =
    fold_capacity f (least effective (admission_capacity s f)) rest

unfoldable pub effective_admission_capacity : List ResourceSnapshot → ResourceFallbacks → Capacity
unfolding fold_capacity
effective_admission_capacity snapshots f =
    fold_capacity f (admission_capacity unlimited f) snapshots

-- The margin keeps a fifth back, whatever the value.
pub reserve_margin-le : (v : ℕ) → reserve_margin v * 100 ≤ v * 80
unfolding reserve_margin
reserve_margin-le v = omega arith

fold_capacity-le :
    (f : ResourceFallbacks) (c : Capacity) (snapshots : List ResourceSnapshot)
    → ◌≤ᶜ◌ (fold_capacity f c snapshots) c
      × All (λ s. ◌≤ᶜ◌ (fold_capacity f c snapshots) (admission_capacity s f)) snapshots
unfolding fold_capacity
fold_capacity-le f c [] = (omega arith, tt)
fold_capacity-le f c (s ∷ rest) =
    let (below, others) = fold_capacity-le f (least c (admission_capacity s f)) rest in
    (omega (arith, below), (omega (arith, below), others))

fold_capacity-greatest :
    (f : ResourceFallbacks) (bound c : Capacity) (snapshots : List ResourceSnapshot)
    → ◌≤ᶜ◌ bound c
    → All (λ s. ◌≤ᶜ◌ bound (admission_capacity s f)) snapshots
    → ◌≤ᶜ◌ bound (fold_capacity f c snapshots)
unfolding fold_capacity
fold_capacity-greatest f b c [] h hs = h
fold_capacity-greatest f b c (s ∷ rest) h (hs, others) =
    fold_capacity-greatest f b (least c (admission_capacity s f)) rest (omega (arith, h, hs)) others

below-All :
    (f : ResourceFallbacks) (bound c : Capacity) (snapshots : List ResourceSnapshot)
    → ◌≤ᶜ◌ bound c
    → All (λ s. ◌≤ᶜ◌ c (admission_capacity s f)) snapshots
    → All (λ s. ◌≤ᶜ◌ bound (admission_capacity s f)) snapshots
below-All f b c [] h hs = tt
below-All f b c (s ∷ rest) h (hs, others) = (omega (arith, h, hs), below-All f b c rest h others)

pub effective_admission_capacity-le :
    (snapshots : List ResourceSnapshot) (f : ResourceFallbacks)
    → ◌≤ᶜ◌ (effective_admission_capacity snapshots f) (admission_capacity unlimited f)
      × All
          (λ s. ◌≤ᶜ◌ (effective_admission_capacity snapshots f) (admission_capacity s f))
          snapshots
unfolding effective_admission_capacity
effective_admission_capacity-le snapshots f =
    fold_capacity-le f (admission_capacity unlimited f) snapshots

-- The effective capacity is the greatest one within the host's and every cgroup's of the chain: a
-- capacity is within it exactly when it is within each of them, in all three resources.
pub effective_admission_capacity-greatest :
    (snapshots : List ResourceSnapshot) (f : ResourceFallbacks) (bound : Capacity)
    → ◌≤ᶜ◌ bound (effective_admission_capacity snapshots f) ↔ (
        ◌≤ᶜ◌ bound (admission_capacity unlimited f)
        × All (λ s. ◌≤ᶜ◌ bound (admission_capacity s f)) snapshots)
unfolding effective_admission_capacity
effective_admission_capacity-greatest snapshots f bound = (
  λ h.
      let (top, all) = fold_capacity-le f (admission_capacity unlimited f) snapshots in
      (
        omega (arith, h, top),
        below-All f bound (fold_capacity f (admission_capacity unlimited f) snapshots) snapshots h
            all,
      ),
  λ h. fold_capacity-greatest f bound (admission_capacity unlimited f) snapshots h.0 h.1,
)

-- A cgroup with a memory limit never has more admitted than four fifths of what is free below it,
-- and so with its process limit.
pub admission_capacity-headroom :
    (s : ResourceSnapshot) (f : ResourceFallbacks) (memory pids : ℕ)
    → s.memory_limit_bytes ≡ some memory
    → s.pids_limit ≡ some pids
    → ((admission_capacity s f).memory_bytes * 100 ≤ (memory - s.memory_current_bytes) * 80)
      × ((admission_capacity s f).pids * 100 ≤ (pids - s.pids_current) * 80)
unfolding admission_capacity
admission_capacity-headroom s f memory pids hm hp =
    rw (hm, hp) (reserve_margin-le _, reserve_margin-le _)
