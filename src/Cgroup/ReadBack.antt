-- ===== src/Cgroup/ReadBack.antt =====
-- What native/src/resources.rs reads of a cgroup's limit files, where they hold what
-- native/src/linux/cgroup.rs writes.
use mathlib.Core.List.{append_assoc}
use micro_sandbox.Prelude.{ℕ, ◌/◌, ◌≤◌, ◌≡◌, ap, sym, ◌∙◌, some, [], ◌∷◌, ◌++◌, inr, arith}
use micro_sandbox.Prelude.Words.{u64_max, saturating_mul_u64}
use micro_sandbox.Error.{Text, ok, >>=-eq-ok, ok_injective}
use micro_sandbox.Text.{decimal}
use micro_sandbox.Host.{FilePath, join, from_io, Host}
use micro_sandbox.Config.{cpu_period_micros}
use micro_sandbox.Resources.Parse.{parse_number, parse_cpu_max}
use micro_sandbox.Resources.RoundTrip.{parse_limit-decimal, parse_cpu_max-decimal}
use micro_sandbox.Resources.Admission.{ResourceSnapshot}
use micro_sandbox.Resources.Detect.{read_snapshot}

-- The three limits that a snapshot carries.
abbrev pub Limited : ℕ → ℕ → ℕ → ResourceSnapshot → Type 0
Limited memory_bytes pids quota snapshot =
    (snapshot.memory_limit_bytes ≡ some memory_bytes)
    × (snapshot.pids_limit ≡ some pids)
    × (snapshot.cpu_limit_millis ≡ some (saturating_mul_u64 quota 1000 / cpu_period_micros))

abbrev pub Reads : Host → FilePath → Text → Type 0
Reads host path t = host.read_to_string path ≡ inr t

abbrev pub quota_line : ℕ → Text
quota_line quota = (decimal quota ++ 32 ∷ decimal cpu_period_micros) ++ 10 ∷ []

abbrev pub Written : Host → FilePath → ℕ → ℕ → ℕ → Type 0
Written host path memory_bytes pids quota =
    Reads host (join path "memory.max") (decimal memory_bytes ++ 10 ∷ [])
    × Reads host (join path "pids.max") (decimal pids ++ 10 ∷ [])
    × Reads host (join path "cpu.max") (quota_line quota)

parse_cpu_max-quota_line :
    (quota : ℕ)
    → quota ≤ u64_max
    → parse_cpu_max (quota_line quota)
      ≡ ok (some (saturating_mul_u64 quota 1000 / cpu_period_micros))
parse_cpu_max-quota_line quota hq =
    ap parse_cpu_max (append_assoc (decimal quota) (32 ∷ decimal cpu_period_micros) (10 ∷ []))
    ∙ parse_cpu_max-decimal quota cpu_period_micros hq (omega arith) (omega arith)

pub read_snapshot-Limited :
    (host : Host) (path : FilePath) (memory_bytes pids quota : ℕ) (snapshot : ResourceSnapshot)
    → memory_bytes ≤ u64_max
    → pids ≤ u64_max
    → quota ≤ u64_max
    → Written host path memory_bytes pids quota
    → read_snapshot host path ≡ ok snapshot
    → Limited memory_bytes pids quota snapshot
unfolding read_snapshot
read_snapshot-Limited host path memory_bytes pids quota snapshot hm hp hq (wm, wp, wc) h =
    let h1 = rw (wm, (parse_limit-decimal memory_bytes hm).0) at h in
    let (t, _, h2) = >>=-eq-ok (from_io (host.read_to_string (join path "memory.current"))) _ h1 in
    let (current, _, h3) = >>=-eq-ok (parse_number t) _ h2 in
    let h4 =
      rw (wc, parse_cpu_max-quota_line quota hq, wp, (parse_limit-decimal pids hp).0) at h3 in
    let (t', _, h5) = >>=-eq-ok (from_io (host.read_to_string (join path "pids.current"))) _ h4 in
    let (running, _, h6) = >>=-eq-ok (parse_number t') _ h5 in
    let same : record {
      memory_limit_bytes = some memory_bytes;
      memory_current_bytes = current;
      cpu_limit_millis = some (saturating_mul_u64 quota 1000 / cpu_period_micros);
      pids_limit = some pids;
      pids_current = running;
    }
        ≡ snapshot =
      ok_injective h6 in
    (
      sym (ap (λ s. s.memory_limit_bytes) same),
      sym (ap (λ s. s.pids_limit) same),
      sym (ap (λ s. s.cpu_limit_millis) same),
    )
