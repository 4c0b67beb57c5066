-- ===== src/Linux/Harden/Steps.antt =====
-- What `harden` of native/src/linux/mod.rs has done when it returns.
use micro_sandbox.Prelude.{ℕ, refl, Option, none, some, List, [], ◌∷◌, ◌++◌}
use micro_sandbox.Error.{ok}
use micro_sandbox.Seccomp.Filter.{Arch, Libc, baseline_filter}
use micro_sandbox.Linux.{
  Call, rlimit_fsize, rlimit_core, set_rlimit, set_dumpable, set_no_new_privs, set_seccomp, Kernel,
}
use micro_sandbox.Linux.Trace.{Does, Exactly, Does-lift, Does-perform, exactly_then}
use micro_sandbox.Linux.Capabilities.{last_capability}
use micro_sandbox.Linux.Capabilities.Dropped.{dropping_calls, drop_all-Does}
use micro_sandbox.Linux.Harden.{apply_baseline, limit_file_size, harden}

abbrev pub limit_calls : Option ℕ → List Call
limit_calls none = []
limit_calls (some bytes) = set_rlimit rlimit_fsize bytes ∷ []

-- The steps, where the last capability of the kernel is known.
abbrev pub harden_calls : Arch → Libc → Option ℕ → ℕ → List Call
harden_calls a c limit last =
    limit_calls limit
    ++ (dropping_calls last
        ++ set_rlimit rlimit_core 0
          ∷ set_dumpable 0
          ∷ set_no_new_privs
          ∷ set_seccomp (baseline_filter a c)
          ∷ [])

limit-Does :
    (k : Kernel) (a : Arch) (c : Libc) (limit : Option ℕ)
    → Does (limit_file_size k a c limit) (Exactly λ _. limit_calls limit)
unfolding limit_file_size
limit-Does k a c none = Does-lift (ok tt)
limit-Does k a c (some bytes) = Does-perform k _ (set_rlimit rlimit_fsize bytes) refl

baseline-Does :
    (k : Kernel) (a : Arch) (c : Libc)
    → Does
        (apply_baseline k a c)
        (Exactly λ _. set_no_new_privs ∷ set_seccomp (baseline_filter a c) ∷ [])
unfolding apply_baseline
baseline-Does k a c =
    exactly_then (Does-perform k _ set_no_new_privs refl)
      λ _. exactly_then (Does-lift _) λ _. Does-perform k _ (set_seccomp (baseline_filter a c)) refl

pub harden-Does :
    (k : Kernel) (a : Arch) (c : Libc) (limit : Option ℕ)
    → Does
        (harden k a c limit)
        (Exactly λ before. harden_calls a c limit (last_capability k (before ++ limit_calls limit)))
unfolding harden
harden-Does k a c limit = exactly_then (limit-Does k a c limit) λ _.
    exactly_then (drop_all-Does k) λ _.
      exactly_then (Does-perform k _ (set_rlimit rlimit_core 0) refl)
        λ _. exactly_then (Does-perform k _ (set_dumpable 0) refl) λ _. baseline-Does k a c
