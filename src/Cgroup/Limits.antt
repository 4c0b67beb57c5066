-- ===== src/Cgroup/Limits.antt =====
-- The limits of a new cgroup, which native/src/linux/cgroup.rs writes, as native/src/resources.rs
-- reads them back.
use mathlib.Core.Path.{subst}
use micro_sandbox.Prelude.{
  ℕ, ◌*◌, ◌^◌, ◌<◌, Bool, true, ◌||◌, ◌≤◌, ◌≡◌, refl, ap, sym, ◌∙◌, String, false, Option, none,
  some, [], ◌∷◌, ◌++◌, inl, inr, arith,
}
use micro_sandbox.Prelude.Words.{u64_max, checked_mul_u64}
use micro_sandbox.Error.{
  Text, SandboxError, policy_violation, literal, Result, ok, err, ok_or, ok_injective,
}
use micro_sandbox.Text.{codes, text_eq, decimal}
use micro_sandbox.Host.{FilePath, IoResult, join, from_io}
use micro_sandbox.Config.{
  Float, ResourceLimits, cpu_period_micros, Checked, valid, invalid, cpu_quota_micros, as_policy,
}
use micro_sandbox.Resources.Admission.{ResourceSnapshot}
use micro_sandbox.Resources.Detect.{read_snapshot}
use micro_sandbox.Cgroup.ReadBack.{Limited, Reads, Written, read_snapshot-Limited}
use micro_sandbox.Cgroup.{
  Cgroup, CgroupMode, CgroupFs, Ran, and_next, write, write_limits, configure, configured, created,
  check_request, create_in,
}

ok_or-some : (x : Option ℕ) (e : SandboxError) (n : ℕ) → ok_or x e ≡ ok n → x ≡ some n
ok_or-some none e n h = absurd (cc h)
ok_or-some (some m) e n h = ap some (ok_injective h)

as_policy-valid : (x : Checked ℕ) (n : ℕ) → as_policy x ≡ ok n → x ≡ valid n
as_policy-valid (invalid m) n h = absurd (cc h)
as_policy-valid (valid m) n h = ap valid (ok_injective h)

checked_mul-some : (a b n : ℕ) → checked_mul_u64 a b ≡ some n → (n ≡ a * b) × (n ≤ u64_max)
checked_mul-some a b n h = ground arith

cpu_quota_micros-fits :
    (f : Float) (l : ResourceLimits) (quota : ℕ)
    → ((x : ℕ) → f.as_u64 x ≤ u64_max)
    → cpu_quota_micros f l ≡ valid quota
    → quota ≤ u64_max
unfolding cpu_quota_micros
cpu_quota_micros-fits f l quota fits h =
    ground (arith, fits (f.round (f.mul l.cpu (f.of_u64 cpu_period_micros))))

module _ {S : Type 0} (fs : CgroupFs S) where
  -- What holds behind a chain that has succeeded, from what holds behind its first step.
  and_next-elim :
      {A B : Type 0} (r : Ran fs A) (next : A → S → Ran fs B) (Mid : A → S → Type 0)
      (Post : B → S → Type 0) (b : B)
      → ((a : A) → r.0 ≡ ok a → Mid a r.1)
      → ((a : A) (s : S) → Mid a s → (next a s).0 ≡ ok b → Post b ((next a s).1))
      → (and_next fs r next).0 ≡ ok b
      → Post b ((and_next fs r next).1)
  and_next-elim (err e, s) next Mid Post b first k h = absurd (cc h)
  and_next-elim (ok a, s) next Mid Post b first k h = k a s (first a refl) h

  io_ok : (r : IoResult (Unit {0})) → from_io r ≡ ok tt → r ≡ inr tt
  io_ok (inl e) h = absurd (cc h)
  io_ok (inr _) h = refl

-- The limit files, and the values with which the documentation of cgroup v2 reads them back as they
-- were written: a memory limit that is a whole number of pages and no more than what counts as no
-- limit, here of MiB and below 2^63, a number of processes, and a quota with the period.
pub data IsLimit : String → Text → Type 0 where
  memory_limit :
      (memory_mb : ℕ)
      → memory_mb * 1048576 < 2 ^ 63
      → IsLimit "memory.max" (decimal (memory_mb * 1048576))
  process_limit : (pids : ℕ) → IsLimit "pids.max" (decimal pids)
  cpu_limit : (quota : ℕ) → IsLimit "cpu.max" (decimal quota ++ 32 ∷ decimal cpu_period_micros)

abbrev pub is_limit_file : Text → Bool
is_limit_file name =
    text_eq name (codes "memory.max")
    || (text_eq name (codes "memory.swap.max")
        || (text_eq name (codes "memory.oom.group")
            || (text_eq name (codes "pids.max") || text_eq name (codes "cpu.max"))))

module _ {S : Type 0} (fs : CgroupFs S)
    (write-same : (path : FilePath) (name : String) (value : Text) (s : S)
      → IsLimit name value
      → (fs.write (join path name) (value ++ 10 ∷ []) s).0 ≡ inr tt
      → (fs.host ((fs.write (join path name) (value ++ 10 ∷ []) s).1)).read_to_string
          (join path name)
        ≡ inr (value ++ 10 ∷ []))
    (write-other : (path : FilePath) (name other : String) (t : Text) (s : S)
      → is_limit_file (codes name) ≡ true
      → is_limit_file (codes other) ≡ true
      → text_eq (codes name) (codes other) ≡ false
      → (fs.host ((fs.write (join path name) t s).1)).read_to_string (join path other)
        ≡ (fs.host s).read_to_string (join path other)) where
  write-Reads :
      (c : Cgroup) (name : String) (v : Text) (s : S)
      → IsLimit name v
      → (write fs c name v s).0 ≡ ok tt
      → Reads (fs.host ((write fs c name v s).1)) (join c.path name) (v ++ 10 ∷ [])
  unfolding write
  write-Reads c name v s limit h = write-same c.path name v s limit (io_ok fs _ h)

  write-keeps :
      (c : Cgroup) (name other : String) (v : Text) (s : S) (t : Text)
      → is_limit_file (codes name) ≡ true
      → is_limit_file (codes other) ≡ true
      → text_eq (codes name) (codes other) ≡ false
      → Reads (fs.host s) (join c.path other) t
      → Reads (fs.host ((write fs c name v s).1)) (join c.path other) t
  unfolding write
  write-keeps c name other v s t one two ne h =
      write-other c.path name other (v ++ 10 ∷ []) s one two ne ∙ h

  write_limits-Written :
      (c : Cgroup) (memory_bytes pids quota : ℕ) (s : S)
      → IsLimit "memory.max" (decimal memory_bytes)
      → (write_limits fs c memory_bytes pids quota s).0 ≡ ok tt
      → Written
          (fs.host ((write_limits fs c memory_bytes pids quota s).1))
          c.path
          memory_bytes
          pids
          quota
  unfolding write_limits
  write_limits-Written c memory_bytes pids quota s limit =
      let memory : Unit {0} → S → Type 0 =
        λ _ s'. Reads (fs.host s') (join c.path "memory.max") (decimal memory_bytes ++ 10 ∷ []) in
      let processes : Unit {0} → S → Type 0 =
        λ _ s'. Reads (fs.host s') (join c.path "pids.max") (decimal pids ++ 10 ∷ []) in
      let all : Unit {0} → S → Type 0 =
        λ _ s'. Written (fs.host s') c.path memory_bytes pids quota in
      let set : String → Text → S → Ran fs (Unit {0}) = λ name v. write fs c name v in
      let last : Unit {0} → S → Ran fs (Unit {0}) =
        λ _. set "cpu.max" (decimal quota ++ 32 ∷ decimal cpu_period_micros) in
      let fourth : Unit {0} → S → Ran fs (Unit {0}) =
        λ _ s'. and_next fs (set "pids.max" (decimal pids) s') last in
      let third : Unit {0} → S → Ran fs (Unit {0}) =
        λ _ s'. and_next fs (set "memory.oom.group" (codes "1") s') fourth in
      let second : Unit {0} → S → Ran fs (Unit {0}) =
        λ _ s'. and_next fs (set "memory.swap.max" (codes "0") s') third in
      and_next-elim fs (set "memory.max" (decimal memory_bytes) s) second memory all tt
        (λ _. write-Reads c "memory.max" _ s limit)
        λ _ s1 m1.
          and_next-elim fs (set "memory.swap.max" (codes "0") s1) third memory all tt
            (λ _ _. write-keeps c "memory.swap.max" "memory.max" (codes "0") s1 _ refl refl refl m1)
            λ _ s2 m2.
              and_next-elim fs (set "memory.oom.group" (codes "1") s2) fourth memory all tt
                (λ _ _.
                  write-keeps c "memory.oom.group" "memory.max" (codes "1") s2 _ refl refl refl m2)
                λ _ s3 m3.
                  and_next-elim fs (set "pids.max" (decimal pids) s3) last
                    (λ a s'. memory a s' × processes a s') all tt
                    (λ _ h. (
                      write-keeps c "pids.max" "memory.max" _ s3 _ refl refl refl m3,
                      write-Reads c "pids.max" _ s3 (process_limit pids) h,
                    ))
                    λ _ s4 (m4, p4) h. (
                      write-keeps c "cpu.max" "memory.max" _ s4 _ refl refl refl m4,
                      write-keeps c "cpu.max" "pids.max" _ s4 _ refl refl refl p4,
                      write-Reads c "cpu.max" _ s4 (cpu_limit quota) h,
                    )

  -- What `configure` has done where it succeeds.
  abbrev Set : Float → ResourceLimits → FilePath → S → Type 0
  Set f l path s =
      (memory_bytes : ℕ) × (quota : ℕ) × (checked_mul_u64 l.memory_mb 1048576 ≡ some memory_bytes)
      × (cpu_quota_micros f l ≡ valid quota)
      × Written (fs.host s) path memory_bytes l.pids quota

  configure-Set :
      (f : Float) (c : Cgroup) (l : ResourceLimits) (s : S)
      → l.memory_mb * 1048576 < 2 ^ 63
      → (configure fs f c l s).0 ≡ ok tt
      → Set f l c.path ((configure fs f c l s).1)
  unfolding configure
  configure-Set f c l s small =
      let quota_next : ℕ → ℕ → S → Ran fs (Unit {0}) =
        λ memory_bytes quota s'. write_limits fs c memory_bytes l.pids quota s' in
      let memory_next : ℕ → S → Ran fs (Unit {0}) = λ memory_bytes s'.
        and_next fs (as_policy (cpu_quota_micros f l), s') (quota_next memory_bytes) in
      let memory : Result ℕ =
        ok_or (checked_mul_u64 l.memory_mb 1048576)
          (policy_violation (literal "memory limit overflows")) in
      and_next-elim fs (memory, s) memory_next (λ m _. memory ≡ ok m) (λ _. Set f l c.path) tt
        (λ _ h. h)
        λ m s' hm.
          and_next-elim fs (as_policy (cpu_quota_micros f l), s') (quota_next m)
            (λ q _. as_policy (cpu_quota_micros f l) ≡ ok q) (λ _. Set f l c.path) tt (λ _ h. h)
            λ q s'' hq h.
              (let product = ok_or-some (checked_mul_u64 l.memory_mb 1048576) _ m hm in
                let limit : IsLimit "memory.max" (decimal m) =
                  subst (λ n. IsLimit "memory.max" (decimal n))
                    (sym (checked_mul-some l.memory_mb 1048576 m product).0)
                    (memory_limit l.memory_mb small) in
                (
                  m,
                  q,
                  product,
                  as_policy-valid (cpu_quota_micros f l) q hq,
                  write_limits-Written c m l.pids q s'' limit h,
                ))

  abbrev Created : Float → ResourceLimits → Cgroup → Ran fs Cgroup → Cgroup → Type 0
  Created f l new r c = r.0 ≡ ok c → (c ≡ new) × Set f l new.path r.1

  configured-Created :
      (f : Float) (l : ResourceLimits) (new : Cgroup) (r : Ran fs (Unit {0})) (c : Cgroup)
      → (r.0 ≡ ok tt → Set f l new.path r.1)
      → Created f l new (configured fs new r) c
  unfolding configured
  configured-Created f l new (err e, s) c set h = absurd (cc h)
  configured-Created f l new (ok _, s) c set h = (sym (ok_injective h), set refl)

  created-Created :
      (f : Float) (l : ResourceLimits) (new : Cgroup) (r : IoResult (Unit {0}) × S) (c : Cgroup)
      → l.memory_mb * 1048576 < 2 ^ 63
      → Created f l new (created fs f new l r) c
  unfolding created
  created-Created f l new (inl e, s) c small h = absurd (cc h)
  created-Created f l new (inr _, s) c small h =
      configured-Created f l new (configure fs f new l s) c (configure-Set f new l s small) h

  create_in-Created :
      (f : Float) (root : FilePath) (id : Text) (l : ResourceLimits) (mode : CgroupMode) (s : S)
      (c : Cgroup)
      → l.memory_mb * 1048576 < 2 ^ 63
      → Created f l
          (record { path = id ∷ root; mode = mode; cleaned = false })
          (create_in fs f root id l mode s)
          c
  unfolding create_in
  create_in-Created f root id l mode s c small h =
      let new : Cgroup = record { path = id ∷ root; mode = mode; cleaned = false } in
      and_next-elim fs (check_request fs f root id l mode s, s)
        (λ _ s'. created fs f new l (fs.create_dir new.path s')) (λ _ _. Unit {0})
        (λ c s'. (c ≡ new) × Set f l new.path s') c (λ _ _. tt)
        (λ _ s' _ h'. created-Created f l new (fs.create_dir new.path s') c small h') h

  -- Where the cgroup file system reads a limit back as it was written (a memory limit that is a
  -- number of MiB below 2^63 bytes, a number of processes, a quota with the period), a write to one
  -- of the five limit files leaves the four others as they are, and the numbers fit in a u64: a
  -- cgroup that `create_in` makes has the limits that were asked for. Every snapshot that the
  -- admission takes of it reads them back: the memory in bytes, the processes, and the CPU quota
  -- that the limits stand for.
  pub create_in-limits :
      (f : Float) (root : FilePath) (id : Text) (l : ResourceLimits) (mode : CgroupMode) (s : S)
      (c : Cgroup) (snapshot : ResourceSnapshot)
      → ((x : ℕ) → f.as_u64 x ≤ u64_max)
      → l.pids ≤ u64_max
      → l.memory_mb * 1048576 < 2 ^ 63
      → (create_in fs f root id l mode s).0 ≡ ok c
      → read_snapshot (fs.host ((create_in fs f root id l mode s).1)) c.path ≡ ok snapshot
      → (quota : ℕ) × (cpu_quota_micros f l ≡ valid quota)
        × Limited (l.memory_mb * 1048576) l.pids quota snapshot
  create_in-limits f root id l mode s c snapshot fits hp small made read =
      let (same, (m, q, hm, hq, written)) = create_in-Created f root id l mode s c small made in
      let host = fs.host ((create_in fs f root id l mode s).1) in
      let (em, lm) = checked_mul-some l.memory_mb 1048576 m hm in
      (
        q,
        hq,
        rw⁻¹ em (
            read_snapshot-Limited host (id ∷ root) m l.pids q snapshot lm hp
              (cpu_quota_micros-fits f l q fits hq) written
              (ap (λ p. read_snapshot host p) (sym (ap (λ c. c.path) same)) ∙ read)),
      )
