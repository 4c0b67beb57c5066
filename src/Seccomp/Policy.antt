-- ===== src/Seccomp/Policy.antt =====
-- What the filter of native/src/linux/seccomp.rs decides, stated over the system call.
use Prim.Native.Nat.{bit_and, bit_or}
use micro_sandbox.Prelude.Bits.{bit_and-ones16}
use micro_sandbox.Prelude.{
  ℕ, ◌%◌, ◌≡◌, refl, Bool, false, ◌&&◌, ◌||◌, not, some, List, [], ◌∷◌, ◌++◌, any, leb, ◌==◌,
  if◌then◌else◌, arith,
}
use micro_sandbox.Seccomp.Bpf.{SockFilter, SeccompData, low_word, bpf_ret_k, eval, evaluate}
use micro_sandbox.Seccomp.Filter.{
  Arch, x86_64, aarch64, Libc, seccomp_ret_kill_process, seccomp_ret_errno, seccomp_ret_allow,
  audit_arch, preallocation_ioctls, namespace_clone_flags, denied_syscalls, arch_check, x32_check,
  deny_blocks, ioctl_block, prctl_block, clone3_block, clone_block, baseline_filter, statement,
}

-- Is the low word of the number among these?
abbrev pub listed : ℕ → List ℕ → Bool
listed nr [] = false
listed nr (s ∷ rest) = nr == low_word s || listed nr rest

abbrev is_x32 : Arch → ℕ → Bool
is_x32 x86_64 nr = leb 0x40000000 nr
is_x32 aarch64 nr = false

-- An argument is looked at for its own call only.
abbrev pub bad_ioctl : Libc → SeccompData → Bool
bad_ioctl c d =
    low_word d.nr == low_word c.sys_ioctl
    && any (λ p. low_word d.arg1 % 65536 == p) preallocation_ioctls

abbrev pub bad_prctl : Libc → SeccompData → Bool
bad_prctl c d =
    low_word d.nr == low_word c.sys_prctl && low_word d.arg0 == low_word c.pr_set_pdeathsig

abbrev pub bad_clone : Libc → SeccompData → Bool
bad_clone c d =
    low_word d.nr == low_word c.sys_clone
    && not (bit_and (low_word d.arg0) (namespace_clone_flags c) == 0)

-- The decision, in one place.
pub policy : Arch → Libc → SeccompData → ℕ
policy a c d =
    if not (low_word d.arch == audit_arch a) || is_x32 a (low_word d.nr)
    then seccomp_ret_kill_process
    else if listed (low_word d.nr) (denied_syscalls a c) || (bad_ioctl c d || bad_prctl c d)
    then bit_or seccomp_ret_errno c.eperm
    else if low_word d.nr == low_word c.sys_clone3
    then bit_or seccomp_ret_errno c.enosys
    else if bad_clone c d
    then bit_or seccomp_ret_errno c.eperm
    else seccomp_ret_allow

module _ (c : Libc) (d : SeccompData) (rest : List SockFilter) where
  eval-deny_blocks :
      (denied : List ℕ)
      → eval d (deny_blocks c denied ++ rest) 0 (low_word d.nr) ≡ (
          if listed (low_word d.nr) denied
          then some (bit_or seccomp_ret_errno c.eperm)
          else eval d rest 0 (low_word d.nr))
  unfolding eval deny_blocks
  eval-deny_blocks [] = refl
  eval-deny_blocks (s ∷ denied) = ground (arith, eval-deny_blocks denied)

  eval-prctl_block : eval d (prctl_block c ++ rest) 0 (low_word d.nr) ≡ (
      if bad_prctl c d
      then some (bit_or seccomp_ret_errno c.eperm)
      else eval d rest 0 (low_word d.nr))
  unfolding eval
  eval-prctl_block = ground arith

  eval-clone3_block : eval d (clone3_block c ++ rest) 0 (low_word d.nr) ≡ (
      if low_word d.nr == low_word c.sys_clone3
      then some (bit_or seccomp_ret_errno c.enosys)
      else eval d rest 0 (low_word d.nr))
  unfolding eval
  eval-clone3_block = ground arith

  eval-clone_block : eval d (clone_block c ++ rest) 0 (low_word d.nr) ≡ (
      if bad_clone c d
      then some (bit_or seccomp_ret_errno c.eperm)
      else eval d rest 0 (low_word d.nr))
  unfolding eval
  eval-clone_block = ground arith

  eval-ioctl_block : eval d (ioctl_block c ++ rest) 0 (low_word d.nr) ≡ (
      if bad_ioctl c d
      then some (bit_or seccomp_ret_errno c.eperm)
      else eval d rest 0 (low_word d.nr))
  unfolding eval
  eval-ioctl_block = ground (arith, bit_and-ones16 (low_word d.arg1))

eval-checks :
    (a : Arch) (d : SeccompData) (rest : List SockFilter)
    → eval d (arch_check a ++ (x32_check a ++ rest)) 0 0 ≡ (
        if not (low_word d.arch == audit_arch a) || is_x32 a (low_word d.nr)
        then some seccomp_ret_kill_process
        else eval d rest 0 (low_word d.nr))
unfolding eval
eval-checks x86_64 d rest = ground arith
eval-checks aarch64 d rest = ground arith

-- Six decisions in a row, the third to fifth of which answer alike.
collapse :
    (kill denied ioctl prctl clone3 clone : Bool) (k e n y : ℕ)
    → (if kill
        then some k
        else if denied
        then some e
        else if ioctl
        then some e
        else if prctl
        then some e
        else if clone3
        then some n
        else if clone
        then some e
        else some y)
      ≡ some (
          if kill
          then k
          else if denied || (ioctl || prctl)
          then e
          else if clone3
          then n
          else if clone
          then e
          else y)
collapse kill denied ioctl prctl clone3 clone k e n y = ground arith

eval-allow :
    (d : SeccompData) (acc : ℕ)
    → eval d (statement bpf_ret_k seccomp_ret_allow ∷ []) 0 acc ≡ some seccomp_ret_allow
unfolding eval
eval-allow d acc = refl

evaluate-eval : (d : SeccompData) (f : List SockFilter) → evaluate d f ≡ eval d f 0 0
unfolding evaluate
evaluate-eval d f = refl

-- The filter, run by the kernel on any system call, answers what the policy says: it kills on a
-- foreign architecture or the x32 ABI, denies the listed calls, the three preallocation ioctls by
-- their low 16 bits, PR_SET_PDEATHSIG and a clone with a namespace flag with EPERM, answers clone3
-- with ENOSYS, and allows the rest. It never runs off its end or faults.
pub evaluate-baseline_filter :
    (a : Arch) (c : Libc) (d : SeccompData) → evaluate d (baseline_filter a c) ≡ some (policy a c d)
unfolding baseline_filter policy
evaluate-baseline_filter a c d =
    rw
      (
        evaluate-eval,
        eval-checks a d,
        eval-deny_blocks c d _ (denied_syscalls a c),
        eval-ioctl_block c d,
        eval-prctl_block c d,
        eval-clone3_block c d,
        eval-clone_block c d,
        eval-allow d,
      )
      (collapse (not (low_word d.arch == audit_arch a) || is_x32 a (low_word d.nr))
        (listed (low_word d.nr) (denied_syscalls a c)) (bad_ioctl c d) (bad_prctl c d)
        (low_word d.nr == low_word c.sys_clone3) (bad_clone c d) _ _ _ _)
