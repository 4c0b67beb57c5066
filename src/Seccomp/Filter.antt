-- ===== src/Seccomp/Filter.antt =====
-- `baseline_filter` of native/src/linux/seccomp.rs, and the helpers that it is put together from.
use Prim.Native.Nat.{bit_or}
use micro_sandbox.Prelude.{ℕ, List, [], ◌∷◌, ◌++◌, length}
use micro_sandbox.Seccomp.Bpf.{
  SockFilter, low_word, bpf_ld_w_abs, bpf_jmp_jeq_k, bpf_jmp_jset_k, bpf_alu_and_k, bpf_jmp_jge_k,
  bpf_ret_k,
}

-- `target_arch`.
pub data Arch : Type 0 where
  x86_64 aarch64 : Arch

-- The constants that the file takes from the libc crate, for the target.
pub record Libc : Type 0 where
  pub eperm : ℕ
  pub enosys : ℕ
  pub pr_set_pdeathsig : ℕ
  pub clone_newcgroup : ℕ
  pub clone_newipc : ℕ
  pub clone_newnet : ℕ
  pub clone_newns : ℕ
  pub clone_newpid : ℕ
  pub clone_newuser : ℕ
  pub clone_newuts : ℕ
  pub sys_mount : ℕ
  pub sys_mount_setattr : ℕ
  pub sys_fsopen : ℕ
  pub sys_fsconfig : ℕ
  pub sys_fsmount : ℕ
  pub sys_fspick : ℕ
  pub sys_move_mount : ℕ
  pub sys_open_tree : ℕ
  pub sys_umount2 : ℕ
  pub sys_pivot_root : ℕ
  pub sys_ptrace : ℕ
  pub sys_process_vm_readv : ℕ
  pub sys_process_vm_writev : ℕ
  pub sys_pidfd_getfd : ℕ
  pub sys_bpf : ℕ
  pub sys_keyctl : ℕ
  pub sys_add_key : ℕ
  pub sys_request_key : ℕ
  pub sys_perf_event_open : ℕ
  pub sys_userfaultfd : ℕ
  pub sys_open_by_handle_at : ℕ
  pub sys_init_module : ℕ
  pub sys_finit_module : ℕ
  pub sys_delete_module : ℕ
  pub sys_reboot : ℕ
  pub sys_swapon : ℕ
  pub sys_swapoff : ℕ
  pub sys_kexec_load : ℕ
  pub sys_unshare : ℕ
  pub sys_setns : ℕ
  pub sys_seccomp : ℕ
  pub sys_acct : ℕ
  pub sys_quotactl : ℕ
  pub sys_quotactl_fd : ℕ
  pub sys_fallocate : ℕ
  pub sys_io_uring_setup : ℕ
  pub sys_io_uring_enter : ℕ
  pub sys_io_uring_register : ℕ
  pub sys_ioctl : ℕ
  pub sys_prctl : ℕ
  pub sys_clone3 : ℕ
  pub sys_clone : ℕ

abbrev pub seccomp_ret_kill_process : ℕ
seccomp_ret_kill_process = 0x80000000

abbrev pub seccomp_ret_errno : ℕ
seccomp_ret_errno = 0x00050000

abbrev pub seccomp_ret_allow : ℕ
seccomp_ret_allow = 0x7fff0000

abbrev pub data_nr : ℕ
data_nr = 0

abbrev pub data_arch : ℕ
data_arch = 4

abbrev pub data_arg0 : ℕ
data_arg0 = 16

abbrev pub data_arg1 : ℕ
data_arg1 = 24

abbrev pub audit_arch : Arch → ℕ
audit_arch x86_64 = 0xc000003e
audit_arch aarch64 = 0xc00000b7

abbrev pub sys_kexec_file_load : Arch → ℕ
sys_kexec_file_load x86_64 = 320
sys_kexec_file_load aarch64 = 294

abbrev pub sys_open_tree_attr : ℕ
sys_open_tree_attr = 467

abbrev pub preallocation_ioctls : List ℕ
preallocation_ioctls = 0x5828 ∷ 0x582a ∷ 0x5839 ∷ []

abbrev pub statement : ℕ → ℕ → SockFilter
statement code value = record { code = code; jt = 0; jf = 0; k = value }

abbrev pub jump : ℕ → ℕ → ℕ → ℕ → SockFilter
jump code value jt jf = record { code = code; jt = jt; jf = jf; k = value }

abbrev pub deny : ℕ → SockFilter
deny errno = statement bpf_ret_k (bit_or seccomp_ret_errno errno)

abbrev pub deny_if_equal : Libc → ℕ → List SockFilter
deny_if_equal c value = jump bpf_jmp_jeq_k value 0 1 ∷ deny c.eperm ∷ []

-- The body must return or reload the syscall number before it ends. The source panics where a body
-- is longer than 255 instructions; the longest that it builds has nine.
abbrev pub syscall_block : ℕ → List SockFilter → List SockFilter
syscall_block syscall body = jump bpf_jmp_jeq_k (low_word syscall) 0 (length body) ∷ body

abbrev pub namespace_clone_flags : Libc → ℕ
namespace_clone_flags c = low_word (
    bit_or
      (bit_or
        (bit_or
          (bit_or (bit_or (bit_or c.clone_newcgroup c.clone_newipc) c.clone_newnet) c.clone_newns)
          c.clone_newpid)
        c.clone_newuser)
      c.clone_newuts)

unfoldable pub denied_syscalls : Arch → Libc → List ℕ
denied_syscalls a c =
    c.sys_mount
    ∷ c.sys_mount_setattr
    ∷ c.sys_fsopen
    ∷ c.sys_fsconfig
    ∷ c.sys_fsmount
    ∷ c.sys_fspick
    ∷ c.sys_move_mount
    ∷ c.sys_open_tree
    ∷ sys_open_tree_attr
    ∷ c.sys_umount2
    ∷ c.sys_pivot_root
    ∷ c.sys_ptrace
    ∷ c.sys_process_vm_readv
    ∷ c.sys_process_vm_writev
    ∷ c.sys_pidfd_getfd
    ∷ c.sys_bpf
    ∷ c.sys_keyctl
    ∷ c.sys_add_key
    ∷ c.sys_request_key
    ∷ c.sys_perf_event_open
    ∷ c.sys_userfaultfd
    ∷ c.sys_open_by_handle_at
    ∷ c.sys_init_module
    ∷ c.sys_finit_module
    ∷ c.sys_delete_module
    ∷ c.sys_reboot
    ∷ c.sys_swapon
    ∷ c.sys_swapoff
    ∷ c.sys_kexec_load
    ∷ sys_kexec_file_load a
    ∷ c.sys_unshare
    ∷ c.sys_setns
    ∷ c.sys_seccomp
    ∷ c.sys_acct
    ∷ c.sys_quotactl
    ∷ c.sys_quotactl_fd
    ∷ c.sys_fallocate
    ∷ c.sys_io_uring_setup
    ∷ c.sys_io_uring_enter
    ∷ c.sys_io_uring_register
    ∷ []

-- The first `vec!`: the architecture, and the syscall number loaded.
abbrev pub arch_check : Arch → List SockFilter
arch_check a =
    statement bpf_ld_w_abs data_arch
    ∷ jump bpf_jmp_jeq_k (audit_arch a) 1 0
    ∷ statement bpf_ret_k seccomp_ret_kill_process
    ∷ statement bpf_ld_w_abs data_nr
    ∷ []

-- The x32 ABI is rejected on x86_64 only.
abbrev pub x32_check : Arch → List SockFilter
x32_check x86_64 =
    jump bpf_jmp_jge_k 0x40000000 0 1 ∷ statement bpf_ret_k seccomp_ret_kill_process ∷ []
x32_check aarch64 = []

-- The loop over `denied_syscalls()`.
unfoldable pub deny_blocks : Libc → List ℕ → List SockFilter
deny_blocks c [] = []
deny_blocks c (syscall ∷ rest) = syscall_block syscall (deny c.eperm ∷ []) ++ deny_blocks c rest

-- The loop over `PREALLOCATION_IOCTLS`.
abbrev pub ioctl_tests : Libc → List ℕ → List SockFilter
ioctl_tests c [] = []
ioctl_tests c (command ∷ rest) = deny_if_equal c command ++ ioctl_tests c rest

abbrev pub ioctl_block : Libc → List SockFilter
ioctl_block c = syscall_block c.sys_ioctl (
    statement bpf_ld_w_abs data_arg1
    ∷ statement bpf_alu_and_k 0xffff
    ∷ (ioctl_tests c preallocation_ioctls ++ statement bpf_ld_w_abs data_nr ∷ []))

abbrev pub prctl_block : Libc → List SockFilter
prctl_block c = syscall_block c.sys_prctl (
    statement bpf_ld_w_abs data_arg0
    ∷ (deny_if_equal c (low_word c.pr_set_pdeathsig) ++ statement bpf_ld_w_abs data_nr ∷ []))

abbrev pub clone3_block : Libc → List SockFilter
clone3_block c = syscall_block c.sys_clone3 (deny c.enosys ∷ [])

abbrev pub clone_block : Libc → List SockFilter
clone_block c = syscall_block c.sys_clone (
    statement bpf_ld_w_abs data_arg0
    ∷ jump bpf_jmp_jset_k (namespace_clone_flags c) 0 1
    ∷ deny c.eperm
    ∷ statement bpf_ld_w_abs data_nr
    ∷ [])

unfoldable pub baseline_filter : Arch → Libc → List SockFilter
baseline_filter a c =
    arch_check a
    ++ (x32_check a
        ++ (deny_blocks c (denied_syscalls a c)
            ++ (ioctl_block c
                ++ (prctl_block c
                    ++ (clone3_block c
                        ++ (clone_block c ++ statement bpf_ret_k seccomp_ret_allow ∷ []))))))
