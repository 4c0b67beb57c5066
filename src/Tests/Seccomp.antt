-- ===== src/Tests/Seccomp.antt =====
-- The filter of native/src/linux/seccomp.rs with the numbers of Linux on x86_64.
use micro_sandbox.Prelude.{◌≡◌, refl, some}
use micro_sandbox.Seccomp.Bpf.{SeccompData, evaluate}
use micro_sandbox.Seccomp.Filter.{
  Libc, x86_64, baseline_filter, deny_blocks, denied_syscalls, seccomp_ret_allow,
  seccomp_ret_kill_process,
}
use micro_sandbox.Seccomp.Policy.{policy, evaluate-baseline_filter}

abbrev pub linux : Libc
linux = record {
  eperm = 1;
  enosys = 38;
  pr_set_pdeathsig = 1;
  clone_newcgroup = 0x02000000;
  clone_newipc = 0x08000000;
  clone_newnet = 0x40000000;
  clone_newns = 0x00020000;
  clone_newpid = 0x20000000;
  clone_newuser = 0x10000000;
  clone_newuts = 0x04000000;
  sys_mount = 165;
  sys_mount_setattr = 442;
  sys_fsopen = 430;
  sys_fsconfig = 431;
  sys_fsmount = 432;
  sys_fspick = 433;
  sys_move_mount = 429;
  sys_open_tree = 428;
  sys_umount2 = 166;
  sys_pivot_root = 155;
  sys_ptrace = 101;
  sys_process_vm_readv = 310;
  sys_process_vm_writev = 311;
  sys_pidfd_getfd = 438;
  sys_bpf = 321;
  sys_keyctl = 250;
  sys_add_key = 248;
  sys_request_key = 249;
  sys_perf_event_open = 298;
  sys_userfaultfd = 323;
  sys_open_by_handle_at = 304;
  sys_init_module = 175;
  sys_finit_module = 313;
  sys_delete_module = 176;
  sys_reboot = 169;
  sys_swapon = 167;
  sys_swapoff = 168;
  sys_kexec_load = 246;
  sys_unshare = 272;
  sys_setns = 308;
  sys_seccomp = 317;
  sys_acct = 163;
  sys_quotactl = 179;
  sys_quotactl_fd = 443;
  sys_fallocate = 285;
  sys_io_uring_setup = 425;
  sys_io_uring_enter = 426;
  sys_io_uring_register = 427;
  sys_ioctl = 16;
  sys_prctl = 157;
  sys_clone3 = 435;
  sys_clone = 56;
}

-- `clone(CLONE_NEWUSER | SIGCHLD)`.
abbrev clone_newuser_call : SeccompData
clone_newuser_call = record {
  nr = 56;
  arch = 0xc000003e;
  arg0 = 0x10000011;
  arg1 = 0;
  arg2 = 0;
  arg3 = 0;
  arg4 = 0;
  arg5 = 0;
}

evaluate-baseline_filter_example :
    evaluate clone_newuser_call (baseline_filter x86_64 linux)
    ≡ some (policy x86_64 linux clone_newuser_call)
evaluate-baseline_filter_example = evaluate-baseline_filter x86_64 linux clone_newuser_call

clone_newuser_denied : evaluate clone_newuser_call (baseline_filter x86_64 linux) ≡ some 0x50001
unfolding evaluate baseline_filter deny_blocks denied_syscalls
clone_newuser_denied = refl

-- An ordinary clone and an ordinary ioctl, and calls of other architectures.
fork_allowed :
    evaluate (record clone_newuser_call { arg0 = 17 }) (baseline_filter x86_64 linux)
    ≡ some seccomp_ret_allow
unfolding evaluate baseline_filter deny_blocks denied_syscalls
fork_allowed = refl

resvsp_denied :
    evaluate
      (record clone_newuser_call { nr = 16; arg1 = 0xc0205828 })
      (baseline_filter x86_64 linux)
    ≡ some 0x50001
unfolding evaluate baseline_filter deny_blocks denied_syscalls
resvsp_denied = refl

foreign_killed :
    evaluate (record clone_newuser_call { arch = 0x40000003 }) (baseline_filter x86_64 linux)
    ≡ some seccomp_ret_kill_process
unfolding evaluate baseline_filter deny_blocks denied_syscalls
foreign_killed = refl
