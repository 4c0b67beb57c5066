-- ===== src/Seccomp.antt =====
-- native/src/linux/seccomp.rs: the baseline seccomp filter as a classic BPF program, and what the
-- kernel answers when it runs. The numbers of the libc crate are the record `Libc`.
pub mod Bpf
pub mod Filter
pub mod Policy
