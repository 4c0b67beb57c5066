-- ===== src/Tests.antt =====
-- The theorems at concrete inputs, and runs of the definitions.
mod Linux
mod Monitor
mod Reconcile
mod Job
mod Artifact
mod Workspace
mod Cgroup
mod Seccomp
mod Scheduler
mod Text
mod Resources
mod Protocol
mod Supervisor
