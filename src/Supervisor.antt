-- ===== src/Supervisor.antt =====
-- native/src/supervisor.rs: the protocol loop. `State` has the supervisor and its jobs, `Start` the
-- admission and launch of a job, `Handle` the requests and completions, `Run` the loop. `Jobs` and
-- the modules below it have the proofs.
pub mod State
pub mod Start
pub mod Handle
pub mod Run
pub mod Reconcile
pub mod Jobs
