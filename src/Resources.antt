-- ===== src/Resources.antt =====
-- native/src/resources.rs: reading cgroup limits and the capacity that jobs may reserve.
pub mod Parse
pub mod Admission
pub mod Detect
pub mod Chain
pub mod RoundTrip
