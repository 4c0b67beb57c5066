-- ===== src/Scheduler.antt =====
-- native/src/scheduler.rs: capacities, the scheduler's shared state and its reservations.
-- `Arc<Mutex<State>>` is the scheduler passed along: the lock makes each method one step.
pub mod Admission
pub mod Ledger
use micro_sandbox.Prelude.{
  ℕ, ◌-◌, Bool, true, false, ◌&&◌, not, ◌||◌, Option, none, some, leb, if◌then◌else◌,
}
use micro_sandbox.Prelude.Words.{checked_add_u64, ◌>>=◌}
use micro_sandbox.Error.{Result, ok, err, capacity_exceeded}

-- `Capacity`, and `ResourceRequest`, its other name.
pub record Capacity : Type 0 where
  pub memory_bytes : ℕ
  pub cpu_millis : ℕ
  pub pids : ℕ

-- `Capacity::default()`.
abbrev pub no_capacity : Capacity
no_capacity = record { memory_bytes = 0; cpu_millis = 0; pids = 0 }

unfoldable pub checked_add : Capacity → Capacity → Option Capacity
checked_add a b = do
  m ← checked_add_u64 a.memory_bytes b.memory_bytes
  c ← checked_add_u64 a.cpu_millis b.cpu_millis
  p ← checked_add_u64 a.pids b.pids
  some (record { memory_bytes = m; cpu_millis = c; pids = p })

unfoldable pub fits_within : Capacity → Capacity → Bool
fits_within a limit =
    leb a.memory_bytes limit.memory_bytes
    && (leb a.cpu_millis limit.cpu_millis && leb a.pids limit.pids)

unfoldable pub saturating_sub : Capacity → Capacity → Capacity
saturating_sub a b = record {
  memory_bytes = a.memory_bytes - b.memory_bytes;
  cpu_millis = a.cpu_millis - b.cpu_millis;
  pids = a.pids - b.pids;
}

pub record Scheduler : Type 0 where
  pub limit : Capacity
  pub reserved : Capacity

unfoldable pub new : Capacity → Scheduler
new limit = record { limit = limit; reserved = no_capacity }

-- A reservation owns its request until it is released.
pub record Reservation : Type 0 where
  pub request : Capacity
  pub released : Bool

-- The body of `reserve_with_limit` once both sums have not overflowed.
admit : Scheduler → Capacity → Capacity → Capacity → Capacity → Result (Reservation × Scheduler)
unfolding fits_within
admit s request live_headroom total live_demand =
    if not (fits_within total s.limit) || not (fits_within live_demand live_headroom)
    then err capacity_exceeded
    else ok (record { request = request; released = false }, record s { reserved = total })

admit_total :
    Scheduler
    → Capacity
    → Capacity
    → Option Capacity
    → Option Capacity
    → Result (Reservation × Scheduler)
unfolding admit
admit_total s request live_headroom none live_demand = err capacity_exceeded
admit_total s request live_headroom (some total) none = err capacity_exceeded
admit_total s request live_headroom (some total) (some live_demand) =
    admit s request live_headroom total live_demand

unfoldable pub reserve_with_limit :
    Scheduler → Capacity → Capacity → Capacity → Result (Reservation × Scheduler)
unfolding admit_total checked_add saturating_sub
reserve_with_limit s request live_headroom own_live_usage =
    admit_total s request live_headroom (checked_add s.reserved request)
      (checked_add (saturating_sub s.reserved own_live_usage) request)

unfoldable pub reserve : Scheduler → Capacity → Result (Reservation × Scheduler)
unfolding reserve_with_limit
reserve s request = reserve_with_limit s request s.limit no_capacity

unfoldable pub available : Scheduler → Capacity
unfolding saturating_sub
available s = saturating_sub s.limit s.reserved

-- `release_inner`, which `release` and `drop` both call.
unfoldable pub release_inner : Reservation → Scheduler → Reservation × Scheduler
unfolding saturating_sub
release_inner r s =
    if r.released
    then (r, s)
    else (record r { released = true }, record s { reserved = saturating_sub s.reserved r.request })

-- `drop`: the reservation is gone after it.
unfoldable pub drop_reservation : Reservation → Scheduler → Scheduler
unfolding release_inner
drop_reservation r s = (release_inner r s).1
