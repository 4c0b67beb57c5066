-- ===== src/Scheduler/Admission.antt =====
-- When a reservation is granted: `reserve_with_limit` of native/src/scheduler.rs against the
-- inequalities of its documentation.
use micro_sandbox.Prelude.{◌+◌, ◌-◌, ◌≤◌, ◌≡◌, ◌⊎◌, inl, inr, true, false, none, some, arith}
use micro_sandbox.Prelude.Words.{u64_max}
use micro_sandbox.Error.{Result, ok, err, capacity_exceeded}
use micro_sandbox.Scheduler.{
  Capacity, Scheduler, Reservation, checked_add, fits_within, saturating_sub, reserve_with_limit,
  admit, admit_total,
}

-- Field by field.
abbrev pub ◌≤ᶜ◌ : Capacity → Capacity → Type 0
◌≤ᶜ◌ a b = (a.memory_bytes ≤ b.memory_bytes) × (a.cpu_millis ≤ b.cpu_millis) × (a.pids ≤ b.pids)

abbrev pub plus : Capacity → Capacity → Capacity
plus a b = record {
  memory_bytes = a.memory_bytes + b.memory_bytes;
  cpu_millis = a.cpu_millis + b.cpu_millis;
  pids = a.pids + b.pids;
}

abbrev pub minus : Capacity → Capacity → Capacity
minus a b = record {
  memory_bytes = a.memory_bytes - b.memory_bytes;
  cpu_millis = a.cpu_millis - b.cpu_millis;
  pids = a.pids - b.pids;
}

-- Each field is a u64.
abbrev pub IsCapacity : Capacity → Type 0
IsCapacity c = (c.memory_bytes ≤ u64_max) × (c.cpu_millis ≤ u64_max) × (c.pids ≤ u64_max)

pub fits_within-cases :
    (a b : Capacity)
    → ((fits_within a b ≡ true) × ◌≤ᶜ◌ a b) ⊎ ((fits_within a b ≡ false) × (◌≤ᶜ◌ a b → ⊥))
unfolding fits_within
fits_within-cases a b = ground arith

checked_add-cases :
    (a b : Capacity)
    → (checked_add a b ≡ some (plus a b)) ⊎ ((checked_add a b ≡ none) × (IsCapacity (plus a b) → ⊥))
unfolding checked_add
checked_add-cases a b = ground arith

-- The two bounds of the documentation: the total against the limit, and the request with the unused
-- part of the reservations against the live headroom.
abbrev pub Grants : Scheduler → Capacity → Capacity → Capacity → Type 0
Grants s request live_headroom own_live_usage =
    ◌≤ᶜ◌ (plus s.reserved request) s.limit
    × ◌≤ᶜ◌ (plus (minus s.reserved own_live_usage) request) live_headroom

module _ (s : Scheduler) (request live_headroom own : Capacity) where
  abbrev granted : Result (Reservation × Scheduler)
  granted = ok (
    record { request = request; released = false },
    record s { reserved = plus s.reserved request },
  )

  admit-cases :
      (Grants s request live_headroom own
        × (admit s request live_headroom
              (plus s.reserved request)
              (plus (minus s.reserved own) request)
            ≡ granted))
      ⊎ ((Grants s request live_headroom own → ⊥)
          × (admit s request live_headroom
                (plus s.reserved request)
                (plus (minus s.reserved own) request)
              ≡ err capacity_exceeded))
  unfolding admit
  admit-cases = ground (
    arith,
    fits_within-cases (plus s.reserved request) s.limit,
    fits_within-cases (plus (minus s.reserved own) request) live_headroom,
  )

-- `reserve_with_limit` grants a request exactly when both documented bounds hold, in all three
-- resources: then the reservation is live, carries the request, and the reserved total grows by it.
-- Otherwise, on an overflow too, the answer is `CapacityExceeded`. The limit and the headroom are
-- u64 values.
pub reserve_with_limit-exact :
    (s : Scheduler) (request live_headroom own : Capacity)
    → IsCapacity s.limit
    → IsCapacity live_headroom
    → (Grants s request live_headroom own
        × (reserve_with_limit s request live_headroom own
            ≡ ok (
              record { request = request; released = false },
              record s { reserved = plus s.reserved request },
            )))
      ⊎ ((Grants s request live_headroom own → ⊥)
          × (reserve_with_limit s request live_headroom own ≡ err capacity_exceeded))
unfolding reserve_with_limit
reserve_with_limit-exact s request live_headroom own hl hh =
    elim (checked_add-cases s.reserved request) [
      | inr (e, over) ↦ inr (λ g. over (omega (arith, g, hl)), rw (e, admit_total))
      | inl e ↦ elim (checked_add-cases (saturating_sub s.reserved own) request) [
        | inr (e', over) ↦ inr (λ g. over (omega (arith, g, hh)), rw (e, e', admit_total))
        | inl e' ↦ rw (e, e', admit_total) (admit-cases s request live_headroom own)
      ]
    ]

-- The converse that a holder of a reservation uses: whatever was granted met the bounds.
pub reserve_with_limit-ok :
    (s : Scheduler) (request live_headroom own : Capacity) (r : Reservation) (s' : Scheduler)
    → reserve_with_limit s request live_headroom own ≡ ok (r, s')
    → Grants s request live_headroom own
      × (r ≡ record { request = request; released = false })
      × (s' ≡ record s { reserved = plus s.reserved request })
unfolding reserve_with_limit
reserve_with_limit-ok s request live_headroom own r s' h = ground (
  arith,
  checked_add-cases s.reserved request,
  checked_add-cases (saturating_sub s.reserved own) request,
  admit-cases s request live_headroom own,
)
