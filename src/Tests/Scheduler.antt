-- ===== src/Tests/Scheduler.antt =====
-- Reservations of native/src/scheduler.rs and disk budgets of native/src/supervisor.rs.
use micro_sandbox.Prelude.{◌≡◌, ◌≤◌, ◌+◌, ◌*◌, ◌⊎◌, refl, false, [], ◌∷◌, arith}
use micro_sandbox.Prelude.Words.{u64_max}
use micro_sandbox.Error.{ok, err, capacity_exceeded}
use micro_sandbox.Scheduler.{
  Capacity, Scheduler, Reservation, new, no_capacity, reserve_with_limit, drop_reservation,
}
use micro_sandbox.Scheduler.Admission.{plus, ◌≤ᶜ◌, Grants, reserve_with_limit-exact}
use micro_sandbox.Scheduler.Ledger.{total, Reach, here, next, grant, give_back, history-Holds}
use micro_sandbox.Disk.{
  WorkspaceReservation, reserve_workspace, drop_workspace, last_seen, reserve_workspace-ok,
}
use micro_sandbox.Disk.History as Disk
use micro_sandbox.Disk.History.{Reach-total}

abbrev limit : Capacity
limit = record { memory_bytes = 100; cpu_millis = 100; pids = 100 }

abbrev small : Capacity
small = record { memory_bytes = 40; cpu_millis = 50; pids = 60 }

abbrev held : Reservation
held = record { request = small; released = false }

abbrev one_taken : Scheduler
one_taken = record { limit = limit; reserved = small }

-- The second request fits the limit in memory and CPU, and not in processes.
reserve_with_limit-exact_example :
    (Grants one_taken small limit small
      × (reserve_with_limit one_taken small limit small
          ≡ ok (held, record one_taken { reserved = plus small small })))
    ⊎ ((Grants one_taken small limit small → ⊥)
        × (reserve_with_limit one_taken small limit small ≡ err capacity_exceeded))
reserve_with_limit-exact_example =
    reserve_with_limit-exact one_taken small limit small (omega arith) (omega arith)

granted : reserve_with_limit (new limit) small limit no_capacity ≡ ok (held, one_taken)
unfolding reserve_with_limit new
granted = refl

-- One grant, and the reservation is given back.
history : Reach (new limit, []) (drop_reservation held one_taken, [])
history = next (next here (grant small limit no_capacity granted)) (give_back held [] [])

history-Holds_example :
    ((drop_reservation held one_taken).reserved ≡ total []) × ◌≤ᶜ◌ (total []) limit
history-Holds_example = history-Holds limit (drop_reservation held one_taken) [] history

-- Two spurious failures, and another thread's 100 bytes.
abbrev disk_held : WorkspaceReservation
disk_held = record { bytes = 300 }

reserved_disk : reserve_workspace 0 1000 300 (0 ∷ 0 ∷ 100 ∷ []) ≡ ok (disk_held, 400)
unfolding reserve_workspace
reserved_disk = refl

reserve_workspace-ok_example :
    (disk_held.bytes ≡ 300)
    × (400 ≡ last_seen 0 (0 ∷ 0 ∷ 100 ∷ []) + 300)
    × (400 * 100 ≤ 1000 * 80)
    × (400 ≤ u64_max)
reserve_workspace-ok_example =
    reserve_workspace-ok 0 1000 300 (0 ∷ 0 ∷ 100 ∷ []) disk_held 400 reserved_disk

abbrev other_held : WorkspaceReservation
other_held = record { bytes = 100 }

other_reserved : reserve_workspace 0 1000 100 [] ≡ ok (other_held, 100)
unfolding reserve_workspace
other_reserved = refl

-- Two grants, the second behind failed exchanges, and the first is given back.
disk_history : Disk.Reach (0, []) (drop_workspace other_held 400, disk_held ∷ [])
disk_history =
    Disk.next
      (Disk.next (Disk.next Disk.here (Disk.grant 0 1000 100 [] refl other_reserved))
        (Disk.grant 0 1000 300 (0 ∷ 0 ∷ 100 ∷ []) refl reserved_disk))
      (Disk.give_back other_held (disk_held ∷ []) [])

Reach-total_example :
    (drop_workspace other_held 400 ≡ Disk.total (disk_held ∷ []))
    × (drop_workspace other_held 400 ≤ u64_max)
Reach-total_example = Reach-total (drop_workspace other_held 400) (disk_held ∷ []) disk_history
