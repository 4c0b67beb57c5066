-- ===== src/Supervisor/Start/Account.antt =====
-- What `start_job` of native/src/supervisor.rs leaves of the shared counters, on every path: the
-- reservations are taken only by a job that is returned, and given back where a later step fails.
use micro_sandbox.Prelude.{
  ℕ, zero, suc, ap, ◌+◌, ◌≤◌, ◌≡◌, refl, false, Option, none, some, List, arith, sym,
}
use micro_sandbox.Prelude.Words.{u64_max}
use mathlib.Core.Path.{subst}
use micro_sandbox.Error.{Result, ok, err, >>=-eq-ok, ok_injective}
use micro_sandbox.Scheduler.{Capacity, Scheduler, Reservation, drop_reservation}
use micro_sandbox.Scheduler.Admission.{plus, ◌≤ᶜ◌, Grants, reserve_with_limit-ok}
use micro_sandbox.Artifact.{WorkspaceSpec}
use micro_sandbox.Job.{LaunchSpec}
use micro_sandbox.Disk.{last_seen, release_workspace, reserve_workspace, reserve_workspace-ok}
use micro_sandbox.Protocol.{Serde}
use micro_sandbox.Supervisor.State.{Supervisor, ActiveJob, Effect}
use micro_sandbox.Supervisor.Start.{
  World, Prepared, repeated, reserve_disk, spawned, launch_job, with_disk, with_reservation,
  with_capacity, when_prepared, start_job,
}
use micro_sandbox.Supervisor.Jobs.{budget, IsLive}

-- The supervisor with what one more job holds: its capacity and its disk budget.
abbrev pub charged : Supervisor → List Effect → Capacity → ℕ → Supervisor
charged s effects request bytes = record s {
  effects = effects;
  scheduler = record (s.scheduler) { reserved = plus s.scheduler.reserved request };
  workspace_reserved = s.workspace_reserved + bytes;
}

-- How a start ends: an error leaves all but the log of effects as it was; a job is live, within the
-- limit, and holds what the counters grew by.
abbrev pub Started : Supervisor → Result ActiveJob × Supervisor → Type 0
Started s (err e, s') = s' ≡ record s { effects = s'.effects }
Started s (ok job, s') =
    (s' ≡ charged s s'.effects job.reservation.request (budget job.workspace_reservation))
    × (job.cancelled ≡ false)
    × IsLive job.reservation
    × ◌≤ᶜ◌ s'.scheduler.reserved s'.scheduler.limit
    × (s'.workspace_reserved ≤ u64_max)

last_seen-repeated : (n v : ℕ) → last_seen v (repeated n v) ≡ v
last_seen-repeated zero v = refl
last_seen-repeated (suc n) v = last_seen-repeated n v

module _ (w : World) where
  reserve_disk-ok :
      (s : Supervisor) (workspace : WorkspaceSpec) (next bytes : ℕ)
      → reserve_disk w s workspace ≡ ok (next, bytes)
      → (next ≡ s.workspace_reserved + bytes) × (next ≤ u64_max)
  unfolding reserve_disk
  reserve_disk-ok s workspace next bytes h =
      let (output, eo, ho) = >>=-eq-ok (w.output_directory workspace) _ h in
      let (free, ef, hf) = >>=-eq-ok (w.available_bytes output) _ ho in
      let (n, en, hn) =
        >>=-eq-ok
          (reserve_workspace s.workspace_reserved free workspace.limits.output_bytes
            (repeated w.spurious s.workspace_reserved))
          _ hf in
      let (kept, total, _, small) =
        reserve_workspace-ok s.workspace_reserved free workspace.limits.output_bytes
          (repeated w.spurious s.workspace_reserved) n.0 n.1 en in
      let both = ok_injective hn in
      let counter : n.1 ≡ next = ap (λ x. x.0) both in
      let held : n.0.bytes ≡ bytes = ap (λ x. x.1) both in
      ground (
        arith,
        kept,
        total,
        small,
        counter,
        held,
        last_seen-repeated w.spurious s.workspace_reserved,
      )

  module _ (s : Supervisor) (spec : LaunchSpec) (r : Reservation) (live : IsLive r)
      (le : ◌≤ᶜ◌ (plus s.scheduler.reserved r.request) s.scheduler.limit) where
    spawned-Started :
        (disk : Option ℕ) (more : List Effect) (pidfd : Result ℕ)
        → s.workspace_reserved + budget disk ≤ u64_max
        → Started s (spawned w spec r disk (charged s more r.request (budget disk)) pidfd)
    unfolding spawned drop_reservation release_workspace
    spawned-Started none more (err e) small = ground arith
    spawned-Started (some b) more (err e) small = ground arith
    spawned-Started disk more (ok pidfd) small = (refl, refl, live, le, small)

    launch_job-Started :
        (disk : Option ℕ)
        → s.workspace_reserved + budget disk ≤ u64_max
        → Started s (launch_job w spec r disk (charged s s.effects r.request (budget disk)))
    unfolding launch_job
    launch_job-Started disk small = spawned-Started disk _ _ small

    -- The reservation alone.
    abbrev granted : Supervisor
    granted = record s {
      scheduler = record (s.scheduler) { reserved = plus s.scheduler.reserved r.request };
    }

    with_disk-Started :
        (disk : Result (ℕ × ℕ))
        → ((next bytes : ℕ)
            → disk ≡ ok (next, bytes)
            → (next ≡ s.workspace_reserved + bytes) × (next ≤ u64_max))
        → Started s (with_disk w spec r granted disk)
    unfolding with_disk drop_reservation
    with_disk-Started (err e) h = ground arith
    with_disk-Started (ok (next, bytes)) h =
        let (e, small) = h next bytes refl in
        rw e (launch_job-Started (some bytes) (omega (arith, e, small)))

    with_reservation-Started :
        (workspace : Option WorkspaceSpec)
        → s.workspace_reserved ≤ u64_max
        → Started s (with_reservation w spec r granted workspace)
    unfolding with_reservation
    with_reservation-Started none small =
        let same : granted ≡ charged s s.effects r.request 0 = ground arith in
        subst (λ g. Started s (launch_job w spec r none g)) (sym same)
          (launch_job-Started none (omega arith))
    with_reservation-Started (some workspace) small =
        with_disk-Started (reserve_disk w granted workspace) (reserve_disk-ok granted workspace)

  with_capacity-Started :
      (s : Supervisor) (p : Prepared) (granted : Result (Reservation × Scheduler))
      → s.workspace_reserved ≤ u64_max
      → ((r : Reservation) (s' : Scheduler)
          → granted ≡ ok (r, s')
          → Grants s.scheduler p.request p.live_headroom p.own_usage
            × (r ≡ record { request = p.request; released = false })
            × (s' ≡ record (s.scheduler) { reserved = plus s.scheduler.reserved p.request }))
      → Started s (with_capacity w p s granted)
  unfolding with_capacity
  with_capacity-Started s p (err e) small h = refl
  with_capacity-Started s p (ok (r, s')) small h =
      let (g, er, es) = h r s' refl in
      rw (er, es)
        (with_reservation-Started s p.spec (record { request = p.request; released = false }) refl
          g.0 p.spec.workspace small)

  when_prepared-Started :
      (s : Supervisor) (p : Result Prepared)
      → s.workspace_reserved ≤ u64_max
      → Started s (when_prepared w s p)
  unfolding when_prepared
  when_prepared-Started s (err e) small = refl
  when_prepared-Started s (ok p) small =
      with_capacity-Started s p _ small
        (reserve_with_limit-ok s.scheduler p.request p.live_headroom p.own_usage)

-- However `start_job` ends, the counters are those of the jobs: on an error the scheduler, the disk
-- counter, the table of jobs and the frames written are what they were, and a job that it returns
-- is not cancelled, its reservation is live, and the scheduler and the disk counter have grown by
-- what it holds, the scheduler within its limit. The disk counter is a u64.
pub start_job-Started :
    {V : Type 0} (serde : Serde V) (w : World) (s : Supervisor) (request_id : ℕ) (payload : V)
    → s.workspace_reserved ≤ u64_max
    → Started s (start_job serde w s request_id payload)
unfolding start_job
start_job-Started serde w s request_id payload small = when_prepared-Started w s _ small
