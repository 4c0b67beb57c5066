-- ===== src/Supervisor/Handle/Cancel.antt =====
-- Cancellation in native/src/supervisor.rs: a request to cancel, a shutdown, and what the end of a
-- cancelled job is answered with.
use micro_sandbox.Prelude.{ℕ, ◌≡◌, ◌≢◌, ◌∙◌, ap, refl, true, none, some, inr, [], ◌∷◌, ◌++◌}
use micro_sandbox.Error.{ok, cancelled}
use micro_sandbox.Protocol.{Bytes, Request, Serde, failure, encode_response}
use micro_sandbox.Supervisor.State.{
  ActiveJob, Supervisor, kill_pidfd, find_job, remove_job, cancel_job, mark_cancelled, drop_job,
}
use micro_sandbox.Supervisor.Start.{World}
use micro_sandbox.Supervisor.Jobs.{
  find_job-mark_cancelled, find_job-mark_all, Distinct, mark_cancelled-Distinct,
  find_job-remove_job, cancelled_if,
}
use micro_sandbox.Supervisor.Handle.Accounts.{respond-active}
use micro_sandbox.Supervisor.Handle.{
  write_frame, respond, cancel_all, cancel_one, cancel_parsed, cancel, dispatch, when_open,
  handle_request, FinishedJob, finish_found, finish, finished_frame,
}

module _ {V : Type 0} (serde : Serde V) where
  -- A cancel that can be read, for a running job: it alone is flagged, its launcher is killed, and
  -- nothing is answered yet.
  cancel_request :
      (w : World) (s : Supervisor) (r : Request V) (target : ℕ) (job : ActiveJob)
      → s.shutdown_id ≡ none
      → r.kind ≡ "cancel"
      → serde.cancel_payload r.payload ≡ inr target
      → find_job target s.active ≡ some job
      → handle_request serde w s r ≡ (
        ok tt,
        record s {
          effects = s.effects ++ kill_pidfd job.pidfd ∷ [];
          active = mark_cancelled target s.active;
        },
      )
  unfolding handle_request when_open dispatch cancel cancel_parsed cancel_one
  cancel_request w s r target job running kind payload found =
      ap (λ o. when_open serde w s r o) running
      ∙ rw (kind, payload, found, dispatch, cancel_parsed, cancel_one)

  -- Whatever its launcher answered, a cancelled job that ends is answered with CANCELLED.
  finish_cancelled :
      (w : World) (s : Supervisor) (f : FinishedJob) (job : ActiveJob) (frame : Bytes)
      → find_job f.request_id s.active ≡ some job
      → job.cancelled ≡ true
      → encode_response serde (failure f.request_id cancelled) ≡ ok frame
      → w.write frame ≡ inr tt
      → finish serde w s f ≡ (
        ok tt,
        drop_job job (record s {
          active = remove_job f.request_id s.active;
          written = s.written ++ frame ∷ [];
        }),
      )
  unfolding finish finish_found finished_frame write_frame
  finish_cancelled w s f job frame found flag encoded written = rw (found, flag, encoded, written)

  shutdown_request :
      (w : World) (s : Supervisor) (r : Request V)
      → s.shutdown_id ≡ none
      → r.kind ≡ "shutdown"
      → handle_request serde w s r
        ≡ (ok tt, cancel_all serde (record s { shutdown_id = some r.id }))
  unfolding handle_request when_open dispatch
  shutdown_request w s r running kind =
      ap (λ o. when_open serde w s r o) running ∙ rw (kind, dispatch)

  refused :
      (w : World) (s : Supervisor) (r : Request V) (id : ℕ)
      → s.shutdown_id ≡ some id
      → handle_request serde w s r ≡ respond serde w s (failure r.id cancelled)
  unfolding handle_request when_open
  refused w s r id closing = ap (λ o. when_open serde w s r o) closing

-- A cancel that can be read, for a running job, kills that job's launcher and nothing else, leaves
-- every other job as it was, and is not answered. When the job then ends, its one answer is
-- CANCELLED, whatever its launcher put out and however its cleanup went, and the job is gone. The
-- supervisor is not shutting down, the answer fits a frame and can be written.
pub cancel-finish :
    {V : Type 0} (serde : Serde V) (w w' : World) (s : Supervisor) (r : Request V) (f : FinishedJob)
    (job : ActiveJob) (frame : Bytes)
    → s.shutdown_id ≡ none
    → Distinct s.active
    → r.kind ≡ "cancel"
    → serde.cancel_payload r.payload ≡ inr f.request_id
    → find_job f.request_id s.active ≡ some job
    → encode_response serde (failure f.request_id cancelled) ≡ ok frame
    → w'.write frame ≡ inr tt
    → let (c, s1) = handle_request serde w s r in
      let (d, s2) = finish serde w' s1 f in
      (c ≡ ok tt)
      × (s1.written ≡ s.written)
      × (s1.effects ≡ s.effects ++ kill_pidfd job.pidfd ∷ [])
      × ((k : ℕ) → f.request_id ≢ k → find_job k s1.active ≡ find_job k s.active)
      × (d ≡ ok tt)
      × (s2.written ≡ s.written ++ frame ∷ [])
      × (find_job f.request_id s2.active ≡ none)
unfolding drop_job
cancel-finish serde w w' s r f job frame running distinct kind payload found encoded written =
    let id = f.request_id in
    let s1 = record s {
      effects = s.effects ++ kill_pidfd job.pidfd ∷ [];
      active = mark_cancelled id s.active;
    } in
    let marked : find_job id s1.active ≡ some (cancel_job job) =
      (find_job-mark_cancelled id id s.active).0 refl ∙ ap cancelled_if found in
    rw
      (
        cancel_request serde w s r id job running kind payload found,
        finish_cancelled serde w' s1 f (cancel_job job) frame marked refl encoded written,
      )
      (
        refl,
        refl,
        refl,
        λ k ne. (find_job-mark_cancelled id k s.active).1 ne,
        refl,
        refl,
        find_job-remove_job id (mark_cancelled id s.active)
            (mark_cancelled-Distinct id s.active distinct),
      )

-- A shutdown flags and keeps every running job, adds none and answers nothing by itself; any later
-- request, a `run` too, is answered with CANCELLED and leaves the jobs alone.
pub shutdown-refuses :
    {V : Type 0} (serde : Serde V) (w w' : World) (s : Supervisor) (r later : Request V)
    → s.shutdown_id ≡ none
    → r.kind ≡ "shutdown"
    → let (c, s1) = handle_request serde w s r in
      (c ≡ ok tt)
      × (s1.written ≡ s.written)
      × (s1.shutdown_id ≡ some r.id)
      × ((k : ℕ) → find_job k s1.active ≡ cancelled_if (find_job k s.active))
      × (handle_request serde w' s1 later ≡ respond serde w' s1 (failure later.id cancelled))
      × ((handle_request serde w' s1 later).1.active ≡ s1.active)
shutdown-refuses serde w w' s r later running kind =
    let s1 = cancel_all serde (record s { shutdown_id = some r.id }) in
    rw (shutdown_request serde w s r running kind) (
      refl,
      unfold cancel_all in refl,
      unfold cancel_all in refl,
      unfold cancel_all in (λ k. find_job-mark_all k s.active),
      refused serde w' s1 later r.id (unfold cancel_all in refl),
      rw (refused serde w' s1 later r.id (unfold cancel_all in refl))
          (respond-active serde w' s1 (failure later.id cancelled)),
    )
