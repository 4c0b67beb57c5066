-- ===== src/Supervisor/Handle/Accounts.antt =====
-- The shared counters of native/src/supervisor.rs against the table of running jobs: every handler
-- keeps them in step.
use text.Mathlib.Text.{◌==◌ as str_eq}
use micro_sandbox.Prelude.{
  ℕ, ◌<◌, ◌≡◌, refl, ap, false, Bool-cases, Option, none, some, inl, inr, List, [], ◌∷◌, ◌++◌,
  length, arith, leb, ◌⊎◌,
}
use micro_sandbox.Error.{Message, Result, ok, err}
use micro_sandbox.Protocol.{Bytes, Request, Response, Serde, encode_response}
use micro_sandbox.Supervisor.State.{
  max_active_jobs, ActiveJob, Supervisor, find_job, contains_key, remove_job, drop_job,
}
use micro_sandbox.Supervisor.Start.{World}
use micro_sandbox.Supervisor.Start.Account.{Started, start_job-Started}
use micro_sandbox.Supervisor.Handle.{
  write_frame, write_result, written_ok, respond, cancel_all, cancel_one, cancel_parsed, cancel,
  insert_job, started, run_request, dispatch, when_open, handle_request, FinishedJob, finish_found,
  finish, finished_frame,
}
use micro_sandbox.Supervisor.Jobs.{remove_job_absent}
use micro_sandbox.Supervisor.Jobs.Accounts.{
  IsSound, remove_job-Accounts, mark_cancelled-Accounts, mark_all-Accounts, insert-Accounts,
}

module _ {V : Type 0} (serde : Serde V) (w : World) where
  write_frame-IsSound :
      (s : Supervisor) (frame : Bytes) → IsSound s → IsSound (write_frame serde w s frame).1
  unfolding write_frame
  write_frame-IsSound s frame a =
      elim (w.write frame) as (λ r. IsSound (written_ok serde s frame r).1) [
        | inl e ↦ a
        | inr _ ↦ a
      ]

  write_result-IsSound :
      (s : Supervisor) (frame : Result Bytes) → IsSound s → IsSound (write_result serde w s frame).1
  write_result-IsSound s (err e) a = a
  write_result-IsSound s (ok frame) a = write_frame-IsSound s frame a

  pub respond-IsSound :
      (s : Supervisor) (r : Response V) → IsSound s → IsSound (respond serde w s r).1
  unfolding respond
  respond-IsSound s r a = write_result-IsSound s _ a

  pub cancel_all-IsSound : (s : Supervisor) → IsSound s → IsSound (cancel_all serde s)
  unfolding cancel_all
  cancel_all-IsSound s a = mark_all-Accounts s.scheduler s.workspace_reserved s.active a

  cancel_one-IsSound :
      (s : Supervisor) (id : ℕ) (job : Option ActiveJob)
      → IsSound s
      → IsSound (cancel_one serde s id job).1
  unfolding cancel_one
  cancel_one-IsSound s id none a = a
  cancel_one-IsSound s id (some job) a =
      mark_cancelled-Accounts s.scheduler s.workspace_reserved id s.active a

  cancel-IsSound : (s : Supervisor) (r : Request V) → IsSound s → IsSound (cancel serde w s r).1
  unfolding cancel
  cancel-IsSound s r a = parsed (serde.cancel_payload r.payload)
    where
      parsed : (payload : Message ⊎ ℕ) → IsSound (cancel_parsed serde w s r.id payload).1
      parsed (inr target) = cancel_one-IsSound s target (find_job target s.active) a
      parsed (inl m) = elim (Bool-cases (contains_key r.id s.active)) [
        | inl e ↦ unfold cancel_parsed in rw e a
        | inr e ↦ unfold cancel_parsed in rw e (respond-IsSound s _ a)
      ]

  pub insert_job-new :
      (s : Supervisor) (id : ℕ) (job : ActiveJob)
      → find_job id s.active ≡ none
      → insert_job serde s id job ≡ record s { active = (id, job) ∷ s.active }
  unfolding insert_job
  insert_job-new s id job e = rw (e, remove_job_absent id s.active e)

  started-IsSound :
      (s : Supervisor) (id : ℕ) (r : Result ActiveJob) (s' : Supervisor)
      → find_job id s.active ≡ none
      → length s.active < max_active_jobs
      → Started s (r, s')
      → IsSound s
      → IsSound (started serde w id (r, s')).1
  unfolding started
  started-IsSound s id (err e) s' new room same a = respond-IsSound s' _ (rw same a)
  started-IsSound s id (ok job) s' new room st a =
      let table : s'.active ≡ s.active = ap (λ (x : Supervisor). x.active) st.0 in
      let new' : find_job id s'.active ≡ none = rw table new in
      rw (insert_job-new s' id job new', table) (insert-Accounts s s' id job new room st a)

  run_request-IsSound :
      (s : Supervisor) (r : Request V) → IsSound s → IsSound (run_request serde w s r).1
  unfolding run_request
  run_request-IsSound s r a = elim (Bool-cases (contains_key r.id s.active)) [
    | inl e ↦ rw e (respond-IsSound s _ a)
    | inr absent ↦ elim (Bool-cases (leb max_active_jobs (length s.active))) [
      | inl e ↦ rw (absent, e) (respond-IsSound s _ a)
      | inr room ↦
          rw (absent, room)
            (started-IsSound s r.id _ _ (not_found absent) (ground arith)
              (start_job-Started serde w s r.id r.payload a.disk_small) a)
    ]
  ]
    where
      not_found : contains_key r.id s.active ≡ false → find_job r.id s.active ≡ none
      not_found e = ground arith

  dispatch-IsSound : (s : Supervisor) (r : Request V) → IsSound s → IsSound (dispatch serde w s r).1
  unfolding dispatch
  dispatch-IsSound s r a = elim (Bool-cases (str_eq r.kind "health")) [
    | inl e ↦ rw e (respond-IsSound s _ a)
    | inr h ↦ elim (Bool-cases (str_eq r.kind "run")) [
      | inl e ↦ rw (h, e) (run_request-IsSound s r a)
      | inr n ↦ elim (Bool-cases (str_eq r.kind "cancel")) [
        | inl e ↦ rw (h, n, e) (cancel-IsSound s r a)
        | inr c ↦ elim (Bool-cases (str_eq r.kind "shutdown")) [
          | inl e ↦ rw (h, n, c, e) (cancel_all-IsSound (record s { shutdown_id = some r.id }) a)
          | inr d ↦ rw (h, n, c, d) (respond-IsSound s _ a)
        ]
      ]
    ]
  ]

  when_open-IsSound :
      (s : Supervisor) (r : Request V) (shutdown : Option ℕ)
      → IsSound s
      → IsSound (when_open serde w s r shutdown).1
  unfolding when_open
  when_open-IsSound s r none a = dispatch-IsSound s r a
  when_open-IsSound s r (some _) a = respond-IsSound s _ a

  pub handle_request-IsSound :
      (s : Supervisor) (r : Request V) → IsSound s → IsSound (handle_request serde w s r).1
  unfolding handle_request
  handle_request-IsSound s r a = when_open-IsSound s r s.shutdown_id a

  -- Writing a frame changes the log of frames alone.
  write_result-only :
      (s : Supervisor) (frame : Result Bytes)
      → (written : List Bytes) × ((write_result serde w s frame).1 ≡ record s { written = written })
  unfolding write_frame
  write_result-only s (err e) = (s.written, refl)
  write_result-only s (ok frame) =
      elim (w.write frame)
        as (λ r.
          (written : List Bytes) × ((written_ok serde s frame r).1
            ≡ record s { written = written })) [
              | inl e ↦ (s.written, refl)
              | inr _ ↦ (s.written ++ frame ∷ [], refl)
            ]

  pub respond-active : (s : Supervisor) (r : Response V) → (respond serde w s r).1.active ≡ s.active
  unfolding respond
  respond-active s r =
      let (written, same) = write_result-only s (encode_response serde r) in
      ap (λ (x : Supervisor). x.active) same

  finish_found-IsSound :
      (s : Supervisor) (f : FinishedJob) (job : Option ActiveJob)
      → find_job f.request_id s.active ≡ job
      → IsSound s
      → IsSound (finish_found serde w s f job).1
  unfolding finish_found drop_job
  finish_found-IsSound s f none e a = a
  finish_found-IsSound s f (some job) e a =
      let (written, same) =
        write_result-only (record s { active = remove_job f.request_id s.active })
          (finished_frame serde job f) in
      rw same (remove_job-Accounts s.scheduler s.workspace_reserved f.request_id s.active job e a)

  pub finish-IsSound :
      (s : Supervisor) (f : FinishedJob) → IsSound s → IsSound (finish serde w s f).1
  unfolding finish
  finish-IsSound s f a = finish_found-IsSound s f (find_job f.request_id s.active) refl a
