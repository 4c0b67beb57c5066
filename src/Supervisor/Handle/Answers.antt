-- ===== src/Supervisor/Handle/Answers.antt =====
-- How many frames the handlers of native/src/supervisor.rs owe and write.
use text.Mathlib.Text.{◌==◌ as str_eq}
use micro_sandbox.Prelude.{
  ℕ, ◌+◌, ◌≡◌, ◌⊎◌, refl, ap, Bool-cases, Option, none, some, inl, inr, [], ◌∷◌, length,
  length-append, arith, if◌then◌else◌, leb,
}
use micro_sandbox.Error.{Message, Result, ok, err}
use micro_sandbox.Protocol.{Bytes, Request, Response, Serde, encode_response}
use micro_sandbox.Supervisor.State.{
  max_active_jobs, ActiveJob, Jobs, Supervisor, find_job, contains_key, remove_job, drop_job,
}
use micro_sandbox.Supervisor.Start.{World}
use micro_sandbox.Supervisor.Start.Account.{Started, start_job-Started}
use micro_sandbox.Supervisor.Jobs.{length-remove_job, length-mark_cancelled, length-mark_all}
use micro_sandbox.Supervisor.Handle.{
  Handled, write_frame, write_result, written_ok, respond, cancel_all, cancel_one, cancel_parsed,
  cancel, started, run_request, dispatch, when_open, handle_request, FinishedJob, finish_found,
  finish, drop_after,
}
use micro_sandbox.Supervisor.Handle.Accounts.{insert_job-new}
use micro_sandbox.Supervisor.Jobs.Accounts.{IsSound}

module _ {V : Type 0} (serde : Serde V) where
  -- A cancel that cannot be read is answered, but not under the ID of a running job.
  abbrev owed_cancel : Supervisor → ℕ → Message ⊎ ℕ → ℕ
  owed_cancel s id (inr _) = 0
  owed_cancel s id (inl _) = if contains_key id s.active then 0 else 1

  abbrev owed_open : Supervisor → Request V → ℕ
  owed_open s r =
      if str_eq r.kind "health"
      then 1
      else if str_eq r.kind "run"
      then 1
      else if str_eq r.kind "cancel"
      then owed_cancel s r.id (serde.cancel_payload r.payload)
      else if str_eq r.kind "shutdown"
      then 0
      else 1

  abbrev owed_by : Supervisor → Request V → Option ℕ → ℕ
  owed_by s r none = owed_open s r
  owed_by s r (some _) = 1

  -- The answers that a request asks for: every one asks for an answer, but a cancel that can be read
  -- and a shutdown, whose answer comes when the loop returns.
  abbrev pub owed : Supervisor → Request V → ℕ
  owed s r = owed_by s r s.shutdown_id

-- Frames written and jobs that still have to be answered.
abbrev pub settled : Supervisor → ℕ
settled s = length s.written + length s.active

-- A handler that fails has no promise to keep.
abbrev pub Settles : Supervisor → ℕ → Handled → Type 0
Settles s owed (err e, s') = Unit
Settles s owed (ok _, s') = settled s' ≡ settled s + owed

module _ {V : Type 0} (serde : Serde V) (w : World) where
  write_result-Settles :
      (s : Supervisor) (frame : Result Bytes) → Settles s 1 (write_result serde w s frame)
  unfolding write_frame
  write_result-Settles s (err e) = tt
  write_result-Settles s (ok frame) =
      elim (w.write frame) as (λ r. Settles s 1 (written_ok serde s frame r)) [
        | inl e ↦ tt
        | inr _ ↦ omega (arith, length-append s.written (frame ∷ []))
      ]

  pub respond-Settles : (s : Supervisor) (r : Response V) → Settles s 1 (respond serde w s r)
  unfolding respond
  respond-Settles s r = write_result-Settles s (encode_response serde r)

  cancel_one-Settles :
      (s : Supervisor) (id : ℕ) (job : Option ActiveJob) → Settles s 0 (cancel_one serde s id job)
  unfolding cancel_one
  cancel_one-Settles s id none = omega arith
  cancel_one-Settles s id (some job) = omega (arith, length-mark_cancelled id s.active)

  cancel_parsed-Settles :
      (s : Supervisor) (id : ℕ) (payload : Message ⊎ ℕ)
      → Settles s (owed_cancel serde s id payload) (cancel_parsed serde w s id payload)
  unfolding cancel_parsed
  cancel_parsed-Settles s id (inr target) = cancel_one-Settles s target (find_job target s.active)
  cancel_parsed-Settles s id (inl m) = elim (Bool-cases (contains_key id s.active)) [
    | inl e ↦ rw e (omega arith)
    | inr e ↦ rw e (respond-Settles s _)
  ]

  started-Settles :
      (s : Supervisor) (id : ℕ) (r : Result ActiveJob) (s' : Supervisor)
      → find_job id s.active ≡ none
      → Started s (r, s')
      → Settles s 1 (started serde w id (r, s'))
  unfolding started
  started-Settles s id (err e) s' new same =
      rw same (respond-Settles (record s { effects = s'.effects }) _)
  started-Settles s id (ok job) s' new st =
      let table : s'.active ≡ s.active = ap (λ (x : Supervisor). x.active) st.0 in
      let frames : s'.written ≡ s.written = ap (λ (x : Supervisor). x.written) st.0 in
      rw (insert_job-new serde w s' id job (rw table new), table, frames) (omega arith)

  run_request-Settles :
      (s : Supervisor) (r : Request V) → IsSound s → Settles s 1 (run_request serde w s r)
  unfolding run_request
  run_request-Settles s r a = elim (Bool-cases (contains_key r.id s.active)) [
    | inl e ↦ rw e (respond-Settles s _)
    | inr absent ↦ elim (Bool-cases (leb max_active_jobs (length s.active))) [
      | inl e ↦ rw (absent, e) (respond-Settles s _)
      | inr room ↦
          rw (absent, room)
            (started-Settles s r.id _ _ (ground arith)
              (start_job-Started serde w s r.id r.payload a.disk_small))
    ]
  ]

  dispatch-Settles :
      (s : Supervisor) (r : Request V)
      → IsSound s
      → Settles s (owed_open serde s r) (dispatch serde w s r)
  unfolding dispatch cancel cancel_all
  dispatch-Settles s r a = elim (Bool-cases (str_eq r.kind "health")) [
    | inl e ↦ rw e (respond-Settles s _)
    | inr h ↦ elim (Bool-cases (str_eq r.kind "run")) [
      | inl e ↦ rw (h, e) (run_request-Settles s r a)
      | inr n ↦ elim (Bool-cases (str_eq r.kind "cancel")) [
        | inl e ↦ rw (h, n, e) (cancel_parsed-Settles s r.id (serde.cancel_payload r.payload))
        | inr c ↦ elim (Bool-cases (str_eq r.kind "shutdown")) [
          | inl e ↦ rw (h, n, c, e) (omega (arith, length-mark_all s.active))
          | inr d ↦ rw (h, n, c, d) (respond-Settles s _)
        ]
      ]
    ]
  ]

  pub handle_request-Settles :
      (s : Supervisor) (r : Request V)
      → IsSound s
      → Settles s (owed serde s r) (handle_request serde w s r)
  unfolding handle_request when_open
  handle_request-Settles s r a = by s.shutdown_id
    where
      by :
          (shutdown : Option ℕ)
          → Settles s (owed_by serde s r shutdown) (when_open serde w s r shutdown)
      by none = dispatch-Settles s r a
      by (some _) = respond-Settles s _

  drop_after-Settles :
      (s : Supervisor) (n : ℕ) (job : ActiveJob) (h : Handled)
      → Settles s n h
      → Settles s n (drop_after serde job h)
  unfolding drop_job
  drop_after-Settles s n job (err e, s') h = tt
  drop_after-Settles s n job (ok _, s') h = h

  fewer-Settles :
      (s : Supervisor) (jobs : Jobs) (h : Handled)
      → length s.active ≡ length jobs + 1
      → Settles (record s { active = jobs }) 1 h
      → Settles s 0 h
  fewer-Settles s jobs (err e, s') fewer h = tt
  fewer-Settles s jobs (ok _, s') fewer h = omega (arith, fewer, h)

  -- The end of a job is its answer.
  pub finish-Settles : (s : Supervisor) (f : FinishedJob) → Settles s 0 (finish serde w s f)
  unfolding finish finish_found
  finish-Settles s f = by (find_job f.request_id s.active) refl
    where
      by :
          (job : Option ActiveJob)
          → find_job f.request_id s.active ≡ job
          → Settles s 0 (finish_found serde w s f job)
      by none e = omega arith
      by (some job) e =
          let without = remove_job f.request_id s.active in
          drop_after-Settles s 0 job _ (
            fewer-Settles s without _ (length-remove_job f.request_id s.active job e)
              (write_result-Settles (record s { active = without }) _))
