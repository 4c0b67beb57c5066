-- ===== src/Supervisor/Handle.antt =====
-- The handlers of native/src/supervisor.rs: `handle_request`, `cancel`, `cancel_all`, `finish` and
-- what they write. Lines on stderr are left out.
pub mod Accounts
pub mod Answers
pub mod Cancel
use text.Mathlib.Text.{◌==◌ as str_eq}
use micro_sandbox.Prelude.{
  ℕ, ◌-◌, Bool, true, false, Option, none, some, List, [], ◌∷◌, ◌++◌, ◌⊎◌, inl, inr, leb, ltb,
  length, drop, if◌then◌else◌, String,
}
use micro_sandbox.Error.{
  Text, Message, lit, plain, quoted, literal, SandboxError, protocol, security, cancelled,
  capacity_exceeded, io, json, Result, ok, err, from_wire, ◌>>=◌,
}
use micro_sandbox.Text.{codes, trim, lines}
use micro_sandbox.Text.Utf8.{from_utf8_lossy}
use micro_sandbox.Host.{IoResult, from_io}
use micro_sandbox.Scheduler.{available}
use micro_sandbox.Protocol.{
  Bytes, max_frame_bytes, Request, Response, Serde, success, failure, encode_response,
}
use micro_sandbox.Supervisor.State.{
  max_active_jobs, ActiveJob, Jobs, Effect, kill_pidfd, Supervisor, find_job, contains_key,
  remove_job, mark_cancelled, mark_all, drop_job,
}
use micro_sandbox.Supervisor.Start.{World, start_job}

-- What a handler gives back beside the supervisor: only a failure to write, or to encode, is an
-- error.
abbrev pub Handled : Type 0
Handled = Result (Unit {0}) × Supervisor

-- `bounded_text`: the last 64 KiB of stderr.
unfoldable pub bounded_text : Bytes → Text
bounded_text bytes = trim (from_utf8_lossy (drop (length bytes - 65536) bytes))

unfoldable pub bounded_json : Bytes → Result Bytes
bounded_json bytes =
    if ltb max_frame_bytes (length bytes)
    then err (protocol (literal "launcher result exceeds 1 MiB"))
    else ok bytes

module _ {V : Type 0} (serde : Serde V) where
  abbrev relayed_line : Option (String × Message) → Option SandboxError
  relayed_line none = none
  relayed_line (some (code, message)) = from_wire code message

  abbrev or_later : Option SandboxError → Option SandboxError → Option SandboxError
  or_later earlier (some e) = some e
  or_later earlier none = earlier

  -- `lines().rev().find_map(...)`: the last line that names a known code.
  unfoldable pub last_failure : List Text → Option SandboxError
  last_failure [] = none
  last_failure (l ∷ rest) = or_later (relayed_line (serde.launcher_failure l)) (last_failure rest)

  abbrev or_unparsed : Text → Option SandboxError → SandboxError
  or_unparsed text (some e) = e
  or_unparsed text none = security (lit "launcher failed: " ∷ plain text ∷ [])

  unfoldable pub launcher_error : Bytes → SandboxError
  unfolding last_failure bounded_text
  launcher_error stderr =
      or_unparsed (bounded_text stderr) (last_failure (lines (bounded_text stderr)))

  abbrev or_failure : ℕ → Result Bytes → Result Bytes
  or_failure id (ok frame) = ok frame
  or_failure id (err e) = encode_response serde (failure id e)

  unfoldable pub job_success_frame : ℕ → V → Result Bytes
  job_success_frame id result = or_failure id (encode_response serde (success id result))

  abbrev written_ok : Supervisor → Bytes → IoResult (Unit {0}) → Handled
  written_ok s frame (inl e) = (err (io e), s)
  written_ok s frame (inr _) = (ok tt, record s { written = s.written ++ frame ∷ [] })

  unfoldable pub write_frame : World → Supervisor → Bytes → Handled
  write_frame w s frame = written_ok s frame (w.write frame)

  abbrev write_result : World → Supervisor → Result Bytes → Handled
  write_result w s (err e) = (err e, s)
  write_result w s (ok frame) = write_frame w s frame

  unfoldable pub respond : World → Supervisor → Response V → Handled
  respond w s r = write_result w s (encode_response serde r)

  -- SIGKILL to one job. A failure of the signal is only logged.
  abbrev pub kill_job : ActiveJob → Effect
  kill_job job = kill_pidfd job.pidfd

  abbrev kill_jobs : Jobs → List Effect
  kill_jobs [] = []
  kill_jobs ((_, job) ∷ rest) = kill_job job ∷ kill_jobs rest

  unfoldable pub cancel_all : Supervisor → Supervisor
  unfolding mark_all
  cancel_all s = record s { effects = s.effects ++ kill_jobs s.active; active = mark_all s.active }

  -- `if let Some(job) = self.active.get_mut(...)`.
  cancel_one : Supervisor → ℕ → Option ActiveJob → Handled
  cancel_one s id none = (ok tt, s)
  cancel_one s id (some job) = (
    ok tt,
    record s { effects = s.effects ++ kill_job job ∷ []; active = mark_cancelled id s.active },
  )

  cancel_parsed : World → Supervisor → ℕ → Message ⊎ ℕ → Handled
  unfolding cancel_one respond
  cancel_parsed w s id (inr target) = cancel_one s target (find_job target s.active)
  cancel_parsed w s id (inl m) =
      if contains_key id s.active
      then (ok tt, s)
      else respond w s (failure id (protocol (lit "invalid cancel payload: " ∷ m)))

  unfoldable pub cancel : World → Supervisor → Request V → Handled
  unfolding cancel_parsed
  cancel w s r = cancel_parsed w s r.id (serde.cancel_payload r.payload)

  -- `active.insert(id, job)`. A job that stood there would be dropped.
  abbrev drop_old : Option ActiveJob → Supervisor → Supervisor
  drop_old none s = s
  drop_old (some old) s = drop_job old s

  pub insert_job : Supervisor → ℕ → ActiveJob → Supervisor
  insert_job s id job =
      drop_old (find_job id s.active) (record s { active = (id, job) ∷ remove_job id s.active })

  started : World → ℕ → Result ActiveJob × Supervisor → Handled
  unfolding insert_job respond
  started w id (ok job, s) = (ok tt, insert_job s id job)
  started w id (err e, s) = respond w s (failure id e)

  unfoldable pub run_request : World → Supervisor → Request V → Handled
  unfolding started respond
  run_request w s r =
      if contains_key r.id s.active
      then respond w s (failure r.id (protocol (literal "request ID is already active")))
      else if leb max_active_jobs (length s.active)
      then respond w s (failure r.id capacity_exceeded)
      else started w r.id (start_job serde w s r.id r.payload)

  dispatch : World → Supervisor → Request V → Handled
  unfolding run_request cancel cancel_all respond
  dispatch w s r =
      if str_eq r.kind "health"
      then respond w s
          (success r.id (serde.health w.self_pid (length s.active) (available s.scheduler)))
      else if str_eq r.kind "run"
      then run_request w s r
      else if str_eq r.kind "cancel"
      then cancel w s r
      else if str_eq r.kind "shutdown"
      then (ok tt, cancel_all (record s { shutdown_id = some r.id }))
      else respond w s
          (failure r.id (protocol (lit "unsupported request type " ∷ quoted (codes r.kind) ∷ [])))

  when_open : World → Supervisor → Request V → Option ℕ → Handled
  unfolding dispatch respond
  when_open w s r none = dispatch w s r
  when_open w s r (some _) = respond w s (failure r.id cancelled)

  unfoldable pub handle_request : World → Supervisor → Request V → Handled
  unfolding when_open
  handle_request w s r = when_open w s r s.shutdown_id

-- A launcher's end. The result of its cleanup is only logged.
pub record Output : Type 0 where
  pub succeeded : Bool
  pub stdout : Bytes
  pub stderr : Bytes

pub record FinishedJob : Type 0 where
  pub request_id : ℕ
  pub output : IoResult Output
  pub cleanup : Result (Unit {0})

module _ {V : Type 0} (serde : Serde V) where
  abbrev as_json : Message ⊎ V → Result V
  as_json (inl m) = err (json m)
  as_json (inr v) = ok v

  abbrev success_or_failure : ℕ → Result V → Result Bytes
  success_or_failure id (ok result) = job_success_frame serde id result
  success_or_failure id (err e) = encode_response serde (failure id e)

  output_frame : ℕ → IoResult Output → Result Bytes
  output_frame id (inl e) = encode_response serde (failure id (io e))
  output_frame id (inr out) =
      if out.succeeded
      then success_or_failure id
          (bounded_json out.stdout >>= λ bytes. as_json (serde.parse_value bytes))
      else encode_response serde (failure id (launcher_error serde out.stderr))

  -- The frame that answers a job.
  unfoldable pub finished_frame : ActiveJob → FinishedJob → Result Bytes
  unfolding output_frame
  finished_frame job f =
      if job.cancelled
      then encode_response serde (failure f.request_id cancelled)
      else output_frame f.request_id f.output

  -- The job is dropped when `finish` returns, whether or not its frame was written.
  abbrev drop_after : ActiveJob → Handled → Handled
  drop_after job (r, s) = (r, drop_job job s)

  finish_found : World → Supervisor → FinishedJob → Option ActiveJob → Handled
  finish_found w s f none = (ok tt, s)
  finish_found w s f (some job) = drop_after job (
      write_result serde w (record s { active = remove_job f.request_id s.active })
        (finished_frame job f))

  unfoldable pub finish : World → Supervisor → FinishedJob → Handled
  unfolding finish_found write_frame
  finish w s f = finish_found w s f (find_job f.request_id s.active)
