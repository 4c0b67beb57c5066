-- ===== src/Job/Output.antt =====
-- How native/src/job.rs collects a guest's output: `claim_output_bytes` and the two threads of
-- `read_stream`, which share the counter of the bytes that may still be kept. A round of a thread is
-- one read with what follows it; its reads may come between any two rounds of the other thread.
pub mod Claims
pub mod Budget
use micro_sandbox.Prelude.{
  ℕ, zero, suc, ◌+◌, ◌-◌, min, Bool, true, false, not, ◌&&◌, ◌||◌, List, [], ◌∷◌, ◌++◌, length, ltb,
  if◌then◌else◌,
}
use micro_sandbox.Protocol.{Bytes}

-- The loop, from the value that was loaded; each failed exchange hands back the counter as it is
-- then. The bytes that are claimed, and the counter's new value.
unfoldable pub claim_loop : ℕ → ℕ → List ℕ → ℕ × ℕ
claim_loop requested available [] = (min requested available, available - min requested available)
claim_loop requested available (current ∷ failures) = claim_loop requested current failures

-- The counter is `remaining` at the exchange that succeeds; `stale` is what was seen of it before.
unfoldable pub claim_output_bytes : ℕ → ℕ → List ℕ → ℕ × ℕ
unfolding claim_loop
claim_output_bytes requested remaining [] = claim_loop requested remaining []
claim_output_bytes requested remaining (loaded ∷ stale) =
    claim_loop requested loaded (stale ++ remaining ∷ [])

-- `&buffer[..keep]`.
abbrev pub take : ℕ → Bytes → Bytes
take zero bytes = []
take (suc n) [] = []
take (suc n) (b ∷ bytes) = b ∷ take n bytes

pub data Stream : Type 0 where
  stdout stderr : Stream

pub record Collected : Type 0 where
  pub remaining : ℕ
  pub overflow : Bool
  -- The bytes written to the wake pipe.
  pub wakes : ℕ
  pub stdout_bytes : Bytes
  pub stderr_bytes : Bytes

-- A read that has returned some bytes.
pub record Round : Type 0 where
  pub stream : Stream
  pub bytes : Bytes
  pub stale : List ℕ

-- `Arc::new(AtomicU64::new(spec.limits.output_bytes))` and the rest as it is made.
abbrev pub not_started : ℕ → Collected
not_started output_bytes = record {
  remaining = output_bytes;
  overflow = false;
  wakes = 0;
  stdout_bytes = [];
  stderr_bytes = [];
}

-- `output.extend_from_slice(...)`, of the thread's own vector.
abbrev pub extend : Stream → Bytes → Collected → Collected
extend stdout kept c = record c { stdout_bytes = c.stdout_bytes ++ kept }
extend stderr kept c = record c { stderr_bytes = c.stderr_bytes ++ kept }

-- `if keep < read && !overflow.swap(true) { write_byte(wake) }`.
abbrev pub note_overflow : Bool → Collected → Collected
note_overflow short c =
    if short
    then record c { overflow = true; wakes = c.wakes + (if c.overflow then 0 else 1) }
    else c

unfoldable pub read_round : Collected → Round → Collected
unfolding claim_output_bytes
read_round c r =
    let (keep, remaining) = claim_output_bytes (length r.bytes) c.remaining r.stale in
    note_overflow (ltb keep (length r.bytes))
      (extend r.stream (take keep r.bytes) (record c { remaining = remaining }))

unfoldable pub read_streams : Collected → List Round → Collected
unfolding read_round
read_streams c [] = c
read_streams c (r ∷ rest) = read_streams (read_round c r) rest
