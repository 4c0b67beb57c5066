-- ===== src/Job/Output/Budget.antt =====
-- The budget of a guest's output: what the two threads of native/src/job.rs keep, in any order.
use mathlib.Core.Path.{subst₂}
use mathlib.Core.List.{append_assoc, append-nil}
use micro_sandbox.Prelude.{
  ℕ, ◌+◌, ◌-◌, ◌≡◌, refl, ap, ◌∙◌, min, Bool, true, false, List, [], ◌∷◌, ◌++◌, length,
  length-append, ltb, if◌then◌else◌, arith, ◌⊎◌, inl, inr,
}
use micro_sandbox.Protocol.{Bytes}
use micro_sandbox.Job.Output.{
  take, Stream, stdout, stderr, Collected, Round, not_started, extend, note_overflow, read_round,
  read_streams,
}
use micro_sandbox.Job.Output.Claims.{
  prepend, written, IsPrefix, claim_output_bytes-min, length-take, Part, Part-length, Part-extend,
  Part-less,
}

over_step :
    (so ro se re remaining n limit : ℕ) (overflow : Bool)
    → (ro ≡ 0) ⊎ (remaining ≡ 0)
    → (re ≡ 0) ⊎ (remaining ≡ 0)
    → so + se + remaining ≡ limit
    → overflow ≡ ltb limit (so + ro + (se + re))
    → (if ltb (min n remaining) n then true else overflow) ≡ ltb limit (so + ro + (se + re) + n)
over_step so ro se re remaining n limit overflow (inl a) (inl b) h k = ground arith
over_step so ro se re remaining n limit overflow (inl a) (inr b) h k = ground arith
over_step so ro se re remaining n limit overflow (inr a) (inl b) h k = ground arith
over_step so ro se re remaining n limit overflow (inr a) (inr b) h k = ground arith

kept_min :
    (so ro se re remaining limit : ℕ)
    → (ro ≡ 0) ⊎ (remaining ≡ 0)
    → (re ≡ 0) ⊎ (remaining ≡ 0)
    → so + se + remaining ≡ limit
    → so + se ≡ min limit (so + ro + (se + re))
kept_min so ro se re remaining limit h k e = ground arith

-- The threads' state, for what the guest has written to either stream so far.
record Keeps (limit : ℕ) (out errors : Bytes) (c : Collected) : Type 0 where
  of_stdout : Part c.stdout_bytes out c.remaining
  of_stderr : Part c.stderr_bytes errors c.remaining
  kept : length c.stdout_bytes + length c.stderr_bytes + c.remaining ≡ limit
  over : c.overflow ≡ ltb limit (length out + length errors)
  woken : c.wakes ≡ (if c.overflow then 1 else 0)

-- A round of a thread, once the claim is known.
abbrev round_of : Stream → Bytes → Collected → Collected
round_of s bytes c =
    let keep = min (length bytes) c.remaining in
    note_overflow (ltb keep (length bytes))
      (extend s (take keep bytes) (record c { remaining = c.remaining - keep }))

read_round-min : (c : Collected) (r : Round) → read_round c r ≡ round_of r.stream r.bytes c
unfolding read_round
read_round-min c r = rw (claim_output_bytes-min (length r.bytes) c.remaining r.stale) refl

abbrev grown : Stream → Stream → Bytes → Bytes → Bytes
grown stdout stdout all bytes = all ++ bytes
grown stderr stderr all bytes = all ++ bytes
grown _ _ all bytes = all

Keeps-note :
    (limit : ℕ) (out errors : Bytes) (short : Bool) (c : Collected)
    → Part c.stdout_bytes out c.remaining
    → Part c.stderr_bytes errors c.remaining
    → length c.stdout_bytes + length c.stderr_bytes + c.remaining ≡ limit
    → (if short then true else c.overflow) ≡ ltb limit (length out + length errors)
    → c.wakes ≡ (if c.overflow then 1 else 0)
    → Keeps limit out errors (note_overflow short c)
Keeps-note limit out errors true c o e k v w = record {
  of_stdout = o;
  of_stderr = e;
  kept = k;
  over = v;
  woken = ground (arith, w);
}
Keeps-note limit out errors false c o e k v w = record {
  of_stdout = o;
  of_stderr = e;
  kept = k;
  over = v;
  woken = w;
}

-- The bytes that are kept count against the budget.
kept_step :
    (kept bytes : Bytes) (remaining : ℕ)
    → length (kept ++ take (min (length bytes) remaining) bytes)
        + (remaining - min (length bytes) remaining)
      ≡ length kept + remaining
kept_step kept bytes remaining =
    rw
      (
        length-append kept (take (min (length bytes) remaining) bytes),
        length-take (min (length bytes) remaining) bytes,
      )
      (omega arith)

-- Whether the guest has written too much, before a round and after it.
Keeps-over :
    (limit : ℕ) (out errors : Bytes) (c : Collected) (n : ℕ)
    → Keeps limit out errors c
    → (if ltb (min n c.remaining) n then true else c.overflow)
      ≡ ltb limit (length out + length errors + n)
Keeps-over limit out errors c n v =
    over_step (length c.stdout_bytes) (length v.of_stdout.rest) (length c.stderr_bytes)
      (length v.of_stderr.rest) c.remaining n limit c.overflow v.of_stdout.whole v.of_stderr.whole
      v.kept (rw (Part-length v.of_stdout, Part-length v.of_stderr) v.over)
    ∙ ap (λ x. ltb limit (x + n)) (omega (arith, Part-length v.of_stdout, Part-length v.of_stderr))

Keeps-round :
    (limit : ℕ) (out errors : Bytes) (c : Collected) (s : Stream) (bytes : Bytes)
    → Keeps limit out errors c
    → Keeps limit (grown stdout s out bytes) (grown stderr s errors bytes) (round_of s bytes c)
Keeps-round limit out errors c stdout bytes v =
    let k = min (length bytes) c.remaining in
    Keeps-note limit (out ++ bytes) errors (ltb k (length bytes))
      (extend stdout (take k bytes) (record c { remaining = c.remaining - k }))
      (Part-extend c.stdout_bytes out bytes c.remaining v.of_stdout) (Part-less k v.of_stderr)
      (omega (arith, kept_step c.stdout_bytes bytes c.remaining, v.kept))
      (Keeps-over limit out errors c (length bytes) v
        ∙ ap (ltb limit) (omega (arith, length-append out bytes)))
      v.woken
Keeps-round limit out errors c stderr bytes v =
    let k = min (length bytes) c.remaining in
    Keeps-note limit out (errors ++ bytes) (ltb k (length bytes))
      (extend stderr (take k bytes) (record c { remaining = c.remaining - k }))
      (Part-less k v.of_stdout) (Part-extend c.stderr_bytes errors bytes c.remaining v.of_stderr)
      (omega (arith, kept_step c.stderr_bytes bytes c.remaining, v.kept))
      (Keeps-over limit out errors c (length bytes) v
        ∙ ap (ltb limit) (omega (arith, length-append errors bytes)))
      v.woken

grown-append :
    (s read : Stream) (all bytes later : Bytes)
    → grown s read all bytes ++ later ≡ all ++ prepend s read bytes later
grown-append stdout stdout all bytes later = append_assoc all bytes later
grown-append stderr stderr all bytes later = append_assoc all bytes later
grown-append stdout stderr all bytes later = refl
grown-append stderr stdout all bytes later = refl

Keeps-streams :
    (limit : ℕ) (out errors : Bytes) (c : Collected) (rs : List Round)
    → Keeps limit out errors c
    → Keeps limit (out ++ written stdout rs) (errors ++ written stderr rs) (read_streams c rs)
unfolding read_streams
Keeps-streams limit out errors c [] v = rw (append-nil out, append-nil errors) v
Keeps-streams limit out errors c (r ∷ rs) v =
    let rest =
      Keeps-streams limit (grown stdout r.stream out r.bytes) (grown stderr r.stream errors r.bytes)
        (read_round c r) rs
        (rw (read_round-min c r) (Keeps-round limit out errors c r.stream r.bytes v)) in
    subst₂ (λ x y. Keeps limit x y (read_streams (read_round c r) rs))
      (grown-append stdout r.stream out r.bytes (written stdout rs))
      (grown-append stderr r.stream errors r.bytes (written stderr rs)) rest

-- Whatever the two threads read and in whatever order: what is kept of a stream is the beginning of
-- what the guest wrote to it, both together are as long as the output limit allows and no longer, the
-- run counts as over its limit exactly if the guest wrote more, and the monitor is then woken once.
pub read_streams-budget :
    (output_bytes : ℕ) (rs : List Round)
    → IsPrefix (read_streams (not_started output_bytes) rs).stdout_bytes (written stdout rs)
      × IsPrefix (read_streams (not_started output_bytes) rs).stderr_bytes (written stderr rs)
      × (length (read_streams (not_started output_bytes) rs).stdout_bytes
            + length (read_streams (not_started output_bytes) rs).stderr_bytes
          ≡ min output_bytes (length (written stdout rs) + length (written stderr rs)))
      × ((read_streams (not_started output_bytes) rs).overflow
          ≡ ltb output_bytes (length (written stdout rs) + length (written stderr rs)))
      × ((read_streams (not_started output_bytes) rs).wakes
          ≡ (if (read_streams (not_started output_bytes) rs).overflow then 1 else 0))
read_streams-budget output_bytes rs =
    let c = read_streams (not_started output_bytes) rs in
    let v = Keeps-streams output_bytes [] [] (not_started output_bytes) rs (record {
      of_stdout = record { rest = []; split = refl; whole = inl refl };
      of_stderr = record { rest = []; split = refl; whole = inl refl };
      kept = omega arith;
      over = ground arith;
      woken = refl;
    }) in
    (
      (v.of_stdout.rest, v.of_stdout.split),
      (v.of_stderr.rest, v.of_stderr.split),
      kept_min (length c.stdout_bytes) (length v.of_stdout.rest) (length c.stderr_bytes)
            (length v.of_stderr.rest) c.remaining output_bytes v.of_stdout.whole v.of_stderr.whole
            v.kept
          ∙ ap (min output_bytes) (omega (arith, Part-length v.of_stdout, Part-length v.of_stderr)),
      v.over,
      v.woken,
    )
