-- ===== src/Protocol/Requests.antt =====
-- `read_requests` of native/src/supervisor.rs: the thread that turns the standard input into events.
use mathlib.Core.Path.{subst, ap₂}
use micro_sandbox.Prelude.{
  ℕ, zero, suc, ◌+◌, ◌≡◌, refl, sym, ◌∙◌, ap, Bool, true, false, Option, none, some, List, [], ◌∷◌,
  inl, inr, length, ltb, ◌==◌, if◌then◌else◌, arith, Bool-cases, All,
}
use micro_sandbox.Error.{literal, protocol, Result, ok, err, ◌>>=◌}
use micro_sandbox.Text.{split}
use micro_sandbox.Protocol.{Bytes, Request, Serde, decode_request, max_frame_bytes}
use micro_sandbox.Protocol.Frame.{
  Reader, reader, at_end, read_bounded_frame, flat, HasBytes, whole, before_newline, has_newline,
  after_newline,
}
use micro_sandbox.Protocol.Frame.Stream.{
  remaining, read_bounded_frame-whole, read_bounded_frame-remaining,
}

module _ {V : Type 0} (serde : Serde V) where
  abbrev pub Received : Type 0
  Received = Result (Option (Request V))

  -- `frame.map(|bytes| decode_request(&bytes)).transpose()`.
  abbrev pub decode_frame : Option Bytes → Received
  decode_frame none = ok none
  decode_frame (some bytes) = decode_request serde bytes >>= λ r. ok (some r)

  -- `matches!(result, Ok(None) | Err(_))`.
  abbrev pub done : Received → Bool
  done (err e) = true
  done (ok none) = true
  done (ok (some _)) = false

  -- The events of a receiver that takes as many and is gone then.
  unfoldable pub read_requests : ℕ → Reader → List Received
  read_requests zero r = []
  read_requests (suc n) r =
      let (frame, rest) = read_bounded_frame r in
      let event = frame >>= decode_frame in
      event ∷ elim (done event) [ true ↦ [] | false ↦ read_requests n rest ]

  -- The same over the lines of the input: a line is a request, the last one only if it is not
  -- empty, and the end of the input is an event too. The first error is the last event.
  abbrev bounded_line : Bytes → Result (Option Bytes)
  bounded_line line =
      if ltb max_frame_bytes (length line)
      then err (protocol (literal "frame exceeds 1 MiB"))
      else ok (some line)

  abbrev last_line : Bytes → Result (Option Bytes)
  last_line [] = ok none
  last_line (b ∷ t) = bounded_line (b ∷ t)

  unfoldable pub events_of : ℕ → List Bytes → List Received
  events_of zero lines = []
  events_of (suc n) [] = []
  events_of (suc n) (line ∷ []) =
      let event = last_line line >>= decode_frame in
      event ∷ elim (done event) [ true ↦ [] | false ↦ events_of n ([] ∷ []) ]
  events_of (suc n) (line ∷ next ∷ rest) =
      let event = bounded_line line >>= decode_frame in
      event ∷ elim (done event) [ true ↦ [] | false ↦ events_of n (next ∷ rest) ]

  abbrev sent : ℕ → Received → List Bytes → List Received
  sent n event lines = event ∷ elim (done event) [ true ↦ [] | false ↦ events_of n lines ]

  split_at_newline :
      (bytes : Bytes)
      → split 10 bytes ≡ (
          if has_newline bytes
          then before_newline bytes ∷ split 10 (after_newline bytes)
          else before_newline bytes ∷ [])
  unfolding split before_newline after_newline has_newline
  split_at_newline [] = refl
  split_at_newline (b ∷ t) = elim (Bool-cases (b == 10)) [
    | inl p ↦ rw p refl
    | inr p ↦ elim (Bool-cases (has_newline t)) [
      | inl q ↦ rw (p, split_at_newline t, q) refl
      | inr q ↦ rw (p, split_at_newline t, q) refl
    ]
  ]

  -- A list of lines is never empty.
  split_cons :
      (bytes : Bytes) → (line : Bytes) × (rest : List Bytes) × (split 10 bytes ≡ line ∷ rest)
  split_cons bytes = elim (Bool-cases (has_newline bytes)) [
    | inl q ↦
        (before_newline bytes, split 10 (after_newline bytes), split_at_newline bytes ∙ rw q refl)
    | inr q ↦ (before_newline bytes, [], split_at_newline bytes ∙ rw q refl)
  ]

  last_event :
      (n : ℕ) (line : Bytes)
      → events_of (suc n) (line ∷ []) ≡ sent n (last_line line >>= decode_frame) ([] ∷ [])
  unfolding events_of
  last_event n line = refl

  more_event :
      (n : ℕ) (line bytes : Bytes)
      → events_of (suc n) (line ∷ split 10 bytes)
        ≡ sent n (bounded_line line >>= decode_frame) (split 10 bytes)
  unfolding events_of
  more_event n line bytes =
      let (next, rest, eq) = split_cons bytes in
      subst (λ l. events_of (suc n) (line ∷ l) ≡ sent n (bounded_line line >>= decode_frame) l)
        (sym eq) refl

  whole_line :
      (bytes : Bytes)
      → has_newline bytes ≡ true
      → bounded_line (before_newline bytes) ≡ whole [] bytes
  whole_line bytes q =
      let size : 0 + length (before_newline bytes) ≡ length (before_newline bytes) = omega arith in
      rw (q, size) refl

  last_at_end :
      (line : Bytes)
      → last_line line ≡ (
          if ltb max_frame_bytes (0 + length line)
          then err (protocol (literal "frame exceeds 1 MiB"))
          else at_end line)
  last_at_end [] = refl
  last_at_end (b ∷ t) = let size : 0 + length (b ∷ t) ≡ length (b ∷ t) = omega arith in rw size refl

  whole_last :
      (bytes : Bytes)
      → has_newline bytes ≡ false
      → last_line (before_newline bytes) ≡ whole [] bytes
  whole_last bytes q = last_at_end (before_newline bytes) ∙ rw q refl

  events_step :
      (n : ℕ) (bytes : Bytes)
      → events_of (suc n) (split 10 bytes)
        ≡ sent n (whole [] bytes >>= decode_frame) (split 10 (remaining bytes))
  events_step n bytes = elim (Bool-cases (has_newline bytes)) [
    | inl q ↦
        ap (events_of (suc n)) (split_at_newline bytes ∙ rw q refl)
        ∙ more_event n (before_newline bytes) (after_newline bytes)
        ∙ ap₂ (λ w l. sent n (w >>= decode_frame) l) (whole_line bytes q) (rw q refl)
    | inr q ↦
        ap (events_of (suc n)) (split_at_newline bytes ∙ rw q refl)
        ∙ last_event n (before_newline bytes)
        ∙ ap₂ (λ w l. sent n (w >>= decode_frame) l) (whole_last bytes q)
            (rw q (unfold split in refl))
  ]

  sent_by :
      (n : ℕ) (frame : Result (Option Bytes)) (rest : Reader) (lines : List Bytes)
      → ((o : Option Bytes) → frame ≡ ok o → read_requests n rest ≡ events_of n lines)
      → ((frame >>= decode_frame)
          ∷ elim (done (frame >>= decode_frame)) [ true ↦ [] | false ↦ read_requests n rest ])
        ≡ sent n (frame >>= decode_frame) lines
  sent_by n (err e) rest lines later = refl
  sent_by n (ok o) rest lines later =
      ap (λ l. decode_frame o ∷ elim (done (decode_frame o)) [ true ↦ [] | false ↦ l ])
        (later o refl)

  later_lines :
      (n : ℕ) (cs : List Bytes) (o : Option Bytes)
      → All HasBytes cs
      → (read_bounded_frame (reader cs)).0 ≡ ok o
      → ((cs' : List Bytes)
          → All HasBytes cs'
          → read_requests n (reader cs') ≡ events_of n (split 10 (flat cs')))
      → read_requests n (read_bounded_frame (reader cs)).1
        ≡ events_of n (split 10 (remaining (flat cs)))
  later_lines n cs o h p ih =
      let (cs', h', left, bytes) = read_bounded_frame-remaining cs o h p in
      ap (read_requests n) left ∙ ih cs' h' ∙ ap (λ b. events_of n (split 10 b)) bytes

  -- However the standard input is cut into buffers, and however many events the receiver takes, the
  -- reading thread sends the events of the lines: one request for each line between two newlines,
  -- one for what is behind the last newline unless it is empty, and the end of the input. A line
  -- of more than 1 MiB or one that does not decode is an error, and nothing is sent behind an
  -- error or the end.
  pub read_requests-events_of :
      (n : ℕ) (cs : List Bytes)
      → All HasBytes cs
      → read_requests n (reader cs) ≡ events_of n (split 10 (flat cs))
  unfolding read_requests events_of
  read_requests-events_of zero cs h = refl
  read_requests-events_of (suc n) cs h =
      sent_by n (read_bounded_frame (reader cs)).0 (read_bounded_frame (reader cs)).1
        (split 10 (remaining (flat cs))) (λ o p. later_lines n cs o h p (read_requests-events_of n))
      ∙ ap (λ w. sent n (w >>= decode_frame) (split 10 (remaining (flat cs))))
          (read_bounded_frame-whole cs h)
      ∙ sym (events_step n (flat cs))
