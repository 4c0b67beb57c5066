-- ===== src/Protocol/Frame/Stream.antt =====
-- `read_bounded_frame` of native/src/supervisor.rs over the bytes of the stream alone: how they are
-- cut into buffers makes no difference.
use mathlib.Core.List.{append-nil, append_assoc}
use micro_sandbox.Prelude.{
  ◌+◌, ◌≤◌, ◌≡◌, refl, sym, ◌∙◌, Bool, true, false, Option, some, List, [], ◌∷◌, ◌++◌, inl, inr,
  length, length-append, ltb, if◌then◌else◌, arith, Bool-cases, All,
}
use micro_sandbox.Error.{literal, protocol, Result, ok, err}
use micro_sandbox.Protocol.{Bytes, max_frame_bytes}
use micro_sandbox.Protocol.Frame.{
  Reader, before_newline, has_newline, after_newline, at_end, put_back, read_frame,
  read_bounded_frame, flat, reader, HasBytes, whole,
}

before_newline-append :
    (c d : Bytes)
    → before_newline (c ++ d)
      ≡ (if has_newline c then before_newline c else before_newline c ++ before_newline d)
unfolding before_newline has_newline
before_newline-append [] d = refl
before_newline-append (b ∷ t) d = ground (arith, before_newline-append t d)

has_newline-append :
    (c d : Bytes) → has_newline (c ++ d) ≡ (if has_newline c then true else has_newline d)
unfolding has_newline
has_newline-append [] d = refl
has_newline-append (b ∷ t) d = ground (arith, has_newline-append t d)

after_newline-append :
    (c d : Bytes) → has_newline c ≡ true → after_newline (c ++ d) ≡ after_newline c ++ d
unfolding after_newline has_newline
after_newline-append [] d h = cc
after_newline-append (b ∷ t) d h = ground (arith, after_newline-append t d)

before_newline-none : (c : Bytes) → has_newline c ≡ false → before_newline c ≡ c
unfolding before_newline has_newline
before_newline-none [] h = refl
before_newline-none (b ∷ t) h = ground (arith, before_newline-none t)

whole-nil : (frame : Bytes) → length frame ≤ max_frame_bytes → at_end frame ≡ whole frame []
unfolding before_newline has_newline
whole-nil frame small = ground (arith, append-nil frame)

-- The line ends in the first buffer.
whole-found :
    (frame c d : Bytes)
    → has_newline c ≡ true
    → whole frame (c ++ d) ≡ (
        if ltb max_frame_bytes (length frame + length (before_newline c))
        then err (protocol (literal "frame exceeds 1 MiB"))
        else ok (some (frame ++ before_newline c)))
whole-found frame c d e = rw (before_newline-append c d, has_newline-append c d, e)

-- The line goes on behind the first buffer.
whole-more :
    (frame c d : Bytes)
    → has_newline c ≡ false
    → whole frame (c ++ d) ≡ (
        if ltb max_frame_bytes (length frame + length (before_newline c))
        then err (protocol (literal "frame exceeds 1 MiB"))
        else whole (frame ++ before_newline c) d)
whole-more frame c d e =
    rw
      (
        before_newline-append c d,
        has_newline-append c d,
        e,
        length-append (before_newline c) (before_newline d),
      )
      (rw length-append (ground (arith, append_assoc frame (before_newline c) (before_newline d))))

-- The answer is that over the bytes.
read_frame-whole :
    (frame : Bytes) (cs : List Bytes)
    → All HasBytes cs
    → length frame ≤ max_frame_bytes
    → (read_frame frame (reader cs)).0 ≡ whole frame (flat cs)
unfolding read_frame
read_frame-whole frame [] h small = whole-nil frame small
read_frame-whole frame ([] ∷ cs) h small = absurd (omega arith)
read_frame-whole frame ((b ∷ t) ∷ cs) h small = elim (Bool-cases (has_newline (b ∷ t))) [
  | inl e ↦ rw (whole-found frame (b ∷ t) (flat cs) e, e) (ground arith)
  | inr e ↦
      rw (whole-more frame (b ∷ t) (flat cs) e, e)
        (ground (
          arith,
          length-append frame (before_newline (b ∷ t)),
          read_frame-whole (frame ++ before_newline (b ∷ t)) cs,
        ))
]

-- What is left of the stream behind the line.
abbrev pub remaining : Bytes → Bytes
remaining bytes = if has_newline bytes then after_newline bytes else []

abbrev buffers : Bytes → List Bytes → List Bytes
buffers [] cs = cs
buffers (b ∷ t) cs = (b ∷ t) ∷ cs

buffers_lem :
    (c : Bytes) (cs : List Bytes)
    → All HasBytes cs
    → All HasBytes (buffers c cs)
      × (put_back c (reader cs) ≡ reader (buffers c cs))
      × (flat (buffers c cs) ≡ c ++ flat cs)
buffers_lem [] cs h = (h, refl, refl)
buffers_lem (b ∷ t) cs h = ((omega arith, h), refl, refl)

remaining-found : (c d : Bytes) → has_newline c ≡ true → remaining (c ++ d) ≡ after_newline c ++ d
remaining-found c d e = rw (has_newline-append c d, after_newline-append c d e, e)

remaining-more : (c d : Bytes) → has_newline c ≡ false → remaining (c ++ d) ≡ remaining d
unfolding after_newline has_newline
remaining-more [] d e = refl
remaining-more (b ∷ t) d e = ground (arith, remaining-more t d)

-- Unless it fails, a call leaves a reader of buffers that hold what is behind the line.
abbrev Leaves : Result (Option Bytes) × Reader → Bytes → Type 0
Leaves r bytes =
    (o : Option Bytes)
    → r.0 ≡ ok o
    → (cs : List Bytes) × All HasBytes cs × (r.1 ≡ reader cs) × (flat cs ≡ bytes)

Leaves-round :
    (over found : Bool) (e : Result (Option Bytes) × Reader) (frame left : Bytes) (cs : List Bytes)
    (more : Result (Option Bytes) × Reader) (bytes : Bytes)
    → Leaves e bytes
    → (found ≡ true → bytes ≡ left ++ flat cs)
    → (found ≡ false → Leaves more bytes)
    → All HasBytes cs
    → Leaves
        (if over then e else if found then (ok (some frame), put_back left (reader cs)) else more)
        bytes
Leaves-round true found e frame left cs more bytes he hf hm h = he
Leaves-round false true e frame left cs more bytes he hf hm h =
    λ o p. let (a, b, c) = buffers_lem left cs h in (buffers left cs, a, b, c ∙ sym (hf refl))
Leaves-round false false e frame left cs more bytes he hf hm h = hm refl

read_frame-Leaves :
    (frame : Bytes) (cs : List Bytes)
    → All HasBytes cs
    → Leaves (read_frame frame (reader cs)) (remaining (flat cs))
unfolding read_frame
read_frame-Leaves frame [] h = λ o p. ([], tt, refl, unfold has_newline in refl)
read_frame-Leaves frame ([] ∷ cs) h = absurd (omega arith)
read_frame-Leaves frame ((b ∷ t) ∷ cs) h =
    Leaves-round (ltb max_frame_bytes (length frame + length (before_newline (b ∷ t))))
      (has_newline (b ∷ t))
      (err (protocol (literal "frame exceeds 1 MiB")), inr (b ∷ t) ∷ reader cs)
      (frame ++ before_newline (b ∷ t)) (after_newline (b ∷ t)) cs
      (read_frame (frame ++ before_newline (b ∷ t)) (reader cs)) (remaining ((b ∷ t) ++ flat cs))
      (λ o p. cc) (λ e. remaining-found (b ∷ t) (flat cs) e)
      (λ e.
        rw (remaining-more (b ∷ t) (flat cs) e)
          (read_frame-Leaves (frame ++ before_newline (b ∷ t)) cs h.1))
      h.1

-- However the stream is cut into buffers, `read_bounded_frame` answers by its bytes alone: the bytes
-- before the first newline, or all of them at the end of the stream, none if there are none, and a
-- protocol error if they are more than 1 MiB.
pub read_bounded_frame-whole :
    (cs : List Bytes) → All HasBytes cs → (read_bounded_frame (reader cs)).0 ≡ whole [] (flat cs)
unfolding read_bounded_frame
read_bounded_frame-whole cs h = read_frame-whole [] cs h (omega arith)

-- A call that does not fail leaves a stream of exactly the bytes behind that newline, so the next
-- call reads the next line, and nothing is lost between two buffers.
pub read_bounded_frame-remaining :
    (cs : List Bytes) (o : Option Bytes)
    → All HasBytes cs
    → (read_bounded_frame (reader cs)).0 ≡ ok o
    → (cs' : List Bytes) × All HasBytes cs'
      × ((read_bounded_frame (reader cs)).1 ≡ reader cs')
      × (flat cs' ≡ remaining (flat cs))
unfolding read_bounded_frame
read_bounded_frame-remaining cs o h p = read_frame-Leaves [] cs h o p
