-- ===== src/Protocol/Frame.antt =====
-- `read_bounded_frame` of native/src/supervisor.rs. The reader is the list of what its buffer will
-- hold each time that it is filled; an empty buffer, or no more, is the end of the stream.
pub mod Stream
use micro_sandbox.Prelude.{
  ℕ, ◌+◌, ◌≤◌, Bool, true, false, Option, none, some, List, [], ◌∷◌, ◌++◌, inl, inr, length, ltb,
  ◌==◌, if◌then◌else◌,
}
use micro_sandbox.Error.{literal, protocol, io, Result, ok, err}
use micro_sandbox.Host.{IoResult}
use micro_sandbox.Protocol.{Bytes, max_frame_bytes}

abbrev pub Reader : Type 0
Reader = List (IoResult Bytes)

abbrev newline : ℕ
newline = 10

-- `available[..take]`: up to the first newline, or all.
unfoldable pub before_newline : Bytes → Bytes
before_newline [] = []
before_newline (b ∷ t) = if b == newline then [] else b ∷ before_newline t

unfoldable pub has_newline : Bytes → Bool
has_newline [] = false
has_newline (b ∷ t) = if b == newline then true else has_newline t

-- What `consume` leaves of the buffer where there is a newline.
unfoldable pub after_newline : Bytes → Bytes
after_newline [] = []
after_newline (b ∷ t) = if b == newline then t else after_newline t

abbrev pub at_end : Bytes → Result (Option Bytes)
at_end [] = ok none
at_end (b ∷ t) = ok (some (b ∷ t))

-- A buffer that is used up is filled again by the next call.
abbrev put_back : Bytes → Reader → Reader
put_back [] rest = rest
put_back (b ∷ t) rest = inr (b ∷ t) ∷ rest

unfoldable pub read_frame : Bytes → Reader → Result (Option Bytes) × Reader
read_frame frame [] = (at_end frame, [])
read_frame frame (inl e ∷ rest) = (err (io e), rest)
read_frame frame (inr [] ∷ rest) = (at_end frame, rest)
read_frame frame (inr (b ∷ t) ∷ rest) =
    let taken = before_newline (b ∷ t) in
    let more = read_frame (frame ++ taken) rest in
    if ltb max_frame_bytes (length frame + length taken)
    then (err (protocol (literal "frame exceeds 1 MiB")), inr (b ∷ t) ∷ rest)
    else if has_newline (b ∷ t)
    then (ok (some (frame ++ taken)), put_back (after_newline (b ∷ t)) rest)
    else more

unfoldable pub read_bounded_frame : Reader → Result (Option Bytes) × Reader
unfolding read_frame before_newline has_newline after_newline
read_bounded_frame reader = read_frame [] reader

-- The bytes that the buffers hold, end to end.
abbrev pub flat : List Bytes → Bytes
flat [] = []
flat (c ∷ cs) = c ++ flat cs

-- A reader that fails nowhere: its buffers, none of which is empty, and then the end.
abbrev pub reader : List Bytes → Reader
reader [] = []
reader (c ∷ cs) = inr c ∷ reader cs

abbrev pub HasBytes : Bytes → Type 0
HasBytes c = 1 ≤ length c

-- The same over the bytes alone: what has been read, then the line in front of `bytes`.
abbrev pub whole : Bytes → Bytes → Result (Option Bytes)
whole frame bytes =
    if ltb max_frame_bytes (length frame + length (before_newline bytes))
    then err (protocol (literal "frame exceeds 1 MiB"))
    else if has_newline bytes
    then ok (some (frame ++ before_newline bytes))
    else at_end (frame ++ before_newline bytes)
