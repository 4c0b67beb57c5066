-- ===== src/Tests/Protocol.antt =====
-- Frames of native/src/protocol.rs and native/src/supervisor.rs.
use micro_sandbox.Prelude.{◌≡◌, ℕ, inr, refl, some, List, [], ◌∷◌, arith}
use micro_sandbox.Error.{ok}
use micro_sandbox.Protocol.{Bytes, Serde}
use micro_sandbox.Protocol.Frame.{reader, read_bounded_frame, flat}
use micro_sandbox.Protocol.Requests.{read_requests, events_of, read_requests-events_of}
use micro_sandbox.Text.{codes, split}
use micro_sandbox.Tests.Supervisor.{serde}

-- Two lines, cut into three buffers.
abbrev stream : List Bytes
stream = codes "{1" ∷ codes "}\n{2" ∷ codes "}\n" ∷ []

first_line : (read_bounded_frame (reader stream)).0 ≡ ok (some (codes "{1}"))
unfolding read_bounded_frame
first_line = refl

-- Every line is a cancellation.
abbrev lenient : Serde ℕ
lenient = record serde {
  parse_request = λ b. inr (record { version = 1; id = 7; kind = "cancel"; payload = 0 });
}

read_requests-events_of_example :
    read_requests lenient 3 (reader stream) ≡ events_of lenient 3 (split 10 (flat stream))
read_requests-events_of_example = read_requests-events_of lenient 3 stream (omega arith)
