-- ===== src/Protocol.antt =====
-- native/src/protocol.rs: requests, responses and their frames. serde_json is the record `Serde`
-- over its type of values.
pub mod Frame
pub mod Requests
use micro_sandbox.Prelude.{
  ℕ, Bool, true, false, not, Option, none, some, List, [], ◌∷◌, ◌++◌, ◌⊎◌, inl, inr, length, ltb,
  ◌==◌, String, if◌then◌else◌,
}
use micro_sandbox.Error.{
  Text, Message, lit, num, literal, SandboxError, protocol, json, ErrorBody, error_body, Result, ok,
  err, refuse_if, ◌>>=◌, ◌>>◌,
}
use micro_sandbox.Scheduler.{Capacity}
use micro_sandbox.Job.{LaunchSpec}

abbrev pub Bytes : Type 0
Bytes = List ℕ

abbrev pub protocol_version : ℕ
protocol_version = 1

abbrev pub max_frame_bytes : ℕ
max_frame_bytes = 1048576

pub record Request (V : Type 0) : Type 0 where
  pub version : ℕ
  pub id : ℕ
  pub kind : String
  pub payload : V

pub record Response (V : Type 0) : Type 0 where
  pub version : ℕ
  pub id : ℕ
  pub is_ok : Bool
  pub result : Option V
  pub error : Option ErrorBody

-- What the sources call of serde_json, at each type that they read or write. A failure carries the
-- error's own display.
pub record Serde (V : Type 0) : Type 0 where
  pub parse_request : Bytes → Message ⊎ Request V
  pub parse_value : Bytes → Message ⊎ V
  pub launch_spec : V → Message ⊎ LaunchSpec
  pub cancel_payload : V → Message ⊎ ℕ
  -- A launcher's failure on one line of its stderr: the code and the message.
  pub launcher_failure : Text → Option (String × Message)
  -- The results of `health` (process, active jobs, available capacity) and of `shutdown`.
  pub health : ℕ → ℕ → Capacity → V
  pub closed : V
  pub to_vec : Response V → Message ⊎ Bytes

module _ {V : Type 0} where
  unfoldable pub success : ℕ → V → Response V
  success id result = record {
    version = protocol_version;
    id = id;
    is_ok = true;
    result = some result;
    error = none;
  }

  unfoldable pub failure : ℕ → SandboxError → Response V
  failure id e = record {
    version = protocol_version;
    id = id;
    is_ok = false;
    result = none;
    error = some (error_body e);
  }

  parsed : Message ⊎ Request V → Result (Request V)
  parsed (inl m) = err (protocol m)
  parsed (inr r) =
      if r.version == protocol_version
      then ok r
      else err (protocol (lit "unsupported version " ∷ num r.version ∷ []))

  unfoldable pub decode_request : Serde V → Bytes → Result (Request V)
  unfolding parsed
  decode_request serde frame =
      if ltb max_frame_bytes (length frame)
      then err (protocol (literal "frame exceeds 1 MiB"))
      else parsed (serde.parse_request frame)

encoded : Message ⊎ Bytes → Result Bytes
encoded (inl m) = err (json m)
encoded (inr bytes) =
    if ltb max_frame_bytes (length bytes)
    then err (protocol (literal "response exceeds 1 MiB"))
    else ok (bytes ++ 10 ∷ [])

unfoldable pub encode_response : {V : Type 0} → Serde V → Response V → Result Bytes
unfolding encoded
encode_response serde r = encoded (serde.to_vec r)
