-- ===== src/Error.antt =====
-- native/src/error.rs: the error type of every module, its wire codes and its wire form.
-- A formatted message is kept as its parts, before they are rendered: `quoted` is `{:?}` of a
-- string, `plain` is `{}` of one, `num` is `{}` of an integer.
pub mod Relay
use text.Mathlib.Text.{◌==◌}
use micro_sandbox.Prelude.{
  ℕ, String, ◌≡◌, refl, ◌⊎◌, inl, inr, Bool, true, false, Option, none, some, List, [], ◌∷◌,
  if◌then◌else◌,
}

-- A Rust string, as its code points.
abbrev pub Text : Type 0
Text = List ℕ

pub data Part : Type 0 where
  lit : String → Part
  plain : Text → Part
  quoted : Text → Part
  num : ℕ → Part

abbrev pub Message : Type 0
Message = List Part

abbrev pub literal : String → Message
literal s = lit s ∷ []

-- What the source reads of a `std::io::Error`: its kind, where it tests one, and its errno.
pub data IoKind : Type 0 where
  not_found already_exists broken_pipe interrupted other_kind : IoKind

pub record IoError : Type 0 where
  pub kind : IoKind
  pub raw_os_error : Option ℕ
  pub display : Message

pub data SandboxError : Type 0 where
  protocol : Message → SandboxError
  invalid_cgroup_value : Message → SandboxError
  capacity_exceeded : SandboxError
  cancelled : SandboxError
  policy_violation : Message → SandboxError
  cgroup_unavailable : Message → SandboxError
  security : Message → SandboxError
  io : IoError → SandboxError
  json : Message → SandboxError
  relayed : String → Message → SandboxError

abbrev pub wire_codes : List String
wire_codes =
    "PROTOCOL_ERROR" ∷ "CGROUP_ERROR" ∷ "CAPACITY_EXCEEDED" ∷ "CANCELLED" ∷ "POLICY_VIOLATION"
    ∷ "CGROUP_DELEGATION_REQUIRED" ∷ "ISOLATION_UNAVAILABLE" ∷ "INTERNAL_ERROR" ∷ []

unfoldable pub error_code : SandboxError → String
error_code (protocol _) = "PROTOCOL_ERROR"
error_code (invalid_cgroup_value _) = "CGROUP_ERROR"
error_code capacity_exceeded = "CAPACITY_EXCEEDED"
error_code cancelled = "CANCELLED"
error_code (policy_violation _) = "POLICY_VIOLATION"
error_code (cgroup_unavailable _) = "CGROUP_DELEGATION_REQUIRED"
error_code (security _) = "ISOLATION_UNAVAILABLE"
error_code (io _) = "INTERNAL_ERROR"
error_code (json _) = "INTERNAL_ERROR"
error_code (relayed code _) = code

-- The `#[error(...)]` attributes.
unfoldable pub display : SandboxError → Message
display (protocol m) = lit "protocol error: " ∷ m
display (invalid_cgroup_value m) = lit "invalid cgroup value: " ∷ m
display capacity_exceeded = literal "sandbox capacity is exhausted"
display cancelled = literal "sandbox request was cancelled"
display (policy_violation m) = lit "policy violation: " ∷ m
display (cgroup_unavailable m) = lit "cgroup v2 isolation is unavailable: " ∷ m
display (security m) = lit "security control failed: " ∷ m
display (io e) = lit "I/O error: " ∷ e.display
display (json m) = lit "JSON error: " ∷ m
display (relayed _ m) = m

-- `iter().find(|known| known == code)`.
unfoldable pub find_code : String → List String → Option String
find_code code [] = none
find_code code (known ∷ rest) = if known == code then some known else find_code code rest

-- The known code itself, a `&'static str`, is what the rebuilt error carries.
relay : Option String → Message → Option SandboxError
relay none message = none
relay (some known) message = some (relayed known message)

unfoldable pub from_wire : String → Message → Option SandboxError
unfolding find_code relay
from_wire code message = relay (find_code code wire_codes) message

pub record ErrorBody : Type 0 where
  pub code : String
  pub message : Message

-- `impl From<&SandboxError> for ErrorBody`.
unfoldable pub error_body : SandboxError → ErrorBody
unfolding error_code display
error_body e = record { code = error_code e; message = display e }

-- A result whose error is a `SandboxError`, and `?` on it.
pub data Result {ℓ} (Value : Type ℓ) : Type ℓ where
  err : SandboxError → Result Value
  ok : Value → Result Value

infixl 5 ◌>>=◌ ◌>>◌
abbrev pub ◌>>=◌ {ℓ κ} :
    {Value : Type ℓ} {Next : Type κ} → Result Value → (Value → Result Next) → Result Next
err failure >>= next = err failure
ok value >>= next = next value

abbrev pub ◌>>◌ {ℓ} : {Next : Type ℓ} → Result (Unit {0}) → Result Next → Result Next
done >> next = done >>= λ _. next

-- `if refused { return Err(e); }`.
abbrev pub refuse_if : Bool → SandboxError → Result (Unit {0})
refuse_if true e = err e
refuse_if false e = ok tt

-- `ok_or`.
abbrev pub ok_or {ℓ} : {A : Type ℓ} → Option A → SandboxError → Result A
ok_or none e = err e
ok_or (some a) e = ok a

-- To split on a computed result and keep the equation.
pub Result-cases {ℓ} :
    {A : Type ℓ} (r : Result A) → ((e : SandboxError) × (r ≡ err e)) ⊎ ((a : A) × (r ≡ ok a))
Result-cases (err e) = inl (e, refl)
Result-cases (ok a) = inr (a, refl)

pub refuse_if-ok : (b : Bool) (e : SandboxError) → refuse_if b e ≡ ok tt → b ≡ false
refuse_if-ok true e h = cc
refuse_if-ok false e h = refl

pub ok_injective {ℓ} : {Value : Type ℓ} {a b : Value} → ok a ≡ ok b → a ≡ b
ok_injective h = cc

-- A chain that succeeds has succeeded at its first step, and behind it.
pub >>=-eq-ok {ℓ κ} :
    {Value : Type ℓ} {Next : Type κ} (first : Result Value) (next : Value → Result Next)
    {result : Next}
    → (first >>= next) ≡ ok result
    → (value : Value) × (first ≡ ok value) × (next value ≡ ok result)
>>=-eq-ok (err failure) next h = cc
>>=-eq-ok (ok value) next h = (value, refl, h)
