-- ===== src/Error/Relay.antt =====
-- What the wire form keeps of an error.
use text.Mathlib.TextEquality.{eq_iff}
use micro_sandbox.Prelude.{
  String, ◌≡◌, ◌≢◌, refl, ap, ◌∙◌, ◌⊎◌, inl, inr, none, some, List, [], ◌∷◌, All, arith,
  Option-cases,
}
use micro_sandbox.Error.{
  Message, SandboxError, relayed, wire_codes, error_code, display, find_code, relay, from_wire,
  error_body,
}

-- A relayed error carries one of the known codes, as every error that `from_wire` builds does.
abbrev pub IsWire : SandboxError → Type 0
IsWire (relayed code _) = find_code code wire_codes ≡ some code
IsWire _ = Unit

find_code-error_code :
    (e : SandboxError) → IsWire e → find_code (error_code e) wire_codes ≡ some (error_code e)
unfolding error_code find_code
find_code-error_code (relayed c m) h = h
find_code-error_code _ h = refl

-- Every error's own code and text survive the wire: what the reader rebuilds has the code of the
-- error that was written and shows the same message.
pub relay_keeps :
    (e : SandboxError)
    → IsWire e
    → (r : SandboxError) × (from_wire (error_body e).code (error_body e).message ≡ some r)
      × (error_body r ≡ error_body e)
unfolding error_body from_wire
relay_keeps e h =
    (relayed (error_code e) (display e), ground (arith, find_code-error_code e h), refl)

find_code-eq : (c : String) (known : List String) (d : String) → find_code c known ≡ some d → d ≡ c
unfolding find_code
find_code-eq c [] d h = ground arith
find_code-eq c (k ∷ ks) d h = ground (arith, eq_iff k c, find_code-eq c ks d)

find_code-none :
    (c : String) (known : List String) → find_code c known ≡ none → All (λ k. k ≢ c) known
unfolding find_code
find_code-none c [] h = tt
find_code-none c (k ∷ ks) h = ground (arith, eq_iff k c, find_code-none c ks)

relay_cases :
    (c : String) (known : List String) (m : Message)
    → (All (λ k. k ≢ c) known × (relay (find_code c known) m ≡ none))
      ⊎ ((find_code c known ≡ some c) × (relay (find_code c known) m ≡ some (relayed c m)))
unfolding relay
relay_cases c known m = elim (Option-cases (find_code c known)) [
  | inl e ↦ inl (find_code-none c known e, rw e)
  | inr (d, e) ↦
      let same = find_code-eq c known d e in
      inr (e ∙ ap some same, rw e (ap (λ k. some (relayed k m)) same))
]

-- `from_wire` refuses a code exactly when it is none of the eight, and otherwise rebuilds an error
-- with that very code and message.
pub from_wire-cases :
    (c : String) (m : Message)
    → (All (λ k. k ≢ c) wire_codes × (from_wire c m ≡ none))
      ⊎ (IsWire (relayed c m) × (from_wire c m ≡ some (relayed c m)))
unfolding from_wire
from_wire-cases c m = relay_cases c wire_codes m
