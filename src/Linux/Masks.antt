-- ===== src/Linux/Masks.antt =====
-- `capability_masks` of native/src/linux/capabilities.rs: the masks that the kernel reports.
use micro_sandbox.Prelude.{
  ℕ, ◌+◌, ◌-◌, ◌*◌, String, Bool, not, ◌&&◌, Option, none, some, List, [], ◌∷◌, leb, ◌==◌,
  if◌then◌else◌,
}
use micro_sandbox.Prelude.Words.{u64_max, and_then}
use micro_sandbox.Error.{Text, Message, security, lit, num, Result, ok, ok_or, refuse_if, ◌>>=◌}
use micro_sandbox.Text.{codes, lines, strip_prefix}
use micro_sandbox.Host.{FilePath, from_io}
use micro_sandbox.Linux.{Call, Kernel}

pub record CapabilityMasks : Type 0 where
  pub inheritable : ℕ
  pub permitted : ℕ
  pub effective : ℕ
  pub bounding : ℕ
  pub ambient : ℕ

-- `CapabilityMasks::default()`.
abbrev pub no_capabilities : CapabilityMasks
no_capabilities = record {
  inheritable = 0;
  permitted = 0;
  effective = 0;
  bounding = 0;
  ambient = 0;
}

abbrev pub masks_eq : CapabilityMasks → CapabilityMasks → Bool
masks_eq a b =
    a.inheritable == b.inheritable
    && (a.permitted == b.permitted
        && (a.effective == b.effective && (a.bounding == b.bounding && a.ambient == b.ambient)))

abbrev shown_masks : CapabilityMasks → Message
shown_masks m =
    lit "CapabilityMasks { inheritable: "
    ∷ num m.inheritable
    ∷ lit ", permitted: "
    ∷ num m.permitted
    ∷ lit ", effective: "
    ∷ num m.effective
    ∷ lit ", bounding: "
    ∷ num m.bounding
    ∷ lit ", ambient: "
    ∷ num m.ambient
    ∷ lit " }"
    ∷ []

abbrev pub hex_digit : ℕ → Option ℕ
hex_digit c =
    if leb 48 c && leb c 57
    then some (c - 48)
    else if leb 97 c && leb c 102
    then some (c - 87)
    else if leb 65 c && leb c 70
    then some (c - 55)
    else none

-- `u64::from_str_radix(_, 16)`: one `+` may stand in front, and there is a digit at least.
unfoldable pub parse_hex_digits : ℕ → Text → Option ℕ
parse_hex_digits acc [] = some acc
parse_hex_digits acc (c ∷ t) = and_then (hex_digit c) λ digit.
    (let acc' = acc * 16 + digit in if leb acc' u64_max then parse_hex_digits acc' t else none)

unfoldable pub parse_hex : Text → Option ℕ
unfolding parse_hex_digits
parse_hex [] = none
parse_hex (c ∷ []) = parse_hex_digits 0 (c ∷ [])
parse_hex (c ∷ d ∷ t) =
    if c == b'+' then parse_hex_digits 0 (d ∷ t) else parse_hex_digits 0 (c ∷ d ∷ t)

abbrev field_of : String → Text → Option Text
field_of name line = and_then (strip_prefix (codes name) line) (strip_prefix (codes ":\t"))

-- `find_map`.
unfoldable pub find_field : String → List Text → Option Text
unfolding strip_prefix
find_field name [] = none
find_field name (line ∷ rest) = elim (field_of name line) [
  | none ↦ find_field name rest
  | some value ↦ some value
]

unfoldable pub parse_mask : Text → String → Result ℕ
unfolding find_field parse_hex
parse_mask status name =
    ok_or (and_then (find_field name (lines status)) parse_hex)
      (security (lit "cannot read " ∷ lit name ∷ []))

abbrev status_path : FilePath
status_path = codes "status" ∷ codes "self" ∷ codes "proc" ∷ []

module _ (k : Kernel) where
  unfoldable pub capability_masks : List Call → Result CapabilityMasks
  unfolding parse_mask
  capability_masks log = do
    status ← from_io (k.read_to_string log status_path)
    inheritable ← parse_mask status "CapInh"
    permitted ← parse_mask status "CapPrm"
    effective ← parse_mask status "CapEff"
    bounding ← parse_mask status "CapBnd"
    ambient ← parse_mask status "CapAmb"
    ok (record {
      inheritable = inheritable;
      permitted = permitted;
      effective = effective;
      bounding = bounding;
      ambient = ambient;
    })

  -- The end of `drop_all`: what is read back is compared with the empty masks.
  unfoldable pub check_masks : List Call → Result (Unit {0})
  unfolding capability_masks
  check_masks log = do
    masks ← capability_masks log
    refuse_if (not (masks_eq masks no_capabilities))
        (security (lit "capability masks remain set: " ∷ shown_masks masks))
