-- ===== src/Resources/RoundTrip.antt =====
-- What native/src/linux/cgroup.rs writes into a cgroup's files, native/src/resources.rs reads back.
use micro_sandbox.Prelude.{
  ℕ, ◌/◌, ◌<◌, ◌≤◌, ◌≡◌, refl, ap, ◌∙◌, true, false, none, some, List, [], ◌∷◌, ◌++◌, length, all,
  arith,
}
use micro_sandbox.Prelude.Words.{u64_max, saturating_mul_u64}
use micro_sandbox.Error.{Text, ok}
use micro_sandbox.Text.{
  codes, text_eq, trim, trim_start, trim_end, split_fields, split_whitespace, is_whitespace,
  decimal, is_ascii_digit, non_empty,
}
use micro_sandbox.Text.Decimal.{parse_unsigned-decimal, all-decimal, decimal-ne-nil}
use micro_sandbox.Resources.Parse.{parse_number, parse_limit, parse_cpu_max}

digit_stays : (c : ℕ) → is_ascii_digit c ≡ true → is_whitespace c ≡ false
unfolding is_whitespace
digit_stays c h = ground arith

trim_start-digit : (c : ℕ) (t : Text) → is_ascii_digit c ≡ true → trim_start (c ∷ t) ≡ c ∷ t
unfolding trim_start
trim_start-digit c t h = rw (digit_stays c h)

trim_end-line : (t : Text) → all is_ascii_digit t ≡ true → trim_end (t ++ 10 ∷ []) ≡ t
unfolding trim_end is_whitespace
trim_end-line [] h = refl
trim_end-line (c ∷ []) h = ground arith
trim_end-line (c ∷ d ∷ t) h = ground (arith, trim_end-line (d ∷ t))

trim-line : (t : Text) → 0 < length t → all is_ascii_digit t ≡ true → trim (t ++ 10 ∷ []) ≡ t
unfolding trim trim_start trim_end
trim-line [] p h = absurd (omega arith)
trim-line (c ∷ t) p h =
    let start : trim_start (c ∷ (t ++ 10 ∷ [])) ≡ c ∷ (t ++ 10 ∷ []) =
      trim_start-digit c _ (ground arith) in
    rw start (trim_end-line (c ∷ t) h)

not_max : (t : Text) → all is_ascii_digit t ≡ true → text_eq t (codes "max") ≡ false
not_max [] h = refl
not_max (c ∷ t) h = ground arith

-- A u64 that is written to a file as its decimal and a line feed is read back as that number.
pub parse_number-decimal : (n : ℕ) → n ≤ u64_max → parse_number (decimal n ++ 10 ∷ []) ≡ ok n
unfolding parse_number
parse_number-decimal n h =
    rw
      (trim-line (decimal n) (decimal-ne-nil n) (all-decimal n), parse_unsigned-decimal u64_max n h)

parse_limit-max : parse_limit (codes "max" ++ 10 ∷ []) ≡ ok none
unfolding parse_limit trim
parse_limit-max = refl

-- So is a limit, which is `max` for none.
pub parse_limit-decimal :
    (n : ℕ)
    → n ≤ u64_max
    → (parse_limit (decimal n ++ 10 ∷ []) ≡ ok (some n))
      × (parse_limit (codes "max" ++ 10 ∷ []) ≡ ok none)
unfolding parse_limit
parse_limit-decimal n h = (
  rw (
    trim-line (decimal n) (decimal-ne-nil n) (all-decimal n),
    not_max (decimal n) (all-decimal n),
    parse_unsigned-decimal u64_max n h,
  ),
  parse_limit-max,
)

split_fields-field :
    (sep : ℕ) (field rest : Text)
    → is_whitespace sep ≡ true
    → all is_ascii_digit field ≡ true
    → split_fields (field ++ sep ∷ rest) ≡ field ∷ split_fields rest
unfolding split_fields
split_fields-field sep [] rest s h = rw s
split_fields-field sep (c ∷ t) rest s h =
    rw (digit_stays c (ground arith), split_fields-field sep t rest s (ground arith))

non_empty-cons : (w : Text) (ws : List Text) → 0 < length w → non_empty (w ∷ ws) ≡ w ∷ non_empty ws
non_empty-cons [] ws h = absurd (omega arith)
non_empty-cons (c ∷ w) ws h = refl

two_fields :
    (w v : Text)
    → 0 < length w
    → 0 < length v
    → all is_ascii_digit w ≡ true
    → all is_ascii_digit v ≡ true
    → split_whitespace (w ++ 32 ∷ (v ++ 10 ∷ [])) ≡ w ∷ v ∷ []
unfolding split_whitespace split_fields
two_fields w v hw hv dw dv =
    ap non_empty (
      split_fields-field 32 w (v ++ 10 ∷ []) refl dw
      ∙ ap (◌∷◌ w) (split_fields-field 10 v [] refl dv))
    ∙ non_empty-cons w (v ∷ [] ∷ []) hw
    ∙ ap (◌∷◌ w) (non_empty-cons v ([] ∷ []) hv)

-- The line that a cgroup's `cpu.max` is given, quota and period, is read back as the quota in
-- thousandths of a CPU.
pub parse_cpu_max-decimal :
    (quota period : ℕ)
    → quota ≤ u64_max
    → period ≤ u64_max
    → 0 < period
    → parse_cpu_max (decimal quota ++ 32 ∷ (decimal period ++ 10 ∷ []))
      ≡ ok (some (saturating_mul_u64 quota 1000 / period))
unfolding parse_cpu_max
parse_cpu_max-decimal quota period hq hp pos =
    rw
      (
        two_fields (decimal quota) (decimal period) (decimal-ne-nil quota) (decimal-ne-nil period)
            (all-decimal quota) (all-decimal period),
        parse_unsigned-decimal u64_max period hp,
        not_max (decimal quota) (all-decimal quota),
        parse_unsigned-decimal u64_max quota hq,
      )
      (ground arith)
