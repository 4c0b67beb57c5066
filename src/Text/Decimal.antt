-- ===== src/Text/Decimal.antt =====
-- `to_string` and `parse` on unsigned integers: the round trip, and what a decimal looks like.
use native.Mathlib.Nat.{pow-suc}
use micro_sandbox.Prelude.{
  ℕ, zero, suc, ◌+◌, ◌-◌, ◌*◌, ◌/◌, ◌%◌, ◌^◌, ◌≤◌, ◌<◌, ◌≡◌, refl, ◌∙◌, true, inl, inr, some, [],
  ◌∷◌, length, all, ltb, ltb→lt, lt→ltb, Bool-cases, arith,
}
use micro_sandbox.Error.{Text}
use micro_sandbox.Text.{is_ascii_digit, parse_digits, parse_unsigned, print_digits, decimal}

parse_digits-step :
    (max_value n : ℕ) (after : Text)
    → n ≤ max_value
    → parse_digits max_value (n / 10) ((48 + n % 10) ∷ after) ≡ parse_digits max_value n after
unfolding parse_digits
parse_digits-step m n after le =
    let value : n / 10 * 10 + (48 + n % 10 - 48) ≡ n = omega arith in rw value (ground arith)

parse_digits-small :
    (max_value n : ℕ) (after : Text)
    → n ≤ max_value
    → n < 10
    → parse_digits max_value 0 ((48 + n % 10) ∷ after) ≡ parse_digits max_value n after
unfolding parse_digits
parse_digits-small m n after le small =
    let value : 0 * 10 + (48 + n % 10 - 48) ≡ n = omega arith in rw value (ground arith)

shorter : (k n : ℕ) → n < 10 ^ suc (suc k) → n / 10 < 10 ^ suc k
shorter k n h = omega (arith, rw (pow-suc 10 (suc k)) at h)

-- Reading back what was printed before `after` goes on behind it, with the number read.
parse_digits-print_digits :
    (max_value fuel n : ℕ) (after : Text)
    → n < fuel
    → n ≤ max_value
    → parse_digits max_value 0 (print_digits fuel n after) ≡ parse_digits max_value n after
unfolding print_digits
parse_digits-print_digits m zero n after h le = absurd (omega arith)
parse_digits-print_digits m (suc f) n after h le = elim (Bool-cases (ltb n 10)) [
  | inl small ↦ rw (small, print_digits) (parse_digits-small m n after le (ltb→lt n 10 small))
  | inr large ↦
      rw (large, print_digits)
        (parse_digits-print_digits m f (n / 10) _ (ground arith) (ground arith)
          ∙ parse_digits-step m n after le)
]

pub all-print_digits :
    (fuel n : ℕ) (after : Text)
    → all is_ascii_digit after ≡ true
    → all is_ascii_digit (print_digits fuel n after) ≡ true
unfolding print_digits
all-print_digits zero n after h = h
all-print_digits (suc f) n after h = elim (Bool-cases (ltb n 10)) [
  | inl small ↦ rw (small, print_digits) (ground arith)
  | inr large ↦
      rw (large, print_digits) (all-print_digits f (n / 10) ((48 + n % 10) ∷ after) (ground arith))
]

length-print_digits_ge :
    (fuel n : ℕ) (after : Text) → length after ≤ length (print_digits fuel n after)
unfolding print_digits
length-print_digits_ge zero n after = omega arith
length-print_digits_ge (suc f) n after = elim (Bool-cases (ltb n 10)) [
  | inl small ↦ rw (small, print_digits) (omega arith)
  | inr large ↦
      rw (large, print_digits)
        (omega (arith, length-print_digits_ge f (n / 10) ((48 + n % 10) ∷ after)))
]

length-print_digits_le :
    (k fuel n : ℕ) (after : Text)
    → n < 10 ^ suc k
    → length (print_digits fuel n after) ≤ suc k + length after
unfolding print_digits
length-print_digits_le k zero n after h = omega arith
length-print_digits_le zero (suc f) n after h = rw (lt→ltb n 10 h, print_digits) (omega arith)
length-print_digits_le (suc k) (suc f) n after h = elim (Bool-cases (ltb n 10)) [
  | inl small ↦ rw (small, print_digits) (omega arith)
  | inr large ↦
      rw (large, print_digits)
        (omega (arith, length-print_digits_le k f (n / 10) ((48 + n % 10) ∷ after) (shorter k n h)))
]

pub decimal-ne-nil : (n : ℕ) → 0 < length (decimal n)
unfolding decimal
decimal-ne-nil n = elim (Bool-cases (ltb n 10)) [
  | inl small ↦ rw (small, print_digits) (omega arith)
  | inr large ↦
      rw (large, print_digits)
        (omega (arith, length-print_digits_ge n (n / 10) ((48 + n % 10) ∷ [])))
]

pub all-decimal : (n : ℕ) → all is_ascii_digit (decimal n) ≡ true
unfolding decimal
all-decimal n = all-print_digits (suc n) n [] refl

-- A number below 10 to the power of k has at most k digits.
pub length-decimal_le : (k n : ℕ) → n < 10 ^ suc k → length (decimal n) ≤ suc k
unfolding decimal
length-decimal_le k n h = omega (arith, length-print_digits_le k (suc n) n [] h)

parse_unsigned-digits :
    (max_value : ℕ) (t : Text)
    → 0 < length t
    → all is_ascii_digit t ≡ true
    → parse_unsigned max_value t ≡ parse_digits max_value 0 t
unfolding parse_unsigned
parse_unsigned-digits m [] h d = absurd (omega arith)
parse_unsigned-digits m (c ∷ []) h d = refl
parse_unsigned-digits m (c ∷ e ∷ t) h d = ground arith

-- What `to_string` prints, `parse` reads back, for every integer that the type holds.
pub parse_unsigned-decimal :
    (max_value n : ℕ) → n ≤ max_value → parse_unsigned max_value (decimal n) ≡ some n
parse_unsigned-decimal m n h =
    parse_unsigned-digits m (decimal n) (decimal-ne-nil n) (all-decimal n) ∙ parsed
  where
    parsed : parse_digits m 0 (decimal n) ≡ some n
    parsed = unfold decimal parse_digits in parse_digits-print_digits m (suc n) n [] (omega arith) h
