-- ===== src/Prelude/Bits.antt =====
-- `bit_and` with a mask of sixteen ones, from the digit recursion that the native operation stands
-- for.
use Prim.Native.Nat.{ℕ, zero, suc, ◌+◌, ◌*◌, ◌/◌, ◌%◌, ◌≤◌, min, bit_and, digits, bit_and-bitwise}
use mathlib.Core.Path.{◌≡◌, refl}
use native.Mathlib.Nat.{le_refl}
use native.Mathlib.Omega.{arith}

-- The digit recursion with enough fuel does not depend on the fuel.
digit_fuel :
    (f g x y : ℕ) → x ≤ f → x ≤ g → digits (λ _. zero) min f x y ≡ digits (λ _. zero) min g x y
digit_fuel zero zero x y p q = refl
digit_fuel zero (suc g) zero y p q = refl
digit_fuel zero (suc g) (suc x) y p q = absurd (omega arith)
digit_fuel (suc f) zero zero y p q = refl
digit_fuel (suc f) zero (suc x) y p q = absurd (omega arith)
digit_fuel (suc f) (suc g) zero y p q = refl
digit_fuel (suc f) (suc g) (suc x) y p q =
    omega (arith, digit_fuel f g (suc x / 2) (y / 2) (omega arith) (omega arith))

-- The last binary digit, and the digits before it.
last_digit : (x y : ℕ) → bit_and x y ≡ bit_and (x / 2) (y / 2) * 2 + min (x % 2) (y % 2)
last_digit zero y = omega (arith, bit_and-bitwise 0 y, bit_and-bitwise 0 (y / 2))
last_digit (suc x) y = omega (
  arith,
  bit_and-bitwise (suc x) y,
  bit_and-bitwise (suc x / 2) (y / 2),
  digit_fuel x (suc x / 2) (suc x / 2) (y / 2) (omega arith) (omega arith),
)

-- Where the mask ends in a one, the digit stays.
kept_digit : (x m : ℕ) → bit_and x (m * 2 + 1) ≡ bit_and (x / 2) m * 2 + x % 2
kept_digit x m =
    let half : (m * 2 + 1) / 2 ≡ m = omega arith in
    omega (arith, rw half at (last_digit x (m * 2 + 1)))

kept_two : (x m : ℕ) → bit_and x (m * 4 + 3) ≡ bit_and (x / 4) m * 4 + x % 4
kept_two x m =
    let mask : m * 4 + 3 ≡ (m * 2 + 1) * 2 + 1 = omega arith in
    let quarter : x / 2 / 2 ≡ x / 4 = omega arith in
    rw mask (omega (arith, kept_digit x (m * 2 + 1), rw quarter at (kept_digit (x / 2) m)))

kept_four : (x m : ℕ) → bit_and x (m * 16 + 15) ≡ bit_and (x / 16) m * 16 + x % 16
kept_four x m =
    let mask : m * 16 + 15 ≡ (m * 4 + 3) * 4 + 3 = omega arith in
    let part : x / 4 / 4 ≡ x / 16 = omega arith in
    rw mask (omega (arith, kept_two x (m * 4 + 3), rw part at (kept_two (x / 4) m)))

none_kept_fuel : (f x : ℕ) → x ≤ f → bit_and x 0 ≡ 0
none_kept_fuel f zero h = refl
none_kept_fuel zero (suc x) h = absurd (omega arith)
none_kept_fuel (suc f) (suc x) h =
    omega (arith, last_digit (suc x) 0, none_kept_fuel f (suc x / 2) (omega arith))

-- `x & 0xffff`.
pub bit_and-ones16 : (x : ℕ) → bit_and x 65535 ≡ x % 65536
bit_and-ones16 x = omega (
  arith,
  kept_four x 4095,
  kept_four (x / 16) 255,
  kept_four (x / 16 / 16) 15,
  kept_four (x / 16 / 16 / 16) 0,
  none_kept_fuel _ (x / 16 / 16 / 16 / 16) (le_refl _),
)
