-- ===== src/Prelude/Words.antt =====
-- Rust's u64: the checked and saturating operations of the standard library, over numbers below
-- 2^64. A subtraction that saturates at zero is `-` on ℕ.
use Prim.Native.Nat.{ℕ, ◌+◌, ◌*◌, min}
use mathlib.Core.Option.{Option, none, some}
use micro_sandbox.Prelude.Tests.{leb, if◌then◌else◌}

-- `u64::MAX`, 2^64 - 1.
abbrev pub u64_max : ℕ
u64_max = 18446744073709551615

abbrev pub checked_add_u64 : ℕ → ℕ → Option ℕ
checked_add_u64 a b = if leb (a + b) u64_max then some (a + b) else none

abbrev pub checked_mul_u64 : ℕ → ℕ → Option ℕ
checked_mul_u64 a b = if leb (a * b) u64_max then some (a * b) else none

abbrev pub saturating_add_u64 : ℕ → ℕ → ℕ
saturating_add_u64 a b = min (a + b) u64_max

abbrev pub saturating_mul_u64 : ℕ → ℕ → ℕ
saturating_mul_u64 a b = min (a * b) u64_max

infixl 5 ◌>>=◌
-- Rust's `?` on an `Option`.
abbrev pub ◌>>=◌ {ℓ κ} : {A : Type ℓ} {B : Type κ} → Option A → (A → Option B) → Option B
none >>= f = none
some a >>= f = f a

-- `Option::and_then`, where another `◌>>=◌` is in scope.
abbrev pub and_then {ℓ κ} : {A : Type ℓ} {B : Type κ} → Option A → (A → Option B) → Option B
and_then m f = m >>= f
