-- ===== src/Base/Int.antt =====
-- Signed integers over the native numbers, the 32-bit `int`, and its printed form.
use Prim.Native.Nat.{ℕ, zero, suc, ◌+◌, ◌-◌, ◌*◌, ◌%◌, ◌<◌}
use mathlib.Core.Path.{◌≡◌}
use mathlib.Core.Bool.{Bool, true, false}
use native.Mathlib.Omega.{arith}
use bigtable_postgres_blog_s.Base.Tests.{ltb, ◌==◌, if◌then◌else◌}

-- `negsuc n` is -(n + 1).
pub data ℤ : Type 0 where
  pos : ℕ → ℤ
  negsuc : ℕ → ℤ

abbrev pub is_zero : ℤ → Bool
is_zero (pos zero) = true
is_zero (pos (suc n)) = false
is_zero (negsuc n) = false

abbrev pub is_neg : ℤ → Bool
is_neg (pos n) = false
is_neg (negsuc n) = true

abbrev pub int_eq : ℤ → ℤ → Bool
int_eq (pos m) (pos n) = m == n
int_eq (negsuc m) (negsuc n) = m == n
int_eq _ _ = false

-- 2 ^ 31 and 2 ^ 32
abbrev pub int_limit : ℕ
int_limit = 2147483648

abbrev pub int_mod : ℕ
int_mod = 4294967296

-- The `int` of a bit pattern below 2 ^ 32.
of_bits : ℕ → ℤ
of_bits m = if ltb m int_limit then pos m else negsuc (int_mod - m - 1)

-- A `size_t` assigned to an `int`: its low 32 bits.
unfoldable pub int_of_size : ℕ → ℤ
unfolding of_bits
int_of_size n = of_bits (n % int_mod)

pub int_of_size_small : (n : ℕ) → n < int_limit → int_of_size n ≡ pos n
unfolding int_of_size
int_of_size_small n h = ground arith

-- `x * 10 + d` and `x - 1` on an `int`. Overflow is undefined in C++; the model wraps around.
unfoldable pub mul10_add : ℤ → ℕ → ℤ
unfolding of_bits
mul10_add (pos n) d = of_bits ((n * 10 + d) % int_mod)
mul10_add (negsuc n) d = of_bits ((int_mod - (n + 1) * 10 % int_mod + d) % int_mod)

unfoldable pub pred_int : ℤ → ℤ
pred_int (pos zero) = negsuc 0
pred_int (pos (suc n)) = pos n
pred_int (negsuc n) = if n + 1 == int_limit then pos (int_limit - 1) else negsuc (n + 1)

-- `x + 1` on an `int`, wrapped around too
unfoldable pub succ_int : ℤ → ℤ
succ_int (pos n) = if n + 1 == int_limit then negsuc (int_limit - 1) else pos (n + 1)
succ_int (negsuc zero) = pos 0
succ_int (negsuc (suc n)) = negsuc n

pub succ_int_small : (n : ℕ) → n + 1 < int_limit → succ_int (pos n) ≡ pos (n + 1)
unfolding succ_int
succ_int_small n h = ground arith

-- The value of an `int` as a `size_t` of 64 bits.
abbrev pub to_size : ℤ → ℕ
to_size (pos n) = n
to_size (negsuc n) = 18446744073709551616 - (n + 1)

pub mul10_add_small : (n d : ℕ) → n * 10 + d < int_limit → mul10_add (pos n) d ≡ pos (n * 10 + d)
unfolding mul10_add
mul10_add_small n d h = ground arith
