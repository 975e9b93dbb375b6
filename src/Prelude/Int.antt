-- ===== src/Prelude/Int.antt =====
-- Go's signed integers: `negsuc n` is -(n + 1).
use Prim.Native.Nat.{ℕ, zero, suc, ◌+◌, ◌-◌, ◌*◌, ◌%◌, ◌^◌, ◌<◌}
use mathlib.Core.Path.{◌≡◌}
use native.Mathlib.Omega.{arith}
use mathlib.Core.Bool.{Bool, true, false}
use akoflow_workflow_engine.Prelude.Tests.{ltb, leb, nat_eq, if◌then◌else◌}

pub data ℤ : Type 0 where
  pos : ℕ → ℤ
  negsuc : ℕ → ℤ

abbrev pub pos_part : ℤ → ℕ
pos_part (pos n) = n
pos_part (negsuc n) = 0

abbrev pub neg_part : ℤ → ℕ
neg_part (pos n) = 0
neg_part (negsuc n) = suc n

abbrev pub ltb_ℤ : ℤ → ℤ → Bool
ltb_ℤ a b = ltb (pos_part a + neg_part b) (pos_part b + neg_part a)

abbrev pub leb_ℤ : ℤ → ℤ → Bool
leb_ℤ a b = leb (pos_part a + neg_part b) (pos_part b + neg_part a)

abbrev pub eq_ℤ : ℤ → ℤ → Bool
eq_ℤ a b = nat_eq (pos_part a + neg_part b) (pos_part b + neg_part a)

-- `n++`, `n--` and `n == 0`
abbrev pub succ_ℤ : ℤ → ℤ
succ_ℤ (pos n) = pos (suc n)
succ_ℤ (negsuc zero) = pos 0
succ_ℤ (negsuc (suc n)) = negsuc n

abbrev pub pred_ℤ : ℤ → ℤ
pred_ℤ (pos zero) = negsuc 0
pred_ℤ (pos (suc n)) = pos n
pred_ℤ (negsuc n) = negsuc (suc n)

abbrev pub is_zero : ℤ → Bool
is_zero (pos zero) = true
is_zero (pos (suc n)) = false
is_zero (negsuc n) = false

abbrev pub sub_ℕ : ℕ → ℕ → ℤ
sub_ℕ m zero = pos m
sub_ℕ zero (suc n) = negsuc n
sub_ℕ (suc m) (suc n) = sub_ℕ m n

-- The number below 2 ^ 64 that an int64 has as its bits, and back.
abbrev bits64 : ℤ → ℕ
bits64 (pos n) = n % 2 ^ 64
bits64 (negsuc n) = 2 ^ 64 - 1 - n % 2 ^ 64

abbrev of_bits64 : ℕ → ℤ
of_bits64 n = if ltb n (2 ^ 63) then pos n else negsuc (2 ^ 64 - 1 - n)

-- The sum of two int64 values, which wraps around.
abbrev pub add_ℤ : ℤ → ℤ → ℤ
add_ℤ a b = of_bits64 (bits64 (sub_ℕ (pos_part a + pos_part b) (neg_part a + neg_part b)))

-- The product of two int64 values, which wraps around.
abbrev pub mul_ℤ : ℤ → ℤ → ℤ
mul_ℤ a b = of_bits64 (bits64 a * bits64 b % 2 ^ 64)

-- A `time.Time` moved by a duration. The clock never comes within an int64 of the zero time.
abbrev pub add_time : ℕ → ℤ → ℕ
add_time now (pos n) = now + n
add_time now (negsuc n) = now - suc n

small_of_bits64 : (n : ℕ) → n < 2 ^ 63 → of_bits64 (n % 2 ^ 64) ≡ pos n
small_of_bits64 n h = let same : n % 2 ^ 64 ≡ n = omega arith in rw same (ground arith)

-- A product that fits in an int64 is that of ℕ.
pub mul_ℤ-pos :
    (a b : ℕ) → a < 2 ^ 63 → b < 2 ^ 63 → a * b < 2 ^ 63 → mul_ℤ (pos a) (pos b) ≡ pos (a * b)
mul_ℤ-pos a b ha hb h =
    let same_a : a % 2 ^ 64 ≡ a = omega arith in
    let same_b : b % 2 ^ 64 ≡ b = omega arith in rw same_a (rw same_b (small_of_bits64 (a * b) h))

-- The difference of two int64 values, which wraps around.
abbrev pub sub_ℤ : ℤ → ℤ → ℤ
sub_ℤ a b = of_bits64 ((bits64 a + (2 ^ 64 - bits64 b)) % 2 ^ 64)
