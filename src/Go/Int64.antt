-- ===== src/Go/Int64.antt =====
-- Go's `int64` as its bit pattern, a number below 2^64: arithmetic wraps around, and an order test
-- reads the sign bit.
use loraplex.Prelude.{Bool, ◌+◌, ◌≡◌, ◌*◌, ◌^◌, arith, ◌-◌, ◌<◌, ◌%◌, ltb, ℕ}

unfoldable pub add64 : ℕ → ℕ → ℕ
add64 a b = (a + b) % 2 ^ 64

unfoldable pub sub64 : ℕ → ℕ → ℕ
sub64 a b = (a + 2 ^ 64 - b % 2 ^ 64) % 2 ^ 64

unfoldable pub mul64 : ℕ → ℕ → ℕ
mul64 a b = a * b % 2 ^ 64

-- The pattern of -n.
unfoldable pub neg64 : ℕ → ℕ
neg64 n = (2 ^ 64 - n % 2 ^ 64) % 2 ^ 64

-- Patterns in the order of the integers that they stand for.
unfoldable pub rank : ℕ → ℕ
rank a = (a + 2 ^ 63) % 2 ^ 64

-- `a < b` and `a > b`
unfoldable pub lt64 : ℕ → ℕ → Bool
unfolding rank
lt64 a b = ltb (rank a) (rank b)

abbrev pub gt64 : ℕ → ℕ → Bool
gt64 a b = lt64 b a

-- On numbers below 2^63 the test is the order of the numbers.
pub lt64_small : (a b : ℕ) → a < 2 ^ 63 → b < 2 ^ 63 → lt64 a b ≡ ltb a b
unfolding lt64
lt64_small a b ha hb = ground arith

pub add64_mod : (a b : ℕ) → add64 (a % 2 ^ 64) b ≡ (a + b) % 2 ^ 64
unfolding add64
add64_mod a b = omega arith

pub sub64_mod : (a b : ℕ) → sub64 ((a + b) % 2 ^ 64) b ≡ a % 2 ^ 64
unfolding sub64
sub64_mod a b = omega arith
