-- ===== src/Int64.antt =====
-- Go's int64 as its bit pattern: a number below 2 ^ 64, a negative one at 2 ^ 63 or above. The
-- products and differences wrap, and an order is by sign.
use koinon.Base.{ℕ, ◌+◌, ◌-◌, ◌*◌, ◌%◌, ◌<◌, ◌≤◌, ◌≡◌, Bool, false, arith, ltb}
use native.Mathlib.Nat.{mod-eq_of_lt}

abbrev pub two63 : ℕ
two63 = 9_223_372_036_854_775_808

abbrev pub two64 : ℕ
two64 = 18_446_744_073_709_551_616

unfoldable pub mul64 : ℕ → ℕ → ℕ
mul64 a b = a * b % two64

unfoldable pub sub64 : ℕ → ℕ → ℕ
sub64 a b = (a + two64 - b) % two64

-- `a < b` of two int64
unfoldable pub lt64 : ℕ → ℕ → Bool
lt64 a b = ltb ((a + two63) % two64) ((b + two63) % two64)

pub lt64-ltb : (a b : ℕ) → a < two63 → b < two63 → lt64 a b ≡ ltb a b
unfolding lt64
lt64-ltb a b ha hb = ground arith

pub sub64-lem : (a b : ℕ) → b ≤ a → a < two63 → sub64 a b ≡ a - b
unfolding sub64
sub64-lem a b h ha = omega arith

pub mul64-lem : (a b : ℕ) → a * b < two63 → mul64 a b ≡ a * b
unfolding mul64
mul64-lem a b h = mod-eq_of_lt (omega arith)

-- A pattern that is not below a small number stands for no negative one.
pub lt64-false : (a b : ℕ) → a < two64 → b < two63 → lt64 a b ≡ false → (b ≤ a) × (a < two63)
unfolding lt64
lt64-false a b ha hb h = ground arith
