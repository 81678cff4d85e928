-- ===== src/Ax100/Size.antt =====
-- Differences of `size_t`.
use satnogs_gr_oot.Base.{ℕ, ◌+◌, ◌-◌, ◌%◌, ◌^◌, ◌≤◌, ◌<◌, ◌≡◌, arith}

-- `a - b` of two `size_t`.
unfoldable pub size_sub : ℕ → ℕ → ℕ
size_sub a b = (a + 2 ^ 64 - b) % 2 ^ 64

pub size_sub-le : (a b : ℕ) → b ≤ a → a < 2 ^ 64 → size_sub a b ≡ a - b
unfolding size_sub
size_sub-le a b le lt = omega arith

-- A difference below zero is as large as a `size_t` can be, but for a few.
pub size_sub-wraps : (a b : ℕ) → a < b → b ≤ 2 ^ 64 → size_sub a b ≡ a + 2 ^ 64 - b
unfolding size_sub
size_sub-wraps a b lt le = omega arith
