-- ===== src/Prelude/Clock.antt =====
-- Times as machine numbers.
use Prim.Native.Nat.{ℕ, ◌+◌, ◌-◌, ◌%◌, ◌^◌, ◌≤◌, ◌<◌}
use mathlib.Core.Path.{◌≡◌}
use native.Mathlib.Omega.{arith}

-- The difference of two times, taken as machine numbers.
pub elapsed_64 :
    (s t : ℕ) → s ≤ t → t < s + 2 ^ 32 → (t % 2 ^ 64 + 2 ^ 64 - s % 2 ^ 64) % 2 ^ 64 ≡ t - s
elapsed_64 s t lo hi = omega arith

pub elapsed_32 :
    (s t : ℕ)
    → s ≤ t
    → t < s + 2 ^ 32
    → (t % 2 ^ 64 % 2 ^ 32 + 2 ^ 32 - s % 2 ^ 64 % 2 ^ 32) % 2 ^ 32 ≡ t - s
elapsed_32 s t lo hi = omega arith
