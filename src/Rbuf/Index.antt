-- ===== src/Rbuf/Index.antt =====
-- The places of the counters of rbuf.c in a buffer whose size divides 2^32.
use ts_sdk.Prelude.{ℕ, ◌+◌, ◌*◌, ◌/◌, ◌%◌, ◌^◌, ◌<◌, ◌≡◌, ◌≢◌, ap, sym, ◌∙◌, arith}
use native.Mathlib.Nat.{mul-add-mod_self_left, div-add-mod, mul_assoc}

-- A counter that went round keeps its place.
pub place_wraps : (a s k : ℕ) → s * k ≡ 2 ^ 32 → a % 2 ^ 32 % s ≡ a % s
place_wraps a s k h =
    let e : s * (k * (a / 2 ^ 32)) + a % 2 ^ 32 ≡ a =
      ap (λ b. b + a % 2 ^ 32) (sym (mul_assoc s k (a / 2 ^ 32)) ∙ ap (λ b. b * (a / 2 ^ 32)) h)
      ∙ div-add-mod a (2 ^ 32) in
    sym (mul-add-mod_self_left s (k * (a / 2 ^ 32)) (a % 2 ^ 32)) ∙ ap (λ b. b % s) e

-- Counters that are less than the size apart have different places.
pub places_ne : (a d s : ℕ) → 0 < d → d < s → (a + d) % s ≢ a % s
places_ne a d s h k e = let p = div-add-mod a s in let q = div-add-mod (a + d) s in grind (arith)
