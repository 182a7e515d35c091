-- ===== src/AtCore/Waiting.antt =====
-- The wait for a response of at_core.c ends by the clock.
use ts_sdk.Prelude.{
  ℕ, zero, suc, ◌+◌, ◌-◌, ◌*◌, ◌%◌, ◌^◌, ◌≤◌, ◌<◌, ◌≡◌, refl, true, false, not, ◌&&◌, ◌⊎◌, inl, inr,
  arith, ltb, ◌==◌, Bool-cases, Ends, elapsed_32,
}
use native.Mathlib.Nat.{mul-le-mul_left}
use ts_sdk.AtCore.{
  Core, Outside, Waited, at_success, at_rsp_timeout, left_over, wait_loop, wait_for_rsp,
}

-- The clock in ms, the looks at `process_rsp` until now, at most `k` in each ms; between two looks at
-- most 2^30 ms pass.
pub record Clock {ℓ} {W : Type ℓ} (out : Outside W) (k : ℕ) : Type ℓ where
  pub ms : W → ℕ
  pub looks : W → ℕ
  pub rate : (w : W) → looks w ≤ k * (ms w + 1)
  pub tick_value : (w : W) → (out.tick w).0 ≡ ms w % 2 ^ 64
  pub tick_ms : (w : W) → ms (out.tick w).1 ≡ ms w
  pub tick_looks : (w : W) → looks (out.tick w).1 ≡ looks w
  pub interrupts_ms :
      (c : Core W)
      → (ms c.world ≤ ms (out.interrupts c).world)
        × (ms (out.interrupts c).world ≤ ms c.world + 2 ^ 30)
  pub interrupts_looks : (c : Core W) → looks c.world < looks (out.interrupts c).world

left_over-le : (timeout elapsed : ℕ) → left_over timeout elapsed ≤ timeout
left_over-le timeout elapsed = elim (Bool-cases (not (timeout == 0) && ltb elapsed timeout)) [
  | inl y ↦ rw y (omega arith)
  | inr n ↦ rw n (omega arith)
]

module _ {ℓ} {W : Type ℓ} (out : Outside W) where
  -- A wait is over: nothing is left that says otherwise, and of the time limit no more than there was,
  -- or none.
  pub record IsOver (timeout : ℕ) (w : Waited out) : Type 0 where
    pub not_waiting : w.core.waiting_resp ≡ false
    pub rsp_taken : w.core.process_rsp ≡ false
    pub at_most : w.timeout ≤ timeout
    pub either : (w.result ≡ at_success) ⊎ ((w.result ≡ at_rsp_timeout) × (w.timeout ≡ 0))

  module _ (k : ℕ) (clock : Clock out k) (s timeout : ℕ) (top : timeout ≤ 2 ^ 30) where
    wait_loop-Ends :
        (fuel n end' : ℕ) (c : Core W)
        → clock.ms c.world ≡ n
        → s ≤ n
        → n ≤ s + timeout
        → k * (s + timeout + 1) < fuel + clock.looks c.world
        → Ends (IsOver timeout) (wait_loop out fuel timeout (s % 2 ^ 64 % 2 ^ 32) end' c)
    unfolding wait_loop
    wait_loop-Ends zero n end' c at lo hi e =
        let m : k * (clock.ms c.world + 1) ≤ k * (s + timeout + 1) =
          mul-le-mul_left k (omega arith) in
        absurd (omega (arith, m, clock.rate c.world))
    wait_loop-Ends (suc fuel) n end' c0 at lo hi e =
        let c = out.interrupts c0 in
        let m = clock.ms c.world in
        let im = clock.interrupts_ms c0 in
        let il = clock.interrupts_looks c0 in
        let tl = clock.tick_looks c.world in
        let el = elapsed_32 s m (omega (arith, im.0)) (omega (arith, im.1)) in
        elim (Bool-cases c.process_rsp) [
          | inl arrived ↦ rw arrived (record {
            not_waiting = refl;
            rsp_taken = refl;
            at_most = left_over-le timeout _;
            either = inl refl;
          })
          | inr silent ↦ rw silent (
              rw (clock.tick_value c.world, el)
                (elim (Bool-cases (ltb timeout (m - s))) [
                  | inl over ↦ rw over (record {
                    not_waiting = refl;
                    rsp_taken = refl;
                    at_most = omega arith;
                    either = inr (refl, refl);
                  })
                  | inr before ↦
                      let h : m - s ≤ timeout = ground arith in
                      rw before (
                        wait_loop-Ends fuel m (m % 2 ^ 64 % 2 ^ 32)
                          (record c { process_rsp = false; world = (out.tick c.world).1 })
                          (clock.tick_ms c.world) (omega (arith, im.0)) (omega arith)
                          (omega (arith, il, tl)))
                ]))
        ]

  -- With a clock that moves on, as each ms has at most `k` looks at `process_rsp` and at most 2^30 ms
  -- lie between two: `__at_wait_for_rsp` ends, whatever the interrupts do, when the rounds are as many as there can
  -- be looks until the time limit. Then nothing is waited for and the response is taken; of the time
  -- limit there is left no more than before; and the result is a success, or a timeout with nothing left.
  pub wait_for_rsp-Ends :
      (k : ℕ) (clock : Clock out k) (fuel timeout : ℕ) (c : Core W)
      → timeout ≤ 2 ^ 30
      → k * (clock.ms c.world + timeout + 1) < fuel + clock.looks c.world
      → Ends (IsOver timeout) (wait_for_rsp out fuel timeout c)
  unfolding wait_for_rsp
  wait_for_rsp-Ends k clock fuel timeout c top e =
      let t = out.tick c.world in
      rw (clock.tick_value c.world) (
        wait_loop-Ends k clock (clock.ms c.world) timeout top fuel (clock.ms c.world)
          (clock.ms c.world % 2 ^ 64 % 2 ^ 32) (record c { waiting_resp = true; world = t.1 })
          (clock.tick_ms c.world) (omega arith) (omega arith)
          (omega (arith, clock.tick_looks c.world)))
