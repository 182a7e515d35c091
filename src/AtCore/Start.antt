-- ===== src/AtCore/Start.antt =====
-- Starting at_core.c and resetting the modem. The modem driver is a parameter.
use ts_sdk.Prelude.{ℕ, Bool, true, false, not, if◌then◌else◌}
use ts_sdk.Uart.Rx.{init}
use ts_sdk.AtCore.{Core, Outside, AtRetCode, at_success, at_failure, clear_rx}

abbrev pub idle_chars : ℕ
idle_chars = 10

-- `at_modem_init`, `at_modem_sw_reset`, `at_modem_hw_reset` and `at_modem_configure`.
pub record Modem {ℓ} (W : Type ℓ) : Type ℓ where
  pub modem_init : Core W → Bool × Core W
  pub sw_reset : Core W → Bool × Core W
  pub hw_reset : Core W → Core W
  pub configure : Core W → Bool × Core W

module _ {ℓ} {W : Type ℓ} (out : Outside W) (modem : Modem W) where
  -- `at_core_init`: whether there are the two callbacks, whether `uart_init` gives a handle, and what
  -- the timer of the receive buffer returns.
  pub core_init : (rx_cb urc_cb : Bool) → ℕ → (periph timer_ok : Bool) → Core W → Bool × Core W
  core_init rx_cb urc_cb d_ms periph timer_ok c =
      let c1 = record c { comm_delay_ms = d_ms } in
      let u = init c1.uart periph idle_chars timer_ok in
      let c2 = record c1 { uart = u.1 } in
      let c3 = record c2 { uart = record (u.1) { has_callback = true }; process_rsp = false } in
      if not rx_cb
      then (false, c)
      else if not urc_cb
      then (false, c)
      else if not periph
      then (false, c1)
      else if not u.0
      then (false, c2)
      else modem.modem_init (clear_rx out c3)

  -- `at_core_modem_reset`.
  pub modem_reset : Core W → AtRetCode × Core W
  modem_reset c =
      let r = modem.sw_reset c in
      let c1 = if not r.0 then modem.hw_reset r.1 else r.1 in
      let f = modem.configure c1 in (if f.0 then at_success else at_failure, f.1)
