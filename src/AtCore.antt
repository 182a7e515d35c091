-- ===== src/AtCore.antt =====
-- sdk/cloud_comm/src/network/at/core/at_core.c: waiting for the modem, the callback of the receive
-- buffer and the unsolicited lines. What the interrupts do between two looks at the state, the clock,
-- the modem driver and the registered callbacks are parameters.
pub mod Waiting
pub mod Lines
pub mod Command
pub mod Start
mod Tests
use ts_sdk.Prelude.{
  ℕ, zero, suc, ◌+◌, ◌-◌, ◌%◌, ◌^◌, Bool, true, false, not, ◌&&◌, Option, none, some, List, [], ◌∷◌,
  ltb, leb, ◌==◌, if◌then◌else◌, length, Outcome, done, hang, ◌>>=◌,
}
use ts_sdk.Uart.Rx.{
  Uart, Rx, Event, recvd_bytes, rx_overflow, ReadResult, inv_param, bytes, read, flush, available,
}
use ts_sdk.Uart.Search.{line_avail}

-- `at_ret_code`.
pub data AtRetCode : Type 0 where
  at_success at_rsp_timeout at_failure at_tx_failure at_wrong_rsp at_recheck_modem : AtRetCode

-- The static `state`, `process_rsp` and `at_comm_delay_ms`, with the receive buffer and what lies outside.
pub record Core {ℓ} (W : Type ℓ) : Type ℓ where
  pub proc_rsp : Bool
  pub proc_urc : Bool
  pub waiting_resp : Bool
  pub process_rsp : Bool
  pub comm_delay_ms : ℕ
  pub uart : Uart
  pub world : W

-- `rsp_header` and `rsp_trailer`, CR and LF.
abbrev pub crlf : List ℕ
crlf = 13 ∷ 10 ∷ []

-- What the code needs from outside: the clock, what happens until the next look at the state, sending
-- over the UART, waiting, and the handlers of a received line.
pub record Outside {ℓ} (W : Type ℓ) : Type ℓ where
  pub tick : W → ℕ × W
  pub interrupts : Core W → Core W
  pub uart_tx : List ℕ → W → Bool × W
  pub sys_delay : ℕ → W → W
  pub serial_rx_callback : Core W → Core W
  pub at_modem_process_urc : List ℕ → Core W → Bool × Core W
  pub urc_callback : List ℕ → Core W → Core W

-- What is left of the time limit behind `__at_wait_for_rsp`.
abbrev pub left_over : (timeout elapsed : ℕ) → ℕ
left_over timeout elapsed =
    if not (timeout == 0) && ltb elapsed timeout then timeout - elapsed else timeout

-- A line of `uart_util_line_avail`, as a `uint16_t`; UART_BUF_INV_PARAM is -2.
abbrev pub line_bytes : Option ℕ → ℕ
line_bytes none = 65534
line_bytes (some n) = n % 2 ^ 16

module _ {ℓ} {W : Type ℓ} (out : Outside W) where
  abbrev pub with_rx : Core W → Rx → Core W
  with_rx c rx = record c { uart = record c.uart { rx = rx } }

  abbrev pub set_waiting : Bool → Core W → Core W
  set_waiting b c = record c { waiting_resp = b }

  -- `at_core_clear_rx`.
  abbrev pub clear_rx : Core W → Core W
  clear_rx c = with_rx c (flush c.uart.rx)

  -- `at_core_uart_rx_callback`.
  unfoldable pub uart_rx_callback : Event → Core W → Core W
  uart_rx_callback recvd_bytes c =
      if c.waiting_resp then record c { process_rsp = true } else out.serial_rx_callback c
  uart_rx_callback rx_overflow c = clear_rx c

  -- What `__at_wait_for_rsp` returns, and the time limit that it leaves.
  pub record Waited : Type ℓ where
    pub result : AtRetCode
    pub timeout : ℕ
    pub core : Core W

  -- The loop of `__at_wait_for_rsp`; the times are of type `uint32_t`.
  unfoldable pub wait_loop : ℕ → (timeout start end' : ℕ) → Core W → Outcome Waited
  wait_loop zero timeout start end' c = hang
  wait_loop (suc fuel) timeout start end' c0 =
      let c = out.interrupts c0 in
      let over : ℕ → ℕ → AtRetCode → Core W → Waited = λ limit elapsed res c'. record {
        result = res;
        timeout = left_over limit elapsed;
        core = record c' { waiting_resp = false; process_rsp = false };
      } in
      let now = out.tick c.world in
      let c1 = record c { world = now.1 } in
      let elapsed = (now.0 % 2 ^ 32 + 2 ^ 32 - start) % 2 ^ 32 in
      let rest = wait_loop fuel timeout start (now.0 % 2 ^ 32) c1 in
      if c.process_rsp
      then done (over timeout ((end' + 2 ^ 32 - start) % 2 ^ 32) at_success c)
      else if ltb timeout elapsed
      then done (over 0 elapsed at_rsp_timeout c1)
      else rest

  -- `__at_wait_for_rsp`.
  unfoldable pub wait_for_rsp : ℕ → ℕ → Core W → Outcome Waited
  wait_for_rsp fuel timeout c =
      let t = out.tick c.world in
      let start = t.0 % 2 ^ 32 in
      wait_loop fuel timeout start start (record c { waiting_resp = true; world = t.1 })

  -- The loop of `at_core_process_urc`; the text is what `uart_util_read` has put into it.
  unfoldable pub urc_loop : ℕ → Core W → Outcome (Core W)
  urc_loop zero c = hang
  urc_loop (suc fuel) c = do
    line ← line_avail c.uart.rx (some crlf) (some crlf)
    let read_bytes = line_bytes line
    let (result, rx') = read true read_bytes c.uart.rx
    let c1 = with_rx c rx'
    let skipped = urc_loop fuel c1
    let handled : List ℕ → Outcome (Core W) = (λ urc.
        let m = out.at_modem_process_urc urc c1 in
        urc_loop fuel (if m.0 then m.1 else out.urc_callback urc m.1))
    if read_bytes == 0
        then done c
        else elim result [ inv_param ↦ skipped | bytes n urc ↦ handled urc ]

  -- `at_core_process_urc`.
  unfoldable pub process_urc : ℕ → Bool → Core W → Outcome (Core W)
  process_urc fuel mode c = do
    c' ← urc_loop fuel (if mode then record c { proc_urc = true } else c)
    done (if mode then record c' { proc_urc = false } else c')

  -- `at_core_cleanup`.
  unfoldable pub cleanup : ℕ → Core W → Outcome (Core W)
  cleanup fuel c = do c' ← process_urc fuel true c; done (clear_rx c')

  -- `__at_comm_send_and_wait_rsp`, with `at_core_write` where the flow control is the hardware's.
  unfoldable pub comm_send_and_wait_rsp : ℕ → Option (List ℕ) → ℕ → Core W → Outcome Waited
  comm_send_and_wait_rsp fuel comm timeout c0 = do
    c ← cleanup fuel c0
    elim comm [
      | none ↦ done (record { result = at_failure; timeout = timeout; core = c })
      | some text ↦
          let sent = out.uart_tx text c.world in
          let c1 = record c { world = sent.1 } in
          let waited = wait_for_rsp fuel timeout c1 in
          if not sent.0
          then done (record { result = at_tx_failure; timeout = timeout; core = c1 })
          else waited
    ]

  -- The loop of `__at_wait_for_bytes`; `rounds` bounds it.
  unfoldable pub wait_for_bytes_loop :
      ℕ → ℕ → (rcv target timeout : ℕ) → Core W → Outcome (ℕ × ℕ × Core W)
  wait_for_bytes_loop zero fuel rcv target timeout c = hang
  wait_for_bytes_loop (suc rounds) fuel rcv target timeout c =
      let wait : Outcome (ℕ × ℕ × Core W) = (do
        w ← wait_for_rsp fuel timeout c
        let c1 = set_waiting true w.core
        wait_for_bytes_loop rounds fuel (available c1.uart.rx) target w.timeout c1) in
      if ltb rcv target && ltb 0 timeout then wait else done (rcv, timeout, c)

  -- `__at_wait_for_bytes`: the result, the bytes that are there, the time limit left.
  unfoldable pub wait_for_bytes :
      ℕ → ℕ → (rcv target timeout : ℕ) → Core W → Outcome (AtRetCode × ℕ × ℕ × Core W)
  wait_for_bytes rounds fuel rcv target timeout c = do
    w ← wait_for_bytes_loop rounds fuel rcv target timeout c
    let c1 = set_waiting true (w.2)
    let rcv' = if w.1 == 0 then available c1.uart.rx else w.0
    done ((if w.1 == 0 && ltb rcv' target then at_failure else at_success), rcv', w.1, c1)

  -- `__at_uart_waited_read`: the result, the bytes read, the time limit left.
  unfoldable pub uart_waited_read :
      ℕ → ℕ → (wanted timeout : ℕ) → Core W → Outcome (AtRetCode × List ℕ × ℕ × Core W)
  uart_waited_read rounds fuel wanted timeout c = do
    w ← wait_for_bytes rounds fuel (available c.uart.rx) wanted timeout c
    let (result, rx') = read true wanted (w.3).uart.rx
    let c1 = with_rx (w.3) rx'
    elim (w.0) [
      | at_success ↦ elim result [
        | inv_param ↦ done (at_failure, [], w.2, c1)
        | bytes n text ↦ done ((if ltb n wanted then at_failure else at_success), text, w.2, c1)
      ]
      | _ ↦ done (at_failure, [], w.2, w.3)
    ]
