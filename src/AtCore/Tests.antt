-- ===== src/AtCore/Tests.antt =====
-- The theorems on at_core.c at a concrete modem.
use ts_sdk.Prelude.{ℕ, suc, ◌+◌, ◌%◌, ◌^◌, refl, true, false, ◌∷◌, arith, replicate, Ends}
use ts_sdk.Uart.Rx.Queue.{IsValid}
use ts_sdk.AtCore.{Core, Outside, wait_for_rsp, process_urc}
use ts_sdk.AtCore.Waiting.{Clock, IsOver, wait_for_rsp-Ends}
use ts_sdk.AtCore.Lines.{Keeps, NoLine, process_urc-Ends}

-- Each look takes a ms, nothing comes in, and the lines are taken by the second handler.
abbrev silent : Outside ℕ
silent = record {
  tick = λ w. (w % 2 ^ 64, w);
  interrupts = λ c. record c { world = suc c.world };
  uart_tx = λ text w. (true, w);
  sys_delay = λ ms w. w + ms;
  serial_rx_callback = λ c. c;
  at_modem_process_urc = λ urc c. (false, c);
  urc_callback = λ urc c. c;
}

abbrev silent_clock : Clock silent 1
silent_clock = record {
  ms = λ w. w;
  looks = λ w. w;
  rate = λ w. omega arith;
  tick_value = λ w. refl;
  tick_ms = λ w. refl;
  tick_looks = λ w. refl;
  interrupts_ms = λ c. (omega arith, omega arith);
  interrupts_looks = λ c. omega arith;
}

abbrev silent_keeps : Keeps silent
silent_keeps = record {
  modem_valid = λ urc c v. v;
  modem_unread = λ urc c. omega arith;
  callback_valid = λ urc c v. v;
  callback_unread = λ urc c. omega arith;
}

-- CR LF, a letter and CR LF wait in the receive buffer.
abbrev waiting : Core ℕ
waiting = record {
  proc_rsp = false;
  proc_urc = false;
  waiting_resp = false;
  process_rsp = false;
  comm_delay_ms = 20;
  uart = record {
    rx = record {
      buffer = 13 ∷ 10 ∷ 65 ∷ 13 ∷ 10 ∷ replicate 1019 0;
      ridx = 0;
      widx = 5;
      num_unread = 5;
    };
    timeout_chars = 10;
    timer_running = false;
    num_idle_chars = 0;
    byte_recvd = false;
    has_callback = true;
  };
  world = 7;
}

waiting-IsValid : IsValid waiting.uart.rx
waiting-IsValid = record {
  whole = refl;
  ridx_in = omega arith;
  at_most = omega arith;
  widx_at = refl;
}

wait_for_rsp_example : Ends (IsOver silent 300) (wait_for_rsp silent 400 300 waiting)
wait_for_rsp_example =
    wait_for_rsp-Ends silent 1 silent_clock 400 300 waiting (omega arith) (omega arith)

process_urc_example : Ends (NoLine silent silent_keeps) (process_urc silent 6 true waiting)
process_urc_example =
    process_urc-Ends silent silent_keeps 6 true waiting waiting-IsValid (omega arith)
