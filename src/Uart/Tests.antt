-- ===== src/Uart/Tests.antt =====
-- The theorems on uart_util.c at concrete buffers.
use ts_sdk.Prelude.{
  ℕ, ◌≡◌, refl, true, some, List, [], ◌∷◌, ◌++◌, arith, leb, if◌then◌else◌, replicate, done, fault,
}
use ts_sdk.Uart.Rx.{Rx, Uart, recvd_bytes}
use ts_sdk.Uart.Rx.Queue.{IsValid, unread, ring_slice}
use ts_sdk.Uart.Rx.Idle.{IsWaiting, silence, silence_lem}
use ts_sdk.Uart.Rx.Trace.{run, run_queue, run_refines, arrive, take_out}
use ts_sdk.Uart.Search.{find_substr, line_avail}
use ts_sdk.Uart.Search.Prefix.{first_at, span}
use ts_sdk.Uart.Search.Reference.{index_from, find_substr_lem}
use ts_sdk.Uart.Search.Line.{line_of, line_avail_lem, line_avail-fault}

-- The line "OK" with a line end before and behind it, across the end of the buffer.
abbrev around : Rx
around = record {
  buffer = b'K' ∷ 13 ∷ 10 ∷ replicate 1018 0 ++ 13 ∷ 10 ∷ b'O' ∷ [];
  ridx = 1021;
  widx = 3;
  num_unread = 6;
}

around-IsValid : IsValid around
around-IsValid = record {
  whole = refl;
  ridx_in = omega arith;
  at_most = omega arith;
  widx_at = refl;
}

-- The same at the start of the buffer.
abbrev straight : Rx
straight = record {
  buffer = 13 ∷ 10 ∷ b'O' ∷ b'K' ∷ 13 ∷ 10 ∷ replicate 1018 0;
  ridx = 0;
  widx = 6;
  num_unread = 6;
}

straight-IsValid : IsValid straight
straight-IsValid = record {
  whole = refl;
  ridx_in = omega arith;
  at_most = omega arith;
  widx_at = refl;
}

-- And with the read index one before the last byte.
abbrev at_end : Rx
at_end = record {
  buffer = b'O' ∷ b'K' ∷ 13 ∷ 10 ∷ replicate 1018 0 ++ 13 ∷ 10 ∷ [];
  ridx = 1022;
  widx = 4;
  num_unread = 6;
}

at_end-IsValid : IsValid at_end
at_end-IsValid = record {
  whole = refl;
  ridx_in = omega arith;
  at_most = omega arith;
  widx_at = refl;
}

abbrev line_end : List ℕ
line_end = 13 ∷ 10 ∷ []

abbrev waiting : Uart
waiting = record {
  rx = around;
  timeout_chars = 3;
  timer_running = true;
  num_idle_chars = 0;
  byte_recvd = true;
  has_callback = true;
}

waiting-IsWaiting : IsWaiting waiting
waiting-IsWaiting = record {
  running = refl;
  registered = refl;
  timeout_pos = omega arith;
  timeout_lt = omega arith;
}

silence_example :
    ((silence 4 waiting).1 ≡ (if leb 4 3 then [] else recvd_bytes ∷ []))
    × ((silence 4 waiting).0.timer_running ≡ leb 4 3)
silence_example = silence_lem 4 waiting waiting-IsWaiting refl

find_substr_example :
    find_substr around 1021 (some (b'O' ∷ b'K' ∷ [])) 2
    ≡ done (
        index_from 1021
          (first_at (b'O' ∷ b'K' ∷ []) (ring_slice around.buffer 1021 (span around 1021)) 0))
find_substr_example =
    find_substr_lem around 1021 (b'O' ∷ b'K' ∷ []) refl (omega arith) (omega arith) (omega arith)

line_avail_example :
    line_avail straight (some line_end) (some line_end)
    ≡ done (
        some (
          line_of
            (index_from 0 (first_at line_end (ring_slice straight.buffer 0 (span straight 0)) 0))
            (index_from 2 (first_at line_end (ring_slice straight.buffer 2 (span straight 2)) 0))
            2))
line_avail_example =
    line_avail_lem straight line_end line_end straight-IsValid (omega arith) (omega arith)
      (omega arith) (omega arith)

line_avail-fault_example : line_avail at_end (some line_end) (some line_end) ≡ fault
line_avail-fault_example =
    line_avail-fault at_end line_end (10 ∷ []) 13 0 at_end-IsValid (omega arith) (omega arith)
      (omega arith) (omega arith) refl (omega arith)

run_refines_example :
    run waiting (arrive b'!' ∷ take_out 3 ∷ arrive 13 ∷ take_out 9 ∷ [])
    ≡ run_queue true (unread around) (arrive b'!' ∷ take_out 3 ∷ arrive 13 ∷ take_out 9 ∷ [])
run_refines_example =
    run_refines (arrive b'!' ∷ take_out 3 ∷ arrive 13 ∷ take_out 9 ∷ []) waiting around-IsValid
