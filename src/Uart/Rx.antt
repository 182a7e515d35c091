-- ===== src/Uart/Rx.antt =====
-- The state of uart_util.c and its operations, but for the search. The timer and the UART are the
-- hardware's: of the timer the model keeps whether it runs, and what the functions hand to the
-- registered callback is a list of events beside the new state.
pub mod Queue
pub mod Idle
pub mod Trace
use ts_sdk.Prelude.{
  ℕ, zero, suc, ◌+◌, ◌-◌, ◌*◌, ◌/◌, ◌%◌, ◌^◌, ◌≤◌, ◌<◌, min, ◌≡◌, refl, sym, ap, ap₂, ◌∙◌, subst,
  ◌≢◌, ◌↔◌, ◌⊎◌, inl, inr, Bool, true, false, not, ◌&&◌, ◌||◌, Option, none, some, List, [], ◌∷◌,
  ◌++◌, map, append-nil, append_assoc, arith, dec_lt, ℕ_discrete, ltb, leb, ◌==◌, if◌then◌else◌,
  ltb→lt, lt→ltb, leb→le, ==_iff, Bool-cases, Option-cases, length, get_elem?, get_or, set, take,
  drop, replicate, length-append, length-set, length-take, length-drop, length-replicate,
  take-append-drop, get_elem?-eq-get_or, get_or-set_self, get_or-set_ne, write_at, elem_index,
  get_or_index, get_or-append_right, take-length, drop-length, drop-append, take-append, put_at,
  length-put_at, put_at-zero, put_at_snoc, Outcome, done, failed, fault, hang, ◌>>=◌, on_fail, load,
  store, store_lem,
}

abbrev pub uart_buf_size : ℕ
uart_buf_size = 1024

-- (buf_sz)(UART_BUF_SIZE * ALMOST_FULL_FRAC), 60 percent rounded down
abbrev pub callback_trigger_mark : ℕ
callback_trigger_mark = uart_buf_size * 6 / 10

-- The static `rx`.
pub record Rx : Type 0 where
  pub buffer : List ℕ
  pub ridx : ℕ
  pub widx : ℕ
  pub num_unread : ℕ

-- The other statics; `has_callback` tells whether `recv_callback` is set.
pub record Uart : Type 0 where
  pub rx : Rx
  pub timeout_chars : ℕ
  pub timer_running : Bool
  pub num_idle_chars : ℕ
  pub byte_recvd : Bool
  pub has_callback : Bool

-- `callback_event`.
pub data Event : Type 0 where
  recvd_bytes rx_overflow : Event

-- INVOKE_CALLBACK
abbrev pub invoke_callback : Uart → Event → List Event
invoke_callback u ev = if u.has_callback then ev ∷ [] else []

-- The buffering part of `rx_char_cb`, where there is room.
pub push : Rx → ℕ → Rx
push rx byte = record rx {
  buffer = set rx.buffer rx.widx byte;
  widx = (rx.widx + 1) % uart_buf_size;
  num_unread = rx.num_unread + 1;
}

-- The first byte of a response starts the idle timer.
abbrev pub start_timer : Uart → Uart
start_timer u = if u.timer_running then u else record u { num_idle_chars = 0; timer_running = true }

-- `rx_char_cb`.
unfoldable pub rx_char_cb : Uart → ℕ → Uart × List Event
unfolding push
rx_char_cb u byte =
    let u' = start_timer (record u { byte_recvd = true }) in
    if ltb u.rx.num_unread uart_buf_size
    then (record u' { rx = push u.rx byte }, [])
    else (u', invoke_callback u rx_overflow)

-- The count of idle characters in `idle_timer_callback`, a `uint16_t`.
abbrev pub count_idle : Uart → Uart
count_idle u =
    if u.byte_recvd
    then record u { byte_recvd = false; num_idle_chars = 0 }
    else record u { num_idle_chars = (u.num_idle_chars + 1) % 2 ^ 16 }

-- `idle_timer_callback`.
unfoldable pub idle_timer_callback : Uart → Uart × List Event
idle_timer_callback u =
    let u' = count_idle u in
    if leb u'.timeout_chars u'.num_idle_chars || u'.rx.num_unread == callback_trigger_mark
    then (record u' { timer_running = false }, invoke_callback u recvd_bytes)
    else (u', [])

-- `uart_util_init(hdl, idle_timeout)`: `periph` tells that the handle is not NO_PERIPH, and
-- `timer_ok` is what `idle_timer_init` returns.
unfoldable pub init : Uart → Bool → ℕ → Bool → Bool × Uart
init u periph idle_timeout timer_ok = if idle_timeout == 0 || not periph then (false, u) else (
  timer_ok,
  record u {
    rx = record u.rx { ridx = 0; widx = 0; num_unread = 0 };
    timeout_chars = idle_timeout;
  },
)

-- `uart_util_available`.
pub available : Rx → ℕ
available rx = rx.num_unread

-- The copy loop of `uart_util_read` with `n` bytes to go; `out` is what has been copied.
pub read_loop : ℕ → Rx → List ℕ → Rx × List ℕ
read_loop zero rx out = (rx, out)
read_loop (suc n) rx out =
    read_loop n (record rx { ridx = (rx.ridx + 1) % uart_buf_size })
      (out ++ (get_or rx.buffer rx.ridx 0 ∷ []))

-- What `uart_util_read(buf, sz)` returns: UART_BUF_INV_PARAM, or the number of bytes with them.
pub data ReadResult : Type 0 where
  inv_param : ReadResult
  bytes : ℕ → List ℕ → ReadResult

-- `uart_util_read`; `buf` tells that the pointer is not NULL.
unfoldable pub read : Bool → ℕ → Rx → ReadResult × Rx
read buf sz rx =
    if rx.num_unread == 0
    then (bytes 0 [], rx)
    else if not buf
    then (inv_param, rx)
    else (let n_bytes = min sz rx.num_unread in
        let (rx', out) = read_loop n_bytes rx [] in
        (bytes n_bytes out, record rx' { num_unread = rx'.num_unread - n_bytes }))

-- `uart_util_flush`.
unfoldable pub flush : Rx → Rx
flush rx = record rx { widx = 0; ridx = 0; num_unread = 0 }
