-- ===== src/Uart/Rx/Trace.antt =====
-- A history of interrupts and reads against a bounded queue.
use ts_sdk.Prelude.{
  ℕ, ◌≤◌, ◌<◌, ◌≡◌, refl, sym, ap, ap₂, ◌∙◌, subst, inl, inr, Bool, true, List, [], ◌∷◌, ◌++◌,
  arith, ltb, if◌then◌else◌, ltb→lt, Bool-cases, length, take, drop,
}
use ts_sdk.Uart.Rx.{
  Uart, Event, rx_overflow, uart_buf_size, push, rx_char_cb, read, ReadResult, bytes,
}
use ts_sdk.Uart.Rx.Queue.{IsValid, unread, length-ring_slice, push-IsValid, unread-push, read_lem}

-- A byte arrives, or the AT layer reads up to so many bytes.
pub data Op : Type 0 where
  arrive take_out : ℕ → Op

-- What the outside sees of an operation.
pub data Reply : Type 0 where
  events : List Event → Reply
  result : ReadResult → Reply

pub run : Uart → List Op → List Reply
run u [] = []
run u (arrive x ∷ ops) = let (u', evs) = rx_char_cb u x in events evs ∷ run u' ops
run u (take_out n ∷ ops) =
    let (res, rx') = read true n u.rx in result res ∷ run (record u { rx = rx' }) ops

-- The same on a queue of at most UART_BUF_SIZE bytes: a byte that finds it full is dropped, and
-- the overflow is reported if a callback is registered.
pub run_queue : Bool → List ℕ → List Op → List Reply
run_queue cb q [] = []
run_queue cb q (arrive x ∷ ops) =
    if ltb (length q) uart_buf_size
    then events [] ∷ run_queue cb (q ++ (x ∷ [])) ops
    else events (if cb then rx_overflow ∷ [] else []) ∷ run_queue cb q ops
run_queue cb q (take_out n ∷ ops) =
    result (bytes (length (take n q)) (take n q)) ∷ run_queue cb (drop n q) ops

-- What an arriving byte does to the buffer.
rx_char_cb-room :
    (u : Uart) (x : ℕ)
    → u.rx.num_unread < uart_buf_size
    → ((rx_char_cb u x).0.rx ≡ push u.rx x)
      × ((rx_char_cb u x).1 ≡ [])
      × ((rx_char_cb u x).0.has_callback ≡ u.has_callback)
unfolding rx_char_cb
rx_char_cb-room u x h = ground arith

rx_char_cb-full :
    (u : Uart) (x : ℕ)
    → uart_buf_size ≤ u.rx.num_unread
    → ((rx_char_cb u x).0.rx ≡ u.rx)
      × ((rx_char_cb u x).1 ≡ (if u.has_callback then rx_overflow ∷ [] else []))
      × ((rx_char_cb u x).0.has_callback ≡ u.has_callback)
unfolding rx_char_cb
rx_char_cb-full u x h = ground arith

-- No history of arriving bytes and reads tells a valid receive buffer from the bounded queue of
-- the bytes that it holds.
pub run_refines :
    (ops : List Op) (u : Uart)
    → IsValid u.rx
    → run u ops ≡ run_queue u.has_callback (unread u.rx) ops
unfolding run run_queue
run_refines [] u v = refl
run_refines (arrive x ∷ ops) u v = elim (Bool-cases (ltb u.rx.num_unread uart_buf_size)) [
  | inl e ↦
      let r = rx_char_cb-room u x (ltb→lt _ _ e) in
      let u' = (rx_char_cb u x).0 in
      let v' : IsValid u'.rx = subst IsValid (sym r.0) (push-IsValid x v (ltb→lt _ _ e)) in
      rw (length-ring_slice u.rx.buffer u.rx.ridx u.rx.num_unread, e)
        (ap₂ (λ evs rs. events evs ∷ rs) r.1
          (run_refines ops u' v'
            ∙ ap₂ (λ cb q. run_queue cb q ops) r.2
                (ap unread r.0 ∙ unread-push x v (ltb→lt _ _ e))))
  | inr e ↦
      let r = rx_char_cb-full u x (ground arith) in
      let u' = (rx_char_cb u x).0 in
      rw (length-ring_slice u.rx.buffer u.rx.ridx u.rx.num_unread, e)
        (ap₂ (λ evs rs. events evs ∷ rs) r.1
          (run_refines ops u' (subst IsValid (sym r.0) v)
            ∙ ap₂ (λ cb q. run_queue cb q ops) r.2 (ap unread r.0)))
]
run_refines (take_out n ∷ ops) u v =
    let l = read_lem n v in
    ap₂ (λ res rs. result res ∷ rs) l.0
      (run_refines ops (record u { rx = (read true n u.rx).1 }) l.2
        ∙ ap (λ q. run_queue u.has_callback q ops) l.1)
