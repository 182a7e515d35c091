-- ===== src/Uart/Rx/Queue.antt =====
-- The receive buffer refines a queue of at most UART_BUF_SIZE bytes.
use ts_sdk.Prelude.{
  ℕ, zero, suc, ◌+◌, ◌-◌, Bool-cases, inl, inr, ◌==◌, ==_iff, ◌%◌, ◌≤◌, ◌<◌, ◌≡◌, refl, ap, ap₂,
  ◌∙◌, ◌≢◌, List, [], ◌∷◌, ◌++◌, arith, length, get_or, set, length-set, get_or-set_self,
  get_or-set_ne, drop, take, min, true, sym, append-nil, append_assoc,
}
use ts_sdk.Uart.Rx.{Rx, uart_buf_size, push, read_loop, read, bytes, flush}

-- The `n` bytes of the buffer from index `i` on, going round at its end.
abbrev pub ring_slice : List ℕ → ℕ → ℕ → List ℕ
ring_slice buf i zero = []
ring_slice buf i (suc n) = get_or buf i 0 ∷ ring_slice buf ((i + 1) % uart_buf_size) n

-- The bytes that wait to be read, oldest first.
abbrev pub unread : Rx → List ℕ
unread rx = ring_slice rx.buffer rx.ridx rx.num_unread

pub record IsValid (rx : Rx) : Type 0 where
  pub whole : length rx.buffer ≡ uart_buf_size
  pub ridx_in : rx.ridx < uart_buf_size
  pub at_most : rx.num_unread ≤ uart_buf_size
  pub widx_at : rx.widx ≡ (rx.ridx + rx.num_unread) % uart_buf_size

pub length-ring_slice : (buf : List ℕ) (i n : ℕ) → length (ring_slice buf i n) ≡ n
length-ring_slice buf i zero = refl
length-ring_slice buf i (suc n) = ap suc (length-ring_slice buf ((i + 1) % uart_buf_size) n)

-- A write at the first free index leaves the bytes before it alone and comes behind them.
ring_slice-set :
    (buf : List ℕ) (i n w x : ℕ)
    → length buf ≡ uart_buf_size
    → i < uart_buf_size
    → n < uart_buf_size
    → w ≡ (i + n) % uart_buf_size
    → ring_slice (set buf w x) i (suc n) ≡ ring_slice buf i n ++ (x ∷ [])
ring_slice-set buf i zero w x l h k e =
    let w' : w ≡ i = omega arith in
    rw w' (ap (λ v. v ∷ []) (get_or-set_self buf i x 0 (omega arith)))
ring_slice-set buf i (suc n) w x l h k e =
    let ne : w ≢ i = omega arith in
    ap₂ ◌∷◌ (get_or-set_ne buf x 0 ne) (
      ring_slice-set buf ((i + 1) % uart_buf_size) n w x l (omega arith) (omega arith)
        (omega arith))

pub push-IsValid :
    {rx : Rx} (x : ℕ) → IsValid rx → rx.num_unread < uart_buf_size → IsValid (push rx x)
unfolding push
push-IsValid {rx} x v h = record {
  whole = length-set rx.buffer rx.widx x ∙ v.whole;
  ridx_in = v.ridx_in;
  at_most = omega arith;
  widx_at = omega (arith, v.widx_at);
}

pub unread-push :
    {rx : Rx} (x : ℕ)
    → IsValid rx
    → rx.num_unread < uart_buf_size
    → unread (push rx x) ≡ unread rx ++ (x ∷ [])
unfolding push
unread-push {rx} x v h =
    ap (ring_slice (set rx.buffer rx.widx x) rx.ridx) {y = suc rx.num_unread} (omega arith)
    ∙ ring_slice-set rx.buffer rx.ridx rx.num_unread rx.widx x v.whole v.ridx_in h v.widx_at

-- The copy loop takes the next `n` bytes and moves the read index past them.
read_loop_lem :
    (n : ℕ) (rx : Rx) (out : List ℕ)
    → rx.ridx < uart_buf_size
    → read_loop n rx out
      ≡ (record rx { ridx = (rx.ridx + n) % uart_buf_size }, out ++ ring_slice rx.buffer rx.ridx n)
unfolding read_loop
read_loop_lem zero rx out h =
    let e : rx.ridx ≡ (rx.ridx + 0) % uart_buf_size = omega arith in
    ap₂ (λ j l. (record rx { ridx = j }, l)) e (sym (append-nil out))
read_loop_lem (suc n) rx out h =
    let e : ((rx.ridx + 1) % uart_buf_size + n) % uart_buf_size
        ≡ (rx.ridx + suc n) % uart_buf_size =
      omega arith in
    read_loop_lem n (record rx { ridx = (rx.ridx + 1) % uart_buf_size })
      (out ++ (get_or rx.buffer rx.ridx 0 ∷ [])) (omega arith)
    ∙ ap₂ (λ j l. (record rx { ridx = j }, l)) e
        (append_assoc out (get_or rx.buffer rx.ridx 0 ∷ [])
          (ring_slice rx.buffer ((rx.ridx + 1) % uart_buf_size) n))

take-ring_slice :
    (buf : List ℕ) (i n k : ℕ) → take k (ring_slice buf i n) ≡ ring_slice buf i (min k n)
take-ring_slice buf i n zero = ap (ring_slice buf i) {x = 0} (omega arith)
take-ring_slice buf i zero (suc k) = ap (ring_slice buf i) {x = 0} (omega arith)
take-ring_slice buf i (suc n) (suc k) =
    ap (λ l. get_or buf i 0 ∷ l) (take-ring_slice buf ((i + 1) % uart_buf_size) n k)
    ∙ ap (ring_slice buf i) {x = suc (min k n)} (omega arith)

drop-ring_slice :
    (buf : List ℕ) (i n k : ℕ)
    → i < uart_buf_size
    → drop k (ring_slice buf i n) ≡ ring_slice buf ((i + min k n) % uart_buf_size) (n - min k n)
drop-ring_slice buf i n zero h =
    let e : i ≡ (i + min 0 n) % uart_buf_size = omega arith in
    let f : n ≡ n - min 0 n = omega arith in ap₂ (ring_slice buf) e f
drop-ring_slice buf i zero (suc k) h = ap (ring_slice buf _) {x = 0} (omega arith)
drop-ring_slice buf i (suc n) (suc k) h =
    let e : ((i + 1) % uart_buf_size + min k n) % uart_buf_size
        ≡ (i + min (suc k) (suc n)) % uart_buf_size =
      omega arith in
    let f : n - min k n ≡ suc n - min (suc k) (suc n) = omega arith in
    drop-ring_slice buf ((i + 1) % uart_buf_size) n k (omega arith) ∙ ap₂ (ring_slice buf) e f

-- `uart_util_read` in one equation.
pub read_eq :
    (sz : ℕ) (rx : Rx)
    → rx.ridx < uart_buf_size
    → read true sz rx ≡ (
      bytes (min sz rx.num_unread) (ring_slice rx.buffer rx.ridx (min sz rx.num_unread)),
      record rx {
        ridx = (rx.ridx + min sz rx.num_unread) % uart_buf_size;
        num_unread = rx.num_unread - min sz rx.num_unread;
      },
    )
unfolding read
read_eq sz rx h = elim (Bool-cases (rx.num_unread == 0)) [
  | inl e ↦
      let z : rx.num_unread ≡ 0 = (==_iff _ _).0 e in
      let m : min sz rx.num_unread ≡ 0 = omega arith in
      let j : (rx.ridx + 0) % uart_buf_size ≡ rx.ridx = omega arith in
      let k : rx.num_unread - 0 ≡ rx.num_unread = omega arith in rw e (rw m (rw (j, k)))
  | inr e ↦ rw e (rw (read_loop_lem (min sz rx.num_unread) rx [] h))
]

-- `uart_util_read` returns the oldest bytes, as many as are asked for and there, and leaves the
-- rest.
pub read_lem :
    (sz : ℕ) {rx : Rx}
    → IsValid rx
    → let (result, rx') = read true sz rx in
      (result ≡ bytes (length (take sz (unread rx))) (take sz (unread rx)))
      × (unread rx' ≡ drop sz (unread rx))
      × IsValid rx'
read_lem sz {rx} v =
    rw
      (
        read_eq sz rx v.ridx_in,
        take-ring_slice rx.buffer rx.ridx rx.num_unread sz,
        length-ring_slice rx.buffer rx.ridx (min sz rx.num_unread),
      )
      (
        refl,
        sym (drop-ring_slice rx.buffer rx.ridx rx.num_unread sz v.ridx_in),
        record {
          whole = v.whole;
          ridx_in = omega arith;
          at_most = omega (arith, v.at_most);
          widx_at = omega (arith, v.widx_at, v.at_most, v.ridx_in);
        },
      )

pub flush-IsValid :
    (rx : Rx) → length rx.buffer ≡ uart_buf_size → IsValid (flush rx) × (unread (flush rx) ≡ [])
unfolding flush
flush-IsValid rx h =
    (record { whole = h; ridx_in = omega arith; at_most = omega arith; widx_at = refl }, refl)
