-- ===== src/AtCore/Lines.antt =====
-- The handling of the lines that the modem sends on its own, in at_core.c.
use ts_sdk.Prelude.{
  ℕ, zero, suc, ◌+◌, ◌-◌, ◌%◌, ◌^◌, ◌≤◌, ◌<◌, min, ◌≡◌, refl, ap, ◌∙◌, Bool, true, false, Option,
  none, some, List, [], ◌∷◌, arith, ltb, ltb→lt, ◌==◌, ==_iff, ◌≢◌, sym, subst, Bool-cases, inl,
  inr, Outcome, done, failed, fault, hang, Ends, Ends-bind, Ends-bind_eq,
}
use ts_sdk.Uart.Rx.{Rx, uart_buf_size, read}
use ts_sdk.Uart.Rx.Queue.{IsValid, read_eq, ring_slice}
use ts_sdk.Uart.Search.{find_substr, line_from, line_avail}
use ts_sdk.Uart.Search.Reference.{find_substr_lem}
use ts_sdk.Uart.Search.Line.{find_substr_outside}
use ts_sdk.AtCore.{Core, Outside, crlf, line_bytes, urc_loop, process_urc, with_rx}

find_substr-Ends :
    (rx : Rx) (start : ℕ) → IsValid rx → Ends (λ r. Unit {0}) (find_substr rx start (some crlf) 2)
find_substr-Ends rx start v = elim (Bool-cases (ltb start uart_buf_size)) [
  | inl y ↦
      rw
        (find_substr_lem rx start crlf v.whole (ltb→lt start uart_buf_size y)
          (omega (arith, v.widx_at)) (omega arith))
        tt
  | inr n ↦
      let o : uart_buf_size ≤ start = ground arith in
      rw (find_substr_outside rx start 13 (10 ∷ []) (omega (arith, v.whole))) tt
]

line_from-Ends :
    (rx : Rx) (h : Option ℕ) → IsValid rx → Ends (λ r. Unit {0}) (line_from rx h 2 crlf)
line_from-Ends rx none v = tt
line_from-Ends rx (some hidx) v =
    Ends-bind (λ r. Unit {0}) (λ r. Unit {0})
      (find_substr rx ((rx.ridx + 2) % 2 ^ 16) (some crlf) 2) _
      (find_substr-Ends rx ((rx.ridx + 2) % 2 ^ 16) v) (λ t u. tt)

line_avail-Ends :
    (rx : Rx) → IsValid rx → Ends (λ r. Unit {0}) (line_avail rx (some crlf) (some crlf))
unfolding line_avail
line_avail-Ends rx v = elim (Bool-cases (rx.num_unread == 0)) [
  | inl z ↦ rw z tt
  | inr s ↦ rw s (elim (Bool-cases (ltb rx.num_unread 4)) [
    | inl y ↦ rw y tt
    | inr n ↦ rw n (
        Ends-bind (λ r. Unit {0}) (λ r. Unit {0}) (find_substr rx rx.ridx (some crlf) 2) _
          (find_substr-Ends rx rx.ridx v) (λ h u. line_from-Ends rx h v))
  ])
]

-- Where nothing is unread, there is no line.
line_avail-empty :
    (rx : Rx) → rx.num_unread ≡ 0 → line_avail rx (some crlf) (some crlf) ≡ done (some 0)
unfolding line_avail
line_avail-empty rx z = rw z refl

-- The bytes of the line that has been looked for.
looked_bytes : Outcome (Option ℕ) → ℕ
looked_bytes (done l) = line_bytes l
looked_bytes failed = 0
looked_bytes fault = 0
looked_bytes hang = 0

-- With a line something is unread.
unread_pos :
    (rx : Rx) (l : Option ℕ)
    → line_avail rx (some crlf) (some crlf) ≡ done l
    → line_bytes l ≢ 0
    → 0 < rx.num_unread
unfolding looked_bytes
unread_pos rx l is s = elim (Bool-cases (rx.num_unread == 0)) [
  | inl z ↦
      let e : line_bytes l ≡ 0 =
        ap looked_bytes (sym is ∙ line_avail-empty rx ((==_iff _ _).0 z)) in
      absurd (s e)
  | inr z ↦ ground arith
]

read-IsValid :
    (n : ℕ) (rx : Rx)
    → IsValid rx
    → IsValid (record rx {
      ridx = (rx.ridx + min n rx.num_unread) % uart_buf_size;
      num_unread = rx.num_unread - min n rx.num_unread;
    })
read-IsValid n rx v = record {
  whole = v.whole;
  ridx_in = omega arith;
  at_most = omega (arith, v.at_most);
  widx_at = omega (arith, v.widx_at, v.at_most, v.ridx_in);
}

-- No byte comes in while the handlers run; they may take bytes out of the receive buffer.
pub record Keeps {ℓ} {W : Type ℓ} (out : Outside W) : Type ℓ where
  pub modem_valid :
      (urc : List ℕ) (c : Core W)
      → IsValid c.uart.rx
      → IsValid ((out.at_modem_process_urc urc c).1).uart.rx
  pub modem_unread :
      (urc : List ℕ) (c : Core W)
      → ((out.at_modem_process_urc urc c).1).uart.rx.num_unread ≤ c.uart.rx.num_unread
  pub callback_valid :
      (urc : List ℕ) (c : Core W) → IsValid c.uart.rx → IsValid (out.urc_callback urc c).uart.rx
  pub callback_unread :
      (urc : List ℕ) (c : Core W)
      → (out.urc_callback urc c).uart.rx.num_unread ≤ c.uart.rx.num_unread

module _ {ℓ} {W : Type ℓ} (out : Outside W) (keeps : Keeps out) where
  -- The receive buffer is in order, and no line waits in it.
  pub record NoLine (c : Core W) : Type 0 where
    pub valid : IsValid c.uart.rx
    pub line : Option ℕ
    pub looked : line_avail c.uart.rx (some crlf) (some crlf) ≡ done line
    pub none_there : line_bytes line ≡ 0

  urc_loop-Ends :
      (fuel : ℕ) (c : Core W)
      → IsValid c.uart.rx
      → c.uart.rx.num_unread < fuel
      → Ends NoLine (urc_loop out fuel c)
  unfolding urc_loop
  urc_loop-Ends zero c v e = absurd (omega arith)
  urc_loop-Ends (suc fuel) c v e =
      let rx = c.uart.rx in
      Ends-bind_eq (λ r. Unit {0}) NoLine (line_avail rx (some crlf) (some crlf)) _
        (line_avail-Ends rx v)
        (λ l is u.
          let n = line_bytes l in
          elim (Bool-cases (n == 0)) [
            | inl z ↦
                rw z (record { valid = v; line = l; looked = is; none_there = (==_iff _ _).0 z })
            | inr s ↦
                let some_bytes : n ≢ 0 = ground arith in
                let pos = unread_pos rx l is some_bytes in
                let rx' : Rx = (read true n rx).1 in
                let c1 : Core W = with_rx out c rx' in
                let r = read_eq n rx v.ridx_in in
                let v1 : IsValid rx' = subst (λ x. IsValid x.1) (sym r) (read-IsValid n rx v) in
                let left : rx'.num_unread ≡ rx.num_unread - min n rx.num_unread =
                  ap (λ x. x.1.num_unread) r in
                let less : rx'.num_unread < fuel = omega (arith, left, pos) in
                let urc = ring_slice rx.buffer rx.ridx (min n rx.num_unread) in
                let m = out.at_modem_process_urc urc c1 in
                let mv = keeps.modem_valid urc c1 v1 in
                let mu = keeps.modem_unread urc c1 in
                rw (s, ap (λ x. x.0) r)
                  (elim (Bool-cases m.0) [
                    | inl taken ↦ rw taken (urc_loop-Ends fuel m.1 mv (omega arith))
                    | inr passed ↦ rw passed (
                        urc_loop-Ends fuel (out.urc_callback urc m.1)
                          (keeps.callback_valid urc m.1 mv)
                          (omega (arith, keeps.callback_unread urc m.1)))
                  ])
          ])

  -- While no byte comes in, and with a receive buffer in order, `at_core_process_urc` ends with one round
  -- more than there are bytes unread, whatever the handlers take out of the buffer. Unless it ends by the
  -- access outside the buffer that `uart_util_line_avail` may make, the buffer is then in order and no
  -- line waits in it.
  pub process_urc-Ends :
      (fuel : ℕ) (mode : Bool) (c : Core W)
      → IsValid c.uart.rx
      → c.uart.rx.num_unread < fuel
      → Ends NoLine (process_urc out fuel mode c)
  unfolding process_urc
  process_urc-Ends fuel true c v e =
      Ends-bind NoLine NoLine (urc_loop out fuel (record c { proc_urc = true })) _
        (urc_loop-Ends fuel (record c { proc_urc = true }) v e)
        (λ c' q. record {
          valid = q.valid;
          line = q.line;
          looked = q.looked;
          none_there = q.none_there;
        })
  process_urc-Ends fuel false c v e =
      Ends-bind NoLine NoLine (urc_loop out fuel c) _ (urc_loop-Ends fuel c v e) (λ c' q. q)
