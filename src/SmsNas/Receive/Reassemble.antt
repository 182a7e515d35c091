-- ===== src/SmsNas/Receive/Reassemble.antt =====
-- A message of several segments that arrive in order.
use ts_sdk.Prelude.{
  ℕ, suc, ◌+◌, ◌≤◌, ◌<◌, ◌≡◌, refl, ap, ◌∙◌, false, some, List, [], ◌∷◌, ◌++◌, append-nil,
  append_assoc, arith, length, take, length-append, write_at, Outcome, done, ◌>>=◌, length-write_at,
  take-write_at,
}
use ts_sdk.SmsNas.Session.{Session, Call, max_conc_sms_num, AckNack, ack_pending, proto_max_msg_sz}
use ts_sdk.SmsNas.Receive.{rcv_cb, rcv_path_cleanup, smsnas_version}
use ts_sdk.SmsNas.Send.Retry.{segment_sms}
use ts_sdk.SmsNas.Send.Segments.{concat}
use ts_sdk.SmsNas.Receive.Segment.{
  busy_path, listening, msg_call, middle_segment, last_segment, idle_path, first_segment,
}

module _ (upper : Call → Session → Session) (clock : ℕ → ℕ) (host : List ℕ) (ref total : ℕ) where
  -- The segments from number `seq` on arrive, at the times of the clock.
  abbrev pub receive_all : ℕ → List (List ℕ) → Session → Outcome Session
  receive_all seq [] s = done s
  receive_all seq (c ∷ cs) s =
      rcv_cb upper (clock seq) (segment_sms host c ref total seq) s >>= receive_all (seq + 1) cs

  -- The segments behind the first `seq` ones, of which the path has the bytes.
  receive_rest :
      (c : List ℕ) (cs : List (List ℕ)) (s : Session) (area : List ℕ)
      (sid wr seq expected timeout : ℕ) (ack : AckNack)
      → seq + suc (length cs) ≡ total
      → total ≤ max_conc_sms_num
      → length area ≡ proto_max_msg_sz
      → wr + length (concat (c ∷ cs)) ≤ proto_max_msg_sz
      → wr + length (concat (c ∷ cs)) ≤ s.rcv_sz
      → s.rcv_sz ≤ length s.rcv_buf
      → 0 < seq
      → (s' : Session) × (receive_all
            (suc seq)
            (c ∷ cs)
            (listening s (busy_path ref sid wr seq expected timeout) area ack)
          ≡ done (
              rcv_path_cleanup
                (some 0)
                (upper (msg_call s (take wr area ++ concat (c ∷ cs)) sid) s')))
        × (s'.rcv_valid ≡ false)
  receive_rest c [] s area sid wr seq expected timeout ack t t4 la lc lr lb p =
      let e : length (c ++ []) ≡ length c = ap length (append-nil c) in
      let r =
        last_segment upper (clock (suc seq)) s area host c ref total sid wr seq expected timeout ack
          (omega arith) t4 la (omega arith) (omega arith) lb p in
      let s' =
        record (listening s (busy_path ref sid wr seq expected timeout) (write_at area wr c) ack) {
          rcv_valid = false;
          rcv_buf = write_at s.rcv_buf 0 (take wr area ++ c);
        } in
      (s', (rw (r, append-nil c) refl), refl)
  receive_rest c (d ∷ cs) s area sid wr seq expected timeout ack t t4 la lc lr lb p =
      let e : length (c ++ concat (d ∷ cs)) ≡ length c + length (concat (d ∷ cs)) =
        length-append c (concat (d ∷ cs)) in
      let r =
        middle_segment upper (clock (suc seq)) s area host c ref total sid wr seq expected timeout
          ack (omega arith) t4 la (omega arith) (omega arith) p in
      let area' = write_at area wr c in
      let la' : length area' ≡ proto_max_msg_sz = length-write_at area wr c (omega arith) ∙ la in
      let rest =
        receive_rest d cs s area' sid (wr + length c) (suc seq) expected (clock (suc seq) + 2000)
          ack_pending (omega arith) t4 la' (omega arith) (omega arith) lb (omega arith) in
      let next : suc seq + 1 ≡ suc (suc seq) = omega arith in
      let so_far : take (wr + length c) area' ≡ take wr area ++ c =
        take-write_at area wr c refl (omega arith) in
      (
        rest.0,
        (rw r
            (rw next (rest.1 ∙ rw (so_far, append_assoc (take wr area) c (concat (d ∷ cs))) refl))),
        rest.2,
      )

  -- On a session that listens with a free receive path, the segments of a message of two to four
  -- segments, arriving in order, make the callback get the whole message once, with the service of
  -- its header, if the message fits into the user's buffer and into the 512 bytes of the receive
  -- path. The receive buffer is given back before the callback, and the path is cleaned up after it.
  pub receive_segments :
      (c d : List ℕ) (cs : List (List ℕ)) (s : Session) (area : List ℕ) (sid sid' timeout : ℕ)
      (ack : AckNack)
      → suc (suc (length cs)) ≡ total
      → total ≤ max_conc_sms_num
      → length area ≡ proto_max_msg_sz
      → length (concat ((smsnas_version ∷ sid ∷ c) ∷ d ∷ cs)) ≤ proto_max_msg_sz
      → length (concat ((smsnas_version ∷ sid ∷ c) ∷ d ∷ cs)) ≤ s.rcv_sz
      → s.rcv_sz ≤ length s.rcv_buf
      → (s' : Session) × (receive_all 1
            ((smsnas_version ∷ sid ∷ c) ∷ d ∷ cs)
            (listening s (idle_path sid' timeout) area ack)
          ≡ done (
              rcv_path_cleanup
                (some 0)
                (upper (msg_call s (concat ((smsnas_version ∷ sid ∷ c) ∷ d ∷ cs)) sid) s')))
        × (s'.rcv_valid ≡ false)
  receive_segments c d cs s area sid sid' timeout ack t t4 la lc lr lb =
      let bytes : List ℕ = smsnas_version ∷ sid ∷ c in
      let e : length (c ++ concat (d ∷ cs)) ≡ length c + length (concat (d ∷ cs)) =
        length-append c (concat (d ∷ cs)) in
      let r =
        first_segment upper (clock 1) s area host c ref total sid sid' timeout ack (omega arith) t4
          la (omega arith) (omega arith) in
      let area' = write_at area 0 bytes in
      let la' : length area' ≡ proto_max_msg_sz = length-write_at area 0 bytes (omega arith) ∙ la in
      let rest =
        receive_rest d cs s area' sid (length bytes) 1 0 (clock 1 + 2000) ack_pending (omega arith)
          t4 la' (omega arith) (omega arith) lb (omega arith) in
      let so_far : take (length bytes) area' ≡ bytes =
        take-write_at area 0 bytes {n = length bytes} (omega arith) (omega arith) in
      (
        rest.0,
        (rw r (
            rest.1
            ∙ ap
                (λ b. done (
                  rcv_path_cleanup (some 0) (upper (msg_call s (b ++ concat (d ∷ cs)) sid) rest.0)))
                so_far)),
        rest.2,
      )
