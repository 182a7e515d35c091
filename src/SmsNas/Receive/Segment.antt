-- ===== src/SmsNas/Receive/Segment.antt =====
-- What one segment does to a session with one receive path, the number that is configured.
use ts_sdk.Prelude.{
  ℕ, suc, ◌+◌, ◌%◌, ◌^◌, ◌≤◌, ◌<◌, ◌≡◌, refl, ◌∙◌, true, false, none, some, List, [], ◌∷◌, ◌++◌,
  arith, ◌==◌, lt→ltb, ==_iff, length, take, length-append, length-take, write_at, take-length,
  done, copy_from_lem, copy_to_lem, ge→ltb, length-write_at, take-write_at,
}
use ts_sdk.Sms.Types.{Sms}
use ts_sdk.SmsNas.Session.{
  Session, RcvPath, Call, proto_rcvd_msg, smsnas_version, max_conc_sms_num,
  conc_next_seg_timeout_ms, AckNack, ack_pending, proto_max_msg_sz,
}
use ts_sdk.SmsNas.Receive.{
  rcv_cb, rcv_path_cleanup, find_path, retrieve_rcv_path, check_validity, collect, finish_msg,
  update_ack_rcv_path,
}
use ts_sdk.SmsNas.Send.Retry.{segment_sms}

-- A receive path that is free.
abbrev pub idle_path : ℕ → ℕ → RcvPath
idle_path sid timeout = record {
  conct_in_progress = false;
  service_id = sid;
  cref_num = none;
  cur_seq = 0;
  expected_seq = 0;
  next_seq_timeout = timeout;
  buf = 0;
  wr_idx = 0;
  rcv_sz = proto_max_msg_sz;
}

-- A receive path that has `wr` bytes up to segment number `seq`.
abbrev pub busy_path : (ref sid wr seq expected timeout : ℕ) → RcvPath
busy_path ref sid wr seq expected timeout = record {
  conct_in_progress = true;
  service_id = sid;
  cref_num = some ref;
  cur_seq = seq;
  expected_seq = expected;
  next_seq_timeout = timeout;
  buf = 0;
  wr_idx = wr;
  rcv_sz = proto_max_msg_sz;
}

-- A session that has a receive buffer and a callback, with one path.
abbrev pub listening : Session → RcvPath → List ℕ → AckNack → Session
listening s p area ack = record s {
  rcv_msg = p ∷ [];
  rcv_valid = true;
  has_rcv_cb = true;
  smsnas_rcv_buf = area;
  ack_nack_pend = ack;
}

-- What is handed to the callback with a whole message.
abbrev pub msg_call : Session → List ℕ → ℕ → Call
msg_call s msg sid = record {
  buf = write_at s.rcv_buf 0 msg;
  sz = length msg;
  event = proto_rcvd_msg;
  svc_id = sid;
}

module _ (upper : Call → Session → Session) where
  pub first_segment :
      (now : ℕ) (s : Session) (area host c : List ℕ) (ref total sid sid' timeout : ℕ)
      (ack : AckNack)
      → 1 < total
      → total ≤ max_conc_sms_num
      → length area ≡ proto_max_msg_sz
      → suc (suc (length c)) ≤ proto_max_msg_sz
      → suc (suc (length c)) ≤ s.rcv_sz
      → rcv_cb upper now
          (segment_sms host (smsnas_version ∷ sid ∷ c) ref total 1)
          (listening s (idle_path sid' timeout) area ack)
        ≡ done (
            listening s
              (busy_path ref sid (suc (suc (length c))) 1 0 (now + conc_next_seg_timeout_ms))
              (write_at area 0 (smsnas_version ∷ sid ∷ c))
              ack_pending)
  unfolding rcv_cb retrieve_rcv_path find_path check_validity collect update_ack_rcv_path
  first_segment now s area host c ref total sid sid' timeout ack t1 t4 la lc lr =
      let bytes : List ℕ = smsnas_version ∷ sid ∷ c in
      let n = length bytes in
      let w : (0 + n) % 2 ^ 16 ≡ n = omega arith in
      rw (lt→ltb 1 total t1, ge→ltb 4 total t4)
        (rw w (
          rw (ge→ltb s.rcv_sz n lr, ge→ltb proto_max_msg_sz n lc)
            (rw (copy_from_lem bytes 0 n (omega arith), take-length c)
              (rw (copy_to_lem area 0 bytes (omega arith)) refl))))

  -- A segment of the message that the path collects.
  pub retrieve_busy :
      (m : Sms) (c area : List ℕ) (s : Session) (sid wr seq expected timeout : ℕ) (ack : AckNack)
      → retrieve_rcv_path m c
          (listening s (busy_path m.ref_no sid wr seq expected timeout) area ack)
        ≡ done (some (0, false, 0))
  unfolding retrieve_rcv_path find_path
  retrieve_busy m c area s sid wr seq expected timeout ack =
      let e : (m.ref_no == m.ref_no) ≡ true = (==_iff m.ref_no m.ref_no).1 refl in
      rw (retrieve_rcv_path, find_path, e) refl

  pub middle_segment :
      (now : ℕ) (s : Session) (area host c : List ℕ) (ref total sid wr seq expected timeout : ℕ)
      (ack : AckNack)
      → suc seq < total
      → total ≤ max_conc_sms_num
      → length area ≡ proto_max_msg_sz
      → wr + length c ≤ proto_max_msg_sz
      → wr + length c ≤ s.rcv_sz
      → 0 < seq
      → rcv_cb upper now
          (segment_sms host c ref total (suc seq))
          (listening s (busy_path ref sid wr seq expected timeout) area ack)
        ≡ done (
            listening s
              (busy_path ref sid
                (wr + length c)
                (suc seq)
                expected
                (now + conc_next_seg_timeout_ms))
              (write_at area wr c)
              ack_pending)
  unfolding rcv_cb retrieve_rcv_path find_path check_validity collect update_ack_rcv_path
  middle_segment now s area host c ref total sid wr seq expected timeout ack t1 t4 la lc lr p =
      let n = length c in
      let w : (wr + n) % 2 ^ 16 ≡ wr + n = omega arith in
      let next : (suc seq == seq + 1) ≡ true = ground arith in
      let here : 0 + wr ≡ wr = omega arith in
      let more : (suc seq == total) ≡ false = ground arith in
      rw
        (
          lt→ltb 1 total (omega arith),
          retrieve_busy (segment_sms host c ref total (suc seq)) c area s sid wr seq expected
              timeout ack,
        )
        (rw w (
          rw (ge→ltb s.rcv_sz (wr + n) lr, ge→ltb proto_max_msg_sz (wr + n) lc)
            (rw (ge→ltb 4 total t4, next)
              (rw (copy_from_lem c 0 n (omega arith), take-length c, here)
                (rw (copy_to_lem area wr c (omega arith), more) refl)))))

  pub last_segment :
      (now : ℕ) (s : Session) (area host c : List ℕ) (ref total sid wr seq expected timeout : ℕ)
      (ack : AckNack)
      → suc seq ≡ total
      → total ≤ max_conc_sms_num
      → length area ≡ proto_max_msg_sz
      → wr + length c ≤ proto_max_msg_sz
      → wr + length c ≤ s.rcv_sz
      → s.rcv_sz ≤ length s.rcv_buf
      → 0 < seq
      → rcv_cb upper now
          (segment_sms host c ref total (suc seq))
          (listening s (busy_path ref sid wr seq expected timeout) area ack)
        ≡ done (
            rcv_path_cleanup (some 0) (
              upper
                (msg_call s (take wr area ++ c) sid)
                (record (listening s
                  (busy_path ref sid wr seq expected timeout)
                  (write_at area wr c)
                  ack) { rcv_valid = false; rcv_buf = write_at s.rcv_buf 0 (take wr area ++ c) })))
  unfolding rcv_cb collect finish_msg check_validity
  last_segment now s area host c ref total sid wr seq expected timeout ack t1 t4 la lc lr lb p =
      let n = length c in
      let w : (wr + n) % 2 ^ 16 ≡ wr + n = omega arith in
      let next : (suc seq == seq + 1) ≡ true = ground arith in
      let here : 0 + wr ≡ wr = omega arith in
      let last : (suc seq == total) ≡ true = ground arith in
      let area' = write_at area wr c in
      let la' : length area' ≡ proto_max_msg_sz = length-write_at area wr c (omega arith) ∙ la in
      let msg = take wr area ++ c in
      let lm : length msg ≡ wr + n =
        omega (arith, length-append (take wr area) c, length-take wr area) in
      rw
        (
          lt→ltb 1 total (omega arith),
          retrieve_busy (segment_sms host c ref total (suc seq)) c area s sid wr seq expected
              timeout ack,
        )
        (rw w (
          rw (ge→ltb s.rcv_sz (wr + n) lr, ge→ltb proto_max_msg_sz (wr + n) lc)
            (rw (ge→ltb 4 total t4, next)
              (rw (copy_from_lem c 0 n (omega arith), take-length c, here)
                (rw (copy_to_lem area wr c (omega arith), last)
                  (rw
                    (
                      copy_from_lem area' 0 (wr + n) (omega arith),
                      take-write_at area wr c refl (omega arith),
                    )
                    (rw (copy_to_lem s.rcv_buf 0 msg (omega arith)) (rw lm refl))))))))
