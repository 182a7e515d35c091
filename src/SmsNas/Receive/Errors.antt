-- ===== src/SmsNas/Receive/Errors.antt =====
-- Segments that `smsnas_rcv_cb` refuses in the middle of a message.
use ts_sdk.Prelude.{
  ℕ, ◌+◌, ◌%◌, ◌^◌, ◌≤◌, ◌<◌, ◌≡◌, refl, ◌≢◌, inl, inr, false, some, List, arith, ltb, ◌==◌, lt→ltb,
  Bool-cases, length, done, ge→ltb,
}
use ts_sdk.SmsNas.Session.{
  Session, Call, proto_rcvd_mem_ovrfl, AckNack, nack_pending, proto_max_msg_sz, reset_rcv_path,
}
use ts_sdk.SmsNas.Receive.{rcv_cb, rcv_path_cleanup, check_validity, collect}
use ts_sdk.SmsNas.Send.Retry.{segment_sms}
use ts_sdk.SmsNas.Receive.Segment.{idle_path, busy_path, listening, retrieve_busy}

module _ (upper : Call → Session → Session) where
  -- A segment that is not the next one of the message that the receive path collects makes the whole
  -- message be dropped, if it is no overflow: nothing is delivered, a NACK is pending, and the path is
  -- free again. The session still listens, and its polling interval stays as it was.
  pub out_of_order :
      (now : ℕ) (s : Session) (area host c : List ℕ)
      (ref total sid wr seq expected timeout seq_no : ℕ) (ack : AckNack)
      → 1 < total
      → wr + length c ≤ proto_max_msg_sz
      → wr + length c ≤ s.rcv_sz
      → seq_no ≢ seq + 1
      → rcv_cb upper now
          (segment_sms host c ref total seq_no)
          (listening s (busy_path ref sid wr seq expected timeout) area ack)
        ≡ done (listening s (idle_path sid timeout) area nack_pending)
  unfolding rcv_cb collect check_validity rcv_path_cleanup reset_rcv_path
  out_of_order now s area host c ref total sid wr seq expected timeout seq_no ack t lc lr ne =
      let n = length c in
      let w : (wr + n) % 2 ^ 16 ≡ wr + n = omega arith in
      let other : (seq_no == seq + 1) ≡ false = ground arith in
      rw
        (
          lt→ltb 1 total t,
          retrieve_busy upper (segment_sms host c ref total seq_no) c area s sid wr seq expected
              timeout ack,
        )
        (rw w (
          rw (ge→ltb s.rcv_sz (wr + n) lr, ge→ltb proto_max_msg_sz (wr + n) lc)
            (elim (Bool-cases (ltb 4 total)) [
              | inl many ↦ rw many refl
              | inr few ↦ rw (few, other) refl
            ])))

  -- A further segment with which the message exceeds the user's buffer makes the callback get
  -- PROTO_RCVD_MEM_OVRFL for the service 0, whatever the service of the message is; and the session does
  -- not listen afterwards, even if the callback sets a receive buffer.
  pub overflow-collecting :
      (now : ℕ) (s : Session) (area host c : List ℕ)
      (ref total sid wr seq expected timeout seq_no : ℕ) (ack : AckNack)
      → 1 < total
      → s.rcv_sz < wr + length c
      → wr + length c < 2 ^ 16
      → rcv_cb upper now
          (segment_sms host c ref total seq_no)
          (listening s (busy_path ref sid wr seq expected timeout) area ack)
        ≡ done (
            rcv_path_cleanup
              (some 0)
              (record (upper
                (record {
                  buf = s.rcv_buf;
                  sz = s.rcv_sz;
                  event = proto_rcvd_mem_ovrfl;
                  svc_id = 0;
                })
                (listening s (busy_path ref sid wr seq expected timeout) area ack)) {
                  rcv_valid = false;
                }))
  unfolding rcv_cb collect
  overflow-collecting now s area host c ref total sid wr seq expected timeout seq_no ack t over
        w16 =
      let n = length c in
      let w : (wr + n) % 2 ^ 16 ≡ wr + n = omega arith in
      rw
        (
          lt→ltb 1 total t,
          retrieve_busy upper (segment_sms host c ref total seq_no) c area s sid wr seq expected
              timeout ack,
        )
        (rw w (rw (lt→ltb s.rcv_sz (wr + n) over) refl))
