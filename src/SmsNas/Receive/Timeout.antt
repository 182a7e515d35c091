-- ===== src/SmsNas/Receive/Timeout.antt =====
-- `smsnas_maintenance` while a message is collected.
use ts_sdk.Prelude.{
  le→leb, ◌%◌, ℕ, ◌+◌, ◌-◌, ◌%◌, ◌^◌, ◌<◌, ◌≡◌, refl, inl, inr, Bool, true, false, List, arith, ltb,
  leb, if◌then◌else◌, Bool-cases, le→leb,
}
use ts_sdk.SmsNas.Session.{Session, AckNack, no_ack_nack, reset_rcv_path}
use ts_sdk.SmsNas.Receive.{
  maintenance, maintain_path, maintain_paths, handle_pend_ack_nack, rcv_path_cleanup,
}
use ts_sdk.SmsNas.Receive.Segment.{idle_path, busy_path, listening}

time_left :
    (poll_due : Bool) (now timeout : ℕ)
    → now < timeout
    → timeout < 2 ^ 32
    → (timeout + (if poll_due then 2 ^ 64 - now else 0)) % 2 ^ 32
      ≡ (if poll_due then timeout - now else timeout)
time_left true now timeout h t = omega arith
time_left false now timeout h t = omega arith

-- With a session of one receive path, which collects a message, a sequence number below 255 and a
-- time of the next segment below 2^32: `smsnas_maintenance` hands the pending ACK or NACK to the modem.
-- Before that time is over, it then expects the next sequence number and sets the time and the polling
-- interval to the time that is left, when polling is due, and otherwise to the time itself. When the
-- time is over and the expected segment has not come, it drops the message and ends the polling; it
-- only changes the session and calls no callback for that, so that no receive timeout is delivered.
-- When the expected segment has come, it leaves the path as it is.
pub maintenance_lem :
    (poll_due : Bool) (now : ℕ) (s : Session) (area : List ℕ) (ref sid wr seq expected timeout : ℕ)
    (ack : AckNack)
    → timeout < 2 ^ 32
    → seq < 255
    → let left = if poll_due then timeout - now else timeout in
      maintenance poll_due now (listening s (busy_path ref sid wr seq expected timeout) area ack)
      ≡ (
        ack,
        (if leb timeout now
            then (if ltb seq expected
                then record (listening s (idle_path sid timeout) area no_ack_nack) {
                  next_seg_rcv_timeout = 0;
                }
                else listening s (busy_path ref sid wr seq expected timeout) area no_ack_nack)
            else record (listening s (busy_path ref sid wr seq (seq + 1) left) area no_ack_nack) {
              next_seg_rcv_timeout = left;
            }),
      )
unfolding maintenance handle_pend_ack_nack maintain_paths maintain_path rcv_path_cleanup
    reset_rcv_path
maintenance_lem poll_due now s area ref sid wr seq expected timeout ack t c =
    elim (Bool-cases (leb timeout now)) [
      | inl over ↦ elim (Bool-cases (ltb seq expected)) [
        | inl missing ↦ rw (maintenance, maintain_paths, maintain_path, over, missing) refl
        | inr there ↦ rw (maintenance, maintain_paths, maintain_path, over, there) refl
      ]
      | inr early ↦
          rw (maintenance, maintain_paths, maintain_path, early)
            (let left = if poll_due then timeout - now else timeout in
              let n : now < timeout = ground arith in
              let e : (seq + 1) % 256 ≡ seq + 1 = omega arith in
              rw (time_left poll_due now timeout n t, e) (rw (le→leb left left (omega arith)) refl))
    ]
