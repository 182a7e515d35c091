-- ===== src/Cloud/Receive.antt =====
-- The receive buffer of cloud_comm.c and the callbacks that it gives to a protocol.
use ts_sdk.Prelude.{
  ℕ, ◌+◌, ◌%◌, ◌^◌, Bool, true, false, Option, none, some, List, leb, if◌then◌else◌, set, replicate,
  length, write_at, Outcome, done, fault, ◌>>=◌,
}
use ts_sdk.Cloud.Types.{
  CcEvent, evt_none, rcvd_msg, rcvd_wrong_msg, rcvd_overflow, send_acked, send_nacked, send_timeout,
  Buffer, Notice, Cloud, Proto, Upcall, recv_cb, send_cb, Run, ends, calls, RecvResult, recv_failed,
  recv_busy, recv_success, ProtoEvent, proto_rcvd_ack, proto_rcvd_nack, proto_send_timeout,
  proto_rcvd_mem_ovrfl, proto_rcvd_quit, proto_rcvd_wrong_msg, proto_rcvd_msg,
}
use ts_sdk.Cloud.Dispatch.{buffer_at, dispatch_event}

-- `reset_conn_states`.
unfoldable pub reset_conn_states : Cloud → Cloud
reset_conn_states c = record c { send_in_progress = false; out_buf = none }

abbrev pub set_buffer : ℕ → Buffer → Cloud → Cloud
set_buffer i b c = record c { buffers = set c.buffers i b }

-- The bytes that a protocol wrote into the receive buffer, and its `current_len`, of `uint16_t`.
unfoldable pub store_received : List ℕ → Option ℕ → Cloud → Outcome Cloud
unfolding buffer_at
store_received bytes none c = fault
store_received bytes (some i) c = elim (buffer_at (some i) c) [
  | none ↦ fault
  | some b ↦ done (set_buffer i (record b { buf_ptr = some bytes }) c)
]

unfoldable pub set_current_len : ℕ → Option ℕ → Cloud → Outcome Cloud
unfolding buffer_at
set_current_len sz none c = fault
set_current_len sz (some i) c = elim (buffer_at (some i) c) [
  | none ↦ fault
  | some b ↦ done (set_buffer i (record b { current_len = sz % 2 ^ 16 }) c)
]

-- The event that `cc_send_cb` dispatches.
abbrev pub send_event : ProtoEvent → CcEvent
send_event proto_rcvd_ack = send_acked
send_event proto_rcvd_nack = send_nacked
send_event proto_send_timeout = send_timeout
send_event _ = evt_none

module _ {ℓ} {P : Type ℓ} (proto : Proto P) where
  -- `activate_buffer_for_recv`.
  unfoldable pub activate_buffer : Option ℕ → Cloud × P → Outcome (RecvResult × Cloud × P)
  unfolding buffer_at
  activate_buffer none st = fault
  activate_buffer (some i) (c, p) = elim (buffer_at (some i) c) [
    | none ↦ fault
    | some b ↦ elim (b.buf_ptr) [
      | none ↦ fault
      | some mem ↦
          let sz = b.bufsz + proto.overhead_sz in
          let mem' = write_at mem 0 (replicate sz 0) in
          let c' = set_buffer i (record b { buf_ptr = some mem' }) c in
          let r = proto.set_recv_buffer_cb mem' sz p in
          if leb sz (length mem)
          then (if r.0
              then done (recv_success, record c' { recv_in_progress = true; in_buf = some i }, r.1)
              else done (recv_failed, c', r.1))
          else fault
    ]
  ]

  -- `cc_set_recv_buffer`.
  unfoldable pub set_recv_buffer : Option ℕ → Cloud × P → Outcome (RecvResult × Cloud × P)
  unfolding buffer_at
  set_recv_buffer buf (c, p) = elim (buffer_at buf c) [
    | none ↦ done (recv_failed, c, p)
    | some b ↦ elim (b.buf_ptr) [
      | none ↦ done (recv_failed, c, p)
      | some mem ↦
          let r = activate_buffer buf (c, p) in
          if c.recv_in_progress then done (recv_busy, c, p) else r
    ]
  ]

  module _ (app : Notice → List Bool) where
    -- The end of each case of `cc_recv_cb`: dispatch, and a new activation of the buffer, whose
    -- result is ignored.
    unfoldable pub hand_on : CcEvent → ℕ → Cloud × P → Outcome (Cloud × P)
    hand_on event svc_id (c, p) = do
      let c1 = record c { recv_in_progress = false }
      d ← dispatch_event proto app svc_id c1.in_buf event (c1, p)
      a ← activate_buffer d.0.in_buf d
      done (a.1, a.2)

    -- `cc_recv_cb`, called when the bytes stand in the receive buffer.
    unfoldable pub cc_recv_cb : List ℕ → ℕ → ProtoEvent → ℕ → Cloud × P → Outcome (Cloud × P)
    cc_recv_cb bytes sz event svc_id (c, p) = elim event [
      | proto_rcvd_msg ↦ (do
        c1 ← store_received bytes c.in_buf c
        c2 ← set_current_len sz c1.in_buf c1
        hand_on rcvd_msg svc_id (c2, p))
      | proto_rcvd_wrong_msg ↦ (do
        c1 ← store_received bytes c.in_buf c
        c2 ← set_current_len sz c1.in_buf c1
        hand_on rcvd_wrong_msg svc_id (c2, p))
      | proto_rcvd_mem_ovrfl ↦ (do
        c1 ← store_received bytes c.in_buf c
        hand_on rcvd_overflow svc_id (c1, p))
      | proto_rcvd_quit ↦ done (reset_conn_states c, p)
      | _ ↦ done (c, p)
    ]

    -- `cc_send_cb`.
    unfoldable pub cc_send_cb : ProtoEvent → ℕ → Cloud × P → Outcome (Cloud × P)
    cc_send_cb event svc_id (c, p) = do
      d ← dispatch_event proto app svc_id c.out_buf (send_event event) (c, p)
      a ← activate_buffer d.0.in_buf d
      done (a.1, a.2)

    abbrev pub upcall : Upcall → Cloud × P → Outcome (Cloud × P)
    upcall (recv_cb bytes sz event svc_id) st = cc_recv_cb bytes sz event svc_id st
    upcall (send_cb event svc_id) st = cc_send_cb event svc_id st

    -- A call into the protocol with the callbacks that it makes.
    unfoldable pub play : Run P → Cloud → Outcome (Bool × Cloud × P)
    play (ends res p) c = done (res, c, p)
    play (calls u p next) c = do st ← upcall u (c, p); play (next st.1) st.0
