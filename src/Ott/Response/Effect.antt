-- ===== src/Ott/Response/Effect.antt =====
-- The effect of a received message on the session.
use ts_sdk.Prelude.{
  ℕ, ◌≡◌, refl, Bool, true, false, not, ◌&&◌, ◌||◌, List, if◌then◌else◌, get_or, done,
}
use ts_sdk.Ott.Message.{Tls, load_flags, load_mtype, close_connection, mt_update}
use ts_sdk.Ott.Flags.{flags, listed_invalid}
use ts_sdk.Ott.Session.{Session, reset_state, cc_service_basic}
use ts_sdk.Ott.Response.{
  Event, rcvd_ack, rcvd_nack, rcvd_quit, rcvd_msg, invoke_recv_callback, invoke_send_callback,
  State, Call, process_recvd_msg, process_ack,
}

-- What the flags ask for: an ACK completes the authentication and settles what is to be acknowledged,
-- QUIT ends the session.
abbrev pub session_after : (ack pending quit : Bool) → Session → Session
session_after ack pending quit s =
    let s' = record s {
      pend_bit = pending;
      auth_done = ack || s.auth_done;
      pend_ack = not ack && s.pend_ack;
    } in
    if quit then reset_state s' else s'

module _ {ℓ} {T : Type ℓ} (tls : Tls T) (upper : Call → State T → State T)
    (quiet : (c : Call) (st : State T) → upper c st ≡ st) where
  -- Whether a callback is called or not.
  quiet_if : (b : Bool) (c : Call) (st : State T) → (if b then upper c st else st) ≡ st
  quiet_if true c st = quiet c st
  quiet_if false c st = refl

  recv_quiet :
      (msg : List ℕ) (sz : ℕ) (evt : Event) (svc_id : ℕ) (st : State T)
      → invoke_recv_callback tls upper msg sz evt svc_id st ≡ st
  recv_quiet msg sz evt svc_id st = quiet_if st.session.has_rcv_cb _ st

  send_quiet :
      (b : Bool) (evt : Event) (st : State T)
      → (if b then invoke_send_callback tls upper evt st else st) ≡ st
  send_quiet true evt st = quiet_if st.session.has_send_cb _ st
  send_quiet false evt st = refl

  abbrev pub state_after : (ack pending quit : Bool) → State T → State T
  state_after ack pending quit st = record {
    session = session_after ack pending quit st.session;
    recvd = st.recvd;
    conn = if quit then (close_connection tls st.conn).1 else st.conn;
  }

  -- With callbacks that leave the state alone, on an update message with one of the valid settings of
  -- the flags: `process_recvd_msg` returns false exactly for a NACK. An ACK completes the
  -- authentication and settles what is to be acknowledged, the PENDING flag is kept, and QUIT closes
  -- the connection and resets the session.
  pub process_recvd_msg_lem :
      (nack ack pending quit : Bool) (msg : List ℕ) (rcvd : ℕ) (cb : Bool) (st : State T)
      → load_flags (get_or msg 0 0) ≡ flags nack ack pending quit
      → listed_invalid nack ack pending quit ≡ false
      → load_mtype (get_or msg 0 0) ≡ mt_update
      → process_recvd_msg tls upper msg rcvd cb st
        ≡ done (not nack, state_after ack pending quit st)
  unfolding process_recvd_msg process_ack
  process_recvd_msg_lem true true true true msg rcvd cb st e v t = cc
  process_recvd_msg_lem true true true false msg rcvd cb st e v t = cc
  process_recvd_msg_lem true true false true msg rcvd cb st e v t = cc
  process_recvd_msg_lem true true false false msg rcvd cb st e v t = cc
  process_recvd_msg_lem true false true true msg rcvd cb st e v t = cc
  process_recvd_msg_lem true false true false msg rcvd cb st e v t = cc
  process_recvd_msg_lem false true true true msg rcvd cb st e v t = cc
  process_recvd_msg_lem false false true true msg rcvd cb st e v t = cc
  process_recvd_msg_lem false false false false msg rcvd cb st e v t = rw e refl
  process_recvd_msg_lem false false true false msg rcvd cb st e v t = rw e refl
  process_recvd_msg_lem false false false true msg rcvd cb st e v t =
      rw e
        (rw (recv_quiet msg rcvd rcvd_quit cc_service_basic (state_after false false true st)) refl)
  process_recvd_msg_lem true false false false msg rcvd cb st e v t =
      rw e (rw (send_quiet cb rcvd_nack (state_after false false false st)) refl)
  process_recvd_msg_lem true false false true msg rcvd cb st e v t = rw e (
      rw (send_quiet cb rcvd_nack (state_after false false false st)) (
        rw (recv_quiet msg rcvd rcvd_quit cc_service_basic (state_after false false true st)) refl))
  process_recvd_msg_lem false true true false msg rcvd cb st e v t =
      let st1 = state_after true true false st in
      rw (e, t)
        (rw (recv_quiet msg rcvd rcvd_msg cc_service_basic st1)
          (rw (send_quiet cb rcvd_ack st1) refl))
  process_recvd_msg_lem false true false false msg rcvd cb st e v t =
      let st1 = state_after true false false st in
      rw (e, t)
        (rw (recv_quiet msg rcvd rcvd_msg cc_service_basic st1)
          (rw (send_quiet cb rcvd_ack st1) refl))
  process_recvd_msg_lem false true false true msg rcvd cb st e v t =
      let st1 = state_after true false false st in
      rw (e, t)
        (rw (recv_quiet msg rcvd rcvd_msg cc_service_basic st1) (
          rw (send_quiet cb rcvd_ack st1) (
            rw (recv_quiet msg rcvd rcvd_quit cc_service_basic (state_after true false true st))
              refl)))
