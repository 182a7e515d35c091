-- ===== src/Ott/Response.antt =====
-- What ott_protocol.c does with a received message. What a registered callback does with the state,
-- as it may call the functions of the protocol, is a parameter.
pub mod Effect
use ts_sdk.Prelude.{
  ℕ, zero, suc, ◌+◌, ◌-◌, ◌%◌, ◌^◌, Bool, true, false, not, ◌||◌, Option, none, some, List, ◌∷◌,
  ltb, leb, ◌==◌, if◌then◌else◌, get_or, Outcome, done, hang, ◌>>=◌, copy_from, copy_to,
}
use Prim.Native.Nat.{bit_or}
use ts_sdk.SmsNas.Session.{proto_ok, proto_error, proto_timeout, proto_no_msg, proto_inv_param}
use ts_sdk.Ott.Message.{
  Tls, retrieve_msg, send_ctrl_msg, close_connection, load_flags, load_mtype, flag_is_set, cf_ack,
  cf_nack, cf_pending, cf_quit, mt_update, mt_cmd_pi, mt_cmd_sl,
}
use ts_sdk.Ott.Session.{Session, reset_state, cc_service_basic, cc_service_control}

-- The values of `proto_event` that this protocol delivers.
pub data Event : Type 0 where
  rcvd_ack rcvd_nack send_timeout rcvd_quit rcvd_msg : Event

-- A call of the send callback or of the receive callback.
pub data Call : Type 0 where
  send_call recv_call : Option (List ℕ) → (sz : ℕ) → Event → (svc_id : ℕ) → Call

-- The session, the static `recvd` of `ott_retrieve_msg`, and the connection.
pub record State {ℓ} (T : Type ℓ) : Type ℓ where
  pub session : Session
  pub recvd : ℕ
  pub conn : T

abbrev pub with_session {ℓ} : {T : Type ℓ} → State T → Session → State T
with_session st s = record st { session = s }

-- The message for the control service that `fake_receiving_service_msg` writes over the command.
unfoldable pub fake_receiving_service_msg : ℕ → List ℕ → Outcome (List ℕ)
fake_receiving_service_msg m_type msg = do
  interval ← copy_from msg 1 4
  copy_to msg 3 (1 ∷ (if m_type == mt_cmd_pi then 2 else 1) ∷ interval)

module _ {ℓ} {T : Type ℓ} (tls : Tls T) (upper : Call → State T → State T) where
  -- INVOKE_SEND_CALLBACK with the last sent message, and INVOKE_RECV_CALLBACK.
  abbrev pub invoke_send_callback : Event → State T → State T
  invoke_send_callback evt st =
      let s = st.session in
      if s.has_send_cb then upper (send_call s.send_buf s.send_sz evt s.send_svc_id) st else st

  abbrev pub invoke_recv_callback : List ℕ → ℕ → Event → ℕ → State T → State T
  invoke_recv_callback msg sz evt svc_id st =
      let s = st.session in
      if s.has_rcv_cb then upper (recv_call (some msg) sz evt svc_id) st else st

  -- The part of `process_recvd_msg` for a message with the ACK flag: the message, its length and the
  -- service afterwards, and the state.
  unfoldable pub process_ack : ℕ → List ℕ → ℕ → Bool → State T → Outcome (List ℕ × ℕ × ℕ × State T)
  process_ack m_type msg rcvd invoke_send_cb st = do
    let st1 = with_session st (record st.session { auth_done = true; pend_ack = false })
    let command = m_type == mt_cmd_sl || m_type == mt_cmd_pi
    msg' ← if command then fake_receiving_service_msg m_type msg else done msg
    let rcvd' = if command then rcvd + 1 else rcvd
    let svc = if command then cc_service_control else cc_service_basic
    let st2 = if command then with_session st1 (record st1.session { rcv_buf = some msg' }) else st1
    let st3 =
        if m_type == mt_update || command
        then invoke_recv_callback msg' rcvd' rcvd_msg svc st2
        else st2
    done (msg', rcvd', svc, (if invoke_send_cb then invoke_send_callback rcvd_ack st3 else st3))

  -- The part for the QUIT flag; the bytes of the message are those from before the callbacks.
  abbrev pub process_quit : ℕ → List ℕ → ℕ → ℕ → State T → State T
  process_quit c_flags msg rcvd svc st =
      let c = close_connection tls st.conn in
      let st1 : State T = record {
        session = reset_state st.session;
        recvd = st.recvd;
        conn = c.1;
      } in
      if flag_is_set c_flags cf_quit then invoke_recv_callback msg rcvd rcvd_quit svc st1 else st

  -- `process_recvd_msg` on the message in the buffer.
  unfoldable pub process_recvd_msg : List ℕ → ℕ → Bool → State T → Outcome (Bool × State T)
  process_recvd_msg msg rcvd invoke_send_cb st =
      let c_flags = load_flags (get_or msg 0 0) in
      let m_type = load_mtype (get_or msg 0 0) in
      let st1 = with_session st (record st.session { pend_bit = flag_is_set c_flags cf_pending }) in
      if flag_is_set c_flags cf_ack
      then (do
        a ← process_ack m_type msg rcvd invoke_send_cb st1
        done (true, process_quit c_flags a.0 a.1 a.2 a.3))
      else if flag_is_set c_flags cf_nack
      then done (
        false,
        process_quit c_flags msg rcvd cc_service_basic
            (if invoke_send_cb then invoke_send_callback rcvd_nack st1 else st1),
      )
      else done (true, process_quit c_flags msg rcvd cc_service_basic st1)

  -- `ott_initiate_quit`, with a bound on the rounds of `write_tls`.
  unfoldable pub initiate_quit : ℕ → Bool → State T → Outcome (State T)
  initiate_quit fuel nack st =
      if not st.session.conn_done || not st.session.auth_done then done st else (do
        c ← send_ctrl_msg tls fuel 5000 (if nack then bit_or cf_nack cf_quit else cf_quit) st.conn
        done (record {
          session = reset_state st.session;
          recvd = st.recvd;
          conn = (close_connection tls c.1).1;
        }))

  -- `ott_send_nack`.
  unfoldable pub send_nack : ℕ → State T → Outcome (State T)
  send_nack fuel st = do
    st' ← initiate_quit fuel true st
    done (with_session st' (record st'.session { nack_sent = true }))

  -- The end of `recv_resp_within_timeout`; the times are of type `uint32_t`.
  abbrev pub finish_response : ℕ → Bool → ℕ → ℕ → Bool → State T → Bool × State T
  finish_response timeout invoke_send_cb start now no_nack st =
      if leb timeout ((now + 2 ^ 32 - start) % 2 ^ 32)
      then (false, (if invoke_send_cb then invoke_send_callback send_timeout st else st))
      else (no_nack, st)

  -- The loop of `recv_resp_within_timeout`.
  unfoldable pub response_loop :
      ℕ → ℕ → Bool → (start now rcvd : ℕ) → State T → Outcome (Bool × State T)
  response_loop zero timeout invoke_send_cb start now rcvd st = hang
  response_loop (suc fuel) timeout invoke_send_cb start now rcvd st = do
    r ← retrieve_msg tls fuel 5000 st.session.rcv_buf st.session.rcv_sz st.recvd rcvd st.conn
    let st1 : State T = record {
      session = record st.session {
        rcv_buf = elim (st.session.rcv_buf) [ none ↦ none | some b ↦ some r.msg ];
      };
      recvd = r.recvd;
      conn = r.conn;
    }
    let t = tls.tick r.conn
    let now' = t.0 % 2 ^ 32
    let st2 = record st1 { conn = t.1 }
    let again = response_loop fuel timeout invoke_send_cb start now' r.rbytes st2
    let unchanged = response_loop fuel timeout invoke_send_cb start now r.rbytes st1
    elim (r.result) [
      | proto_inv_param ↦ done (false, st1)
      | proto_error ↦ done (false, st1)
      | proto_no_msg ↦
          if ltb ((now' + 2 ^ 32 - start) % 2 ^ 32) timeout
          then again
          else done (finish_response timeout invoke_send_cb start now' true st2)
      | proto_ok ↦ (do
        p ← process_recvd_msg r.msg r.rbytes invoke_send_cb st1
        done (finish_response timeout invoke_send_cb start now p.0 p.1))
      | proto_timeout ↦
          if ltb ((now + 2 ^ 32 - start) % 2 ^ 32) timeout
          then unchanged
          else done (finish_response timeout invoke_send_cb start now true st1)
    ]

  -- `recv_resp_within_timeout`; `fuel` bounds the rounds of both loops.
  unfoldable pub recv_resp_within_timeout : ℕ → ℕ → Bool → State T → Outcome (Bool × State T)
  recv_resp_within_timeout fuel timeout invoke_send_cb st =
      let t = tls.tick st.conn in
      let start = t.0 % 2 ^ 32 in
      response_loop fuel timeout invoke_send_cb start start 0 (record st { conn = t.1 })
