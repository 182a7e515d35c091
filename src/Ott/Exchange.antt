-- ===== src/Ott/Exchange.antt =====
-- Sessions of ott_protocol.c: establishing one, sending a message in it, and keeping it up.
pub mod Answer
pub mod Deliver
mod Tests
use ts_sdk.Prelude.{
  ℕ, zero, suc, ◌%◌, ◌^◌, Bool, true, false, not, ◌&&◌, ◌||◌, Option, none, some, List, ◌==◌,
  if◌then◌else◌, length, Outcome, done, hang, ◌>>=◌, load,
}
use Prim.Native.Nat.{bit_or}
use ts_sdk.Sms.Types.{c_str}
use ts_sdk.SmsNas.Session.{ProtoResult, is_ok, proto_ok, proto_error, proto_inv_param}
use ts_sdk.Ott.Message.{Tls, send_ctrl_msg, close_connection, cf_ack, cf_pending, cf_quit}
use ts_sdk.Ott.Session.{Session, reset_state, cc_service_basic, cc_service_control}
use ts_sdk.Ott.Response.{Call, State, with_session, initiate_quit, recv_resp_within_timeout}
use ts_sdk.Ott.Connect.{Net, initiate_connection, send_auth, send_status, send_restarted}

-- TIMEOUT_MS and RECV_TIMEOUT_MS without MODEM_SQMONARCH.
abbrev pub timeout_ms : ℕ
timeout_ms = 5000

abbrev pub recv_timeout_ms : ℕ
recv_timeout_ms = 5000

-- The flags of a message in a session.
abbrev pub message_flags : Session → ℕ
message_flags s = if s.pend_ack then bit_or cf_pending cf_ack else cf_pending

-- The host or the port is empty.
abbrev pub no_destination : Session → Bool
no_destination s = length (c_str s.host) == 0 || length (c_str s.port) == 0

module _ {ℓ} {T : Type ℓ} (tls : Tls T) (net : Net T) (upper : Call → State T → State T) where
  -- What the functions do behind a failure: `ott_initiate_quit`, and a result.
  abbrev pub quit_with {κ} : {A : Type κ} → ℕ → Bool → A → State T → Outcome (A × State T)
  quit_with fuel nack res st = do st' ← initiate_quit tls upper fuel nack st; done (res, st')

  abbrev pub clear_nack_sent : State T → State T
  clear_nack_sent st =
      if st.session.nack_sent then with_session st (record st.session { nack_sent = false }) else st

  -- The part of `establish_session` from the label `retry_connection` on; `rounds` bounds the jumps
  -- back, `fuel` the loops inside.
  unfoldable pub connect_session : ℕ → ℕ → Bool → State T → Outcome (Bool × State T)
  connect_session zero fuel polling st = hang
  connect_session (suc rounds) fuel polling st = do
    c ←
        initiate_connection tls net fuel timeout_ms (c_str st.session.host) (c_str st.session.port)
          st.conn
    let st1 : State T = record {
      session = record st.session { conn_done = true };
      recvd = st.recvd;
      conn = c.1;
    }
    let authenticate : Outcome (Bool × State T) = (do
      a ← send_auth tls fuel timeout_ms (if polling then 0 else cf_pending) st1.session st1.conn
      let st2 = record st1 { conn = a.1 }
      let respond : Outcome (Bool × State T) = (do
        r ← recv_resp_within_timeout tls upper fuel recv_timeout_ms false st2
        let st3 = r.1
        let again = connect_session rounds fuel polling (clear_nack_sent st3)
        if not r.0
            then quit_with fuel true false st3
            else if st3.session.nack_sent
            then again
            else if polling && not st3.session.conn_done
            then done (false, with_session st3 (record st3.session { auth_done = false }))
            else done (true, st3))
      if is_ok a.0 then respond else quit_with fuel false false st2)
    if is_ok c.0 then authenticate else done (false, record st { conn = c.1 })

  -- `establish_session`.
  unfoldable pub establish_session : ℕ → ℕ → Bool → State T → Outcome (Bool × State T)
  establish_session rounds fuel polling st =
      if no_destination st.session then done (false, st) else elim (st.session.rcv_buf) [
        | none ↦ done (false, st)
        | some buf ↦ connect_session rounds fuel polling st
      ]

  -- A session is established unless there is one; whether there is one then.
  abbrev pub ensure_session : ℕ → ℕ → Bool → State T → Outcome (Bool × State T)
  ensure_session rounds fuel polling st =
      let e = establish_session rounds fuel polling st in
      if st.session.auth_done then done (true, st) else e

  -- The end of `ott_send_msg_to_cloud` and of `ott_resend_init_config`: the response.
  unfoldable pub await_response : ℕ → State T → Outcome (ProtoResult × State T)
  await_response fuel st = do
    r ← recv_resp_within_timeout tls upper fuel recv_timeout_ms true st
    if r.0 then done (proto_ok, clear_nack_sent r.1) else quit_with fuel true proto_error r.1

  -- `ott_resend_init_config`; whether there is a callback.
  unfoldable pub resend_init_config : ℕ → ℕ → Bool → State T → Outcome (ProtoResult × State T)
  resend_init_config rounds fuel cb st =
      if no_destination st.session then done (proto_error, st) else (do
        e ← ensure_session rounds fuel false st
        let restarted : Outcome (ProtoResult × State T) = (do
          w ← send_restarted tls fuel timeout_ms (message_flags e.1.session) e.1.conn
          let st1 = record (e.1) { conn = w.1 }
          let rest =
              await_response fuel
                (with_session st1 (record st1.session { pend_ack = false; has_send_cb = cb }))
          if is_ok w.0 then rest else quit_with fuel false proto_error st1)
        if e.0 then restarted else done (proto_error, e.1))

  -- `fake_sending_service_msg`.
  unfoldable pub fake_sending_service_msg :
      ℕ → ℕ → List ℕ → ℕ → ℕ → Bool → State T → Outcome (ProtoResult × State T)
  fake_sending_service_msg rounds fuel buf sz svc_id cb st =
      let resend =
        resend_init_config rounds fuel cb
          (with_session st (record st.session { send_svc_id = cc_service_control })) in
      if not (svc_id == cc_service_control) || sz == 0
      then done (proto_inv_param, st)
      else (do msg_type ← load buf 1; if msg_type == 3 then resend else done (proto_inv_param, st))

  -- `ott_send_msg_to_cloud`; the memory of the message is `none` for NULL, and the size is passed on as
  -- a `uint16_t`.
  unfoldable pub send_msg_to_cloud :
      ℕ → ℕ → Option (List ℕ) → ℕ → ℕ → Bool → State T → Outcome (ProtoResult × State T)
  send_msg_to_cloud rounds fuel none sz svc_id cb st = done (proto_inv_param, st)
  send_msg_to_cloud rounds fuel (some buf) sz svc_id cb st =
      let service = fake_sending_service_msg rounds fuel buf sz svc_id cb st in
      let message : Outcome (ProtoResult × State T) = (do
        e ← ensure_session rounds fuel false st
        let status : Outcome (ProtoResult × State T) = (do
          w ←
              send_status tls fuel timeout_ms (message_flags e.1.session) (sz % 2 ^ 16) (some buf)
                e.1.conn
          let st1 = record (e.1) { conn = w.1 }
          let rest = await_response fuel (
              with_session st1 (record st1.session {
                send_buf = some buf;
                send_sz = sz;
                has_send_cb = cb;
                send_svc_id = svc_id;
                pend_ack = false;
              }))
          if is_ok w.0 then rest else quit_with fuel false w.0 st1)
        if e.0 then status else done (proto_error, e.1)) in
      if sz == 0
      then done (proto_inv_param, st)
      else if not (svc_id == cc_service_basic)
      then service
      else if no_destination st.session
      then done (proto_inv_param, st)
      else message

  -- The loop of `ott_maintenance`; `rounds` bounds it.
  unfoldable pub maintenance_loop : ℕ → ℕ → State T → Outcome (State T)
  maintenance_loop zero fuel st = hang
  maintenance_loop (suc rounds) fuel st =
      let s = st.session in
      let c_flags =
        bit_or (if s.pend_ack then cf_ack else 0) (if not s.pend_bit then cf_quit else 0) in
      let go : Outcome (State T) = (do
        c ← send_ctrl_msg tls fuel timeout_ms c_flags st.conn
        let st1 = record st { conn = c.1 }
        let next : Outcome (State T) = (do
          r ← recv_resp_within_timeout tls upper fuel recv_timeout_ms true st1
          let more = maintenance_loop rounds fuel (clear_nack_sent r.1)
          let quit = initiate_quit tls upper fuel true (r.1)
          if r.0 then more else quit)
        if not s.pend_bit
            then done (record {
              session = reset_state s;
              recvd = st.recvd;
              conn = (close_connection tls c.1).1;
            })
            else next) in
      if s.pend_bit || s.pend_ack then go else done st

  -- `ott_maintenance`.
  unfoldable pub maintenance : ℕ → ℕ → Bool → State T → Outcome (State T)
  maintenance rounds fuel poll_due st =
      let go : Outcome (State T) = (do
        e ← ensure_session rounds fuel true st
        let rest = maintenance_loop rounds fuel (e.1)
        if e.0 then rest else done (e.1)) in
      if st.session.auth_done || poll_due then go else done st
