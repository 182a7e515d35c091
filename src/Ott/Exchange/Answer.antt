-- ===== src/Ott/Exchange/Answer.antt =====
-- The answer to a message over a session of ott_protocol.c.
use ts_sdk.Prelude.{
  ℕ, suc, ◌≤◌, ◌≡◌, refl, Bool, true, false, some, List, [], ◌∷◌, arith, if◌then◌else◌, length,
  done, ge→ltb, le→leb,
}
use ts_sdk.SmsNas.Session.{proto_ok}
use ts_sdk.Ott.Message.{
  retrieve_msg, retrieve_bytes, msg_is_complete, msg_is_valid, flags_are_valid, room_left,
}
use ts_sdk.Ott.Fragments.{Stream, fragment, fragment_lem, rest_sizes}
use ts_sdk.Ott.Write.{Sink}
use ts_sdk.Ott.Response.{
  Call, State, rcvd_ack, with_session, invoke_send_callback, process_recvd_msg, process_ack,
  response_loop, recv_resp_within_timeout,
}
use ts_sdk.Ott.Connect.Layout.{duplex_tls}

-- A control message that acknowledges, without and with more messages to follow.
abbrev pub ack_byte : Bool → ℕ
ack_byte pending = if pending then 0x60 else 0x20

-- The state with a message acknowledged: the answer stands in the receive buffer.
abbrev pub acked : Bool → List ℕ → State (Sink × Stream) → Sink × Stream → State (Sink × Stream)
acked pending msg st conn = record {
  session = record st.session {
    pend_bit = pending;
    auth_done = true;
    pend_ack = false;
    rcv_buf = some msg;
  };
  recvd = 0;
  conn = conn;
}

module _ (upper : Call → State (Sink × Stream) → State (Sink × Stream)) where
  process_ctrl :
      (pending : Bool) (bs : List ℕ) (rcvd : ℕ) (st : State (Sink × Stream))
      → process_recvd_msg duplex_tls upper (ack_byte pending ∷ bs) rcvd true st
        ≡ done (
          true,
          invoke_send_callback duplex_tls upper rcvd_ack (
              with_session st
                (record st.session { pend_bit = pending; auth_done = true; pend_ack = false })),
        )
  unfolding process_recvd_msg process_ack
  process_ctrl true bs rcvd st = refl
  process_ctrl false bs rcvd st = refl

  module _ (fuel : ℕ) (st : State (Sink × Stream)) (b : ℕ) (bs : List ℕ)
      (buf : st.session.rcv_buf ≡ some (b ∷ bs)) (lo : 4 ≤ st.session.rcv_sz)
      (hi : st.session.rcv_sz ≤ 512) (start : st.recvd ≡ 0) (sink : Sink) where
    one_byte : (c : ℕ) (ks : List ℕ) → fragment (room_left st.session.rcv_sz 0) (c ∷ [], ks) ≡ 1
    one_byte c ks =
        let h =
          fragment_lem (room_left st.session.rcv_sz 0) (c ∷ []) ks (omega arith) (omega arith) in
        omega (arith, h.0, h.1)

    nothing : (ks : List ℕ) → fragment (room_left st.session.rcv_sz 0) ([], ks) ≡ 0
    nothing [] = omega arith
    nothing (k ∷ ks) = omega arith

    retrieve_ctrl :
        (pending : Bool) (ks : List ℕ)
        → retrieve_msg duplex_tls fuel 5000
            (some (b ∷ bs))
            st.session.rcv_sz
            0
            0
            (sink, (ack_byte pending ∷ [], ks))
          ≡ done (record {
            result = proto_ok;
            msg = ack_byte pending ∷ bs;
            recvd = 0;
            rbytes = 1;
            conn = (sink, ([], rest_sizes ks));
          })
    unfolding retrieve_msg retrieve_bytes msg_is_complete msg_is_valid flags_are_valid
    retrieve_ctrl true ks =
        rw (ge→ltb st.session.rcv_sz 4 lo, ge→ltb 512 st.session.rcv_sz hi, one_byte 0x60 ks)
          (rw (le→leb 1 (length (b ∷ bs)) (omega arith)) refl)
    retrieve_ctrl false ks =
        rw (ge→ltb st.session.rcv_sz 4 lo, ge→ltb 512 st.session.rcv_sz hi, one_byte 0x20 ks)
          (rw (le→leb 1 (length (b ∷ bs)) (omega arith)) refl)

    retrieve_eof :
        (ks : List ℕ)
        → retrieve_msg duplex_tls fuel 5000 (some (b ∷ bs)) st.session.rcv_sz 0 0 (sink, ([], ks))
          ≡ done (record {
            result = proto_ok;
            msg = b ∷ bs;
            recvd = 0;
            rbytes = 0;
            conn = (sink, ([], rest_sizes ks));
          })
    unfolding retrieve_msg
    retrieve_eof ks =
        rw (ge→ltb st.session.rcv_sz 4 lo, ge→ltb 512 st.session.rcv_sz hi, nothing ks)
          (rw (le→leb 0 (length (b ∷ bs)) (omega arith)) refl)

    -- The answer arrives.
    pub respond-ctrl :
        (pending : Bool) (ks : List ℕ)
        → st.conn ≡ (sink, (ack_byte pending ∷ [], ks))
        → recv_resp_within_timeout duplex_tls upper (suc fuel) 5000 true st
          ≡ done (
            true,
            invoke_send_callback duplex_tls upper rcvd_ack
                (acked pending (ack_byte pending ∷ bs) st (sink, ([], rest_sizes ks))),
          )
    unfolding recv_resp_within_timeout response_loop
    respond-ctrl pending ks c =
        let answer = ack_byte pending ∷ bs in
        let mid : State (Sink × Stream) = record {
          session = record st.session { rcv_buf = some answer };
          recvd = 0;
          conn = (sink, ([], rest_sizes ks));
        } in
        rw (c, buf, start)
          (rw (retrieve_ctrl pending ks) (rw buf (rw (process_ctrl pending bs 1 mid) refl)))

    -- The server has closed the connection: `mbedtls_ssl_read` returns 0, and what stands in the buffer
    -- is processed once more.
    pub respond-eof :
        (pending : Bool) (ks : List ℕ)
        → st.conn ≡ (sink, ([], ks))
        → b ≡ ack_byte pending
        → recv_resp_within_timeout duplex_tls upper (suc fuel) 5000 true st
          ≡ done (
            true,
            invoke_send_callback duplex_tls upper rcvd_ack
                (acked pending (b ∷ bs) st (sink, ([], rest_sizes ks))),
          )
    unfolding recv_resp_within_timeout response_loop
    respond-eof pending ks c e =
        let mid : State (Sink × Stream) = record {
          session = record st.session { rcv_buf = some (ack_byte pending ∷ bs) };
          recvd = 0;
          conn = (sink, ([], rest_sizes ks));
        } in
        rw (c, buf, start)
          (rw (retrieve_eof ks) (rw e (rw buf (rw e (rw (process_ctrl pending bs 0 mid) refl)))))
