-- ===== src/Ott/Exchange/Deliver.antt =====
-- A message of the basic service over a session of ott_protocol.c, and its answer.
use ts_sdk.Prelude.{
  ℕ, suc, ◌%◌, ◌^◌, ◌≤◌, ◌≡◌, refl, Bool, true, false, some, List, [], ◌∷◌, ◌++◌, arith, ◌==◌,
  if◌then◌else◌, length, done,
}
use ts_sdk.SmsNas.Session.{proto_ok}
use ts_sdk.Ott.Fragments.{Stream, rest_sizes}
use ts_sdk.Ott.Write.{Sink}
use ts_sdk.Ott.Session.{Session}
use ts_sdk.Ott.Response.{
  Call, State, rcvd_ack, with_session, invoke_send_callback, recv_resp_within_timeout,
}
use ts_sdk.Ott.Connect.Layout.{duplex_tls, status_bytes, send_status_lem}
use ts_sdk.Ott.Connect.{Net}
use ts_sdk.Ott.Exchange.{await_response, send_msg_to_cloud, clear_nack_sent, no_destination}
use ts_sdk.Ott.Exchange.Answer.{ack_byte, acked, respond-ctrl}

-- A size as a `uint16_t`.
abbrev pub low16 : ℕ → ℕ
low16 sz = sz % 2 ^ 16

module _ (upper : Call → State (Sink × Stream) → State (Sink × Stream)) where
  -- A session is up, a destination set, and the receive buffer has at least a byte and between 4 and 512
  -- bytes as its size; a message is sent whose size is at most 509
  -- in 16 bits.
  module _ (rounds fuel sz : ℕ) (msg before ks : List ℕ) (cb : Bool) (st : State (Sink × Stream))
      (net : Net (Sink × Stream)) (b : ℕ) (bs : List ℕ) (auth : st.session.auth_done ≡ true)
      (dest : no_destination st.session ≡ false) (buf : st.session.rcv_buf ≡ some (b ∷ bs))
      (lo : 4 ≤ st.session.rcv_sz) (hi : st.session.rcv_sz ≤ 512) (start : st.recvd ≡ 0)
      (some_data : 1 ≤ low16 sz) (short : low16 sz ≤ 509) (there : low16 sz ≤ length msg)
      (enough : 512 ≤ fuel) where
    -- The session with the message in it, and the command byte.
    abbrev pub sending : Session
    sending = record st.session {
      auth_done = true;
      send_buf = some msg;
      send_sz = sz;
      has_send_cb = cb;
      send_svc_id = 1;
      pend_ack = false;
    }

    abbrev pub cmd : ℕ
    cmd = if st.session.pend_ack then 0x62 else 0x42

    -- The connection with the message written.
    abbrev pub written : List ℕ → Stream → Sink × Stream
    written ks' stream = ((before ++ status_bytes cmd (low16 sz) msg, ks'), stream)

    -- Whatever the answer, if it is taken as one.
    send-answered :
        (stream : Stream) (after : List ℕ → State (Sink × Stream))
        → st.conn ≡ ((before, ks), stream)
        → ((ks' : List ℕ)
            → recv_resp_within_timeout duplex_tls upper
                (suc fuel)
                5000
                true
                (record { session = sending; recvd = st.recvd; conn = written ks' stream })
              ≡ done (true, after ks'))
        → (ks' : List ℕ) × (send_msg_to_cloud duplex_tls net upper rounds
              (suc fuel)
              (some msg)
              sz
              1
              cb
              st
            ≡ done (proto_ok, clear_nack_sent duplex_tls net upper (after ks')))
    unfolding send_msg_to_cloud await_response
    send-answered stream after c answer =
        let w =
          send_status_lem (suc fuel) (low16 sz) msg before ks stream some_data short there
            (omega arith) (omega arith) st.session.pend_ack in
        let nz : (sz == 0) ≡ false = ground arith in
        (w.0, rw (nz, dest, auth, c) (rw w.1 (rw (answer w.0) refl)))

    -- In a session that is up, with a destination and a receive buffer, and with any callbacks: a message
    -- of the basic service whose size, taken modulo 2^16, is 1 to 509, to which the server answers an ACK, with or without more
    -- messages to follow, is written exactly as a status message of
    -- that many bytes, with the ACK flag when the last
    -- received message was to be acknowledged. The call returns PROTO_OK in the state that the send
    -- callback leaves, which is called, if there is one, with PROTO_RCVD_ACK in the session with the
    -- acknowledgement settled, the PENDING flag of the answer kept and the answer in the buffer; then
    -- `nack_sent` is cleared. 512 rounds are enough.
    pub deliver :
        (pending : Bool) (rs : List ℕ)
        → st.conn ≡ ((before, ks), (ack_byte pending ∷ [], rs))
        → (ks' : List ℕ) × (send_msg_to_cloud duplex_tls net upper rounds
              (suc fuel)
              (some msg)
              sz
              1
              cb
              st
            ≡ done (
              proto_ok,
              clear_nack_sent duplex_tls net upper (
                  invoke_send_callback duplex_tls upper rcvd_ack (
                    acked pending
                      (ack_byte pending ∷ bs)
                      (with_session st sending)
                      (written ks' ([], rest_sizes rs)))),
            ))
    deliver pending rs c =
        let stream : Stream = (ack_byte pending ∷ [], rs) in
        send-answered stream
          (λ ks'. invoke_send_callback duplex_tls upper rcvd_ack (
            acked pending (ack_byte pending ∷ bs) (with_session st sending)
              (written ks' ([], rest_sizes rs))))
          c
          (λ ks'.
            respond-ctrl upper fuel
              (record { session = sending; recvd = st.recvd; conn = written ks' stream }) b bs buf
              lo hi start (before ++ status_bytes cmd (low16 sz) msg, ks') pending rs refl)
