-- ===== src/Ott/Ending/Wait.antt =====
-- The wait for a response of ott_protocol.c ends by the clock.
use ts_sdk.Prelude.{
  ℕ, zero, suc, ◌+◌, ◌-◌, ◌*◌, ◌%◌, ◌^◌, ◌≤◌, ◌<◌, ◌≡◌, Bool, ◌||◌, none, some, List, ◌∷◌, arith,
  inl, inr, subst, get_or, Bool-cases, ltb, ltb→lt, ◌==◌, if◌then◌else◌, copy_from, Ends,
  elapsed_32, Ends-bind,
}
use ts_sdk.Ott.Message.{
  Tls, retrieve_msg, cf_nack, mt_cmd_sl, mt_cmd_pi, load_flags, load_mtype, flag_is_set, cf_ack,
  cf_pending,
}
use ts_sdk.Ott.Response.{
  Call, State, with_session, process_recvd_msg, process_ack, fake_receiving_service_msg,
  response_loop, recv_resp_within_timeout,
}
use ts_sdk.Ott.Ending.{
  Clock, rounds_left, retrieve_msg-Ends, Later, Reported, copy_to-Ends, copy_from-Ends,
  ProtoResult-cases,
}

module _ {ℓ} {T : Type ℓ} (tls : Tls T) (upper : Call → State T → State T) where
  fake_receiving_service_msg-Ends :
      (m_type : ℕ) (msg : List ℕ) → Ends (λ m. Unit {0}) (fake_receiving_service_msg m_type msg)
  unfolding fake_receiving_service_msg
  fake_receiving_service_msg-Ends m_type msg =
      Ends-bind (λ m. Unit {0}) (λ m. Unit {0}) (copy_from msg 1 4) _ (copy_from-Ends msg 1 4)
        (λ m u. copy_to-Ends msg 3 (1 ∷ (if m_type == mt_cmd_pi then 2 else 1) ∷ m))

  process_ack-Ends :
      (m_type : ℕ) (msg : List ℕ) (rcvd : ℕ) (cb : Bool) (st : State T)
      → Ends (λ r. Unit {0}) (process_ack tls upper m_type msg rcvd cb st)
  unfolding process_ack
  process_ack-Ends m_type msg rcvd cb st =
      elim (Bool-cases (m_type == mt_cmd_sl || m_type == mt_cmd_pi)) [
        | inl y ↦ rw y (
            Ends-bind (λ m. Unit {0}) (λ r. Unit {0}) (fake_receiving_service_msg m_type msg) _
              (fake_receiving_service_msg-Ends m_type msg) (λ m u. tt))
        | inr n ↦ rw n tt
      ]

  process_recvd_msg-Ends :
      (msg : List ℕ) (rcvd : ℕ) (cb : Bool) (st : State T)
      → Ends (λ r. Unit {0}) (process_recvd_msg tls upper msg rcvd cb st)
  unfolding process_recvd_msg
  process_recvd_msg-Ends msg rcvd cb st =
      let c_flags = load_flags (get_or msg 0 0) in
      let m_type = load_mtype (get_or msg 0 0) in
      let st1 = with_session st (record st.session { pend_bit = flag_is_set c_flags cf_pending }) in
      elim (Bool-cases (flag_is_set c_flags cf_ack)) [
        | inl y ↦ rw y (
            Ends-bind (λ a. Unit {0}) (λ r. Unit {0}) (process_ack tls upper m_type msg rcvd cb st1)
              _ (process_ack-Ends m_type msg rcvd cb st1) (λ a u. tt))
        | inr n ↦ rw n (elim (Bool-cases (flag_is_set c_flags cf_nack)) [
          | inl y ↦ rw y tt
          | inr n' ↦ rw n' tt
        ])
      ]

  module _ (k : ℕ) (clock : Clock tls k) (s timeout : ℕ) (cb : Bool) (top : timeout ≤ 2 ^ 30) where
    -- A time at which all is over.
    abbrev over : ℕ
    over = s + timeout + 2 ^ 30 + 5000

    -- A time in `uint32_t`.
    abbrev now_32 : ℕ → ℕ
    now_32 n = n % 2 ^ 64 % 2 ^ 32

    response_loop-Ends :
        (fuel n rcvd : ℕ) (st : State T)
        → clock.ms st.conn ≡ n
        → s ≤ n
        → n < s + timeout
        → k * over + 1 < fuel + clock.calls st.conn
        → Ends
            (λ r. Unit {0})
            (response_loop tls upper fuel timeout cb (now_32 s) (now_32 n) rcvd st)
    unfolding response_loop
    response_loop-Ends zero n rcvd st at lo hi e = absurd (
        let z = rounds_left tls k clock zero over st.conn (omega arith) (omega arith) in
        omega (arith, z))
    response_loop-Ends (suc fuel) n rcvd st at lo hi e =
        Ends-bind (λ r. Reported tls k clock st.conn r.result r.conn) (λ r. Unit {0})
          (retrieve_msg tls fuel 5000 st.session.rcv_buf st.session.rcv_sz st.recvd rcvd st.conn) _
          (retrieve_msg-Ends tls k clock fuel over st.session.rcv_buf st.session.rcv_sz st.recvd
            rcvd st.conn (omega arith) (omega arith))
          (λ r q.
            let st1 : State T = record {
              session = record st.session {
                rcv_buf = elim (st.session.rcv_buf) [ none ↦ none | some b ↦ some r.msg ];
              };
              recvd = r.recvd;
              conn = r.conn;
            } in
            elim (ProtoResult-cases r.result) [
              | inl is ↦ rw is (
                  Ends-bind (λ p. Unit {0}) (λ p. Unit {0})
                    (process_recvd_msg tls upper r.msg r.rbytes cb st1) _
                    (process_recvd_msg-Ends r.msg r.rbytes cb st1) (λ p u. tt))
              | inr (inl is) ↦ rw is tt
              | inr (inr (inl is)) ↦
                  absurd (subst (λ x. Reported tls k clock st.conn x r.conn) is q)
              | inr (inr (inr (inl is))) ↦
                  let later : Later tls k clock st.conn r.conn =
                    subst (λ x. Reported tls k clock st.conn x r.conn) is q in
                  let m = clock.ms r.conn in
                  let el = elapsed_32 s m (omega (arith, later.0)) (omega (arith, later.1)) in
                  rw is (
                    rw (clock.tick_value r.conn, el)
                      (elim (Bool-cases (ltb (m - s) timeout)) [
                        | inl more ↦
                            let before : m - s < timeout = ltb→lt (m - s) timeout more in
                            rw more (
                              response_loop-Ends fuel m r.rbytes
                                (record st1 { conn = (tls.tick r.conn).1 }) (clock.tick_ms r.conn)
                                (omega (arith, later.0)) (omega arith)
                                (omega (arith, later.2, clock.tick_calls r.conn)))
                        | inr done' ↦ rw done' tt
                      ]))
              | inr (inr (inr (inr is))) ↦ rw is tt
            ])

  -- With a clock that moves on, as each ms has at most `k` calls of mbedtls and a call takes at most
  -- 2^30 ms: `recv_resp_within_timeout` ends, with a result or an access outside
  -- the receive buffer, whatever is received and whatever the callbacks do, when
  -- the rounds are as many as there can be calls until 2^30 + 5000 ms behind the timeout.
  pub recv_resp_within_timeout-Ends :
      (k : ℕ) (clock : Clock tls k) (fuel timeout : ℕ) (cb : Bool) (st : State T)
      → 1 ≤ timeout
      → timeout ≤ 2 ^ 30
      → k * (clock.ms st.conn + timeout + 2 ^ 30 + 5000) + 1 < fuel + clock.calls st.conn
      → Ends (λ r. Unit {0}) (recv_resp_within_timeout tls upper fuel timeout cb st)
  unfolding recv_resp_within_timeout
  recv_resp_within_timeout-Ends k clock fuel timeout cb st lo hi e =
      let s = clock.ms st.conn in
      rw (clock.tick_value st.conn) (
        response_loop-Ends k clock s timeout cb hi fuel s 0
          (record st { conn = (tls.tick st.conn).1 }) (clock.tick_ms st.conn) (omega arith)
          (omega arith) (omega (arith, clock.tick_calls st.conn)))
