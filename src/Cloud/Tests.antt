-- ===== src/Cloud/Tests.antt =====
-- The theorems on cloud_comm.c with a protocol that calls back at each call.
use ts_sdk.Prelude.{
  ℕ, ◌%◌, ◌^◌, ◌≡◌, ◌≢◌, refl, Bool, true, false, none, some, List, [], ◌∷◌, arith, leb, inl, inr,
  replicate, done, fault, ◌>>=◌, Returns,
}
use ts_sdk.Cloud.Types.{
  Notice, Cloud, Proto, Buffer, Run, ends, calls, recv_cb, send_cb, proto_rcvd_ack, proto_rcvd_msg,
  proto_rcvd_quit, proto_rcvd_mem_ovrfl, send_failed, send_busy, recv_success,
}
use ts_sdk.Cloud.Dispatch.{control_descriptor, basic_descriptor, register_service}
use ts_sdk.Cloud.Receive.{cc_recv_cb, play, set_recv_buffer}
use ts_sdk.Cloud.Send.{send_svc_msg, service_send_receive, cc_init}
use ts_sdk.Cloud.Ready.{IsReady, registered}
use ts_sdk.Cloud.Safe.{activated}
use ts_sdk.Cloud.Callbacks.{play-Returns}
use ts_sdk.Cloud.Schedule.{Scheduled, is_due, service_send_receive_lem}
use ts_sdk.Cloud.Sending.{
  sending, ended, send_svc_msg-refused, send_svc_msg-basic, send_svc_msg-Returns,
}
use ts_sdk.Cloud.Delivery.{handed_on, received_message}
use ts_sdk.Cloud.Setup.{setup_lem, unregistered}

-- A message of the basic service behind three bytes of overhead.
abbrev message : List ℕ
message = 0 ∷ 0 ∷ 0 ∷ 1 ∷ 7 ∷ 8 ∷ 9 ∷ 0 ∷ 0 ∷ []

-- The state of the protocol is its polling interval.
abbrev echo : Proto ℕ
echo = record {
  overhead_sz = 3;
  basic_header = true;
  proto_init = λ p. (true, 15000);
  get_polling = λ p. p % 2 ^ 32;
  set_polling = λ ms p. ms;
  send_ack = λ p. p;
  send_nack = λ p. p;
  set_recv_buffer_cb = λ mem sz p. (leb sz 512, p);
  send_msg_to_cloud = λ mem sz svc p. calls (send_cb proto_rcvd_ack svc) p (λ q. ends true q);
  maintenance = λ due ts p. calls (recv_cb message 6 proto_rcvd_msg 1) p (λ q. ends true 10000);
  initiate_quit = λ nack p. p;
}

abbrev acks : Notice → List Bool
acks n = true ∷ []

abbrev recv_buffer : Buffer
recv_buffer = record { bufsz = 6; current_len = 0; buf_ptr = some (replicate 9 0) }

abbrev send_buffer : Buffer
send_buffer = record { bufsz = 4; current_len = 0; buf_ptr = some (0 ∷ 5 ∷ 6 ∷ 7 ∷ []) }

abbrev listening : Cloud
listening = record {
  send_in_progress = false;
  out_buf = none;
  recv_in_progress = true;
  in_buf = some 0;
  start_ts = 1000;
  polling_int_ms = 60000;
  init_polling_ms = 60000;
  service_table = registered true 3 4;
  buffers = recv_buffer ∷ send_buffer ∷ [];
  notices = [];
}

listening-IsReady : IsReady echo 3 4 0 9 1000 listening
listening-IsReady = record {
  started = refl;
  in_at = refl;
  room = (refl, omega arith, omega arith);
  services = refl;
}

abbrev callbacks : Run ℕ
callbacks = calls (recv_cb message 7 proto_rcvd_msg 0) 60000 (λ p.
    calls (recv_cb message 0 proto_rcvd_mem_ovrfl 9) p
      (λ q. calls (recv_cb message 0 proto_rcvd_quit 1) q (λ r. ends false r)))

play-Returns_example :
    Returns (λ r. IsReady echo 3 4 0 9 1000 r.1) (play echo acks callbacks listening)
play-Returns_example =
    play-Returns echo acks 3 4 0 9 1000 callbacks listening
      (refl, λ p. (refl, λ q. (refl, λ r. tt))) listening-IsReady

-- The interval becomes 10 seconds when 30 of 60 have passed.
service_send_receive_example :
    Returns
      (λ r.
        Scheduled echo acks 3 4 0 9 1000 31000
          (λ p. omega arith)
          listening
          60000
          listening-IsReady
          (omega arith)
          (omega arith)
          (omega arith)
          (is_due 60000 30000)
          r.0
          r.1)
      (service_send_receive echo acks 31000 (listening, 60000))
service_send_receive_example =
    service_send_receive_lem echo acks 3 4 0 9 1000 31000 (λ p. omega arith) listening 60000
      listening-IsReady (omega arith) (omega arith) (omega arith) (refl, λ q. tt)

send_svc_msg-refused_example :
    send_svc_msg echo acks (some 1) 0 1 (listening, 60000)
    ≡ done (send_failed, record listening { out_buf = none }, 60000)
send_svc_msg-refused_example =
    send_svc_msg-refused echo acks (some 1) 0 1 listening 60000 refl (inr (inr (inl refl)))

send_svc_msg-basic_example : send_svc_msg echo acks (some 1) 3 1 (listening, 60000) ≡ (
    play echo acks
      (echo.send_msg_to_cloud (1 ∷ 5 ∷ 6 ∷ 7 ∷ []) 4 1 60000)
      (sending echo acks 1 send_buffer (1 ∷ 5 ∷ 6 ∷ 7 ∷ []) listening)
    >>= λ r. done (ended echo acks r))
send_svc_msg-basic_example =
    send_svc_msg-basic echo acks 3 4 1 3 listening send_buffer (0 ∷ 5 ∷ 6 ∷ 7 ∷ []) refl refl refl
      (omega arith) (omega arith) refl 60000 refl

send_svc_msg-Returns_example :
    Returns
      (λ r. IsReady echo 3 4 0 9 1000 r.1 × (r.1.send_in_progress ≡ false) × (r.0 ≢ send_busy))
      (send_svc_msg echo acks (some 1) 3 1 (listening, 60000))
send_svc_msg-Returns_example =
    send_svc_msg-Returns echo acks 3 4 1 3 listening send_buffer (0 ∷ 5 ∷ 6 ∷ 7 ∷ []) refl refl refl
      (omega arith) (omega arith) refl 60000 0 9 1000 listening-IsReady (omega arith) refl
      (λ bytes n. (tt, λ q. tt))

received_message_example :
    cc_recv_cb echo acks message 7 proto_rcvd_msg 1 (listening, 60000)
    ≡ done (
      activated echo 3 4 0 0 0 true
          (record { bufsz = 6; current_len = 7; buf_ptr = some message })
          message
          (handed_on echo acks 3 4 0 7 message listening 60000 recv_buffer refl refl refl
            (omega arith)
            (omega arith)),
      60000,
    )
received_message_example =
    received_message echo acks 3 4 0 7 message listening 60000 recv_buffer refl refl refl
      (omega arith) (omega arith)

-- Before anything is set up.
abbrev asleep : Cloud
asleep = record listening {
  recv_in_progress = false;
  in_buf = none;
  service_table = none ∷ none ∷ [];
}

setup_example :
    let a = cc_init echo (some 3) (asleep, 0) in
    let r = register_service (some (basic_descriptor true)) (some 4) a.1 in
    (a.0 ≡ true)
    × (r.0 ≡ true)
    × Returns
        (λ s.
          (s.0 ≡ recv_success)
          × (s.1.recv_in_progress ≡ true)
          × (s.1.send_in_progress ≡ false)
          × IsReady echo 3 4 0 9 0 s.1)
        (set_recv_buffer echo (some 0) (r.1, a.2))
setup_example =
    setup_lem echo 3 4 asleep 0 refl 0 9 recv_buffer (replicate 9 0) refl refl refl (omega arith)
      (omega arith) refl (λ bytes q. refl)

abbrev control_only : Cloud
control_only = record listening {
  service_table = some (record { descriptor = control_descriptor; app_callback = 3 }) ∷ none ∷ [];
}

unregistered_example : cc_recv_cb echo acks message 7 proto_rcvd_msg 1 (control_only, 60000) ≡ fault
unregistered_example =
    unregistered echo acks 3 0 7 message control_only 60000 recv_buffer refl refl refl
