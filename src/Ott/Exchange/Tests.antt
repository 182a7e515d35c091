-- ===== src/Ott/Exchange/Tests.antt =====
-- The theorems on the sessions of ott_protocol.c at concrete connections.
use ts_sdk.Prelude.{
  ℕ, suc, ◌+◌, ◌%◌, ◌^◌, ◌≡◌, refl, true, false, some, List, [], ◌∷◌, ◌++◌, arith, length,
  replicate, done, Ends,
}
use ts_sdk.SmsNas.Session.{proto_ok, proto_timeout}
use ts_sdk.Ott.Message.{Tls, count, want_more}
use ts_sdk.Ott.Fragments.{Stream}
use ts_sdk.Ott.Write.{Sink}
use ts_sdk.Ott.Session.{Session}
use ts_sdk.Ott.Response.{
  State, recv_resp_within_timeout, invoke_send_callback, rcvd_ack, with_session,
}
use ts_sdk.Ott.Connect.{Net, send_auth, initiate_connection}
use ts_sdk.Ott.Connect.Layout.{duplex_tls, auth_bytes, send_auth_lem}
use ts_sdk.Ott.Connect.Late.{initiate_connection-late}
use ts_sdk.Ott.Exchange.{send_msg_to_cloud, clear_nack_sent}
use ts_sdk.Ott.Exchange.Deliver.{deliver}
use ts_sdk.Ott.Exchange.Answer.{acked}
use ts_sdk.Ott.Ending.{Clock}
use ts_sdk.Ott.Ending.Wait.{recv_resp_within_timeout-Ends}
use ts_sdk.Ott.Tests.{fresh}

abbrev device : Session
device = record fresh { auth_valid = true }

send_auth_example :
    (ks' : List ℕ) × (send_auth duplex_tls 32 5000 0x40 device ((8 ∷ [], 3 ∷ []), ([], []))
      ≡ done (proto_ok, (((8 ∷ []) ++ auth_bytes 0x41 device, ks'), ([], []))))
send_auth_example =
    send_auth_lem 32 device (8 ∷ []) (3 ∷ []) ([], []) refl refl (omega arith) true refl

-- A session that is up, with a receive buffer of 20 bytes.
abbrev up : Sink × Stream → List ℕ → State (Sink × Stream)
up conn buf = record {
  session = record fresh {
    auth_done = true;
    conn_done = true;
    pend_ack = true;
    rcv_buf = some buf;
    rcv_sz = 20;
  };
  recvd = 0;
  conn = conn;
}

-- A network that takes everything.
abbrev net : Net (Sink × Stream)
net = record {
  net_connect = λ host port t. (true, t);
  ssl_setup = λ t. (true, t);
  set_hostname = λ host t. (true, t);
  handshake = λ t. (count 0, t);
  ssl_free = λ t. t;
  net_free = λ t. t;
}

abbrev idle : State (Sink × Stream)
idle = up (([], 0 ∷ []), (0x60 ∷ [], [])) (1 ∷ replicate 19 1)

deliver_example :
    (ks' : List ℕ) × (send_msg_to_cloud duplex_tls net
        (λ c st. st)
        1
        513
        (some (7 ∷ 8 ∷ 9 ∷ []))
        3
        1
        true
        idle
      ≡ done (
        proto_ok,
        clear_nack_sent duplex_tls net
            (λ c st. st)
            (invoke_send_callback duplex_tls
              (λ c st. st)
              rcvd_ack
              (acked true
                (0x60 ∷ replicate 19 1)
                (with_session idle (record idle.session {
                  auth_done = true;
                  send_buf = some (7 ∷ 8 ∷ 9 ∷ []);
                  send_sz = 3;
                  has_send_cb = true;
                  send_svc_id = 1;
                  pend_ack = false;
                }))
                (((0x62 ∷ 3 ∷ 0 ∷ 7 ∷ 8 ∷ 9 ∷ []), ks'), ([], [])))),
      ))
deliver_example =
    deliver (λ c st. st) 1 512 3 (7 ∷ 8 ∷ 9 ∷ []) [] (0 ∷ []) true idle net 1 (replicate 19 1) refl
      refl refl (omega arith) (omega arith) refl (omega arith) (omega arith) (omega arith)
      (omega arith) true [] refl

-- The same buffer with an ACK from before, and nothing more to come.
abbrev closed : State (Sink × Stream)
closed = up (([], 0 ∷ []), ([], [])) (0x20 ∷ replicate 19 1)

-- A connection whose every call takes 1 ms and gives nothing, after a number of calls.
abbrev slow_tls : Tls ℕ
slow_tls = record {
  ssl_write = λ bytes t. (count (length bytes), suc t);
  ssl_read = λ most t. (want_more, [], suc t);
  session_reset = λ t. t;
  close_notify_ok = λ t. (true, t);
  tick = λ t. (t % 2 ^ 64, t);
}

abbrev slow_clock : Clock slow_tls 1
slow_clock = record {
  ms = λ t. t;
  calls = λ t. t;
  rate = λ t. omega arith;
  tick_value = λ t. refl;
  tick_ms = λ t. refl;
  tick_calls = λ t. refl;
  write_calls = λ b t. omega arith;
  write_ms = λ b t. (omega arith, omega arith);
  read_calls = λ n t. omega arith;
  read_ms = λ n t. (omega arith, omega arith);
  close_calls = λ t. omega arith;
  close_ms = λ t. (omega arith, omega arith);
}

abbrev waiting : State ℕ
waiting = record {
  session = record fresh { rcv_buf = some (replicate 20 1); rcv_sz = 20 };
  recvd = 0;
  conn = 100;
}

recv_resp_within_timeout_example :
    Ends (λ r. Unit {0}) (recv_resp_within_timeout slow_tls (λ c st. st) (2 ^ 31) 5000 true waiting)
recv_resp_within_timeout_example =
    recv_resp_within_timeout-Ends slow_tls (λ c st. st) 1 slow_clock (2 ^ 31) 5000 true waiting
      (omega arith) (omega arith) (omega arith)

-- A network whose handshake never gets on.
abbrev slow_net : Net ℕ
slow_net = record {
  net_connect = λ host port t. (true, t);
  ssl_setup = λ t. (true, t);
  set_hostname = λ host t. (true, t);
  handshake = λ t. (want_more, suc t);
  ssl_free = λ t. t;
  net_free = λ t. t;
}

initiate_connection_example :
    initiate_connection slow_tls slow_net 5 5000 (1 ∷ []) (2 ∷ []) (2 ^ 32)
    ≡ done (proto_timeout, 2 ^ 32 + 1)
initiate_connection_example =
    initiate_connection-late slow_tls slow_net (1 ∷ []) (2 ∷ []) (2 ^ 32) 4 5000 refl refl refl refl
      (omega arith) (omega arith) (omega arith) (omega arith)
