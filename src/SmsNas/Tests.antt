-- ===== src/SmsNas/Tests.antt =====
-- The theorems on smsnas_protocol at concrete sessions and messages.
use ts_sdk.Prelude.{
  leb, ltb, if◌then◌else◌, ℕ, ◌+◌, ◌%◌, ◌≡◌, refl, Bool, true, false, some, List, [], ◌∷◌, ◌++◌,
  arith, ◌==◌, drop, replicate, done, fault,
}
use ts_sdk.Sms.Types.{Sms, c_str}
use ts_sdk.SmsNas.Receive.{maintenance, rcv_cb}
use ts_sdk.SmsNas.Receive.Segment.{busy_path}
use ts_sdk.SmsNas.Receive.Errors.{out_of_order, overflow-collecting}
use ts_sdk.SmsNas.Receive.Timeout.{maintenance_lem}
use ts_sdk.SmsNas.Session.{ack_pending, nack_pending, proto_rcvd_mem_ovrfl}
use ts_sdk.SmsNas.EndToEnd.{transmit, receive_log, send-receive}
use ts_sdk.SmsNas.Session.{Session, Call, proto_ok, no_ack_nack, set_destination}
use ts_sdk.SmsNas.Session.Host.{set_destination_lem}
use ts_sdk.SmsNas.Send.{send_msg_to_cloud, write_to_modem}
use ts_sdk.SmsNas.Send.Retry.{segment_sms, attempts, write_to_modem_lem}
use ts_sdk.SmsNas.Send.Segments.{pieces, send_all, sent_session, concat}
use ts_sdk.SmsNas.Send.Message.{protocol_header}
use ts_sdk.SmsNas.Send.Whole.{with_msg, send_msg_to_cloud-segments}
use ts_sdk.SmsNas.Send.Overrun.{send_msg_to_cloud-fault}
use ts_sdk.SmsNas.Receive.{rcv_path_cleanup}
use ts_sdk.SmsNas.Receive.Segment.{idle_path, listening, msg_call}
use ts_sdk.SmsNas.Receive.Reassemble.{receive_all, receive_segments}

-- A modem that keeps what it sends, and one that fails every other time.
abbrev keep : Sms → List Sms → Bool × List Sms
keep sms log = (true, sms ∷ log)

abbrev every_other : Sms → ℕ → Bool × ℕ
every_other sms n = (n % 2 == 1, n + 1)

abbrev phone : List ℕ
phone = 53 ∷ 53 ∷ 53 ∷ replicate 19 0

abbrev ready : Session
ready = record {
  msg_ref_num = 7;
  host_valid = true;
  host = phone;
  rcv_msg = idle_path 0 0 ∷ [];
  send_msg = replicate 140 0;
  rcv_valid = true;
  rcv_buf = replicate 512 0;
  rcv_sz = 512;
  has_rcv_cb = true;
  next_seg_rcv_timeout = 0;
  ack_nack_pend = no_ack_nack;
  smsnas_rcv_buf = replicate 512 0;
}

abbrev data_200 : List ℕ
data_200 = replicate 200 9

abbrev data_262 : List ℕ
data_262 = replicate 262 9

abbrev data_3 : List ℕ
data_3 = 1 ∷ 2 ∷ 3 ∷ []

send_msg_to_cloud-segments_example :
    send_msg_to_cloud keep (some data_200) 200 5 ready []
    ≡ done (
      proto_ok,
      sent_session keep (with_msg ready data_200 200 130 5) 7,
      send_all keep phone 7 2 1 (pieces 2 (protocol_header 200 5 ++ data_200)) [],
      [],
    )
send_msg_to_cloud-segments_example =
    send_msg_to_cloud-segments keep 1 ready data_200 200 5 [] refl refl refl (omega arith)
      (omega arith) (omega arith) (omega arith)

send_msg_to_cloud-fault_example : send_msg_to_cloud keep (some data_262) 262 5 ready [] ≡ fault
send_msg_to_cloud-fault_example =
    send_msg_to_cloud-fault keep 0 ready data_262 262 5 [] refl refl refl (omega arith)
      (omega arith) (omega arith)

write_to_modem_example :
    write_to_modem every_other ready data_3 2 7 1 0 0
    ≡ done (proto_ok, attempts every_other 4 (segment_sms phone (1 ∷ 2 ∷ []) 7 1 0) 0)
write_to_modem_example = write_to_modem_lem every_other ready data_3 2 7 1 0 0 (omega arith)

-- A callback that leaves the session alone.
abbrev no_answer : Call → Session → Session
no_answer call s = s

receive_segments_example :
    (s' : Session) × (receive_all no_answer
        (λ t. t)
        phone
        3
        3
        1
        ((1 ∷ 5 ∷ 0 ∷ []) ∷ data_3 ∷ data_3 ∷ [])
        (listening ready (idle_path 0 0) (replicate 512 0) no_ack_nack)
      ≡ done (
          rcv_path_cleanup
            (some 0)
            (no_answer (msg_call ready (concat ((1 ∷ 5 ∷ 0 ∷ []) ∷ data_3 ∷ data_3 ∷ [])) 5) s')))
    × (s'.rcv_valid ≡ false)
receive_segments_example =
    receive_segments no_answer (λ t. t) phone 3 3 (0 ∷ []) data_3 (data_3 ∷ []) ready
      (replicate 512 0) 5 0 0 no_ack_nack refl (omega arith) refl (omega arith) (omega arith)
      (omega arith)

-- A shorter number after a longer one.
set_destination_example :
    let (res, s') = set_destination (some (55 ∷ 0 ∷ [])) ready in
    (res ≡ proto_ok)
    × (s'.host_valid ≡ true)
    × (c_str s'.host ≡ c_str (55 ∷ 0 ∷ []) ++ c_str (drop 1 ready.host))
set_destination_example = set_destination_lem (55 ∷ 0 ∷ []) ready (omega arith) (omega arith)

send-receive_example :
    (s' : Session) × (r' : Session) × (log : List Sms) × (send_msg_to_cloud transmit
        (some data_200)
        200
        5
        ready
        []
      ≡ done (proto_ok, s', log, []))
    × (receive_log no_answer
          (λ t. t)
          1
          log
          (listening ready (idle_path 0 0) (replicate 512 0) no_ack_nack)
        ≡ done (
            rcv_path_cleanup
              (some 0)
              (no_answer (msg_call ready (protocol_header 200 5 ++ data_200) 5) r')))
send-receive_example =
    send-receive no_answer (λ t. t) 1 ready ready data_200 (replicate 512 0) 200 5 0 0 no_ack_nack
      refl refl refl (omega arith) (omega arith) (omega arith) (omega arith) refl (omega arith)
      (omega arith)

-- A receive path that has the first of three segments.
abbrev area_512 : List ℕ
area_512 = replicate 512 0

out_of_order_example :
    rcv_cb no_answer 50
      (segment_sms phone data_3 3 3 3)
      (listening ready (busy_path 3 5 3 1 0 2000) area_512 ack_pending)
    ≡ done (listening ready (idle_path 5 2000) area_512 nack_pending)
out_of_order_example =
    out_of_order no_answer 50 ready area_512 phone data_3 3 3 5 3 1 0 2000 3 ack_pending
      (omega arith) (omega arith) (omega arith) (omega arith)

abbrev tight : Session
tight = record ready { rcv_sz = 5 }

overflow-collecting_example :
    rcv_cb no_answer 50
      (segment_sms phone data_3 3 3 2)
      (listening tight (busy_path 3 5 3 1 0 2000) area_512 ack_pending)
    ≡ done (
        rcv_path_cleanup
          (some 0)
          (record (no_answer
            (record { buf = tight.rcv_buf; sz = 5; event = proto_rcvd_mem_ovrfl; svc_id = 0 })
            (listening tight (busy_path 3 5 3 1 0 2000) area_512 ack_pending)) {
              rcv_valid = false;
            }))
overflow-collecting_example =
    overflow-collecting no_answer 50 tight area_512 phone data_3 3 3 5 3 1 0 2000 2 ack_pending
      (omega arith) (omega arith) (omega arith)

maintenance_example :
    maintenance true 1500 (listening ready (busy_path 3 5 3 1 0 2000) area_512 ack_pending) ≡ (
      ack_pending,
      (if leb 2000 1500
          then (if ltb 1 0
              then record (listening ready (idle_path 5 2000) area_512 no_ack_nack) {
                next_seg_rcv_timeout = 0;
              }
              else listening ready (busy_path 3 5 3 1 0 2000) area_512 no_ack_nack)
          else record (listening ready (busy_path 3 5 3 1 2 500) area_512 no_ack_nack) {
            next_seg_rcv_timeout = 500;
          }),
    )
maintenance_example =
    maintenance_lem true 1500 ready area_512 3 5 3 1 0 2000 ack_pending (omega arith) (omega arith)
