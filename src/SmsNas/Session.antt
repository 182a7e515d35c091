-- ===== src/SmsNas/Session.antt =====
-- smsnas_def.h and the operations of smsnas_protocol.c that set the session up.
pub mod Host
use ts_sdk.Prelude.{
  ℕ, ◌+◌, ◌-◌, ◌*◌, ◌%◌, ◌^◌, Bool, true, false, ◌||◌, Option, none, some, List, [], ◌∷◌, ◌++◌, ltb,
  ◌==◌, if◌then◌else◌, length, get_elem?, set, drop, replicate, write_at,
}
use ts_sdk.Sms.Types.{addr_sz, max_data_sz, max_concat_data_sz, c_str}

-- smsnas_limits.h, smsnas_def.h and at_sms.h.
abbrev pub proto_max_msg_sz : ℕ
proto_max_msg_sz = 512

abbrev pub proto_overhead_sz : ℕ
proto_overhead_sz = 4

abbrev pub smsnas_version : ℕ
smsnas_version = 1

abbrev pub max_retries : ℕ
max_retries = 3

abbrev pub max_conc_sms_num : ℕ
max_conc_sms_num = 4

abbrev pub conc_next_seg_timeout_ms : ℕ
conc_next_seg_timeout_ms = 2000

abbrev pub max_host_len : ℕ
max_host_len = addr_sz

abbrev pub max_sms_pl_sz : ℕ
max_sms_pl_sz = max_data_sz

abbrev pub sms_sz_witht_tuhd_with_phd : ℕ
sms_sz_witht_tuhd_with_phd = max_sms_pl_sz - proto_overhead_sz

abbrev pub sms_sz_with_tuhd_witht_phd : ℕ
sms_sz_with_tuhd_witht_phd = max_concat_data_sz

abbrev pub sms_sz_with_tudh_with_phd : ℕ
sms_sz_with_tudh_with_phd = sms_sz_with_tuhd_witht_phd - proto_overhead_sz

abbrev pub max_sms_ref_number : ℕ
max_sms_ref_number = 256

-- `proto_result`.
pub data ProtoResult : Type 0 where
  proto_ok proto_error proto_timeout proto_no_msg proto_inv_param : ProtoResult

abbrev pub is_ok : ProtoResult → Bool
is_ok proto_ok = true
is_ok proto_error = false
is_ok proto_timeout = false
is_ok proto_no_msg = false
is_ok proto_inv_param = false

-- The values of `proto_event` that this protocol delivers.
pub data ProtoEvent : Type 0 where
  proto_send_timeout proto_rcvd_mem_ovrfl proto_rcvd_msg : ProtoEvent

-- A call of a `proto_callback`: what stands in the buffer, the size, the event and the service.
pub record Call : Type 0 where
  pub buf : List ℕ
  pub sz : ℕ
  pub event : ProtoEvent
  pub svc_id : ℕ

-- `ack_nack`.
pub data AckNack : Type 0 where
  ack_pending nack_pending no_ack_nack : AckNack

-- `smsnas_rcv_path`. `buf` is the place in `smsnas_rcv_buf` that the pointer shows; the reference
-- number -1 is `none`.
pub record RcvPath : Type 0 where
  pub conct_in_progress : Bool
  pub service_id : ℕ
  pub cref_num : Option ℕ
  pub cur_seq : ℕ
  pub expected_seq : ℕ
  pub next_seq_timeout : ℕ
  pub buf : ℕ
  pub wr_idx : ℕ
  pub rcv_sz : ℕ

-- The static `session`, with the static `smsnas_rcv_buf`. `rcv_buf` is what stands in the user's
-- buffer, `has_rcv_cb` tells whether `rcv_cb` is set. `rcv_msg` has SMSNAS_MAX_RCV_PATH elements.
pub record Session : Type 0 where
  pub msg_ref_num : ℕ
  pub host_valid : Bool
  pub host : List ℕ
  pub rcv_msg : List RcvPath
  pub send_msg : List ℕ
  pub rcv_valid : Bool
  pub rcv_buf : List ℕ
  pub rcv_sz : ℕ
  pub has_rcv_cb : Bool
  pub next_seg_rcv_timeout : ℕ
  pub ack_nack_pend : AckNack
  pub smsnas_rcv_buf : List ℕ

-- The new contents of a path in `reset_rcv_path`; `wr_idx` is a `uint16_t`.
abbrev pub reset_path : ℕ → RcvPath → RcvPath
reset_path i p = record p {
  rcv_sz = proto_max_msg_sz;
  wr_idx = i * proto_max_msg_sz % 2 ^ 16;
  cur_seq = 0;
  cref_num = none;
  conct_in_progress = false;
  expected_seq = 0;
}

abbrev pub set_path : ℕ → RcvPath → Session → Session
set_path i p s = record s { rcv_msg = set s.rcv_msg i p }

-- `reset_rcv_path`.
unfoldable pub reset_rcv_path : ℕ → Session → Session
reset_rcv_path i s = elim (get_elem? s.rcv_msg i) [
  | none ↦ s
  | some p ↦ set_path i (reset_path i p) s
]

-- The loop of `smsnas_protocol_init` over the receive paths from number `i` on.
pub init_paths : ℕ → List RcvPath → List RcvPath
init_paths i [] = []
init_paths i (p ∷ ps) =
    reset_path i (record p { buf = i * proto_max_msg_sz }) ∷ init_paths (i + 1) ps

-- `smsnas_protocol_init`; `modem_ok` is what `at_init` returns.
unfoldable pub protocol_init : Bool → Session → ProtoResult × Session
unfolding init_paths
protocol_init modem_ok s =
    if modem_ok
    then (
      proto_ok,
      record s {
        next_seg_rcv_timeout = 0;
        host = replicate max_host_len 0 ++ drop max_host_len s.host;
        host_valid = false;
        rcv_msg = init_paths 0 s.rcv_msg;
        msg_ref_num = 0;
        has_rcv_cb = false;
        rcv_valid = false;
        ack_nack_pend = no_ack_nack;
      },
    )
    else (proto_error, s)

-- `smsnas_set_destination`: `strncpy` of `strlen(host)` characters writes no NUL behind them.
unfoldable pub set_destination : Option (List ℕ) → Session → ProtoResult × Session
set_destination none s = (proto_inv_param, s)
set_destination (some host) s =
    let n = length (c_str host) in
    if ltb max_host_len n || n == 0
    then (proto_inv_param, s)
    else (proto_ok, record s { host = write_at s.host 0 (c_str host); host_valid = true })

-- `smsnas_send_ack` and `smsnas_send_nack`.
abbrev pub send_ack : Session → Session
send_ack s = record s { ack_nack_pend = ack_pending }

abbrev pub send_nack : Session → Session
send_nack s = record s { ack_nack_pend = nack_pending }

-- `smsnas_set_recv_buffer_cb`; the list is what stands in the buffer, `none` for NULL, and `cb`
-- tells that the callback is not NULL.
unfoldable pub set_recv_buffer_cb : Option (List ℕ) → ℕ → Bool → Session → ProtoResult × Session
set_recv_buffer_cb none sz cb s = (proto_inv_param, s)
set_recv_buffer_cb (some buf) sz cb s =
    if ltb proto_max_msg_sz sz
    then (proto_inv_param, s)
    else if s.rcv_valid
    then (proto_error, s)
    else (proto_ok, record s { rcv_buf = buf; rcv_sz = sz; rcv_valid = true; has_rcv_cb = cb })

-- `smsnas_get_polling_interval`.
pub get_polling_interval : Session → ℕ
get_polling_interval s = s.next_seg_rcv_timeout
