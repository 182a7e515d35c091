-- ===== src/Cloud/Types.antt =====
-- cloud_comm.h, cloud_comm_def.h, service_common.h and cloud_protocol_intfc.h: what the cloud
-- communication layer keeps, and what it calls of a protocol.
use ts_sdk.Prelude.{ℕ, Bool, Option, List}

-- `cc_event`.
pub data CcEvent : Type 0 where
  evt_none send_acked send_nacked send_timeout : CcEvent
  rcvd_msg rcvd_wrong_msg rcvd_msg_highprio rcvd_overflow : CcEvent
  evt_ctrl_sleep evt_ctrl_factory_rst : CcEvent

-- `cc_send_result` and `cc_set_recv_result`.
pub data SendResult : Type 0 where
  send_failed send_busy send_success : SendResult

pub data RecvResult : Type 0 where
  recv_failed recv_busy recv_success : RecvResult

-- `proto_event`.
pub data ProtoEvent : Type 0 where
  proto_rcvd_none proto_rcvd_ack proto_rcvd_nack proto_send_timeout proto_send_failed : ProtoEvent
  proto_rcvd_mem_ovrfl proto_rcvd_quit proto_rcvd_wrong_msg proto_rcvd_msg : ProtoEvent

-- `cc_buffer_desc`; `buf_ptr` is the memory that it points to, `none` for NULL.
pub record Buffer : Type 0 where
  pub bufsz : ℕ
  pub current_len : ℕ
  pub buf_ptr : Option (List ℕ)

-- The `dispatch_callback` of a service.
pub data Service : Type 0 where
  control_service basic_service : Service

-- `cc_service_descriptor`; whether there is an `add_send_hdr`.
pub record Descriptor : Type 0 where
  pub svc_id : ℕ
  pub send_offset : ℕ
  pub recv_offset : ℕ
  pub dispatch_callback : Option Service
  pub has_add_send_hdr : Bool

-- `service_dispatch_entry`; an application callback is known by a number.
pub record Entry : Type 0 where
  pub descriptor : Descriptor
  pub app_callback : ℕ

-- A call of an application callback: which one, the event, the value, the pointer to the buffer, and
-- what this shows at the time of the call.
pub record Notice : Type 0 where
  pub callback : ℕ
  pub event : CcEvent
  pub value : ℕ
  pub buf : Option ℕ
  pub shows : Option Buffer

-- What a service calls for an event: `cc_ack_msg`, `cc_nak_msg`, the application's callback with
-- CC_EVT_CTRL_SLEEP and the interval, PROTO_SET_POLLING, and the callback with an event and the buffer.
pub data Action : Type 0 where
  ack_msg nak_msg : Action
  ctrl_sleep set_polling : ℕ → Action
  deliver : CcEvent → Action

-- The static variables of cloud_comm.c: `conn_out`, `conn_in`, `timekeep`, `init_polling_ms` and
-- `service_table`, in which `none` is an entry of zeros. The descriptors of the application's buffers
-- are `buffers`, and a pointer to one is its index. `notices` are the calls of application callbacks
-- so far.
pub record Cloud : Type 0 where
  pub send_in_progress : Bool
  pub out_buf : Option ℕ
  pub recv_in_progress : Bool
  pub in_buf : Option ℕ
  pub start_ts : ℕ
  pub polling_int_ms : ℕ
  pub init_polling_ms : ℕ
  pub service_table : List (Option Entry)
  pub buffers : List Buffer
  pub notices : List Notice

-- A call of `cc_recv_cb`, with what stands in the receive buffer, or of `cc_send_cb`.
pub data Upcall : Type 0 where
  recv_cb : (bytes : List ℕ) → (sz : ℕ) → ProtoEvent → (svc_id : ℕ) → Upcall
  send_cb : ProtoEvent → (svc_id : ℕ) → Upcall

-- How a call into a protocol goes on: it ends, with the success of it, or it calls back and goes on
-- from the state that the callback leaves.
pub data Run {ℓ} (P : Type ℓ) : Type ℓ where
  ends : Bool → P → Run P
  calls : Upcall → P → (P → Run P) → Run P

-- The macros of cloud_protocol_intfc.h over the state of a protocol. `overhead_sz` is
-- PROTO_OVERHEAD_SZ; `basic_header` tells whether the basic service has a header, as it has with
-- SMSNAS_PROTOCOL. Pointers to buffers are passed with what stands in them.
pub record Proto {ℓ} (P : Type ℓ) : Type ℓ where
  pub overhead_sz : ℕ
  pub basic_header : Bool
  pub proto_init : P → Bool × P
  pub get_polling : P → ℕ
  pub set_polling : ℕ → P → P
  pub send_ack : P → P
  pub send_nack : P → P
  pub set_recv_buffer_cb : List ℕ → (sz : ℕ) → P → Bool × P
  pub send_msg_to_cloud : List ℕ → (sz svc_id : ℕ) → P → Run P
  pub maintenance : (poll_due : Bool) → (cur_ts : ℕ) → P → Run P
  pub initiate_quit : (send_nack : Bool) → P → P
