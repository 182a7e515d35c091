-- ===== src/Service/Control.antt =====
-- cc_control_service.c: the service for the configuration of the protocol.
pub mod Command
pub mod Total
pub mod Resend
use ts_sdk.Prelude.{
  ℕ, zero, suc, ◌+◌, ◌-◌, ◌*◌, ◌/◌, ◌%◌, ◌^◌, ◌≤◌, ◌<◌, min, ◌≡◌, refl, sym, ap, ap₂, ◌∙◌, subst,
  ◌≢◌, ◌↔◌, ◌⊎◌, inl, inr, Bool, true, false, not, ◌&&◌, ◌||◌, Option, none, some, List, [], ◌∷◌,
  ◌++◌, map, append-nil, append_assoc, arith, dec_lt, ℕ_discrete, ltb, leb, ◌==◌, if◌then◌else◌,
  ltb→lt, lt→ltb, leb→le, ==_iff, Bool-cases, Option-cases, length, get_elem?, get_or, set, take,
  drop, replicate, length-append, length-set, length-take, length-drop, length-replicate,
  take-append-drop, get_elem?-eq-get_or, get_or-set_self, get_or-set_ne, write_at, elem_index,
  get_or_index, get_or-append_right, take-length, drop-length, drop-append, take-append, put_at,
  length-put_at, put_at-zero, put_at_snoc, Outcome, done, failed, fault, hang, ◌>>=◌, on_fail, load,
  store, store_lem, load_lem, load_outside, get_elem?_outside, copy_from, copy_to, copy_from_lem,
  copy_to_lem, copy_from_outside, le→leb, gt→leb, ge→ltb, drop_add, take_all, take-take, take_add,
  get_or-take, length-write_at, take-write_at,
}
use ts_sdk.Ott.Session.{cc_service_control}
use ts_sdk.Cloud.Types.{
  CcEvent, send_acked, send_nacked, send_timeout, rcvd_overflow, rcvd_msg, Action, ack_msg, nak_msg,
  ctrl_sleep, set_polling,
}

-- CONTROL_PROTOCOL_VERSION and the message types of service_ids.h.
abbrev pub control_protocol_version : ℕ
control_protocol_version = 1

abbrev pub ctrl_msg_make_device_sleep : ℕ
ctrl_msg_make_device_sleep = 1

abbrev pub ctrl_msg_set_polling_interval : ℕ
ctrl_msg_set_polling_interval = 2

-- `load_uint32_le` of a pointer into the message.
abbrev pub load_uint32_le : List ℕ → ℕ → Outcome ℕ
load_uint32_le msg i = do
  b3 ← load msg (i + 3)
  b2 ← load msg (i + 2)
  b1 ← load msg (i + 1)
  b0 ← load msg i
  done (b3 * 2 ^ 24 + b2 * 2 ^ 16 + b1 * 2 ^ 8 + b0)

-- The part of `control_dispatch_callback` for a received message: the header of version and type
-- begins at the given memory.
unfoldable pub control_msg : List ℕ → Outcome (List Action)
control_msg hdr = do
  version ← load hdr 0
  msg_type ← load hdr 1
  if version == control_protocol_version
      then (if msg_type == ctrl_msg_make_device_sleep
          then (do interval ← load_uint32_le hdr 2; done (ctrl_sleep interval ∷ ack_msg ∷ []))
          else if msg_type == ctrl_msg_set_polling_interval
          then (do
            interval ← load_uint32_le hdr 2
            done (set_polling (1000 * interval % 2 ^ 32) ∷ ack_msg ∷ []))
          else done (ack_msg ∷ []))
      else done (nak_msg ∷ [])

-- `control_dispatch_callback`; `hdr` is the memory that `cc_get_recv_buffer_ptr` shows.
unfoldable pub control_dispatch : List ℕ → CcEvent → ℕ → Outcome (List Action)
control_dispatch hdr event svc_id =
    if not (svc_id == cc_service_control) then done [] else elim event [
      | send_acked ↦ done []
      | send_nacked ↦ done []
      | send_timeout ↦ done []
      | rcvd_overflow ↦ done (nak_msg ∷ [])
      | rcvd_msg ↦ control_msg hdr
      | _ ↦ done []
    ]
