-- ===== src/Cloud/Send.antt =====
-- Registration, sending and the periodic call of cloud_comm.c.
use ts_sdk.Prelude.{
  ℕ, ◌+◌, ◌-◌, ◌%◌, ◌^◌, Bool, true, false, not, ◌||◌, Option, none, some, List, leb, ◌==◌,
  if◌then◌else◌, replicate, Outcome, done, fault, ◌>>=◌,
}
use ts_sdk.Ott.Session.{cc_service_basic}
use ts_sdk.Cloud.Types.{
  Buffer, Entry, Notice, Cloud, Proto, SendResult, send_failed, send_busy, send_success,
}
use ts_sdk.Cloud.Dispatch.{
  buffer_at, lookup_service, entry_at, get_send_buffer_ptr, register_service, control_descriptor,
}
use ts_sdk.Cloud.Receive.{reset_conn_states, set_buffer, play}
use ts_sdk.Service.Basic.{basic_add_send_hdr}

-- The memory that is passed to the protocol.
abbrev pub memory_of : Option ℕ → Cloud → Outcome (List ℕ)
memory_of buf c = elim (buffer_at buf c) [
  | none ↦ fault
  | some b ↦ elim (b.buf_ptr) [ none ↦ fault | some mem ↦ done mem ]
]

-- What the sending functions do behind the call of the protocol, by its success.
abbrev pub after_send {ℓ} : {P : Type ℓ} → Bool × Cloud × P → SendResult × Cloud × P
after_send (true, c, p) = (send_success, record c { send_in_progress = false }, p)
after_send (false, c, p) = (send_failed, reset_conn_states c, p)

module _ {ℓ} {P : Type ℓ} (proto : Proto P) where
  -- `init_state`.
  pub init_state : Cloud → Cloud
  unfolding reset_conn_states
  init_state c = record (reset_conn_states c) { start_ts = 0; polling_int_ms = c.init_polling_ms }

  -- `cc_init`; the callback is known by a number, `none` is NULL.
  unfoldable pub cc_init : Option ℕ → Cloud × P → Bool × Cloud × P
  unfolding init_state
  cc_init control_cb (c, p) =
      let i = proto.proto_init p in
      let c1 = init_state (record c { init_polling_ms = proto.get_polling (i.1) % 2 ^ 32 }) in
      let r =
        register_service (some control_descriptor) control_cb
          (record c1 { service_table = replicate 2 none }) in
      if i.0 then (r.0, r.1, i.1) else (false, c, i.1)

  -- The header that `add_send_hdr` puts before the payload: whether it was put.
  unfoldable pub add_send_hdr : Entry → ℕ → Buffer → Cloud → Outcome (Bool × Cloud)
  unfolding get_send_buffer_ptr
  add_send_hdr e i b c =
      if e.descriptor.has_add_send_hdr
      then (do
        ptr ← get_send_buffer_ptr (some i) cc_service_basic c
        h ← basic_add_send_hdr proto.basic_header ptr
        done (h.0, (if h.0 then set_buffer i (record b { buf_ptr = some h.1 }) c else c)))
      else done (true, c)

  -- The end of `cc_init_send_msg`.
  unfoldable pub start_sending : Entry → ℕ → Buffer → Cloud → Outcome (Option Entry × Cloud)
  start_sending e i b c = do
    h ← add_send_hdr e i b c
    if h.0
        then done (some e, record (h.1) { send_in_progress = true; out_buf = some i })
        else done (none, h.1)

  -- `cc_init_send_msg`: the entry of the service, `none` for NULL.
  unfoldable pub init_send_msg : Option ℕ → ℕ → ℕ → Cloud → Outcome (Option Entry × Cloud)
  unfolding buffer_at
  init_send_msg none sz svc_id c = done (none, record c { out_buf = none })
  init_send_msg (some i) sz svc_id c0 =
      let c = record c0 { out_buf = none } in
      elim (buffer_at (some i) c) [
        | none ↦ done (none, c)
        | some b ↦ elim (b.buf_ptr) [
          | none ↦ done (none, c)
          | some mem ↦
              if sz == 0 || not c.recv_in_progress
              then done (none, c)
              else (elim (lookup_service svc_id) [
                | none ↦ done (none, c)
                | some s ↦ (do e ← entry_at s c; start_sending e i b c)
              ])
        ]
      ]

  module _ (app : Notice → List Bool) where
    -- The part of the sending functions behind `cc_init_send_msg`: PROTO_SEND_MSG_TO_CLOUD and what
    -- it returns early.
    unfoldable pub send_to_proto :
        Entry → Option ℕ → ℕ → ℕ → Cloud × P → Outcome (SendResult × Cloud × P)
    send_to_proto e buf sz svc_id (c, p) = do
      mem ← memory_of buf c
      r ← play proto app (proto.send_msg_to_cloud mem (sz + e.descriptor.send_offset) svc_id p) c
      done (after_send r)

    -- `cc_send_svc_msg_to_cloud`.
    unfoldable pub send_svc_msg : Option ℕ → ℕ → ℕ → Cloud × P → Outcome (SendResult × Cloud × P)
    send_svc_msg buf sz svc_id (c, p) =
        let go : Outcome (SendResult × Cloud × P) = (do
          i ← init_send_msg buf sz svc_id c
          elim (i.0) [
            | none ↦ done (send_failed, i.1, p)
            | some e ↦ send_to_proto e buf sz svc_id (i.1, p)
          ]) in
        if c.send_in_progress then done (send_busy, c, p) else go

    -- `cc_send_status_msg_to_cloud` and `cc_send_diag_msg_to_cloud`, which both send for the basic
    -- service.
    abbrev pub send_status_msg : Option ℕ → ℕ → Cloud × P → Outcome (SendResult × Cloud × P)
    send_status_msg buf sz st = send_svc_msg buf sz cc_service_basic st

    abbrev pub send_diag_msg : Option ℕ → ℕ → Cloud × P → Outcome (SendResult × Cloud × P)
    send_diag_msg buf sz st = send_svc_msg buf sz cc_service_basic st

    -- `cc_service_send_receive`: the time until the next call, of type `uint32_t`; `start_ts` and
    -- `polling_int_ms` are of `uint64_t`.
    unfoldable pub service_send_receive : ℕ → Cloud × P → Outcome (ℕ × Cloud × P)
    service_send_receive cur_ts (c, p) =
        let due =
          if c.polling_int_ms == 0
          then false
          else leb c.polling_int_ms ((cur_ts + 2 ^ 64 - c.start_ts) % 2 ^ 64) in
        (do
          r ← play proto app (proto.maintenance due cur_ts p) c
          let polling = proto.get_polling (r.2)
          let c1 = record (r.1) { polling_int_ms = polling }
          let next =
              if due
              then polling % 2 ^ 32
              else if polling == 0
              then 0
              else (c1.start_ts + polling + 2 ^ 64 - cur_ts) % 2 ^ 32
          let c2 = if due then record c1 { start_ts = cur_ts } else c1
          done (next, reset_conn_states c2, proto.initiate_quit false r.2))
