-- ===== src/Cloud/Dispatch.antt =====
-- The services of cloud_comm.c: their table, the pointers into a buffer, and the dispatch of events.
use ts_sdk.Prelude.{
  ℕ, ◌+◌, ◌-◌, ◌%◌, ◌^◌, Bool, true, false, not, ◌&&◌, ◌||◌, Option, none, some, List, [], ◌∷◌,
  ◌++◌, leb, ◌==◌, if◌then◌else◌, get_elem?, set, drop, Outcome, done, fault, ◌>>=◌,
}
use ts_sdk.Ott.Session.{cc_service_basic, cc_service_control}
use ts_sdk.Cloud.Types.{
  CcEvent, rcvd_msg, evt_ctrl_sleep, Buffer, control_service, basic_service, Descriptor, Entry,
  Notice, Cloud, Proto, Action, ack_msg, nak_msg, ctrl_sleep, set_polling, deliver,
}
use ts_sdk.Service.Control.{control_dispatch}
use ts_sdk.Service.Basic.{basic_dispatch, basic_header_sz}

-- `cc_control_service_descriptor` and `cc_basic_service_descriptor`.
abbrev pub control_descriptor : Descriptor
control_descriptor = record {
  svc_id = cc_service_control;
  send_offset = 0;
  recv_offset = 0;
  dispatch_callback = some control_service;
  has_add_send_hdr = false;
}

abbrev pub basic_descriptor : Bool → Descriptor
basic_descriptor has_header = record {
  svc_id = cc_service_basic;
  send_offset = basic_header_sz has_header;
  recv_offset = basic_header_sz has_header;
  dispatch_callback = some basic_service;
  has_add_send_hdr = true;
}

-- The identifiers that `cc_register_service` and `lookup_service` refuse.
abbrev pub unknown_service : ℕ → Bool
unknown_service svc_id =
    (not (svc_id == cc_service_control) && not (svc_id == cc_service_basic)) || leb 2 svc_id

-- `cc_register_service`; `none` is NULL.
unfoldable pub register_service : Option Descriptor → Option ℕ → Cloud → Bool × Cloud
register_service none cb c = (false, c)
register_service (some d) none c = (false, c)
register_service (some d) (some cb) c = elim (d.dispatch_callback) [
  | none ↦ (false, c)
  | some s ↦ if unknown_service d.svc_id then (false, c) else (
    true,
    record c {
      service_table =
          set c.service_table d.svc_id (some (record { descriptor = d; app_callback = cb }));
    },
  )
]

-- `lookup_service`: the index in the table, `none` for NULL.
abbrev pub lookup_service : ℕ → Option ℕ
lookup_service svc_id = if unknown_service svc_id then none else some svc_id

-- The descriptor of an entry is read, which is NULL where no service is registered.
unfoldable pub entry_at : ℕ → Cloud → Outcome Entry
entry_at i c = elim (get_elem? c.service_table i) [
  | none ↦ fault
  | some e ↦ elim e [ none ↦ fault | some entry ↦ done entry ]
]

-- What a pointer to a buffer shows: NULL, or the descriptor of a buffer.
unfoldable pub buffer_at : Option ℕ → Cloud → Option Buffer
buffer_at none c = none
buffer_at (some i) c = get_elem? c.buffers i

abbrev pub buffer_memory : Option Buffer → Option (List ℕ)
buffer_memory none = none
buffer_memory (some b) = b.buf_ptr

-- The memory of a buffer from an offset on that depends on the service.
abbrev pub service_ptr : ℕ → (Descriptor → ℕ) → Option ℕ → Cloud → Outcome (Option (List ℕ × ℕ))
service_ptr svc_id offset buf c = elim (buffer_memory (buffer_at buf c)) [
  | none ↦ done none
  | some mem ↦ elim (lookup_service svc_id) [
    | none ↦ done none
    | some i ↦ (do e ← entry_at i c; done (some (mem, offset e.descriptor)))
  ]
]

-- `cc_get_send_buffer_ptr`.
unfoldable pub get_send_buffer_ptr : Option ℕ → ℕ → Cloud → Outcome (Option (List ℕ × ℕ))
get_send_buffer_ptr buf svc_id c = service_ptr svc_id (λ d. d.send_offset) buf c

-- What `control_dispatch_callback` reads through the pointer; through NULL there is nothing to read.
abbrev pub shown : Outcome (Option (List ℕ × ℕ)) → List ℕ
shown (done (some (mem, i))) = drop i mem
shown (done none) = []
shown _ = []

module _ {ℓ} {P : Type ℓ} (proto : Proto P) where
  -- `cc_get_recv_buffer_ptr`.
  unfoldable pub get_recv_buffer_ptr : Option ℕ → ℕ → Cloud → Outcome (Option (List ℕ × ℕ))
  get_recv_buffer_ptr buf svc_id c =
      service_ptr svc_id (λ d. proto.overhead_sz + d.recv_offset) buf c

  -- `cc_get_receive_data_len`, of type `uint16_t`.
  pub get_receive_data_len : Option ℕ → ℕ → Cloud → Outcome ℕ
  unfolding buffer_at entry_at
  get_receive_data_len buf svc_id c = elim (buffer_at buf c) [
    | none ↦ done 0
    | some b ↦ elim (b.buf_ptr) [
      | none ↦ done 0
      | some mem ↦ elim (lookup_service svc_id) [
        | none ↦ done 0
        | some i ↦ (do
          e ← entry_at i c
          done ((b.current_len + 2 ^ 16 - proto.overhead_sz - e.descriptor.recv_offset) % 2 ^ 16))
      ]
    ]
  ]

  -- What an application does in a callback is a parameter: the calls of `cc_ack_msg` and of
  -- `cc_nak_msg` (`false`) that it makes.
  module _ (app : Notice → List Bool) where
    abbrev pub acknowledge : List Bool → P → P
    acknowledge [] p = p
    acknowledge (true ∷ calls) p = acknowledge calls (proto.send_ack p)
    acknowledge (false ∷ calls) p = acknowledge calls (proto.send_nack p)

    -- A call of an application callback.
    abbrev pub notify : Notice → Cloud × P → Cloud × P
    notify n (c, p) = (record c { notices = c.notices ++ (n ∷ []) }, acknowledge (app n) p)

    -- What a service calls.
    abbrev pub perform : Entry → Option ℕ → List Action → Cloud × P → Cloud × P
    perform e buf [] st = st
    perform e buf (ack_msg ∷ rest) (c, p) = perform e buf rest (c, proto.send_ack p)
    perform e buf (nak_msg ∷ rest) (c, p) = perform e buf rest (c, proto.send_nack p)
    perform e buf (set_polling ms ∷ rest) (c, p) = perform e buf rest (c, proto.set_polling ms p)
    perform e buf (ctrl_sleep interval ∷ rest) (c, p) = perform e buf rest (
        notify
          (record {
            callback = e.app_callback;
            event = evt_ctrl_sleep;
            value = interval;
            buf = none;
            shows = none;
          })
          (c, p))
    perform e buf (deliver event ∷ rest) (c, p) = perform e buf rest (
        notify
          (record {
            callback = e.app_callback;
            event = event;
            value = 0;
            buf = buf;
            shows = buffer_at buf c;
          })
          (c, p))

    -- A call of the `dispatch_callback` of an entry.
    unfoldable pub call_service : Entry → Option ℕ → CcEvent → ℕ → Cloud → Outcome (List Action)
    call_service e buf event svc_id c = elim (e.descriptor.dispatch_callback) [
      | none ↦ fault
      | some s ↦ elim s [
        | control_service ↦
            control_dispatch (shown (get_recv_buffer_ptr buf cc_service_control c)) event svc_id
        | basic_service ↦
            basic_dispatch proto.basic_header (get_recv_buffer_ptr buf cc_service_basic c) event
              svc_id
      ]
    ]

    abbrev pub is_rcvd_msg : CcEvent → Bool
    is_rcvd_msg rcvd_msg = true
    is_rcvd_msg _ = false

    -- `dispatch_event_to_service`.
    unfoldable pub dispatch_event : ℕ → Option ℕ → CcEvent → Cloud × P → Outcome (Cloud × P)
    dispatch_event svc_id buf event (c, p) = elim (lookup_service svc_id) [
      | none ↦ done (c, (if is_rcvd_msg event then proto.send_ack p else p))
      | some i ↦ (do
        e ← entry_at i c
        actions ← call_service e buf event svc_id c
        done (perform e buf actions (c, p)))
    ]
