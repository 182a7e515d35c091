-- ===== src/Cloud/Delivery.antt =====
-- A message that a protocol received on its way to the application.
use ts_sdk.Prelude.{
  ℕ, ◌+◌, ◌-◌, ◌%◌, ◌^◌, ◌≤◌, ◌≡◌, refl, ap, Bool, true, false, Option, some, List, [], ◌∷◌, ◌++◌,
  arith, ◌==◌, if◌then◌else◌, Bool-cases, inl, inr, done, length, get_elem?, get_or, set,
  get_elem?-set_self, load_lem, get_elem?-eq-get_or, set-set, replicate, write_at,
}
use ts_sdk.Cloud.Types.{
  Notice, Cloud, Proto, Buffer, rcvd_msg, deliver, nak_msg, proto_rcvd_msg, recv_success,
  recv_failed,
}
use ts_sdk.Cloud.Dispatch.{buffer_at, acknowledge, dispatch_event, call_service, basic_descriptor}
use ts_sdk.Cloud.Receive.{cc_recv_cb, hand_on, set_buffer, store_received, set_current_len}
use ts_sdk.Cloud.Ready.{registered, recv_ptr_lem, entry_basic}
use ts_sdk.Cloud.Safe.{activated, activate_buffer_lem, store_received_lem, set_current_len_lem}
use ts_sdk.Cloud.Receive.{activate_buffer}
use ts_sdk.Service.Basic.{basic_dispatch}

-- A message is accepted if it has the version of the basic service, where this has a header.
abbrev pub is_accepted {ℓ} : {P : Type ℓ} → Proto P → List ℕ → Bool
is_accepted proto bytes = if proto.basic_header then get_or bytes proto.overhead_sz 0 == 1 else true

module _ {ℓ} {P : Type ℓ} (proto : Proto P) (app : Notice → List Bool)
    (control_cb basic_cb i sz : ℕ) (bytes : List ℕ) (c : Cloud) (p : P) (b : Buffer)
    (services : c.service_table ≡ registered proto.basic_header control_cb basic_cb)
    (in_at : c.in_buf ≡ some i) (at : get_elem? c.buffers i ≡ some b)
    (room : b.bufsz + proto.overhead_sz ≤ length bytes) (some_data : 1 ≤ b.bufsz) where
  -- The buffer as the application sees it, and the call of its callback.
  abbrev pub received : Buffer
  received = record b { buf_ptr = some bytes; current_len = sz % 2 ^ 16 }

  abbrev pub notice : Notice
  notice = record {
    callback = basic_cb;
    event = rcvd_msg;
    value = 0;
    buf = some i;
    shows = some received;
  }

  -- The layer and the protocol after the dispatch.
  abbrev pub handed_on : Cloud
  handed_on = record c {
    recv_in_progress = false;
    buffers = set c.buffers i received;
    notices = if is_accepted proto bytes then c.notices ++ (notice ∷ []) else c.notices;
  }

  abbrev pub answered : P
  answered =
      if is_accepted proto bytes then acknowledge proto app (app notice) p else proto.send_nack p

  version_checked :
      basic_dispatch proto.basic_header
        (done (some (bytes, proto.overhead_sz + (basic_descriptor proto.basic_header).recv_offset)))
        rcvd_msg
        1
      ≡ done ((if is_accepted proto bytes then deliver rcvd_msg else nak_msg) ∷ [])
  unfolding basic_dispatch
  version_checked = elim (Bool-cases proto.basic_header) [
    | inl e ↦
        let l =
          load_lem bytes proto.overhead_sz
            (get_elem?-eq-get_or bytes proto.overhead_sz 0 (omega arith)) in
        let q : proto.overhead_sz + 1 - 1 ≡ proto.overhead_sz = omega arith in rw e (rw (q, l) refl)
    | inr e ↦ rw e refl
  ]

  -- The layer when the message stands in the buffer.
  filled : Cloud
  filled = record (set_buffer i received c) { recv_in_progress = false }

  dispatch_lem :
      (buf : Option ℕ)
      → buf ≡ some i
      → dispatch_event proto app 1 buf rcvd_msg (filled, p) ≡ done (handed_on, answered)
  unfolding filled dispatch_event call_service buffer_at
  dispatch_lem buf e =
      let got = get_elem?-set_self c.buffers i received at in
      let ptr =
        recv_ptr_lem proto app control_cb basic_cb filled services 1 i received bytes _ got refl
          refl (entry_basic proto app control_cb basic_cb filled services) in
      rw (e, entry_basic proto app control_cb basic_cb filled services)
        (rw (ptr, version_checked)
          (elim (Bool-cases (is_accepted proto bytes)) [
            | inl y ↦ rw y (rw got refl)
            | inr n ↦ rw n refl
          ]))

  stored :
      set_buffer i received (set_buffer i (record b { buf_ptr = some bytes }) c)
      ≡ set_buffer i received c
  stored =
      ap (λ bs. record c { buffers = bs })
        (set-set c.buffers i (record b { buf_ptr = some bytes }) received)

  storing :
      (buf : Option ℕ)
      → buf ≡ some i
      → store_received bytes buf c ≡ done (set_buffer i (record b { buf_ptr = some bytes }) c)
  storing buf e = rw (e, store_received_lem proto control_cb basic_cb i 0 0 bytes c b at) refl

  counting :
      (buf : Option ℕ)
      → buf ≡ some i
      → set_current_len sz buf (set_buffer i (record b { buf_ptr = some bytes }) c)
        ≡ done (set_buffer i received c)
  counting buf e =
      let b1 = record b { buf_ptr = some bytes } in
      rw
        (
          e,
          set_current_len_lem proto control_cb basic_cb i 0 0 sz (set_buffer i b1 c) b1
              (get_elem?-set_self c.buffers i b1 at),
        )
        (ap done stored)

  -- What the protocol answers to the new activation of the buffer.
  abbrev pub reactivation : Bool × P
  reactivation =
      let n = b.bufsz + proto.overhead_sz in
      proto.set_recv_buffer_cb (write_at bytes 0 (replicate n 0)) n answered

  activating :
      (buf : Option ℕ)
      → buf ≡ some i
      → activate_buffer proto buf (handed_on, answered)
        ≡ done (
          (if reactivation.0 then recv_success else recv_failed),
          activated proto control_cb basic_cb i 0 0 reactivation.0 received bytes handed_on,
          reactivation.1,
        )
  activating buf e = rw e (
      activate_buffer_lem proto control_cb basic_cb i 0 0 handed_on answered received bytes
        (get_elem?-set_self c.buffers i received at) refl room)

  -- With both services registered, a message for the basic service that the protocol reports, with its
  -- bytes, at least as many as the layer clears, in the receive buffer: the application's callback is called once, with the event CC_EVT_RCVD_MSG, and the buffer shows it
  -- the bytes and the size; what it acknowledges or refuses goes to the protocol. With a header of
  -- another version, the callback is not called, and the message is refused. Then the buffer is filled
  -- with zeros and given to the protocol again, and the layer listens if the protocol accepts it.
  pub received_message :
      cc_recv_cb proto app bytes sz proto_rcvd_msg 1 (c, p)
      ≡ done (
        activated proto control_cb basic_cb i 0 0 reactivation.0 received bytes handed_on,
        reactivation.1,
      )
  unfolding cc_recv_cb hand_on filled
  received_message = rw (storing c.in_buf in_at) (
      rw (counting c.in_buf in_at)
        (rw (dispatch_lem c.in_buf in_at) (rw (activating c.in_buf in_at) refl)))
