-- ===== src/Service/Control/Resend.antt =====
-- `cc_ctrl_resend_init_config`: the one message that the control service sends.
use ts_sdk.Prelude.{
  ℕ, ◌+◌, ◌≡◌, refl, Bool, true, false, Option, none, some, List, [], ◌∷◌, arith, Outcome, done,
  fault, ◌>>=◌, get_elem?, set, get_elem?-set_self, store,
}
use ts_sdk.Ott.Session.{cc_service_control}
use ts_sdk.Cloud.Types.{Notice, Cloud, Proto, Buffer, Entry, SendResult, send_success}
use ts_sdk.Cloud.Dispatch.{buffer_at, entry_at, get_send_buffer_ptr, control_descriptor}
use ts_sdk.Cloud.Receive.{set_buffer, play}
use ts_sdk.Cloud.Send.{send_svc_msg, init_send_msg, add_send_hdr, send_to_proto, after_send}
use ts_sdk.Cloud.Ready.{registered}
use ts_sdk.Cloud.Sending.{sending, memory_of_lem, start_lem}
use ts_sdk.Service.Control.{control_protocol_version}

-- CTRL_MSG_REQUEST_RESEND_INIT.
abbrev pub ctrl_msg_request_resend_init : ℕ
ctrl_msg_request_resend_init = 3

-- The header that is written to `control_send_buf`, the buffer number `j`; NULL is written through.
abbrev pub put_header : ℕ → Option (List ℕ × ℕ) → Cloud → Outcome Cloud
put_header j none c = fault
put_header j (some (mem, hdr)) c = do
  mem1 ← store mem hdr control_protocol_version
  mem2 ← store mem1 (hdr + 1) ctrl_msg_request_resend_init
  elim (buffer_at (some j) c) [
    | none ↦ fault
    | some b ↦ done (set_buffer j (record b { buf_ptr = some mem2 }) c)
  ]

module _ {ℓ} {P : Type ℓ} (proto : Proto P) (app : Notice → List Bool) where
  -- `cc_ctrl_resend_init_config`; `ott` tells whether OTT_PROTOCOL is defined.
  pub resend_init_config : (ott : Bool) → ℕ → Cloud × P → Outcome (SendResult × Cloud × P)
  resend_init_config false j (c, p) = done (send_success, c, p)
  resend_init_config true j (c, p) = do
    hdr ← get_send_buffer_ptr (some j) cc_service_control c
    c1 ← put_header j hdr c
    send_svc_msg proto app (some j) 2 cc_service_control (c1, p)

  module _ (control_cb basic_cb j x y : ℕ) (c : Cloud) (b : Buffer)
      (services : c.service_table ≡ registered proto.basic_header control_cb basic_cb)
      (at : get_elem? c.buffers j ≡ some b) (there : b.buf_ptr ≡ some (x ∷ y ∷ [])) where
    abbrev entry : Entry
    entry = record { descriptor = control_descriptor; app_callback = control_cb }

    abbrev filled : Buffer
    filled = record b { buf_ptr = some (1 ∷ 3 ∷ []) }

    send_ptr : get_send_buffer_ptr (some j) 0 c ≡ done (some (x ∷ y ∷ [], 0))
    unfolding get_send_buffer_ptr buffer_at entry_at
    send_ptr = let s = services in ground arith

    put_lem : put_header j (some (x ∷ y ∷ [], 0)) c ≡ done (set_buffer j filled c)
    unfolding buffer_at
    put_lem = rw at refl

    -- The layer while the message is sent.
    abbrev busy : Cloud
    busy = record c { send_in_progress = true; out_buf = some j; buffers = set c.buffers j filled }

    init_lem :
        c.recv_in_progress ≡ true
        → init_send_msg proto (some j) 2 0 (set_buffer j filled c) ≡ done (some entry, busy)
    unfolding init_send_msg buffer_at entry_at add_send_hdr
    init_lem listens =
        let c0 = record (set_buffer j filled c) { out_buf = none } in
        let got = get_elem?-set_self c.buffers j filled at in
        let e : entry_at 0 c0 ≡ done entry = rw services refl in
        let s = start_lem proto app j filled entry c0 c0 refl in ground arith

    send_lem :
        (p : P)
        → c.recv_in_progress ≡ true
        → c.send_in_progress ≡ false
        → send_svc_msg proto app (some j) 2 0 (set_buffer j filled c, p) ≡ (
            play proto app (proto.send_msg_to_cloud (1 ∷ 3 ∷ []) 2 0 p) busy >>= λ r.
            done (after_send r))
    unfolding send_svc_msg send_to_proto
    send_lem p listens idle =
        let i = init_lem listens in
        let m =
          memory_of_lem proto app j busy filled (1 ∷ 3 ∷ [])
            (get_elem?-set_self c.buffers j filled at) refl in
        ground arith

  -- With OTT_PROTOCOL, while the layer listens and sends nothing else, the protocol is given exactly
  -- the version and the message type as a message of two bytes for the control service, whatever stood
  -- in the buffer of two bytes; the result is that of the sending.
  pub resend_init_config_lem :
      (control_cb basic_cb j x y : ℕ) (c : Cloud) (p : P) (b : Buffer)
      → c.service_table ≡ registered proto.basic_header control_cb basic_cb
      → get_elem? c.buffers j ≡ some b
      → b.buf_ptr ≡ some (x ∷ y ∷ [])
      → c.recv_in_progress ≡ true
      → c.send_in_progress ≡ false
      → resend_init_config true j (c, p) ≡ (
          play proto app
            (proto.send_msg_to_cloud (1 ∷ 3 ∷ []) 2 0 p)
            (sending proto app j b (1 ∷ 3 ∷ []) c)
          >>= λ r. done (after_send r))
  unfolding resend_init_config
  resend_init_config_lem control_cb basic_cb j x y c p b services at there listens idle =
      rw (send_ptr control_cb basic_cb j x y c b services at there) (
        rw (put_lem control_cb basic_cb j x y c b services at there)
          (send_lem control_cb basic_cb j x y c b services at there p listens idle))
