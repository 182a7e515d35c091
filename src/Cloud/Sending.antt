-- ===== src/Cloud/Sending.antt =====
-- What the sending functions of cloud_comm.c do on each of their branches.
use ts_sdk.Prelude.{
  ℕ, ◌+◌, ◌≤◌, ◌<◌, ◌≡◌, ◌≢◌, refl, ◌∙◌, Outcome, bind_cong, Bool, true, false, Option, none, some,
  List, arith, if◌then◌else◌, Bool-cases, inl, inr, ◌⊎◌, done, ◌>>=◌, Returns, Returns-bind, length,
  get_elem?, set, get_elem?-set_self, get_elem?-set_ne, store_lem,
}
use ts_sdk.Cloud.Types.{
  Notice, Cloud, Proto, Buffer, Entry, SendResult, send_failed, send_busy, send_success,
}
use ts_sdk.Cloud.Dispatch.{
  buffer_at, entry_at, lookup_service, basic_descriptor, get_send_buffer_ptr,
}
use ts_sdk.Cloud.Receive.{reset_conn_states, play, set_buffer}
use ts_sdk.Cloud.Send.{
  after_send, memory_of, start_sending, send_svc_msg, init_send_msg, add_send_hdr, send_to_proto,
}
use ts_sdk.Cloud.Ready.{IsReady, registered}
use ts_sdk.Cloud.Callbacks.{StaysInside, play-Returns}
use ts_sdk.Service.Basic.{basic_add_send_hdr}

module _ {ℓ} {P : Type ℓ} (proto : Proto P) (app : Notice → List Bool) where
  -- The memory with the header of the basic service, where this has one.
  abbrev pub with_header : List ℕ → List ℕ
  with_header mem = if proto.basic_header then set mem 0 1 else mem

  -- The layer while a buffer is sent.
  abbrev pub sending : ℕ → Buffer → List ℕ → Cloud → Cloud
  sending j b mem c = record c {
    send_in_progress = true;
    out_buf = some j;
    buffers = set c.buffers j (record b { buf_ptr = some mem });
  }

  -- What is to become of the layer and of the result when the protocol's call ends.
  abbrev pub ended : Bool × Cloud × P → SendResult × Cloud × P
  ended (true, c, p) = (send_success, record c { send_in_progress = false }, p)
  ended (false, c, p) = (send_failed, record c { send_in_progress = false; out_buf = none }, p)

  ended_lem :
      (r : Bool × Cloud × P)
      → ◌≡◌ {A = Outcome (SendResult × Cloud × P)} (done (after_send r)) (done (ended r))
  unfolding reset_conn_states
  ended_lem (true, c, p) = refl
  ended_lem (false, c, p) = refl

  -- While the layer is not busy: a sending that finds no buffer, no message, no receive buffer set or no such service fails, and
  -- neither the protocol nor the buffers have a part in it.
  pub send_svc_msg-refused :
      (buf : Option ℕ) (sz svc_id : ℕ) (c : Cloud) (p : P)
      → c.send_in_progress ≡ false
      → (buffer_at buf c ≡ none)
        ⊎ ((b : Buffer) × (buffer_at buf c ≡ some b) × (b.buf_ptr ≡ none))
        ⊎ (sz ≡ 0)
        ⊎ (c.recv_in_progress ≡ false)
        ⊎ (lookup_service svc_id ≡ none)
      → send_svc_msg proto app buf sz svc_id (c, p)
        ≡ done (send_failed, record c { out_buf = none }, p)
  unfolding send_svc_msg init_send_msg buffer_at
  send_svc_msg-refused none sz svc_id c p idle h = rw idle refl
  send_svc_msg-refused (some j) sz svc_id c p idle h = ground arith

  pub memory_of_lem :
      (j : ℕ) (c : Cloud) (b : Buffer) (mem : List ℕ)
      → get_elem? c.buffers j ≡ some b
      → b.buf_ptr ≡ some mem
      → memory_of (some j) c ≡ done mem
  unfolding buffer_at
  memory_of_lem j c b mem hb hm = ground arith

  module _ (control_cb basic_cb : ℕ) (c : Cloud)
      (services : c.service_table ≡ registered proto.basic_header control_cb basic_cb) where
    abbrev basic_entry : Entry
    basic_entry = record {
      descriptor = basic_descriptor proto.basic_header;
      app_callback = basic_cb;
    }

    module _ (j : ℕ) (b : Buffer) (mem : List ℕ) (at : get_elem? c.buffers j ≡ some b)
        (there : b.buf_ptr ≡ some mem) (room : 1 ≤ length mem) where
      send_ptr :
          get_send_buffer_ptr (some j) 1 c
          ≡ done (some (mem, (basic_descriptor proto.basic_header).send_offset))
      unfolding get_send_buffer_ptr buffer_at entry_at
      send_ptr = let s = services in ground arith

      header_put :
          basic_add_send_hdr proto.basic_header
            (some (mem, (basic_descriptor proto.basic_header).send_offset))
          ≡ done (true, with_header mem)
      unfolding basic_add_send_hdr
      header_put = elim (Bool-cases proto.basic_header) [
        | inl e ↦ rw e (rw (store_lem mem 0 1 room) refl)
        | inr e ↦ rw e refl
      ]

      header_lem :
          add_send_hdr proto basic_entry j b c
          ≡ done (true, set_buffer j (record b { buf_ptr = some (with_header mem) }) c)
      unfolding add_send_hdr
      header_lem = rw (send_ptr, header_put) refl

  reset_IsReady :
      {control_cb basic_cb : ℕ} (i size start : ℕ) (c : Cloud)
      → IsReady proto control_cb basic_cb i size start c
      → IsReady proto control_cb basic_cb i size start (reset_conn_states c)
  unfolding reset_conn_states
  reset_IsReady i size start c v = record {
    started = v.started;
    in_at = v.in_at;
    room = v.room;
    services = v.services;
  }

  reset_idle : (c : Cloud) → (reset_conn_states c).send_in_progress ≡ false
  unfolding reset_conn_states
  reset_idle c = refl

  pub start_lem :
      (j : ℕ) (b : Buffer) (e : Entry) (c1 c2 : Cloud)
      → add_send_hdr proto e j b c1 ≡ done (true, c2)
      → start_sending proto e j b c1
        ≡ done (some e, record c2 { send_in_progress = true; out_buf = some j })
  unfolding start_sending
  start_lem j b e c1 c2 h = rw h refl

  -- The part before the protocol is called.
  module _ (control_cb basic_cb j sz : ℕ) (c : Cloud) (b : Buffer) (mem : List ℕ)
      (services : c.service_table ≡ registered proto.basic_header control_cb basic_cb)
      (at : get_elem? c.buffers j ≡ some b) (there : b.buf_ptr ≡ some mem) (room : 1 ≤ length mem)
      (some_data : 0 < sz) (listening : c.recv_in_progress ≡ true) where
    init_send_msg-basic :
        init_send_msg proto (some j) sz 1 c
        ≡ done (some (basic_entry control_cb basic_cb c services), sending j b (with_header mem) c)
    unfolding init_send_msg buffer_at entry_at
    init_send_msg-basic =
        let c0 = record c { out_buf = none } in
        let h = header_lem control_cb basic_cb c0 services j b mem at there room in
        let e : entry_at 1 c0 ≡ done (basic_entry control_cb basic_cb c services) =
          rw services refl in
        let s = start_lem j b (basic_entry control_cb basic_cb c services) c0 _ h in
        ground (arith, s)

    send_svc_msg-played :
        (p : P)
        → c.send_in_progress ≡ false
        → send_svc_msg proto app (some j) sz 1 (c, p) ≡ (
            play proto app
              (proto.send_msg_to_cloud
                (with_header mem)
                (sz + (if proto.basic_header then 1 else 0))
                1
                p)
              (sending j b (with_header mem) c)
            >>= λ r. done (after_send r))
    unfolding send_svc_msg send_to_proto
    send_svc_msg-played p idle =
        let i = init_send_msg-basic in
        let b' = record b { buf_ptr = some (with_header mem) } in
        let m =
          memory_of_lem j (sending j b (with_header mem) c) b' (with_header mem)
            (get_elem?-set_self c.buffers j b' at) refl in
        ground (arith)

    -- A message for the basic service, in a buffer with memory, while both services are registered and the
    -- layer listens and sends nothing else: the protocol is given the memory, with the header of the
    -- service, and the size with it, while the layer is busy with this buffer. The call ends as the
    -- protocol's does, behind all its callbacks: with success and the layer not busy, or with failure and
    -- the layer neither busy nor with a buffer to send, and nothing else is changed.
    pub send_svc_msg-basic :
        (p : P)
        → c.send_in_progress ≡ false
        → send_svc_msg proto app (some j) sz 1 (c, p) ≡ (
            play proto app
              (proto.send_msg_to_cloud
                (with_header mem)
                (sz + (if proto.basic_header then 1 else 0))
                1
                p)
              (sending j b (with_header mem) c)
            >>= λ r. done (ended r))
    send_svc_msg-basic p idle =
        send_svc_msg-played p idle
        ∙ bind_cong
            (play proto app
              (proto.send_msg_to_cloud (with_header mem)
                (sz + (if proto.basic_header then 1 else 0)) 1 p)
              (sending j b (with_header mem) c))
            (λ r. done (after_send r)) (λ r. done (ended r)) ended_lem

    -- A message sent for the basic service, from a buffer with memory that is not the receive buffer, while
    -- the layer listens, sends nothing else and can take any callback of the protocol: whatever callbacks
    -- the protocol makes as long as it leaves the receive buffer at its size, the call returns success or
    -- failure, the layer is not busy afterwards, and it can take any callback again.
    pub send_svc_msg-Returns :
        (p : P) (i size start : ℕ)
        → IsReady proto control_cb basic_cb i size start c
        → j ≢ i
        → c.send_in_progress ≡ false
        → ((bytes : List ℕ) (n : ℕ) → StaysInside size (proto.send_msg_to_cloud bytes n 1 p))
        → Returns
            (λ r.
              IsReady proto control_cb basic_cb i size start r.1
              × (r.1.send_in_progress ≡ false)
              × (r.0 ≢ send_busy))
            (send_svc_msg proto app (some j) sz 1 (c, p))
    send_svc_msg-Returns p i size start v ne idle inside =
        let b' = record b { buf_ptr = some (with_header mem) } in
        let w : IsReady proto control_cb basic_cb i size start (sending j b (with_header mem) c) =
          record {
            started = v.started;
            in_at = v.in_at;
            room = rw (get_elem?-set_ne c.buffers j i b' ne) v.room;
            services = v.services;
          } in
        rw (send_svc_msg-played p idle) (
          Returns-bind (λ r. IsReady proto control_cb basic_cb i size start r.1) _ _ _
            (play-Returns proto app control_cb basic_cb i size start _ _ (inside _ _) w)
            (after i size start))
      where
        after :
            (i size start : ℕ) (r : Bool × Cloud × P)
            → IsReady proto control_cb basic_cb i size start r.1
            → IsReady proto control_cb basic_cb i size start (after_send r).1
              × ((after_send r).1.send_in_progress ≡ false)
              × ((after_send r).0 ≢ send_busy)
        after i size start (true, c', p') v = (
          record { started = v.started; in_at = v.in_at; room = v.room; services = v.services },
          refl,
          λ e. cc,
        )
        after i size start (false, c', p') v =
            (reset_IsReady i size start c' v, reset_idle c', λ e. cc)
