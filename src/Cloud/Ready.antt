-- ===== src/Cloud/Ready.antt =====
-- When the layer can take any callback of a protocol.
use ts_sdk.Prelude.{
  ℕ, zero, suc, ◌+◌, ◌≤◌, ◌≡◌, refl, Bool, Option, none, some, List, [], ◌∷◌, arith, length,
  get_elem?, length-drop, Outcome, done, failed, fault, hang, ◌>>=◌, if◌then◌else◌, inl, inr, ◌⊎◌,
  Returns,
}
use ts_sdk.Cloud.Types.{
  CcEvent, rcvd_msg, evt_ctrl_sleep, Buffer, Entry, Notice, Cloud, Proto, Action, ack_msg, nak_msg,
  ctrl_sleep, set_polling, deliver,
}
use ts_sdk.Cloud.Dispatch.{
  is_rcvd_msg, buffer_at, dispatch_event, control_descriptor, basic_descriptor, entry_at,
  lookup_service, call_service, perform, notify, shown, get_recv_buffer_ptr,
}
use ts_sdk.Service.Control.{control_dispatch}
use ts_sdk.Service.Control.Total.{control_dispatch-message, control_dispatch-other}
use ts_sdk.Service.Basic.Total.{NoMessage, basic_dispatch-message, basic_dispatch-other}
use ts_sdk.Service.Basic.{basic_dispatch}

-- Both services are registered.
abbrev pub registered : Bool → (control_cb basic_cb : ℕ) → List (Option Entry)
registered has_header control_cb basic_cb =
    some (record { descriptor = control_descriptor; app_callback = control_cb })
    ∷ some (record { descriptor = basic_descriptor has_header; app_callback = basic_cb })
    ∷ []

-- A buffer has memory of `size` bytes: what its descriptor says, at least six, and the overhead.
abbrev pub HasMemory : (overhead size bufsz : ℕ) → Option (List ℕ) → Type 0
HasMemory overhead size bufsz none = ⊥
HasMemory overhead size bufsz (some mem) =
    (length mem ≡ size) × (bufsz + overhead ≤ size) × (6 ≤ bufsz)

abbrev pub HasRoom : (overhead size : ℕ) → Option Buffer → Type 0
HasRoom overhead size none = ⊥
HasRoom overhead size (some b) = HasMemory overhead size b.bufsz b.buf_ptr

-- The receive buffer is set, number `i`, both services are registered, and the polling interval is
-- measured from `start`.
pub record IsReady {ℓ} {P : Type ℓ} (proto : Proto P) (control_cb basic_cb i size start : ℕ)
    (c : Cloud) : Type 0 where
  pub started : c.start_ts ≡ start
  pub in_at : c.in_buf ≡ some i
  pub room : HasRoom proto.overhead_sz size (get_elem? c.buffers i)
  pub services : c.service_table ≡ registered proto.basic_header control_cb basic_cb

-- The buffer and its memory.
pub HasRoom-elim :
    (overhead size : ℕ) (o : Option Buffer)
    → HasRoom overhead size o
    → (b : Buffer) × (mem : List ℕ) × (o ≡ some b)
      × (b.buf_ptr ≡ some mem)
      × (length mem ≡ size)
      × (b.bufsz + overhead ≤ size)
      × (6 ≤ b.bufsz)
HasRoom-elim overhead size none h = absurd h
HasRoom-elim overhead size (some b) h = memory (b.buf_ptr) refl h
  where
    memory :
        (m : Option (List ℕ))
        → b.buf_ptr ≡ m
        → HasMemory overhead size b.bufsz m
        → (b' : Buffer) × (mem : List ℕ) × (some b ≡ some b')
          × (b'.buf_ptr ≡ some mem)
          × (length mem ≡ size)
          × (b'.bufsz + overhead ≤ size)
          × (6 ≤ b'.bufsz)
    memory none e h = absurd h
    memory (some mem) e h = (b, mem, refl, e, h.0, h.1, h.2)

lookup_service-none : (n : ℕ) → lookup_service (suc (suc n)) ≡ none
lookup_service-none n = ground arith

module _ {ℓ} {P : Type ℓ} (proto : Proto P) (app : Notice → List Bool) where
  -- What services call leaves all but the calls of application callbacks as it is.
  perform_lem :
      (e : Entry) (buf : Option ℕ) (actions : List Action) (c : Cloud) (p : P)
      → (ns : List Notice) × (p' : P) × (perform proto app e buf actions (c, p)
          ≡ (record c { notices = ns }, p'))
  perform_lem e buf [] c p = (c.notices, p, refl)
  perform_lem e buf (ack_msg ∷ rest) c p = perform_lem e buf rest c (proto.send_ack p)
  perform_lem e buf (nak_msg ∷ rest) c p = perform_lem e buf rest c (proto.send_nack p)
  perform_lem e buf (set_polling ms ∷ rest) c p = perform_lem e buf rest c (proto.set_polling ms p)
  perform_lem e buf (ctrl_sleep interval ∷ rest) c p =
      let n : Notice = record {
        callback = e.app_callback;
        event = evt_ctrl_sleep;
        value = interval;
        buf = none;
        shows = none;
      } in
      let st = notify proto app n (c, p) in perform_lem e buf rest (st.0) (st.1)
  perform_lem e buf (deliver event ∷ rest) c p =
      let n : Notice = record {
        callback = e.app_callback;
        event = event;
        value = 0;
        buf = buf;
        shows = buffer_at buf c;
      } in
      let st = notify proto app n (c, p) in perform_lem e buf rest (st.0) (st.1)

  module _ (control_cb basic_cb : ℕ) (c : Cloud)
      (services : c.service_table ≡ registered proto.basic_header control_cb basic_cb) where
    -- For a received message a service reads the buffer, which must have room for it.
    abbrev pub Readable : ℕ → Option ℕ → CcEvent → Type 0
    Readable size buf event =
        NoMessage event
        ⊎ ((i : ℕ) × (buf ≡ some i)
            × (event ≡ rcvd_msg)
            × HasRoom proto.overhead_sz size (get_elem? c.buffers i))

    pub entry_control :
        entry_at 0 c ≡ done (record { descriptor = control_descriptor; app_callback = control_cb })
    unfolding entry_at
    entry_control = rw services refl

    pub entry_basic :
        entry_at 1 c
        ≡ done
            (record { descriptor = basic_descriptor proto.basic_header; app_callback = basic_cb })
    unfolding entry_at
    entry_basic = rw services refl

    pub recv_ptr_lem :
        (svc_id i : ℕ) (b : Buffer) (mem : List ℕ) (e : Entry)
        → get_elem? c.buffers i ≡ some b
        → b.buf_ptr ≡ some mem
        → lookup_service svc_id ≡ some svc_id
        → entry_at svc_id c ≡ done e
        → get_recv_buffer_ptr proto (some i) svc_id c
          ≡ done (some (mem, proto.overhead_sz + e.descriptor.recv_offset))
    unfolding get_recv_buffer_ptr buffer_at
    recv_ptr_lem svc_id i b mem e hb hm hl he = ground arith

    -- What the control service is shown.
    shown_message :
        (size i : ℕ)
        → HasRoom proto.overhead_sz size (get_elem? c.buffers i)
        → 6 ≤ length (shown (get_recv_buffer_ptr proto (some i) 0 c))
    shown_message size i room =
        let r = HasRoom-elim proto.overhead_sz size (get_elem? c.buffers i) room in
        let e = recv_ptr_lem 0 i r.0 r.1 _ r.2 r.3 refl entry_control in
        rw e (omega (arith, length-drop (proto.overhead_sz + 0) r.1))

    -- What the basic service reads of a message.
    basic_ptr :
        (size i : ℕ)
        → HasRoom proto.overhead_sz size (get_elem? c.buffers i)
        → (mem : List ℕ) × (get_recv_buffer_ptr proto (some i) 1 c
            ≡ done
                (some (mem, proto.overhead_sz + (basic_descriptor proto.basic_header).recv_offset)))
          × (proto.overhead_sz + 6 ≤ length mem)
    basic_ptr size i room =
        let r = HasRoom-elim proto.overhead_sz size (get_elem? c.buffers i) room in
        (r.1, recv_ptr_lem 1 i r.0 r.1 _ r.2 r.3 refl entry_basic, omega arith)

    control-Returns :
        (size : ℕ) (buf : Option ℕ) (event : CcEvent)
        → Readable size buf event
        → Returns
            (λ _. Unit {0})
            (control_dispatch (shown (get_recv_buffer_ptr proto buf 0 c)) event 0)
    control-Returns size buf event (inl other) = control_dispatch-other _ event other
    control-Returns size buf event (inr (i, at, msg, room)) =
        rw (at, msg) (control_dispatch-message _ (shown_message size i room))

    basic-Returns :
        (size : ℕ) (buf : Option ℕ) (event : CcEvent)
        → Readable size buf event
        → Returns
            (λ _. Unit {0})
            (basic_dispatch proto.basic_header (get_recv_buffer_ptr proto buf 1 c) event 1)
    basic-Returns size buf event (inl other) = basic_dispatch-other proto.basic_header _ event other
    basic-Returns size buf event (inr (i, at, msg, room)) =
        let ptr = basic_ptr size i room in
        rw (at, msg, ptr.1)
          (basic_dispatch-message proto.basic_header ptr.0 _ (
            let d = (basic_descriptor proto.basic_header).recv_offset in
            let l : d ≤ 1 = ground arith in omega arith))

    -- What a dispatch leaves: only calls of application callbacks are added.
    abbrev pub Notified : Cloud × P → Type 0
    Notified (c', p') = (ns : List Notice) × (c' ≡ record c { notices = ns })

    performed :
        (e : Entry) (buf : Option ℕ) (p : P) (m : Outcome (List Action))
        → Returns (λ _. Unit {0}) m
        → Returns Notified (m >>= λ actions. done (perform proto app e buf actions (c, p)))
    performed e buf p (done actions) h = let r = perform_lem e buf actions c p in rw r.2 (r.0, refl)
    performed e buf p failed h = absurd h
    performed e buf p fault h = absurd h
    performed e buf p hang h = absurd h

    dispatch_event-unknown :
        (svc_id : ℕ) (buf : Option ℕ) (event : CcEvent) (p : P)
        → lookup_service svc_id ≡ none
        → dispatch_event proto app svc_id buf event (c, p)
          ≡ done (c, (if is_rcvd_msg proto app event then proto.send_ack p else p))
    unfolding dispatch_event
    dispatch_event-unknown svc_id buf event p h = ground arith

    pub dispatch_event-Returns :
        (size svc_id : ℕ) (buf : Option ℕ) (event : CcEvent) (p : P)
        → Readable size buf event
        → Returns Notified (dispatch_event proto app svc_id buf event (c, p))
    unfolding dispatch_event call_service
    dispatch_event-Returns size zero buf event p h = rw entry_control (
        performed (record { descriptor = control_descriptor; app_callback = control_cb }) buf p _
          (control-Returns size buf event h))
    dispatch_event-Returns size (suc zero) buf event p h = rw entry_basic (
        performed
          (record { descriptor = basic_descriptor proto.basic_header; app_callback = basic_cb }) buf
          p _ (basic-Returns size buf event h))
    dispatch_event-Returns size (suc (suc n)) buf event p h =
        rw (dispatch_event-unknown (suc (suc n)) buf event p (lookup_service-none n))
          (c.notices, refl)
