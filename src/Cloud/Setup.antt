-- ===== src/Cloud/Setup.antt =====
-- Setting the layer up, and what happens without the basic service.
use ts_sdk.Prelude.{
  ℕ, ◌+◌, ◌≤◌, ◌≡◌, refl, Bool, true, false, Option, none, some, List, [], ◌∷◌, ap, ◌∙◌, done,
  fault, Returns, length, get_elem?, get_elem?-set_self, arith, ◌%◌, ◌^◌, replicate, write_at,
}
use ts_sdk.Cloud.Types.{Notice, Cloud, Proto, Buffer, rcvd_msg, proto_rcvd_msg, recv_success}
use ts_sdk.Cloud.Dispatch.{
  buffer_at, entry_at, dispatch_event, basic_descriptor, control_descriptor, register_service,
}
use ts_sdk.Cloud.Receive.{
  reset_conn_states, cc_recv_cb, hand_on, set_buffer, set_recv_buffer, activate_buffer,
  store_received, set_current_len,
}
use ts_sdk.Cloud.Send.{cc_init}
use ts_sdk.Cloud.Ready.{IsReady, registered}
use ts_sdk.Cloud.Safe.{
  cleared, cleared-HasRoom, activate_buffer_lem, store_received_lem, set_current_len_lem,
}

module _ {ℓ} {P : Type ℓ} (proto : Proto P) where
  set_recv_buffer_lem :
      (i : ℕ) (c : Cloud) (p : P) (b : Buffer) (mem : List ℕ)
      → get_elem? c.buffers i ≡ some b
      → b.buf_ptr ≡ some mem
      → c.recv_in_progress ≡ false
      → set_recv_buffer proto (some i) (c, p) ≡ activate_buffer proto (some i) (c, p)
  unfolding set_recv_buffer buffer_at
  set_recv_buffer_lem i c p b mem at there free = ground arith

  module _ (control_cb basic_cb : ℕ) (c : Cloud) (p : P)
      (started : (proto.proto_init p).0 ≡ true) where
    -- What `cc_init` leaves.
    abbrev pub initial : Cloud
    initial = record c {
      send_in_progress = false;
      out_buf = none;
      start_ts = 0;
      polling_int_ms = proto.get_polling (proto.proto_init p).1 % 2 ^ 32;
      init_polling_ms = proto.get_polling (proto.proto_init p).1 % 2 ^ 32;
      service_table =
          some (record { descriptor = control_descriptor; app_callback = control_cb }) ∷ none ∷ [];
    }

    init_lem : cc_init proto (some control_cb) (c, p) ≡ (true, initial, (proto.proto_init p).1)
    unfolding cc_init register_service reset_conn_states
    init_lem = rw started refl

    -- What the registration of the basic service leaves.
    abbrev pub with_basic : Cloud
    with_basic = record initial {
      service_table = registered proto.basic_header control_cb basic_cb;
    }

    register_lem :
        register_service (some (basic_descriptor proto.basic_header)) (some basic_cb) initial
        ≡ (true, with_basic)
    unfolding register_service
    register_lem = refl

    -- When the protocol starts and accepts the buffer: `cc_init`, the registration of the basic service
    -- and `cc_set_recv_buffer` with a buffer of at least six bytes, while none is set, succeed; then the
    -- layer listens, sends nothing, measures the polling interval from 0, and can take any callback of
    -- the protocol.
    pub setup_lem :
        (i size : ℕ) (b : Buffer) (mem : List ℕ)
        → get_elem? c.buffers i ≡ some b
        → b.buf_ptr ≡ some mem
        → length mem ≡ size
        → b.bufsz + proto.overhead_sz ≤ size
        → 6 ≤ b.bufsz
        → c.recv_in_progress ≡ false
        → ((bytes : List ℕ) (q : P)
            → (proto.set_recv_buffer_cb bytes (b.bufsz + proto.overhead_sz) q).0 ≡ true)
        → let a = cc_init proto (some control_cb) (c, p) in
          let r =
            register_service (some (basic_descriptor proto.basic_header)) (some basic_cb) a.1 in
          (a.0 ≡ true)
          × (r.0 ≡ true)
          × Returns
              (λ s.
                (s.0 ≡ recv_success)
                × (s.1.recv_in_progress ≡ true)
                × (s.1.send_in_progress ≡ false)
                × IsReady proto control_cb basic_cb i size 0 s.1)
              (set_recv_buffer proto (some i) (r.1, a.2))
    unfolding register_service
    setup_lem i size b mem at there l h six free accepts =
        let n = b.bufsz + proto.overhead_sz in
        let q = (proto.proto_init p).1 in
        let room : n ≤ length mem = omega arith in
        let act =
          activate_buffer_lem proto control_cb basic_cb i size 0 with_basic q b mem at there room in
        let set_it = set_recv_buffer_lem i with_basic q b mem at there free in
        rw init_lem (
          refl,
          refl,
          rw (set_it, act, accepts (write_at mem 0 (replicate n 0)) q)
              (
                refl,
                refl,
                refl,
                record {
                  started = refl;
                  in_at = refl;
                  room =
                      rw
                        (get_elem?-set_self c.buffers i
                          (cleared proto control_cb basic_cb i size 0 b mem) at)
                        (cleared-HasRoom proto control_cb basic_cb i size 0 b mem l h six);
                  services = refl;
                },
              ),
        )

-- Without the basic service.
module _ {ℓ} {P : Type ℓ} (proto : Proto P) (app : Notice → List Bool) (control_cb i sz : ℕ)
    (bytes : List ℕ) (c : Cloud) (p : P) (b : Buffer) where
  unregistered_entry :
      (c' : Cloud)
      → c'.service_table
        ≡ some (record { descriptor = control_descriptor; app_callback = control_cb }) ∷ none ∷ []
      → entry_at 1 c' ≡ fault
  unfolding entry_at
  unregistered_entry c' h = rw h refl

  unregistered_dispatch :
      (buf : Option ℕ) (c' : Cloud) (p' : P)
      → entry_at 1 c' ≡ fault
      → dispatch_event proto app 1 buf rcvd_msg (c', p') ≡ fault
  unfolding dispatch_event
  unregistered_dispatch buf c' p' h = rw h refl

  -- An application that has called `cc_init` and set a receive buffer, but has not registered the basic
  -- service: a message for that service makes `cc_recv_cb` read the descriptor through a NULL pointer,
  -- whatever the message is.
  pub unregistered :
      c.service_table
        ≡ some (record { descriptor = control_descriptor; app_callback = control_cb }) ∷ none ∷ []
      → c.in_buf ≡ some i
      → get_elem? c.buffers i ≡ some b
      → cc_recv_cb proto app bytes sz proto_rcvd_msg 1 (c, p) ≡ fault
  unfolding cc_recv_cb hand_on
  unregistered services in_at at =
      let b1 = record b { buf_ptr = some bytes } in
      let c1 = set_buffer i b1 c in
      let got = get_elem?-set_self c.buffers i b1 at in
      let s1 : store_received bytes c.in_buf c ≡ done c1 =
        ap (λ buf. store_received bytes buf c) in_at
        ∙ store_received_lem proto control_cb 0 i 0 0 bytes c b at in
      let s2 =
        ap (λ buf. set_current_len sz buf c1) in_at
        ∙ set_current_len_lem proto control_cb 0 i 0 0 sz c1 b1 got in
      let c2 = record (set_buffer i (record b1 { current_len = sz % 2 ^ 16 }) c1) {
        recv_in_progress = false;
      } in
      rw s1 (rw s2 (rw (unregistered_dispatch c.in_buf c2 p (unregistered_entry c2 services)) refl))
