-- ===== src/Cloud/Safe.antt =====
-- Writing to the receive buffer and activating it leave the layer ready.
use ts_sdk.Prelude.{
  ℕ, ◌+◌, ◌≤◌, ◌≡◌, refl, ◌∙◌, Bool, true, false, Option, some, List, arith, length, get_elem?,
  replicate, write_at, length-write_at, length-replicate, done, if◌then◌else◌, Returns,
  get_elem?-set_self, subst, ◌%◌, ◌^◌,
}
use ts_sdk.Cloud.Types.{Buffer, Cloud, Proto, recv_failed, recv_success}
use ts_sdk.Cloud.Receive.{set_buffer, store_received, set_current_len, activate_buffer}
use ts_sdk.Cloud.Ready.{IsReady, HasRoom, HasRoom-elim}

module _ {ℓ} {P : Type ℓ} (proto : Proto P) (control_cb basic_cb i size start : ℕ) where
  abbrev pub Ready : Cloud → Type 0
  Ready c = IsReady proto control_cb basic_cb i size start c

  -- Another buffer in the place of the receive buffer.
  set_buffer-IsReady :
      (c : Cloud) (b b' : Buffer)
      → Ready c
      → get_elem? c.buffers i ≡ some b
      → HasRoom proto.overhead_sz size (some b')
      → Ready (set_buffer i b' c)
  set_buffer-IsReady c b b' v e room = record {
    started = v.started;
    in_at = v.in_at;
    room = rw (get_elem?-set_self c.buffers i b' e) room;
    services = v.services;
  }

  -- The cleared memory of the receive buffer.
  abbrev pub cleared : Buffer → List ℕ → Buffer
  cleared b mem = record b {
    buf_ptr = some (write_at mem 0 (replicate (b.bufsz + proto.overhead_sz) 0));
  }

  -- The state after an activation that the protocol accepts, or not.
  abbrev pub activated : Bool → Buffer → List ℕ → Cloud → Cloud
  activated true b mem c = record (set_buffer i (cleared b mem) c) {
    recv_in_progress = true;
    in_buf = some i;
  }
  activated false b mem c = set_buffer i (cleared b mem) c

  pub activate_buffer_lem :
      (c : Cloud) (p : P) (b : Buffer) (mem : List ℕ)
      → get_elem? c.buffers i ≡ some b
      → b.buf_ptr ≡ some mem
      → b.bufsz + proto.overhead_sz ≤ length mem
      → let sz = b.bufsz + proto.overhead_sz in
        let r = proto.set_recv_buffer_cb (write_at mem 0 (replicate sz 0)) sz p in
        activate_buffer proto (some i) (c, p)
        ≡ done ((if r.0 then recv_success else recv_failed), activated r.0 b mem c, r.1)
  unfolding activate_buffer
  activate_buffer_lem c p b mem hb hm hl = ground arith

  pub cleared-HasRoom :
      (b : Buffer) (mem : List ℕ)
      → length mem ≡ size
      → b.bufsz + proto.overhead_sz ≤ size
      → 6 ≤ b.bufsz
      → HasRoom proto.overhead_sz size (some (cleared b mem))
  cleared-HasRoom b mem l h six =
      let sz = b.bufsz + proto.overhead_sz in
      let zeros : List ℕ = replicate sz 0 in
      let n : length zeros ≡ sz = length-replicate sz 0 in
      (length-write_at mem 0 zeros (omega arith) ∙ l, h, six)

  activated-IsReady :
      (ok : Bool) (c : Cloud) (b : Buffer) (mem : List ℕ)
      → Ready c
      → get_elem? c.buffers i ≡ some b
      → HasRoom proto.overhead_sz size (some (cleared b mem))
      → Ready (activated ok b mem c)
  activated-IsReady false c b mem v e room = set_buffer-IsReady c b (cleared b mem) v e room
  activated-IsReady true c b mem v e room =
      let r = set_buffer-IsReady c b (cleared b mem) v e room in
      record { started = r.started; in_at = refl; room = r.room; services = r.services }

  pub activate_buffer-Returns :
      (c : Cloud) (p : P) (buf : Option ℕ)
      → buf ≡ some i
      → Ready c
      → Returns (λ r. Ready r.1) (activate_buffer proto buf (c, p))
  activate_buffer-Returns c p buf e v =
      let r = HasRoom-elim proto.overhead_sz size (get_elem? c.buffers i) v.room in
      let l : r.0.bufsz + proto.overhead_sz ≤ length r.1 = omega arith in
      rw (e, activate_buffer_lem c p r.0 r.1 r.2 r.3 l)
        (activated-IsReady _ c r.0 r.1 v r.2 (cleared-HasRoom r.0 r.1 r.4 r.5 r.6))

  pub store_received_lem :
      (bytes : List ℕ) (c : Cloud) (b : Buffer)
      → get_elem? c.buffers i ≡ some b
      → store_received bytes (some i) c ≡ done (set_buffer i (record b { buf_ptr = some bytes }) c)
  unfolding store_received
  store_received_lem bytes c b h = ground arith

  pub set_current_len_lem :
      (sz : ℕ) (c : Cloud) (b : Buffer)
      → get_elem? c.buffers i ≡ some b
      → set_current_len sz (some i) c
        ≡ done (set_buffer i (record b { current_len = sz % 2 ^ 16 }) c)
  unfolding set_current_len
  set_current_len_lem sz c b h = ground arith

  pub store_received-Returns :
      (bytes : List ℕ) (c : Cloud) (buf : Option ℕ)
      → buf ≡ some i
      → length bytes ≡ size
      → Ready c
      → Returns Ready (store_received bytes buf c)
  store_received-Returns bytes c buf e h v =
      let r = HasRoom-elim proto.overhead_sz size (get_elem? c.buffers i) v.room in
      rw (e, store_received_lem bytes c r.0 r.2) (set_buffer-IsReady c r.0 _ v r.2 (h, r.5, r.6))

  pub set_current_len-Returns :
      (sz : ℕ) (c : Cloud) (buf : Option ℕ)
      → buf ≡ some i
      → Ready c
      → Returns Ready (set_current_len sz buf c)
  set_current_len-Returns sz c buf e v =
      let r = HasRoom-elim proto.overhead_sz size (get_elem? c.buffers i) v.room in
      rw (e, set_current_len_lem sz c r.0 r.2)
        (set_buffer-IsReady c r.0 _ v r.2 (subst (HasRoom proto.overhead_sz size) r.2 v.room))
