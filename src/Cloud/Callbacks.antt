-- ===== src/Cloud/Callbacks.antt =====
-- Every callback of a protocol returns, and leaves the layer ready for the next one.
use ts_sdk.Prelude.{
  ℕ, ◌≡◌, refl, Bool, false, Option, some, List, length, done, ◌>>=◌, inl, inr, ◌⊎◌, Returns,
  Returns-bind, Returns-mono,
}
use ts_sdk.Cloud.Types.{
  CcEvent, rcvd_msg, rcvd_wrong_msg, rcvd_overflow, Notice, Cloud, Proto, Upcall, recv_cb, send_cb,
  Run, ends, calls, ProtoEvent, proto_rcvd_ack, proto_rcvd_nack, proto_send_timeout,
  proto_rcvd_mem_ovrfl, proto_rcvd_quit, proto_rcvd_wrong_msg, proto_rcvd_msg, proto_rcvd_none,
  proto_send_failed,
}
use ts_sdk.Cloud.Dispatch.{dispatch_event}
use ts_sdk.Cloud.Receive.{
  store_received, set_current_len, reset_conn_states, activate_buffer, hand_on, cc_recv_cb,
  cc_send_cb, upcall, play, send_event,
}
use ts_sdk.Cloud.Ready.{IsReady, dispatch_event-Returns, Notified, Readable}
use ts_sdk.Service.Basic.Total.{NoMessage}
use ts_sdk.Cloud.Safe.{
  Ready, activate_buffer-Returns, store_received-Returns, set_current_len-Returns,
}

-- A protocol that writes no more into the receive buffer than it was given.
abbrev pub Keeps : ℕ → Upcall → Type 0
Keeps size (recv_cb bytes sz event svc_id) = length bytes ≡ size
Keeps size (send_cb event svc_id) = Unit {0}

abbrev pub StaysInside {ℓ} : {P : Type ℓ} → ℕ → Run P → Type ℓ
StaysInside size (ends res p) = Unit
StaysInside {P = P} size (calls u p next) = Keeps size u × ((q : P) → StaysInside size (next q))

module _ {ℓ} {P : Type ℓ} (proto : Proto P) (app : Notice → List Bool)
    (control_cb basic_cb i size start : ℕ) where
  -- The layer is ready after a call.
  abbrev pub ReadyAfter : Cloud × P → Type 0
  ReadyAfter st = Ready proto control_cb basic_cb i size start st.0

  dispatch-Returns :
      (svc_id : ℕ) (buf : Option ℕ) (event : CcEvent) (c : Cloud) (p : P)
      → NoMessage event ⊎ ((buf ≡ some i) × (event ≡ rcvd_msg))
      → ReadyAfter (c, p)
      → Returns ReadyAfter (dispatch_event proto app svc_id buf event (c, p))
  dispatch-Returns svc_id buf event c p h v =
      Returns-mono (Notified proto app control_cb basic_cb c v.services) ReadyAfter _
        (dispatch_event-Returns proto app control_cb basic_cb c v.services size svc_id buf event p
          (readable h))
        (λ st n.
          rw n.1
            (record { started = v.started; in_at = v.in_at; room = v.room; services = v.services }))
    where
      readable :
          NoMessage event ⊎ ((buf ≡ some i) × (event ≡ rcvd_msg))
          → Readable proto app control_cb basic_cb c v.services size buf event
      readable (inl other) = inl other
      readable (inr (at, msg)) = inr (i, at, msg, v.room)

  reactivate-Returns :
      (st : Cloud × P)
      → ReadyAfter st
      → Returns ReadyAfter (activate_buffer proto st.0.in_buf st >>= λ a. done (a.1, a.2))
  reactivate-Returns st v =
      Returns-bind (λ a. Ready proto control_cb basic_cb i size start a.1) ReadyAfter _ _
        (activate_buffer-Returns proto control_cb basic_cb i size start st.0 st.1 _ v.in_at v)
        (λ a w. w)

  hand_on-Returns :
      (event : CcEvent) (svc_id : ℕ) (c : Cloud) (p : P)
      → NoMessage event ⊎ (event ≡ rcvd_msg)
      → ReadyAfter (c, p)
      → Returns ReadyAfter (hand_on proto app event svc_id (c, p))
  unfolding hand_on
  hand_on-Returns event svc_id c p h v =
      let c1 = record c { recv_in_progress = false } in
      let v1 : ReadyAfter (c1, p) = record {
        started = v.started;
        in_at = v.in_at;
        room = v.room;
        services = v.services;
      } in
      Returns-bind ReadyAfter ReadyAfter _ _
        (dispatch-Returns svc_id c1.in_buf event c1 p (reads h) v1) reactivate-Returns
    where
      reads :
          NoMessage event ⊎ (event ≡ rcvd_msg)
          → NoMessage event ⊎ ((c.in_buf ≡ some i) × (event ≡ rcvd_msg))
      reads (inl other) = inl other
      reads (inr msg) = inr (v.in_at, msg)

  store-hand_on :
      (bytes : List ℕ) (sz : ℕ) (event : CcEvent) (svc_id : ℕ) (c : Cloud) (p : P)
      → length bytes ≡ size
      → NoMessage event ⊎ (event ≡ rcvd_msg)
      → ReadyAfter (c, p)
      → Returns ReadyAfter (
          store_received bytes c.in_buf c >>= λ c1.
          set_current_len sz c1.in_buf c1 >>= λ c2. hand_on proto app event svc_id (c2, p))
  store-hand_on bytes sz event svc_id c p l h v =
      let Q = Ready proto control_cb basic_cb i size start in
      Returns-bind Q ReadyAfter _ _
        (store_received-Returns proto control_cb basic_cb i size start bytes c _ v.in_at l v)
        (λ c1 v1.
          Returns-bind Q ReadyAfter _ _
            (set_current_len-Returns proto control_cb basic_cb i size start sz c1 _ v1.in_at v1)
            (λ c2 v2. hand_on-Returns event svc_id c2 p h v2))

  cc_recv_cb-Returns :
      (bytes : List ℕ) (sz : ℕ) (event : ProtoEvent) (svc_id : ℕ) (c : Cloud) (p : P)
      → length bytes ≡ size
      → ReadyAfter (c, p)
      → Returns ReadyAfter (cc_recv_cb proto app bytes sz event svc_id (c, p))
  unfolding cc_recv_cb reset_conn_states
  cc_recv_cb-Returns bytes sz proto_rcvd_msg svc_id c p l v =
      store-hand_on bytes sz rcvd_msg svc_id c p l (inr refl) v
  cc_recv_cb-Returns bytes sz proto_rcvd_wrong_msg svc_id c p l v =
      store-hand_on bytes sz rcvd_wrong_msg svc_id c p l (inl tt) v
  cc_recv_cb-Returns bytes sz proto_rcvd_mem_ovrfl svc_id c p l v =
      Returns-bind (Ready proto control_cb basic_cb i size start) ReadyAfter _ _
        (store_received-Returns proto control_cb basic_cb i size start bytes c _ v.in_at l v)
        (λ c1 v1. hand_on-Returns rcvd_overflow svc_id c1 p (inl tt) v1)
  cc_recv_cb-Returns bytes sz proto_rcvd_quit svc_id c p l v = record {
    started = v.started;
    in_at = v.in_at;
    room = v.room;
    services = v.services;
  }
  cc_recv_cb-Returns bytes sz proto_rcvd_none svc_id c p l v = v
  cc_recv_cb-Returns bytes sz proto_rcvd_ack svc_id c p l v = v
  cc_recv_cb-Returns bytes sz proto_rcvd_nack svc_id c p l v = v
  cc_recv_cb-Returns bytes sz proto_send_timeout svc_id c p l v = v
  cc_recv_cb-Returns bytes sz proto_send_failed svc_id c p l v = v

  send_event-NoMessage : (event : ProtoEvent) → NoMessage (send_event event)
  send_event-NoMessage proto_rcvd_ack = tt
  send_event-NoMessage proto_rcvd_nack = tt
  send_event-NoMessage proto_send_timeout = tt
  send_event-NoMessage proto_rcvd_none = tt
  send_event-NoMessage proto_send_failed = tt
  send_event-NoMessage proto_rcvd_mem_ovrfl = tt
  send_event-NoMessage proto_rcvd_quit = tt
  send_event-NoMessage proto_rcvd_wrong_msg = tt
  send_event-NoMessage proto_rcvd_msg = tt

  cc_send_cb-Returns :
      (event : ProtoEvent) (svc_id : ℕ) (c : Cloud) (p : P)
      → ReadyAfter (c, p)
      → Returns ReadyAfter (cc_send_cb proto app event svc_id (c, p))
  unfolding cc_send_cb
  cc_send_cb-Returns event svc_id c p v =
      Returns-bind ReadyAfter ReadyAfter _ _
        (dispatch-Returns svc_id c.out_buf (send_event event) c p (inl (send_event-NoMessage event))
          v)
        reactivate-Returns

  upcall-Returns :
      (u : Upcall) (c : Cloud) (p : P)
      → Keeps size u
      → ReadyAfter (c, p)
      → Returns ReadyAfter (upcall proto app u (c, p))
  upcall-Returns (recv_cb bytes sz event svc_id) c p l v =
      cc_recv_cb-Returns bytes sz event svc_id c p l v
  upcall-Returns (send_cb event svc_id) c p l v = cc_send_cb-Returns event svc_id c p v

  -- With both services registered and a receive buffer of at least six bytes set, every call into a
  -- protocol returns, whatever callbacks the protocol makes, with any events and service ids, as long
  -- as it leaves the buffer at its size: no NULL pointer is read, no access is outside the buffer, and
  -- the layer is ready for the next call, with the same receive buffer, services and start of the
  -- polling interval.
  pub play-Returns :
      (run : Run P) (c : Cloud)
      → StaysInside size run
      → IsReady proto control_cb basic_cb i size start c
      → Returns (λ r. IsReady proto control_cb basic_cb i size start r.1) (play proto app run c)
  unfolding play
  play-Returns (ends res p) c h v = v
  play-Returns (calls u p next) c h v =
      Returns-bind ReadyAfter (λ r. ReadyAfter (r.1, r.2)) _ _ (upcall-Returns u c p h.0 v)
        (λ st w. play-Returns (next st.1) st.0 (h.1 st.1) w)
