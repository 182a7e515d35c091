-- ===== src/Ott/Ending.antt =====
-- Writing and reading through TLS in ott_protocol.c end by the clock.
pub mod Wait
use ts_sdk.Prelude.{
  ℕ, zero, suc, ◌+◌, ◌-◌, ◌*◌, ◌%◌, ◌^◌, ◌≤◌, ◌<◌, ◌≡◌, refl, Bool, ◌||◌, Option, none, some, List,
  [], ◌∷◌, ◌⊎◌, arith, inl, inr, subst, get_or, Bool-cases, ltb, leb, ltb→lt, ◌==◌, if◌then◌else◌,
  length, take, drop, copy_to, copy_from, Ends, elapsed_32, elapsed_64, Ends-bind, Ends-if,
}
use Prim.Native.Nat.{bit_or}
use native.Mathlib.Nat.{mul-le-mul_left}
use ts_sdk.SmsNas.Session.{
  ProtoResult, proto_ok, proto_error, proto_timeout, proto_no_msg, proto_inv_param,
}
use ts_sdk.Ott.Message.{
  Tls, SslResult, count, want_more, close_notify, ssl_error, sent_bytes, write_failed, write_loop,
  write_tls, send_ctrl_msg, retrieve_bytes, retrieve_msg, close_connection, flags_are_valid,
  msg_is_valid, msg_is_complete, cf_nack, cf_quit, room_left, mt_none, mt_cmd_sl, mt_cmd_pi,
  load_flags, load_mtype, flag_is_set, cf_ack, cf_pending,
}
use ts_sdk.Ott.Response.{
  Call, State, with_session, process_recvd_msg, process_ack, fake_receiving_service_msg,
  response_loop, recv_resp_within_timeout,
}

-- The clock of a connection in ms since the start of the system, the calls of mbedtls until now, at
-- most `k` in each ms; a call takes at most 2^30 ms.
pub record Clock {ℓ} {T : Type ℓ} (tls : Tls T) (k : ℕ) : Type ℓ where
  pub ms : T → ℕ
  pub calls : T → ℕ
  pub rate : (t : T) → calls t ≤ k * (ms t + 1)
  pub tick_value : (t : T) → (tls.tick t).0 ≡ ms t % 2 ^ 64
  pub tick_ms : (t : T) → ms (tls.tick t).1 ≡ ms t
  pub tick_calls : (t : T) → calls (tls.tick t).1 ≡ calls t
  pub write_calls : (b : List ℕ) (t : T) → calls t < calls (tls.ssl_write b t).1
  pub write_ms :
      (b : List ℕ) (t : T)
      → (ms t ≤ ms (tls.ssl_write b t).1) × (ms (tls.ssl_write b t).1 ≤ ms t + 2 ^ 30)
  pub read_calls : (n : ℕ) (t : T) → calls t < calls (tls.ssl_read n t).2
  pub read_ms :
      (n : ℕ) (t : T) → (ms t ≤ ms (tls.ssl_read n t).2) × (ms (tls.ssl_read n t).2 ≤ ms t + 2 ^ 30)
  pub close_calls : (t : T) → calls t ≤ calls (tls.close_notify_ok t).1
  pub close_ms :
      (t : T)
      → (ms t ≤ ms (tls.close_notify_ok t).1) × (ms (tls.close_notify_ok t).1 ≤ ms t + 2 ^ 30)

SslResult-cases :
    (r : SslResult)
    → ((n : ℕ) × (r ≡ count n)) ⊎ ((r ≡ want_more) ⊎ ((r ≡ close_notify) ⊎ (r ≡ ssl_error)))
SslResult-cases (count n) = inl (n, refl)
SslResult-cases want_more = inr (inl refl)
SslResult-cases close_notify = inr (inr (inl refl))
SslResult-cases ssl_error = inr (inr (inr refl))

pub ProtoResult-cases :
    (r : ProtoResult)
    → (r ≡ proto_ok)
      ⊎ ((r ≡ proto_error) ⊎ ((r ≡ proto_timeout) ⊎ ((r ≡ proto_no_msg) ⊎ (r ≡ proto_inv_param))))
ProtoResult-cases proto_ok = inl refl
ProtoResult-cases proto_error = inr (inl refl)
ProtoResult-cases proto_timeout = inr (inr (inl refl))
ProtoResult-cases proto_no_msg = inr (inr (inr (inl refl)))
ProtoResult-cases proto_inv_param = inr (inr (inr (inr refl)))

pub copy_to-Ends : (mem : List ℕ) (i : ℕ) (src : List ℕ) → Ends (λ m. Unit {0}) (copy_to mem i src)
copy_to-Ends mem i src = elim (Bool-cases (leb (i + length src) (length mem))) [
  | inl y ↦ rw y tt
  | inr n ↦ rw n tt
]

pub copy_from-Ends : (mem : List ℕ) (i n : ℕ) → Ends (λ m. Unit {0}) (copy_from mem i n)
copy_from-Ends mem i n = elim (Bool-cases (leb (i + n) (length mem))) [
  | inl y ↦ rw y tt
  | inr n' ↦ rw n' tt
]

module _ {ℓ} {T : Type ℓ} (tls : Tls T) (k : ℕ) (clock : Clock tls k) where
  -- With rounds for all calls until a time, one is left before it.
  pub rounds_left : (fuel c : ℕ) (t : T) → clock.ms t < c → k * c < fuel + clock.calls t → 0 < fuel
  rounds_left fuel c t h e =
      let m : k * (clock.ms t + 1) ≤ k * c = mul-le-mul_left k (omega arith) in
      omega (arith, m, clock.rate t)

  write_loop-Ends :
      (fuel s timeout : ℕ) (buf : List ℕ) (len n : ℕ) (t : T)
      → timeout ≤ 2 ^ 30
      → s ≤ clock.ms t
      → clock.ms t < s + timeout
      → k * (s + timeout) < fuel + clock.calls t
      → Ends (λ r. Unit {0}) (write_loop tls fuel timeout buf len (s % 2 ^ 64) n t)
  unfolding write_loop
  write_loop-Ends zero s timeout buf len n t top lo hi e =
      absurd (let z = rounds_left zero (s + timeout) t hi e in omega (arith, z))
  write_loop-Ends (suc fuel) s timeout buf len n t top lo hi e =
      let bytes = take (len - n) (drop n buf) in
      let w = tls.ssl_write bytes t in
      let now = tls.tick w.1 in
      let n' = (n + sent_bytes w.0) % 2 ^ 16 in
      let wm = clock.write_ms bytes t in
      let wc = clock.write_calls bytes t in
      let tm = clock.tick_ms w.1 in
      let tc = clock.tick_calls w.1 in
      let el = elapsed_64 s (clock.ms w.1) (omega (arith, wm.0)) (omega (arith, wm.1)) in
      Ends-if (λ r. Unit {0}) (write_failed w.0) _ _ tt
        (rw (clock.tick_value w.1, el)
          (elim (Bool-cases (leb timeout (clock.ms w.1 - s))) [
            | inl late ↦ rw late tt
            | inr early ↦ rw early (
                Ends-if (λ r. Unit {0}) (ltb n' len) _ _
                  (write_loop-Ends fuel s timeout buf len n' now.1 top (omega (arith, tm, wm.0))
                    (ground arith) (omega (arith, tc, wc)))
                  tt)
          ]))

  write_tls-Ends :
      (fuel timeout : ℕ) (buf : List ℕ) (len : ℕ) (t : T)
      → 1 ≤ timeout
      → timeout ≤ 2 ^ 30
      → k * (clock.ms t + timeout) < fuel + clock.calls t
      → Ends (λ r. Unit {0}) (write_tls tls fuel timeout buf len t)
  unfolding write_tls
  write_tls-Ends fuel timeout buf len t lo top e =
      let m = clock.tick_ms t in
      rw (clock.tick_value t) (
        write_loop-Ends fuel (clock.ms t) timeout buf len 0 (tls.tick t).1 top (omega (arith, m))
          (omega (arith, m)) (omega (arith, clock.tick_calls t, e)))

  -- A time and calls later, before a deadline.
  send_ctrl_msg-Ends :
      (fuel c flags : ℕ) (t : T)
      → clock.ms t + 5000 ≤ c
      → k * c < fuel + clock.calls t
      → Ends (λ r. Unit {0}) (send_ctrl_msg tls fuel 5000 flags t)
  unfolding send_ctrl_msg
  send_ctrl_msg-Ends fuel c flags t h e =
      let m : k * (clock.ms t + 5000) ≤ k * c = mul-le-mul_left k h in
      elim (Bool-cases (flags_are_valid flags)) [
        | inl v ↦ rw v (
            write_tls-Ends fuel 5000 (bit_or flags mt_none % 256 ∷ []) 1 t (omega arith)
              (omega arith) (omega arith))
        | inr v ↦ rw v tt
      ]

  abbrev pub Later : T → T → Type 0
  Later t t' =
      (clock.ms t ≤ clock.ms t')
      × (clock.ms t' ≤ clock.ms t + 2 ^ 31)
      × (clock.calls t < clock.calls t')

  -- What is known of the connection when no message has come, which is never reported as a timeout.
  abbrev pub Reported : T → ProtoResult → T → Type 0
  Reported t proto_ok t' = Unit {0}
  Reported t proto_error t' = Unit {0}
  Reported t proto_timeout t' = ⊥
  Reported t proto_no_msg t' = Later t t'
  Reported t proto_inv_param t' = Unit {0}

  retrieve_bytes-Ends :
      (fuel c : ℕ) (msg : List ℕ) (recvd rbytes : ℕ) (t t' : T)
      → Later t t'
      → clock.ms t' + 5000 ≤ c
      → k * c < fuel + clock.calls t'
      → Ends (λ r. Reported t r.result r.conn) (retrieve_bytes tls fuel 5000 msg recvd rbytes t')
  unfolding retrieve_bytes
  retrieve_bytes-Ends fuel c msg recvd rbytes t t' l h e =
      let sent = send_ctrl_msg-Ends fuel c (bit_or cf_nack cf_quit) t' h e in
      elim (Bool-cases (msg_is_complete msg (recvd % 2 ^ 16))) [
        | inl all ↦ rw all (elim (Bool-cases (msg_is_valid msg)) [
          | inl v ↦ rw v tt
          | inr v ↦ rw v (
              Ends-bind (λ r. Unit {0}) (λ r. Reported t r.result r.conn)
                (send_ctrl_msg tls fuel 5000 (bit_or cf_nack cf_quit) t') _ sent (λ r u. tt))
        ])
        | inr more ↦ rw more l
      ]

  pub retrieve_msg-Ends :
      (fuel c : ℕ) (msg : Option (List ℕ)) (sz recvd rbytes : ℕ) (t : T)
      → clock.ms t + 2 ^ 30 + 5000 ≤ c
      → k * c < fuel + clock.calls t
      → Ends (λ r. Reported t r.result r.conn) (retrieve_msg tls fuel 5000 msg sz recvd rbytes t)
  unfolding retrieve_msg close_connection
  retrieve_msg-Ends fuel c none sz recvd rbytes t h e = tt
  retrieve_msg-Ends fuel c (some msg) sz recvd rbytes t h e =
      let r = tls.ssl_read (room_left sz recvd) t in
      let rm = clock.read_ms (room_left sz recvd) t in
      let rc = clock.read_calls (room_left sz recvd) t in
      let later : Later t r.2 = (rm.0, omega (arith, rm.1), rc) in
      elim (Bool-cases (ltb sz 4 || ltb 512 sz)) [
        | inl bad ↦ rw bad tt
        | inr ok ↦ rw ok (elim (SslResult-cases r.0) [
          | inl (n, is) ↦ rw is (
              Ends-bind (λ m. Unit {0}) (λ r'. Reported t r'.result r'.conn) (copy_to msg recvd r.1)
                _ (copy_to-Ends msg recvd r.1)
                (λ m u. elim (Bool-cases (n == 0)) [
                  | inl z ↦ rw z tt
                  | inr s ↦ rw s (
                      retrieve_bytes-Ends fuel c m (recvd + n) rbytes t r.2 later
                        (omega (arith, rm.1)) (omega (arith, rc)))
                ]))
          | inr (inl is) ↦ rw is later
          | inr (inr (inl is)) ↦
              let closed = tls.close_notify_ok r.2 in
              let cm = clock.close_ms r.2 in
              rw is (elim (Bool-cases closed.0) [
                | inl y ↦ rw y (
                  omega (arith, rm.0, cm.0),
                  omega (arith, rm.1, cm.1),
                  omega (arith, rc, clock.close_calls r.2),
                )
                | inr f ↦ rw f tt
              ])
          | inr (inr (inr is)) ↦ rw is tt
        ])
      ]
