-- ===== src/Ott/Fragments.antt =====
-- An update message that arrives in fragments.
use ts_sdk.Prelude.{
  ◌^◌, ◌%◌, copy_to_lem, copy_to, ap₂, sym, take-append, drop-append, drop_add, length-append,
  length-take, length-drop, get_or-take, ℕ, zero, suc, ◌+◌, ◌-◌, ◌≤◌, ◌<◌, min, ◌≡◌, refl, inl, inr,
  true, some, List, [], ◌∷◌, ◌++◌, arith, ltb, ◌==◌, ltb→lt, Bool-cases, length, get_or, take, drop,
  Outcome, done, ◌>>=◌, ge→ltb, ◌∙◌, if◌then◌else◌, ap, take_add, false, ◌%◌, ==_iff, take-length,
  drop-length, ◌≢◌,
}
use ts_sdk.SmsNas.Session.{proto_no_msg, ProtoResult, proto_ok}
use ts_sdk.Ott.Message.{
  room_left, Tls, count, Retrieved, retrieve_msg, msg_is_complete, msg_is_valid, flags_are_valid,
  load_flags, load_mtype, array_sz, mt_update, proto_data_sz, retrieve_bytes,
}

-- A connection that gives the bytes of a stream, in fragments of at most the given sizes (and of one
-- byte when these are used up), but never more than asked for.
abbrev pub Stream : Type 0
Stream = List ℕ × List ℕ

abbrev pub fragment : ℕ → Stream → ℕ
fragment most (bytes, []) = min (min 1 most) (length bytes)
fragment most (bytes, k ∷ ks) = min (min (suc k) most) (length bytes)

abbrev pub rest_sizes : List ℕ → List ℕ
rest_sizes [] = []
rest_sizes (k ∷ ks) = ks

abbrev pub stream_tls : Tls Stream
stream_tls = record {
  ssl_write = λ bytes t. (count (length bytes), t);
  ssl_read = λ most t. (
    count (fragment most t),
    take (fragment most t) t.0,
    (drop (fragment most t) t.0, rest_sizes t.1),
  );
  session_reset = λ t. t;
  close_notify_ok = λ t. (true, t);
  tick = λ t. (0, t);
}

-- `ott_retrieve_msg` is called until it reports something, at most `n` times.
pub poll : ℕ → ℕ → ℕ → Retrieved stream_tls → Outcome (Retrieved stream_tls)
poll zero fuel sz r = done r
poll (suc n) fuel sz r = do
  r' ← retrieve_msg stream_tls fuel 5000 (some r.msg) sz r.recvd r.rbytes r.conn
  elim (r'.result) [ proto_no_msg ↦ poll n fuel sz r' | _ ↦ done r' ]

less_header : (r n a : ℕ) → n ≡ 3 + a → 4 ≤ r → (r - 3 == a) ≡ (r == n)
less_header r n a e h = ground arith

-- What `msg_is_complete` says of an update message of which the first `r` bytes are there.
module _ (msg rest : List ℕ) (update : load_mtype (get_or msg 0 0) ≡ mt_update)
    (whole : length msg ≡ 3 + array_sz msg) (some_data : 1 ≤ array_sz msg) where
  complete_lem :
      (r : ℕ) → 1 ≤ r → r ≤ length msg → msg_is_complete (take r msg ++ rest) r ≡ (r == length msg)
  unfolding msg_is_complete
  complete_lem r lo hi =
      let b0 : get_or (take r msg ++ rest) 0 0 ≡ get_or msg 0 0 =
        get_or-take msg rest 0 r 0 (omega arith) hi in
      rw (b0, update)
        (elim (Bool-cases (ltb r 4)) [
          | inl short ↦ rw short (let q : r < 4 = ltb→lt r 4 short in ground arith)
          | inr long ↦ rw long (
              let q : 4 ≤ r = ground arith in
              let b1 : get_or (take r msg ++ rest) 1 0 ≡ get_or msg 1 0 =
                get_or-take msg rest 1 r 0 (omega arith) hi in
              let b2 : get_or (take r msg ++ rest) 2 0 ≡ get_or msg 2 0 =
                get_or-take msg rest 2 r 0 (omega arith) hi in
              rw (b1, b2) (less_header r (length msg) (array_sz msg) whole q))
        ])

  pub valid_lem :
      (r : ℕ)
      → r ≡ length msg
      → flags_are_valid (load_flags (get_or msg 0 0)) ≡ true
      → array_sz msg ≤ proto_data_sz
      → msg_is_valid (take r msg ++ rest) ≡ true
  unfolding msg_is_valid
  valid_lem r e f h =
      let b0 : get_or (take r msg ++ rest) 0 0 ≡ get_or msg 0 0 =
        get_or-take msg rest 0 r 0 (omega arith) (omega arith) in
      let b1 : get_or (take r msg ++ rest) 1 0 ≡ get_or msg 1 0 =
        get_or-take msg rest 1 r 0 (omega arith) (omega arith) in
      let b2 : get_or (take r msg ++ rest) 2 0 ≡ get_or msg 2 0 =
        get_or-take msg rest 2 r 0 (omega arith) (omega arith) in
      rw (b0, f, update, b1, b2) (rw (ge→ltb proto_data_sz (array_sz msg) h) refl)

-- A fragment makes progress and does not go past the end of the stream.
pub fragment_lem :
    (most : ℕ) (bytes ks : List ℕ)
    → 1 ≤ most
    → 1 ≤ length bytes
    → (1 ≤ fragment most (bytes, ks)) × (fragment most (bytes, ks) ≤ length bytes)
fragment_lem most bytes [] h l = (omega arith, omega arith)
fragment_lem most bytes (k ∷ ks) h l = (omega arith, omega arith)

-- What is known with the first `r` bytes of the message in the buffer.
abbrev pub partly : (msg buf : List ℕ) (r rbytes : ℕ) → ProtoResult → List ℕ → Retrieved stream_tls
partly msg buf r rbytes res ks = record {
  result = res;
  msg = take r msg ++ drop r buf;
  recvd = r;
  rbytes = rbytes;
  conn = (drop r msg, ks);
}

module _ (msg buf : List ℕ) (fuel sz : ℕ) (update : load_mtype (get_or msg 0 0) ≡ mt_update)
    (whole : length msg ≡ 3 + array_sz msg) (some_data : 1 ≤ array_sz msg)
    (small : array_sz msg ≤ proto_data_sz)
    (valid : flags_are_valid (load_flags (get_or msg 0 0)) ≡ true) (room : length msg ≤ sz)
    (size : length buf ≡ sz) (most : sz ≤ 512) where
  -- The copy of a fragment behind the bytes that are there.
  copy_fragment :
      (r f : ℕ)
      → r + f ≤ length msg
      → copy_to (take r msg ++ drop r buf) r (take f (drop r msg))
        ≡ done (take (r + f) msg ++ drop (r + f) buf)
  copy_fragment r f h =
      let mem = take r msg ++ drop r buf in
      let src = take f (drop r msg) in
      let lr : length (take r msg) ≡ r = omega (arith, length-take r msg) in
      let ls : length src ≡ f = omega (arith, length-take f (drop r msg), length-drop r msg) in
      let lm : length mem ≡ sz =
        omega (arith, length-append (take r msg) (drop r buf), length-drop r buf) in
      copy_to_lem mem r src (omega arith)
      ∙ ap done (
          ap₂ (λ a b. a ++ src ++ b) (take-append (take r msg) (drop r buf) r (sym lr))
            (drop_add r (length src) mem refl
              ∙ ap (drop (length src)) (drop-append (take r msg) (drop r buf) r (sym lr))
              ∙ sym (drop_add {n = r + f} r (length src) buf (omega arith)))
          ∙ ap (λ a. a ++ drop (r + f) buf) (sym (take_add {n = r + f} r f msg refl)))

  -- One call with a part of the message in the buffer.
  read_step :
      (r rb : ℕ) (res : ProtoResult) (ks : List ℕ)
      → r < length msg
      → let f = fragment (room_left sz r) (drop r msg, ks) in
        let r' = r + f in
        retrieve_msg stream_tls fuel 5000 (some (take r msg ++ drop r buf)) sz r rb (drop r msg, ks)
        ≡ done (
            if r' == length msg
            then record {
              result = proto_ok;
              msg = take r' msg ++ drop r' buf;
              recvd = 0;
              rbytes = r';
              conn = (drop r' msg, rest_sizes ks);
            }
            else partly msg buf r' rb proto_no_msg (rest_sizes ks))
  unfolding retrieve_msg retrieve_bytes
  read_step r rb res ks h =
      let f = fragment (room_left sz r) (drop r msg, ks) in
      let ld : length (drop r msg) ≡ length msg - r = length-drop r msg in
      let (lo, hi) = fragment_lem (room_left sz r) (drop r msg) ks (omega arith) (omega arith) in
      let z : (f == 0) ≡ false = ground arith in
      let w : (r + f) % 2 ^ 16 ≡ r + f = omega arith in
      let next : drop f (drop r msg) ≡ drop (r + f) msg = sym (drop_add r f msg refl) in
      rw (ge→ltb sz 4 (omega arith), ge→ltb 512 sz most)
        (rw (copy_fragment r f (omega arith)) (
          rw
            (
              z,
              w,
              next,
              complete_lem msg (drop (r + f) buf) update whole some_data (r + f) (omega arith)
                  (omega arith),
            )
            (elim (Bool-cases (r + f == length msg)) [
              | inl last ↦ rw last (
                  rw
                    (valid_lem msg (drop (r + f) buf) update whole some_data (r + f)
                      ((==_iff _ _).0 last) valid small)
                    refl)
              | inr more ↦ rw more refl
            ])))

  -- What is reported of the whole message.
  abbrev pub reported : List ℕ → Retrieved stream_tls
  reported ks = record {
    result = proto_ok;
    msg = msg ++ drop (length msg) buf;
    recvd = 0;
    rbytes = length msg;
    conn = ([], ks);
  }

  poll_lem :
      (n r rb : ℕ) (res : ProtoResult) (ks : List ℕ)
      → r < length msg
      → length msg ≤ r + n
      → (ks' : List ℕ) × (poll n fuel sz (partly msg buf r rb res ks) ≡ done (reported ks'))
  unfolding poll
  poll_lem zero r rb res ks h e = absurd (omega arith)
  poll_lem (suc n) r rb res ks h e =
      let f = fragment (room_left sz r) (drop r msg, ks) in
      let ld : length (drop r msg) ≡ length msg - r = length-drop r msg in
      let (lo, hi) = fragment_lem (room_left sz r) (drop r msg) ks (omega arith) (omega arith) in
      elim (Bool-cases (r + f == length msg)) [
        | inl last ↦
            let n' : r + f ≡ length msg = (==_iff _ _).0 last in
            (
              rest_sizes ks,
              rw (read_step r rb res ks h, last) (rw (n', take-length msg, drop-length msg) refl),
            )
        | inr more ↦
            let n' : r + f ≢ length msg = ground arith in
            let rest =
              poll_lem n (r + f) rb proto_no_msg (rest_sizes ks) (omega arith) (omega arith) in
            (rest.0, rw (read_step r rb res ks h, more) rest.1)
      ]

  -- A valid update message with 1 to 509 bytes of data, which fits into the receive buffer of at most 512
  -- bytes, arriving in fragments of any sizes with nothing behind it, while nothing is received yet:
  -- `ott_retrieve_msg`, called as often as it reports no message, but at most once for each byte,
  -- reports PROTO_OK exactly with the last fragment; the message then stands in the buffer, its length
  -- in `*rbytes`, and the count of received bytes is 0 again.
  pub retrieve_fragments :
      (rb : ℕ) (ks : List ℕ)
      → (ks' : List ℕ) × (poll
            (length msg)
            fuel
            sz
            (record { result = proto_no_msg; msg = buf; recvd = 0; rbytes = rb; conn = (msg, ks) })
          ≡ done (reported ks'))
  retrieve_fragments rb ks = poll_lem (length msg) 0 rb proto_no_msg ks (omega arith) (omega arith)
