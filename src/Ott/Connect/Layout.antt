-- ===== src/Ott/Connect/Layout.antt =====
-- What the messages of ott_protocol.c look like on the wire.
use ts_sdk.Prelude.{
  ℕ, zero, suc, ◌+◌, ◌-◌, ◌/◌, ◌%◌, ◌^◌, ◌≤◌, ◌<◌, ◌≡◌, refl, ap, sym, ◌∙◌, Bool, true, false, some,
  List, [], ◌∷◌, ◌++◌, append_assoc, append-nil, arith, ltb, if◌then◌else◌, Bool-cases, inl, inr,
  length, take, drop, min, take-length, take_all, length-take, done, ◌>>=◌, ge→ltb,
}
use ts_sdk.SmsNas.Session.{proto_ok}
use ts_sdk.Ott.Message.{Tls, write_loop, write_tls, flags_are_valid, cf_pending}
use ts_sdk.Ott.Fragments.{Stream, stream_tls, fragment}
use ts_sdk.Ott.Write.{Sink, sink_tls, write_loop_lem}
use ts_sdk.Ott.Session.{Session}
use ts_sdk.Ott.Connect.{write_parts, send_auth, send_status, le16}

-- A connection that takes what is written, as a sink, and gives the bytes of a stream.
abbrev pub duplex_tls : Tls (Sink × Stream)
duplex_tls = record {
  ssl_write = λ bytes t. let w = sink_tls.ssl_write bytes t.0 in (w.0, (w.1, t.1));
  ssl_read = λ most t. let r = stream_tls.ssl_read most t.1 in (r.0, r.1, (t.0, r.2));
  session_reset = λ t. t;
  close_notify_ok = λ t. (true, t);
  tick = λ t. (0, t);
}

write_loop-duplex :
    (fuel : ℕ) (buf : List ℕ) (len n : ℕ) (t : Sink) (s : Stream)
    → write_loop duplex_tls fuel 5000 buf len 0 n (t, s)
      ≡ (write_loop sink_tls fuel 5000 buf len 0 n t >>= λ r. done (r.0, (r.1, s)))
unfolding write_loop
write_loop-duplex zero buf len n t s = refl
write_loop-duplex (suc fuel) buf len n t s =
    let bytes = take (len - n) (drop n buf) in
    let n' = (n + fragment (length bytes) (bytes, t.1)) % 2 ^ 16 in
    let t' = (sink_tls.ssl_write bytes t).1 in
    elim (Bool-cases (ltb n' len)) [
      | inl more ↦ rw more (write_loop-duplex fuel buf len n' t' s)
      | inr last ↦ rw last refl
    ]

-- A part is written whole.
write_part :
    (fuel : ℕ) (part before ks : List ℕ) (s : Stream)
    → 1 ≤ length part
    → length part ≤ fuel
    → length part < 2 ^ 16
    → (ks' : List ℕ) × (write_tls duplex_tls fuel 5000 part (length part) ((before, ks), s)
        ≡ done (proto_ok, ((before ++ part, ks'), s)))
unfolding write_tls
write_part fuel part before ks s h e w =
    let r = write_loop_lem fuel part (length part) 0 before ks h (omega arith) (omega arith) w in
    let b : before ++ take (length part) part ≡ before ++ part =
      ap (λ l. before ++ l) (take-length part) in
    (
      r.0,
      write_loop-duplex fuel part (length part) 0 (before, ks) s
          ∙ ap
              (λ l. write_loop sink_tls fuel 5000 part (length part) 0 0 (l, ks) >>= λ x.
                done (x.0, (x.1, s)))
              (sym (append-nil before))
          ∙ ap (λ o. o >>= λ x. done (x.0, (x.1, s))) r.1
          ∙ ap (λ l. done (proto_ok, ((l, r.0), s))) b,
    )

-- The parts one behind the other.
abbrev pub joined : List (List ℕ) → List ℕ
joined [] = []
joined (part ∷ parts) = part ++ joined parts

-- Parts of at least one byte and at most so many.
abbrev pub Parts : ℕ → List (List ℕ) → Type 0
Parts most [] = Unit {0}
Parts most (part ∷ parts) = (1 ≤ length part) × (length part ≤ most) × Parts most parts

pub write_parts_lem :
    (fuel : ℕ) (parts : List (List ℕ)) (before ks : List ℕ) (s : Stream)
    → Parts (min fuel 65535) parts
    → (ks' : List ℕ) × (write_parts duplex_tls fuel 5000 parts ((before, ks), s)
        ≡ done (proto_ok, ((before ++ joined parts, ks'), s)))
unfolding write_parts
write_parts_lem fuel [] before ks s h =
    (ks, ap (λ l. done (proto_ok, ((l, ks), s))) (sym (append-nil before)))
write_parts_lem fuel (part ∷ parts) before ks s h =
    let w = write_part fuel part before ks s h.0 (omega arith) (omega arith) in
    let r = write_parts_lem fuel parts (before ++ part) w.0 s h.2 in
    (
      r.0,
      rw (w.1, r.1)
          (ap (λ l. done (proto_ok, ((l, r.0), s))) (append_assoc before part (joined parts))),
    )

-- The version byte, the command byte, the device id, the size of the secret in two bytes with the low
-- one first, and the secret.
abbrev pub auth_bytes : ℕ → Session → List ℕ
auth_bytes cmd s = 1 ∷ cmd ∷ (s.dev_id ++ (32 ∷ 0 ∷ s.d_sec))

module _ (fuel : ℕ) (s : Session) (before ks : List ℕ) (stream : Stream) (id : length s.dev_id ≡ 16)
    (sec : length s.d_sec ≡ 32) (enough : 32 ≤ fuel) where
  auth_parts :
      (cmd : ℕ)
      → (ks' : List ℕ) × (write_parts duplex_tls fuel 5000
            ((1 ∷ []) ∷ (cmd ∷ []) ∷ take 16 s.dev_id ∷ (32 ∷ 0 ∷ []) ∷ take 32 s.d_sec ∷ [])
            ((before, ks), stream)
          ≡ done (proto_ok, ((before ++ auth_bytes cmd s, ks'), stream)))
  auth_parts cmd =
      let i : take 16 s.dev_id ≡ s.dev_id = take_all 16 s.dev_id (omega arith) in
      let d : take 32 s.d_sec ≡ s.d_sec = take_all 32 s.d_sec (omega arith) in
      let r =
        write_parts_lem fuel ((1 ∷ []) ∷ (cmd ∷ []) ∷ s.dev_id ∷ (32 ∷ 0 ∷ []) ∷ s.d_sec ∷ [])
          before ks stream (omega arith) in
      (
        r.0,
        rw (i, d)
            (r.1
              ∙ ap
                  (λ l.
                    done
                      (proto_ok, ((before ++ (1 ∷ cmd ∷ (s.dev_id ++ (32 ∷ 0 ∷ l))), r.0), stream)))
                  (append-nil s.d_sec)),
      )

  -- With own credentials of the right sizes, with and without the PENDING flag, and with rounds for the
  -- longest part: `ott_send_auth_to_cloud`, over a connection that takes at least a byte at each call,
  -- returns PROTO_OK with exactly the bytes of an authentication written: the version, the command byte
  -- with the flag, the device id, the size of the secret, and the secret.
  pub send_auth_lem :
      (pending : Bool)
      → s.auth_valid ≡ true
      → (ks' : List ℕ) × (send_auth duplex_tls fuel 5000
            (if pending then cf_pending else 0)
            s
            ((before, ks), stream)
          ≡ done
              (proto_ok, ((before ++ auth_bytes (if pending then 0x41 else 0x01) s, ks'), stream)))
  unfolding send_auth flags_are_valid
  send_auth_lem true v = let r = auth_parts 0x41 in (r.0, simp v r.1)
  send_auth_lem false v = let r = auth_parts 0x01 in (r.0, simp v r.1)

-- The command byte, the size in two bytes with the low one first, and the first `n` bytes of the data.
abbrev pub status_bytes : ℕ → ℕ → List ℕ → List ℕ
status_bytes cmd n status = cmd ∷ n % 256 ∷ n / 256 % 256 ∷ take n status

module _ (fuel n : ℕ) (status before ks : List ℕ) (stream : Stream) (lo : 1 ≤ n) (hi : n ≤ 509)
    (there : n ≤ length status) (enough : n ≤ fuel) (two : 2 ≤ fuel) where
  status_parts :
      (cmd : ℕ)
      → (ks' : List ℕ) × (write_parts duplex_tls fuel 5000
            ((cmd ∷ []) ∷ le16 n ∷ take n status ∷ [])
            ((before, ks), stream)
          ≡ done (proto_ok, ((before ++ status_bytes cmd n status, ks'), stream)))
  status_parts cmd =
      let l : length (take n status) ≡ n = omega (arith, length-take n status) in
      let w =
        write_parts_lem fuel ((cmd ∷ []) ∷ le16 n ∷ take n status ∷ []) before ks stream
          (omega arith) in
      (
        w.0,
        w.1
            ∙ ap
                (λ d.
                  done (proto_ok, ((before ++ (cmd ∷ n % 256 ∷ n / 256 % 256 ∷ d), w.0), stream)))
                (append-nil (take n status)),
      )

  -- A status of at most 509 bytes, with and without an acknowledgement of the last message, is written
  -- as one message of the protocol, and `ott_send_status_to_cloud` returns PROTO_OK.
  pub send_status_lem :
      (ack : Bool)
      → (ks' : List ℕ) × (send_status duplex_tls fuel 5000
            (if ack then 0x60 else 0x40)
            n
            (some status)
            ((before, ks), stream)
          ≡ done (
            proto_ok,
            ((before ++ status_bytes (if ack then 0x62 else 0x42) n status, ks'), stream),
          ))
  unfolding send_status flags_are_valid
  send_status_lem true =
      let r = status_parts 0x62 in (r.0, rw (ge→ltb 509 n hi, ge→ltb (length status) n there) r.1)
  send_status_lem false =
      let r = status_parts 0x42 in (r.0, rw (ge→ltb 509 n hi, ge→ltb (length status) n there) r.1)
