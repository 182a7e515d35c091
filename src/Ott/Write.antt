-- ===== src/Ott/Write.antt =====
-- `write_tls` on a connection that takes the bytes in parts.
use ts_sdk.Prelude.{
  take-take, ℕ, zero, suc, ◌+◌, ◌-◌, ◌%◌, ◌^◌, ◌≤◌, ◌<◌, ◌≡◌, sym, ap, ◌∙◌, inl, inr, true, List,
  [], ◌++◌, append-nil, append_assoc, arith, ltb, ltb→lt, Bool-cases, length, take, drop,
  length-take, length-drop, done, take_add,
}
use ts_sdk.SmsNas.Session.{proto_ok}
use ts_sdk.Ott.Message.{Tls, count, write_loop, write_tls}
use ts_sdk.Ott.Fragments.{fragment, fragment_lem, rest_sizes}

-- A connection that takes at least one byte at each call and at most the given sizes, before any time
-- has passed; its state is what has been written, and the sizes.
abbrev pub Sink : Type 0
Sink = List ℕ × List ℕ

abbrev pub sink_tls : Tls Sink
sink_tls = record {
  ssl_write = λ bytes t. (
    count (fragment (length bytes) (bytes, t.1)),
    (t.0 ++ take (fragment (length bytes) (bytes, t.1)) bytes, rest_sizes t.1),
  );
  ssl_read = λ most t. (count 0, [], t);
  session_reset = λ t. t;
  close_notify_ok = λ t. (true, t);
  tick = λ t. (0, t);
}

pub write_loop_lem :
    (fuel : ℕ) (buf : List ℕ) (len n : ℕ) (before ks : List ℕ)
    → n < len
    → len ≤ n + fuel
    → len ≤ length buf
    → len < 2 ^ 16
    → (ks' : List ℕ) × (write_loop sink_tls fuel 5000 buf len 0 n (before ++ take n buf, ks)
        ≡ done (proto_ok, (before ++ take len buf, ks')))
unfolding write_loop
write_loop_lem zero buf len n before ks h e l w = absurd (omega arith)
write_loop_lem (suc fuel) buf len n before ks h e l w =
    let bytes = take (len - n) (drop n buf) in
    let lb : length bytes ≡ len - n =
      omega (arith, length-take (len - n) (drop n buf), length-drop n buf) in
    let f = fragment (length bytes) (bytes, ks) in
    let (lo, hi) = fragment_lem (length bytes) bytes ks (omega arith) (omega arith) in
    let small : (n + f) % 2 ^ 16 ≡ n + f = omega arith in
    let n' = (n + f) % 2 ^ 16 in
    let part : before ++ take n buf ++ take f bytes ≡ before ++ take n' buf =
      append_assoc before (take n buf) (take f bytes)
      ∙ ap (λ b. before ++ b)
          (ap (λ b. take n buf ++ b) (take-take f (len - n) (drop n buf) (omega arith))
            ∙ sym (take_add {n = n'} n f buf small)) in
    elim (Bool-cases (ltb n' len)) [
      | inl more ↦
          let m : n' < len = ltb→lt n' len more in
          let rest = write_loop_lem fuel buf len n' before (rest_sizes ks) m (omega arith) l w in
          (rest.0, rw (more, part) rest.1)
      | inr last ↦
          let m : n' ≡ len = ground arith in
          (
            rest_sizes ks,
            rw (last, part) (ap (λ k. done (proto_ok, (before ++ take k buf, rest_sizes ks))) m),
          )
    ]

-- On such a connection `write_tls` returns PROTO_OK with exactly the `len` bytes of the buffer written
-- behind what was written before, in order, in at most one round for each byte.
pub write_tls_lem :
    (buf : List ℕ) (len : ℕ) (before ks : List ℕ)
    → 1 ≤ len
    → len ≤ length buf
    → len < 2 ^ 16
    → (ks' : List ℕ) × (write_tls sink_tls len 5000 buf len (before, ks)
        ≡ done (proto_ok, (before ++ take len buf, ks')))
unfolding write_tls
write_tls_lem buf len before ks h l w =
    let r = write_loop_lem len buf len 0 before ks h (omega arith) l w in
    (
      r.0,
      ap (λ b. write_loop sink_tls len 5000 buf len 0 0 (b, ks)) (sym (append-nil before)) ∙ r.1,
    )
