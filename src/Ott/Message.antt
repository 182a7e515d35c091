-- ===== src/Ott/Message.antt =====
-- The command byte and the messages of ott_protocol.c, and its sending and receiving through TLS.
-- The TLS connection is a parameter: `ssl_write` and `ssl_read` of mbedtls with a state of their own.
use ts_sdk.Prelude.{
  ℕ, zero, suc, ◌+◌, ◌-◌, ◌*◌, ◌%◌, ◌^◌, Bool, true, false, not, ◌||◌, Option, none, some, List, [],
  ◌∷◌, ltb, leb, ◌==◌, if◌then◌else◌, get_or, take, drop, Outcome, done, hang, ◌>>=◌, copy_to,
}
use Prim.Native.Nat.{bit_and, bit_or}
use ts_sdk.SmsNas.Session.{
  is_ok, ProtoResult, proto_ok, proto_error, proto_timeout, proto_no_msg, proto_inv_param,
}

-- ott_limits.h and ott_def.h.
abbrev pub proto_data_sz : ℕ
proto_data_sz = 512 - 3

-- `c_flags_t`.
abbrev pub cf_nack : ℕ
cf_nack = 0x10

abbrev pub cf_ack : ℕ
cf_ack = 0x20

abbrev pub cf_pending : ℕ
cf_pending = 0x40

abbrev pub cf_quit : ℕ
cf_quit = 0x80

-- `m_type_t`.
abbrev pub mt_none : ℕ
mt_none = 0

abbrev pub mt_update : ℕ
mt_update = 3

abbrev pub mt_cmd_pi : ℕ
mt_cmd_pi = 10

abbrev pub mt_cmd_sl : ℕ
mt_cmd_sl = 11

-- OTT_FLAG_IS_SET.
abbrev pub flag_is_set : ℕ → ℕ → Bool
flag_is_set var flag = if flag == 0 then var == 0 else bit_and var flag == flag

-- OTT_LOAD_FLAGS and OTT_LOAD_MTYPE.
abbrev pub load_flags : ℕ → ℕ
load_flags cmd = bit_and (cmd % 256) 0xF0

abbrev pub load_mtype : ℕ → ℕ
load_mtype cmd = bit_and (cmd % 256) 0x0F

-- `flags_are_valid`.
unfoldable pub flags_are_valid : ℕ → Bool
flags_are_valid f =
    if flag_is_set f (bit_or cf_nack cf_ack)
      || flag_is_set f (bit_or cf_nack cf_pending)
      || flag_is_set f (bit_or cf_pending cf_quit)
    then false
    else true

-- `msg->data.array.sz`, two bytes behind the command byte, the low one first.
abbrev pub array_sz : List ℕ → ℕ
array_sz msg = get_or msg 1 0 + 256 * get_or msg 2 0

-- `msg_is_valid` on the bytes of the message buffer.
unfoldable pub msg_is_valid : List ℕ → Bool
msg_is_valid msg =
    let m_type = load_mtype (get_or msg 0 0) in
    if not (flags_are_valid (load_flags (get_or msg 0 0)))
    then false
    else if m_type == mt_update
    then (if ltb proto_data_sz (array_sz msg) then false else true)
    else m_type == mt_cmd_pi || m_type == mt_cmd_sl || m_type == mt_none

-- `msg_is_complete` with `recvd` bytes in the buffer.
unfoldable pub msg_is_complete : List ℕ → ℕ → Bool
msg_is_complete msg recvd =
    let m_type = load_mtype (get_or msg 0 0) in
    if m_type == mt_none
    then recvd == 1
    else if m_type == mt_cmd_pi
    then recvd == 5
    else if m_type == mt_cmd_sl
    then recvd == 5
    else if m_type == mt_update
    then (if ltb recvd 4 then false else recvd - 3 == array_sz msg)
    else false

-- What a call of mbedtls gives: a number of bytes, WANT_READ or WANT_WRITE, CLOSE_NOTIFY, or another
-- error.
pub data SslResult : Type 0 where
  count : ℕ → SslResult
  want_more close_notify ssl_error : SslResult

-- What a call of mbedtls needs from the connection: `mbedtls_ssl_write`, `mbedtls_ssl_read` (at most so
-- many bytes), `mbedtls_ssl_session_reset`, closing with its notification, and the clock.
pub record Tls {ℓ} (T : Type ℓ) : Type ℓ where
  pub ssl_write : List ℕ → T → SslResult × T
  pub ssl_read : ℕ → T → SslResult × List ℕ × T
  pub session_reset : T → T
  pub close_notify_ok : T → Bool × T
  pub tick : T → ℕ × T

-- The size of the next read; `recvd` is a `uint32_t`.
abbrev pub room_left : ℕ → ℕ → ℕ
room_left sz recvd = (sz + 2 ^ 32 - recvd) % 2 ^ 32

abbrev pub sent_bytes : SslResult → ℕ
sent_bytes (count n) = n
sent_bytes want_more = 0
sent_bytes close_notify = 0
sent_bytes ssl_error = 0

-- A negative result that is neither WANT_READ nor WANT_WRITE.
abbrev pub write_failed : SslResult → Bool
write_failed (count n) = false
write_failed want_more = false
write_failed close_notify = true
write_failed ssl_error = true

module _ {ℓ} {T : Type ℓ} (tls : Tls T) where
  -- The loop of `write_tls`: `nbytes` is a `uint16_t`.
  unfoldable pub write_loop : ℕ → ℕ → List ℕ → ℕ → ℕ → ℕ → T → Outcome (ProtoResult × T)
  write_loop zero timeout_ms buf len start nbytes t = hang
  write_loop (suc fuel) timeout_ms buf len start nbytes t =
      let w = tls.ssl_write (take (len - nbytes) (drop nbytes buf)) t in
      let now = tls.tick w.1 in
      let nbytes' = (nbytes + sent_bytes w.0) % 2 ^ 16 in
      let rest = write_loop fuel timeout_ms buf len start nbytes' now.1 in
      if write_failed w.0
      then done (proto_error, tls.session_reset w.1)
      else if leb timeout_ms ((now.0 + 2 ^ 64 - start) % 2 ^ 64)
      then done (proto_timeout, tls.session_reset now.1)
      else if ltb nbytes' len
      then rest
      else done (proto_ok, now.1)

  -- `write_tls` with TIMEOUT_MS; the rounds until then are at most `fuel`.
  unfoldable pub write_tls : ℕ → ℕ → List ℕ → ℕ → T → Outcome (ProtoResult × T)
  write_tls fuel timeout_ms buf len t =
      let start = tls.tick t in write_loop fuel timeout_ms buf len start.0 0 start.1

  -- `ott_send_ctrl_msg`.
  unfoldable pub send_ctrl_msg : ℕ → ℕ → ℕ → T → Outcome (ProtoResult × T)
  send_ctrl_msg fuel timeout_ms c_flags t =
      if not (flags_are_valid c_flags)
      then done (proto_inv_param, t)
      else write_tls fuel timeout_ms (bit_or c_flags mt_none % 256 ∷ []) 1 t

  -- `ott_close_connection`.
  unfoldable pub close_connection : T → ProtoResult × T
  close_connection t = let c = tls.close_notify_ok t in (if c.0 then proto_ok else proto_error, c.1)

  -- What `ott_retrieve_msg` leaves: its result, the message buffer, the static `recvd`, `*rbytes`.
  pub record Retrieved : Type ℓ where
    pub result : ProtoResult
    pub msg : List ℕ
    pub recvd : ℕ
    pub rbytes : ℕ
    pub conn : T

  -- The branch of `ott_retrieve_msg` for `n` bytes that came in; `msg` has them already.
  unfoldable pub retrieve_bytes : ℕ → ℕ → List ℕ → ℕ → ℕ → T → Outcome Retrieved
  retrieve_bytes fuel timeout_ms msg recvd rbytes t =
      if msg_is_complete msg (recvd % 2 ^ 16)
      then (if not (msg_is_valid msg)
          then (do
            c ← send_ctrl_msg fuel timeout_ms (bit_or cf_nack cf_quit) t
            done (record {
              result = proto_error;
              msg = msg;
              recvd = 0;
              rbytes = recvd;
              conn = (close_connection c.1).1;
            }))
          else done (record { result = proto_ok; msg = msg; recvd = 0; rbytes = recvd; conn = t }))
      else done
          (record { result = proto_no_msg; msg = msg; recvd = recvd; rbytes = rbytes; conn = t })

  -- `ott_retrieve_msg(msg, sz, rbytes)`.
  unfoldable pub retrieve_msg : ℕ → ℕ → Option (List ℕ) → ℕ → ℕ → ℕ → T → Outcome Retrieved
  retrieve_msg fuel timeout_ms none sz recvd rbytes t =
      done (record { result = proto_inv_param; msg = []; recvd = recvd; rbytes = rbytes; conn = t })
  retrieve_msg fuel timeout_ms (some msg) sz recvd rbytes t =
      if ltb sz 4 || ltb 512 sz
      then done
          (record { result = proto_inv_param; msg = msg; recvd = recvd; rbytes = rbytes; conn = t })
      else (let r = tls.ssl_read (room_left sz recvd) t in
          elim (r.0) [
            | want_more ↦ done (record {
              result = proto_no_msg;
              msg = msg;
              recvd = recvd;
              rbytes = rbytes;
              conn = r.2;
            })
            | close_notify ↦
                let c = close_connection r.2 in
                done (record {
                  result = if is_ok c.0 then proto_no_msg else proto_error;
                  msg = msg;
                  recvd = recvd;
                  rbytes = rbytes;
                  conn = c.1;
                })
            | ssl_error ↦ done (record {
              result = proto_error;
              msg = msg;
              recvd = recvd;
              rbytes = rbytes;
              conn = tls.session_reset r.2;
            })
            | count n ↦ (do
              msg' ← copy_to msg recvd r.1
              let more = retrieve_bytes fuel timeout_ms msg' (recvd + n) rbytes r.2
              if n == 0
                  then done (record {
                    result = proto_ok;
                    msg = msg;
                    recvd = recvd;
                    rbytes = rbytes;
                    conn = r.2;
                  })
                  else more)
          ])
