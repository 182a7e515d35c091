-- ===== src/Ott/Connect.antt =====
-- How ott_protocol.c connects, authenticates and writes its messages. What it needs of mbedtls for a
-- connection beyond reading and writing is a parameter.
pub mod Late
pub mod Layout
use ts_sdk.Prelude.{
  ℕ, zero, suc, ◌+◌, ◌-◌, ◌/◌, ◌%◌, ◌^◌, Bool, true, false, not, ◌&&◌, ◌||◌, Option, none, some,
  List, [], ◌∷◌, ltb, if◌then◌else◌, length, take, Outcome, done, fault, hang, ◌>>=◌,
}
use Prim.Native.Nat.{bit_or}
use ts_sdk.SmsNas.Session.{
  ProtoResult, proto_ok, proto_error, proto_timeout, proto_no_msg, proto_inv_param,
}
use ts_sdk.Ott.Message.{
  Tls, SslResult, count, want_more, close_notify, ssl_error, write_tls, flags_are_valid,
  flag_is_set, cf_quit, proto_data_sz,
}
use ts_sdk.Ott.Session.{Session, ott_uuid_sz, ott_dev_sc_sz}

abbrev pub version_byte : ℕ
version_byte = 1

-- `m_type_t` of the messages that the device sends.
abbrev pub mt_auth : ℕ
mt_auth = 1

abbrev pub mt_status : ℕ
mt_status = 2

abbrev pub mt_restarted : ℕ
mt_restarted = 4

-- `mbedtls_net_connect`, `mbedtls_ssl_setup` and `mbedtls_ssl_set_hostname` with their success,
-- `mbedtls_ssl_handshake`, of which `count 0` is the success, and the functions that free.
pub record Net {ℓ} (T : Type ℓ) : Type ℓ where
  pub net_connect : (host port : List ℕ) → T → Bool × T
  pub ssl_setup : T → Bool × T
  pub set_hostname : List ℕ → T → Bool × T
  pub handshake : T → SslResult × T
  pub ssl_free : T → T
  pub net_free : T → T

-- A result that stops a sequence of writes.
abbrev pub stops : ProtoResult → Bool
stops proto_ok = false
stops proto_error = true
stops proto_timeout = true
stops proto_no_msg = false
stops proto_inv_param = false

-- A number of 16 bits, the low byte first.
abbrev pub le16 : ℕ → List ℕ
le16 n = n % 256 ∷ n / 256 % 256 ∷ []

-- How the handshake stands.
pub data Shake : Type 0 where
  complete again broken : Shake

abbrev pub shake : SslResult → Shake
shake (count zero) = complete
shake (count (suc n)) = broken
shake want_more = again
shake close_notify = broken
shake ssl_error = broken

module _ {ℓ} {T : Type ℓ} (tls : Tls T) (net : Net T) where
  abbrev pub give_up : T → T
  give_up t = net.net_free (net.ssl_free (tls.session_reset t))

  -- The handshake loop of `ott_initiate_connection`, with its last result; `start` is a `uint32_t`, the
  -- time a `uint64_t`.
  unfoldable pub handshake_loop : ℕ → ℕ → (start : ℕ) → SslResult → T → Outcome (ProtoResult × T)
  handshake_loop zero timeout_ms start ret t = hang
  handshake_loop (suc fuel) timeout_ms start ret t =
      let now = tls.tick t in
      let h = net.handshake (now.1) in
      let rest = handshake_loop fuel timeout_ms start h.0 h.1 in
      elim (shake ret) [
        | complete ↦ done (proto_ok, t)
        | broken ↦ done (proto_error, give_up t)
        | again ↦
            if ltb timeout_ms ((now.0 + 2 ^ 64 - start) % 2 ^ 64)
            then done (proto_timeout, give_up now.1)
            else rest
      ]

  -- `ott_initiate_connection` of a host and a port.
  unfoldable pub initiate_connection : ℕ → ℕ → (host port : List ℕ) → T → Outcome (ProtoResult × T)
  unfolding handshake_loop
  initiate_connection fuel timeout_ms host port t =
      let c = net.net_connect host port t in
      let s = net.ssl_setup (c.1) in
      let n = net.set_hostname host s.1 in
      let h = net.handshake (n.1) in
      let start = tls.tick h.1 in
      if not c.0
      then done (proto_error, net.net_free c.1)
      else if not s.0
      then done (proto_error, net.net_free s.1)
      else if not n.0
      then done (proto_error, n.1)
      else handshake_loop fuel timeout_ms (start.0 % 2 ^ 32) h.0 start.1

module _ {ℓ} {T : Type ℓ} (tls : Tls T) where
  -- WRITE_AND_RETURN_ON_ERROR for each of the parts.
  unfoldable pub write_parts : ℕ → ℕ → List (List ℕ) → T → Outcome (ProtoResult × T)
  write_parts fuel timeout_ms [] t = done (proto_ok, t)
  write_parts fuel timeout_ms (part ∷ parts) t = do
    w ← write_tls tls fuel timeout_ms part (length part) t
    let rest = write_parts fuel timeout_ms parts w.1
    if stops w.0 then done w else rest

  -- `ott_send_auth_to_cloud`.
  unfoldable pub send_auth : ℕ → ℕ → ℕ → Session → T → Outcome (ProtoResult × T)
  send_auth fuel timeout_ms c_flags s t =
      if not s.auth_valid && not s.serv_auth_valid
      then done (proto_error, t)
      else if not (flags_are_valid c_flags) || flag_is_set c_flags cf_quit
      then done (proto_error, t)
      else write_parts fuel timeout_ms
          ((version_byte ∷ [])
            ∷ (bit_or c_flags mt_auth % 256 ∷ [])
            ∷ take ott_uuid_sz s.dev_id
            ∷ le16 ott_dev_sc_sz
            ∷ take ott_dev_sc_sz s.d_sec
            ∷ [])
          t

  -- `ott_send_status_to_cloud`; the size is a `uint16_t`, and the memory of the status is `none` for
  -- NULL. Fewer bytes than the size are read outside.
  unfoldable pub send_status : ℕ → ℕ → ℕ → ℕ → Option (List ℕ) → T → Outcome (ProtoResult × T)
  send_status fuel timeout_ms c_flags status_sz none t = done (proto_inv_param, t)
  send_status fuel timeout_ms c_flags status_sz (some status) t =
      if not (flags_are_valid c_flags) || flag_is_set c_flags cf_quit || ltb proto_data_sz status_sz
      then done (proto_inv_param, t)
      else if ltb (length status) status_sz
      then fault
      else write_parts fuel timeout_ms
          ((bit_or c_flags mt_status % 256 ∷ []) ∷ le16 status_sz ∷ take status_sz status ∷ []) t

  -- `ott_send_restarted`.
  unfoldable pub send_restarted : ℕ → ℕ → ℕ → T → Outcome (ProtoResult × T)
  send_restarted fuel timeout_ms c_flags t =
      if not (flags_are_valid c_flags)
      then done (proto_inv_param, t)
      else write_parts fuel timeout_ms ((bit_or c_flags mt_restarted % 256 ∷ []) ∷ []) t
