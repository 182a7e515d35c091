-- ===== src/Ott/Setup.antt =====
-- Starting ott_protocol.c, and the credentials of the server. What it needs of mbedtls for that is a
-- parameter.
use ts_sdk.Prelude.{ℕ, Bool, true, false, not, Option, none, some, List, ◌==◌, if◌then◌else◌, drop}
use ts_sdk.SmsNas.Session.{ProtoResult, proto_ok, proto_error, proto_inv_param}
use ts_sdk.Ott.Session.{Session, init_state}

-- The initialisation of the structures, `mbedtls_ctr_drbg_seed` and `mbedtls_ssl_config_defaults` with
-- their success, the settings, `mbedtls_x509_crt_parse_der`, `mbedtls_ssl_conf_ca_chain`, and the
-- functions that free.
pub record Conf {ℓ} (T : Type ℓ) : Type ℓ where
  pub init_structures : T → T
  pub seed : T → Bool × T
  pub config_defaults : T → Bool × T
  pub conf_auth_rng : T → T
  pub parse_der : List ℕ → ℕ → T → Bool × T
  pub conf_ca_chain : T → T
  pub free_all : T → T

module _ {ℓ} {T : Type ℓ} (conf : Conf T) where
  -- `ott_protocol_init`.
  pub protocol_init : Session → T → ProtoResult × Session × T
  protocol_init s t =
      let s1 = init_state s in
      let seeded = conf.seed (conf.init_structures t) in
      let set = conf.config_defaults seeded.1 in
      if not seeded.0
      then (proto_error, s1, conf.free_all seeded.1)
      else if not set.0
      then (proto_error, s1, conf.free_all set.1)
      else (proto_ok, s1, conf.conf_auth_rng set.1)

  -- `ott_set_remote_auth`; the certificate is `none` for NULL.
  pub set_remote_auth : Option (List ℕ) → ℕ → Session → T → ProtoResult × Session × T
  set_remote_auth none cert_len s t = (proto_inv_param, record s { serv_auth_valid = false }, t)
  set_remote_auth (some cert) cert_len s t =
      let s1 = record s { serv_auth_valid = false } in
      let parsed = conf.parse_der cert cert_len t in
      if cert_len == 0
      then (proto_inv_param, s1, t)
      else if not parsed.0
      then (proto_error, s1, conf.free_all parsed.1)
      else (proto_ok, record s1 { serv_auth_valid = true }, conf.conf_ca_chain parsed.1)

-- `ott_get_rcv_buffer_ptr`, behind the bytes of the protocol.
pub get_rcv_buffer_ptr : Option (List ℕ) → Option (List ℕ)
get_rcv_buffer_ptr none = none
get_rcv_buffer_ptr (some msg) = some (drop 3 msg)
