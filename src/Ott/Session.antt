-- ===== src/Ott/Session.antt =====
-- The session of ott_protocol.c and the operations that set it up.
pub mod Destination
use ts_sdk.Prelude.{
  ℕ, zero, suc, ◌+◌, ◌-◌, ◌*◌, ◌/◌, ◌%◌, ◌^◌, ◌≤◌, ◌<◌, min, ◌≡◌, refl, sym, ap, ap₂, ◌∙◌, subst,
  ◌≢◌, ◌↔◌, ◌⊎◌, inl, inr, Bool, true, false, not, ◌&&◌, ◌||◌, Option, none, some, List, [], ◌∷◌,
  ◌++◌, map, append-nil, append_assoc, arith, dec_lt, ℕ_discrete, ltb, leb, ◌==◌, if◌then◌else◌,
  ltb→lt, lt→ltb, leb→le, ==_iff, Bool-cases, Option-cases, length, get_elem?, get_or, set, take,
  drop, replicate, length-append, length-set, length-take, length-drop, length-replicate,
  take-append-drop, get_elem?-eq-get_or, get_or-set_self, get_or-set_ne, write_at, elem_index,
  get_or_index, get_or-append_right, take-length, drop-length, drop-append, take-append, put_at,
  length-put_at, put_at-zero, put_at_snoc, Outcome, done, failed, fault, hang, ◌>>=◌, on_fail, load,
  store, store_lem, load_lem, load_outside, get_elem?_outside, copy_from, copy_to, copy_from_lem,
  copy_to_lem, copy_from_outside, le→leb, gt→leb, ge→ltb, drop_add, take_all, take_add, get_or-take,
  length-write_at, take-write_at,
}
use ts_sdk.Sms.Types.{c_str}
use ts_sdk.SmsNas.Session.{ProtoResult, proto_ok, proto_inv_param}

-- ott_def.h.
abbrev pub max_host_len : ℕ
max_host_len = 50

abbrev pub max_port_len : ℕ
max_port_len = 5

abbrev pub ott_uuid_sz : ℕ
ott_uuid_sz = 16

abbrev pub ott_dev_sc_sz : ℕ
ott_dev_sc_sz = 32

-- The service identifiers of service_ids.h.
abbrev pub cc_service_basic : ℕ
cc_service_basic = 1

abbrev pub cc_service_control : ℕ
cc_service_control = 0

-- The static `session`, with the static `auth` and `current_polling_interval`. A buffer is what stands
-- in it, `none` for NULL; of the callbacks it is kept whether they are set.
pub record Session : Type 0 where
  pub conn_done : Bool
  pub auth_done : Bool
  pub pend_bit : Bool
  pub pend_ack : Bool
  pub nack_sent : Bool
  pub host : List ℕ
  pub port : List ℕ
  pub send_svc_id : ℕ
  pub rcv_buf : Option (List ℕ)
  pub rcv_sz : ℕ
  pub send_buf : Option (List ℕ)
  pub send_sz : ℕ
  pub has_rcv_cb : Bool
  pub has_send_cb : Bool
  pub auth_valid : Bool
  pub serv_auth_valid : Bool
  pub dev_id : List ℕ
  pub d_sec : List ℕ
  pub current_polling_interval : ℕ

-- `ott_reset_state`.
unfoldable pub reset_state : Session → Session
reset_state s = record s {
  send_buf = none;
  send_sz = 0;
  has_send_cb = false;
  send_svc_id = cc_service_basic;
  conn_done = false;
  auth_done = false;
  pend_bit = false;
  pend_ack = false;
  nack_sent = false;
}

-- `ott_init_state`.
pub init_state : Session → Session
init_state s = record s {
  host = set s.host 0 0;
  port = set s.port 0 0;
  conn_done = false;
  auth_done = false;
  pend_bit = false;
  pend_ack = false;
  nack_sent = false;
  auth_valid = false;
  serv_auth_valid = false;
}

-- `ott_set_own_auth`; a pointer that is not NULL is the memory behind it.
pub set_own_auth :
    Option (List ℕ) → ℕ → Option (List ℕ) → ℕ → Session → Outcome (ProtoResult × Session)
set_own_auth none d_id_sz d_sec d_sec_sz s = done (proto_inv_param, s)
set_own_auth (some d_id) d_id_sz none d_sec_sz s = done (proto_inv_param, s)
set_own_auth (some d_id) d_id_sz (some d_sec) d_sec_sz s =
    if not (d_id_sz == ott_uuid_sz)
      || not (d_sec_sz == ott_dev_sc_sz)
      || ltb 509 (d_sec_sz + d_id_sz)
    then done (proto_inv_param, s)
    else (do
      id ← copy_from d_id 0 d_id_sz
      sec ← copy_from d_sec 0 d_sec_sz
      done (proto_ok, record s { dev_id = id; d_sec = sec; auth_valid = true }))

abbrev pub next_index : Option ℕ → Option ℕ
next_index none = none
next_index (some i) = some (i + 1)

-- `strchr`: the index of the first such character.
abbrev pub strchr : List ℕ → ℕ → Option ℕ
strchr [] c = none
strchr (x ∷ xs) c = if x == c then some 0 else next_index (strchr xs c)

-- `ott_set_destination` behind the search for the delimiter, which stands at `hlen`.
abbrev pub set_host_port : List ℕ → ℕ → Session → ProtoResult × Session
set_host_port text hlen s =
    let port = drop (hlen + 1) text in
    let plen = length port in
    if ltb max_host_len hlen || hlen == 0
    then (proto_inv_param, s)
    else if ltb max_port_len plen || plen == 0
    then (proto_inv_param, s)
    else (
      proto_ok,
      record s {
        host = set (write_at s.host 0 (take hlen text)) hlen 0;
        port = take (max_port_len + 1) (port ++ replicate (max_port_len + 1) 0);
      },
    )

-- `ott_set_destination`.
unfoldable pub set_destination : Option (List ℕ) → Session → ProtoResult × Session
set_destination none s = (proto_inv_param, s)
set_destination (some dest) s = elim (strchr (c_str dest) b':') [
  | none ↦ (proto_inv_param, s)
  | some hlen ↦ set_host_port (c_str dest) hlen s
]

-- `ott_set_recv_buffer_cb`.
pub set_recv_buffer_cb : Option (List ℕ) → ℕ → Bool → Session → ProtoResult × Session
set_recv_buffer_cb none sz cb s = (proto_inv_param, s)
set_recv_buffer_cb (some buf) sz cb s =
    if ltb 512 sz
    then (proto_inv_param, s)
    else (proto_ok, record s { rcv_buf = some buf; rcv_sz = sz; has_rcv_cb = cb })

-- `ott_send_ack`.
abbrev pub send_ack : Session → Session
send_ack s = record s { pend_ack = true }

-- `ott_set_polling_interval`, between 10 seconds and 2 days.
pub set_polling_interval : ℕ → Session → Session
set_polling_interval interval_ms s =
    if ltb interval_ms 10000 || ltb (2 * 24 * 60 * 60 * 1000) interval_ms
    then s
    else record s { current_polling_interval = interval_ms }
