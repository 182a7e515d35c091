-- ===== src/Ott/Tests.antt =====
-- The theorems on ott_protocol.c at concrete messages and destinations.
use ts_sdk.Prelude.{
  false, get_or, true, ℕ, ◌≡◌, refl, true, false, not, none, some, List, [], ◌∷◌, arith, replicate,
  done,
}
use ts_sdk.Sms.Types.{c_str}
use ts_sdk.SmsNas.Session.{proto_ok, proto_no_msg}
use ts_sdk.Ott.Message.{load_flags, flags_are_valid}
use ts_sdk.Ott.Flags.{flags, listed_invalid, flags_are_valid_lem}
use ts_sdk.Ott.Fragments.{poll, reported, retrieve_fragments}
use ts_sdk.Ott.Fragments.{stream_tls, Stream}
use ts_sdk.Ott.Response.{State, process_recvd_msg}
use ts_sdk.Ott.Response.Effect.{state_after, process_recvd_msg_lem}
use ts_sdk.Ott.Session.{Session, set_destination}
use ts_sdk.Ott.Session.Destination.{set_destination-host_port}

flags_are_valid_example :
    flags_are_valid (flags true false false true) ≡ not (listed_invalid true false false true)
flags_are_valid_example = flags_are_valid_lem true false false true

-- ACK and PENDING, an update of three bytes.
abbrev update : List ℕ
update = 0x63 ∷ 3 ∷ 0 ∷ 7 ∷ 8 ∷ 9 ∷ []

abbrev buffer : List ℕ
buffer = replicate 20 1

valid_update : flags_are_valid (load_flags (get_or update 0 0)) ≡ true
unfolding flags_are_valid
valid_update = refl

retrieve_fragments_example :
    (ks' : List ℕ) × (poll 6 10 20 (record {
      result = proto_no_msg;
      msg = buffer;
      recvd = 0;
      rbytes = 0;
      conn = (update, 1 ∷ 0 ∷ []);
    })
      ≡ done (
          reported update buffer 10 20 refl refl
            (omega arith)
            (omega arith)
            valid_update
            (omega arith)
            refl
            (omega arith)
            ks'))
retrieve_fragments_example =
    retrieve_fragments update buffer 10 20 refl refl (omega arith) (omega arith) valid_update
      (omega arith) refl (omega arith) 0 (1 ∷ 0 ∷ [])

abbrev pub fresh : Session
fresh = record {
  conn_done = false;
  auth_done = false;
  pend_bit = false;
  pend_ack = false;
  nack_sent = false;
  host = replicate 51 b'x';
  port = replicate 6 b'9';
  send_svc_id = 0;
  rcv_buf = none;
  rcv_sz = 0;
  send_buf = none;
  send_sz = 0;
  has_rcv_cb = false;
  has_send_cb = false;
  auth_valid = false;
  serv_auth_valid = false;
  dev_id = replicate 16 0;
  d_sec = replicate 32 0;
  current_polling_interval = 15000;
}

set_destination-host_port_example :
    let (res, s') = set_destination (some (b'a' ∷ b'b' ∷ b':' ∷ b'8' ∷ b'0' ∷ 0 ∷ [])) fresh in
    (res ≡ proto_ok) × (c_str s'.host ≡ b'a' ∷ b'b' ∷ []) × (c_str s'.port ≡ b'8' ∷ b'0' ∷ [])
set_destination-host_port_example =
    set_destination-host_port (b'a' ∷ b'b' ∷ []) (b'8' ∷ b'0' ∷ [])
      (b'a' ∷ b'b' ∷ b':' ∷ b'8' ∷ b'0' ∷ 0 ∷ []) fresh refl (omega arith, (omega arith, tt))
      (omega arith, (omega arith, tt)) (omega arith, (omega arith, tt)) (omega arith) (omega arith)
      (omega arith) (omega arith) refl

-- An ACK for the authentication, with an update and with the end of the session.
abbrev last_update : List ℕ
last_update = 0xA3 ∷ 1 ∷ 0 ∷ 7 ∷ []

abbrev connected : State Stream
connected = record {
  session = record fresh { conn_done = true; has_rcv_cb = true };
  recvd = 0;
  conn = ([], []);
}

process_recvd_msg_example :
    process_recvd_msg stream_tls (λ c st. st) last_update 4 false connected
    ≡ done (true, state_after stream_tls (λ c st. st) (λ c st. refl) true false true connected)
process_recvd_msg_example =
    process_recvd_msg_lem stream_tls (λ c st. st) (λ c st. refl) false true false true last_update 4
      false connected refl refl refl
