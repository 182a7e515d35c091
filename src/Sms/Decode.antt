-- ===== src/Sms/Decode.antt =====
-- The decoder of smscodec.c: `decode_addr`, `decode_ud` and `smscodec_decode`.
pub mod Fields
pub mod RoundTrip
pub mod Overrun
use Prim.Native.Nat.{bit_and}
use ts_sdk.Prelude.{
  Outcome, done, failed, hang, ◌>>=◌, on_fail, load, store, ℕ, zero, suc, ◌+◌, ◌-◌, ◌*◌, ◌%◌, ◌^◌,
  Bool, ◌&&◌, ◌||◌, Option, some, List, if◌then◌else◌, ltb, ◌==◌, length, drop,
}
use ts_sdk.Sms.Types.{Sms, udhl_val}
use ts_sdk.Sms.Hex.{hexbyte}
use ts_sdk.Sms.Encode.{fo_udhi_present, pid_val, dcs_val, udh_iei_concat, udh_iei_concat_len}

abbrev pub isdn_num_type : ℕ
isdn_num_type = 0x91

abbrev pub scts_len : ℕ
scts_len = 7

-- FO_TYPE_SMS_DELIVER | FO_MMS_FALSE | FO_LP_INACTIVE | FO_SRI_NO_REPORT | FO_RP_NOT_SET
abbrev pub deliver_first_octet : ℕ
deliver_first_octet = 0x04

-- The loop of `decode_addr`; `i` is of type `uint8_t`. The result is the address buffer.
pub decode_digits : ℕ → ℕ → ℕ → List ℕ → List ℕ → Outcome (List ℕ)
decode_digits zero len i pdu addr = hang
decode_digits (suc fuel) len i pdu addr =
    let round = (do
      second ← load pdu (i + 1)
      addr' ← store addr i second
      first ← load pdu i
      addr'' ← if first == b'F' || first == b'f' then done addr' else store addr' (i + 1) first
      decode_digits fuel len ((i + 2) % 256) pdu addr'') in
    if ltb i len then round else done addr

-- `decode_addr`: the address buffer, and the memory from the moved pointer on. 129 rounds cover
-- every `uint8_t` length for which the loop ends.
unfoldable pub decode_addr : List ℕ → List ℕ → Outcome (List ℕ × List ℕ)
decode_addr pdu addr = do
  l ← hexbyte pdu
  t ← hexbyte l.1
  digits ← if t.0 == isdn_num_type then decode_digits 129 l.0 0 t.1 addr else failed
  addr' ← store digits l.0 0
  done (addr', drop ((l.0 + l.0 % 2) % 256) t.1)

-- The loops of `decode_ud` that fill `recv_msg->buf`, with `n` bytes to go, at index `i`.
pub decode_bytes : ℕ → ℕ → List ℕ → List ℕ → Outcome (List ℕ × List ℕ)
decode_bytes zero i pdu buf = done (buf, pdu)
decode_bytes (suc n) i pdu buf = do
  v ← hexbyte pdu
  buf' ← store buf i v.0
  decode_bytes n (i + 1) v.1 buf'

-- A header byte with a fixed value.
abbrev pub expect : ℕ → List ℕ → Outcome (List ℕ)
expect want pdu = do v ← hexbyte pdu; if v.0 == want then done v.1 else failed

-- `decode_ud(rem_len, &pdu, recv_msg)` with the static `udh_present`; `buf` is `recv_msg->buf`.
unfoldable pub decode_ud : Bool → ℕ → List ℕ → List ℕ → Sms → Outcome Sms
decode_ud udh_present rem_len pdu buf m = do
  l ← hexbyte pdu
  p0 ← if rem_len == (l.0 + 1) * 2 then done l.1 else failed
  if udh_present
      then (do
        let n = (l.0 + 256 - udhl_val - 1) % 256
        p1 ← expect udhl_val p0
        p2 ← expect udh_iei_concat p1
        p3 ← expect udh_iei_concat_len p2
        ref ← hexbyte p3
        num ← hexbyte ref.1
        seq ← hexbyte num.1
        b ← decode_bytes n 0 seq.1 buf
        done
            (record m { len = n; buf = some b.0; ref_no = ref.0; num_seg = num.0; seq_no = seq.0 }))
      else (do
        b ← decode_bytes l.0 0 p0 buf
        done (record m { len = l.0; buf = some b.0; ref_no = 0; num_seg = 1; seq_no = 0 }))

-- The body of `smscodec_decode` behind its NULL checks.
pub decode_pdu : ℕ → List ℕ → List ℕ → List ℕ → Sms → Outcome Sms
decode_pdu len mem buf addr m = do
  smsc ← hexbyte mem
  fo ← hexbyte (drop (smsc.0 * 2) smsc.1)
  r1 ← if bit_and fo.0 0xBF == deliver_first_octet then done fo.1 else failed
  a ← decode_addr r1 addr
  pid ← hexbyte a.1
  dcs ← hexbyte pid.1
  r2 ← if pid.0 == pid_val && dcs.0 == dcs_val then done (drop (scts_len * 2) dcs.1) else failed
  decode_ud (bit_and fo.0 fo_udhi_present == fo_udhi_present)
      ((len + 2 ^ 16 - (length mem - length r2)) % 2 ^ 16) r2 buf (record m { addr = some a.0 })

-- `smscodec_decode(len, pdu, recv_msg)`. The lists are the memory behind `pdu`, `recv_msg->buf`
-- and `recv_msg->addr`. What a failing call leaves in `*recv_msg` is not modelled.
unfoldable pub decode : ℕ → Option (List ℕ) → Option Sms → Outcome Sms
decode len pdu recv_msg = do
  mem ← on_fail pdu
  m ← on_fail recv_msg
  buf ← on_fail m.buf
  addr ← on_fail m.addr
  decode_pdu len mem buf addr m
