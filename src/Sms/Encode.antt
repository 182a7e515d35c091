-- ===== src/Sms/Encode.antt =====
-- The encoder of smscodec.c: `encode_addr`, `encode_ud` and `smscodec_encode`.
pub mod Address
pub mod UserData
pub mod Layout
use Prim.Native.Nat.{bit_or}
use ts_sdk.Prelude.{
  Outcome, done, failed, fault, hang, ◌>>=◌, on_fail, load, ℕ, zero, suc, ◌+◌, ◌%◌, ◌^◌, ◌≡◌, Bool,
  true, false, ◌&&◌, ◌||◌, Option, none, some, List, [], ◌∷◌, ◌++◌, if◌then◌else◌, ltb, ◌==◌,
  length, get_or, set, take,
}
use ts_sdk.Sms.Types.{Sms, c_str, udhl_val}
use ts_sdk.Sms.Hex.{hex_pair, hexstr}

-- The bit definitions and the field values of the file.
abbrev pub fo_type_sms_submit : ℕ
fo_type_sms_submit = 0x01

abbrev pub fo_udhi_present : ℕ
fo_udhi_present = 0x40

abbrev pub pid_val : ℕ
pid_val = 0x00

abbrev pub dcs_val : ℕ
dcs_val = 0x04

abbrev pub udh_iei_concat : ℕ
udh_iei_concat = 0x00

abbrev pub udh_iei_concat_len : ℕ
udh_iei_concat_len = 0x03

-- A character write at an index that may be the first free one.
abbrev pub put_char : List ℕ → ℕ → ℕ → List ℕ
put_char enc i c = if i == length enc then enc ++ (c ∷ []) else set enc i c

-- The loop of `encode_addr`: `num` are the characters of the number, `n_idx` and `e_idx` are of
-- type `uint8_t`.
pub encode_digits : ℕ → List ℕ → ℕ → ℕ → ℕ → List ℕ → Outcome (List ℕ)
encode_digits zero num num_len n_idx e_idx enc = hang
encode_digits (suc fuel) num num_len n_idx e_idx enc =
    let second = get_or num (n_idx + 1) 0 in
    let enc' = put_char enc e_idx (if second == 0 then b'F' else second) in
    let enc'' = put_char enc' (e_idx + 1) (get_or num n_idx 0) in
    let rest = encode_digits fuel num num_len ((n_idx + 2) % 256) ((e_idx + 2) % 256) enc'' in
    if ltb n_idx num_len then rest else done (take e_idx enc)

-- `encode_addr`: what it writes from the write pointer on. 129 rounds cover every `uint8_t` length
-- for which the loop ends.
unfoldable pub encode_addr : List ℕ → Outcome (List ℕ)
unfolding encode_digits
encode_addr intl_num =
    let num = c_str intl_num in
    let num_len = length num % 256 in
    let plus = get_or num 0 0 == b'+' in
    encode_digits 129 num num_len (if plus then 1 else 0) 4
      (hex_pair (if plus then (num_len + 255) % 256 else num_len) ++ b'9' ∷ b'1' ∷ [])

-- The loop of `encode_ud` with `n` bytes to go, at index `i`.
pub encode_bytes : ℕ → ℕ → List ℕ → Option (List ℕ) → Outcome (Option (List ℕ))
encode_bytes zero i buf dest = done dest
encode_bytes (suc n) i buf dest = do
  byte ← load buf i
  out ← on_fail (hexstr dest byte)
  encode_bytes n (i + 1) buf (some out)

-- The length field, with the user data header before the data of a segment of several.
pub encode_header : Sms → Option (List ℕ) → Outcome (Option (List ℕ))
unfolding hexstr
encode_header m dest =
    if ltb 1 m.num_seg
    then (do
      d1 ← on_fail (hexstr dest (1 + udhl_val + m.len))
      d2 ← on_fail (hexstr (some d1) udhl_val)
      d3 ← on_fail (hexstr (some d2) udh_iei_concat)
      d4 ← on_fail (hexstr (some d3) udh_iei_concat_len)
      d5 ← on_fail (hexstr (some d4) m.ref_no)
      d6 ← on_fail (hexstr (some d5) m.num_seg)
      d7 ← on_fail (hexstr (some d6) m.seq_no)
      done (some d7))
    else if m.num_seg == 1
    then (do d ← on_fail (hexstr dest m.len); done (some d))
    else done dest

-- `encode_ud`.
unfoldable pub encode_ud : Sms → List ℕ → Option (List ℕ) → Outcome (Option (List ℕ))
encode_ud m buf dest = do dest' ← encode_header m dest; encode_bytes m.len 0 buf dest'

-- The early returns of `smscodec_encode` on the values of the segment.
abbrev pub may_encode : Sms → Bool
may_encode m =
    if m.num_seg == 0 || m.len == 0
    then false
    else if ltb m.num_seg m.seq_no || (ltb 1 m.num_seg && m.seq_no == 0)
    then false
    else true

-- FO_TYPE_SMS_SUBMIT | FO_RD_ACCEPT | FO_VPF_ABSENT | FO_SRR_REPORT_NOT_REQ | FO_RP_NOT_SET, and
-- FO_UDHI_PRESENT for a segment of several.
abbrev pub submit_first_octet : Sms → ℕ
submit_first_octet m =
    if ltb 1 m.num_seg then bit_or fo_type_sms_submit fo_udhi_present else fo_type_sms_submit

-- The body of `smscodec_encode` behind its guards.
pub encode_pdu : Sms → List ℕ → List ℕ → ℕ → Outcome (List ℕ)
unfolding hexstr
encode_pdu m buf addr msg_ref_no = do
  w1 ← on_fail (hexstr (some []) (submit_first_octet m))
  w2 ← on_fail (hexstr (some w1) msg_ref_no)
  enc ← encode_addr addr
  w3 ← on_fail (hexstr (some (w2 ++ enc)) pid_val)
  w4 ← on_fail (hexstr (some w3) dcs_val)
  w5 ← encode_ud m buf (some w4)
  on_fail w5

-- `smscodec_encode(msg_to_send, pdu)`, where `pdu` tells whether that pointer is not NULL. The
-- result is the returned length, the characters written, and the static `msg_ref_no` afterwards;
-- `failed` is the return of 0, which leaves the static alone.
unfoldable pub encode : Option Sms → Bool → ℕ → Outcome (ℕ × List ℕ × ℕ)
encode none pdu msg_ref_no = failed
encode (some m) pdu msg_ref_no = do
  buf ← on_fail m.buf
  addr ← on_fail m.addr
  guarded ← on_fail (if pdu && may_encode m then some [] else none)
  written ← encode_pdu m buf addr msg_ref_no
  done (length written % 2 ^ 16, guarded ++ written, (msg_ref_no + 1) % 256)
