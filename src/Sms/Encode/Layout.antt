-- ===== src/Sms/Encode/Layout.antt =====
-- The whole PDU that `smscodec_encode` writes, and its size.
use ts_sdk.Prelude.{
  refl, done, ℕ, ◌+◌, ◌*◌, ◌%◌, ◌^◌, ◌≤◌, ◌<◌, ◌≡◌, some, List, ◌++◌, if◌then◌else◌, length,
  length-append, arith, append_assoc, ltb, true,
}
use native.Mathlib.Nat.{mod-eq_of_lt}
use ts_sdk.Sms.Types.{Sms, c_str, max_data_sz, max_concat_data_sz, max_out_pdu_sz}
use ts_sdk.Sms.Hex.{hex_pair}
use ts_sdk.Sms.Encode.{encode, submit_first_octet, may_encode, encode_pdu}
use ts_sdk.Sms.Encode.Address.{
  address_field, drop_plus, swap_pairs, encode_addr_lem, length-swap_pairs, drop_plus-le,
}
use ts_sdk.Sms.Encode.UserData.{
  IsSegment, ud_header, ud_field, encode_ud_lem, length-ud_field, length-ud_header,
}

-- The layout of an SMS-SUBMIT PDU: first octet, message reference, destination, protocol
-- identifier, data coding scheme, user data.
abbrev pub submit_pdu : Sms → List ℕ → List ℕ → ℕ → List ℕ
submit_pdu m buf digits msg_ref_no =
    hex_pair (if ltb 1 m.num_seg then 0x41 else 0x01)
    ++ (hex_pair msg_ref_no
        ++ (address_field digits ++ (hex_pair 0x00 ++ (hex_pair 0x04 ++ ud_field m buf))))

first_octet : (m : Sms) → submit_first_octet m % 256 ≡ (if ltb 1 m.num_seg then 0x41 else 0x01)
first_octet m = ground arith

encode_pdu_lem :
    (m : Sms) (buf addr : List ℕ) (msg_ref_no : ℕ)
    → IsSegment m buf
    → length (c_str addr) < 240
    → msg_ref_no < 256
    → encode_pdu m buf addr msg_ref_no ≡ done (submit_pdu m buf (drop_plus (c_str addr)) msg_ref_no)
unfolding encode_pdu
encode_pdu_lem m buf addr msg_ref_no v h r =
    rw (first_octet m, mod-eq_of_lt r, encode_addr_lem addr h)
      (rw (encode_ud_lem m buf _ v) (simp append_assoc))

length-submit_pdu :
    (m : Sms) (buf digits : List ℕ) (r : ℕ)
    → m.len ≤ length buf
    → length (submit_pdu m buf digits r)
      ≡ 12 + (length digits + length digits % 2) + 2 * (length (ud_header m) + m.len)
length-submit_pdu m buf digits r h = omega (
  arith,
  length-append (swap_pairs digits) (hex_pair 0x00 ++ (hex_pair 0x04 ++ ud_field m buf)),
  length-swap_pairs digits,
  length-ud_field m buf h,
)

-- `smscodec_encode`, called with a destination, on a segment that passes its guards, with an
-- address of fewer than 240 characters, writes exactly the SMS-SUBMIT layout, returns its length
-- and moves the message reference number on by one, modulo 256.
pub encode_lem :
    (m : Sms) (buf addr : List ℕ) (msg_ref_no : ℕ)
    → IsSegment m buf
    → m.buf ≡ some buf
    → m.addr ≡ some addr
    → may_encode m ≡ true
    → length (c_str addr) < 240
    → msg_ref_no < 256
    → encode (some m) true msg_ref_no
      ≡ done (
        length (submit_pdu m buf (drop_plus (c_str addr)) msg_ref_no),
        submit_pdu m buf (drop_plus (c_str addr)) msg_ref_no,
        (msg_ref_no + 1) % 256,
      )
unfolding encode
encode_lem m buf addr msg_ref_no v eb ea g h r =
    let p = submit_pdu m buf (drop_plus (c_str addr)) msg_ref_no in
    let n : length p % 2 ^ 16 ≡ length p = omega (
      arith,
      length-submit_pdu m buf (drop_plus (c_str addr)) msg_ref_no v.in_buf,
      length-ud_header m,
      drop_plus-le (c_str addr),
      v.len_byte,
    ) in
    simp (eb, ea, g, encode_pdu_lem m buf addr msg_ref_no v h r, n)

-- The limits on a segment's data, alone or among several.
abbrev pub FitsUd : Sms → Type 0
FitsUd m = m.len ≤ (if ltb 1 m.num_seg then max_concat_data_sz else max_data_sz)

-- A segment that passes the guards, within the data limits, to a number of at most 20 digits, is
-- encoded; the length that is returned is that of the text, and at most MAX_OUT_PDU_SZ.
pub encode-le-max :
    (m : Sms) (buf addr : List ℕ) (msg_ref_no : ℕ)
    → IsSegment m buf
    → m.buf ≡ some buf
    → m.addr ≡ some addr
    → may_encode m ≡ true
    → FitsUd m
    → length (c_str addr) < 240
    → length (drop_plus (c_str addr)) ≤ 20
    → msg_ref_no < 256
    → (r : ℕ × List ℕ × ℕ) × (encode (some m) true msg_ref_no ≡ done r)
      × (r.0 ≡ length r.1)
      × (r.0 ≤ max_out_pdu_sz)
encode-le-max m buf addr msg_ref_no v eb ea g f h d k =
    let pdu = submit_pdu m buf (drop_plus (c_str addr)) msg_ref_no in
    let fits : length pdu ≤ max_out_pdu_sz =
      ground (arith, length-submit_pdu m buf (drop_plus (c_str addr)) msg_ref_no v.in_buf) in
    (
      (length pdu, pdu, (msg_ref_no + 1) % 256),
      encode_lem m buf addr msg_ref_no v eb ea g h k,
      refl,
      fits,
    )
