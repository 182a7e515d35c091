-- ===== src/Sms/Tests.antt =====
-- The theorems on the SMS codec at concrete segments.
use ts_sdk.Prelude.{
  ℕ, zero, suc, ◌≤◌, ◌≡◌, refl, true, some, List, [], ◌∷◌, ◌++◌, arith, length, replicate, put_at,
  done, fault,
}
use ts_sdk.Sms.Types.{Sms, c_str, max_out_pdu_sz}
use ts_sdk.Sms.Hex.{hex_pair}
use ts_sdk.Sms.Encode.{encode}
use ts_sdk.Sms.Encode.Address.{drop_plus}
use ts_sdk.Sms.Encode.UserData.{IsSegment}
use ts_sdk.Sms.Encode.Layout.{submit_pdu, encode_lem, encode-le-max}
use ts_sdk.Sms.Decode.{decode, decode_addr}
use ts_sdk.Sms.Decode.Fields.{NoFill}
use ts_sdk.Sms.Decode.RoundTrip.{received, deliver_pdu, decode-deliver_pdu}
use ts_sdk.Sms.Decode.Overrun.{decode_addr-fault}

abbrev number : List ℕ
number = b'+' ∷ b'4' ∷ b'9' ∷ b'1' ∷ 0 ∷ []

abbrev hello : List ℕ
hello = 104 ∷ 105 ∷ []

-- The second of two segments.
abbrev second : Sms
second = record {
  len = 2;
  buf = some hello;
  ref_no = 3;
  num_seg = 2;
  seq_no = 2;
  addr = some number;
}

second-IsSegment : IsSegment second hello
second-IsSegment = record {
  ref_byte = omega arith;
  num_byte = omega arith;
  seq_byte = omega arith;
  len_byte = omega arith;
  some_segment = omega arith;
  in_buf = omega arith;
  buf_bytes = (omega arith, (omega arith, tt));
}

encode_example :
    encode (some second) true 255
    ≡ done (
      length (submit_pdu second hello (drop_plus (c_str number)) 255),
      submit_pdu second hello (drop_plus (c_str number)) 255,
      0,
    )
encode_example =
    encode_lem second hello number 255 second-IsSegment refl refl refl (omega arith) (omega arith)

encode-le-max_example :
    (r : ℕ × List ℕ × ℕ) × (encode (some second) true 255 ≡ done r)
    × (r.0 ≡ length r.1)
    × (r.0 ≤ max_out_pdu_sz)
encode-le-max_example =
    encode-le-max second hello number 255 second-IsSegment refl refl refl (omega arith)
      (omega arith) (omega arith) (omega arith)

abbrev digits : List ℕ
digits = b'4' ∷ b'9' ∷ b'1' ∷ []

digits-NoFill : NoFill digits
digits-NoFill =
    (omega arith, omega arith, (omega arith, omega arith, (omega arith, omega arith, tt)))

replicate-NoFill : (n : ℕ) → NoFill (replicate n b'5')
replicate-NoFill zero = tt
replicate-NoFill (suc n) = (omega arith, omega arith, replicate-NoFill n)

abbrev target : Sms
target = record {
  len = 0;
  buf = some (replicate 140 0);
  ref_no = 0;
  num_seg = 0;
  seq_no = 0;
  addr = some (replicate 22 7);
}

abbrev stamp : List ℕ
stamp = replicate 14 b'1'

abbrev delivered : List ℕ
delivered = deliver_pdu [] digits stamp second hello

decode-deliver_pdu_example :
    decode (length delivered) (some (delivered ++ (0 ∷ []))) (some target)
    ≡ done (
        received second hello
          (replicate 140 0)
          (record target { addr = some (put_at (replicate 22 7) 0 (digits ++ (0 ∷ []))) }))
decode-deliver_pdu_example =
    decode-deliver_pdu [] digits stamp hello (0 ∷ []) (replicate 140 0) (replicate 22 7) second
      target refl (omega arith) refl (omega arith) (omega arith) digits-NoFill second-IsSegment
      (omega arith) refl refl

decode_addr-fault_example :
    decode_addr (hex_pair 30 ++ b'9' ∷ b'1' ∷ replicate 30 b'5') (replicate 22 7) ≡ fault
decode_addr-fault_example =
    decode_addr-fault 30 (replicate 30 b'5') (replicate 22 7) (omega arith) (omega arith)
      (omega arith) (replicate-NoFill 30)
