-- ===== src/Sms/Decode/RoundTrip.antt =====
-- `smscodec_decode` on an SMS-DELIVER PDU that is laid out as the standard says.
use ts_sdk.Prelude.{
  done, ℕ, zero, suc, ◌+◌, ◌-◌, ◌*◌, ◌/◌, ◌%◌, ◌^◌, ◌≤◌, ◌<◌, ◌≡◌, refl, sym, ◌∙◌, subst, inl, inr,
  true, some, List, [], ◌∷◌, ◌++◌, append_assoc, arith, ltb, ◌==◌, if◌then◌else◌, Bool-cases,
  length, take, length-append, length-take, drop-append, put_at, drop-append, sym, refl, ◌==◌,
  length-append, append_assoc, append_assoc,
}
use Prim.Native.Nat.{bit_and}
use ts_sdk.Sms.Types.{Sms}
use ts_sdk.Sms.Hex.{hexbyte-hex_pair, Bytes, hex_bytes, hex_pair}
use ts_sdk.Sms.Encode.Address.{address_field}
use ts_sdk.Sms.Encode.UserData.{IsSegment, ud_field, length-ud_header, length-ud_field}
use ts_sdk.Sms.Decode.{decode_pdu, decode_bytes, decode_ud, decode}
use ts_sdk.Sms.Decode.Fields.{NoFill, decode_addr_lem, decode_bytes_lem}

-- What a decoder has to recover of a segment, in a structure with the given buffers. A segment
-- that stands alone has no reference and sequence number.
abbrev pub received : Sms → List ℕ → List ℕ → Sms → Sms
received m bytes buf r = record r {
  len = m.len;
  buf = some (put_at buf 0 (take m.len bytes));
  ref_no = if ltb 1 m.num_seg then m.ref_no else 0;
  num_seg = m.num_seg;
  seq_no = if ltb 1 m.num_seg then m.seq_no else 0;
}

Bytes-take : (n : ℕ) (bs : List ℕ) → Bytes bs → Bytes (take n bs)
Bytes-take zero bs v = tt
Bytes-take (suc n) [] v = tt
Bytes-take (suc n) (b ∷ bs) v = (v.0, Bytes-take n bs v.1)

decode_bytes-take :
    (n : ℕ) (bs tail buf : List ℕ)
    → Bytes bs
    → n ≤ length bs
    → n ≤ length buf
    → decode_bytes n 0 (hex_bytes (take n bs) ++ tail) buf ≡ done (put_at buf 0 (take n bs), tail)
decode_bytes-take n bs tail buf v h k =
    let l : length (take n bs) ≡ n = omega (arith, length-take n bs) in
    subst
      (λ j.
        decode_bytes j 0 (hex_bytes (take n bs) ++ tail) buf
        ≡ done (put_at buf 0 (take n bs), tail))
      l (decode_bytes_lem (take n bs) tail buf 0 (Bytes-take n bs v) (omega arith))

decode_ud_lem :
    (m : Sms) (bytes tail buf : List ℕ) (r : Sms)
    → IsSegment m bytes
    → m.len ≤ length buf
    → decode_ud (ltb 1 m.num_seg) (length (ud_field m bytes)) (ud_field m bytes ++ tail) buf r
      ≡ done (received m bytes buf r)
unfolding decode_ud
decode_ud_lem m bytes tail buf r v h =
    rw (length-ud_field m bytes v.in_buf) (elim (Bool-cases (ltb 1 m.num_seg)) [
      | inl e ↦
          let l : ((2 * (7 + m.len)) == (6 + m.len + 1) * 2) ≡ true = ground arith in
          let n : (6 + m.len + 256 - 5 - 1) % 256 ≡ m.len = omega (arith, v.len_byte) in
          rw e (
            rw (hexbyte-hex_pair (6 + m.len) _ (omega (arith, v.len_byte)), l)
              (rw (
                hexbyte-hex_pair 5 _ (omega arith),
                hexbyte-hex_pair 0 _ (omega arith),
                hexbyte-hex_pair 3 _ (omega arith),
                hexbyte-hex_pair m.ref_no _ v.ref_byte,
                hexbyte-hex_pair m.num_seg _ v.num_byte,
                hexbyte-hex_pair m.seq_no _ v.seq_byte,
                n,
                decode_bytes-take m.len bytes tail buf v.buf_bytes v.in_buf h,
              )))
      | inr e ↦
          let l : ((2 * (1 + m.len)) == (m.len + 1) * 2) ≡ true = ground arith in
          let one : m.num_seg ≡ 1 = ground (arith, v.some_segment) in
          rw e (
            rw (hexbyte-hex_pair m.len _ (omega (arith, v.len_byte)), l)
              (rw (decode_bytes-take m.len bytes tail buf v.buf_bytes v.in_buf h) (simp one)))
    ])

-- Everything in front of the user data.
deliver_front : List ℕ → ℕ → List ℕ → List ℕ → List ℕ → List ℕ
deliver_front smsc fo digits scts u =
    hex_pair (length smsc / 2)
    ++ (smsc
        ++ (hex_pair fo
            ++ (address_field digits ++ (hex_pair 0x00 ++ (hex_pair 0x04 ++ (scts ++ u))))))

decode_front :
    (smsc digits scts u buf addr : List ℕ) (len fo : ℕ) (r : Sms)
    → length smsc % 2 ≡ 0
    → length smsc < 512
    → length scts ≡ 14
    → length digits < 240
    → length digits < length addr
    → NoFill digits
    → fo < 256
    → (bit_and fo 0xBF == 0x04) ≡ true
    → decode_pdu len (deliver_front smsc fo digits scts u) buf addr r
      ≡ decode_ud
          (bit_and fo 0x40 == 0x40)
          ((len + 2 ^ 16 - (length (deliver_front smsc fo digits scts u) - length u)) % 2 ^ 16)
          u
          buf
          (record r { addr = some (put_at addr 0 (digits ++ (0 ∷ []))) })
unfolding decode_pdu deliver_front
decode_front smsc digits scts u buf addr len fo r ev s sc d da nf f b =
    let k : length smsc / 2 * 2 ≡ length smsc = omega arith in
    rw (hexbyte-hex_pair (length smsc / 2) _ (omega arith), k, drop-append smsc _ _ refl)
      (rw (hexbyte-hex_pair fo _ f, b)
        (rw (decode_addr_lem digits _ addr d da nf) (
          rw (
            hexbyte-hex_pair 0 _ (omega arith),
            hexbyte-hex_pair 4 _ (omega arith),
            drop-append scts u 14 (sym sc),
          ))))

length-deliver_front :
    (smsc digits scts u : List ℕ) (fo : ℕ)
    → length (deliver_front smsc fo digits scts u)
      ≡ length (deliver_front smsc fo digits scts []) + length u
unfolding deliver_front
length-deliver_front smsc digits scts u fo = simp length-append (omega arith)

deliver_front-append :
    (smsc digits scts u tail : List ℕ) (fo : ℕ)
    → deliver_front smsc fo digits scts u ++ tail ≡ deliver_front smsc fo digits scts (u ++ tail)
unfolding deliver_front
deliver_front-append smsc digits scts u tail fo = simp append_assoc

deliver_octet : Sms → ℕ
deliver_octet m = if ltb 1 m.num_seg then 0x44 else 0x04

-- The bits of the first octet.
deliver_octet-bits :
    (m : Sms)
    → (deliver_octet m < 256)
      × ((bit_and (deliver_octet m) 0xBF == 0x04) ≡ true)
      × ((bit_and (deliver_octet m) 0x40 == 0x40) ≡ ltb 1 m.num_seg)
unfolding deliver_octet
deliver_octet-bits m = ground arith

decode_deliver_front :
    (smsc digits scts bytes tail rbuf raddr : List ℕ) (m r : Sms)
    → length smsc % 2 ≡ 0
    → length smsc < 512
    → length scts ≡ 14
    → length digits < 240
    → length digits < length raddr
    → NoFill digits
    → IsSegment m bytes
    → m.len ≤ length rbuf
    → decode_pdu
        (length (deliver_front smsc (deliver_octet m) digits scts (ud_field m bytes)))
        (deliver_front smsc (deliver_octet m) digits scts (ud_field m bytes) ++ tail)
        rbuf
        raddr
        r
      ≡ done
          (received m bytes rbuf (record r { addr = some (put_at raddr 0 (digits ++ (0 ∷ []))) }))
decode_deliver_front smsc digits scts bytes tail rbuf raddr m r ev s sc d da nf v h =
    let fo = deliver_octet m in
    let u = ud_field m bytes in
    let bits = deliver_octet-bits m in
    let n : (length (deliver_front smsc fo digits scts u)
            + 2 ^ 16
            - (length (deliver_front smsc fo digits scts (u ++ tail)) - length (u ++ tail)))
          % 2 ^ 16
        ≡ length u =
      omega (
        arith,
        length-deliver_front smsc digits scts u fo,
        length-deliver_front smsc digits scts (u ++ tail) fo,
        length-ud_field m bytes v.in_buf,
        length-ud_header m,
        v.len_byte,
      ) in
    rw (deliver_front-append smsc digits scts u tail fo) (
      decode_front smsc digits scts (u ++ tail) rbuf raddr _ fo r ev s sc d da nf bits.0 bits.1
      ∙ rw (n, bits.2) (decode_ud_lem m bytes tail rbuf _ v h))

-- The layout of an SMS-DELIVER PDU as the modem reports it: service centre address, first octet,
-- originating address, protocol identifier, data coding scheme, time stamp, user data.
abbrev pub deliver_pdu : List ℕ → List ℕ → List ℕ → Sms → List ℕ → List ℕ
deliver_pdu smsc digits scts m bytes =
    hex_pair (length smsc / 2)
    ++ (smsc
        ++ (hex_pair (if ltb 1 m.num_seg then 0x44 else 0x04)
            ++ (address_field digits
                ++ (hex_pair 0x00 ++ (hex_pair 0x04 ++ (scts ++ ud_field m bytes))))))

-- A PDU laid out as SMS-DELIVER decodes to the segment it was made of: `smscodec_decode`, called
-- with the length of the PDU, returns true, leaves the originating digits and a NUL in the address
-- buffer, the data in the data buffer, and the length and the concatenation fields in the
-- structure. Whatever stands in memory behind the PDU does not matter.
pub decode-deliver_pdu :
    (smsc digits scts bytes tail rbuf raddr : List ℕ) (m r : Sms)
    → length smsc % 2 ≡ 0
    → length smsc < 512
    → length scts ≡ 14
    → length digits < 240
    → length digits < length raddr
    → NoFill digits
    → IsSegment m bytes
    → m.len ≤ length rbuf
    → r.buf ≡ some rbuf
    → r.addr ≡ some raddr
    → decode
        (length (deliver_pdu smsc digits scts m bytes))
        (some (deliver_pdu smsc digits scts m bytes ++ tail))
        (some r)
      ≡ done
          (received m bytes rbuf (record r { addr = some (put_at raddr 0 (digits ++ (0 ∷ []))) }))
unfolding decode deliver_front deliver_octet
decode-deliver_pdu smsc digits scts bytes tail rbuf raddr m r ev s14 sc d da nf v h eb ea =
    simp (eb, ea)
      (decode_deliver_front smsc digits scts bytes tail rbuf raddr m r ev s14 sc d da nf v h)
