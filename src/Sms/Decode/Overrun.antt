-- ===== src/Sms/Decode/Overrun.antt =====
-- `decode_addr` takes the number of digits from the PDU and does not hold it against the size of
-- the address buffer.
use ts_sdk.Prelude.{
  fault, ℕ, zero, suc, ◌+◌, ◌*◌, ◌%◌, ◌≤◌, ◌<◌, ◌≡◌, ◌∙◌, ◌≢◌, inl, inr, some, List, [], ◌∷◌, ◌++◌,
  arith, ltb, if◌then◌else◌, ltb→lt, Bool-cases, length, get_elem?, get_or, set, length-set,
  get_elem?-eq-get_or,
}
use ts_sdk.Sms.Hex.{hexbyte-hex_pair, hexbyte_number_type, hex_pair}
use ts_sdk.Sms.Decode.{decode_digits, decode_addr}
use ts_sdk.Sms.Decode.Fields.{NoFill}

NoFill-get_or :
    (t : List ℕ) (k : ℕ) → NoFill t → k < length t → (get_or t k 0 ≢ b'F') × (get_or t k 0 ≢ b'f')
NoFill-get_or [] k nf h = absurd (omega arith)
NoFill-get_or (c ∷ cs) zero nf h = (nf.0, nf.1)
NoFill-get_or (c ∷ cs) (suc k) nf h = NoFill-get_or cs k nf.2 (omega arith)

decode_digits-step :
    (fuel len i a b : ℕ) (pdu addr : List ℕ)
    → i < len
    → len < 255
    → a ≢ b'F'
    → a ≢ b'f'
    → get_elem? pdu i ≡ some a
    → get_elem? pdu (i + 1) ≡ some b
    → decode_digits (suc fuel) len i pdu addr ≡ (
        if ltb (i + 1) (length addr)
        then decode_digits fuel len ((i + 2) % 256) pdu (set (set addr i b) (i + 1) a)
        else fault)
unfolding decode_digits
decode_digits-step fuel len i a b pdu addr h l n1 n2 e f = ground (arith, length-set addr i b)

-- The loop goes on until it writes behind the buffer.
decode_digits-fault :
    (fuel len i : ℕ) (pdu addr : List ℕ)
    → len < 255
    → length addr < len
    → i ≤ length addr
    → length addr + 2 < i + 2 * fuel
    → len + len % 2 ≤ length pdu
    → i % 2 ≡ 0
    → NoFill pdu
    → decode_digits fuel len i pdu addr ≡ fault
decode_digits-fault zero len i pdu addr l h k f d ev nf = absurd (omega arith)
decode_digits-fault (suc fuel) len i pdu addr l h k f d ev nf =
    decode_digits-step fuel len i (get_or pdu i 0) (get_or pdu (i + 1) 0) pdu addr (omega arith) l
      (NoFill-get_or pdu i nf (omega arith)).0 (NoFill-get_or pdu i nf (omega arith)).1
      (get_elem?-eq-get_or pdu i 0 (omega arith)) (get_elem?-eq-get_or pdu (i + 1) 0 (omega arith))
    ∙ elim (Bool-cases (ltb (i + 1) (length addr))) [
      | inl e ↦
          let n : length (set (set addr i (get_or pdu (i + 1) 0)) (i + 1) (get_or pdu i 0))
              ≡ length addr =
            length-set _ (i + 1) _ ∙ length-set addr i _ in
          let s : i + 1 < length addr = ltb→lt _ _ e in
          rw e (
            decode_digits-fault fuel len ((i + 2) % 256) pdu _ l (omega arith) (omega arith)
              (omega arith) d (omega arith) nf)
      | inr e ↦ rw e
    ]

-- An address of more digits than the buffer has bytes, and of fewer than 255, is written past the
-- end of the buffer, when the characters that follow it are there and none of them is the filler.
pub decode_addr-fault :
    (n : ℕ) (digits addr : List ℕ)
    → length addr < n
    → n < 255
    → n + n % 2 ≤ length digits
    → NoFill digits
    → decode_addr (hex_pair n ++ b'9' ∷ b'1' ∷ digits) addr ≡ fault
unfolding decode_addr
decode_addr-fault n digits addr h l d nf =
    rw (hexbyte-hex_pair n _ (omega arith), hexbyte_number_type digits)
      (rw (
        decode_digits-fault 129 n 0 digits addr l h (omega arith) (omega arith) d (omega arith) nf))
