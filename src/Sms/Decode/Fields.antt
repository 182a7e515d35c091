-- ===== src/Sms/Decode/Fields.antt =====
-- The loops of `decode_addr` and `decode_ud` on the fields that the encoder lays out.
use ts_sdk.Prelude.{
  store_lem, done, ℕ, zero, suc, ◌+◌, ◌*◌, ◌%◌, ◌≤◌, ◌<◌, ◌≡◌, refl, ap, ◌∙◌, ◌≢◌, some, List, [],
  ◌∷◌, ◌++◌, arith, length, get_elem?, set, length-set, elem_index, drop-append, put_at,
  length-put_at, drop-append, put_at_snoc, ap, length-put_at, ap,
}
use ts_sdk.Sms.Hex.{Bytes, hex_bytes, hexbyte_number_type, hexbyte-hex_pair, hexbyte-hex_pair}
use ts_sdk.Sms.Encode.Address.{swap_pairs, swap_one, swap_two, length-swap_pairs, address_field}
use ts_sdk.Sms.Decode.{decode_digits, decode_addr, decode_bytes}

-- A digit is told from the filler 'F'.
abbrev pub NoFill : List ℕ → Type 0
NoFill [] = Unit {0}
NoFill (c ∷ cs) = (c ≢ b'F') × (c ≢ b'f') × NoFill cs

decode_digits-end :
    (fuel len i : ℕ) (pdu addr : List ℕ)
    → len ≤ i
    → decode_digits (suc fuel) len i pdu addr ≡ done addr
unfolding decode_digits
decode_digits-end fuel len i pdu addr h = ground arith

decode_digits-pair :
    (fuel len i a b : ℕ) (pdu addr : List ℕ)
    → i < len
    → len < 254
    → i + 1 < length addr
    → a ≢ b'F'
    → a ≢ b'f'
    → b ≢ b'F'
    → b ≢ b'f'
    → get_elem? pdu i ≡ some b
    → get_elem? pdu (i + 1) ≡ some a
    → decode_digits (suc fuel) len i pdu addr
      ≡ decode_digits fuel len (i + 2) pdu (set (set addr i a) (i + 1) b)
unfolding decode_digits
decode_digits-pair fuel len i a b pdu addr h l k a1 a2 b1 b2 e f =
    let m : (i + 2) % 256 ≡ i + 2 = omega arith in ground (arith, m, length-set addr i a)

decode_digits-last :
    (fuel len i a : ℕ) (pdu addr : List ℕ)
    → i < len
    → len < 254
    → i < length addr
    → get_elem? pdu i ≡ some b'F'
    → get_elem? pdu (i + 1) ≡ some a
    → decode_digits (suc fuel) len i pdu addr ≡ decode_digits fuel len (i + 2) pdu (set addr i a)
unfolding decode_digits
decode_digits-last fuel len i a pdu addr h l k e f =
    let m : (i + 2) % 256 ≡ i + 2 = omega arith in ground (arith, m)

two_steps : (i : ℕ) → i + 2 ≡ i + 1 + 1
two_steps i = omega arith

-- The loop of `decode_addr` undoes the swapping of digits.
decode_digits_lem :
    (fuel : ℕ) (rest tail pdu addr : List ℕ) (len i : ℕ)
    → length rest + 1 < 2 * fuel
    → i + length rest ≡ len
    → len < 254
    → len < length addr
    → NoFill rest
    → ((k : ℕ) → get_elem? pdu (i + k) ≡ get_elem? (swap_pairs rest ++ tail) k)
    → decode_digits fuel len i pdu addr ≡ done (put_at addr i rest)
decode_digits_lem zero rest tail pdu addr len i f h l c nf at = absurd (omega arith)
decode_digits_lem (suc fuel) [] tail pdu addr len i f h l c nf at =
    decode_digits-end fuel len i pdu addr (omega arith)
decode_digits_lem (suc zero) (a ∷ []) tail pdu addr len i f h l c nf at = absurd (omega arith)
decode_digits_lem (suc (suc fuel)) (a ∷ []) tail pdu addr len i f h l c nf at =
    let at' : (k : ℕ) → get_elem? pdu (i + k) ≡ get_elem? (b'F' ∷ a ∷ tail) k =
      rw (← swap_one a tail) at in
    decode_digits-last (suc fuel) len i a pdu addr (omega arith) l (omega arith)
      (elem_index pdu i (i + 0) (omega arith) ∙ at' 0) (at' 1)
    ∙ decode_digits-end fuel len (i + 2) pdu (set addr i a) (omega arith)
decode_digits_lem (suc fuel) (a ∷ b ∷ r) tail pdu addr len i f h l c nf at =
    let at' : (k : ℕ) → get_elem? pdu (i + k) ≡ get_elem? (b ∷ a ∷ (swap_pairs r ++ tail)) k =
      rw (← swap_two a b r tail) at in
    decode_digits-pair fuel len i a b pdu addr (omega arith) l (omega arith) nf.0 nf.1 nf.2.0 nf.2.1
      (elem_index pdu i (i + 0) (omega arith) ∙ at' 0) (at' 1)
    ∙ decode_digits_lem fuel r tail pdu (set (set addr i a) (i + 1) b) len (i + 2) (omega arith)
        (omega arith) l (omega (arith, length-set (set addr i a) (i + 1) b, length-set addr i a))
        nf.2.2
        (λ k.
          elem_index pdu (i + 2 + k) (i + (2 + k)) (omega arith)
          ∙ at' (2 + k)
          ∙ elem_index (b ∷ a ∷ (swap_pairs r ++ tail)) (2 + k) (suc (suc k)) (omega arith))
    ∙ ap (λ j. done (put_at (set (set addr i a) (i + 1) b) j r)) (two_steps i)

-- `decode_addr` reads an address field back: it leaves the digits and a NUL in the buffer, and the
-- pointer behind the field.
pub decode_addr_lem :
    (digits tail addr : List ℕ)
    → length digits < 240
    → length digits < length addr
    → NoFill digits
    → decode_addr (address_field digits ++ tail) addr
      ≡ done (put_at addr 0 (digits ++ (0 ∷ [])), tail)
unfolding decode_addr
decode_addr_lem digits tail addr h c nf =
    let n = length digits in
    let z : n ≡ 0 + n = omega arith in
    let m : (n + n % 2) % 256 ≡ length (swap_pairs digits) =
      omega (arith, length-swap_pairs digits) in
    let s : length (put_at addr 0 digits) ≡ length addr = length-put_at addr 0 digits in
    rw (hexbyte-hex_pair n _ (omega arith), hexbyte_number_type (swap_pairs digits ++ tail))
      (rw
        (decode_digits_lem 129 digits tail (swap_pairs digits ++ tail) addr n 0 (omega arith)
          (omega arith) (omega arith) c nf
          (λ k. elem_index (swap_pairs digits ++ tail) (0 + k) k (omega arith)))
        (rw
          (
            store_lem (put_at addr 0 digits) n 0 (omega arith),
            m,
            drop-append (swap_pairs digits) tail _ refl,
            put_at_snoc addr digits 0 0,
          )
          (ap (λ j. done (set (put_at addr 0 digits) j 0, tail)) z)))

-- The loop that fills the data buffer.
pub decode_bytes_lem :
    (bs tail buf : List ℕ) (i : ℕ)
    → Bytes bs
    → i + length bs ≤ length buf
    → decode_bytes (length bs) i (hex_bytes bs ++ tail) buf ≡ done (put_at buf i bs, tail)
unfolding decode_bytes
decode_bytes_lem [] tail buf i v h = refl
decode_bytes_lem (b ∷ bs) tail buf i v h = rw (hexbyte-hex_pair b (hex_bytes bs ++ tail) v.0) (
    rw (store_lem buf i b (omega arith))
      (decode_bytes_lem bs tail (set buf i b) (i + 1) v.1 (omega (arith, length-set buf i b))))
