-- ===== src/Sms/Encode/UserData.antt =====
-- The user data field: header octets and data.
use ts_sdk.Prelude.{
  done, ℕ, zero, suc, ◌+◌, ◌*◌, ◌%◌, ◌≤◌, ◌<◌, ◌≡◌, ap, ◌∙◌, some, List, [], ◌∷◌, ◌++◌,
  if◌then◌else◌, ◌==◌, length, length-append, length-take, take, arith, append_assoc, elem_index,
  inl, inr, get_elem?, append-nil, sym, Bool-cases, ltb, true,
}
use native.Mathlib.Nat.{mod-eq_of_lt}
use ts_sdk.Sms.Types.{Sms}
use ts_sdk.Sms.Hex.{hexstr_lem, Bytes, hex_bytes, length-hex_bytes, hex_pair}
use ts_sdk.Sms.Encode.{encode_ud, encode_header, encode_bytes}

encode_bytes-round :
    (n i b : ℕ) (buf out : List ℕ)
    → get_elem? buf i ≡ some b
    → b < 256
    → encode_bytes (suc n) i buf (some out) ≡ encode_bytes n (i + 1) buf (some (out ++ hex_pair b))
unfolding encode_bytes
encode_bytes-round n i b buf out e h = ground (arith, hexstr_lem out b h)

-- The loop of `encode_ud` writes the bytes of the buffer in order.
encode_bytes_lem :
    (n i : ℕ) (rest buf out : List ℕ)
    → n ≤ length rest
    → Bytes rest
    → ((k : ℕ) → get_elem? buf (i + k) ≡ get_elem? rest k)
    → encode_bytes n i buf (some out) ≡ done (some (out ++ hex_bytes (take n rest)))
unfolding encode_bytes
encode_bytes_lem zero i rest buf out h bs at = ap (λ l. done (some l)) (sym (append-nil out))
encode_bytes_lem (suc n) i [] buf out h bs at = absurd (omega arith)
encode_bytes_lem (suc n) i (b ∷ r) buf out h bs at =
    encode_bytes-round n i b buf out (elem_index buf i (i + 0) (omega arith) ∙ at 0) bs.0
    ∙ encode_bytes_lem n (i + 1) r buf (out ++ hex_pair b) (omega arith) bs.1 (λ k.
      elem_index buf (i + 1 + k) (i + (1 + k)) (omega arith)
      ∙ at (1 + k)
      ∙ elem_index (b ∷ r) (1 + k) (suc k) (omega arith))
    ∙ ap (λ l. done (some l)) (append_assoc out (hex_pair b) (hex_bytes (take n r)))

-- The octets in front of the data: the length, and for a segment of several the user data header.
abbrev pub ud_header : Sms → List ℕ
ud_header m =
    if ltb 1 m.num_seg
    then (6 + m.len) ∷ 5 ∷ 0 ∷ 3 ∷ m.ref_no ∷ m.num_seg ∷ m.seq_no ∷ []
    else m.len ∷ []

-- The fields of a segment that `encode` accepts are bytes, with room for the header in the length.
pub record IsSegment (m : Sms) (buf : List ℕ) : Type 0 where
  pub ref_byte : m.ref_no < 256
  pub num_byte : m.num_seg < 256
  pub seq_byte : m.seq_no < 256
  pub len_byte : m.len + 6 < 256
  pub some_segment : 0 < m.num_seg
  pub in_buf : m.len ≤ length buf
  pub buf_bytes : Bytes buf

encode_header_lem :
    (m : Sms) (buf out : List ℕ)
    → IsSegment m buf
    → encode_header m (some out) ≡ done (some (out ++ hex_bytes (ud_header m)))
unfolding encode_header
encode_header_lem m buf out v = elim (Bool-cases (ltb 1 m.num_seg)) [
  | inl e ↦
      let l : (6 + m.len) % 256 ≡ 6 + m.len = omega (arith, v.len_byte) in
      rw (e, encode_header)
        (simp (
          append_assoc,
          l,
          mod-eq_of_lt v.ref_byte,
          mod-eq_of_lt v.num_byte,
          mod-eq_of_lt v.seq_byte,
        ))
  | inr e ↦
      let one : (m.num_seg == 1) ≡ true = ground (arith, v.some_segment) in
      let l : m.len % 256 ≡ m.len = omega (arith, v.len_byte) in
      rw (e, encode_header) (rw one (rw l))
]

-- The user data field of a segment.
abbrev pub ud_field : Sms → List ℕ → List ℕ
ud_field m buf = hex_bytes (ud_header m) ++ hex_bytes (take m.len buf)

pub encode_ud_lem :
    (m : Sms) (buf out : List ℕ)
    → IsSegment m buf
    → encode_ud m buf (some out) ≡ done (some (out ++ ud_field m buf))
unfolding encode_ud
encode_ud_lem m buf out v = rw (encode_header_lem m buf out v) (
    encode_bytes_lem m.len 0 buf buf (out ++ hex_bytes (ud_header m)) v.in_buf v.buf_bytes
      (λ k. elem_index buf (0 + k) k (omega arith))
    ∙ ap (λ l. done (some l)) (append_assoc out (hex_bytes (ud_header m)) _))

pub length-ud_field :
    (m : Sms) (buf : List ℕ)
    → m.len ≤ length buf
    → length (ud_field m buf) ≡ 2 * (length (ud_header m) + m.len)
length-ud_field m buf h = omega (
  arith,
  length-append (hex_bytes (ud_header m)) (hex_bytes (take m.len buf)),
  length-hex_bytes (ud_header m),
  length-hex_bytes (take m.len buf),
  length-take m.len buf,
)

pub length-ud_header : (m : Sms) → length (ud_header m) ≤ 7
length-ud_header m = ground arith
