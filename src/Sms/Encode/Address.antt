-- ===== src/Sms/Encode/Address.antt =====
-- The address field: what the loop of `encode_addr` writes.
use ts_sdk.Prelude.{
  done, ℕ, zero, suc, ◌+◌, ◌*◌, ◌%◌, ◌≤◌, ◌<◌, ◌≡◌, refl, ap, ◌∙◌, List, [], ◌∷◌, ◌++◌,
  if◌then◌else◌, ◌==◌, length, length-append, get_or, take-length, arith, append_assoc, inl, inr,
  append-nil, sym, get_or_index, Bool-cases,
}
use ts_sdk.Sms.Types.{c_str, NonZero, c_str-NonZero}
use ts_sdk.Sms.Hex.{hex_pair}
use ts_sdk.Sms.Encode.{put_char, encode_digits, encode_addr}

-- The digits of a number two at a time, each pair swapped, an odd last one behind an 'F'.
pub swap_pairs : List ℕ → List ℕ
swap_pairs [] = []
swap_pairs (a ∷ []) = b'F' ∷ a ∷ []
swap_pairs (a ∷ b ∷ r) = b ∷ a ∷ swap_pairs r

put_char-append : (enc : List ℕ) (e c : ℕ) → e ≡ length enc → put_char enc e c ≡ enc ++ (c ∷ [])
put_char-append enc e c h = ground arith

-- Both writes of a round extend the output.
put_two :
    (enc : List ℕ) (e c d : ℕ)
    → e ≡ length enc
    → put_char (put_char enc e c) (e + 1) d ≡ enc ++ (c ∷ d ∷ [])
put_two enc e c d h = rw (put_char-append enc e c h) (
    put_char-append (enc ++ (c ∷ [])) (e + 1) d (omega (arith, length-append enc (c ∷ [])))
    ∙ append_assoc enc (c ∷ []) (d ∷ []))

encode_digits-end :
    (fuel : ℕ) (num : List ℕ) (n i e : ℕ) (enc : List ℕ)
    → n ≤ i
    → e ≡ length enc
    → encode_digits (suc fuel) num n i e enc ≡ done enc
unfolding encode_digits
encode_digits-end fuel num n i e enc h k = ground (arith, take-length enc)

encode_digits-round :
    (fuel : ℕ) (num : List ℕ) (n i e : ℕ) (enc : List ℕ) (a b : ℕ)
    → i < n
    → e ≡ length enc
    → get_or num i 0 ≡ a
    → (if get_or num (i + 1) 0 == 0 then b'F' else get_or num (i + 1) 0) ≡ b
    → encode_digits (suc fuel) num n i e enc
      ≡ encode_digits fuel num n ((i + 2) % 256) ((e + 2) % 256) (enc ++ (b ∷ a ∷ []))
unfolding encode_digits
encode_digits-round fuel num n i e enc a b h k p q = ground (arith, put_two enc e b a k)

encode_digits_lem :
    (fuel : ℕ) (rest num enc : List ℕ) (n i e : ℕ)
    → length rest + 1 < 2 * fuel
    → i + length rest ≡ n
    → n < 254
    → e ≡ length enc
    → e + length rest < 254
    → NonZero rest
    → ((k : ℕ) → get_or num (i + k) 0 ≡ get_or rest k 0)
    → encode_digits fuel num n i e enc ≡ done (enc ++ swap_pairs rest)
unfolding swap_pairs
encode_digits_lem zero rest num enc n i e f h1 h2 h3 h4 nz at = absurd (omega arith)
encode_digits_lem (suc fuel) [] num enc n i e f h1 h2 h3 h4 nz at =
    encode_digits-end fuel num n i e enc (omega arith) h3 ∙ ap done (sym (append-nil enc))
encode_digits_lem (suc zero) (a ∷ []) num enc n i e f h1 h2 h3 h4 nz at = absurd (omega arith)
encode_digits_lem (suc (suc fuel)) (a ∷ []) num enc n i e f h1 h2 h3 h4 nz at =
    encode_digits-round (suc fuel) num n i e enc a b'F' (omega arith) h3
      (get_or_index num i (i + 0) 0 (omega arith) ∙ at 0) (rw (at 1))
    ∙ encode_digits-end fuel num n ((i + 2) % 256) ((e + 2) % 256) (enc ++ (b'F' ∷ a ∷ []))
        (omega arith) (omega (arith, length-append enc (b'F' ∷ a ∷ [])))
encode_digits_lem (suc fuel) (a ∷ b ∷ r) num enc n i e f h1 h2 h3 h4 nz at =
    encode_digits-round fuel num n i e enc a b (omega arith) h3
      (get_or_index num i (i + 0) 0 (omega arith) ∙ at 0) (rw (at 1) (ground (arith, nz.1.0)))
    ∙ encode_digits_lem fuel r num (enc ++ (b ∷ a ∷ [])) n ((i + 2) % 256) ((e + 2) % 256)
        (omega arith) (omega arith) h2 (omega (arith, length-append enc (b ∷ a ∷ []))) (omega arith)
        nz.1.1
        (λ k.
          get_or_index num ((i + 2) % 256 + k) (i + (2 + k)) 0 (omega arith)
          ∙ at (2 + k)
          ∙ get_or_index (a ∷ b ∷ r) (2 + k) (suc (suc k)) 0 (omega arith))
    ∙ ap done (append_assoc enc (b ∷ a ∷ []) (swap_pairs r))

-- A number without its leading '+'.
abbrev pub drop_plus : List ℕ → List ℕ
drop_plus [] = []
drop_plus (c ∷ cs) = if c == b'+' then cs else c ∷ cs

-- The address field: the number of digits, the number type 91, the digits in swapped pairs.
abbrev pub address_field : List ℕ → List ℕ
address_field digits = hex_pair (length digits) ++ b'9' ∷ b'1' ∷ swap_pairs digits

encode_number :
    (num : List ℕ)
    → length num < 240
    → NonZero num
    → let plus = get_or num 0 0 == b'+' in
      encode_digits 129 num (length num % 256) (if plus then 1 else 0) 4 (
        hex_pair (if plus then (length num % 256 + 255) % 256 else length num % 256)
        ++ b'9' ∷ b'1' ∷ [])
      ≡ done (address_field (drop_plus num))
encode_number [] h nz =
    encode_digits_lem 129 [] [] _ 0 0 4 (omega arith) (omega arith) (omega arith) refl (omega arith)
      tt (λ k. refl)
encode_number (c ∷ cs) h nz = elim (Bool-cases (c == b'+')) [
  | inl e ↦
      let n : (suc (length cs) % 256 + 255) % 256 ≡ length cs = omega arith in
      rw (e, n)
        (encode_digits_lem 129 cs (c ∷ cs) _ _ 1 4 (omega arith) (omega arith) (omega arith) refl
          (omega arith) nz.1 (λ k. get_or_index (c ∷ cs) (1 + k) (suc k) 0 (omega arith)))
  | inr e ↦
      let n : suc (length cs) % 256 ≡ suc (length cs) = omega arith in
      rw (e, n)
        (encode_digits_lem 129 (c ∷ cs) (c ∷ cs) _ _ 0 4 (omega arith) (omega arith) (omega arith)
          refl (omega arith) nz (λ k. get_or_index (c ∷ cs) (0 + k) k 0 (omega arith)))
]

pub encode_addr_lem :
    (s : List ℕ)
    → length (c_str s) < 240
    → encode_addr s ≡ done (address_field (drop_plus (c_str s)))
unfolding encode_addr
encode_addr_lem s h = encode_number (c_str s) h (c_str-NonZero s)

pub length-swap_pairs : (xs : List ℕ) → length (swap_pairs xs) ≡ length xs + length xs % 2
unfolding swap_pairs
length-swap_pairs [] = omega arith
length-swap_pairs (a ∷ []) = omega arith
length-swap_pairs (a ∷ b ∷ r) = omega (arith, length-swap_pairs r)

pub drop_plus-le : (s : List ℕ) → length (drop_plus s) ≤ length s
drop_plus-le [] = omega arith
drop_plus-le (c ∷ cs) = ground arith

pub swap_one : (a : ℕ) (tail : List ℕ) → swap_pairs (a ∷ []) ++ tail ≡ b'F' ∷ a ∷ tail
unfolding swap_pairs
swap_one a tail = refl

pub swap_two :
    (a b : ℕ) (r tail : List ℕ) → swap_pairs (a ∷ b ∷ r) ++ tail ≡ b ∷ a ∷ (swap_pairs r ++ tail)
unfolding swap_pairs
swap_two a b r tail = refl
