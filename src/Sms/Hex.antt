-- ===== src/Sms/Hex.antt =====
-- `hexstr` and `hexnum` of smscodec.c: bytes as pairs of hexadecimal characters.
use ts_sdk.Prelude.{
  Outcome, done, failed, ◌>>=◌, load, ℕ, zero, suc, ◌+◌, ◌-◌, ◌*◌, ◌/◌, ◌%◌, ◌<◌, ◌≡◌, refl, ap,
  Option, none, some, List, [], ◌∷◌, ◌++◌, if◌then◌else◌, ltb, leb, ◌&&◌, arith, get_or, set, drop,
  replicate, length,
}
use native.Mathlib.Nat.{mod-eq_of_lt}

-- The digit that "%X" prints.
pub upper_digit : ℕ → ℕ
upper_digit d = if ltb d 10 then b'0' + d else b'A' + (d - 10)

-- What `snprintf` writes for "%02X" of a `uint8_t`.
abbrev pub hex_pair : ℕ → List ℕ
hex_pair b = upper_digit (b / 16) ∷ upper_digit (b % 16) ∷ []

-- `hexstr(dest, data)`. The destination is what stands before the write pointer, `none` for NULL;
-- the argument is converted to `uint8_t`. `snprintf` of one byte does not fail.
unfoldable pub hexstr : Option (List ℕ) → ℕ → Option (List ℕ)
hexstr none byte = none
hexstr (some out) byte = some (out ++ hex_pair (byte % 256))

-- The value of a hexadecimal character, of either case.
digit_value : ℕ → Outcome ℕ
digit_value c =
    if leb b'0' c && leb c b'9'
    then done (c - b'0')
    else if leb b'A' c && leb c b'F'
    then done (10 + c - b'A')
    else if leb b'a' c && leb c b'f'
    then done (10 + c - b'a')
    else failed

-- The loop of `hexnum` with `n` rounds left, at index `i`.
hexnum_from : ℕ → ℕ → List ℕ → List ℕ → Outcome (List ℕ)
hexnum_from zero i src num = done num
hexnum_from (suc n) i src num = do
  digit ← load src i
  let shifted = set num (i / 2) (get_or num (i / 2) 0 * 16 % 256)
  v ← digit_value digit
  hexnum_from n (i + 1) src (set shifted (i / 2) ((get_or shifted (i / 2) 0 + v) % 256))

-- `hexnum(src, len, num)`: the bytes read, and the memory from the moved pointer on.
unfoldable pub hexnum : List ℕ → ℕ → Outcome (List ℕ × List ℕ)
unfolding hexnum_from digit_value
hexnum src len = do
  num ← hexnum_from (len * 2 % 256) 0 src (replicate len 0)
  done (num, drop (len * 2 % 256) src)

-- The codec reads single bytes only, `hexnum(&src, 1, &val)`.
unfoldable pub hexbyte : List ℕ → Outcome (ℕ × List ℕ)
unfolding hexnum
hexbyte src = do r ← hexnum src 1; done (get_or r.0 0 0, r.1)

digit_value-upper_digit : (d : ℕ) → d < 16 → digit_value (upper_digit d) ≡ done d
unfolding digit_value upper_digit
digit_value-upper_digit d h = ground arith

-- `hexnum` reads back the byte that `hexstr` wrote, and leaves the pointer behind it.
pub hexbyte-hex_pair :
    (b : ℕ) (rest : List ℕ) → b < 256 → hexbyte (hex_pair b ++ rest) ≡ done (b, rest)
unfolding hexbyte hexnum_from
hexbyte-hex_pair b rest h =
    rw
      (
        digit_value-upper_digit (b / 16) (omega arith),
        digit_value-upper_digit (b % 16) (omega arith),
      )
      (ap (λ (k : ℕ). done (k, rest)) (omega arith))

-- A sequence of bytes.
abbrev pub Bytes : List ℕ → Type 0
Bytes [] = Unit {0}
Bytes (b ∷ bs) = (b < 256) × Bytes bs

-- The hexadecimal characters of a sequence of bytes.
abbrev pub hex_bytes : List ℕ → List ℕ
hex_bytes [] = []
hex_bytes (b ∷ bs) = hex_pair b ++ hex_bytes bs

pub length-hex_bytes : (bs : List ℕ) → length (hex_bytes bs) ≡ 2 * length bs
length-hex_bytes [] = omega arith
length-hex_bytes (b ∷ bs) = omega (arith, length-hex_bytes bs)

pub hexstr_lem : (out : List ℕ) (b : ℕ) → b < 256 → hexstr (some out) b ≡ some (out ++ hex_pair b)
unfolding hexstr
hexstr_lem out b h = rw (mod-eq_of_lt h)

-- The characters of the number type.
pub hexbyte_number_type : (rest : List ℕ) → hexbyte (b'9' ∷ b'1' ∷ rest) ≡ done (0x91, rest)
unfolding hexbyte
hexbyte_number_type rest = refl
