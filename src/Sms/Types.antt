-- ===== src/Sms/Types.antt =====
-- smscodec.h and smsdef.h: the segment structure and the sizes.
use ts_sdk.Prelude.{ℕ, zero, suc, ◌≢◌, arith, ◌+◌, ◌-◌, ◌*◌, Option, List, [], ◌∷◌}

-- `sms_t`. A pointer is `none` when it is NULL, and otherwise the bytes that it may reach.
pub record Sms : Type 0 where
  pub len : ℕ
  pub buf : Option (List ℕ)
  pub ref_no : ℕ
  pub num_seg : ℕ
  pub seq_no : ℕ
  pub addr : Option (List ℕ)

-- The characters before the terminating NUL.
abbrev pub c_str : List ℕ → List ℕ
c_str [] = []
c_str (zero ∷ cs) = []
c_str (suc k ∷ cs) = suc k ∷ c_str cs

abbrev pub udhl_val : ℕ
udhl_val = 5

abbrev pub addr_sz : ℕ
addr_sz = 21

abbrev pub enc_addr_sz : ℕ
enc_addr_sz = 12 * 2

abbrev pub ud_sz : ℕ
ud_sz = 140 * 2

-- (LEN_FO + LEN_MR + LEN_PID + LEN_DCS + LEN_UDL) * 2 + ENC_ADDR_SZ
abbrev pub out_pdu_ovr_hd : ℕ
out_pdu_ovr_hd = (1 + 1 + 1 + 1 + 1) * 2 + enc_addr_sz

abbrev pub max_out_pdu_sz : ℕ
max_out_pdu_sz = out_pdu_ovr_hd + ud_sz

abbrev pub max_data_sz : ℕ
max_data_sz = 140

abbrev pub max_concat_data_sz : ℕ
max_concat_data_sz = max_data_sz - udhl_val - 1

-- No character is NUL.
abbrev pub NonZero : List ℕ → Type 0
NonZero [] = Unit {0}
NonZero (c ∷ cs) = (c ≢ 0) × NonZero cs

pub c_str-NonZero : (s : List ℕ) → NonZero (c_str s)
c_str-NonZero [] = tt
c_str-NonZero (zero ∷ s) = tt
c_str-NonZero (suc k ∷ s) = (omega arith, c_str-NonZero s)
