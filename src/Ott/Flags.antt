-- ===== src/Ott/Flags.antt =====
-- The flag combinations that `flags_are_valid` refuses.
use ts_sdk.Prelude.{ℕ, ◌+◌, ◌≡◌, refl, Bool, true, false, not, if◌then◌else◌}
use ts_sdk.Ott.Message.{flags_are_valid, cf_nack, cf_ack, cf_pending, cf_quit}

-- A flag byte from its four flags.
abbrev pub flags : (nack ack pending quit : Bool) → ℕ
flags nack ack pending quit =
    (if nack then cf_nack else 0)
    + (if ack then cf_ack else 0)
    + (if pending then cf_pending else 0)
    + (if quit then cf_quit else 0)

-- The eight settings that the comment in `flags_are_valid` lists, in its order.
abbrev pub listed_invalid : (nack ack pending quit : Bool) → Bool
listed_invalid true true false false = true
listed_invalid true false true false = true
listed_invalid false false true true = true
listed_invalid true true true false = true
listed_invalid true false true true = true
listed_invalid false true true true = true
listed_invalid true true false true = true
listed_invalid true true true true = true
listed_invalid true false false q = false
listed_invalid false a false q = false
listed_invalid false a true false = false

-- `flags_are_valid` accepts a setting of the four flags exactly where its comment does not list it
-- as invalid.
pub flags_are_valid_lem :
    (nack ack pending quit : Bool)
    → flags_are_valid (flags nack ack pending quit) ≡ not (listed_invalid nack ack pending quit)
unfolding flags_are_valid
flags_are_valid_lem true true true true = refl
flags_are_valid_lem true true true false = refl
flags_are_valid_lem true true false true = refl
flags_are_valid_lem true true false false = refl
flags_are_valid_lem true false true true = refl
flags_are_valid_lem true false true false = refl
flags_are_valid_lem true false false true = refl
flags_are_valid_lem true false false false = refl
flags_are_valid_lem false true true true = refl
flags_are_valid_lem false true true false = refl
flags_are_valid_lem false true false true = refl
flags_are_valid_lem false true false false = refl
flags_are_valid_lem false false true true = refl
flags_are_valid_lem false false true false = refl
flags_are_valid_lem false false false true = refl
flags_are_valid_lem false false false false = refl
