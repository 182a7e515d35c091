-- ===== src/SmsNas/Session/Host.antt =====
-- The destination that `smsnas_set_destination` leaves in the session.
use ts_sdk.Prelude.{
  ℕ, zero, suc, ◌+◌, ◌≤◌, ◌<◌, ◌≡◌, refl, ap, true, false, some, List, [], ◌∷◌, ◌++◌, arith, ◌==◌,
  length, drop, ge→ltb,
}
use ts_sdk.Sms.Types.{c_str, NonZero, c_str-NonZero}
use ts_sdk.SmsNas.Session.{Session, set_destination, proto_ok, max_host_len}

pub c_str-append : (x l : List ℕ) → NonZero x → c_str (x ++ l) ≡ x ++ c_str l
c_str-append [] l h = refl
c_str-append (zero ∷ x) l h = absurd (h.0 refl)
c_str-append (suc b ∷ x) l h = ap (λ t. suc b ∷ t) (c_str-append x l h.1)

-- `smsnas_set_destination` with a text of 1 to 21 characters returns PROTO_OK and marks the host as
-- valid; the text that stands in `session.host` afterwards is the new one followed by what the old
-- one had from this length on, as no NUL is written behind it.
pub set_destination_lem :
    (host : List ℕ) (s : Session)
    → 0 < length (c_str host)
    → length (c_str host) ≤ max_host_len
    → let (res, s') = set_destination (some host) s in
      (res ≡ proto_ok)
      × (s'.host_valid ≡ true)
      × (c_str s'.host ≡ c_str host ++ c_str (drop (length (c_str host)) s.host))
unfolding set_destination
set_destination_lem host s lo hi =
    let n = length (c_str host) in
    let z : (n == 0) ≡ false = ground arith in
    let e : 0 + n ≡ n = omega arith in
    rw (ge→ltb max_host_len n hi, z)
      (refl, refl, rw e (c_str-append (c_str host) (drop n s.host) (c_str-NonZero host)))
