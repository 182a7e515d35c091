-- ===== src/Ott/Session/Destination.antt =====
-- What `ott_set_destination` makes of a text with a host and a port.
use ts_sdk.Prelude.{
  ℕ, zero, suc, ◌+◌, ◌-◌, ◌≤◌, ◌<◌, ◌≡◌, refl, ap, ◌∙◌, ◌≢◌, false, some, List, [], ◌∷◌, ◌++◌,
  append-nil, arith, ◌==◌, length, set, take, drop, replicate, length-drop, write_at, drop-append,
  take-append, ge→ltb, drop_add,
}
use ts_sdk.Sms.Types.{c_str, NonZero}
use ts_sdk.SmsNas.Session.{proto_ok}
use ts_sdk.SmsNas.Session.Host.{c_str-append}
use ts_sdk.Ott.Session.{Session, set_destination, strchr, max_host_len, max_port_len}

-- No character is the delimiter.
abbrev pub NoColon : List ℕ → Type 0
NoColon [] = Unit {0}
NoColon (c ∷ cs) = (c ≢ b':') × NoColon cs

strchr-append : (h p : List ℕ) → NoColon h → strchr (h ++ b':' ∷ p) b':' ≡ some (length h)
strchr-append [] p n = refl
strchr-append (c ∷ h) p n =
    let m : c ≢ b':' = n.0 in
    let e : (c == b':') ≡ false = ground arith in
    rw (e, strchr-append h p n.1) (ap some (omega arith))

c_str_terminated : (h rest : List ℕ) → NonZero h → c_str (h ++ 0 ∷ rest) ≡ h
c_str_terminated h rest n = c_str-append h (0 ∷ rest) n ∙ append-nil h

-- The terminator behind the host.
set-append :
    (h rest : List ℕ) (v : ℕ)
    → 1 ≤ length rest
    → set (h ++ rest) (length h) v ≡ h ++ v ∷ drop 1 rest
set-append [] [] v l = absurd (omega arith)
set-append [] (r ∷ rest) v l = refl
set-append (x ∷ h) rest v l = ap (λ t. x ∷ t) (set-append h rest v l)

-- The port, with the zeros that `strncpy` fills in.
take_terminated :
    (n : ℕ) (p zs : List ℕ)
    → length p < n
    → (rest : List ℕ) × (take n (p ++ 0 ∷ zs) ≡ p ++ 0 ∷ rest)
take_terminated zero p zs l = absurd (omega arith)
take_terminated (suc n) [] zs l = (take n zs, refl)
take_terminated (suc n) (x ∷ p) zs l =
    let r = take_terminated n p zs (omega arith) in (r.0, ap (λ t. x ∷ t) r.1)

set_destination_eq :
    (h p dest : List ℕ) (s : Session)
    → c_str dest ≡ h ++ b':' ∷ p
    → NoColon h
    → 1 ≤ length h
    → length h ≤ max_host_len
    → 1 ≤ length p
    → length p ≤ max_port_len
    → set_destination (some dest) s ≡ (
      proto_ok,
      record s {
        host = set (write_at s.host 0 h) (length h) 0;
        port = take 6 (p ++ replicate 6 0);
      },
    )
unfolding set_destination
set_destination_eq h p dest s e nc h1 h50 p1 p5 =
    let n = length h in
    let z : (n == 0) ≡ false = ground arith in
    let z' : (length p == 0) ≡ false = ground arith in
    let port : drop (n + 1) (h ++ b':' ∷ p) ≡ p =
      drop_add n 1 (h ++ b':' ∷ p) refl ∙ ap (drop 1) (drop-append h (b':' ∷ p) n refl) in
    let host : take n (h ++ b':' ∷ p) ≡ h = take-append h (b':' ∷ p) n refl in
    rw (set_destination, e, strchr-append h p nc)
      (rw e (
        rw (port, host)
          (rw (ge→ltb max_host_len n h50, z) (rw (ge→ltb max_port_len (length p) p5, z') refl))))

-- `ott_set_destination` of a text of a host of 1 to 50 characters, a colon and a port of 1 to 5
-- characters, the host without a colon, returns PROTO_OK and leaves the host and the port as texts in
-- the session, whatever stood there before.
pub set_destination-host_port :
    (h p dest : List ℕ) (s : Session)
    → c_str dest ≡ h ++ b':' ∷ p
    → NonZero h
    → NonZero p
    → NoColon h
    → 1 ≤ length h
    → length h ≤ max_host_len
    → 1 ≤ length p
    → length p ≤ max_port_len
    → length s.host ≡ suc max_host_len
    → let (res, s') = set_destination (some dest) s in
      (res ≡ proto_ok) × (c_str s'.host ≡ h) × (c_str s'.port ≡ p)
set_destination-host_port h p dest s e nh np nc h1 h50 p1 p5 l =
    let n = length h in
    let tail = drop (0 + n) s.host in
    let lt : length tail ≡ length s.host - (0 + n) = length-drop (0 + n) s.host in
    let port = take_terminated 6 p (replicate 5 0) (omega arith) in
    rw (set_destination_eq h p dest s e nc h1 h50 p1 p5) (
      refl,
      ap c_str (set-append h tail 0 (omega arith)) ∙ c_str_terminated h (drop 1 tail) nh,
      ap c_str port.1 ∙ c_str_terminated p port.0 np,
    )
