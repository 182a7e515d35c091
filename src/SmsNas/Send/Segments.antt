-- ===== src/SmsNas/Send/Segments.antt =====
-- The loop of `smsnas_send_msg_to_cloud`: the segments that it sends.
use ts_sdk.Prelude.{
  ℕ, zero, suc, ◌+◌, ◌-◌, ◌*◌, ◌%◌, ◌^◌, ◌≤◌, ◌<◌, min, ◌≡◌, refl, sym, ap, ◌∙◌, Bool, true, false,
  List, [], ◌∷◌, ◌++◌, arith, ltb, leb, ◌==◌, if◌then◌else◌, length, take, drop, length-drop,
  take-append-drop, done, drop_add, take_all, gt→leb,
}
use ts_sdk.Sms.Types.{Sms}
use ts_sdk.SmsNas.Session.{
  Session, proto_ok, max_retries, sms_sz_with_tuhd_witht_phd, max_sms_ref_number,
}
use ts_sdk.SmsNas.Send.{send_loop}
use ts_sdk.SmsNas.Send.Retry.{segment_sms, attempts, write_to_modem_lem}

-- A message cut into pieces of 134 bytes, the last one of what is left.
abbrev pub pieces : ℕ → List ℕ → List (List ℕ)
pieces zero l = []
pieces (suc k) l = take sms_sz_with_tuhd_witht_phd l ∷ pieces k (drop sms_sz_with_tuhd_witht_phd l)

abbrev pub concat : List (List ℕ) → List ℕ
concat [] = []
concat (c ∷ cs) = c ++ concat cs

-- Nothing is lost by the cutting.
pub concat-pieces :
    (k : ℕ) (l : List ℕ) → length l ≤ k * sms_sz_with_tuhd_witht_phd → concat (pieces k l) ≡ l
concat-pieces zero [] h = refl
concat-pieces zero (x ∷ l) h = absurd (omega arith)
concat-pieces (suc k) l h =
    ap (λ r. take 134 l ++ r) (concat-pieces k (drop 134 l) (omega (arith, length-drop 134 l)))
    ∙ take-append-drop 134 l

-- The size of the next segment, and what the loop counts as remaining, from the `n` bytes ahead.
pub next_send : (rem n : ℕ) → rem ≡ n → (if leb rem 134 then rem else 134) ≡ min 134 n
next_send rem n e = ground arith

pub next_rem :
    (k rem n : ℕ)
    → rem ≡ n
    → k * 134 < n
    → n ≤ suc k * 134
    → (if leb rem 134 then rem else rem - 134)
      ≡ (if k == 0 then (if leb rem 134 then rem else 134) else n - 134)
next_rem zero rem n e lo hi = ground arith
next_rem (suc k) rem n e lo hi =
    let f : leb rem 134 ≡ false = gt→leb rem 134 (omega arith) in
    let z : (suc k == 0) ≡ false = ground arith in rw (f, z) (omega arith)

module _ {ℓ} {M : Type ℓ} (at_sms_send : Sms → M → Bool × M) where
  -- The pieces are sent as segments with successive numbers.
  abbrev pub send_all : List ℕ → (ref total seq : ℕ) → List (List ℕ) → M → M
  send_all host ref total seq [] m = m
  send_all host ref total seq (c ∷ cs) m =
      send_all host ref total (seq + 1) cs
        (attempts at_sms_send (suc max_retries) (segment_sms host c ref total seq) m)

  -- The session after the whole message.
  abbrev pub sent_session : Session → ℕ → Session
  sent_session s ref = record s { msg_ref_num = (ref + 1) % max_sms_ref_number }

  -- The loop behind the first segment, with `k` segments to go after this one.
  pub send_loop_lem :
      (k fuel : ℕ) (s : Session) (buf : List ℕ) (sz sid ref total cur sent rem send : ℕ) (m : M)
      → k < fuel
      → cur + k ≡ total
      → total ≤ 4
      → 2 ≤ cur
      → sent + k * 134 < length buf
      → length buf ≤ sent + suc k * 134
      → length buf < 600
      → send ≡ min 134 (length buf - sent)
      → rem ≡ (if k == 0 then send else length buf - sent - 134)
      → send_loop at_sms_send fuel s buf sz sid ref total cur (drop sent buf) rem send sent m
        ≡ done (
          proto_ok,
          sent_session s ref,
          send_all s.host ref total cur (pieces (suc k) (drop sent buf)) m,
          [],
        )
  unfolding send_loop
  send_loop_lem zero (suc fuel) s buf sz sid ref total cur sent rem send m f c t c2 lo hi l e r =
      let n : length (drop sent buf) ≡ length buf - sent = length-drop sent buf in
      let c1 : (cur == 1) ≡ false = ground arith in
      let fin : ltb total ((cur + 1) % 256) ≡ true = ground arith in
      rw c1 (
        rw (write_to_modem_lem at_sms_send s (drop sent buf) send ref total cur m (omega arith)) (
          rw fin (
            ap
              (λ b. done (
                proto_ok,
                sent_session s ref,
                attempts at_sms_send (suc max_retries) (segment_sms s.host b ref total cur) m,
                [],
              ))
              (take_all send (drop sent buf) (omega arith)
                ∙ sym (take_all 134 (drop sent buf) (omega arith))))))
  send_loop_lem (suc k) (suc fuel) s buf sz sid ref total cur sent rem send m f c t c2 lo hi l e r =
      let n : length (drop sent buf) ≡ length buf - sent = length-drop sent buf in
      let c1 : (cur == 1) ≡ false = ground arith in
      let more : ltb total ((cur + 1) % 256) ≡ false = ground arith in
      rw c1 (
        rw (write_to_modem_lem at_sms_send s (drop sent buf) send ref total cur m (omega arith)) (
          rw more (
            let one : cur + 1 ≡ (cur + 1) % 256 = omega arith in
            let full : send ≡ 134 = omega arith in
            let z : (suc k == 0) ≡ false = ground arith in
            let left : rem ≡ length buf - sent - 134 = r ∙ rw z refl in
            let step : (sent + send) % 2 ^ 16 ≡ sent + 134 = omega arith in
            let next : drop (sent + 134) buf ≡ drop 134 (drop sent buf) =
              drop_add sent 134 buf refl in
            rw (step, sym one, full)
              (send_loop_lem k fuel s buf sz sid ref total (cur + 1) (sent + 134)
                  (if leb rem sms_sz_with_tuhd_witht_phd
                    then rem
                    else rem - sms_sz_with_tuhd_witht_phd)
                  (if leb rem sms_sz_with_tuhd_witht_phd then rem else sms_sz_with_tuhd_witht_phd) _
                  (omega arith) (omega arith) t (omega arith) (omega arith) (omega arith) l
                  (next_send rem _ (omega arith))
                  (next_rem k rem _ (omega arith) (omega arith) (omega arith))
                ∙ rw next refl))))
  send_loop_lem k zero s buf sz sid ref total cur sent rem send m f c t c2 lo hi l e r =
      absurd (omega arith)
