-- ===== src/SmsNas/Send/Overrun.antt =====
-- `calculate_total_msgs` is called with the size of the header added, and takes away the 130 bytes
-- of payload of the first segment: where the payload ends in the last 4 bytes of a segment, it counts
-- one segment too many.
use ts_sdk.Prelude.{
  ℕ, zero, suc, ◌+◌, ◌-◌, ◌*◌, ◌%◌, ◌^◌, ◌≤◌, ◌<◌, min, ◌≡◌, refl, ◌∙◌, Bool, true, false, some,
  List, [], arith, ltb, leb, ◌==◌, if◌then◌else◌, length, drop, length-drop, fault, le→leb, gt→leb,
  ge→ltb,
}
use ts_sdk.Sms.Types.{Sms}
use ts_sdk.SmsNas.Session.{Session, max_sms_pl_sz}
use ts_sdk.SmsNas.Send.{send_loop, calculate_total_msgs, send_msg_to_cloud}
use ts_sdk.SmsNas.Send.Retry.{write_to_modem_lem, write_to_modem-fault}
use ts_sdk.SmsNas.Send.Segments.{next_send, next_rem}
use ts_sdk.SmsNas.Send.Message.{build_smsnas_msg_lem, calculate_total_msgs_lem}
use ts_sdk.SmsNas.Send.Whole.{with_msg, write_built, if_valid}

module _ {ℓ} {M : Type ℓ} (at_sms_send : Sms → M → Bool × M) where
  -- A segment that begins at the end of the payload.
  send_loop-end :
      (fuel : ℕ) (s : Session) (buf : List ℕ) (sz sid ref total cur sent rem send : ℕ) (m : M)
      → 2 ≤ cur
      → length buf ≤ sent
      → 0 < send
      → send_loop at_sms_send (suc fuel) s buf sz sid ref total cur (drop sent buf) rem send sent m
        ≡ fault
  unfolding send_loop
  send_loop-end fuel s buf sz sid ref total cur sent rem send m c e h =
      let c1 : (cur == 1) ≡ false = ground arith in
      rw c1 (
        rw
          (write_to_modem-fault at_sms_send s (drop sent buf) send ref total cur m
            (omega (arith, length-drop sent buf)))
          refl)

  -- The loop behind the first segment, with `k` segments to go after this one until the payload ends,
  -- and one more that is counted.
  send_loop-overrun :
      (k fuel : ℕ) (s : Session) (buf : List ℕ) (sz sid ref total cur sent rem send : ℕ) (m : M)
      → suc k < fuel
      → cur + suc k ≡ total
      → total ≤ 4
      → 2 ≤ cur
      → sent + k * 134 < length buf
      → length buf ≤ sent + suc k * 134
      → length buf < 600
      → send ≡ min 134 (length buf - sent)
      → rem ≡ (if k == 0 then send else length buf - sent - 134)
      → send_loop at_sms_send fuel s buf sz sid ref total cur (drop sent buf) rem send sent m
        ≡ fault
  unfolding send_loop
  send_loop-overrun k zero s buf sz sid ref total cur sent rem send m f c t c2 lo hi l e r =
      absurd (omega arith)
  send_loop-overrun zero (suc zero) s buf sz sid ref total cur sent rem send m f c t c2 lo hi l e
        r =
      absurd (omega arith)
  send_loop-overrun zero (suc (suc fuel)) s buf sz sid ref total cur sent rem send m f c t c2 lo hi
        l e r =
      let n : length (drop sent buf) ≡ length buf - sent = length-drop sent buf in
      let c1 : (cur == 1) ≡ false = ground arith in
      let more : ltb total ((cur + 1) % 256) ≡ false =
        ge→ltb total ((cur + 1) % 256) (omega arith) in
      let last : leb rem 134 ≡ true = le→leb rem 134 (omega arith) in
      rw c1 (
        rw (write_to_modem_lem at_sms_send s (drop sent buf) send ref total cur m (omega arith)) (
          rw (more, last)
            (send_loop-end fuel s buf sz sid ref total ((cur + 1) % 256) ((sent + send) % 2 ^ 16)
              rem rem _ (omega arith) (omega arith) (omega arith))))
  send_loop-overrun (suc k) (suc fuel) s buf sz sid ref total cur sent rem send m f c t c2 lo hi l e
        r =
      let n : length (drop sent buf) ≡ length buf - sent = length-drop sent buf in
      let c1 : (cur == 1) ≡ false = ground arith in
      let z : (suc k == 0) ≡ false = ground arith in
      let more : ltb total ((cur + 1) % 256) ≡ false =
        ge→ltb total ((cur + 1) % 256) (omega arith) in
      let left : rem ≡ length buf - sent - 134 = r ∙ rw z refl in
      rw c1 (
        rw (write_to_modem_lem at_sms_send s (drop sent buf) send ref total cur m (omega arith)) (
          rw more (
            send_loop-overrun k fuel s buf sz sid ref total ((cur + 1) % 256)
              ((sent + send) % 2 ^ 16) _ _ _ (omega arith) (omega arith) t (omega arith)
              (omega arith) (omega arith) l (next_send rem _ (omega arith))
              (next_rem k rem _ (omega arith) (omega arith) (omega arith)))))

  send_loop-start_overrun :
      (k fuel : ℕ) (s : Session) (buf : List ℕ) (sz sid ref : ℕ) (m : M)
      → suc (suc k) < fuel
      → length s.send_msg ≡ max_sms_pl_sz
      → length buf ≡ sz
      → k ≤ 1
      → 130 + k * 134 < sz
      → sz ≤ 130 + suc k * 134
      → send_loop at_sms_send (suc fuel) s buf sz sid ref (suc (suc (suc k))) 1 [] sz 0 0 m ≡ fault
  unfolding send_loop
  send_loop-start_overrun k fuel s buf sz sid ref m f l b k1 lo hi =
      let s' = with_msg s buf sz 130 sid in
      let left : (sz + 2 ^ 16 - 130) % 2 ^ 16 ≡ sz - 130 = omega arith in
      let more : ltb (suc (suc (suc k))) 2 ≡ false = ge→ltb (suc (suc (suc k))) 2 (omega arith) in
      rw (build_smsnas_msg_lem s buf sz 130 sid l (omega arith) (omega arith)) (
        rw
          (write_built at_sms_send s buf sz 130 134 sid ref (suc (suc (suc k))) 1 m l refl
            (omega arith) (omega arith))
          (rw (more, left)
            (send_loop-overrun k fuel s' buf sz sid ref (suc (suc (suc k))) 2 130 _ _ _
              (omega arith) (omega arith) (omega arith) (omega arith) (omega arith) (omega arith)
              (omega arith) (next_send (sz - 130) _ (omega arith))
              (next_rem k (sz - 130) _ (omega arith) (omega arith) (omega arith)))))

  -- A payload of 261 to 264 or of 395 to 398 bytes, whose last segment would have more than 130
  -- bytes, makes `smsnas_send_msg_to_cloud` count one segment too many and read it behind the end of
  -- the user's buffer, whatever the modem answers.
  pub send_msg_to_cloud-fault :
      (k : ℕ) (s : Session) (buf : List ℕ) (sz sid : ℕ) (m : M)
      → s.host_valid ≡ true
      → length s.send_msg ≡ max_sms_pl_sz
      → length buf ≡ sz
      → sz ≤ 508
      → 260 + k * 134 < sz
      → sz ≤ 264 + k * 134
      → send_msg_to_cloud at_sms_send (some buf) sz sid s m ≡ fault
  unfolding send_msg_to_cloud
  send_msg_to_cloud-fault k s buf sz sid m v l b top lo hi =
      let z : (sz == 0) ≡ false = ground arith in
      let total : calculate_total_msgs (sz + 4) ≡ suc (suc (suc k)) =
        calculate_total_msgs_lem (suc k) (sz + 4) (omega arith) (omega arith) (omega arith)
        ∙ omega arith in
      let small : suc (suc (suc k)) % 256 ≡ suc (suc (suc k)) = omega arith in
      rw (z, ge→ltb 512 (sz + 4) (omega arith))
        (if_valid _ _ _ v
          ∙ rw (gt→leb sz 136 (omega arith)) (
              rw (total) (
                rw (small) (
                  rw (ge→ltb 4 (suc (suc (suc k))) (omega arith)) (
                    send_loop-start_overrun k 255 s buf sz sid s.msg_ref_num m (omega arith) l b
                      (omega arith) (omega arith) (omega arith))))))
