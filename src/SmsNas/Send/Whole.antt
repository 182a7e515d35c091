-- ===== src/SmsNas/Send/Whole.antt =====
-- `smsnas_send_msg_to_cloud` as a whole.
use ts_sdk.Prelude.{
  ◌==◌, ℕ, zero, suc, ◌+◌, ◌-◌, ◌*◌, ◌%◌, ◌^◌, ◌≤◌, ◌<◌, ◌≡◌, refl, ap, ◌∙◌, Bool, false, List, [],
  ◌++◌, arith, ltb, length, take, done, ge→ltb, true, some, le→leb, gt→leb, if◌then◌else◌, not,
}
use ts_sdk.Sms.Types.{Sms}
use ts_sdk.SmsNas.Session.{Session, proto_ok, max_retries, max_sms_pl_sz}
use ts_sdk.SmsNas.Send.{send_loop, write_to_modem, send_msg_to_cloud, calculate_total_msgs}
use ts_sdk.SmsNas.Send.Retry.{segment_sms, attempts, write_to_modem_lem}
use ts_sdk.SmsNas.Send.Segments.{pieces, send_all, sent_session, send_loop_lem, next_send, next_rem}
use ts_sdk.SmsNas.Send.Message.{
  protocol_header, built_msg, build_smsnas_msg_lem, length-built_msg, take-built_msg,
  calculate_total_msgs_lem,
}

-- The session with the built message.
abbrev pub with_msg : Session → List ℕ → (sz cp sid : ℕ) → Session
with_msg s buf sz cp sid = record s { send_msg = built_msg s.send_msg buf sz cp sid }

pub if_valid {ℓ} : {A : Type ℓ} (b : Bool) (x y : A) → b ≡ true → (if not b then x else y) ≡ y
if_valid true x y e = refl
if_valid false x y e = cc

module _ {ℓ} {M : Type ℓ} (at_sms_send : Sms → M → Bool × M) where
  -- The message with the header, or its first part, as it is sent.
  pub write_built :
      (s : Session) (buf : List ℕ) (sz cp n sid ref total seq : ℕ) (m : M)
      → length s.send_msg ≡ max_sms_pl_sz
      → n ≡ cp + 4
      → cp ≤ length buf
      → cp + 4 ≤ max_sms_pl_sz
      → write_to_modem at_sms_send
          (with_msg s buf sz cp sid)
          (built_msg s.send_msg buf sz cp sid)
          n
          ref
          total
          seq
          m
        ≡ done (
          proto_ok,
          attempts at_sms_send
              (suc max_retries)
              (segment_sms s.host (protocol_header sz sid ++ take cp buf) ref total seq)
              m,
        )
  write_built s buf sz cp n sid ref total seq m l e c h =
      let msg = built_msg s.send_msg buf sz cp sid in
      let lm : length msg ≡ max_sms_pl_sz = length-built_msg s.send_msg buf sz cp sid l c h in
      write_to_modem_lem at_sms_send (with_msg s buf sz cp sid) msg n ref total seq m (omega arith)
      ∙ ap
          (λ b. done (
            proto_ok,
            attempts at_sms_send (suc max_retries) (segment_sms s.host b ref total seq) m,
          ))
          (take-built_msg s.send_msg buf sz cp n sid e c)

  -- The loop from its start.
  send_loop-start :
      (k fuel : ℕ) (s : Session) (buf : List ℕ) (sz sid ref : ℕ) (m : M)
      → k ≤ fuel
      → length s.send_msg ≡ max_sms_pl_sz
      → length buf ≡ sz
      → 1 ≤ k
      → k ≤ 3
      → 130 + (k - 1) * 134 < sz
      → sz ≤ 130 + k * 134
      → send_loop at_sms_send (suc fuel) s buf sz sid ref (suc k) 1 [] sz 0 0 m
        ≡ done (
          proto_ok,
          sent_session at_sms_send (with_msg s buf sz 130 sid) ref,
          send_all at_sms_send s.host ref
              (suc k)
              1
              (pieces (suc k) (protocol_header sz sid ++ buf))
              m,
          [],
        )
  unfolding send_loop
  send_loop-start zero fuel s buf sz sid ref m f l b k1 k3 lo hi = absurd (omega arith)
  send_loop-start (suc k) fuel s buf sz sid ref m f l b k1 k3 lo hi =
      let s' = with_msg s buf sz 130 sid in
      let left : (sz + 2 ^ 16 - 130) % 2 ^ 16 ≡ sz - 130 = omega arith in
      let more : ltb (suc (suc k)) 2 ≡ false = ge→ltb (suc (suc k)) 2 (omega arith) in
      let lo' : 130 + k * 134 < sz = omega arith in
      rw (build_smsnas_msg_lem s buf sz 130 sid l (omega arith) (omega arith)) (
        rw
          (write_built s buf sz 130 134 sid ref (suc (suc k)) 1 m l refl (omega arith)
            (omega arith))
          (rw (more, left)
            (send_loop_lem at_sms_send k fuel s' buf sz sid ref (suc (suc k)) 2 130 _ _ _
              (omega arith) (omega arith) (omega arith) (omega arith) (omega arith) (omega arith)
              (omega arith) (next_send (sz - 130) _ (omega arith))
              (next_rem k (sz - 130) _ (omega arith) (omega arith) (omega arith)))))

  -- A payload that fits beside the protocol header into one SMS, of at most 136 bytes, is sent as one
  -- segment of header and payload with the sequence number 0, whatever the modem answers.
  pub send_msg_to_cloud-single :
      (s : Session) (buf : List ℕ) (sz sid : ℕ) (m : M)
      → s.host_valid ≡ true
      → length s.send_msg ≡ max_sms_pl_sz
      → sz ≤ length buf
      → 0 < sz
      → sz ≤ 136
      → send_msg_to_cloud at_sms_send (some buf) sz sid s m
        ≡ done (
          proto_ok,
          with_msg s buf sz sz sid,
          attempts at_sms_send
              (suc max_retries)
              (segment_sms s.host (protocol_header sz sid ++ take sz buf) s.msg_ref_num 1 0)
              m,
          [],
        )
  unfolding send_msg_to_cloud
  send_msg_to_cloud-single s buf sz sid m v l b lo hi =
      let z : (sz == 0) ≡ false = ground arith in
      rw (z, ge→ltb 512 (sz + 4) (omega arith))
        (if_valid _ _ _ v
          ∙ rw (le→leb sz 136 hi) (
              rw (build_smsnas_msg_lem s buf sz sz sid l b (omega arith)) (
                rw (write_built s buf sz sz (sz + 4) sid s.msg_ref_num 1 0 m l refl b (omega arith))
                  refl)))

  -- A longer payload, of which the last segment has at most 130 bytes, goes out as `k + 1` segments:
  -- the header and the payload cut into pieces of 134 bytes, under one reference number, with the
  -- sequence numbers from 1 on. No byte outside the payload is read, every segment is tried at most
  -- four times, PROTO_OK is returned, and the reference number moves on by one modulo 256.
  pub send_msg_to_cloud-segments :
      (k : ℕ) (s : Session) (buf : List ℕ) (sz sid : ℕ) (m : M)
      → s.host_valid ≡ true
      → length s.send_msg ≡ max_sms_pl_sz
      → length buf ≡ sz
      → 136 < sz
      → sz ≤ 508
      → k * 134 < sz + 4
      → sz ≤ k * 134 + 126
      → send_msg_to_cloud at_sms_send (some buf) sz sid s m
        ≡ done (
          proto_ok,
          sent_session at_sms_send (with_msg s buf sz 130 sid) s.msg_ref_num,
          send_all at_sms_send s.host s.msg_ref_num
              (suc k)
              1
              (pieces (suc k) (protocol_header sz sid ++ buf))
              m,
          [],
        )
  unfolding send_msg_to_cloud
  send_msg_to_cloud-segments zero s buf sz sid m v l b lo top hi lt = absurd (omega arith)
  send_msg_to_cloud-segments (suc k) s buf sz sid m v l b lo top hi lt =
      let z : (sz == 0) ≡ false = ground arith in
      let total : calculate_total_msgs (sz + 4) ≡ suc (suc k) =
        calculate_total_msgs_lem k (sz + 4) (omega arith) (omega arith) (omega arith)
        ∙ omega arith in
      let small : suc (suc k) % 256 ≡ suc (suc k) = omega arith in
      rw (z, ge→ltb 512 (sz + 4) (omega arith))
        (if_valid _ _ _ v
          ∙ rw (gt→leb sz 136 lo) (
              rw (total) (
                rw (small) (
                  rw (ge→ltb 4 (suc (suc k)) (omega arith)) (
                    send_loop-start (suc k) 255 s buf sz sid s.msg_ref_num m (omega arith) l b
                      (omega arith) (omega arith) (omega arith) (omega arith))))))
