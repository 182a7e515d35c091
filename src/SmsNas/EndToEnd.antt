-- ===== src/SmsNas/EndToEnd.antt =====
-- From `smsnas_send_msg_to_cloud` of one device to the callback of another, over a network that loses
-- nothing and keeps the order.
use ts_sdk.Prelude.{
  ℕ, zero, suc, ◌+◌, ◌*◌, ◌/◌, ◌%◌, ◌≤◌, ◌<◌, ◌≡◌, refl, sym, ap, ◌∙◌, Bool, true, some, List, [],
  ◌∷◌, ◌++◌, append-nil, append_assoc, arith, length, take, drop, Outcome, done, ◌>>=◌,
}
use ts_sdk.Sms.Types.{Sms}
use ts_sdk.SmsNas.Session.{Session, Call, proto_ok, AckNack, max_sms_pl_sz, proto_max_msg_sz}
use ts_sdk.SmsNas.Send.{send_msg_to_cloud}
use ts_sdk.SmsNas.Send.Retry.{segment_sms, attempts-first}
use ts_sdk.SmsNas.Send.Segments.{pieces, concat, concat-pieces, send_all}
use ts_sdk.SmsNas.Send.Message.{protocol_header}
use ts_sdk.SmsNas.Send.Segments.{sent_session}
use ts_sdk.SmsNas.Send.Whole.{with_msg, send_msg_to_cloud-segments}
use ts_sdk.SmsNas.Receive.{rcv_cb, rcv_path_cleanup}
use ts_sdk.SmsNas.Receive.Segment.{idle_path, listening, msg_call}
use ts_sdk.SmsNas.Receive.Reassemble.{receive_all, receive_segments}

-- A modem that sends every segment; its state is what has been sent, in order.
abbrev pub transmit : Sms → List Sms → Bool × List Sms
transmit sms sent = (true, sent ++ (sms ∷ []))

-- The segments as the receiving modem hands them on, `smsnas_rcv_cb` being called at the times of
-- the clock.
abbrev pub receive_log :
    (Call → Session → Session) → (ℕ → ℕ) → ℕ → List Sms → Session → Outcome Session
receive_log upper clock n [] s = done s
receive_log upper clock n (sms ∷ log) s =
    rcv_cb upper (clock n) sms s >>= receive_log upper clock (n + 1) log

-- The segments with the pieces `cs`, from number `seq` on.
abbrev segment_log : List ℕ → (ref total seq : ℕ) → List (List ℕ) → List Sms
segment_log host ref total seq [] = []
segment_log host ref total seq (c ∷ cs) =
    segment_sms host c ref total seq ∷ segment_log host ref total (seq + 1) cs

send_all-transmit :
    (host : List ℕ) (ref total seq : ℕ) (cs : List (List ℕ)) (log : List Sms)
    → send_all transmit host ref total seq cs log ≡ log ++ segment_log host ref total seq cs
send_all-transmit host ref total seq [] log = sym (append-nil log)
send_all-transmit host ref total seq (c ∷ cs) log =
    let sms = segment_sms host c ref total seq in
    ap (send_all transmit host ref total (seq + 1) cs) (attempts-first transmit 3 sms log refl)
    ∙ send_all-transmit host ref total (seq + 1) cs (log ++ (sms ∷ []))
    ∙ append_assoc log (sms ∷ []) (segment_log host ref total (seq + 1) cs)

receive_log-segment_log :
    (upper : Call → Session → Session) (clock : ℕ → ℕ) (host : List ℕ) (ref total seq : ℕ)
    (cs : List (List ℕ)) (s : Session)
    → receive_log upper clock seq (segment_log host ref total seq cs) s
      ≡ receive_all upper clock host ref total seq cs s
receive_log-segment_log upper clock host ref total seq [] s = refl
receive_log-segment_log upper clock host ref total seq (c ∷ cs) s = λ i.
    rcv_cb upper (clock seq) (segment_sms host c ref total seq) s >>= λ x.
    receive_log-segment_log upper clock host ref total (seq + 1) cs x i

length-pieces : (k : ℕ) (l : List ℕ) → length (pieces k l) ≡ k
length-pieces zero l = refl
length-pieces (suc k) l = ap suc (length-pieces k (drop 134 l))

-- A payload of more than 136 bytes, of which the last segment has at most 130, sent over a modem that
-- sends every segment: the segments that are sent, received by a session that listens with a free
-- receive path and whose buffer holds header and payload, make its callback get the header and the
-- payload, with the service of the sender.
pub send-receive :
    (upper : Call → Session → Session) (clock : ℕ → ℕ) (k : ℕ) (s r : Session) (buf area : List ℕ)
    (sz sid sid' timeout : ℕ) (ack : AckNack)
    → s.host_valid ≡ true
    → length s.send_msg ≡ max_sms_pl_sz
    → length buf ≡ sz
    → 136 < sz
    → sz ≤ 508
    → k * 134 < sz + 4
    → sz ≤ k * 134 + 126
    → length area ≡ proto_max_msg_sz
    → sz + 4 ≤ r.rcv_sz
    → r.rcv_sz ≤ length r.rcv_buf
    → (s' : Session) × (r' : Session) × (log : List Sms) × (send_msg_to_cloud transmit
          (some buf)
          sz
          sid
          s
          []
        ≡ done (proto_ok, s', log, []))
      × (receive_log upper clock 1 log (listening r (idle_path sid' timeout) area ack)
          ≡ done (
              rcv_path_cleanup
                (some 0)
                (upper (msg_call r (protocol_header sz sid ++ buf) sid) r')))
send-receive upper clock zero s r buf area sz sid sid' timeout ack v l b lo top hi lt la fit rb =
    absurd (omega arith)
send-receive upper clock (suc k) s r buf area sz sid sid' timeout ack v l b lo top hi lt la fit rb =
    let msg = protocol_header sz sid ++ buf in
    let cs = pieces (suc (suc k)) msg in
    let s' = sent_session transmit (with_msg s buf sz 130 sid) s.msg_ref_num in
    let log = segment_log s.host s.msg_ref_num (suc (suc k)) 1 cs in
    let whole : concat cs ≡ msg = concat-pieces (suc (suc k)) msg (omega arith) in
    let n : length (concat cs) ≡ sz + 4 = ap length whole ∙ omega arith in
    let got =
      receive_segments upper clock s.host s.msg_ref_num (suc (suc k))
        (sz % 256 ∷ sz / 256 % 256 ∷ take 130 buf) (take 134 (drop 130 buf))
        (pieces k (drop 134 (drop 130 buf))) r area sid sid' timeout ack
        (ap (λ j. suc (suc j)) (length-pieces k _)) (omega arith) la (omega arith) (omega arith)
        rb in
    (
      s',
      got.0,
      log,
      (send_msg_to_cloud-segments transmit (suc k) s buf sz sid [] v l b lo top hi lt
          ∙ ap (λ g. done (proto_ok, s', g, []))
              (send_all-transmit s.host s.msg_ref_num (suc (suc k)) 1 cs [])),
      (receive_log-segment_log upper clock s.host s.msg_ref_num (suc (suc k)) 1 cs _
          ∙ got.1
          ∙ ap (λ b. done (rcv_path_cleanup (some 0) (upper (msg_call r b sid) got.0))) whole),
    )
