-- ===== src/SmsNas/Send/Message.antt =====
-- The parts of `smsnas_send_msg_to_cloud`: the protocol header and the number of segments.
use ts_sdk.Prelude.{
  ℕ, zero, suc, ◌+◌, ◌-◌, ◌*◌, ◌/◌, ◌%◌, ◌^◌, ◌≤◌, ◌<◌, ◌≡◌, refl, ◌∙◌, List, [], ◌∷◌, ◌++◌, arith,
  lt→ltb, length, take, replicate, length-take, length-replicate, write_at, take-append, done,
  copy_from_lem, copy_to_lem, le→leb, gt→leb, length-write_at,
}
use ts_sdk.SmsNas.Session.{Session, smsnas_version, max_sms_pl_sz}
use ts_sdk.SmsNas.Send.{build_smsnas_msg, count_msgs, calculate_total_msgs}

-- The four bytes in front of the payload: version, service, size in two bytes, the low one first.
abbrev pub protocol_header : ℕ → ℕ → List ℕ
protocol_header sz sid = smsnas_version ∷ sid ∷ sz % 256 ∷ sz / 256 % 256 ∷ []

-- What `build_smsnas_msg` leaves in the outgoing buffer.
abbrev pub built_msg : List ℕ → List ℕ → (sz cp sid : ℕ) → List ℕ
built_msg send_msg buf sz cp sid =
    write_at (write_at (write_at send_msg 0 (replicate max_sms_pl_sz 0)) 0 (protocol_header sz sid))
      4 (take cp buf)

pub build_smsnas_msg_lem :
    (s : Session) (buf : List ℕ) (sz cp sid : ℕ)
    → length s.send_msg ≡ max_sms_pl_sz
    → cp ≤ length buf
    → cp + 4 ≤ max_sms_pl_sz
    → build_smsnas_msg buf sz cp sid s
      ≡ done (record s { send_msg = built_msg s.send_msg buf sz cp sid })
unfolding build_smsnas_msg
build_smsnas_msg_lem s buf sz cp sid l c n =
    let z : List ℕ = replicate max_sms_pl_sz 0 in
    let lz : length z ≡ max_sms_pl_sz = length-replicate {A = ℕ} max_sms_pl_sz 0 in
    let a = write_at s.send_msg 0 z in
    let la : length a ≡ max_sms_pl_sz = length-write_at s.send_msg 0 z (omega arith) ∙ l in
    let b = write_at a 0 (protocol_header sz sid) in
    let lb : length b ≡ max_sms_pl_sz =
      length-write_at a 0 (protocol_header sz sid) (omega arith) ∙ la in
    let t : length (take cp buf) ≡ cp = omega (arith, length-take cp buf) in
    rw (copy_to_lem s.send_msg 0 z (omega arith)) (
      rw (copy_to_lem a 0 (protocol_header sz sid) (omega arith)) (
        rw (copy_from_lem buf 0 cp (omega arith))
          (rw (copy_to_lem b 4 (take cp buf) (omega arith)) refl)))

pub length-built_msg :
    (send_msg buf : List ℕ) (sz cp sid : ℕ)
    → length send_msg ≡ max_sms_pl_sz
    → cp ≤ length buf
    → cp + 4 ≤ max_sms_pl_sz
    → length (built_msg send_msg buf sz cp sid) ≡ max_sms_pl_sz
length-built_msg send_msg buf sz cp sid l c n =
    let z : List ℕ = replicate max_sms_pl_sz 0 in
    let lz : length z ≡ max_sms_pl_sz = length-replicate {A = ℕ} max_sms_pl_sz 0 in
    let a = write_at send_msg 0 z in
    let la : length a ≡ max_sms_pl_sz = length-write_at send_msg 0 z (omega arith) ∙ l in
    let b = write_at a 0 (protocol_header sz sid) in
    let lb : length b ≡ max_sms_pl_sz =
      length-write_at a 0 (protocol_header sz sid) (omega arith) ∙ la in
    let t : length (take cp buf) ≡ cp = omega (arith, length-take cp buf) in
    length-write_at b 4 (take cp buf) (omega arith) ∙ lb

-- Of it, the segment takes the header and the payload.
pub take-built_msg :
    (send_msg buf : List ℕ) (sz cp n sid : ℕ)
    → n ≡ cp + 4
    → cp ≤ length buf
    → take n (built_msg send_msg buf sz cp sid) ≡ protocol_header sz sid ++ take cp buf
take-built_msg send_msg buf sz cp n sid e h =
    let t : length (take cp buf) ≡ cp = omega (arith, length-take cp buf) in
    take-append (protocol_header sz sid ++ take cp buf) _ n (omega arith)

-- `calculate_total_msgs` behind its first round.
count_msgs_lem :
    (k fuel n total : ℕ)
    → k < fuel
    → k * 134 < n
    → n ≤ suc k * 134
    → n < 2 ^ 16
    → count_msgs fuel n total ≡ total + k
unfolding count_msgs
count_msgs_lem k zero n total f lo hi w = absurd (omega arith)
count_msgs_lem zero (suc fuel) n total f lo hi w =
    rw (lt→ltb 0 n (omega arith), le→leb n 134 (omega arith)) (omega arith)
count_msgs_lem (suc k) (suc fuel) n total f lo hi w =
    let m : (n + 2 ^ 16 - 134) % 2 ^ 16 ≡ n - 134 = omega arith in
    rw (lt→ltb 0 n (omega arith), gt→leb n 134 (omega arith), m)
      (count_msgs_lem k fuel (n - 134) (total + 1) (omega arith) (omega arith) (omega arith)
          (omega arith)
        ∙ omega arith)

pub calculate_total_msgs_lem :
    (k sz : ℕ) → k * 134 + 130 < sz → sz ≤ k * 134 + 264 → k < 100 → calculate_total_msgs sz ≡ k + 2
unfolding calculate_total_msgs
calculate_total_msgs_lem k sz lo hi b =
    let m : (sz + 2 ^ 16 - 130) % 2 ^ 16 ≡ sz - 130 = omega arith in
    rw (lt→ltb 0 sz (omega arith), m)
      (count_msgs_lem k 491 (sz - 130) 2 (omega arith) (omega arith) (omega arith) (omega arith)
        ∙ omega arith)
