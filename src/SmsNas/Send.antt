-- ===== src/SmsNas/Send.antt =====
-- The sending half of smsnas_protocol.c. The modem is a parameter: `at_sms_send` answers whether it
-- could send the segment, and has a state of its own.
pub mod Retry
pub mod Segments
pub mod Message
pub mod Whole
pub mod Overrun
use ts_sdk.Prelude.{
  ℕ, zero, suc, ◌+◌, ◌-◌, ◌/◌, ◌%◌, ◌^◌, Bool, not, ◌&&◌, ◌||◌, Option, none, some, List, [], ◌∷◌,
  ltb, leb, ◌==◌, if◌then◌else◌, drop, replicate, Outcome, done, hang, ◌>>=◌,
}
use ts_sdk.Prelude.{copy_from, copy_to}
use ts_sdk.Sms.Types.{Sms}
use ts_sdk.SmsNas.Session.{
  Session, ProtoResult, proto_ok, proto_error, proto_timeout, proto_no_msg, proto_inv_param, is_ok,
  Call, proto_send_timeout, max_retries, smsnas_version, proto_overhead_sz, proto_max_msg_sz,
  max_sms_pl_sz, sms_sz_witht_tuhd_with_phd, sms_sz_with_tuhd_witht_phd, sms_sz_with_tudh_with_phd,
  max_sms_ref_number,
}

-- `build_smsnas_msg`, with `payload` the memory of the user's buffer.
unfoldable pub build_smsnas_msg : List ℕ → ℕ → ℕ → ℕ → Session → Outcome Session
build_smsnas_msg payload total_sz cp_sz s_id s = do
  let header = smsnas_version ∷ s_id ∷ total_sz % 256 ∷ total_sz / 256 % 256 ∷ []
  cleared ← copy_to s.send_msg 0 (replicate max_sms_pl_sz 0)
  with_header ← copy_to cleared 0 header
  bytes ← copy_from payload 0 cp_sz
  msg ← copy_to with_header proto_overhead_sz bytes
  done (record s { send_msg = msg })

-- The loop of `calculate_total_msgs` behind its first round; `sz` is a `uint16_t`.
pub count_msgs : ℕ → ℕ → ℕ → ℕ
count_msgs zero sz total_msg = total_msg
count_msgs (suc fuel) sz total_msg =
    let rest =
      count_msgs fuel ((sz + 2 ^ 16 - sms_sz_with_tuhd_witht_phd) % 2 ^ 16) (total_msg + 1) in
    if ltb 0 sz then (if leb sz sms_sz_with_tuhd_witht_phd then total_msg else rest) else total_msg

-- `calculate_total_msgs`. 491 rounds are enough for a `uint16_t`.
unfoldable pub calculate_total_msgs : ℕ → ℕ
calculate_total_msgs sz =
    if ltb 0 sz then count_msgs 491 ((sz + 2 ^ 16 - sms_sz_with_tudh_with_phd) % 2 ^ 16) 2 else 1

-- `invoke_send_callback`: the calls that it makes.
abbrev pub invoke_send_callback : List ℕ → ℕ → ℕ → ProtoResult → List Call
invoke_send_callback buf sz s_id proto_timeout =
    (record { buf = buf; sz = sz; event = proto_send_timeout; svc_id = s_id }) ∷ []
invoke_send_callback buf sz s_id proto_ok = []
invoke_send_callback buf sz s_id proto_error = []
invoke_send_callback buf sz s_id proto_no_msg = []
invoke_send_callback buf sz s_id proto_inv_param = []

module _ {ℓ} {M : Type ℓ} (at_sms_send : Sms → M → Bool × M) where
  -- The retries of `write_to_modem`: the last answer, the number of retries, the modem.
  pub retry_loop : ℕ → Sms → Bool → ℕ → M → Outcome (Bool × ℕ × M)
  retry_loop zero sms ret retry m =
      if not ret && ltb retry max_retries then hang else done (ret, retry, m)
  retry_loop (suc fuel) sms ret retry m =
      let again = at_sms_send sms m in
      let rest = retry_loop fuel sms again.0 (retry + 1) again.1 in
      if not ret && ltb retry max_retries then rest else done (ret, retry, m)

  -- `write_to_modem(msg, len, ref_num, total_num, seq_num)`, with `msg` the memory from the pointer
  -- on, of which the modem reads `len` bytes.
  unfoldable pub write_to_modem :
      Session → List ℕ → ℕ → (ref_num total_num seq_num : ℕ) → M → Outcome (ProtoResult × M)
  write_to_modem s msg len ref_num total_num seq_num m = do
    bytes ← copy_from msg 0 len
    let sm_msg : Sms = record {
      len = len;
      buf = some bytes;
      ref_no = ref_num;
      num_seg = total_num;
      seq_no = seq_num;
      addr = some s.host;
    }
    let first = at_sms_send sm_msg m
    r ← retry_loop max_retries sm_msg first.0 0 first.1
    done (if ltb max_retries r.1 then proto_timeout else proto_ok, r.2)

  -- What `smsnas_send_msg_to_cloud` returns: its result, the session, the modem, and the calls of the
  -- callback.
  abbrev pub Sent : Type ℓ
  Sent = ProtoResult × Session × M × List Call

  -- The first part of a round of the loop: the first segment gets the protocol header.
  abbrev pub next_segment :
      Session
      → List ℕ
      → (sz service_id cur_seq_num : ℕ) → (temp_buf : List ℕ) → (rem_sz send_sz : ℕ)
      → Outcome (Session × List ℕ × ℕ × ℕ)
  next_segment s buf sz service_id cur_seq_num temp_buf rem_sz send_sz =
      if cur_seq_num == 1
      then (do
        s' ← build_smsnas_msg buf sz sms_sz_with_tudh_with_phd service_id s
        done (
          s',
          s'.send_msg,
          (rem_sz + 2 ^ 16 - sms_sz_with_tudh_with_phd) % 2 ^ 16,
          sms_sz_with_tudh_with_phd + proto_overhead_sz,
        ))
      else done (s, temp_buf, rem_sz, send_sz)

  -- The loop of `smsnas_send_msg_to_cloud`, with its variables.
  pub send_loop :
      ℕ
      → Session
      → List ℕ
      → (sz service_id msg_ref_num total_msgs cur_seq_num : ℕ) → (temp_buf : List ℕ)
      → (rem_sz send_sz total_sent : ℕ) → M
      → Outcome Sent
  send_loop zero s buf sz sid ref total cur temp rem send sent m = hang
  send_loop (suc fuel) s buf sz sid ref total cur temp rem send sent m = do
    n ← next_segment s buf sz sid cur temp rem send
    let rem' = n.2
    let send' = n.3
    w ← write_to_modem n.0 n.1 send' ref total cur m
    let sent' = (sent + (if cur == 1 then send' - proto_overhead_sz else send')) % 2 ^ 16
    let cur' = (cur + 1) % 256
    let last = leb rem' sms_sz_with_tuhd_witht_phd
    let rest =
        send_loop fuel n.0 buf sz sid ref total cur' (drop sent' buf)
          (if last then rem' else rem' - sms_sz_with_tuhd_witht_phd)
          (if last then rem' else sms_sz_with_tuhd_witht_phd) sent' w.1
    if is_ok w.0
        then (if ltb total cur'
            then done
                (proto_ok, record n.0 { msg_ref_num = (ref + 1) % max_sms_ref_number }, w.1, [])
            else rest)
        else done (proto_error, n.0, w.1, invoke_send_callback buf sz sid w.0)

  -- `smsnas_send_msg_to_cloud(buf, sz, service_id, cb)`, with `buf` the memory of the user's buffer.
  unfoldable pub send_msg_to_cloud : Option (List ℕ) → ℕ → ℕ → Session → M → Outcome Sent
  send_msg_to_cloud none sz sid s m = done (proto_inv_param, s, m, [])
  send_msg_to_cloud (some buf) sz sid s m =
      if sz == 0 || ltb proto_max_msg_sz (sz + proto_overhead_sz)
      then done (proto_inv_param, s, m, [])
      else if not s.host_valid
      then done (proto_inv_param, s, m, [])
      else if leb sz sms_sz_witht_tuhd_with_phd
      then (do
        s' ← build_smsnas_msg buf sz sz sid s
        w ← write_to_modem s' s'.send_msg (sz + proto_overhead_sz) s.msg_ref_num 1 0 m
        if is_ok w.0
            then done (proto_ok, s', w.1, [])
            else done (proto_error, s', w.1, invoke_send_callback buf sz sid w.0))
      else (let total_msgs = calculate_total_msgs (sz + proto_overhead_sz) % 256 in
          if ltb 4 total_msgs
          then done (proto_error, s, m, [])
          else send_loop 256 s buf sz sid s.msg_ref_num total_msgs 1 [] sz 0 0 m)
