-- ===== src/SmsNas/Receive.antt =====
-- The receiving half of smsnas_protocol.c. What the registered callback does with the session, as
-- it may call the functions of the protocol, is a parameter; so is the time that `sys_get_tick_ms`
-- gives.
pub mod Segment
pub mod Reassemble
pub mod Errors
pub mod Timeout
use ts_sdk.Prelude.{
  ℕ, zero, suc, ◌+◌, ◌-◌, ◌%◌, ◌^◌, Bool, true, false, not, Option, none, some, List, [], ◌∷◌, ltb,
  leb, ◌==◌, if◌then◌else◌, length, get_elem?, Outcome, done, fault, ◌>>=◌, load, copy_from,
  copy_to,
}
use ts_sdk.Sms.Types.{Sms}
use ts_sdk.SmsNas.Session.{
  Session, RcvPath, reset_rcv_path, set_path, send_ack, send_nack, Call, ProtoEvent, proto_rcvd_msg,
  proto_rcvd_mem_ovrfl, smsnas_version, max_conc_sms_num, conc_next_seg_timeout_ms, AckNack,
  no_ack_nack,
}

-- The loop of `is_conct_in_progress`.
abbrev pub any_in_progress : List RcvPath → Bool
any_in_progress [] = false
any_in_progress (p ∷ ps) = if p.conct_in_progress then true else any_in_progress ps

abbrev pub is_conct_in_progress : Session → Bool
is_conct_in_progress s = any_in_progress s.rcv_msg

-- `rcv_path_cleanup`; the path -1 is `none`.
unfoldable pub rcv_path_cleanup : Option ℕ → Session → Session
rcv_path_cleanup path s =
    let s' = if is_conct_in_progress s then s else record s { next_seg_rcv_timeout = 0 } in
    elim path [ none ↦ s' | some i ↦ reset_rcv_path i s' ]

-- `check_validity` of a message with the bytes `buf`, for a receive path.
unfoldable pub check_validity : Sms → List ℕ → RcvPath → Bool → Outcome Bool
check_validity m buf path first_seg =
    if ltb max_conc_sms_num m.num_seg
    then done false
    else if first_seg
    then (if m.seq_no == 1
        then (do version ← load buf 0; done (version == smsnas_version))
        else done false)
    else done (m.seq_no == path.cur_seq + 1)

-- The loop of `retrieve_rcv_path` ends at the path that collects the message, or with the last
-- path that is free, if there is one.
pub data Search : Type 0 where
  collecting : ℕ → Search
  free_path : Option ℕ → Search

abbrev pub collects : Option ℕ → ℕ → Bool
collects none ref_no = false
collects (some cref) ref_no = cref == ref_no

pub find_path : List RcvPath → ℕ → Option ℕ → ℕ → Search
find_path [] i new_rcvp ref_no = free_path new_rcvp
find_path (p ∷ ps) i new_rcvp ref_no =
    let mine = collects p.cref_num ref_no in
    let busy = find_path ps (i + 1) new_rcvp ref_no in
    let free = find_path ps (i + 1) (some i) ref_no in
    if p.conct_in_progress then (if mine then collecting i else busy) else free

-- `retrieve_rcv_path`: the path, whether it is new, and the service, which is 0 for a path that is
-- not new; or -1.
unfoldable pub retrieve_rcv_path : Sms → List ℕ → Session → Outcome (Option (ℕ × Bool × ℕ))
retrieve_rcv_path m buf s = elim (find_path s.rcv_msg 0 none m.ref_no) [
  | collecting i ↦ done (some (i, false, 0))
  | free_path none ↦ done none
  | free_path (some i) ↦ (do
    path ← load s.rcv_msg i
    valid ← check_validity m buf path true
    if valid then (do sid ← load buf 1; done (some (i, true, sid))) else done none)
]

-- `update_ack_rcv_path`, on a path `i` with the contents `p`.
unfoldable pub update_ack_rcv_path : ℕ → Sms → ℕ → RcvPath → Session → Session
update_ack_rcv_path now m i p s = send_ack (
    set_path i
      (record p {
        cur_seq = m.seq_no;
        wr_idx = (p.wr_idx + m.len) % 2 ^ 16;
        next_seq_timeout = now + conc_next_seg_timeout_ms;
      })
      s)

-- `handle_pend_ack_nack`: which of the two modem functions is called, and the session.
pub handle_pend_ack_nack : Session → AckNack × Session
handle_pend_ack_nack s = (s.ack_nack_pend, record s { ack_nack_pend = no_ack_nack })

-- A round of the loop of `smsnas_maintenance`, with `init_poll`.
pub maintain_path : Bool → ℕ → ℕ → RcvPath → Session → Bool → Session × Bool
maintain_path poll_due cur_timestamp i p s init_poll =
    let ns_time =
      (p.next_seq_timeout + (if poll_due then 2 ^ 64 - cur_timestamp else 0)) % 2 ^ 32 in
    let timeout = if init_poll then s.next_seg_rcv_timeout else ns_time in
    if not p.conct_in_progress
    then (s, init_poll)
    else if leb p.next_seq_timeout cur_timestamp
    then (
      (if ltb p.cur_seq p.expected_seq
          then rcv_path_cleanup (some i) (set_path i (record p { conct_in_progress = false }) s)
          else s),
      init_poll,
    )
    else (
      record (set_path i
          (record p { expected_seq = (p.cur_seq + 1) % 256; next_seq_timeout = ns_time }) s) {
            next_seg_rcv_timeout = if leb ns_time timeout then ns_time else timeout;
          },
      true,
    )

pub maintain_paths : ℕ → Bool → ℕ → ℕ → Session → Bool → Session
maintain_paths zero poll_due cur_timestamp i s init_poll = s
maintain_paths (suc n) poll_due cur_timestamp i s init_poll = elim (get_elem? s.rcv_msg i) [
  | none ↦ s
  | some p ↦
      let r = maintain_path poll_due cur_timestamp i p s init_poll in
      maintain_paths n poll_due cur_timestamp (i + 1) r.0 r.1
]

-- `smsnas_maintenance`.
unfoldable pub maintenance : Bool → ℕ → Session → AckNack × Session
maintenance poll_due cur_timestamp s =
    let r = handle_pend_ack_nack s in
    let all = maintain_paths (length s.rcv_msg) poll_due cur_timestamp 0 r.1 false in
    (r.0, (if is_conct_in_progress r.1 then all else r.1))

module _ (upper : Call → Session → Session) where
  -- INVOKE_RECV_CALLBACK with `session.rcv_buf`.
  abbrev pub invoke_recv_callback : ℕ → ProtoEvent → ℕ → Session → Session
  invoke_recv_callback sz event svc_id s =
      if s.has_rcv_cb
      then upper (record { buf = s.rcv_buf; sz = sz; event = event; svc_id = svc_id }) s
      else s

  -- `check_mem_overflow`.
  abbrev pub check_mem_overflow : (rcv_len pl_sz s_id : ℕ) → Session → Bool × Session
  check_mem_overflow rcv_len pl_sz s_id s =
      if ltb pl_sz rcv_len
      then (true, invoke_recv_callback s.rcv_sz proto_rcvd_mem_ovrfl s_id s)
      else (false, s)

  -- The branch of `smsnas_rcv_cb` for the last segment, behind the copy of its bytes into `area`.
  pub finish_msg : ℕ → RcvPath → ℕ → List ℕ → Session → Outcome Session
  finish_msg i rp rcvd area s = do
    msg ← copy_from area rp.buf rcvd
    user ← copy_to s.rcv_buf 0 msg
    done (
        rcv_path_cleanup (some i) (
          invoke_recv_callback rcvd proto_rcvd_msg rp.service_id
            (record s { rcv_valid = false; rcv_buf = user; smsnas_rcv_buf = area })))

  -- The branch of `smsnas_rcv_cb` for a segment of several, behind the choice of a receive path.
  pub collect : ℕ → Sms → List ℕ → ℕ → Bool → ℕ → RcvPath → Session → Outcome Session
  collect now m buf i new s_id rp s =
      let rcvd = (rp.wr_idx + m.len) % 2 ^ 16 in
      let overflow = check_mem_overflow rcvd s.rcv_sz s_id s in
      if overflow.0
      then done (rcv_path_cleanup (some i) (record overflow.1 { rcv_valid = false }))
      else if ltb rp.rcv_sz rcvd
      then done (rcv_path_cleanup (some i) (send_nack s))
      else if new
      then (do
        bytes ← copy_from buf 0 m.len
        area ← copy_to s.smsnas_rcv_buf rp.buf bytes
        done (
            update_ack_rcv_path now m i
              (record rp { service_id = s_id; cref_num = some m.ref_no; conct_in_progress = true })
              (record s { smsnas_rcv_buf = area })))
      else (do
        valid ← check_validity m buf rp false
        if valid
            then (do
              bytes ← copy_from buf 0 m.len
              area ← copy_to s.smsnas_rcv_buf (rp.buf + rp.wr_idx) bytes
              if m.seq_no == m.num_seg
                  then finish_msg i rp rcvd area s
                  else done (update_ack_rcv_path now m i rp (record s { smsnas_rcv_buf = area })))
            else done (rcv_path_cleanup (some i) (send_nack s)))

  -- The branch of `smsnas_rcv_cb` for a message in one segment.
  pub receive_single : Sms → List ℕ → Session → Outcome Session
  receive_single m buf s = do
    version ← load buf 0
    if version == smsnas_version
        then (do
          s_id ← load buf 1
          let overflow = check_mem_overflow m.len s.rcv_sz s_id (record s { rcv_valid = false })
          if overflow.0 then done (rcv_path_cleanup none overflow.1) else (do
            bytes ← copy_from buf 0 m.len
            user ← copy_to s.rcv_buf 0 bytes
            done (
                rcv_path_cleanup none (
                  invoke_recv_callback m.len proto_rcvd_msg s_id
                    (record s { rcv_valid = false; rcv_buf = user })))))
        else done (rcv_path_cleanup none (send_nack s))

  -- `smsnas_rcv_cb(msg_ptr)` at the time `now`.
  unfoldable pub rcv_cb : ℕ → Sms → Session → Outcome Session
  rcv_cb now m s = if not s.rcv_valid then done (rcv_path_cleanup none (send_nack s)) else (do
    buf ← elim (m.buf) [ none ↦ fault | some b ↦ done b ]
    if ltb 1 m.num_seg
        then (do
          path ← retrieve_rcv_path m buf s
          elim path [
            | none ↦ done (rcv_path_cleanup none (send_nack s))
            | some (i, new, s_id) ↦ (do rp ← load s.rcv_msg i; collect now m buf i new s_id rp s)
          ])
        else receive_single m buf s)
