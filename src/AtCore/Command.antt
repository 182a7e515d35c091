-- ===== src/AtCore/Command.antt =====
-- A command to the modem and its response, `at_core_wcmd` of at_core.c. `rounds` bounds the loops
-- around a wait, `fuel` the wait itself.
use ts_sdk.Prelude.{
  ℕ, zero, suc, ◌+◌, ◌-◌, ◌%◌, ◌^◌, Bool, true, false, not, ◌&&◌, Option, none, some, List, [], ◌∷◌,
  ◌++◌, ltb, ◌==◌, if◌then◌else◌, length, replicate, Outcome, done, hang, ◌>>=◌,
}
use ts_sdk.Uart.Rx.{inv_param, bytes, read, available}
use ts_sdk.Uart.Search.{line_avail}
use ts_sdk.AtCore.{
  Core, Outside, AtRetCode, at_success, at_rsp_timeout, at_failure, at_tx_failure, at_wrong_rsp,
  at_recheck_modem, crlf, line_bytes, with_rx, set_waiting, wait_for_rsp, wait_for_bytes,
  uart_waited_read, cleanup, comm_send_and_wait_rsp,
}

-- `err_str`, CR LF ERROR CR LF.
abbrev pub err_str : List ℕ
err_str = 13 ∷ 10 ∷ 69 ∷ 82 ∷ 82 ∷ 79 ∷ 82 ∷ 13 ∷ 10 ∷ []

-- RSP_BUF_DELAY.
abbrev pub rsp_buf_delay : ℕ
rsp_buf_delay = 2000

-- `strncmp(a, b, n) == 0` of texts with a NUL at their end.
abbrev pub same_start : ℕ → List ℕ → List ℕ → Bool
same_start zero a b = true
same_start (suc n) [] [] = true
same_start (suc n) [] (y ∷ b) = y == 0
same_start (suc n) (x ∷ a) [] = x == 0
same_start (suc n) (x ∷ a) (y ∷ b) =
    let rest = same_start n a b in if x == y then (if x == 0 then true else rest) else false

-- `strncpy` of as many characters as there are.
abbrev pub strncpy : List ℕ → List ℕ
strncpy [] = []
strncpy (x ∷ xs) = let rest = strncpy xs in if x == 0 then replicate (length xs + 1) 0 else x ∷ rest

abbrev pub is_success : AtRetCode → Bool
is_success at_success = true
is_success at_rsp_timeout = false
is_success at_failure = false
is_success at_tx_failure = false
is_success at_wrong_rsp = false
is_success at_recheck_modem = false

-- `__at_handle_error_rsp`.
unfoldable pub handle_error_rsp : List ℕ → Option (List ℕ) → AtRetCode
handle_error_rsp rsp_buf none = at_wrong_rsp
handle_error_rsp rsp_buf (some err) =
    if not (same_start (length err) rsp_buf err)
    then (if same_start (length err_str) rsp_buf err_str then at_failure else at_wrong_rsp)
    else at_failure

-- The bytes that are wanted behind the first three; `none` for a wrong response.
unfoldable pub wanted_bytes : List ℕ → (rsp exrsp : List ℕ) → Option (List ℕ) → Option ℕ
wanted_bytes temp rsp exrsp err =
    let more : List ℕ → Option ℕ = λ text. some ((length text + 2 ^ 16 - 3) % 2 ^ 16) in
    let other : Option ℕ = elim err [
      | none ↦ none
      | some e ↦ if same_start 3 temp e then more e else none
    ] in
    if same_start 3 temp rsp
    then more rsp
    else if same_start 3 temp exrsp
    then more exrsp
    else if same_start 3 temp err_str
    then more err_str
    else other

-- `at_rsp_desc`, with the response handler, and `at_command_desc`.
pub record RspDesc {ℓ} (W : Type ℓ) : Type ℓ where
  pub rsp : Option (List ℕ)
  pub rsp_handler : Option (List ℕ → ℕ → Core W → Core W)

pub record CommandDesc {ℓ} (W : Type ℓ) : Type ℓ where
  pub comm : List ℕ
  pub comm_timeout : ℕ
  pub rsp_desc : List (RspDesc W)
  pub err : Option (List ℕ)

-- Where a response stands: whether the loop over the responses goes on, its result, the time limit that
-- is left, the bytes that have been read and the number of bytes of the response.
pub record Progress {ℓ} (W : Type ℓ) : Type ℓ where
  pub goes_on : Bool
  pub result : AtRetCode
  pub timeout : ℕ
  pub first : List ℕ
  pub read_bytes : ℕ
  pub core : Core W

module _ {ℓ} {W : Type ℓ} (out : Outside W) where
  abbrev pub stopped : AtRetCode → ℕ → Core W → Progress W
  stopped res timeout c = record {
    goes_on = false;
    result = res;
    timeout = timeout;
    first = [];
    read_bytes = 0;
    core = c;
  }

  -- `__at_dump_buffer(NULL, 0)`, whose `uint8_t` index never gets to 256.
  unfoldable pub dump_buffer : Core W → Outcome (Core W)
  dump_buffer c =
      let n = available c.uart.rx in
      if n == 0
      then done c
      else if ltb 255 n
      then hang
      else done (with_rx out c (read true n c.uart.rx).1)

  -- Waiting for a whole line.
  unfoldable pub take_line : ℕ → ℕ → ℕ → Core W → Outcome (Progress W)
  take_line zero fuel timeout c = hang
  take_line (suc rounds) fuel timeout c = do
    l ← line_avail c.uart.rx (some crlf) (some crlf)
    let more : Outcome (Progress W) = (do
      w ← wait_for_rsp out fuel timeout c
      let again = take_line rounds fuel w.timeout w.core
      let late : Outcome (Progress W) = (do
        c' ← dump_buffer w.core
        done (stopped at_rsp_timeout w.timeout c'))
      elim (w.result) [ at_rsp_timeout ↦ late | _ ↦ again ])
    if line_bytes l == 0
        then more
        else done (record {
          goes_on = true;
          result = at_success;
          timeout = timeout;
          first = [];
          read_bytes = line_bytes l;
          core = c;
        })

  -- Waiting for the first three bytes and for as many as they announce.
  unfoldable pub take_bytes :
      ℕ → ℕ → ℕ → (rsp exrsp : List ℕ) → Option (List ℕ) → Core W → Outcome (Progress W)
  take_bytes rounds fuel timeout rsp exrsp err c = do
    t ← uart_waited_read out rounds fuel 3 timeout c
    let wrong : Outcome (Progress W) = (do
      let c1 = t.3
      c2 ← dump_buffer (record c1 { world = out.sys_delay rsp_buf_delay c1.world })
      done (stopped at_wrong_rsp t.2 c2))
    let rest : ℕ → Outcome (Progress W) = (λ wanted. do
      b ← wait_for_bytes out rounds fuel (available (t.3).uart.rx) wanted t.2 (t.3)
      let c1 = set_waiting out false (b.3)
      done (record {
        goes_on = is_success b.0;
        result = b.0;
        timeout = b.2;
        first = t.1;
        read_bytes = (b.1 + 3) % 2 ^ 16;
        core = c1;
      }))
    if not (is_success t.0)
        then done (stopped t.0 t.2 (t.3))
        else elim (wanted_bytes t.1 rsp exrsp err) [ none ↦ wrong | some wanted ↦ rest wanted ]

  -- The processing of a response that is there.
  unfoldable pub process_response :
      (rsp exrsp : List ℕ)
      → Option (List ℕ)
      → Option (List ℕ → ℕ → Core W → Core W)
      → Progress W
      → Progress W
  process_response rsp exrsp err handler p =
      let c = p.core in
      let sz = p.read_bytes - length p.first in
      let (res, rx') = read true sz c.uart.rx in
      let c1 = with_rx out c rx' in
      let read_in : Progress W = elim res [
        | inv_param ↦ stopped at_failure p.timeout c1
        | bytes n text ↦
            let rsp_buf = strncpy p.first ++ text in
            let handled : Core W = elim handler [
              | none ↦ c1
              | some h ↦ h rsp_buf p.read_bytes c1
            ] in
            if not (n == sz)
            then stopped at_failure p.timeout c1
            else if not (same_start (length rsp) rsp_buf rsp)
                && not (same_start (length exrsp) rsp_buf exrsp)
            then stopped (handle_error_rsp rsp_buf err) p.timeout c1
            else record {
              goes_on = true;
              result = at_success;
              timeout = p.timeout;
              first = [];
              read_bytes = 0;
              core = handled;
            }
      ] in
      if ltb p.read_bytes (length p.first) then stopped at_failure p.timeout c else read_in

  -- The loop over the response descriptors.
  unfoldable pub responses :
      ℕ
      → ℕ
      → CommandDesc W
      → (read_line : Bool) → List (RspDesc W)
      → AtRetCode
      → ℕ
      → Core W
      → Outcome (AtRetCode × Core W)
  responses rounds fuel desc read_line [] result timeout c = done (result, c)
  responses rounds fuel desc read_line (d ∷ ds) result timeout c =
      let skip = responses rounds fuel desc read_line ds result timeout c in
      let expect : List ℕ → Outcome (AtRetCode × Core W) = (λ rsp. do
        let exrsp = desc.comm ++ rsp
        let line = take_line rounds fuel timeout c
        let some_bytes = take_bytes rounds fuel timeout rsp exrsp desc.err c
        p ← if read_line then line else some_bytes
        let q = process_response rsp exrsp desc.err d.rsp_handler p
        let next = responses rounds fuel desc read_line ds q.result q.timeout q.core
        if not p.goes_on
            then done (p.result, p.core)
            else if not q.goes_on
            then done (q.result, q.core)
            else next) in
      elim (d.rsp) [ none ↦ skip | some rsp ↦ expect rsp ]

  -- `at_core_wcmd`.
  unfoldable pub wcmd :
      ℕ → ℕ → Option (CommandDesc W) → Bool → Core W → Outcome (AtRetCode × Core W)
  wcmd rounds fuel none read_line c = done (at_failure, c)
  wcmd rounds fuel (some desc) read_line c = do
    w ← comm_send_and_wait_rsp out fuel (some desc.comm) desc.comm_timeout c
    let c1 = record w.core { proc_rsp = true }
    let answers = responses rounds fuel desc read_line desc.rsp_desc at_success w.timeout c1
    r ← if is_success w.result then answers else done (w.result, w.core)
    let c2 = r.1
    c3 ← cleanup out fuel (record c2 {
      proc_rsp = false;
      waiting_resp = false;
      world = out.sys_delay c2.comm_delay_ms c2.world;
    })
    done (r.0, c3)
