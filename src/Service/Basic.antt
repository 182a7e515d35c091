-- ===== src/Service/Basic.antt =====
-- cc_basic_service.c: the service for messages of the application.
pub mod Total
use ts_sdk.Prelude.{
  ℕ, ◌-◌, Bool, true, false, not, Option, none, some, List, [], ◌∷◌, ◌==◌, if◌then◌else◌, Outcome,
  done, ◌>>=◌, load, store,
}
use ts_sdk.Ott.Session.{cc_service_basic}
use ts_sdk.Cloud.Types.{CcEvent, rcvd_msg, rcvd_overflow, Action, nak_msg, deliver}

abbrev pub basic_protocol_version : ℕ
basic_protocol_version = 1

-- The size of `struct basic_header`, which has its one byte with SMSNAS_PROTOCOL only.
abbrev pub basic_header_sz : Bool → ℕ
basic_header_sz has_header = if has_header then 1 else 0

-- `check_validity` on what `cc_get_recv_buffer_ptr` returns: memory and an index in it, `none` for
-- NULL. It returns whether the message is accepted; otherwise it has refused it by `cc_nak_msg`.
pub check_validity : Option (List ℕ × ℕ) → Outcome Bool
check_validity none = done false
check_validity (some (mem, payload)) = do
  version ← load mem (payload - 1)
  done (version == basic_protocol_version)

-- `basic_dispatch_callback`.
unfoldable pub basic_dispatch :
    Bool → Outcome (Option (List ℕ × ℕ)) → CcEvent → ℕ → Outcome (List Action)
unfolding check_validity
basic_dispatch has_header payload event svc_id =
    if not (svc_id == cc_service_basic)
    then done []
    else if has_header
    then (elim event [
      | rcvd_msg ↦ (do
        ptr ← payload
        valid ← check_validity ptr
        done ((if valid then deliver rcvd_msg else nak_msg) ∷ []))
      | rcvd_overflow ↦ done (deliver rcvd_overflow ∷ [])
      | _ ↦ done []
    ])
    else done (deliver event ∷ [])

-- `basic_add_send_hdr` on what `cc_get_send_buffer_ptr` returns: whether a header was put before the
-- payload, and the memory.
unfoldable pub basic_add_send_hdr : Bool → Option (List ℕ × ℕ) → Outcome (Bool × List ℕ)
basic_add_send_hdr has_header none = done (false, [])
basic_add_send_hdr has_header (some (mem, payload)) =
    if has_header
    then (do mem' ← store mem (payload - 1) basic_protocol_version; done (true, mem'))
    else done (true, mem)
