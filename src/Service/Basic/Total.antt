-- ===== src/Service/Basic/Total.antt =====
-- The dispatch of the basic service returns, whatever the message is.
use ts_sdk.Prelude.{
  ℕ, ◌-◌, ◌<◌, length, Bool, true, false, Option, some, List, Outcome, done, Returns, get_elem?-lt,
  load_lem,
}
use ts_sdk.Cloud.Types.{
  CcEvent, evt_none, rcvd_msg, rcvd_wrong_msg, rcvd_overflow, send_acked, send_nacked, send_timeout,
  rcvd_msg_highprio, evt_ctrl_sleep, evt_ctrl_factory_rst,
}
use ts_sdk.Service.Basic.{basic_dispatch}

pub basic_dispatch-message :
    (has_header : Bool) (mem : List ℕ) (i : ℕ)
    → i - 1 < length mem
    → Returns (λ _. Unit {0}) (basic_dispatch has_header (done (some (mem, i))) rcvd_msg 1)
unfolding basic_dispatch
basic_dispatch-message false mem i h = tt
basic_dispatch-message true mem i h =
    let r = get_elem?-lt mem (i - 1) h in rw (load_lem mem (i - 1) r.1) tt

-- Another event does not make the service read the buffer.
abbrev pub NoMessage : CcEvent → Type 0
NoMessage rcvd_msg = ⊥
NoMessage _ = Unit {0}

pub basic_dispatch-other :
    (has_header : Bool) (payload : Outcome (Option (List ℕ × ℕ))) (event : CcEvent)
    → NoMessage event
    → Returns (λ _. Unit {0}) (basic_dispatch has_header payload event 1)
unfolding basic_dispatch
basic_dispatch-other false payload event h = tt
basic_dispatch-other true payload rcvd_msg h = absurd h
basic_dispatch-other true payload evt_none h = tt
basic_dispatch-other true payload send_acked h = tt
basic_dispatch-other true payload send_nacked h = tt
basic_dispatch-other true payload send_timeout h = tt
basic_dispatch-other true payload rcvd_wrong_msg h = tt
basic_dispatch-other true payload rcvd_msg_highprio h = tt
basic_dispatch-other true payload rcvd_overflow h = tt
basic_dispatch-other true payload evt_ctrl_sleep h = tt
basic_dispatch-other true payload evt_ctrl_factory_rst h = tt
