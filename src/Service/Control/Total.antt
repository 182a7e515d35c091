-- ===== src/Service/Control/Total.antt =====
-- The dispatch of the control service returns, whatever the message is.
use ts_sdk.Prelude.{ℕ, ◌≤◌, List, [], ◌∷◌, arith, length, ◌==◌, Bool-cases, inl, inr, Returns}
use ts_sdk.Cloud.Types.{
  CcEvent, evt_none, rcvd_msg, rcvd_wrong_msg, rcvd_overflow, send_acked, send_nacked, send_timeout,
  rcvd_msg_highprio, evt_ctrl_sleep, evt_ctrl_factory_rst,
}
use ts_sdk.Service.Basic.Total.{NoMessage}
use ts_sdk.Service.Control.{control_msg, control_dispatch}

-- Six bytes of a message are enough for the control service.
control_msg-Returns : (hdr : List ℕ) → 6 ≤ length hdr → Returns (λ _. Unit {0}) (control_msg hdr)
unfolding control_msg
control_msg-Returns [] h = absurd (omega arith)
control_msg-Returns (a ∷ []) h = absurd (omega arith)
control_msg-Returns (a ∷ b ∷ []) h = absurd (omega arith)
control_msg-Returns (a ∷ b ∷ c ∷ []) h = absurd (omega arith)
control_msg-Returns (a ∷ b ∷ c ∷ d ∷ []) h = absurd (omega arith)
control_msg-Returns (a ∷ b ∷ c ∷ d ∷ e ∷ []) h = absurd (omega arith)
control_msg-Returns (a ∷ b ∷ c ∷ d ∷ e ∷ f ∷ rest) h = elim (Bool-cases (a == 1)) [
  | inl v ↦ rw v (elim (Bool-cases (b == 1)) [
    | inl t ↦ rw t tt
    | inr t ↦ rw t (elim (Bool-cases (b == 2)) [ inl u ↦ rw u tt | inr u ↦ rw u tt ])
  ])
  | inr v ↦ rw v tt
]

pub control_dispatch-message :
    (hdr : List ℕ) → 6 ≤ length hdr → Returns (λ _. Unit {0}) (control_dispatch hdr rcvd_msg 0)
unfolding control_dispatch
control_dispatch-message hdr h = control_msg-Returns hdr h

pub control_dispatch-other :
    (hdr : List ℕ) (event : CcEvent)
    → NoMessage event
    → Returns (λ _. Unit {0}) (control_dispatch hdr event 0)
unfolding control_dispatch
control_dispatch-other hdr rcvd_msg h = absurd h
control_dispatch-other hdr evt_none h = tt
control_dispatch-other hdr send_acked h = tt
control_dispatch-other hdr send_nacked h = tt
control_dispatch-other hdr send_timeout h = tt
control_dispatch-other hdr rcvd_wrong_msg h = tt
control_dispatch-other hdr rcvd_msg_highprio h = tt
control_dispatch-other hdr rcvd_overflow h = tt
control_dispatch-other hdr evt_ctrl_sleep h = tt
control_dispatch-other hdr evt_ctrl_factory_rst h = tt
