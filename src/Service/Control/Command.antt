-- ===== src/Service/Control/Command.antt =====
-- The commands of the OTT protocol, which ott_protocol.c hands on as messages of the control service.
use ts_sdk.Prelude.{
  length, ◌+◌, ◌==◌, copy_from_lem, copy_to_lem, arith, if◌then◌else◌, refl, ℕ, ◌*◌, ◌%◌, ◌^◌, ◌≡◌,
  Bool, true, false, List, [], ◌∷◌, drop, done,
}
use ts_sdk.Ott.Message.{mt_cmd_pi, mt_cmd_sl}
use ts_sdk.Ott.Session.{cc_service_control}
use ts_sdk.Ott.Response.{fake_receiving_service_msg}
use ts_sdk.Cloud.Types.{rcvd_msg, Action, ack_msg, set_polling, ctrl_sleep}
use ts_sdk.Service.Control.{control_dispatch, control_msg}

-- The value of four bytes, the lowest first.
abbrev pub le32 : (b0 b1 b2 b3 : ℕ) → ℕ
le32 b0 b1 b2 b3 = b3 * 2 ^ 24 + b2 * 2 ^ 16 + b1 * 2 ^ 8 + b0

-- What a command asks for.
abbrev pub command_action : Bool → ℕ → Action
command_action true value = set_polling (1000 * value % 2 ^ 32)
command_action false value = ctrl_sleep value

fake_lem :
    (m_type cmd b0 b1 b2 b3 x5 x6 x7 x8 : ℕ) (rest : List ℕ)
    → fake_receiving_service_msg m_type (cmd ∷ b0 ∷ b1 ∷ b2 ∷ b3 ∷ x5 ∷ x6 ∷ x7 ∷ x8 ∷ rest)
      ≡ done (cmd ∷ b0 ∷ b1 ∷ 1 ∷ (if m_type == mt_cmd_pi then 2 else 1) ∷ b0 ∷ b1 ∷ b2 ∷ b3 ∷ rest)
unfolding fake_receiving_service_msg
fake_lem m_type cmd b0 b1 b2 b3 x5 x6 x7 x8 rest =
    let msg : List ℕ = cmd ∷ b0 ∷ b1 ∷ b2 ∷ b3 ∷ x5 ∷ x6 ∷ x7 ∷ x8 ∷ rest in
    let service : List ℕ = 1 ∷ (if m_type == mt_cmd_pi then 2 else 1) ∷ b0 ∷ b1 ∷ b2 ∷ b3 ∷ [] in
    let more : length msg ≡ 9 + length rest = omega arith in
    rw (fake_receiving_service_msg, copy_from_lem msg 1 4 (omega arith))
      (copy_to_lem msg 3 service (omega arith))

-- A command with a value of four bytes, in a buffer of at least nine: `fake_receiving_service_msg`
-- leaves a message behind the three bytes of the protocol header on which the control service, called
-- by the dispatch, passes 1000 times the value, modulo 2^32, to the protocol as its polling interval, or
-- hands the value to the application as the time to sleep, and acknowledges the message. What the
-- protocol makes of the interval is left to it; a value from 4294968 seconds on is not kept by the
-- product.
pub command_lem :
    (polling : Bool) (cmd b0 b1 b2 b3 x5 x6 x7 x8 : ℕ) (rest : List ℕ)
    → (msg : List ℕ) × (fake_receiving_service_msg
          (if polling then mt_cmd_pi else mt_cmd_sl)
          (cmd ∷ b0 ∷ b1 ∷ b2 ∷ b3 ∷ x5 ∷ x6 ∷ x7 ∷ x8 ∷ rest)
        ≡ done msg)
      × (control_dispatch (drop 3 msg) rcvd_msg cc_service_control
          ≡ done (command_action polling (le32 b0 b1 b2 b3) ∷ ack_msg ∷ []))
unfolding fake_receiving_service_msg control_dispatch control_msg
command_lem true cmd b0 b1 b2 b3 x5 x6 x7 x8 rest = (
  cmd ∷ b0 ∷ b1 ∷ 1 ∷ 2 ∷ b0 ∷ b1 ∷ b2 ∷ b3 ∷ rest,
  fake_lem mt_cmd_pi cmd b0 b1 b2 b3 x5 x6 x7 x8 rest,
  refl,
)
command_lem false cmd b0 b1 b2 b3 x5 x6 x7 x8 rest = (
  cmd ∷ b0 ∷ b1 ∷ 1 ∷ 1 ∷ b0 ∷ b1 ∷ b2 ∷ b3 ∷ rest,
  fake_lem mt_cmd_sl cmd b0 b1 b2 b3 x5 x6 x7 x8 rest,
  refl,
)
