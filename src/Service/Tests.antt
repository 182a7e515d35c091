-- ===== src/Service/Tests.antt =====
-- The theorems on the control service at a concrete command and buffer.
use ts_sdk.Prelude.{ℕ, ◌≡◌, refl, true, false, none, some, List, [], ◌∷◌, drop, done, ◌>>=◌}
use ts_sdk.Ott.Message.{mt_cmd_pi}
use ts_sdk.Ott.Session.{cc_service_control}
use ts_sdk.Ott.Response.{fake_receiving_service_msg}
use ts_sdk.Cloud.Types.{rcvd_msg, ack_msg, Proto, Buffer, Cloud, ends}
use ts_sdk.Cloud.Receive.{play}
use ts_sdk.Cloud.Send.{after_send}
use ts_sdk.Cloud.Ready.{registered}
use ts_sdk.Cloud.Sending.{sending}
use ts_sdk.Service.Control.Resend.{resend_init_config, resend_init_config_lem}
use ts_sdk.Service.Control.{control_dispatch}
use ts_sdk.Service.Control.Command.{le32, command_action, command_lem}

-- A protocol that takes every message.
abbrev quiet : Proto (Unit {0})
quiet = record {
  overhead_sz = 3;
  basic_header = false;
  proto_init = λ p. (true, p);
  get_polling = λ p. 15000;
  set_polling = λ ms p. p;
  send_ack = λ p. p;
  send_nack = λ p. p;
  set_recv_buffer_cb = λ mem sz p. (true, p);
  send_msg_to_cloud = λ mem sz svc p. ends true p;
  maintenance = λ due ts p. ends true p;
  initiate_quit = λ nack p. p;
}

abbrev two_bytes : Buffer
two_bytes = record { bufsz = 2; current_len = 0; buf_ptr = some (9 ∷ 9 ∷ []) }

abbrev idle : Cloud
idle = record {
  send_in_progress = false;
  out_buf = none;
  recv_in_progress = true;
  in_buf = none;
  start_ts = 0;
  polling_int_ms = 15000;
  init_polling_ms = 15000;
  service_table = registered false 5 6;
  buffers = two_bytes ∷ [];
  notices = [];
}

command_example :
    (msg : List ℕ) × (fake_receiving_service_msg mt_cmd_pi
        (0x2A ∷ 60 ∷ 0 ∷ 0 ∷ 0 ∷ 0 ∷ 0 ∷ 0 ∷ 0 ∷ [])
      ≡ done msg)
    × (control_dispatch (drop 3 msg) rcvd_msg cc_service_control
        ≡ done (command_action true (le32 60 0 0 0) ∷ ack_msg ∷ []))
command_example = command_lem true 0x2A 60 0 0 0 0 0 0 0 []

resend_init_config_example : resend_init_config quiet (λ n. []) true 0 (idle, tt) ≡ (
    play quiet (λ n. []) (ends true tt) (sending quiet (λ n. []) 0 two_bytes (1 ∷ 3 ∷ []) idle)
    >>= λ r. done (after_send r))
resend_init_config_example =
    resend_init_config_lem quiet (λ n. []) 5 6 0 9 9 idle tt two_bytes refl refl refl refl refl
