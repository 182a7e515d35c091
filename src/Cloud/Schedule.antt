-- ===== src/Cloud/Schedule.antt =====
-- When `cc_service_send_receive` polls, and when it asks to be called again.
use ts_sdk.Prelude.{
  ℕ, ◌+◌, ◌-◌, ◌%◌, ◌^◌, ◌≤◌, ◌<◌, ◌≡◌, refl, Bool, true, false, none, List, arith, leb, ◌==◌,
  if◌then◌else◌, Returns, Returns-bind,
}
use ts_sdk.Cloud.Types.{Notice, Cloud, Proto}
use ts_sdk.Cloud.Receive.{reset_conn_states}
use ts_sdk.Cloud.Send.{service_send_receive}
use ts_sdk.Cloud.Ready.{IsReady}
use ts_sdk.Cloud.Callbacks.{StaysInside, play-Returns}

-- Polling is due when the polling is on and the interval has passed.
abbrev pub is_due : (interval elapsed : ℕ) → Bool
is_due interval elapsed = if interval == 0 then false else leb interval elapsed

-- The time until the next call, by the interval that holds after the maintenance: all of it when
-- polling was due, none when polling is off, what is left of it, and 2^32 less the delay when more
-- than the interval has passed already.
abbrev pub IsNextCall : (due : Bool) (elapsed interval next : ℕ) → Type 0
IsNextCall true elapsed interval next = next ≡ interval
IsNextCall false elapsed interval next =
    (interval ≡ 0 → next ≡ 0)
    × (0 < interval → elapsed ≤ interval → elapsed + next ≡ interval)
    × (0 < interval → interval < elapsed → elapsed < 2 ^ 32 → next + (elapsed - interval) ≡ 2 ^ 32)

module _ {ℓ} {P : Type ℓ} (proto : Proto P) (app : Notice → List Bool)
    (control_cb basic_cb i size start cur_ts : ℕ)
    (polling_fits : (p : P) → proto.get_polling p < 2 ^ 32) (c : Cloud) (p : P)
    (ready : IsReady proto control_cb basic_cb i size start c)
    (old_fits : c.polling_int_ms < 2 ^ 32) (not_before : start ≤ cur_ts)
    (time_fits : cur_ts < 2 ^ 64) where
  -- What holds after the call.
  pub record Scheduled (due : Bool) (next : ℕ) (c' : Cloud) : Type 0 where
    pub ready' : IsReady proto control_cb basic_cb i size (if due then cur_ts else start) c'
    pub idle : c'.send_in_progress ≡ false
    pub no_buffer : c'.out_buf ≡ none
    pub fits : c'.polling_int_ms < 2 ^ 32
    pub next_call : IsNextCall due (cur_ts - start) c'.polling_int_ms next

  finish :
      (due : Bool) (c1 : Cloud) (polling : ℕ)
      → polling < 2 ^ 32
      → IsReady proto control_cb basic_cb i size start c1
      → let c2 = record c1 { polling_int_ms = polling } in
        Scheduled due
          (if due
            then polling % 2 ^ 32
            else if polling == 0
            then 0
            else (c1.start_ts + polling + 2 ^ 64 - cur_ts) % 2 ^ 32)
          (reset_conn_states (if due then record c2 { start_ts = cur_ts } else c2))
  unfolding reset_conn_states
  finish true c1 polling f v = record {
    ready' = record { started = refl; in_at = v.in_at; room = v.room; services = v.services };
    idle = refl;
    no_buffer = refl;
    fits = f;
    next_call = omega arith;
  }
  finish false c1 polling f v =
      let s = v.started in
      record {
        ready' = record {
          started = v.started;
          in_at = v.in_at;
          room = v.room;
          services = v.services;
        };
        idle = refl;
        no_buffer = refl;
        fits = f;
        next_call = (λ z. ground arith, λ z l. ground arith, λ z l m. ground arith);
      }

  -- With both services registered and a receive buffer set, at a time of 64 bits not before the start of
  -- the polling interval, with intervals of 32 bits: `cc_service_send_receive` returns, whatever
  -- callbacks the protocol makes in its maintenance as long as it leaves the buffer at its size. Polling
  -- is due by the interval that held before; the interval is measured anew exactly when it was due; the
  -- layer is not busy, and can take any callback again; and the time until the next call is as
  -- `IsNextCall` says: when the maintenance has made the interval shorter than the time that has
  -- passed, it is 2^32 ms less the delay.
  pub service_send_receive_lem :
      StaysInside size (proto.maintenance (is_due c.polling_int_ms (cur_ts - start)) cur_ts p)
      → Returns
          (λ r. Scheduled (is_due c.polling_int_ms (cur_ts - start)) r.0 r.1)
          (service_send_receive proto app cur_ts (c, p))
  unfolding service_send_receive reset_conn_states
  service_send_receive_lem h =
      let s = ready.started in
      let e : (cur_ts + 2 ^ 64 - c.start_ts) % 2 ^ 64 ≡ cur_ts - start = omega arith in
      rw e (
        Returns-bind (λ r. IsReady proto control_cb basic_cb i size start r.1) _ _ _
          (play-Returns proto app control_cb basic_cb i size start _ c h ready)
          (λ r v. finish _ r.1 (proto.get_polling r.2) (polling_fits r.2) v))
