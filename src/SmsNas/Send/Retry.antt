-- ===== src/SmsNas/Send/Retry.antt =====
-- `write_to_modem`: up to four attempts, and no failure.
use ts_sdk.Prelude.{
  fault, copy_from_outside, ℕ, zero, suc, ◌+◌, ◌≤◌, ◌≡◌, refl, Bool, true, false, some, List, arith,
  ltb, if◌then◌else◌, lt→ltb, length, take, length-take, Outcome, done, ◌>>=◌, copy_from_lem,
  ge→ltb, ◌<◌,
}
use ts_sdk.Sms.Types.{Sms}
use ts_sdk.SmsNas.Session.{Session, proto_ok, proto_timeout, max_retries, ProtoResult}
use ts_sdk.SmsNas.Send.{retry_loop, write_to_modem}

-- A segment as `write_to_modem` hands it to the modem.
abbrev pub segment_sms : List ℕ → List ℕ → (ref_num total_num seq_num : ℕ) → Sms
segment_sms host bytes ref_num total_num seq_num = record {
  len = length bytes;
  buf = some bytes;
  ref_no = ref_num;
  num_seg = total_num;
  seq_no = seq_num;
  addr = some host;
}

module _ {ℓ} {M : Type ℓ} (at_sms_send : Sms → M → Bool × M) where
  -- Attempts until one succeeds, but no more than `n`.
  pub attempts : ℕ → Sms → M → M
  attempts zero sms m = m
  attempts (suc n) sms m = let (ok, m') = at_sms_send sms m in if ok then m' else attempts n sms m'

  abbrev finish : Bool × ℕ × M → Outcome (ProtoResult × M)
  finish r = done (if ltb max_retries r.1 then proto_timeout else proto_ok, r.2)

  -- The loop never makes more retries than allowed, so that it is never taken for a timeout.
  retry_loop_lem :
      (fuel : ℕ) (sms : Sms) (ret : Bool) (retry : ℕ) (m : M)
      → retry + fuel ≡ max_retries
      → (retry_loop at_sms_send fuel sms ret retry m >>= finish)
        ≡ done (proto_ok, (if ret then m else attempts fuel sms m))
  unfolding retry_loop attempts
  retry_loop_lem zero sms true retry m h = rw (ge→ltb max_retries retry (omega arith)) refl
  retry_loop_lem zero sms false retry m h =
      rw (ge→ltb retry max_retries (omega arith), ge→ltb max_retries retry (omega arith)) refl
  retry_loop_lem (suc fuel) sms true retry m h = rw (ge→ltb max_retries retry (omega arith)) refl
  retry_loop_lem (suc fuel) sms false retry m h = rw (lt→ltb retry max_retries (omega arith)) (
      retry_loop_lem fuel sms (at_sms_send sms m).0 (retry + 1) (at_sms_send sms m).1 (omega arith))

  -- Whatever the modem answers, `write_to_modem` returns PROTO_OK: the check for exhausted retries
  -- never fires. It makes at most four attempts, up to the first that succeeds.
  pub write_to_modem_lem :
      (s : Session) (msg : List ℕ) (len ref_num total_num seq_num : ℕ) (m : M)
      → len ≤ length msg
      → write_to_modem at_sms_send s msg len ref_num total_num seq_num m
        ≡ done (
          proto_ok,
          attempts
              (suc max_retries)
              (segment_sms s.host (take len msg) ref_num total_num seq_num)
              m,
        )
  unfolding write_to_modem attempts
  write_to_modem_lem s msg len ref_num total_num seq_num m h =
      let n : length (take len msg) ≡ len = omega (arith, length-take len msg) in
      rw (copy_from_lem msg 0 len (omega arith)) (
        rw n (
          let sms = record (segment_sms s.host (take len msg) ref_num total_num seq_num) {
            len = len;
          } in
          let first = at_sms_send sms m in retry_loop_lem max_retries sms first.0 0 first.1 refl))

  pub write_to_modem-fault :
      (s : Session) (msg : List ℕ) (len ref_num total_num seq_num : ℕ) (m : M)
      → length msg < len
      → write_to_modem at_sms_send s msg len ref_num total_num seq_num m ≡ fault
  unfolding write_to_modem
  write_to_modem-fault s msg len ref_num total_num seq_num m h =
      rw (copy_from_outside msg 0 len (omega arith)) refl

  -- The first attempt is the only one where it succeeds.
  pub attempts-first :
      (n : ℕ) (sms : Sms) (m : M)
      → (at_sms_send sms m).0 ≡ true
      → attempts (suc n) sms m ≡ (at_sms_send sms m).1
  unfolding attempts
  attempts-first n sms m e = rw e refl
