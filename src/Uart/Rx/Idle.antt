-- ===== src/Uart/Rx/Idle.antt =====
-- The idle timer: when the registered callback hears of received bytes.
use ts_sdk.Prelude.{
  ℕ, zero, suc, ◌+◌, ◌^◌, ◌<◌, ◌≡◌, refl, ◌≢◌, inl, inr, true, false, List, [], ◌∷◌, ◌++◌, arith,
  ltb, leb, if◌then◌else◌, ltb→lt, Bool-cases, ◌==◌, ==_iff,
}
use ts_sdk.Uart.Rx.{Uart, Event, recvd_bytes, callback_trigger_mark, idle_timer_callback}

-- `n` expiries of the timer with no byte in between; a stopped timer does not expire.
pub silence : ℕ → Uart → Uart × List Event
silence zero u = (u, [])
silence (suc n) u =
    let (u', evs) = idle_timer_callback u in
    let rest = silence n u' in if u.timer_running then (rest.0, evs ++ rest.1) else (u, [])

-- A timer that runs for a registered callback, with a timeout that the `uint16_t` count can reach.
pub record IsWaiting (u : Uart) : Type 0 where
  pub running : u.timer_running ≡ true
  pub registered : u.has_callback ≡ true
  pub timeout_pos : 0 < u.timeout_chars
  pub timeout_lt : u.timeout_chars < 2 ^ 16

silence_stopped : (n : ℕ) (u : Uart) → u.timer_running ≡ false → silence n u ≡ (u, [])
unfolding silence
silence_stopped zero u h = refl
silence_stopped (suc n) u h = ground arith

idle-counts :
    (u : Uart)
    → IsWaiting u
    → u.rx.num_unread ≢ callback_trigger_mark
    → u.byte_recvd ≡ false
    → u.num_idle_chars + 1 < u.timeout_chars
    → idle_timer_callback u ≡ (record u { num_idle_chars = u.num_idle_chars + 1 }, [])
unfolding idle_timer_callback
idle-counts u w m b h = ground arith

idle-fires :
    (u : Uart)
    → IsWaiting u
    → u.rx.num_unread ≢ callback_trigger_mark
    → u.byte_recvd ≡ false
    → u.num_idle_chars + 1 ≡ u.timeout_chars
    → idle_timer_callback u ≡ (
      record u { num_idle_chars = u.num_idle_chars + 1; timer_running = false },
      recvd_bytes ∷ [],
    )
unfolding idle_timer_callback
idle-fires u w m b h = ground arith

idle-clears :
    (u : Uart)
    → IsWaiting u
    → u.rx.num_unread ≢ callback_trigger_mark
    → u.byte_recvd ≡ true
    → idle_timer_callback u ≡ (record u { byte_recvd = false; num_idle_chars = 0 }, [])
unfolding idle_timer_callback
idle-clears u w m b = ground arith

silence_from :
    (n : ℕ) (u : Uart)
    → IsWaiting u
    → u.rx.num_unread ≢ callback_trigger_mark
    → u.byte_recvd ≡ false
    → u.num_idle_chars < u.timeout_chars
    → ((silence n u).1
        ≡ (if ltb (u.num_idle_chars + n) u.timeout_chars then [] else recvd_bytes ∷ []))
      × ((silence n u).0.timer_running ≡ ltb (u.num_idle_chars + n) u.timeout_chars)
unfolding silence
silence_from zero u w m b h = ground (arith, w.running)
silence_from (suc n) u w m b h = elim (Bool-cases (ltb (u.num_idle_chars + 1) u.timeout_chars)) [
  | inl e ↦ ground (
    arith,
    w.running,
    idle-counts u w m b (ltb→lt _ _ e),
    silence_from n (record u { num_idle_chars = u.num_idle_chars + 1 })
        (record {
          running = w.running;
          registered = w.registered;
          timeout_pos = w.timeout_pos;
          timeout_lt = w.timeout_lt;
        })
        m b (ltb→lt _ _ e),
  )
  | inr e ↦ ground (
    arith,
    w.running,
    idle-fires u w m b (ground arith),
    silence_stopped n (record u { num_idle_chars = u.num_idle_chars + 1; timer_running = false })
        refl,
  )
]

-- With as many bytes as the trigger mark, the timer stops at its next expiry.
idle-marked :
    (u : Uart)
    → IsWaiting u
    → u.rx.num_unread ≡ callback_trigger_mark
    → u.byte_recvd ≡ true
    → idle_timer_callback u ≡ (
      record u { byte_recvd = false; num_idle_chars = 0; timer_running = false },
      recvd_bytes ∷ [],
    )
unfolding idle_timer_callback
idle-marked u w m b = ground arith

-- The expiries behind a received byte that pass without an event.
abbrev pub quiet_expiries : Uart → ℕ
quiet_expiries u = if u.rx.num_unread == callback_trigger_mark then 0 else u.timeout_chars

silence-unmarked :
    (n : ℕ) (u : Uart)
    → IsWaiting u
    → u.rx.num_unread ≢ callback_trigger_mark
    → u.byte_recvd ≡ true
    → ((silence n u).1 ≡ (if leb n u.timeout_chars then [] else recvd_bytes ∷ []))
      × ((silence n u).0.timer_running ≡ leb n u.timeout_chars)
unfolding silence
silence-unmarked zero u w m b = ground (arith, w.running)
silence-unmarked (suc n) u w m b = ground (
  arith,
  w.running,
  w.timeout_pos,
  idle-clears u w m b,
  silence_from n (record u { byte_recvd = false; num_idle_chars = 0 })
      (record {
        running = w.running;
        registered = w.registered;
        timeout_pos = w.timeout_pos;
        timeout_lt = w.timeout_lt;
      })
      m refl w.timeout_pos,
)

silence-marked :
    (n : ℕ) (u : Uart)
    → IsWaiting u
    → u.rx.num_unread ≡ callback_trigger_mark
    → u.byte_recvd ≡ true
    → ((silence n u).1 ≡ (if leb n 0 then [] else recvd_bytes ∷ []))
      × ((silence n u).0.timer_running ≡ leb n 0)
unfolding silence
silence-marked zero u w m b = ground (arith, w.running)
silence-marked (suc n) u w m b = ground (
  arith,
  w.running,
  idle-marked u w m b,
  silence_stopped n (record u { byte_recvd = false; num_idle_chars = 0; timer_running = false })
      refl,
)

-- With a timer that runs for a registered callback, and a timeout of 1 to 65535 characters: behind a
-- received byte, a silent line is reported by one event, and that exactly when the timer has expired
-- more than `timeout_chars` times, or, with as many bytes unread as the trigger mark of 614, when it
-- has expired at all; until then the timer runs, and then it stops.
pub silence_lem :
    (n : ℕ) (u : Uart)
    → IsWaiting u
    → u.byte_recvd ≡ true
    → ((silence n u).1 ≡ (if leb n (quiet_expiries u) then [] else recvd_bytes ∷ []))
      × ((silence n u).0.timer_running ≡ leb n (quiet_expiries u))
silence_lem n u w b = elim (Bool-cases (u.rx.num_unread == callback_trigger_mark)) [
  | inl y ↦ rw y (silence-marked n u w ((==_iff _ _).0 y) b)
  | inr o ↦ rw o (silence-unmarked n u w (ground arith) b)
]
