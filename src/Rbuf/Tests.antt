-- ===== src/Rbuf/Tests.antt =====
-- The theorems on rbuf.c at concrete buffers.
use ts_sdk.Prelude.{
  ℕ, ◌-◌, ◌^◌, ◌≡◌, refl, none, some, List, [], ◌∷◌, arith, done, get_elem?, true, false,
}
use ts_sdk.Rbuf.{Rbuf, Pool, init}
use ts_sdk.Rbuf.Queue.{slice}
use ts_sdk.Rbuf.Trace.{
  Op, write_byte, read_byte, count_unread, clear_all, run, run_queue, first_pool, init_lem, byte,
  wrote,
}

-- Two unread bytes, the counters about to go round.
abbrev wrapping : Rbuf
wrapping = record { ridx = 2 ^ 32 - 2; widx = 0; sz = 4; memory = 1 ∷ 2 ∷ 3 ∷ 4 ∷ [] }

abbrev calls : List Op
calls =
    write_byte 9
    ∷ write_byte 8
    ∷ write_byte 7
    ∷ read_byte
    ∷ count_unread
    ∷ read_byte
    ∷ read_byte
    ∷ clear_all
    ∷ read_byte
    ∷ []

third_write_refused :
    run_queue 4
      (slice wrapping.memory 4 (2 ^ 32 - 2) 2)
      (write_byte 9 ∷ write_byte 8 ∷ write_byte 7 ∷ read_byte ∷ [])
    ≡ wrote true ∷ wrote true ∷ wrote false ∷ byte (some 3) ∷ []
unfolding run_queue
third_write_refused = refl

abbrev init_memory : List ℕ
init_memory = 7 ∷ 7 ∷ 7 ∷ 7 ∷ []

init_example :
    (r : Rbuf) × (p : Pool) × (init 4 (some init_memory) first_pool ≡ done (some 0, p))
    × (get_elem? p.rbufs 0 ≡ some r)
    × ((ops : List Op) → run (some r) ops ≡ done (run_queue 4 [] ops))
    × (init 4 (some init_memory) p ≡ done (none, p))
init_example =
    init_lem 4 (2 ^ 30) init_memory 4 (some init_memory) (omega arith) (omega arith) (omega arith)
