-- ===== src/Rbuf/Trace.antt =====
-- A history of calls on a ring buffer against a queue of bounded length.
use ts_sdk.Prelude.{
  ℕ, zero, suc, ◌+◌, ◌*◌, ◌%◌, ◌^◌, ◌≤◌, ◌<◌, ◌≡◌, refl, Bool, true, false, Option, none, some,
  List, [], ◌∷◌, ◌++◌, arith, if◌then◌else◌, Bool-cases, inl, inr, length, Outcome, done, ◌>>=◌,
  ltb, ltb→lt, get_elem?,
}
use ts_sdk.Rbuf.{Rbuf, Pool, unread, wb, rb, clear, init}
use ts_sdk.Rbuf.Queue.{
  slice, length-slice, slice-set, Holds, unread_lem, wb-room, wb-full, written, written-Holds,
  rb-empty, rb-byte, byte-Holds, cleared, clear_lem, cleared-Holds,
}

-- The calls of `rbuf_wb`, `rbuf_rb`, `rbuf_unread` and `rbuf_clear`.
pub data Op : Type 0 where
  write_byte : ℕ → Op
  read_byte count_unread clear_all : Op

pub data Reply : Type 0 where
  wrote : Bool → Reply
  byte : Option ℕ → Reply
  counted : ℕ → Reply
  cleared_all : Bool → Reply

pub run : Option Rbuf → List Op → Outcome (List Reply)
run r [] = done []
run r (write_byte x ∷ ops) = do w ← wb r x; rest ← run (w.1) ops; done (wrote w.0 ∷ rest)
run r (read_byte ∷ ops) = do b ← rb r true; rest ← run (b.1) ops; done (byte b.0 ∷ rest)
run r (count_unread ∷ ops) = do rest ← run r ops; done (counted (unread r) ∷ rest)
run r (clear_all ∷ ops) = do c ← clear r; rest ← run (c.1) ops; done (cleared_all c.0 ∷ rest)

-- The same on a queue of at most `cap` bytes.
unfoldable pub run_queue : ℕ → List ℕ → List Op → List Reply
run_queue cap q [] = []
run_queue cap q (write_byte x ∷ ops) =
    if ltb (length q) cap
    then wrote true ∷ run_queue cap (q ++ (x ∷ [])) ops
    else wrote false ∷ run_queue cap q ops
run_queue cap [] (read_byte ∷ ops) = byte none ∷ run_queue cap [] ops
run_queue cap (x ∷ q) (read_byte ∷ ops) = byte (some x) ∷ run_queue cap q ops
run_queue cap q (count_unread ∷ ops) = counted (length q) ∷ run_queue cap q ops
run_queue cap q (clear_all ∷ ops) = cleared_all true ∷ run_queue cap [] ops

-- No history of calls tells a ring buffer, whose size divides 2^32, from the bounded queue of its
-- unread bytes, however often the counters go round; and no call goes outside its memory.
pub run_refines :
    (ops : List Op) (r : Rbuf) (c n k : ℕ)
    → Holds r c n k
    → run (some r) ops ≡ done (run_queue r.sz (slice r.memory r.sz c n) ops)
unfolding run run_queue
run_refines [] r c n k v = refl
run_refines (write_byte x ∷ ops) r c n k v = elim (Bool-cases (ltb n r.sz)) [
  | inl e ↦
      let h : n < r.sz = ltb→lt n r.sz e in
      rw (length-slice r.memory r.sz c n, e)
        (rw
          (
            wb-room c n k v x h,
            run_refines ops (written c n k v x) c (suc n) k (written-Holds c n k v x h),
            slice-set r.memory r.sz c n x h v.whole,
          )
          refl)
  | inr e ↦
      let h : n ≡ r.sz = let b = v.bounded in ground arith in
      rw (length-slice r.memory r.sz c n, e)
        (rw (wb-full c n k v x h, run_refines ops r c n k v) refl)
]
run_refines (read_byte ∷ ops) r c zero k v =
    rw (rb-empty c 0 k v refl, run_refines ops r c 0 k v) refl
run_refines (read_byte ∷ ops) r c (suc m) k v =
    rw
      (
        rb-byte c (suc m) k v (omega arith),
        run_refines ops (record r { ridx = (r.ridx + 1) % 2 ^ 32 }) (c + 1) m k
            (byte-Holds c (suc m) k v m refl),
      )
      refl
run_refines (count_unread ∷ ops) r c n k v =
    rw (run_refines ops r c n k v, unread_lem c n k v, length-slice r.memory r.sz c n) refl
run_refines (clear_all ∷ ops) r c n k v =
    rw
      (
        clear_lem r v.whole,
        run_refines ops (cleared r) 0 0 k (cleared-Holds r k v.whole v.divides v.size_fits),
      )
      refl

-- Before anything is initialised.
abbrev pub first_pool : Pool
first_pool = record {
  rbufs = record { ridx = 0; widx = 0; sz = 0; memory = [] } ∷ [];
  rbuf_used = false ∷ [];
}

-- The buffer that the first call of `rbuf_init` sets up, on at least `len` bytes of memory with a
-- length that divides 2^32, behaves as the empty queue of at most `len` bytes, and a second call
-- returns NULL.
pub init_lem :
    (len k : ℕ) (mem : List ℕ) (again : ℕ) (other : Option (List ℕ))
    → len ≤ length mem
    → len * k ≡ 2 ^ 32
    → len < 2 ^ 32
    → (r : Rbuf) × (p : Pool) × (init len (some mem) first_pool ≡ done (some 0, p))
      × (get_elem? p.rbufs 0 ≡ some r)
      × ((ops : List Op) → run (some r) ops ≡ done (run_queue len [] ops))
      × (init again other p ≡ done (none, p))
unfolding init
init_lem len k mem again other h d f =
    let fresh : Rbuf = record { ridx = 0; widx = 0; sz = len; memory = mem } in
    let r = cleared fresh in
    (
      r,
      record { rbufs = r ∷ []; rbuf_used = true ∷ [] },
      rw (clear_lem fresh h) refl,
      refl,
      (λ ops. run_refines ops r 0 0 k (cleared-Holds fresh k h d f)),
      refl,
    )
