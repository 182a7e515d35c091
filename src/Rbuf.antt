-- ===== src/Rbuf.antt =====
-- sdk/cloud_comm/src/network/at/sqmonarch/tcp/rbuf.c: the ring buffers between the interrupt that
-- takes in the bytes of a TCP connection and their reader.
pub mod Index
pub mod Queue
pub mod Trace
mod Tests
use ts_sdk.Prelude.{
  ℕ, ◌+◌, ◌-◌, ◌%◌, ◌^◌, Bool, true, false, Option, none, some, List, [], ◌∷◌, ◌==◌, if◌then◌else◌,
  get_or, set, length, replicate, Outcome, done, fault, ◌>>=◌, load, store, leb, write_at,
}

-- `struct rbuf`; the indices are of type `size_t`, of 32 bits, and `memory` is what `data` points to.
pub record Rbuf : Type 0 where
  pub ridx : ℕ
  pub widx : ℕ
  pub sz : ℕ
  pub memory : List ℕ

-- The static `rbufs`, and `rbuf_used`.
pub record Pool : Type 0 where
  pub rbufs : List Rbuf
  pub rbuf_used : List Bool

-- `find_unused_rbuf`; `none` is SIZE_MAX.
pub find_unused_from : List Bool → ℕ → Option ℕ
find_unused_from [] i = none
find_unused_from (used ∷ rest) i = if used then find_unused_from rest (i + 1) else some i

pub find_unused_rbuf : Pool → Option ℕ
unfolding find_unused_from
find_unused_rbuf p = find_unused_from p.rbuf_used 0

-- `memset(r->data, 0, r->sz)`.
abbrev pub zero_memory : List ℕ → ℕ → Outcome (List ℕ)
zero_memory mem sz = if leb sz (length mem) then done (write_at mem 0 (replicate sz 0)) else fault

-- `rbuf_clear`; a pointer to a buffer is the buffer, `none` for NULL.
unfoldable pub clear : Option Rbuf → Outcome (Bool × Option Rbuf)
clear none = done (false, none)
clear (some r) = do
  mem ← zero_memory r.memory r.sz
  done (true, some (record r { ridx = 0; widx = 0; memory = mem }))

abbrev pub no_buffer : Rbuf
no_buffer = record { ridx = 0; widx = 0; sz = 0; memory = [] }

abbrev pub place : Pool → ℕ → Option Rbuf → Pool
place p i none = p
place p i (some r) = record { rbufs = set p.rbufs i r; rbuf_used = set p.rbuf_used i true }

-- `rbuf_init(len, buffer)`; a returned pointer into `rbufs` is its index.
pub init : ℕ → Option (List ℕ) → Pool → Outcome (Option ℕ × Pool)
unfolding find_unused_rbuf clear
init len buffer p = elim (find_unused_rbuf p) [
  | none ↦ done (none, p)
  | some i ↦ elim buffer [
    | none ↦ done (none, p)
    | some mem ↦ (do
      c ← clear (some (record { ridx = 0; widx = 0; sz = len; memory = mem }))
      done (some i, place p i (c.1)))
  ]
]

-- `rbuf_unread`.
unfoldable pub unread : Option Rbuf → ℕ
unread none = 0
unread (some r) = (r.widx + 2 ^ 32 - r.ridx) % 2 ^ 32

-- `rbuf_wb`.
unfoldable pub wb : Option Rbuf → ℕ → Outcome (Bool × Option Rbuf)
unfolding unread
wb none x = done (false, none)
wb (some r) x = if unread (some r) == r.sz then done (false, some r) else (do
  mem ← store r.memory (r.widx % r.sz) x
  done (true, some (record r { memory = mem; widx = (r.widx + 1) % 2 ^ 32 })))

-- `rbuf_rb`, for a pointer that is not NULL; the value that is stored through it, if one is.
unfoldable pub rb : Option Rbuf → Bool → Outcome (Option ℕ × Option Rbuf)
unfolding unread
rb none has_data = done (none, none)
rb (some r) false = done (none, some r)
rb (some r) true = if unread (some r) == 0 then done (none, some r) else (do
  x ← load r.memory (r.ridx % r.sz)
  done (some x, some (record r { ridx = (r.ridx + 1) % 2 ^ 32 })))
