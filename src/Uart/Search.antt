-- ===== src/Uart/Search.antt =====
-- The searches of uart_util.c: `find_substr_in_ring_buffer`, `uart_util_find_pattern` and
-- `uart_util_line_avail`.
pub mod Prefix
pub mod Reference
pub mod Line
use ts_sdk.Prelude.{
  ℕ, zero, suc, ◌+◌, ◌-◌, ◌*◌, ◌/◌, ◌%◌, ◌^◌, ◌≤◌, ◌<◌, min, ◌≡◌, refl, sym, ap, ap₂, ◌∙◌, subst,
  ◌≢◌, ◌↔◌, ◌⊎◌, inl, inr, Bool, true, false, not, ◌&&◌, ◌||◌, Option, none, some, List, [], ◌∷◌,
  ◌++◌, map, append-nil, append_assoc, arith, dec_lt, ℕ_discrete, ltb, leb, ◌==◌, if◌then◌else◌,
  ltb→lt, lt→ltb, leb→le, ==_iff, Bool-cases, Option-cases, length, get_elem?, get_or, set, take,
  drop, replicate, length-append, length-set, length-take, length-drop, length-replicate,
  take-append-drop, get_elem?-eq-get_or, get_or-set_self, get_or-set_ne, write_at, elem_index,
  get_or_index, get_or-append_right, take-length, drop-length, drop-append, take-append, put_at,
  length-put_at, put_at-zero, put_at_snoc, Outcome, done, failed, fault, hang, ◌>>=◌, on_fail, load,
  store, store_lem,
}
use ts_sdk.Uart.Rx.{Rx, uart_buf_size}

-- The do-while loop of `find_substr_in_ring_buffer`, with its five variables. `fault` is a read
-- outside `rx.buffer` or outside the pattern; `none` is the return of -1.
pub find_loop : ℕ → Rx → List ℕ → ℕ → ℕ → (bidx idx found_idx : ℕ) → Bool → Outcome (Option ℕ)
find_loop zero rx substr nlen idx_start bidx idx found_idx first_char_seen = hang
find_loop (suc fuel) rx substr nlen idx_start bidx idx found_idx first_char_seen = do
  s ← load substr idx
  b ← load rx.buffer bidx
  let hit = s == b
  let found' = if hit then (if first_char_seen then found_idx else bidx) else idx_start
  let idx' = if hit then idx + 1 else 0
  let moved = if hit then bidx + 1 else if first_char_seen then found_idx + 1 else bidx + 1
  let bidx' = if moved % 2 ^ 16 == uart_buf_size then 0 else moved % 2 ^ 16
  let rest = find_loop fuel rx substr nlen idx_start bidx' idx' found' hit
  if hit && idx' == nlen then done (some found') else if bidx' == rx.widx then done none else rest

-- Rounds that are enough for any start inside the buffer.
abbrev pub find_fuel : ℕ → ℕ
find_fuel nlen = uart_buf_size * (nlen + 1) + 1

-- `find_substr_in_ring_buffer(idx_start, substr, nlen)`.
pub find_substr : Rx → ℕ → Option (List ℕ) → ℕ → Outcome (Option ℕ)
find_substr rx idx_start none nlen = done none
find_substr rx idx_start (some substr) nlen =
    let found = find_loop (find_fuel nlen) rx substr nlen idx_start idx_start 0 idx_start false in
    if nlen == 0 then done none else found

-- The results of `uart_util_find_pattern`: UART_BUF_INV_PARAM, UART_BUF_NOT_FOUND, an index.
pub data FindResult : Type 0 where
  inv_param not_found : FindResult
  at_index : ℕ → FindResult

abbrev pub found_index : Option ℕ → FindResult
found_index none = not_found
found_index (some i) = at_index i

-- `uart_util_find_pattern(start_idx, pattern, nlen)`; `none` for the start is UART_BUF_BEGIN, the
-- one negative start that callers pass.
unfoldable pub find_pattern : Rx → Option ℕ → Option (List ℕ) → ℕ → Outcome FindResult
find_pattern rx start_idx none nlen = done inv_param
find_pattern rx none (some pattern') nlen =
    if nlen == 0
    then done inv_param
    else if rx.num_unread == 0
    then done not_found
    else (find_substr rx rx.ridx (some pattern') nlen >>= λ r. done (found_index r))
find_pattern rx (some start_idx) (some pattern') nlen =
    if leb uart_buf_size start_idx || nlen == 0
    then done inv_param
    else if rx.num_unread == 0
    then done not_found
    else (find_substr rx start_idx (some pattern') nlen >>= λ r. done (found_index r))

-- The length of a line from the header's index to behind the trailer.
abbrev pub line_length : ℕ → ℕ → ℕ → ℕ
line_length hidx tidx tlen =
    let len = if leb hidx tidx then tidx - hidx else tidx + uart_buf_size - hidx in
    if len == 0 then 0 else len + tlen

-- `uart_util_line_avail` behind the search of the header.
abbrev pub line_from : Rx → Option ℕ → ℕ → List ℕ → Outcome (Option ℕ)
line_from rx none hlen trailer = done (some 0)
line_from rx (some hidx) hlen trailer = do
  t ← find_substr rx ((rx.ridx + hlen) % 2 ^ 16) (some trailer) (length trailer)
  done (some (elim t [ none ↦ 0 | some tidx ↦ line_length hidx tidx (length trailer) ]))

-- `uart_util_line_avail(header, trailer)` on NUL-terminated texts. `none` in the result is
-- UART_BUF_INV_PARAM; `strlen` of a NULL header is a fault.
unfoldable pub line_avail : Rx → Option (List ℕ) → Option (List ℕ) → Outcome (Option ℕ)
line_avail rx header none = done none
line_avail rx none (some trailer) = if rx.num_unread == 0 then done (some 0) else fault
line_avail rx (some header) (some trailer) =
    if rx.num_unread == 0
    then done (some 0)
    else if ltb rx.num_unread (length header + length trailer)
    then done (some 0)
    else (do
      h ← find_substr rx rx.ridx (some header) (length header)
      line_from rx h (length header) trailer)
