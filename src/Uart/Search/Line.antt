-- ===== src/Uart/Search/Line.antt =====
-- What `uart_util_line_avail` makes of the two searches, and where it goes wrong.
use ts_sdk.Prelude.{
  load_outside, ◌*◌, ◌==◌, ltb, false, ◌%◌, ◌^◌, ℕ, suc, ◌+◌, ◌*◌, ◌%◌, ◌^◌, ◌≤◌, ◌<◌, ◌≡◌, refl,
  ◌≢◌, false, Option, none, some, List, ◌∷◌, arith, ltb, ◌==◌, length, done, fault,
}
use ts_sdk.Uart.Rx.{Rx, uart_buf_size}
use ts_sdk.Uart.Rx.Queue.{IsValid, ring_slice}
use ts_sdk.Uart.Search.{find_loop, find_fuel, find_substr, line_length, line_from, line_avail}
use ts_sdk.Uart.Search.Prefix.{first_at, span}
use ts_sdk.Uart.Search.Reference.{index_from, find_substr_lem}

-- A search that starts outside the buffer reads outside it at once.
pub find_substr_outside :
    (rx : Rx) (start x : ℕ) (pat : List ℕ)
    → length rx.buffer ≤ start
    → find_substr rx start (some (x ∷ pat)) (length (x ∷ pat)) ≡ fault
unfolding find_substr find_loop
find_substr_outside rx start x pat h =
    let k : find_fuel (suc (length pat)) ≡ suc (uart_buf_size * (suc (length pat) + 1)) =
      omega arith in
    let z : (suc (length pat) == 0) ≡ false = ground arith in
    rw (k, z) (rw (load_outside rx.buffer start h))

-- With a header that is found and enough bytes waiting, a read index that the length of the header
-- takes past the end of the buffer makes `uart_util_line_avail` read outside the buffer.
pub line_avail-fault :
    (rx : Rx) (header trailer : List ℕ) (x hidx : ℕ)
    → IsValid rx
    → 0 < length header
    → rx.num_unread ≢ 0
    → length header + length (x ∷ trailer) ≤ rx.num_unread
    → length header < uart_buf_size
    → first_at header (ring_slice rx.buffer rx.ridx (span rx rx.ridx)) 0 ≡ some hidx
    → uart_buf_size ≤ rx.ridx + length header
    → line_avail rx (some header) (some (x ∷ trailer)) ≡ fault
unfolding line_avail
line_avail-fault rx header trailer x hidx v hp u n hl f o =
    let t : (rx.num_unread == 0) ≡ false = ground arith in
    let t' : ltb rx.num_unread (length header + suc (length trailer)) ≡ false = ground arith in
    let m : (rx.ridx + length header) % 2 ^ 16 ≡ rx.ridx + length header = omega arith in
    rw (t, t')
      (rw (find_substr_lem rx rx.ridx header v.whole v.ridx_in (omega arith) hp, f)
        (rw m (rw (find_substr_outside rx (rx.ridx + length header) x trailer (omega arith)))))

-- The result from the indices of the header and of the trailer.
abbrev pub line_of : Option ℕ → Option ℕ → ℕ → ℕ
line_of none t tlen = 0
line_of (some hidx) none tlen = 0
line_of (some hidx) (some tidx) tlen = line_length hidx tidx tlen

line_from_lem :
    (rx : Rx) (h : Option ℕ) (hlen : ℕ) (trailer : List ℕ) (t : Option ℕ)
    → find_substr rx ((rx.ridx + hlen) % 2 ^ 16) (some trailer) (length trailer) ≡ done t
    → line_from rx h hlen trailer ≡ done (some (line_of h t (length trailer)))
line_from_lem rx none hlen trailer t e = refl
line_from_lem rx (some hidx) hlen trailer none e = rw e
line_from_lem rx (some hidx) hlen trailer (some tidx) e = rw e

-- With header and trailer not empty, as many bytes unread as both have, and a search for the trailer
-- that starts inside the buffer: `uart_util_line_avail` returns 0 where the first header from the read
-- index on, or the first trailer from the end of a header at the read index on, is not found, or where
-- both stand at one index. Else it returns the index of the trailer less that of the header, and 1024
-- more where the trailer has the lower index, and the length of the trailer: the bytes of the line when
-- the trailer comes behind the header in reading order, and a number that is too large by 1024 when it
-- comes before the header without the buffer's end between them.
pub line_avail_lem :
    (rx : Rx) (header trailer : List ℕ)
    → IsValid rx
    → 0 < length header
    → 0 < length trailer
    → length header + length trailer ≤ rx.num_unread
    → rx.ridx + length header < uart_buf_size
    → line_avail rx (some header) (some trailer)
      ≡ done (
          some (
            line_of
              (index_from rx.ridx
                (first_at header (ring_slice rx.buffer rx.ridx (span rx rx.ridx)) 0))
              (index_from (rx.ridx + length header) (
                first_at trailer
                  (ring_slice rx.buffer
                    (rx.ridx + length header)
                    (span rx (rx.ridx + length header)))
                  0))
              (length trailer)))
unfolding line_avail
line_avail_lem rx header trailer v hp tp n o =
    let t : (rx.num_unread == 0) ≡ false = ground arith in
    let t' : ltb rx.num_unread (length header + length trailer) ≡ false = ground arith in
    let m : (rx.ridx + length header) % 2 ^ 16 ≡ rx.ridx + length header = omega arith in
    rw (t, t')
      (rw (find_substr_lem rx rx.ridx header v.whole v.ridx_in (omega arith) hp) (
        line_from_lem rx _ (length header) trailer _
          (rw m (find_substr_lem rx (rx.ridx + length header) trailer v.whole o (omega arith) tp))))
