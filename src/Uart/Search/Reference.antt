-- ===== src/Uart/Search/Reference.antt =====
-- `find_substr_in_ring_buffer` against a search in a plain list.
use ts_sdk.Prelude.{
  ℕ, zero, suc, ◌+◌, ◌%◌, ◌^◌, ◌<◌, ◌≡◌, refl, ap, ◌∙◌, inl, inr, Bool, true, false, Option, none,
  some, List, [], ◌∷◌, arith, ltb, ◌==◌, if◌then◌else◌, Bool-cases, length, get_elem?,
  get_elem?-eq-get_or, elem_index, done, load_lem, get_or, drop, take, ap₂, sym, ◌≢◌, ◌*◌, ◌≤◌,
  ==_iff, subst, lt→ltb,
}
use ts_sdk.Uart.Rx.{Rx, uart_buf_size}
use ts_sdk.Prelude.{inl, inr, Bool-cases}
use ts_sdk.Uart.Rx.Queue.{ring_slice, length-ring_slice}
use ts_sdk.Uart.Search.Prefix.{
  first_at, span, first_at-short, ring_slice-get, take-suc_eq, is_prefix_of_take, is_prefix-miss,
}
use ts_sdk.Uart.Search.{find_loop, find_substr, find_fuel}

-- The buffer index of a position of the stretch that is scanned from `start`.
abbrev pub index_from : ℕ → Option ℕ → Option ℕ
index_from start none = none
index_from start (some c) = some ((start + c) % uart_buf_size)

module _ (rx : Rx) (start : ℕ) (whole : length rx.buffer ≡ uart_buf_size)
    (start_in : start < uart_buf_size) (widx_in : rx.widx < uart_buf_size) where
  -- The buffer index of the position `c` of the scanned stretch.
  abbrev pos : ℕ → ℕ
  pos c = (start + c) % uart_buf_size

  abbrev index_of : Option ℕ → Option ℕ
  index_of = index_from start

  wrap_index :
      (x : ℕ)
      → x < uart_buf_size
      → (if (x + 1) % 2 ^ 16 == uart_buf_size then 0 else (x + 1) % 2 ^ 16)
        ≡ (x + 1) % uart_buf_size
  wrap_index x h = ground arith

  wrap_pos :
      (k : ℕ)
      → (if (pos k + 1) % 2 ^ 16 == uart_buf_size then 0 else (pos k + 1) % 2 ^ 16) ≡ pos (k + 1)
  wrap_pos k = wrap_index (pos k) (omega arith) ∙ step
    where
      step : (pos k + 1) % uart_buf_size ≡ pos (k + 1)
      step = omega arith

  -- The candidate of the round, whether its first character has been seen or not.
  candidate :
      (c idx found : ℕ) (seen : Bool)
      → (seen ≡ true → found ≡ pos c)
      → seen ≡ ltb 0 idx
      → (if seen then found else pos (c + idx)) ≡ pos c
  candidate c idx found true hs hi = hs refl
  candidate c zero found false hs hi = ap pos {y = c} (omega arith)
  candidate c (suc idx) found false hs hi = absurd (ground arith)

  candidate_next :
      (c idx found : ℕ) (seen : Bool)
      → (seen ≡ true → found ≡ pos c)
      → seen ≡ ltb 0 idx
      → (if seen then found + 1 else pos (c + idx) + 1) ≡ pos c + 1
  candidate_next c idx found seen hs hi = ground (arith, candidate c idx found seen hs hi)

  -- One round of the loop on the pattern `pat`, at the candidate `c` of which `idx` characters
  -- have matched.
  round :
      (fuel : ℕ) (pat : List ℕ) (c idx p r : ℕ)
      → get_elem? pat idx ≡ some p
      → get_elem? rx.buffer (pos (c + idx)) ≡ some r
      → (found : ℕ) (seen : Bool) → (seen ≡ true → found ≡ pos c)
      → (seen ≡ ltb 0 idx)
      → find_loop (suc fuel) rx pat (length pat) start (pos (c + idx)) idx found seen ≡ (
          if p == r
          then (if idx + 1 == length pat
              then done (some (pos c))
              else if pos (c + idx + 1) == rx.widx
              then done none
              else find_loop fuel rx pat
                  (length pat)
                  start
                  (pos (c + idx + 1))
                  (idx + 1)
                  (pos c)
                  true)
          else if pos (c + 1) == rx.widx
          then done none
          else find_loop fuel rx pat (length pat) start (pos (c + 1)) 0 start false)
  unfolding find_loop
  round fuel pat c idx p r e f found seen hs hi =
      rw (load_lem pat idx e, load_lem rx.buffer (pos (c + idx)) f)
        (elim (Bool-cases (p == r)) [
          | inl hit ↦ rw hit (rw (candidate c idx found seen hs hi, wrap_pos (c + idx)))
          | inr miss ↦ rw miss (rw (candidate_next c idx found seen hs hi, wrap_pos c))
        ])

  -- The scan ends where the stretch does.
  pos-end : (k : ℕ) → 0 < k → k ≤ span rx start → (pos k == rx.widx) ≡ (k == span rx start)
  pos-end k h l = ground arith

  slice-tail :
      (x : ℕ) (xs : List ℕ) (c : ℕ)
      → (x ∷ xs) ≡ ring_slice rx.buffer (pos c) (suc (length xs))
      → xs ≡ ring_slice rx.buffer (pos (c + 1)) (length xs)
  slice-tail x xs c e = ap (drop 1) e ∙ ap (λ j. ring_slice rx.buffer j (length xs)) step
    where
      step : (pos c + 1) % uart_buf_size ≡ pos (c + 1)
      step = omega arith

  -- The character that the loop reads.
  slice-here :
      (v : List ℕ) (c idx : ℕ)
      → v ≡ ring_slice rx.buffer (pos c) (length v)
      → idx < length v
      → get_elem? rx.buffer (pos (c + idx)) ≡ some (get_or v idx 0)
  slice-here v c idx sl h =
      elem_index rx.buffer (pos (c + idx)) ((pos c + idx) % uart_buf_size) (omega arith)
      ∙ ring_slice-get rx.buffer (pos c) (length v) idx whole (omega arith) h
      ∙ ap (λ l. get_elem? l idx) (sym sl)
      ∙ get_elem?-eq-get_or v idx 0 h

  -- The loop, at the candidate `c` of which `idx` characters have matched, where `v` is the rest
  -- of the stretch from that candidate on.
  scan :
      (fuel : ℕ) (pat v : List ℕ) (c idx found : ℕ) (seen : Bool)
      → length v * suc (length pat) ≤ fuel + idx
      → idx < length pat
      → idx < length v
      → c + length v ≡ span rx start
      → v ≡ ring_slice rx.buffer (pos c) (length v)
      → take idx pat ≡ take idx v
      → (seen ≡ true → found ≡ pos c)
      → seen ≡ ltb 0 idx
      → find_loop fuel rx pat (length pat) start (pos (c + idx)) idx found seen
        ≡ done (index_of (first_at pat v c))
  scan zero pat [] c idx found seen f hp hv ht sl tk hs hi = absurd (omega arith)
  scan zero pat (x ∷ xs) c idx found seen f hp hv ht sl tk hs hi = absurd (omega arith)
  scan (suc fuel) pat [] c idx found seen f hp hv ht sl tk hs hi = absurd (omega arith)
  scan (suc fuel) pat (x ∷ xs) c idx found seen f hp hv ht sl tk hs hi =
      let p = get_or pat idx 0 in
      let r = get_or (x ∷ xs) idx 0 in
      round fuel pat c idx p r (get_elem?-eq-get_or pat idx 0 hp) (slice-here (x ∷ xs) c idx sl hv)
        found seen hs hi
      ∙ elim (Bool-cases (p == r)) [
        | inl hit ↦ rw hit (
            let same : take (suc idx) pat ≡ take (suc idx) (x ∷ xs) =
              take-suc_eq idx pat (x ∷ xs) hp hv tk ((==_iff _ _).0 hit) in
            elim (Bool-cases (idx + 1 == length pat)) [
              | inl last ↦
                  let n : suc idx ≡ length pat = ground arith in
                  rw (
                    last,
                    is_prefix_of_take pat (x ∷ xs)
                        (subst (λ k. take k pat ≡ take k (x ∷ xs)) n same) (omega arith),
                  )
              | inr more ↦
                  let ne : idx + 1 ≢ length pat = ground arith in
                  rw (more, pos-end (c + idx + 1) (omega arith) (omega arith))
                    (elim (Bool-cases (c + idx + 1 == span rx start)) [
                      | inl end ↦
                          let n : c + idx + 1 ≡ span rx start = (==_iff _ _).0 end in
                          rw end (
                            ap (λ o. done (index_of o))
                              (sym (first_at-short pat (x ∷ xs) c (omega arith))))
                      | inr go ↦
                          let n : c + idx + 1 ≢ span rx start = ground arith in
                          let k : c + idx + 1 ≡ c + suc idx = omega arith in
                          rw go (
                            ap₂
                              (λ a b.
                                find_loop fuel rx pat (length pat) start (pos a) b (pos c) true)
                              k (omega arith)
                            ∙ scan fuel pat (x ∷ xs) c (suc idx) (pos c) true (omega arith)
                                (omega arith) (omega arith) ht sl same (λ _. refl)
                                (sym (lt→ltb 0 (suc idx) (omega arith))))
                    ])
            ])
        | inr miss ↦
            rw (miss, pos-end (c + 1) (omega arith) (omega arith))
              (let ne : p ≢ r = ground arith in
                rw (is_prefix-miss idx pat (x ∷ xs) hp hv ne)
                  (elim (Bool-cases (c + 1 == span rx start)) [
                    | inl end ↦
                        let n : c + 1 ≡ span rx start = (==_iff _ _).0 end in
                        rw end (
                          ap (λ o. done (index_of o))
                            (sym (first_at-short pat xs (c + 1) (omega arith))))
                    | inr go ↦
                        let n : c + 1 ≢ span rx start = ground arith in
                        let k : c + 1 ≡ c + 1 + 0 = omega arith in
                        rw go (
                          ap (λ a. find_loop fuel rx pat (length pat) start (pos a) 0 start false) k
                          ∙ scan fuel pat xs (c + 1) 0 start false (omega arith) (omega arith)
                              (omega arith) (omega arith) (slice-tail x xs c sl) refl (λ e. cc)
                              refl)
                  ]))
      ]

fuel_enough : (a n : ℕ) → a ≤ uart_buf_size → a * suc n ≤ find_fuel n + 0
fuel_enough a n h = grind arith

-- `find_substr_in_ring_buffer`, from a start inside the buffer, returns the index of the first
-- place where the pattern stands in the bytes from the start up to the write index (all of the
-- buffer where the two are the same), and -1 where there is none. It reads nothing outside the
-- buffer and the pattern, and it ends.
pub find_substr_lem :
    (rx : Rx) (start : ℕ) (pat : List ℕ)
    → length rx.buffer ≡ uart_buf_size
    → start < uart_buf_size
    → rx.widx < uart_buf_size
    → 0 < length pat
    → find_substr rx start (some pat) (length pat)
      ≡ done (index_from start (first_at pat (ring_slice rx.buffer start (span rx start)) 0))
unfolding find_substr
find_substr_lem rx start pat w s wi h =
    let n = span rx start in
    let v = ring_slice rx.buffer start n in
    let t : (length pat == 0) ≡ false = ground arith in
    let k : start ≡ (start + (0 + 0)) % uart_buf_size = omega arith in
    let j : start ≡ (start + 0) % uart_buf_size = omega arith in
    let l : length v ≡ n = length-ring_slice rx.buffer start n in
    let m : n ≤ uart_buf_size = ground arith in
    let z : 0 < n = ground arith in
    rw t (
      ap (λ i. find_loop (find_fuel (length pat)) rx pat (length pat) start i 0 start false) k
      ∙ scan rx start w s wi (find_fuel (length pat)) pat v 0 0 start false
          (fuel_enough (length v) (length pat) (omega arith)) h (omega arith) (omega arith)
          (ap₂ (ring_slice rx.buffer) j (sym l)) refl (λ e. cc) refl)
