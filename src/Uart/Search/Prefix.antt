-- ===== src/Uart/Search/Prefix.antt =====
-- A search for a pattern in a plain list, and the stretch of the receive buffer that is searched.
use ts_sdk.Prelude.{
  ℕ, zero, suc, ◌+◌, ◌-◌, ◌%◌, ◌<◌, ◌≡◌, refl, ap, ◌∙◌, Bool, true, false, ◌&&◌, Option, none, some,
  List, [], ◌∷◌, arith, ltb, ◌==◌, if◌then◌else◌, length, get_elem?, get_elem?-eq-get_or,
  elem_index, get_or, drop, take, ap₂, ◌≢◌, ◌≤◌,
}
use ts_sdk.Uart.Rx.{Rx, uart_buf_size}
use ts_sdk.Uart.Rx.Queue.{ring_slice}

abbrev pub is_prefix : List ℕ → List ℕ → Bool
is_prefix [] l = true
is_prefix (p ∷ ps) [] = false
is_prefix (p ∷ ps) (x ∷ xs) = p == x && is_prefix ps xs

-- The first position from `c` on at which the pattern stands in the list.
abbrev pub first_at : List ℕ → List ℕ → ℕ → Option ℕ
first_at pat [] c = none
first_at pat (x ∷ xs) c = if is_prefix pat (x ∷ xs) then some c else first_at pat xs (c + 1)

-- The length of the stretch that is scanned, from the start up to the write index; the whole
-- buffer where these are the same.
abbrev pub span : Rx → ℕ → ℕ
span rx start = if ltb start rx.widx then rx.widx - start else rx.widx + uart_buf_size - start

is_prefix-short : (p l : List ℕ) → length l < length p → is_prefix p l ≡ false
is_prefix-short [] l h = absurd (omega arith)
is_prefix-short (x ∷ p) [] h = refl
is_prefix-short (x ∷ p) (y ∷ l) h = ground (arith, is_prefix-short p l)

pub first_at-short : (p l : List ℕ) (c : ℕ) → length l < length p → first_at p l c ≡ none
first_at-short p [] c h = refl
first_at-short p (x ∷ l) c h =
    rw (is_prefix-short p (x ∷ l) h) (first_at-short p l (c + 1) (omega arith))

pub ring_slice-get :
    (buf : List ℕ) (i n k : ℕ)
    → length buf ≡ uart_buf_size
    → i < uart_buf_size
    → k < n
    → get_elem? buf ((i + k) % uart_buf_size) ≡ get_elem? (ring_slice buf i n) k
ring_slice-get buf i zero k l h p = absurd (omega arith)
ring_slice-get buf i (suc n) zero l h p =
    elem_index buf ((i + 0) % uart_buf_size) i (omega arith)
    ∙ get_elem?-eq-get_or buf i 0 (omega arith)
ring_slice-get buf i (suc n) (suc k) l h p =
    elem_index buf ((i + suc k) % uart_buf_size) (((i + 1) % uart_buf_size + k) % uart_buf_size)
      (omega arith)
    ∙ ring_slice-get buf ((i + 1) % uart_buf_size) n k l (omega arith) (omega arith)

-- What a partial match says of the pattern at this position.
pub take-suc_eq :
    (idx : ℕ) (p v : List ℕ)
    → idx < length p
    → idx < length v
    → take idx p ≡ take idx v
    → get_or p idx 0 ≡ get_or v idx 0
    → take (suc idx) p ≡ take (suc idx) v
take-suc_eq idx [] v h k e g = absurd (omega arith)
take-suc_eq idx (x ∷ p) [] h k e g = absurd (omega arith)
take-suc_eq zero (x ∷ p) (y ∷ v) h k e g = ap (λ a. a ∷ []) g
take-suc_eq (suc idx) (x ∷ p) (y ∷ v) h k e g =
    ap₂ ◌∷◌ (ap (λ l. get_or l 0 0) e)
      (take-suc_eq idx p v (omega arith) (omega arith) (ap (drop 1) e) g)

pub is_prefix_of_take :
    (p v : List ℕ)
    → take (length p) p ≡ take (length p) v
    → length p ≤ length v
    → is_prefix p v ≡ true
is_prefix_of_take [] v e h = refl
is_prefix_of_take (x ∷ p) [] e h = absurd (omega arith)
is_prefix_of_take (x ∷ p) (y ∷ v) e h =
    let hd : x ≡ y = ap (λ l. get_or l 0 0) e in
    ground (arith, is_prefix_of_take p v (ap (drop 1) e) (omega arith))

pub is_prefix-miss :
    (idx : ℕ) (p v : List ℕ)
    → idx < length p
    → idx < length v
    → get_or p idx 0 ≢ get_or v idx 0
    → is_prefix p v ≡ false
is_prefix-miss idx [] v h k n = absurd (omega arith)
is_prefix-miss idx (x ∷ p) [] h k n = refl
is_prefix-miss zero (x ∷ p) (y ∷ v) h k n = ground arith
is_prefix-miss (suc idx) (x ∷ p) (y ∷ v) h k n =
    ground (arith, is_prefix-miss idx p v (omega arith) (omega arith) n)
