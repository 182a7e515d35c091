-- ===== src/Prelude/Lists.antt =====
-- C arrays as lists with native indices, under the library's names.
use Prim.Native.Nat.{ℕ, zero, suc, ◌+◌, ◌-◌, ◌≤◌, ◌<◌, min}
use mathlib.Core.Path.{◌≡◌, refl, ap, sym, ◌∙◌}
use mathlib.Core.Logic.{◌≢◌}
use mathlib.Core.List.{List, [], ◌∷◌, ◌++◌}
use mathlib.Core.Option.{Option, none, some}
use native.Mathlib.Omega.{arith}

suc_add : (i : ℕ) → suc i + 1 ≡ suc (i + 1)
suc_add i = omega arith

add_nil : (i : ℕ) → i ≡ i + 0
add_nil i = omega arith

add_shift : (i n : ℕ) → i + 1 + n ≡ i + suc n
add_shift i n = omega arith

module _ {ℓ} {A : Type ℓ} where
  abbrev pub length : List A → ℕ
  length [] = 0
  length (x ∷ xs) = suc (length xs)

  abbrev pub get_elem? : List A → ℕ → Option A
  get_elem? [] i = none
  get_elem? (x ∷ xs) zero = some x
  get_elem? (x ∷ xs) (suc i) = get_elem? xs i

  abbrev pub get_or : List A → ℕ → A → A
  get_or [] i d = d
  get_or (x ∷ xs) zero d = x
  get_or (x ∷ xs) (suc i) d = get_or xs i d

  -- A write out of bounds changes nothing.
  abbrev pub set : List A → ℕ → A → List A
  set [] i v = []
  set (x ∷ xs) zero v = v ∷ xs
  set (x ∷ xs) (suc i) v = x ∷ set xs i v

  abbrev pub take : ℕ → List A → List A
  take zero xs = []
  take (suc n) [] = []
  take (suc n) (x ∷ xs) = x ∷ take n xs

  abbrev pub drop : ℕ → List A → List A
  drop zero xs = xs
  drop (suc n) [] = []
  drop (suc n) (x ∷ xs) = drop n xs

  abbrev pub replicate : ℕ → A → List A
  replicate zero a = []
  replicate (suc n) a = a ∷ replicate n a

  pub length-append : (xs ys : List A) → length (xs ++ ys) ≡ length xs + length ys
  length-append [] ys = omega arith
  length-append (x ∷ xs) ys = omega (arith, length-append xs ys)

  pub length-set : (xs : List A) (i : ℕ) (v : A) → length (set xs i v) ≡ length xs
  length-set [] i v = refl
  length-set (x ∷ xs) zero v = refl
  length-set (x ∷ xs) (suc i) v = ap suc (length-set xs i v)

  pub length-take : (n : ℕ) (xs : List A) → length (take n xs) ≡ min n (length xs)
  length-take zero xs = omega arith
  length-take (suc n) [] = omega arith
  length-take (suc n) (x ∷ xs) = omega (arith, length-take n xs)

  pub length-drop : (n : ℕ) (xs : List A) → length (drop n xs) ≡ length xs - n
  length-drop zero xs = omega arith
  length-drop (suc n) [] = omega arith
  length-drop (suc n) (x ∷ xs) = omega (arith, length-drop n xs)

  pub length-replicate : (n : ℕ) (a : A) → length (replicate n a) ≡ n
  length-replicate zero a = refl
  length-replicate (suc n) a = ap suc (length-replicate n a)

  pub take-append-drop : (n : ℕ) (xs : List A) → take n xs ++ drop n xs ≡ xs
  take-append-drop zero xs = refl
  take-append-drop (suc n) [] = refl
  take-append-drop (suc n) (x ∷ xs) = ap (λ l. x ∷ l) (take-append-drop n xs)

  pub get_elem?-eq-get_or :
      (xs : List A) (i : ℕ) (d : A) → i < length xs → get_elem? xs i ≡ some (get_or xs i d)
  get_elem?-eq-get_or [] i d h = absurd (omega arith)
  get_elem?-eq-get_or (x ∷ xs) zero d h = refl
  get_elem?-eq-get_or (x ∷ xs) (suc i) d h = get_elem?-eq-get_or xs i d (omega arith)

  pub get_or-set_self :
      (xs : List A) (i : ℕ) (v d : A) → i < length xs → get_or (set xs i v) i d ≡ v
  get_or-set_self [] i v d h = absurd (omega arith)
  get_or-set_self (x ∷ xs) zero v d h = refl
  get_or-set_self (x ∷ xs) (suc i) v d h = get_or-set_self xs i v d (omega arith)

  pub get_or-set_ne :
      (xs : List A) {i j : ℕ} (v d : A) → i ≢ j → get_or (set xs i v) j d ≡ get_or xs j d
  get_or-set_ne [] v d h = refl
  get_or-set_ne (x ∷ xs) {i = zero} {j = zero} v d h = absurd (h refl)
  get_or-set_ne (x ∷ xs) {i = zero} {j = suc j} v d h = refl
  get_or-set_ne (x ∷ xs) {i = suc i} {j = zero} v d h = refl
  get_or-set_ne (x ∷ xs) {i = suc i} {j = suc j} v d h = get_or-set_ne xs v d (λ e. h (ap suc e))

  -- `memcpy`: the source is written over the destination from an offset on.
  abbrev pub write_at : List A → ℕ → List A → List A
  write_at buf i src = take i buf ++ src ++ drop (i + length src) buf

  pub get_or_index : (xs : List A) (i j : ℕ) (d : A) → i ≡ j → get_or xs i d ≡ get_or xs j d
  get_or_index xs i j d e = ap (λ k. get_or xs k d) e

  pub elem_index : (xs : List A) (i j : ℕ) → i ≡ j → get_elem? xs i ≡ get_elem? xs j
  elem_index xs i j e = ap (get_elem? xs) e

  pub get_or-append_right :
      (xs ys : List A) (k : ℕ) (d : A) → get_or (xs ++ ys) (length xs + k) d ≡ get_or ys k d
  get_or-append_right [] ys k d = get_or_index ys (0 + k) k d (omega arith)
  get_or-append_right (x ∷ xs) ys k d =
      get_or_index (x ∷ (xs ++ ys)) (suc (length xs) + k) (suc (length xs + k)) d (omega arith)
      ∙ get_or-append_right xs ys k d

  pub take-length : (xs : List A) → take (length xs) xs ≡ xs
  take-length [] = refl
  take-length (x ∷ xs) = ap (λ l. x ∷ l) (take-length xs)

  pub drop-length : (xs : List A) → drop (length xs) xs ≡ []
  drop-length [] = refl
  drop-length (x ∷ xs) = drop-length xs

  pub drop-append : (xs ys : List A) (n : ℕ) → n ≡ length xs → drop n (xs ++ ys) ≡ ys
  drop-append [] ys n e = rw e
  drop-append (x ∷ xs) ys n e = rw e (drop-append xs ys (length xs) refl)

  pub take-append : (xs ys : List A) (n : ℕ) → n ≡ length xs → take n (xs ++ ys) ≡ xs
  take-append [] ys n e = rw e
  take-append (x ∷ xs) ys n e = rw e (ap (λ l. x ∷ l) (take-append xs ys (length xs) refl))

  -- Writes of successive elements from an index on.
  abbrev pub put_at : List A → ℕ → List A → List A
  put_at buf i [] = buf
  put_at buf i (x ∷ xs) = put_at (set buf i x) (i + 1) xs

  pub length-put_at : (buf : List A) (i : ℕ) (xs : List A) → length (put_at buf i xs) ≡ length buf
  length-put_at buf i [] = refl
  length-put_at buf i (x ∷ xs) = length-put_at (set buf i x) (i + 1) xs ∙ length-set buf i x

  put_at-cons :
      (b : A) (buf : List A) (i : ℕ) (xs : List A)
      → put_at (b ∷ buf) (suc i) xs ≡ b ∷ put_at buf i xs
  put_at-cons b buf i [] = refl
  put_at-cons b buf i (x ∷ xs) =
      ap (λ j. put_at (b ∷ set buf i x) j xs) (suc_add i) ∙ put_at-cons b (set buf i x) (i + 1) xs

  -- From the start, they replace the first elements.
  pub put_at-zero :
      (buf xs : List A) → length xs ≤ length buf → put_at buf 0 xs ≡ xs ++ drop (length xs) buf
  put_at-zero buf [] h = refl
  put_at-zero [] (x ∷ xs) h = absurd (omega arith)
  put_at-zero (b ∷ buf) (x ∷ xs) h =
      put_at-cons x buf 0 xs ∙ ap (λ l. x ∷ l) (put_at-zero buf xs (omega arith))

  pub put_at_snoc :
      (buf xs : List A) (i : ℕ) (x : A)
      → put_at buf i (xs ++ (x ∷ [])) ≡ set (put_at buf i xs) (i + length xs) x
  put_at_snoc buf [] i x = ap (λ j. set buf j x) (add_nil i)
  put_at_snoc buf (y ∷ xs) i x =
      put_at_snoc (set buf i y) xs (i + 1) x
      ∙ ap (λ j. set (put_at (set buf i y) (i + 1) xs) j x) (add_shift i (length xs))

  pub get_elem?_outside : (xs : List A) (i : ℕ) → length xs ≤ i → get_elem? xs i ≡ none
  get_elem?_outside [] i h = refl
  get_elem?_outside (x ∷ xs) zero h = absurd (omega arith)
  get_elem?_outside (x ∷ xs) (suc i) h = get_elem?_outside xs i (omega arith)

  drop-nil : (n : ℕ) → drop n [] ≡ []
  drop-nil zero = refl
  drop-nil (suc n) = refl

  pub drop_add : {n : ℕ} (i j : ℕ) (xs : List A) → n ≡ i + j → drop n xs ≡ drop j (drop i xs)
  drop_add zero j xs e = ap (λ k. drop k xs) (omega arith)
  drop_add {n = n} (suc i) j [] e = drop-nil n ∙ sym (drop-nil j)
  drop_add {n = zero} (suc i) j (x ∷ xs) e = absurd (omega arith)
  drop_add {n = suc n} (suc i) j (x ∷ xs) e = drop_add {n = n} i j xs (omega arith)

  pub take_all : (n : ℕ) (xs : List A) → length xs ≤ n → take n xs ≡ xs
  take_all zero [] h = refl
  take_all zero (x ∷ xs) h = absurd (omega arith)
  take_all (suc n) [] h = refl
  take_all (suc n) (x ∷ xs) h = ap (λ l. x ∷ l) (take_all n xs (omega arith))

  pub length-write_at :
      (buf : List A) (i : ℕ) (src : List A)
      → i + length src ≤ length buf
      → length (write_at buf i src) ≡ length buf
  length-write_at buf i src h =
      let tail = drop (i + length src) buf in
      length-append (take i buf ++ src) tail
      ∙ omega (
        arith,
        length-append (take i buf) src,
        length-take i buf,
        length-drop (i + length src) buf,
      )

  -- What stands up to the end of a copy.
  pub take-write_at :
      (buf : List A) (i : ℕ) (src : List A) {n : ℕ}
      → n ≡ i + length src
      → i ≤ length buf
      → take n (write_at buf i src) ≡ take i buf ++ src
  take-write_at buf i src {n = n} e h =
      take-append (take i buf ++ src) (drop (i + length src) buf) n
        (e ∙ omega (arith, length-append (take i buf) src, length-take i buf))

  take-nil : (n : ℕ) → take n [] ≡ []
  take-nil zero = refl
  take-nil (suc n) = refl

  pub take_add :
      {n : ℕ} (i j : ℕ) (xs : List A) → n ≡ i + j → take n xs ≡ take i xs ++ take j (drop i xs)
  take_add zero j xs e = ap (λ k. take k xs) (omega arith)
  take_add {n = n} (suc i) j [] e = take-nil n ∙ sym (take-nil j)
  take_add {n = zero} (suc i) j (x ∷ xs) e = absurd (omega arith)
  take_add {n = suc n} (suc i) j (x ∷ xs) e =
      ap (λ l. x ∷ l) (take_add {n = n} i j xs (omega arith))

  pub get_or-take :
      (xs ys : List A) (i n : ℕ) (d : A)
      → i < n
      → n ≤ length xs
      → get_or (take n xs ++ ys) i d ≡ get_or xs i d
  get_or-take [] ys i n d h l = absurd (omega arith)
  get_or-take (x ∷ xs) ys i zero d h l = absurd (omega arith)
  get_or-take (x ∷ xs) ys zero (suc n) d h l = refl
  get_or-take (x ∷ xs) ys (suc i) (suc n) d h l =
      get_or-take xs ys i n d (omega arith) (omega arith)

  -- A part of a part from the start.
  pub take-take : (i j : ℕ) (xs : List A) → i ≤ j → take i (take j xs) ≡ take i xs
  take-take zero j xs h = refl
  take-take (suc i) zero xs h = absurd (omega arith)
  take-take (suc i) (suc j) [] h = refl
  take-take (suc i) (suc j) (x ∷ xs) h = ap (λ l. x ∷ l) (take-take i j xs (omega arith))
