-- ===== src/Rbuf/Queue.antt =====
-- A ring buffer refines a queue of bounded length.
use ts_sdk.Prelude.{
  ℕ, zero, suc, ◌+◌, ◌-◌, ◌*◌, ◌%◌, ◌^◌, ◌≤◌, ◌<◌, ◌≡◌, ◌≢◌, refl, ap, ap₂, ◌∙◌, true, false, none,
  some, List, [], ◌∷◌, ◌++◌, arith, ◌==◌, length, get_or, get_elem?-eq-get_or, set, length-set,
  get_or-set_self, get_or-set_ne, done, store_lem, load_lem, length-write_at, length-replicate,
  replicate, write_at, le→leb,
}
use native.Mathlib.Nat.{mod-lt}
use ts_sdk.Rbuf.{Rbuf, unread, wb, rb, clear}
use ts_sdk.Rbuf.Index.{place_wraps, places_ne}

-- The bytes that the counters from `c` on stand for.
abbrev pub slice : List ℕ → ℕ → ℕ → ℕ → List ℕ
slice mem s c zero = []
slice mem s c (suc n) = get_or mem (c % s) 0 ∷ slice mem s (c + 1) n

pub length-slice : (mem : List ℕ) (s c n : ℕ) → length (slice mem s c n) ≡ n
length-slice mem s c zero = refl
length-slice mem s c (suc n) = ap suc (length-slice mem s (c + 1) n)

-- A buffer with `n` unread bytes, of which the first one has the number `c` since the buffer was
-- cleared; its size divides 2^32.
pub record Holds (r : Rbuf) (c n k : ℕ) : Type 0 where
  pub ridx_at : r.ridx ≡ c % 2 ^ 32
  pub widx_at : r.widx ≡ (c + n) % 2 ^ 32
  pub bounded : n ≤ r.sz
  pub whole : r.sz ≤ length r.memory
  pub divides : r.sz * k ≡ 2 ^ 32
  pub size_fits : r.sz < 2 ^ 32

-- A write behind the bytes of a slice.
slice-set_outside :
    (mem : List ℕ) (s c n w x : ℕ)
    → c + n ≤ w
    → w < c + s
    → slice (set mem (w % s) x) s c n ≡ slice mem s c n
slice-set_outside mem s c zero w x h l = refl
slice-set_outside mem s c (suc n) w x h l =
    let e : c + (w - c) ≡ w = omega arith in
    let ne : w % s ≢ c % s =
      λ p. places_ne c (w - c) s (omega arith) (omega arith) (ap (λ a. a % s) e ∙ p) in
    ap₂ ◌∷◌ (get_or-set_ne mem x 0 ne)
      (slice-set_outside mem s (c + 1) n w x (omega arith) (omega arith))

slice_snoc :
    (mem : List ℕ) (s c n : ℕ)
    → slice mem s c (suc n) ≡ slice mem s c n ++ (get_or mem ((c + n) % s) 0 ∷ [])
slice_snoc mem s c zero = ap (λ i. get_or mem (i % s) 0 ∷ []) {y = c + 0} (omega arith)
slice_snoc mem s c (suc n) =
    ap (λ l. get_or mem (c % s) 0 ∷ l)
      (slice_snoc mem s (c + 1) n
        ∙ ap (λ i. slice mem s (c + 1) n ++ (get_or mem (i % s) 0 ∷ [])) {y = c + suc n}
            (omega arith))

-- What a write at the end does to the slice.
pub slice-set :
    (mem : List ℕ) (s c n x : ℕ)
    → n < s
    → s ≤ length mem
    → slice (set mem ((c + n) % s) x) s c (suc n) ≡ slice mem s c n ++ (x ∷ [])
slice-set mem s c n x h l =
    let i : (c + n) % s < s = mod-lt (c + n) (omega arith) in
    slice_snoc (set mem ((c + n) % s) x) s c n
    ∙ ap₂ (λ a b. a ++ (b ∷ [])) (slice-set_outside mem s c n (c + n) x (omega arith) (omega arith))
        (get_or-set_self mem ((c + n) % s) x 0 (omega arith))

module _ {r : Rbuf} (c n k : ℕ) (v : Holds r c n k) where
  pub unread_lem : unread (some r) ≡ n
  unfolding unread
  unread_lem = omega (arith, v.ridx_at, v.widx_at, v.bounded, v.size_fits)

  widx_place : r.widx % r.sz ≡ (c + n) % r.sz
  widx_place = ap (λ a. a % r.sz) v.widx_at ∙ place_wraps (c + n) r.sz k v.divides

  ridx_place : r.ridx % r.sz ≡ c % r.sz
  ridx_place = ap (λ a. a % r.sz) v.ridx_at ∙ place_wraps c r.sz k v.divides

  -- The buffer after a write.
  abbrev pub written : ℕ → Rbuf
  written x = record r { memory = set r.memory ((c + n) % r.sz) x; widx = (r.widx + 1) % 2 ^ 32 }

  pub wb-room : (x : ℕ) → n < r.sz → wb (some r) x ≡ done (true, some (written x))
  unfolding wb
  wb-room x h =
      let i : (c + n) % r.sz < r.sz = mod-lt (c + n) (omega arith) in
      let f : (n == r.sz) ≡ false = ground arith in
      rw (unread_lem, f, widx_place)
        (rw (store_lem r.memory ((c + n) % r.sz) x (omega (arith, v.whole))) refl)

  pub wb-full : (x : ℕ) → n ≡ r.sz → wb (some r) x ≡ done (false, some r)
  unfolding wb
  wb-full x h = let f : (n == r.sz) ≡ true = ground arith in rw (unread_lem, f) refl

  pub written-Holds : (x : ℕ) → n < r.sz → Holds (written x) c (suc n) k
  written-Holds x h = record {
    ridx_at = v.ridx_at;
    widx_at = omega (arith, v.widx_at);
    bounded = omega arith;
    whole = omega (arith, v.whole, length-set r.memory ((c + n) % r.sz) x);
    divides = v.divides;
    size_fits = v.size_fits;
  }

  pub rb-empty : n ≡ 0 → rb (some r) true ≡ done (none, some r)
  unfolding rb
  rb-empty h = rw (unread_lem, h) refl

  pub rb-byte :
      0 < n
      → rb (some r) true
        ≡ done
            (some (get_or r.memory (c % r.sz) 0), some (record r { ridx = (r.ridx + 1) % 2 ^ 32 }))
  unfolding rb
  rb-byte h =
      let i : c % r.sz < r.sz = mod-lt c (omega (arith, v.bounded)) in
      let f : (n == 0) ≡ false = ground arith in
      rw (unread_lem, f, ridx_place)
        (rw
          (load_lem r.memory (c % r.sz)
            (get_elem?-eq-get_or r.memory (c % r.sz) 0 (omega (arith, v.whole))))
          refl)

  pub byte-Holds :
      (m : ℕ) → n ≡ suc m → Holds (record r { ridx = (r.ridx + 1) % 2 ^ 32 }) (c + 1) m k
  byte-Holds m h = record {
    ridx_at = omega (arith, v.ridx_at);
    widx_at = omega (arith, v.widx_at);
    bounded = omega (arith, v.bounded);
    whole = v.whole;
    divides = v.divides;
    size_fits = v.size_fits;
  }

-- The buffer after `rbuf_clear`.
abbrev pub cleared : Rbuf → Rbuf
cleared r = record r { ridx = 0; widx = 0; memory = write_at r.memory 0 (replicate r.sz 0) }

pub clear_lem : (r : Rbuf) → r.sz ≤ length r.memory → clear (some r) ≡ done (true, some (cleared r))
unfolding clear
clear_lem r h = rw (le→leb r.sz (length r.memory) h) refl

pub cleared-Holds :
    (r : Rbuf) (k : ℕ)
    → r.sz ≤ length r.memory
    → r.sz * k ≡ 2 ^ 32
    → r.sz < 2 ^ 32
    → Holds (cleared r) 0 0 k
cleared-Holds r k h d f = record {
  ridx_at = omega arith;
  widx_at = omega arith;
  bounded = omega arith;
  whole =
      let l = length-replicate r.sz (let z : ℕ = 0 in z) in
      omega (arith, length-write_at r.memory 0 (replicate r.sz 0) (omega arith));
  divides = d;
  size_fits = f;
}
