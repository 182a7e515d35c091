-- ===== src/Prelude/Results.antt =====
-- How a C function ends, and the accesses through a pointer.
use Prim.Native.Nat.{◌≤◌, ℕ, ◌<◌, ◌+◌}
use mathlib.Core.Path.{◌≡◌, refl}
use mathlib.Core.Option.{Option, none, some}
use mathlib.Core.Bool.{Bool, true, false}
use mathlib.Core.List.{List}
use ts_sdk.Prelude.Tests.{if◌then◌else◌, ltb, lt→ltb, leb, gt→leb, le→leb}
use ts_sdk.Prelude.Lists.{get_elem?_outside, length, get_elem?, set, write_at, take, drop}

-- How a C call ends: with a value, with its failure value (`false`, 0), by reading or writing
-- outside the memory that it was given, or not at all.
pub data Outcome {ℓ} (A : Type ℓ) : Type ℓ where
  done : A → Outcome A
  failed fault hang : Outcome A

infixl 5 ◌>>=◌
abbrev pub ◌>>=◌ {ℓ κ} : {A : Type ℓ} {B : Type κ} → Outcome A → (A → Outcome B) → Outcome B
done a >>= f = f a
failed >>= f = failed
fault >>= f = fault
hang >>= f = hang

pub bind_cong {ℓ κ} :
    {A : Type ℓ} {B : Type κ} (m : Outcome A) (f g : A → Outcome B)
    → ((a : A) → f a ≡ g a)
    → (m >>= f) ≡ (m >>= g)
bind_cong (done a) f g e = e a
bind_cong failed f g e = refl
bind_cong fault f g e = refl
bind_cong hang f g e = refl

-- `ON_FAIL` of an optional result.
abbrev pub on_fail {ℓ} : {A : Type ℓ} → Option A → Outcome A
on_fail none = failed
on_fail (some a) = done a

-- A read and a write through a pointer into a buffer of known extent.
abbrev pub load {ℓ} : {A : Type ℓ} → List A → ℕ → Outcome A
load buf i = elim (get_elem? buf i) [ none ↦ fault | some a ↦ done a ]

abbrev pub store {ℓ} : {A : Type ℓ} → List A → ℕ → A → Outcome (List A)
store buf i v = if ltb i (length buf) then done (set buf i v) else fault

pub store_lem {ℓ} :
    {A : Type ℓ} (buf : List A) (i : ℕ) (v : A)
    → i < length buf
    → store buf i v ≡ done (set buf i v)
store_lem buf i v h = rw (lt→ltb i (length buf) h)

pub load_lem {ℓ} :
    {A : Type ℓ} (buf : List A) (i : ℕ) {a : A} → get_elem? buf i ≡ some a → load buf i ≡ done a
load_lem buf i e = rw (load, e)

pub load_outside {ℓ} : {A : Type ℓ} (buf : List A) (i : ℕ) → length buf ≤ i → load buf i ≡ fault
load_outside buf i h = rw (load, get_elem?_outside buf i h)

-- A copy of `n` elements from an index on, and a copy over a buffer from an index on.
abbrev pub copy_from {ℓ} : {A : Type ℓ} → List A → ℕ → ℕ → Outcome (List A)
copy_from mem i n = if leb (i + n) (length mem) then done (take n (drop i mem)) else fault

abbrev pub copy_to {ℓ} : {A : Type ℓ} → List A → ℕ → List A → Outcome (List A)
copy_to mem i src = if leb (i + length src) (length mem) then done (write_at mem i src) else fault

pub copy_from_lem {ℓ} :
    {A : Type ℓ} (mem : List A) (i n : ℕ)
    → i + n ≤ length mem
    → copy_from mem i n ≡ done (take n (drop i mem))
copy_from_lem mem i n h = rw (le→leb (i + n) (length mem) h)

pub copy_from_outside {ℓ} :
    {A : Type ℓ} (mem : List A) (i n : ℕ) → length mem < i + n → copy_from mem i n ≡ fault
copy_from_outside mem i n h = rw (gt→leb (i + n) (length mem) h)

pub copy_to_lem {ℓ} :
    {A : Type ℓ} (mem : List A) (i : ℕ) (src : List A)
    → i + length src ≤ length mem
    → copy_to mem i src ≡ done (write_at mem i src)
copy_to_lem mem i src h = rw (le→leb (i + length src) (length mem) h)

-- A call ends with a value of which something holds.
abbrev pub Returns {ℓ} : {A : Type ℓ} → (A → Type 0) → Outcome A → Type 0
Returns Q (done a) = Q a
Returns Q failed = ⊥
Returns Q fault = ⊥
Returns Q hang = ⊥

pub Returns-bind {ℓ κ} :
    {A : Type ℓ} {B : Type κ} (Q : A → Type 0) (R : B → Type 0) (m : Outcome A) (f : A → Outcome B)
    → Returns Q m
    → ((a : A) → Q a → Returns R (f a))
    → Returns R (m >>= f)
Returns-bind Q R (done a) f q h = h a q
Returns-bind Q R failed f q h = absurd q
Returns-bind Q R fault f q h = absurd q
Returns-bind Q R hang f q h = absurd q

pub Returns-mono {ℓ} :
    {A : Type ℓ} (Q R : A → Type 0) (m : Outcome A)
    → Returns Q m
    → ((a : A) → Q a → R a)
    → Returns R m
Returns-mono Q R (done a) q h = h a q
Returns-mono Q R failed q h = absurd q
Returns-mono Q R fault q h = absurd q
Returns-mono Q R hang q h = absurd q

-- A call ends, and something holds of a value that it ends with.
abbrev pub Ends {ℓ} : {A : Type ℓ} → (A → Type 0) → Outcome A → Type 0
Ends Q (done a) = Q a
Ends Q failed = Unit {0}
Ends Q fault = Unit {0}
Ends Q hang = ⊥

pub Ends-bind {ℓ κ} :
    {A : Type ℓ} {B : Type κ} (Q : A → Type 0) (R : B → Type 0) (m : Outcome A) (f : A → Outcome B)
    → Ends Q m
    → ((a : A) → Q a → Ends R (f a))
    → Ends R (m >>= f)
Ends-bind Q R (done a) f q h = h a q
Ends-bind Q R failed f q h = tt
Ends-bind Q R fault f q h = tt
Ends-bind Q R hang f q h = absurd q

-- The same with the end of the first call.
pub Ends-bind_eq {ℓ κ} :
    {A : Type ℓ} {B : Type κ} (Q : A → Type 0) (R : B → Type 0) (m : Outcome A) (f : A → Outcome B)
    → Ends Q m
    → ((a : A) → m ≡ done a → Q a → Ends R (f a))
    → Ends R (m >>= f)
Ends-bind_eq Q R (done a) f q h = h a refl q
Ends-bind_eq Q R failed f q h = tt
Ends-bind_eq Q R fault f q h = tt
Ends-bind_eq Q R hang f q h = absurd q

pub Ends-if {ℓ} :
    {A : Type ℓ} (Q : A → Type 0) (b : Bool) (x y : Outcome A)
    → Ends Q x
    → Ends Q y
    → Ends Q (if b then x else y)
Ends-if Q true x y h k = h
Ends-if Q false x y h k = k
