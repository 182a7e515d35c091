-- ===== src/Prelude/Lookup.antt =====
-- Lookups behind writes.
use Prim.Native.Nat.{ℕ, zero, suc, ◌<◌}
use mathlib.Core.Path.{◌≡◌, refl, ap}
use mathlib.Core.Logic.{◌≢◌}
use mathlib.Core.List.{List, [], ◌∷◌}
use mathlib.Core.Option.{some}
use native.Mathlib.Omega.{arith}
use ts_sdk.Prelude.Lists.{length, get_elem?, set}

module _ {ℓ} {A : Type ℓ} where
  pub get_elem?-set_self :
      (xs : List A) (i : ℕ) (v : A) {a : A}
      → get_elem? xs i ≡ some a
      → get_elem? (set xs i v) i ≡ some v
  get_elem?-set_self [] i v h = cc
  get_elem?-set_self (x ∷ xs) zero v h = refl
  get_elem?-set_self (x ∷ xs) (suc i) v h = get_elem?-set_self xs i v h

  pub set-set : (xs : List A) (i : ℕ) (v w : A) → set (set xs i v) i w ≡ set xs i w
  set-set [] i v w = refl
  set-set (x ∷ xs) zero v w = refl
  set-set (x ∷ xs) (suc i) v w = ap (λ l. x ∷ l) (set-set xs i v w)

  pub get_elem?-lt : (xs : List A) (i : ℕ) → i < length xs → (a : A) × (get_elem? xs i ≡ some a)
  get_elem?-lt [] i h = absurd (omega arith)
  get_elem?-lt (x ∷ xs) zero h = (x, refl)
  get_elem?-lt (x ∷ xs) (suc i) h = get_elem?-lt xs i (omega arith)

  pub get_elem?-set_ne :
      (xs : List A) (i j : ℕ) (v : A) → i ≢ j → get_elem? (set xs i v) j ≡ get_elem? xs j
  get_elem?-set_ne [] i j v h = refl
  get_elem?-set_ne (x ∷ xs) zero zero v h = absurd (h refl)
  get_elem?-set_ne (x ∷ xs) zero (suc j) v h = refl
  get_elem?-set_ne (x ∷ xs) (suc i) zero v h = refl
  get_elem?-set_ne (x ∷ xs) (suc i) (suc j) v h = get_elem?-set_ne xs i j v (λ e. h (ap suc e))
