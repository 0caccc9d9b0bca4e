-- ===== src/Prelude/Places.antt =====
-- Lists as stores: reading a place after a write or an append, and `All` at a place.
use Prim.Native.Nat.{ℕ, zero, suc, ◌<◌}
use mathlib.Core.Path.{◌≡◌, refl, ap}
use mathlib.Core.Logic.{◌≢◌}
use mathlib.Core.List.{List, [], ◌∷◌, ◌++◌}
use mathlib.Core.Option.{some}
use native.Mathlib.Omega.{arith}
use proxy_go.Prelude.Lists.{length, get_elem?, get_or, set, All}

module _ {ℓ} {A : Type ℓ} where
  pub get_or-append_new :
      (xs : List A) (y : A) (ys : List A) (d : A) → get_or (xs ++ y ∷ ys) (length xs) d ≡ y
  get_or-append_new [] y ys d = refl
  get_or-append_new (x ∷ xs) y ys d = get_or-append_new xs y ys d

  pub get_or-append_old :
      (xs ys : List A) (p : ℕ) (d : A) → p < length xs → get_or (xs ++ ys) p d ≡ get_or xs p d
  get_or-append_old [] ys p d h = elim h [ ]
  get_or-append_old (x ∷ xs) ys zero d h = refl
  get_or-append_old (x ∷ xs) ys (suc p) d h = get_or-append_old xs ys p d (omega arith)

  pub get_elem?-append_new :
      (xs : List A) (y : A) (ys : List A) → get_elem? (xs ++ y ∷ ys) (length xs) ≡ some y
  get_elem?-append_new [] y ys = refl
  get_elem?-append_new (x ∷ xs) y ys = get_elem?-append_new xs y ys

  pub get_elem?-append_old :
      (xs ys : List A) (p : ℕ) → p < length xs → get_elem? (xs ++ ys) p ≡ get_elem? xs p
  get_elem?-append_old [] ys p h = elim h [ ]
  get_elem?-append_old (x ∷ xs) ys zero h = refl
  get_elem?-append_old (x ∷ xs) ys (suc p) h = get_elem?-append_old xs ys p (omega arith)

  pub get_elem?-set_other :
      (xs : List A) (p q : ℕ) (x : A) → q ≢ p → get_elem? (set xs p x) q ≡ get_elem? xs q
  get_elem?-set_other [] p q x ne = refl
  get_elem?-set_other (y ∷ xs) zero zero x ne = absurd (ne refl)
  get_elem?-set_other (y ∷ xs) zero (suc q) x ne = refl
  get_elem?-set_other (y ∷ xs) (suc p) zero x ne = refl
  get_elem?-set_other (y ∷ xs) (suc p) (suc q) x ne =
      get_elem?-set_other xs p q x (λ e. ne (ap suc e))

  pub get_elem?-set_same :
      (xs : List A) (p : ℕ) (x y : A) → get_elem? xs p ≡ some y → get_elem? (set xs p x) p ≡ some x
  get_elem?-set_same [] p x y e = absurd (ground arith)
  get_elem?-set_same (z ∷ xs) zero x y e = refl
  get_elem?-set_same (z ∷ xs) (suc p) x y e = get_elem?-set_same xs p x y e

  pub get_elem?-bound : (xs : List A) (p : ℕ) (y : A) → get_elem? xs p ≡ some y → p < length xs
  get_elem?-bound [] p y e = absurd (ground arith)
  get_elem?-bound (z ∷ xs) zero y e = omega arith
  get_elem?-bound (z ∷ xs) (suc p) y e = omega (arith, get_elem?-bound xs p y e)

module _ {ℓ κ} {A : Type ℓ} (P : A → Type κ) where
  pub All-get_elem? : (xs : List A) (i : ℕ) (a : A) → All P xs → get_elem? xs i ≡ some a → P a
  All-get_elem? [] i a h e = absurd (ground arith)
  All-get_elem? (x ∷ xs) zero a (p, h) e = let same : x ≡ a = ground arith in rw same at p
  All-get_elem? (x ∷ xs) (suc i) a (p, h) e = All-get_elem? xs i a h e

  pub All-set : (xs : List A) (i : ℕ) (a : A) → All P xs → P a → All P (set xs i a)
  All-set [] i a h q = tt
  All-set (x ∷ xs) zero a (p, h) q = (q, h)
  All-set (x ∷ xs) (suc i) a (p, h) q = (p, All-set xs i a h q)

pub All-imply {ℓ κ κ'} :
    {A : Type ℓ} (P : A → Type κ) (Q : A → Type κ') (xs : List A)
    → ((a : A) → P a → Q a)
    → All P xs
    → All Q xs
All-imply P Q [] f h = tt
All-imply P Q (x ∷ xs) f (p, h) = (f x p, All-imply P Q xs f h)
