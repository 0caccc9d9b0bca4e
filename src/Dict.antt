-- ===== src/Dict.antt =====
-- Go's `map[K]V` as an association list: a read gives `none` on a missing key, a write replaces the
-- entry of its key or adds one, `delete` drops it. A `range` over a map visits the entries in the
-- order of the list; Go's order is unspecified, and what the program does with it is sorted after.
use proxy_go.Prelude.{
  ◌≡◌, refl, ap, Bool, true, false, Option, none, some, List, [], ◌∷◌, arith, Eq, ◌==◌, contains,
  if◌then◌else◌,
}

abbrev pub Dict {ℓ κ} : Type ℓ → Type κ → Type (ℓ ⊔ κ)
Dict K V = List (K × V)

module _ {ℓ κ} {K : Type ℓ} {V : Type κ} where
  abbrev pub keys : Dict K V → List K
  keys [] = []
  keys ((k, v) ∷ m) = k ∷ keys m

module _ {ℓ κ} {K : Type ℓ} {V : Type κ} ⦃e : Eq K⦄ where
  unfoldable pub lookup : K → Dict K V → Option V
  lookup k [] = none
  lookup k ((j, v) ∷ m) = if j == k then some v else lookup k m

  unfoldable pub insert : K → V → Dict K V → Dict K V
  insert k v [] = (k, v) ∷ []
  insert k v ((j, w) ∷ m) = if j == k then (k, v) ∷ m else (j, w) ∷ insert k v m

  -- the entries whose key passes the test stay
  unfoldable pub restrict : (K → Bool) → Dict K V → Dict K V
  restrict p [] = []
  restrict p ((j, w) ∷ m) = let rest = restrict p m in if p j then (j, w) ∷ rest else rest

  -- the written key has the new value, and every other key what it had
  pub lookup-insert :
      (written read : K) (new : V) (m : Dict K V)
      → lookup read (insert written new m) ≡ (if written == read then some new else lookup read m)
  unfolding insert lookup
  lookup-insert written read new [] = refl
  lookup-insert written read new ((held, old) ∷ m) = ground (
    arith,
    lookup-insert written read new m,
    e.beq_iff held written,
    e.beq_iff held read,
    e.beq_iff written read,
  )

  pub lookup-restrict :
      (p : K → Bool) (k : K) (m : Dict K V)
      → lookup k (restrict p m) ≡ (if p k then lookup k m else none)
  unfolding lookup restrict
  lookup-restrict p k [] = ground arith
  lookup-restrict p k ((j, w) ∷ m) = ground (arith, e.beq_iff j k, ap p, lookup-restrict p k m)

  -- a key is listed exactly when it has a value
  pub contains-keys :
      (k : K) (m : Dict K V)
      → contains (keys m) k ≡ (elim (lookup k m) [ none ↦ false | some _ ↦ true ])
  unfolding lookup
  contains-keys k [] = refl
  contains-keys k ((j, w) ∷ m) = ground (arith, contains-keys k m)
