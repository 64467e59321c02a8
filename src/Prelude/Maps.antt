-- ===== src/Prelude/Maps.antt =====
-- `HashMap` and `BTreeMap` as association lists: a key's first entry counts, a write keeps the
-- entry's place, and a new key goes to the end.
use mathlib.Core.Bool.{Bool, true, false}
use mathlib.Core.List.{List, [], ◌∷◌, map}
use mathlib.Core.Option.{Option, none, some}
use mathlib.Core.Path.{◌≡◌, refl}
use native.Mathlib.Omega.{arith}
use stouter.Prelude.Keys.{Key, ◌==◌}
use stouter.Prelude.Tests.{if◌then◌else◌}

abbrev pub Map {ℓ κ} : Type ℓ → Type κ → Type (ℓ ⊔ κ)
Map K V = List (K × V)

module _ {ℓ κ} {K : Type ℓ} {V : Type κ} where
  abbrev pub keys : Map K V → List K
  keys = map (λ e. e.0)

  abbrev pub values : Map K V → List V
  values = map (λ e. e.1)

module _ {ℓ κ} {K : Type ℓ} ⦃key : Key K⦄ {V : Type κ} where
  -- map.insert(k, v), *map.entry(k) = v
  unfoldable pub insert : K → V → Map K V → Map K V
  insert k v [] = (k, v) ∷ []
  insert k v (e ∷ m) = if e.0 == k then (e.0, v) ∷ m else e ∷ insert k v m

  -- map.remove(k)
  unfoldable pub remove : K → Map K V → Map K V
  remove k [] = []
  remove k ((j, w) ∷ m) = let rest = remove k m in if j == k then rest else (j, w) ∷ rest

  -- map.get(k)
  unfoldable pub lookup : K → Map K V → Option V
  lookup k [] = none
  lookup k (e ∷ m) = if e.0 == k then some e.1 else lookup k m

  -- map.retain(|k, _| keep(k))
  unfoldable pub retain : (K → Bool) → Map K V → Map K V
  retain keep [] = []
  retain keep ((j, w) ∷ m) = let rest = retain keep m in if keep j then (j, w) ∷ rest else rest

  abbrev pub contains_key : K → Map K V → Bool
  contains_key k m = elim (lookup k m) [ none ↦ false | some v ↦ true ]

  pub lookup-insert :
      (k other : K) (v : V) (m : Map K V)
      → lookup other (insert k v m) ≡ (if k == other then some v else lookup other m)
  unfolding lookup insert
  lookup-insert k other v [] = refl
  lookup-insert k other v (e ∷ m) = ground (arith, lookup-insert k other v m)

  pub lookup-remove :
      (k j : K) (m : Map K V) → lookup j (remove k m) ≡ (if k == j then none else lookup j m)
  unfolding lookup remove
  lookup-remove k j [] = ground arith
  lookup-remove k j ((i, w) ∷ m) = ground (arith, lookup-remove k j m)

  pub lookup-retain :
      (keep : K → Bool) (j : K) (m : Map K V)
      → lookup j (retain keep m) ≡ (if keep j then lookup j m else none)
  unfolding lookup retain
  lookup-retain keep j [] = ground arith
  lookup-retain keep j ((i, w) ∷ m) = ground (arith, lookup-retain keep j m)
