-- ===== src/State/Pool.antt =====
-- `StreamPool` of src/state.rs: idle connections by key, the latest taken first. A waiting `take`
-- is a sequence of looks at the pool; only one that finds a connection changes it.
use stouter.Prelude.{
  ℕ, String, Option, none, some, get_or, List, [], ◌∷◌, ◌++◌, Map, lookup, length, insert, ◌==◌,
  string_key, if◌then◌else◌, ◌≡◌, refl, ap, arith, lookup-insert, ◌∙◌, text_dec,
}

module _ {ℓ} {T : Type ℓ} where
  -- `vec.pop()`: the last element, and the others.
  unfoldable pub pop : List T → Option (List T × T)
  pop [] = none
  pop (x ∷ []) = some ([], x)
  pop (x ∷ y ∷ ys) = elim (pop (y ∷ ys)) [ none ↦ none | some (rest, last) ↦ some (x ∷ rest, last) ]

  abbrev pub idle : String → Map String (List T) → List T
  idle key connections = get_or (lookup key connections) []

  -- `conns.entry(key).or_default().push(stream)`
  unfoldable pub push : String → T → Map String (List T) → Map String (List T)
  push key stream connections = insert key (idle key connections ++ stream ∷ []) connections

  unfoldable pub try_take : String → Map String (List T) → Map String (List T) × Option T
  unfolding pop
  try_take key connections = elim (lookup key connections) [
    | none ↦ (connections, none)
    | some vec ↦ elim (pop vec) [
      | none ↦ (connections, none)
      | some (rest, stream) ↦ (insert key rest connections, some stream)
    ]
  ]

  unfoldable pub count : String → Map String (List T) → ℕ
  count key connections = length (idle key connections)

  pop-push : (xs : List T) (x : T) → pop (xs ++ x ∷ []) ≡ some (xs, x)
  unfolding pop
  pop-push [] x = refl
  pop-push (y ∷ []) x = refl
  pop-push (y ∷ z ∷ xs) x = rw (pop-push (z ∷ xs) x)

  lookup-push :
      (key : String) (stream : T) (connections : Map String (List T))
      → lookup key (push key stream connections) ≡ some (idle key connections ++ stream ∷ [])
  unfolding push
  lookup-push key stream connections =
      ground (arith, lookup-insert key key (idle key connections ++ stream ∷ []) connections)

  try_take-push_eq :
      (key : String) (stream : T) (connections : Map String (List T))
      → try_take key (push key stream connections)
        ≡ (insert key (idle key connections) (push key stream connections), some stream)
  unfolding try_take
  try_take-push_eq key stream connections =
      rw (try_take, lookup-push key stream connections, pop-push (idle key connections) stream)

  idle-insert :
      (key other : String) (xs : List T) (connections : Map String (List T))
      → idle other (insert key xs connections)
        ≡ (if key == other then xs else idle other connections)
  idle-insert key other xs connections = ground (arith, lookup-insert key other xs connections)

  idle-restored :
      (key other : String) (xs : List T) (connections : Map String (List T))
      → idle other (insert key (idle key connections) (insert key xs connections))
        ≡ idle other connections
  idle-restored key other xs connections = elim (text_dec key other) [
    | yes p ↦ ground (
      arith,
      p,
      idle-insert key other (idle key connections) (insert key xs connections),
      ap (λ k. idle k connections) p,
    )
    | no n ↦ ground (
      arith,
      idle-insert key other (idle key connections) (insert key xs connections),
      idle-insert key other xs connections,
    )
  ]

  -- The connection pushed last is the one taken, and afterwards every key holds what it did before
  -- the push.
  pub try_take-push :
      (key : String) (stream : T) (connections : Map String (List T))
      → ((try_take key (push key stream connections)).1 ≡ some stream)
        × ((other : String)
            → idle other (try_take key (push key stream connections)).0 ≡ idle other connections)
  unfolding push
  try_take-push key stream connections =
      let e = try_take-push_eq key stream connections in
      (ap (λ r. r.1) e, λ other. ap (λ r. idle other r.0) e ∙ idle-restored key other _ connections)
