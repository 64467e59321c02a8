-- ===== src/Subscribe/Manager/Entries.antt =====
-- Entries of association lists, for the maps of src/subscribe/mod.rs.
use stouter.Prelude.{
  String, Bool, true, false, not, ◌&&◌, ◌||◌, none, some, List, [], ◌∷◌, ◌++◌, Map, map, filter,
  contains, lookup, insert, remove, contains_key, keys, text_dec, ◌==◌, string_key, ◌≡◌, refl,
  arith, Distinct, Bool-cases, inl, inr, In, here, there,
}

lone :
    (n a : String) (xs : List String)
    → contains a xs ≡ false
    → contains n xs ≡ (contains n (a ∷ xs) && not (a == n))
lone n a xs h = elim (text_dec n a) [
  | yes p ↦ let c : contains n xs ≡ false = rw p h in ground arith
  | no q ↦ ground arith
]

kept :
    (n b a : String) (xs : List String) {rest : Bool}
    → contains b xs ≡ false
    → contains a xs ≡ true
    → rest ≡ (contains n xs && not (a == n))
    → ((n == b) || rest) ≡ (contains n (b ∷ xs) && not (a == n))
kept n b a xs f o h = elim (text_dec a b) [
  | yes p ↦ let c : contains b xs ≡ true = rw (← p) o in absurd (ground arith)
  | no q ↦ elim (text_dec n b) [
    | yes p ↦ let c : (a == n) ≡ false = rw p (ground arith) in ground arith
    | no r ↦ ground arith
  ]
]

module _ {ℓ} {V : Type ℓ} where
  pub remove-filter : (k : String) (m : Map String V) → remove k m ≡ filter (λ e. not (e.0 == k)) m
  unfolding remove
  remove-filter k [] = refl
  remove-filter k ((j, w) ∷ m) = ground (arith, remove-filter k m)

  -- A new key goes to the end.
  pub insert-new :
      (k : String) (v : V) (m : Map String V) → lookup k m ≡ none → insert k v m ≡ m ++ (k, v) ∷ []
  unfolding insert lookup
  insert-new k v [] h = refl
  insert-new k v (e ∷ m) h = ground (arith, insert-new k v m)

  pub lookup-contains : (k : String) (m : Map String V) → contains_key k m ≡ contains k (keys m)
  unfolding lookup
  lookup-contains k [] = refl
  lookup-contains k (e ∷ m) = ground (arith, lookup-contains k m)

  pub lookup-In : (k : String) (m : Map String V) {v : V} → lookup k m ≡ some v → In (k, v) m
  unfolding lookup
  lookup-In k [] h = absurd (cc)
  lookup-In k (e ∷ m) {v} h = elim (Bool-cases (e.0 == k)) [
    | inl q ↦ let p : e.0 ≡ k = ground arith in let r : e.1 ≡ v = ground arith in rw (← p, ← r) here
    | inr q ↦ there (lookup-In k m (ground arith))
  ]

  module _ (name : V → String) where
    -- The names that the values have.
    abbrev pub names : Map String V → List String
    names = map (λ e. name e.1)

    pub lookup-names :
        (k : String) (m : Map String V) {v : V}
        → lookup k m ≡ some v
        → contains (name v) (names m) ≡ true
    unfolding lookup
    lookup-names k [] h = absurd (cc)
    lookup-names k (e ∷ m) {v} h = elim (Bool-cases (e.0 == k)) [
      | inl q ↦ let r : e.1 ≡ v = ground arith in rw (← r) (ground arith)
      | inr q ↦ let c = lookup-names k m {v = v} (ground arith) in ground arith
    ]

    pub names-append :
        (n : String) (m : Map String V) (k : String) (v : V)
        → contains n (names (m ++ (k, v) ∷ [])) ≡ (contains n (names m) || n == name v)
    names-append n [] k v = ground arith
    names-append n (e ∷ m) k v = ground (arith, names-append n m k v)

    absent-remove :
        (k n : String) (m : Map String V)
        → contains k (keys m) ≡ false
        → contains n (names (remove k m)) ≡ contains n (names m)
    unfolding remove
    absent-remove k n [] h = refl
    absent-remove k n ((j, w) ∷ m) h = ground (arith, absent-remove k n m)

    -- With distinct keys and names, the removal of a key takes its name away and no other.
    pub names-remove :
        (k n : String) (m : Map String V) {v : V}
        → Distinct (keys m)
        → Distinct (names m)
        → lookup k m ≡ some v
        → contains n (names (remove k m)) ≡ (contains n (names m) && not (name v == n))
    unfolding lookup remove
    names-remove k n [] d f h = absurd (cc)
    names-remove k n ((j, w) ∷ m) {v} d f h = elim (Bool-cases (j == k)) [
      | inl q ↦
          let p : j ≡ k = ground arith in
          let r : w ≡ v = ground arith in
          let gone : contains n (names (remove k m)) ≡ contains n (names m) =
            absent-remove k n m (rw (← p) d.0) in
          let fresh : contains (name v) (names m) ≡ false = rw (← r) f.0 in
          rw (q, gone, r) (lone n (name v) (names m) fresh)
      | inr q ↦
          let e : lookup k m ≡ some v = ground arith in
          let ih = names-remove k n m {v = v} d.1 f.1 e in
          let owned = lookup-names k m e in
          let fresh = f.0 in rw q (kept n (name w) (name v) (names m) fresh owned ih)
    ]
