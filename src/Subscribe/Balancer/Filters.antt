-- ===== src/Subscribe/Balancer/Filters.antt =====
-- The filters of `pick`: what survives them, and what they depend on.
use stouter.Prelude.{
  ℕ, suc, String, Bool, true, false, none, List, [], ◌∷◌, map, filter, is_empty, In, here, there,
  All, All-at, All-of, Distinct, In-filter, filter-All, is_empty-filter, Distinct-map-filter,
  string_key, ◌≡◌, refl, ap, ◌⊎◌, inl, inr, Bool-cases,
}
use stouter.Subscribe.Balancer.{
  Backend, Candidate, Inner, id_of, enumerate, fail_open, has_room, ejected_now, untried,
  open_candidates, undrained, eligible,
}
use stouter.Subscribe.Balancer.Gain.{ids}

module _ {ℓ} {A : Type ℓ} where
  fail_open_cases :
      (set : List A) (keep : A → Bool)
      → ((fail_open set keep ≡ set) × All (λ y. keep y ≡ false) set)
        ⊎ (fail_open set keep ≡ filter keep set)
  unfolding fail_open
  fail_open_cases set keep = elim (Bool-cases (is_empty (filter keep set))) [
    | inl e ↦ inl (rw e, is_empty-filter keep set e)
    | inr e ↦ inr (rw e)
  ]

  -- What survives was there.
  pub In-fail_open : (set : List A) (keep : A → Bool) {x : A} → In x (fail_open set keep) → In x set
  In-fail_open set keep i = elim (fail_open_cases set keep) [
    | inl (e, _) ↦ rw e at i
    | inr e ↦ (In-filter keep set (rw e at i)).0
  ]

  -- The filter is skipped only if it would leave nothing: whatever survives passes the test, or
  -- nothing in the set does.
  pub fail_open_keeps :
      (set : List A) (keep : A → Bool) {x : A}
      → In x (fail_open set keep)
      → (keep x ≡ true) ⊎ All (λ y. keep y ≡ false) set
  fail_open_keeps set keep i = elim (fail_open_cases set keep) [
    | inl (_, h) ↦ inr h
    | inr e ↦ inl (In-filter keep set (rw e at i)).1
  ]

  -- It never leaves nothing of something.
  pub fail_open-nonempty :
      (set : List A) (keep : A → Bool)
      → is_empty set ≡ false
      → is_empty (fail_open set keep) ≡ false
  unfolding fail_open
  fail_open-nonempty set keep h = elim (Bool-cases (is_empty (filter keep set))) [
    | inl e ↦ rw e h
    | inr e ↦ rw e e
  ]

  pub Distinct-fail_open :
      (f : A → String) (set : List A) (keep : A → Bool)
      → Distinct (map f set)
      → Distinct (map f (fail_open set keep))
  Distinct-fail_open f set keep d = elim (fail_open_cases set keep) [
    | inl (e, _) ↦ rw e d
    | inr e ↦ rw e (Distinct-map-filter f keep set d)
  ]

-- Every candidate is an element of the slice, at its index.
pub In-enumerate : (i : ℕ) (bs : List Backend) {c : Candidate} → In c (enumerate i bs) → In c.1 bs
unfolding enumerate
In-enumerate i [] h = elim h [ ]
In-enumerate i (b ∷ bs) here = here
In-enumerate i (b ∷ bs) (there h) = there (In-enumerate (suc i) bs h)

ids-enumerate : (i : ℕ) (bs : List Backend) → ids (enumerate i bs) ≡ map (λ b. b.node.id) bs
unfolding enumerate
ids-enumerate i [] = refl
ids-enumerate i (b ∷ bs) = ap (◌∷◌ b.node.id) (ids-enumerate (suc i) bs)

pub eligible-nonempty :
    (s : Inner) (now : ℕ) (set : List Candidate)
    → is_empty set ≡ false
    → is_empty (eligible s now set) ≡ false
unfolding eligible undrained
eligible-nonempty s now set h = fail_open-nonempty _ _ (fail_open-nonempty set _ h)

pub In-eligible :
    (s : Inner) (now : ℕ) (set : List Candidate) {c : Candidate}
    → In c (eligible s now set)
    → In c set
unfolding eligible undrained
In-eligible s now set i = In-fail_open set _ (In-fail_open _ _ i)

-- The ids of the eligible candidates are distinct if the slice's are.
pub Distinct-eligible :
    (s : Inner) (now : ℕ) (bs : List Backend) (tried : List String)
    → Distinct (map (λ b. b.node.id) bs)
    → Distinct (ids (eligible s now (open_candidates s bs tried)))
unfolding eligible undrained open_candidates untried
Distinct-eligible s now bs tried d =
    let start : Distinct (ids (enumerate 0 bs)) = rw (ids-enumerate 0 bs) d in
    Distinct-fail_open id_of _ _ (
      Distinct-fail_open id_of _ _
        (Distinct-map-filter id_of (has_room s) _ (Distinct-map-filter id_of _ _ start)))

-- With no connection limits every untried candidate is open.
pub open-unlimited :
    (s : Inner) (bs : List Backend) (tried : List String)
    → All (λ b. b.max_connections ≡ none) bs
    → open_candidates s bs tried ≡ untried bs tried
unfolding open_candidates untried has_room
open-unlimited s bs tried h = filter-All (has_room s) _ (
    All-of (λ c. has_room s c ≡ true) _
      λ c i.
        let e =
          All-at (λ (b : Backend). b.max_connections ≡ none) (In-enumerate 0 bs (In-filter _ _ i).0)
            h in
        rw e refl)

-- Which candidates are eligible depends on nothing but the ejections.
pub eligible-outliers :
    (s t : Inner) (now : ℕ) (set : List Candidate)
    → s.outliers ≡ t.outliers
    → eligible s now set ≡ eligible t now set
unfolding eligible ejected_now
eligible-outliers s t now set e = rw e
