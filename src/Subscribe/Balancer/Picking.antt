-- ===== src/Subscribe/Balancer/Picking.antt =====
-- The outcomes of `pick`, on every branch.
use stouter.Subscribe.Balancer.Gain.{kept, first_or}
use stouter.Prelude.{
  if_either, Map, ℕ, suc, ◌+◌, ◌%◌, ◌^◌, ◌<◌, String, true, false, not, none, some, List, [], ◌∷◌,
  is_empty, get_elem?, lookup-insert, In, here, there, All, All-map, ◌==◌, string_key,
  if◌then◌else◌, ◌≡◌, refl, ap, ◌∙◌, ◌⊎◌, inl, inr, arith, lookup, insert, get_or, contains,
  Bool-cases, ltb, In-filter, is_empty-filter,
}
use stouter.Prelude.Int.{ℤ, pos, ◌+ℤ◌, ltb_ℤ}
use stouter.Subscribe.Balancer.{
  active_of, Backend, Candidate, Inner, chosen, all_tried, at_capacity, id_of, running, gain,
  settle, choose, total_weight, weight_of, pick, eligible, open_candidates, untried, undrained,
  has_room, ejected_now, enumerate, better,
}
use stouter.Subscribe.Balancer.Filters.{eligible-nonempty, In-fail_open, fail_open_keeps}

-- What `pick` promises of the candidate that it takes.
pub record Allowed (s : Inner) (bs : List Backend) (tried : List String) (now : ℕ) (c : Candidate)
    : Type 0 where
  pub indexed : get_elem? bs c.0 ≡ some c.1
  pub not_tried : contains (id_of c) tried ≡ false
  pub room : has_room s c ≡ true
  pub not_drained : (0 < c.1.weight) ⊎ All (λ d. d.1.weight ≡ 0) (open_candidates s bs tried)
  pub not_ejected :
      (ejected_now s now c ≡ false)
      ⊎ All (λ d. ejected_now s now d ≡ true) (undrained (open_candidates s bs tried))

enumerate-index :
    (i : ℕ) (bs : List Backend) {c : Candidate}
    → In c (enumerate i bs)
    → (k : ℕ) × (c.0 ≡ i + k) × (get_elem? bs k ≡ some c.1)
unfolding enumerate
enumerate-index i [] h = elim h [ ]
enumerate-index i (b ∷ bs) here = (0, omega arith, refl)
enumerate-index i (b ∷ bs) (there h) =
    let (k, e, at) = enumerate-index (suc i) bs h in (suc k, omega arith, at)

gain-member :
    (cs : List Candidate) (m : Map String ℤ) (b : Candidate × ℤ)
    → (r : Candidate × ℤ) × ((gain cs m (some b)).1 ≡ some r) × ((r.0 ≡ b.0) ⊎ In r.0 cs)
unfolding gain better
gain-member [] m b = (b, refl, inl refl)
gain-member (c ∷ cs) m b =
    let w = running m (id_of c) +ℤ pos (weight_of c) in
    let t = ltb_ℤ b.1 w in
    let x : Candidate × ℤ = if t then (c, w) else b in
    let (r, q, at) = gain-member cs (insert (id_of c) w m) x in
    let from : (x.0 ≡ b.0) ⊎ (x.0 ≡ c) = elim (if_either t (c, w) b) [
      | inl e ↦ inr (ap (λ (y : Candidate × ℤ). y.0) e)
      | inr e ↦ inl (ap (λ (y : Candidate × ℤ). y.0) e)
    ] in
    (r, q, kept c cs at from)

-- From a set that is not empty `choose` takes a member, without a panic.
choose-member :
    (s : Inner) (set : List Candidate)
    → is_empty set ≡ false
    → (c : Candidate) × In c set
      × (choose s set
          ≡ some (chosen c.0 (id_of c), settle s (gain set s.current none).0 c (total_weight set)))
unfolding choose gain better
choose-member s [] h = absurd (cc)
choose-member s (c ∷ cs) h =
    let w = running s.current (id_of c) +ℤ pos (weight_of c) in
    let (r, q, at) = gain-member cs (insert (id_of c) w s.current) (c, w) in
    (r.0, first_or c cs at, rw (q, choose))

eligible-Allowed :
    (s : Inner) (bs : List Backend) (tried : List String) (now : ℕ) {c : Candidate}
    → In c (eligible s now (open_candidates s bs tried))
    → Allowed s bs tried now c
unfolding eligible undrained open_candidates untried
eligible-Allowed s bs tried now {c} i =
    let set = open_candidates s bs tried in
    let in_undrained = In-fail_open (undrained set) _ i in
    let in_open = In-fail_open set _ in_undrained in
    let (in_untried, room) = In-filter (has_room s) (untried bs tried) in_open in
    let (in_all, fresh) =
      In-filter (λ c. not (contains (id_of c) tried)) (enumerate 0 bs) in_untried in
    record {
      indexed =
          let (k, e, at) = enumerate-index 0 bs in_all in
          let e' : c.0 ≡ k = omega arith in ap (get_elem? bs) e' ∙ at;
      not_tried = ground arith;
      room = room;
      not_drained = elim (fail_open_keeps set (λ d. ltb 0 d.1.weight) in_undrained) [
        | inl e ↦ inl (ground arith)
        | inr h ↦ inr (
            All-map (λ d. ltb 0 d.1.weight ≡ false) (λ d. d.1.weight ≡ 0) set (λ d e. ground arith)
              h)
      ];
      not_ejected = elim (fail_open_keeps (undrained set) (λ d. not (ejected_now s now d)) i) [
        | inl e ↦ inl (ground arith)
        | inr h ↦ inr (
            All-map (λ d. not (ejected_now s now d) ≡ false) (λ d. ejected_now s now d ≡ true)
              (undrained set) (λ d e. ground arith) h)
      ];
    }

-- What a reservation changes: the count of the one node, and no ejection.
pub record Reserved (s : Inner) (c : Candidate) (t : Inner) : Type 0 where
  pub active :
      (j : String)
      → lookup j t.active
        ≡ (if id_of c == j then some ((active_of s j + 1) % 2 ^ 32) else lookup j s.active)
  pub outliers : t.outliers ≡ s.outliers

settle-Reserved :
    (s : Inner) (m : Map String ℤ) (c : Candidate) (total : ℕ) → Reserved s c (settle s m c total)
unfolding settle active_of
settle-Reserved s m c total = record {
  active = λ j. ground (
    arith,
    lookup-insert (id_of c) j ((get_or (lookup (id_of c) s.active) 0 + 1) % 2 ^ 32) s.active,
  );
  outliers = refl;
}

nothing_untried :
    (bs : List Backend) (tried : List String)
    → is_empty (untried bs tried) ≡ true
    → All (λ c. contains (id_of c) tried ≡ true) (enumerate 0 bs)
unfolding untried
nothing_untried bs tried e =
    All-map (λ c. not (contains (id_of c) tried) ≡ false) (λ c. contains (id_of c) tried ≡ true)
      (enumerate 0 bs) (λ c h. ground arith)
      (is_empty-filter (λ c. not (contains (id_of c) tried)) (enumerate 0 bs) e)

nothing_open :
    (s : Inner) (bs : List Backend) (tried : List String)
    → is_empty (open_candidates s bs tried) ≡ true
    → All (λ c. has_room s c ≡ false) (untried bs tried)
unfolding open_candidates
nothing_open s bs tried e = is_empty-filter (has_room s) (untried bs tried) e

-- The three outcomes.
pub data Outcome (s : Inner) (bs : List Backend) (tried : List String) (now : ℕ) : Type 0 where
  tried_all :
      pick s bs tried now ≡ some (all_tried, s)
      → All (λ c. contains (id_of c) tried ≡ true) (enumerate 0 bs)
      → Outcome s bs tried now
  full :
      pick s bs tried now ≡ some (at_capacity, s)
      → is_empty (untried bs tried) ≡ false
      → All (λ c. has_room s c ≡ false) (untried bs tried)
      → Outcome s bs tried now
  reserved :
      (c : Candidate) (t : Inner)
      → pick s bs tried now ≡ some (chosen c.0 (id_of c), t)
      → Allowed s bs tried now c
      → Reserved s c t
      → Outcome s bs tried now

-- `pick` never panics. Either every candidate was tried, and nothing changes; or some were not and
-- each of those is at its limit, and nothing changes; or a slot is reserved on a candidate that was
-- not tried, has room, is not drained unless every open one is, and is not ejected unless every
-- undrained open one is, and the count of that node alone goes up.
pub pick-Outcome :
    (s : Inner) (bs : List Backend) (tried : List String) (now : ℕ) → Outcome s bs tried now
unfolding pick
pick-Outcome s bs tried now = elim (Bool-cases (is_empty (untried bs tried))) [
  | inl e ↦ tried_all (rw e) (nothing_untried bs tried e)
  | inr some_left ↦ elim (Bool-cases (is_empty (open_candidates s bs tried))) [
    | inl e ↦ full (rw (some_left, e)) some_left (nothing_open s bs tried e)
    | inr some_open ↦
        let set = eligible s now (open_candidates s bs tried) in
        let (c, i, result) = choose-member s set (eligible-nonempty s now _ some_open) in
        reserved c (settle s (gain set s.current none).0 c (total_weight set))
          (rw (some_left, some_open) result) (eligible-Allowed s bs tried now i)
          (settle-Reserved s _ c _)
  ]
]
