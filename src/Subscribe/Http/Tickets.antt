-- ===== src/Subscribe/Http/Tickets.antt =====
-- Which route and which subset `select_route` of src/subscribe/http.rs takes.
use stouter.Prelude.{
  All-at, get_elem?-In, lt→ltb, ℕ, zero, suc, ◌+◌, ◌-◌, ◌<◌, ◌≤◌, String, Bool, true, false, Option,
  none, some, List, [], ◌∷◌, ltb, get_elem?, ◌≡◌, refl, arith, Bool-cases, inl, inr, ◌⊎◌, All,
}
use stouter.Config.{Route, RouteBackend, Label, label}
use stouter.Config.Routes.{matches}
use stouter.Subscribe.Http.Choosing.{
  RoutedTo, find_route, total_route_weight, ticket_at, choose_subset, select_route,
}

-- The weight of the subsets before a position.
unfoldable pub weight_before : List RouteBackend → ℕ → ℕ
weight_before bs zero = 0
weight_before [] (suc i) = 0
weight_before (b ∷ bs) (suc i) = b.weight + weight_before bs i

-- A ticket below the total falls on a subset, whose tickets are as many as its weight: those from the
-- weight before it on.
pub record Falls (bs : List RouteBackend) (ticket : ℕ) : Type 0 where
  pub place : ℕ
  pub subset : RouteBackend
  pub there : get_elem? bs place ≡ some subset
  pub from : weight_before bs place ≤ ticket
  pub below : ticket < weight_before bs place + subset.weight
  pub taken : ticket_at bs ticket ≡ some place

ticket_at-Falls :
    (bs : List RouteBackend) (ticket : ℕ) → ticket < total_route_weight bs → Falls bs ticket
unfolding ticket_at total_route_weight weight_before
ticket_at-Falls [] ticket h = absurd (omega arith)
ticket_at-Falls (b ∷ bs) ticket h = elim (Bool-cases (ltb ticket b.weight)) [
  | inl e ↦ record {
    place = 0;
    subset = b;
    there = refl;
    from = omega arith;
    below = ground (arith, e);
    taken = rw (ticket_at, e);
  }
  | inr e ↦
      let ih = ticket_at-Falls bs (ticket - b.weight) (ground (arith, e)) in
      record {
        place = suc ih.place;
        subset = ih.subset;
        there = ih.there;
        from = ground (arith, e, ih.from);
        below = ground (arith, e, ih.below);
        taken = rw (ticket_at, e, ih.taken);
      }
]

choose_subset-Falls :
    (bs : List RouteBackend) (ticket : ℕ) (f : Falls bs ticket)
    → choose_subset bs ticket ≡ some f.subset
unfolding choose_subset
choose_subset-Falls [] ticket f = absurd (let h = f.there in cc)
choose_subset-Falls (b ∷ bs) ticket f = rw (choose_subset, f.taken) f.there

-- No route before a place passes.
abbrev pub FirstAt : (Route → Bool) → List Route → ℕ → Type 0
FirstAt p rs k =
    (j : ℕ) (earlier : Route) → j < k → get_elem? rs j ≡ some earlier → p earlier ≡ false

-- The first route that passes, with its place in a list that is counted from `i`.
record First (p : Route → Bool) (i : ℕ) (rs : List Route) : Type 0 where
  pub place : ℕ
  pub route : Route
  pub found : find_route p i rs ≡ some (i + place, route)
  pub there : get_elem? rs place ≡ some route
  pub passes : p route ≡ true
  pub earliest : FirstAt p rs place

FirstAt-suc :
    (p : Route → Bool) (r : Route) (rs : List Route) (k : ℕ)
    → p r ≡ false
    → FirstAt p rs k
    → FirstAt p (r ∷ rs) (suc k)
FirstAt-suc p r rs k fails f zero earlier h e = let same : r ≡ earlier = cc in rw (← same) fails
FirstAt-suc p r rs k fails f (suc j) earlier h e = f j earlier (omega arith) e

find_route-First :
    (p : Route → Bool) (i : ℕ) (rs : List Route)
    → ((find_route p i rs ≡ none) × All (λ r. p r ≡ false) rs) ⊎ First p i rs
unfolding find_route
find_route-First p i [] = inl (refl, tt)
find_route-First p i (r ∷ rs) = elim (Bool-cases (p r)) [
  | inl e ↦
      let zero_place : i + 0 ≡ i = omega arith in
      inr (record {
        place = 0;
        route = r;
        found = rw (find_route, e, zero_place);
        there = refl;
        passes = e;
        earliest = λ j earlier h at. absurd (omega arith);
      })
  | inr e ↦ elim (find_route-First p (suc i) rs) [
    | inl (none_found, fails) ↦ inl (rw (find_route, e) none_found, (e, fails))
    | inr f ↦
        let shift : suc i + f.place ≡ i + suc f.place = omega arith in
        inr (record {
          place = suc f.place;
          route = f.route;
          found = rw (find_route, e) (rw shift at f.found);
          there = f.there;
          passes = f.passes;
          earliest = FirstAt-suc p r rs f.place e f.earliest;
        })
  ]
]

-- What a request is routed to.
pub data Selected (routes : List Route) (passes : Route → Bool) (random : ℕ → ℕ)
    : Option (Option RoutedTo) → Type 0 where
  default : All (λ r. passes r ≡ false) routes → Selected routes passes random (some none)
  routed :
      (i : ℕ) (r : Route)
      → get_elem? routes i ≡ some r
      → passes r ≡ true
      → FirstAt passes routes i
      → (f : Falls r.backends (random (total_route_weight r.backends)))
      → Selected routes passes random
          (some (some (record { label = stouter.Config.label r i; labels = f.subset.labels })))

-- A request goes to the first route that matches it, or to every instance if none does. The ticket
-- falls on exactly one subset of the route, each subset having as many tickets as its weight, one
-- after the other. The routes have a subset of non-zero weight, and the ticket is below the total.
pub select_route-Selected :
    (routes : List Route) (method : String) (path : List ℕ) (header : List ℕ → Option String)
    (random : ℕ → ℕ)
    → All (λ r. 0 < total_route_weight r.backends) routes
    → ((n : ℕ) → 0 < n → random n < n)
    → Selected routes
        (λ r. matches r.matches method path header)
        random
        (select_route routes method path header random)
unfolding select_route
select_route-Selected routes method path header random weighted below =
    let passes : Route → Bool = λ r. matches r.matches method path header in
    elim (find_route-First passes 0 routes) [
      | inl (e, fails) ↦ rw (select_route, e) (default fails)
      | inr f ↦
          let pos =
            All-at (λ r. 0 < total_route_weight r.backends) (get_elem?-In routes f.place f.there)
              weighted in
          let falls = ticket_at-Falls f.route.backends _ (below _ pos) in
          let at : 0 + f.place ≡ f.place = omega arith in
          rw
            (
              select_route,
              f.found,
              lt→ltb 0 _ pos,
              choose_subset-Falls f.route.backends _ falls,
              at,
            )
            (routed f.place f.route f.there f.passes f.earliest falls)
    ]
