-- ===== src/Subscribe/Http/Choosing.antt =====
-- `select_route` of src/subscribe/http.rs: the first route that matches, and one of its subsets by
-- weight. The random ticket is an argument; it is below the total unless that is zero.
use stouter.Prelude.{
  ℕ, suc, ◌+◌, ◌-◌, String, Bool, Option, none, some, List, [], ◌∷◌, Map, ltb, if◌then◌else◌,
  get_elem?,
}
use stouter.Config.{Route, RouteBackend, Label, label}
use stouter.Config.Routes.{matches}

-- `RoutedTo`
pub record RoutedTo : Type 0 where
  pub label : Label
  pub labels : Map String String

-- `iter().enumerate().find(..)`
unfoldable pub find_route : (Route → Bool) → ℕ → List Route → Option (ℕ × Route)
find_route p i [] = none
find_route p i (r ∷ rs) = let rest = find_route p (suc i) rs in if p r then some (i, r) else rest

unfoldable pub total_route_weight : List RouteBackend → ℕ
total_route_weight [] = 0
total_route_weight (b ∷ bs) = b.weight + total_route_weight bs

-- The position that the ticket falls on, as `find` takes the weights off it.
unfoldable pub ticket_at : List RouteBackend → ℕ → Option ℕ
ticket_at [] ticket = none
ticket_at (b ∷ bs) ticket =
    let rest : Option ℕ = elim (ticket_at bs (ticket - b.weight)) [
      | none ↦ none
      | some i ↦ some (suc i)
    ] in
    if ltb ticket b.weight then some 0 else rest

-- `none` is the panic of `route.backends[0]`, which validation rules out.
unfoldable pub choose_subset : List RouteBackend → ℕ → Option RouteBackend
unfolding ticket_at
choose_subset [] ticket = none
choose_subset (b ∷ bs) ticket = elim (ticket_at (b ∷ bs) ticket) [
  | none ↦ some b
  | some i ↦ get_elem? (b ∷ bs) i
]

unfoldable pub select_route :
    List Route → String → List ℕ → (List ℕ → Option String) → (ℕ → ℕ) → Option (Option RoutedTo)
unfolding find_route total_route_weight choose_subset matches
select_route routes method path header random =
    elim (find_route (λ r. matches r.matches method path header) 0 routes) [
      | none ↦ some none
      | some (i, r) ↦
          let total = total_route_weight r.backends in
          elim (choose_subset r.backends (if ltb 0 total then random total else 0)) [
            | none ↦ none
            | some b ↦ some (some (record { label = stouter.Config.label r i; labels = b.labels }))
          ]
    ]
