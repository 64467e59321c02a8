-- ===== src/Tests/Balancer.antt =====
-- The balancer of src/subscribe/balancer.rs on small inputs, some of them the unit tests' own.
use mathlib.Core.Option
use stouter.Prelude.{
  ◌≤◌, ℕ, ◌+◌, ◌*◌, ◌^◌, ◌<◌, String, Option, none, some, List, [], ◌∷◌, count, In, ◌==◌,
  string_key, nat_key, if◌then◌else◌, ◌≡◌, ◌≢◌, refl, arith, lookup, insert, remove, retain,
  text_dec, ℕ_discrete, min, ltb, erase,
}
use stouter.Prelude.Int.{pos, ◌+ℤ◌, ◌-ℤ◌}
use stouter.Config.{unset_health}
use stouter.Subscribe.Balancer.{
  Backend, Candidate, Inner, chosen, all_tried, at_capacity, new, enumerate, fail_open, active_of,
  has_room, is_ejected, ejected_now, untried, open_candidates, undrained, eligible, weight_of,
  total_weight, running, better, gain, settle, choose, pick, drop_slot, retain_nodes,
  record_success, ejection_time, fail, record_failure, picks, id_of, base_ejection, max_ejection,
  no_failures,
}
use stouter.Subscribe.Balancer.Split.{Balanced, IsLevel, pool, picks-share, picks-split}
use stouter.Subscribe.Balancer.Picking.{Outcome, pick-Outcome}
use stouter.Subscribe.Balancer.Slots.{Session, picked, Reach, start, next, Accounts, Reach-Accounts}
use stouter.Subscribe.Balancer.Ejections.{NoneEjects, fail_all, strike-lasts}
use stouter.Subscribe.Balancer.Outliers.{
  state_of, IsCounted, strike, record_failure-ejects, strike-ejects, state_of-record_success,
}

program : Unit {0}
unfolding text_dec ℕ_discrete lookup insert remove retain count erase ◌+ℤ◌ ◌-ℤ◌ enumerate fail_open
    active_of has_room is_ejected ejected_now untried open_candidates undrained eligible weight_of
    total_weight running better gain settle choose pick drop_slot retain_nodes record_success
    ejection_time fail record_failure picks
program = tt

abbrev backend : String → ℕ → Option ℕ → Backend
backend id weight limit = record {
  node = record { id = id; addr = ""; relay = none; last_seen = none; health = unset_health };
  weight = weight;
  max_connections = limit;
  request_timeout = none;
  labels = [];
}

abbrev three : List Backend
three = backend "a" 5 none ∷ backend "b" 1 none ∷ backend "c" 1 none ∷ []

-- The nginx reference sequence for weights 5, 1 and 1.
weights_split_traffic :
    Option.map (λ r. r.0) (picks 7 new three [] 0)
    ≡ some ("a" ∷ "a" ∷ "b" ∷ "a" ∷ "c" ∷ "a" ∷ "a" ∷ [])
unfolding program
weights_split_traffic = refl

all_drained :
    Option.map (λ r. r.0) (picks 4 new (backend "a" 0 none ∷ backend "b" 0 none ∷ []) [] 0)
    ≡ some ("a" ∷ "b" ∷ "a" ∷ "b" ∷ [])
unfolding program
all_drained = refl

retry_skips_tried : Option.map (λ r. r.0) (pick new three ("a" ∷ "b" ∷ "c" ∷ []) 0) ≡ some all_tried
unfolding program
retry_skips_tried = refl

abbrev limited : List Backend
limited = backend "a" 1 (some 1) ∷ []

abbrev one_open : Inner
one_open = record { current = ("a", pos 0) ∷ []; outliers = []; active = ("a", 1) ∷ [] }

pick-limited : pick new limited [] 0 ≡ some (chosen 0 "a", one_open)
unfolding program
pick-limited = refl

connection_limit : pick one_open limited [] 0 ≡ some (at_capacity, one_open)
unfolding program
connection_limit = refl

slot_released : (drop_slot one_open "a").active ≡ []
unfolding program
slot_released = refl

three-Balanced : Balanced three []
unfolding program
three-Balanced = record {
  unlimited = (refl, (refl, (refl, tt)));
  distinct = (refl, (refl, (refl, tt)));
  some_untried = refl;
}

new-IsLevel : (set : List Candidate) → IsLevel set new
unfolding running lookup
new-IsLevel set c i = refl

picks-share_example :
    (out : List String) × (t : Inner) × (picks 3 new three [] 0 ≡ some (out, t))
    × ((c : Candidate)
        → In c (pool new three [] 0)
        → total_weight (pool new three [] 0) * count (id_of c) out
          < 3 * weight_of c + total_weight (pool new three [] 0))
picks-share_example = picks-share three-Balanced 0 3 new (new-IsLevel (pool new three [] 0))

picks-split_example :
    (out : List String) × (t : Inner) × (picks
        (2 * total_weight (pool new three [] 0))
        new
        three
        []
        0
      ≡ some (out, t))
    × ((c : Candidate) → In c (pool new three [] 0) → count (id_of c) out ≡ 2 * weight_of c)
    × IsLevel (pool new three [] 0) t
picks-split_example = picks-split three-Balanced 0 2 new (new-IsLevel (pool new three [] 0))

pick-Outcome_example : Outcome one_open limited [] 0
pick-Outcome_example = pick-Outcome one_open limited [] 0

abbrev limit_one : String → Option ℕ
limit_one id = some 1

abbrev opened : Session
opened = record { inner = one_open; held = "a" ∷ [] }

opened-Reach : Reach limit_one (record { inner = new; held = [] }) opened
opened-Reach =
    next start (picked _ limited [] 0 0 "a" one_open (refl, tt) (omega arith) pick-limited)

Reach-Accounts_example : Accounts limit_one opened
Reach-Accounts_example = Reach-Accounts limit_one opened-Reach

new-IsCounted : IsCounted (state_of new "a")
unfolding lookup
new-IsCounted = record { below = omega arith; fits = omega arith }

record_failure-ejects_example : (record_failure new "a" 0).1 ≡ (
    if is_ejected (state_of new "a") 0
    then none
    else if (state_of new "a").consecutive_failures == 2
    then some (min (base_ejection * 2 ^ (state_of new "a").ejections) max_ejection)
    else none)
record_failure-ejects_example = record_failure-ejects new "a" 0 new-IsCounted

strike-ejects_example :
    (d : ℕ) × (d ≡ min (base_ejection * 2 ^ (state_of new "a").ejections) max_ejection)
    × ((strike new "a" 1 2 3).1 ≡ none ∷ none ∷ some d ∷ [])
    × ((u : ℕ) → is_ejected (state_of (strike new "a" 1 2 3).0 "a") u ≡ ltb u (3 + d))
    × ((state_of (strike new "a" 1 2 3).0 "a").consecutive_failures ≡ 0)
    × ((state_of (strike new "a" 1 2 3).0 "a").ejections ≡ (state_of new "a").ejections + 1)
    × ((j : String) → "a" ≢ j → state_of (strike new "a" 1 2 3).0 j ≡ state_of new j)
unfolding lookup is_ejected
strike-ejects_example =
    strike-ejects new "a" 1 2 3 refl (omega arith) refl (omega arith) (omega arith)

abbrev out : Inner
out = record new {
  outliers = ("a", record { consecutive_failures = 0; ejections = 1; ejected_until = some 9 }) ∷ [];
}

-- Two nodes fail while the first is ejected.
abbrev failures : List (String × ℕ)
failures = ("a", 5) ∷ ("b", 6) ∷ ("a", 10_000_000_002) ∷ []

strike-lasts_example :
    NoneEjects "a" (fail_all (strike new "a" 1 2 3).0 failures).1
    × ((u : ℕ)
        → is_ejected (state_of (fail_all (strike new "a" 1 2 3).0 failures).0 "a") u
          ≡ ltb u 10_000_000_003)
    × ((v : ℕ)
        → 10_000_000_003 ≤ v
        → ((record_failure (fail_all (strike new "a" 1 2 3).0 failures).0 "a" v).1 ≡ none)
          × ((state_of
                (record_failure (fail_all (strike new "a" 1 2 3).0 failures).0 "a" v).0
                "a").consecutive_failures
              ≡ 1))
unfolding lookup is_ejected
strike-lasts_example =
    strike-lasts new "a" 1 2 3 failures refl (omega arith) refl (omega arith) (omega arith)
      (λ e. omega arith, (λ e. omega arith, (λ e. omega arith, tt)))

state_of-record_success_example :
    state_of (record_success out "a") "b"
    ≡ (if ◌==◌ {K = String} "a" "b" then no_failures else state_of out "b")
state_of-record_success_example = state_of-record_success out "a" "b"
