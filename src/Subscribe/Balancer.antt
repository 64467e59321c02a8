-- ===== src/Subscribe/Balancer.antt =====
-- src/subscribe/balancer.rs: per-service backend selection. A method takes `Inner`, the state
-- behind the mutex, and returns the state that it leaves.
pub mod Gain
pub mod Filters
pub mod Choice
pub mod Shares
pub mod Split
pub mod Picking
pub mod Slots
pub mod Outliers
pub mod Ejections
use stouter.Prelude.{
  ℕ, zero, suc, ◌+◌, ◌-◌, ◌*◌, ◌%◌, ◌^◌, String, Bool, true, false, not, Option, none, some, get_or,
  List, [], ◌∷◌, Map, lookup, insert, remove, retain, filter, any, is_empty, contains, ltb, ◌==◌,
  string_key, nat_key, if◌then◌else◌, min, max,
}
use mathlib.Core.Option
use stouter.Prelude.Int.{ℤ, pos, ◌+ℤ◌, ◌-ℤ◌, ltb_ℤ}
use stouter.Config.{NodeInfo}

abbrev pub eject_after_failures : ℕ
eject_after_failures = 3

-- `Duration::from_secs` and a saturated `Duration`, in nanoseconds.
abbrev pub from_secs : ℕ → ℕ
from_secs s = s * 1_000_000_000

abbrev pub duration_max : ℕ
duration_max = 2 ^ 64 * 1_000_000_000 - 1

abbrev pub base_ejection : ℕ
base_ejection = from_secs 10

abbrev pub max_ejection : ℕ
max_ejection = from_secs 120

pub record Backend : Type 0 where
  pub node : NodeInfo
  pub weight : ℕ
  pub max_connections : Option ℕ
  pub request_timeout : Option ℕ
  pub labels : Map String String

pub record OutlierState : Type 0 where
  pub consecutive_failures : ℕ
  pub ejections : ℕ
  pub ejected_until : Option ℕ

-- `OutlierState::default()`
abbrev pub no_failures : OutlierState
no_failures = record { consecutive_failures = 0; ejections = 0; ejected_until = none }

unfoldable pub is_ejected : OutlierState → ℕ → Bool
is_ejected o now = elim o.ejected_until [ none ↦ false | some until ↦ ltb now until ]

pub record Inner : Type 0 where
  pub current : Map String ℤ
  pub outliers : Map String OutlierState
  pub active : Map String ℕ

-- `Balancer::new()`
abbrev pub new : Inner
new = record { current = []; outliers = []; active = [] }

-- A `usize` into `candidates`, together with the element that it selects.
abbrev pub Candidate : Type 0
Candidate = ℕ × Backend

abbrev pub id_of : Candidate → String
id_of c = c.1.node.id

-- `0..candidates.len()`
unfoldable pub enumerate : ℕ → List Backend → List Candidate
enumerate i [] = []
enumerate i (b ∷ bs) = (i, b) ∷ enumerate (suc i) bs

-- What `pick` reserves: the slot is the id of the node whose connection it counts.
pub data Pick : Type 0 where
  chosen : ℕ → String → Pick
  all_tried : Pick
  at_capacity : Pick

-- Indices in `set` satisfying `keep`, or all of `set` if none do.
unfoldable pub fail_open {ℓ} : {A : Type ℓ} → List A → (A → Bool) → List A
fail_open set keep = let kept = filter keep set in if is_empty kept then set else kept

unfoldable pub active_of : Inner → String → ℕ
active_of s id = get_or (lookup id s.active) 0

-- `max_connections.is_none_or(|max| active < max)`
unfoldable pub has_room : Inner → Candidate → Bool
has_room s c = elim c.1.max_connections [ none ↦ true | some m ↦ ltb (active_of s (id_of c)) m ]

unfoldable pub ejected_now : Inner → ℕ → Candidate → Bool
ejected_now s now c = elim (lookup (id_of c) s.outliers) [
  | none ↦ false
  | some o ↦ is_ejected o now
]

unfoldable pub untried : List Backend → List String → List Candidate
untried candidates tried = filter (λ c. not (contains (id_of c) tried)) (enumerate 0 candidates)

unfoldable pub open_candidates : Inner → List Backend → List String → List Candidate
open_candidates s candidates tried = filter (has_room s) (untried candidates tried)

unfoldable pub undrained : List Candidate → List Candidate
undrained set = fail_open set (λ c. ltb 0 c.1.weight)

unfoldable pub eligible : Inner → ℕ → List Candidate → List Candidate
eligible s now set = fail_open (undrained set) (λ c. not (ejected_now s now c))

unfoldable pub weight_of : Candidate → ℕ
weight_of c = max c.1.weight 1

unfoldable pub total_weight : List Candidate → ℕ
total_weight [] = 0
total_weight (c ∷ cs) = weight_of c + total_weight cs

-- The running weight under `current.entry(id).or_insert(0)`.
unfoldable pub running : Map String ℤ → String → ℤ
running current id = get_or (lookup id current) (pos 0)

unfoldable pub better : Option (Candidate × ℤ) → Candidate → ℤ → Option (Candidate × ℤ)
better none c cur = some (c, cur)
better (some (best, b)) c cur = some (if ltb_ℤ b cur then (c, cur) else (best, b))

-- The loop over `eligible`: each node gains its weight, and the first highest is kept.
unfoldable pub gain :
    List Candidate → Map String ℤ → Option (Candidate × ℤ) → Map String ℤ × Option (Candidate × ℤ)
gain [] current best = (current, best)
gain (c ∷ cs) current best =
    let cur = running current (id_of c) +ℤ pos (weight_of c) in
    gain cs (insert (id_of c) cur current) (better best c cur)

-- The winner pays the total back and its slot is counted; a count is a `u32`.
unfoldable pub settle : Inner → Map String ℤ → Candidate → ℕ → Inner
settle s current c total = record s {
  current = insert (id_of c) (running current (id_of c) -ℤ pos total) current;
  active = insert (id_of c) ((active_of s (id_of c) + 1) % 2 ^ 32) s.active;
}

-- From the eligible set on. `none` is the panic of `expect("eligible is non-empty")`.
unfoldable pub choose : Inner → List Candidate → Option (Pick × Inner)
choose s set =
    let gained = gain set s.current none in
    elim gained.1 [
      | none ↦ none
      | some (c, cur) ↦ some (chosen c.0 (id_of c), settle s gained.0 c (total_weight set))
    ]

-- `Balancer::pick`
unfoldable pub pick : Inner → List Backend → List String → ℕ → Option (Pick × Inner)
pick s candidates tried now =
    if is_empty (untried candidates tried)
    then some (all_tried, s)
    else if is_empty (open_candidates s candidates tried)
    then some (at_capacity, s)
    else choose s (eligible s now (open_candidates s candidates tried))

-- `Drop for Slot`
unfoldable pub drop_slot : Inner → String → Inner
drop_slot s id = elim (lookup id s.active) [
  | none ↦ s
  | some count ↦
      if count - 1 == 0
      then record s { active = remove id s.active }
      else record s { active = insert id (count - 1) s.active }
]

-- `picks` of the tests: connections one after the other, each closed before the next. `none` is a
-- pick that reserves no slot.
unfoldable pub picks : ℕ → Inner → List Backend → List String → ℕ → Option (List String × Inner)
picks zero s candidates tried now = some ([], s)
picks (suc n) s candidates tried now = elim (pick s candidates tried now) [
  | none ↦ none
  | some (all_tried, s') ↦ none
  | some (at_capacity, s') ↦ none
  | some (chosen i id, s') ↦
      Option.map (λ r. (id ∷ r.0, r.1)) (picks n (drop_slot s' id) candidates tried now)
]

-- `Balancer::retain_nodes`
unfoldable pub retain_nodes : Inner → List Backend → Inner
retain_nodes s backends =
    let keep = λ (id : String). any (λ (b : Backend). b.node.id == id) backends in
    record s { current = retain keep s.current; outliers = retain keep s.outliers }

-- `Balancer::record_success`
unfoldable pub record_success : Inner → String → Inner
record_success s id = elim (lookup id s.outliers) [
  | none ↦ s
  | some o ↦ record s { outliers = insert id no_failures s.outliers }
]

-- `1u32 << (ejections - 1).min(16)` and the capped, saturating product
unfoldable pub ejection_time : ℕ → ℕ
ejection_time ejections =
    let factor = 2 ^ min ((ejections + 2 ^ 32 - 1) % 2 ^ 32) 16 in
    min (min (base_ejection * factor) duration_max) max_ejection

-- The failure of one node: its state after it, and the ejection that it caused.
unfoldable pub fail : OutlierState → ℕ → OutlierState × Option ℕ
fail o now =
    let failures = (o.consecutive_failures + 1) % 2 ^ 32 in
    let ejections = (o.ejections + 1) % 2 ^ 32 in
    let duration = ejection_time ejections in
    if is_ejected o now
    then (o, none)
    else if ltb failures eject_after_failures
    then (record o { consecutive_failures = failures }, none)
    else (
      record {
        consecutive_failures = 0;
        ejections = ejections;
        ejected_until = some (now + duration);
      },
      some duration,
    )

-- `Balancer::record_failure`
unfoldable pub record_failure : Inner → String → ℕ → Inner × Option ℕ
record_failure s id now =
    let failed = fail (get_or (lookup id s.outliers) no_failures) now in
    (record s { outliers = insert id failed.0 s.outliers }, failed.1)
