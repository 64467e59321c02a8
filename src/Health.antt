-- ===== src/Health.antt =====
-- src/health.rs: the health checks of the services that a node hosts. A probe's outcome and the
-- wall clock are arguments. A round of the loop takes the outcomes in the order they come in.
pub mod Tracker
pub mod Reports
use stouter.Prelude.{
  ℕ, ◌+◌, ◌-◌, ◌%◌, ◌^◌, ◌*◌, String, Bool, true, false, not, ◌&&◌, ◌||◌, Option, none, some,
  get_or, List, [], ◌∷◌, Map, map, filter, keys, lookup, insert, retain, contains, max, min, leb,
  ltb, ◌==◌, string_key, nat_key, if◌then◌else◌,
}
use stouter.Config.{ServiceHealth}
use stouter.Config.Text.{codes, strip_prefix}

abbrev pub unhealthy_after : ℕ
unhealthy_after = 2

pub record HealthTracker : Type 0 where
  pub consecutive_failures : Map String ℕ

-- `HealthTracker::default()`
abbrev pub new_tracker : HealthTracker
new_tracker = record { consecutive_failures = [] }

-- `*failures >= UNHEALTHY_AFTER`
abbrev pub is_failing : ℕ → Bool
is_failing failures = leb unhealthy_after failures

-- `saturating_add(1)` on a `u32`.
unfoldable pub saturating_succ : ℕ → ℕ
saturating_succ n = min (n + 1) (2 ^ 32 - 1)

abbrev pub differ : Bool → Bool → Bool
differ true b = not b
differ false b = b

abbrev pub failures_of : HealthTracker → String → ℕ
failures_of t service = get_or (lookup service t.consecutive_failures) 0

unfoldable pub record_probe : HealthTracker → String → Bool → HealthTracker × Bool
unfolding saturating_succ
record_probe t service ok =
    let failures = failures_of t service in
    let updated = if ok then 0 else saturating_succ failures in
    (
      record { consecutive_failures = insert service updated t.consecutive_failures },
      differ (is_failing failures) (is_failing updated),
    )

-- `names.sort()`: texts compare by their code points.
unfoldable pub text_le : List ℕ → List ℕ → Bool
text_le [] b = true
text_le (x ∷ a) [] = false
text_le (x ∷ a) (y ∷ b) = let rest = text_le a b in if x == y then rest else ltb x y

unfoldable pub sort_insert : String → List String → List String
sort_insert s [] = s ∷ []
sort_insert s (t ∷ ts) =
    let rest = sort_insert s ts in if text_le (codes s) (codes t) then s ∷ t ∷ ts else t ∷ rest

unfoldable pub sort : List String → List String
sort [] = []
sort (s ∷ ss) = sort_insert s (sort ss)

abbrev pub failing_names : Map String ℕ → List String
failing_names m = map (λ e. e.0) (filter (λ e. is_failing e.1) m)

unfoldable pub unhealthy : HealthTracker → List String
unhealthy t = sort (failing_names t.consecutive_failures)

-- `==` on `Vec<String>`
unfoldable pub same_names : List String → List String → Bool
same_names [] [] = true
same_names [] (b ∷ ts) = false
same_names (a ∷ ss) [] = false
same_names (a ∷ ss) (b ∷ ts) = a == b && same_names ss ts

unfoldable pub retain_hosted : HealthTracker → List String → HealthTracker × Bool
unfolding unhealthy same_names
retain_hosted t hosted =
    let kept : HealthTracker = record {
      consecutive_failures = retain (λ s. contains s hosted) t.consecutive_failures;
    } in
    (kept, not (same_names (unhealthy t) (unhealthy kept)))

-- `now_ms.max(prev + 1)` on `u64`, the clock's reading given.
unfoldable pub next_version : ℕ → ℕ → ℕ
next_version now_ms prev = max now_ms ((prev + 1) % 2 ^ 64)

-- The task's own variables and the report it publishes.
pub record Checks : Type 0 where
  pub tracker : HealthTracker
  pub first_round : Bool
  pub local_health : ServiceHealth

-- The outcomes of one round's probes, with whether one flipped a service.
unfoldable pub record_all : HealthTracker → List (String × Bool) → HealthTracker × Bool
unfolding record_probe
record_all t [] = (t, false)
record_all t ((name, ok) ∷ probes) =
    let (t', flipped) = record_probe t name ok in
    let (t'', changed) = record_all t' probes in (t'', flipped || changed)

-- One round; the flag says whether a new report was published.
unfoldable pub check_round : ℕ → List String → List (String × Bool) → Checks → Checks × Bool
unfolding record_all retain_hosted next_version
check_round now_ms hosted probes c =
    let (kept, dropped) = retain_hosted c.tracker hosted in
    let (tracker, flipped) = record_all kept probes in
    if (dropped || c.first_round) || flipped
    then (
      record {
        tracker = tracker;
        first_round = dropped && c.first_round;
        local_health = record {
          version = next_version now_ms c.local_health.version;
          unhealthy = unhealthy tracker;
        };
      },
      true,
    )
    else (record c { tracker = tracker; first_round = false }, false)

-- The status code of "HTTP/1.x NNN"; `parse` reads a `u16`, so a leading `+` passes.
unfoldable pub is_digit : ℕ → Bool
is_digit c = leb b'0' c && leb c b'9'

unfoldable pub parse_digits : ℕ → List ℕ → Option ℕ
unfolding is_digit
parse_digits n [] = some n
parse_digits n (c ∷ cs) =
    let rest = parse_digits (n * 10 + (c - b'0')) cs in if is_digit c then rest else none

-- `str::parse::<u16>` of at most three characters, which cannot overflow.
unfoldable pub parse_u16 : List ℕ → Option ℕ
unfolding parse_digits
parse_u16 [] = none
parse_u16 (c ∷ []) = parse_digits 0 (c ∷ [])
parse_u16 (c ∷ d ∷ cs) = if c == b'+' then parse_digits 0 (d ∷ cs) else parse_digits 0 (c ∷ d ∷ cs)

-- `parse_status_code` of the twelve bytes that `read_status_code` fills.
unfoldable pub parse_status_code : List ℕ → Option ℕ
unfolding strip_prefix parse_u16
parse_status_code line = elim (strip_prefix line (codes "HTTP/1.")) [
  | none ↦ none
  | some [] ↦ none
  | some (v ∷ []) ↦ none
  | some (v ∷ c ∷ code) ↦ if c == b' ' then parse_u16 code else none
]

-- `probe`, by whether the connection came about and the bytes read, if twelve came in time.
unfoldable pub probe : Bool → (String → Bool) → Option String → Option (List ℕ) → Bool
unfolding parse_status_code
probe false valid path response = false
probe true valid none response = true
probe true valid (some path) none = false
probe true valid (some path) (some line) = valid path && elim (parse_status_code line) [
  | none ↦ false
  | some status ↦ leb 200 status && ltb status 300
]
