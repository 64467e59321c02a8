-- ===== src/Health/Reports.antt =====
-- When a node of src/health.rs publishes a new report, and what the report then says.
use stouter.Prelude.{
  if_all, ℕ, ◌+◌, ◌^◌, ◌<◌, String, Bool, true, false, not, get_or, List, [], ◌∷◌, Map, filter,
  lookup, insert, retain, contains, string_key, nat_key, ◌≡◌, refl, arith, length, Bool-cases, inl,
  inr, any, sym, ◌⊎◌, ap, filter-none,
}
use stouter.Health.{
  HealthTracker, is_failing, differ, record_probe, sort, failing_names, unhealthy, same_names,
  retain_hosted, next_version, Checks, record_all, check_round,
}
use stouter.Health.Tracker.{length-sort}

same_names_refl : (ss : List String) → same_names ss ss ≡ true
unfolding same_names
same_names_refl [] = refl
same_names_refl (s ∷ ss) = ground (arith, same_names_refl ss)

same_names-eq : (ss ts : List String) → same_names ss ts ≡ true → ss ≡ ts
unfolding same_names
same_names-eq [] [] h = refl
same_names-eq [] (t ∷ ts) h = absurd (cc)
same_names-eq (s ∷ ss) [] h = absurd (cc)
same_names-eq (s ∷ ss) (t ∷ ts) h = ground (arith, same_names-eq ss ts)

-- The names in a failing state that are not hosted any more.
unfoldable pub dropped_names : List String → Map String ℕ → List String
dropped_names hosted m = filter (λ s. not (contains s hosted)) (failing_names m)

length-retain :
    (hosted : List String) (m : Map String ℕ)
    → length (failing_names (retain (λ s. contains s hosted) m)) + length (dropped_names hosted m)
      ≡ length (failing_names m)
unfolding retain dropped_names
length-retain hosted [] = refl
length-retain hosted ((j, w) ∷ m) = ground (arith, length-retain hosted m)

retain-none_dropped :
    (hosted : List String) (m : Map String ℕ)
    → dropped_names hosted m ≡ []
    → failing_names (retain (λ s. contains s hosted) m) ≡ failing_names m
unfolding retain dropped_names
retain-none_dropped hosted [] h = refl
retain-none_dropped hosted ((j, w) ∷ m) h = ground (arith, retain-none_dropped hosted m)

-- A probe that flips nothing leaves the report.
failing-insert :
    (k : String) (v : ℕ) (m : Map String ℕ)
    → is_failing v ≡ is_failing (get_or (lookup k m) 0)
    → failing_names (insert k v m) ≡ failing_names m
unfolding insert lookup
failing-insert k v [] h = ground arith
failing-insert k v ((j, w) ∷ m) h = ground (arith, failing-insert k v m)

differ-false : (a b : Bool) → differ a b ≡ false → b ≡ a
differ-false true true h = refl
differ-false true false h = absurd (cc)
differ-false false b h = h

unhealthy-record_probe :
    (t : HealthTracker) (s : String) (ok : Bool)
    → (record_probe t s ok).1 ≡ false
    → failing_names (record_probe t s ok).0.consecutive_failures
      ≡ failing_names t.consecutive_failures
unfolding record_probe
unhealthy-record_probe t s ok h = failing-insert s _ t.consecutive_failures (differ-false _ _ h)

unhealthy-record_all :
    (probes : List (String × Bool)) (t : HealthTracker)
    → (record_all t probes).1 ≡ false
    → failing_names (record_all t probes).0.consecutive_failures
      ≡ failing_names t.consecutive_failures
unfolding record_all
unhealthy-record_all [] t h = refl
unhealthy-record_all ((s, ok) ∷ probes) t h =
    ground
      (arith, unhealthy-record_all probes (record_probe t s ok).0, unhealthy-record_probe t s ok)

unhealthy-retain :
    (t : HealthTracker) (hosted : List String)
    → (retain_hosted t hosted).1 ≡ false
    → unhealthy t ≡ unhealthy (retain_hosted t hosted).0
unfolding retain_hosted
unhealthy-retain t hosted h = same_names-eq _ _ (ground arith)

length-filter-pos :
    (p : String → Bool) (ss : List String) → any p ss ≡ true → 0 < length (filter p ss)
length-filter-pos p [] h = absurd (cc)
length-filter-pos p (s ∷ ss) h = ground (arith, length-filter-pos p ss)

length-unhealthy :
    (t : HealthTracker) → length (unhealthy t) ≡ length (failing_names t.consecutive_failures)
unfolding unhealthy
length-unhealthy t = length-sort (failing_names t.consecutive_failures)

unhealthy-eq :
    (t u : HealthTracker)
    → failing_names t.consecutive_failures ≡ failing_names u.consecutive_failures
    → unhealthy t ≡ unhealthy u
unfolding unhealthy
unhealthy-eq t u e = ap sort e

-- Forgetting services changes the report exactly when one of them was in it.
pub retain_hosted-flag :
    (t : HealthTracker) (hosted : List String)
    → (retain_hosted t hosted).1
      ≡ any (λ s. not (contains s hosted)) (failing_names t.consecutive_failures)
unfolding retain_hosted dropped_names
retain_hosted-flag t hosted =
    let gone : String → Bool = λ s. not (contains s hosted) in
    let m = t.consecutive_failures in
    let kept : HealthTracker = record {
      consecutive_failures = retain (λ s. contains s hosted) m;
    } in
    elim (Bool-cases (any gone (failing_names m))) [
      | inl e ↦ elim (Bool-cases (same_names (unhealthy t) (unhealthy kept))) [
        | inl same ↦ absurd (
            omega (
              arith,
              ap length (same_names-eq _ _ same),
              length-unhealthy t,
              length-unhealthy kept,
              length-retain hosted m,
              length-filter-pos gone (failing_names m) e,
            ))
        | inr other ↦ rw (e, other)
      ]
      | inr e ↦ rw (
        e,
        ← unhealthy-eq t kept
            (sym (retain-none_dropped hosted m (filter-none gone (failing_names m) e))),
        same_names_refl (unhealthy t),
      )
    ]

-- The report in force is the tracker's, once a round has ended without a dropped service.
unfoldable pub IsCurrent : Checks → Type 0
IsCurrent c = c.first_round ≡ false → c.local_health.unhealthy ≡ unhealthy c.tracker

-- If the report in force lists what the tracker holds unhealthy, or the first round is still to come,
-- a round leaves it so: it publishes wherever it changes the list.
pub check_round-IsCurrent :
    (now_ms : ℕ) (hosted : List String) (probes : List (String × Bool)) (c : Checks)
    → IsCurrent c
    → IsCurrent (check_round now_ms hosted probes c).0
unfolding IsCurrent check_round
check_round-IsCurrent now_ms hosted probes c h first =
    let (kept, dropped) = retain_hosted c.tracker hosted in
    ground (
      arith,
      h,
      unhealthy-retain c.tracker hosted,
      unhealthy-record_all probes (retain_hosted c.tracker hosted).0,
      unhealthy-eq (record_all (retain_hosted c.tracker hosted).0 probes).0
          (retain_hosted c.tracker hosted).0,
    )

next_version-lt : (now_ms prev : ℕ) → prev + 1 < 2 ^ 64 → prev < next_version now_ms prev
unfolding next_version
next_version-lt now_ms prev h = omega arith

-- A round that publishes raises the report's version, and one that does not leaves the report,
-- below the last `u64`.
pub check_round-version :
    (now_ms : ℕ) (hosted : List String) (probes : List (String × Bool)) (c : Checks)
    → c.local_health.version + 1 < 2 ^ 64
    → (((check_round now_ms hosted probes c).1 ≡ true)
        × c.local_health.version < (check_round now_ms hosted probes c).0.local_health.version)
      ⊎ (((check_round now_ms hosted probes c).1 ≡ false)
          × ((check_round now_ms hosted probes c).0.local_health ≡ c.local_health))
unfolding check_round
check_round-version now_ms hosted probes c bound =
    let v = c.local_health.version in
    if_all
      (λ (r : Checks × Bool).
        ((r.1 ≡ true) × v < r.0.local_health.version)
        ⊎ ((r.1 ≡ false) × (r.0.local_health ≡ c.local_health)))
      _ (inl (refl, next_version-lt now_ms v bound)) (inr (refl, refl))
