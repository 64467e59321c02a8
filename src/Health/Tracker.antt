-- ===== src/Health/Tracker.antt =====
-- Which services `HealthTracker` of src/health.rs reports.
use stouter.Prelude.{
  text_dec, ap, ℕ, ◌-◌, ◌^◌, suc, String, Bool, false, ◌||◌, get_or, List, [], ◌∷◌, Map, keys,
  lookup, insert, contains, Distinct, min, leb, ◌==◌, string_key, nat_key, if◌then◌else◌, ◌≡◌, refl,
  arith, length, lookup-insert, Bool-cases, inl, inr,
}
use stouter.Health.{
  HealthTracker, new_tracker, is_failing, saturating_succ, failures_of, record_probe, sort,
  sort_insert, failing_names, unhealthy,
}

-- Sorting keeps what the list contains and its length.
contains-sort_insert :
    (a s : String) (ss : List String) → contains a (sort_insert s ss) ≡ ((a == s) || contains a ss)
unfolding sort_insert
contains-sort_insert a s [] = refl
contains-sort_insert a s (t ∷ ts) = ground (arith, contains-sort_insert a s ts)

contains-sort : (a : String) (ss : List String) → contains a (sort ss) ≡ contains a ss
unfolding sort
contains-sort a [] = refl
contains-sort a (s ∷ ss) = ground (arith, contains-sort a ss, contains-sort_insert a s (sort ss))

length-sort_insert : (s : String) (ss : List String) → length (sort_insert s ss) ≡ suc (length ss)
unfolding sort_insert
length-sort_insert s [] = refl
length-sort_insert s (t ∷ ts) = ground (arith, length-sort_insert s ts)

pub length-sort : (ss : List String) → length (sort ss) ≡ length ss
unfolding sort
length-sort [] = refl
length-sort (s ∷ ss) = omega (arith, length-sort ss, length-sort_insert s (sort ss))

-- The probes of a run, the latest first, and the tracker after them.
unfoldable pub run : List (String × Bool) → HealthTracker
run [] = new_tracker
run ((service, ok) ∷ probes) = (record_probe (run probes) service ok).0

-- How many of a service's latest probes failed in a row.
unfoldable pub streak : String → List (String × Bool) → ℕ
streak s [] = 0
streak s ((service, ok) ∷ probes) =
    let earlier = streak s probes in
    if service == s then (if ok then 0 else suc earlier) else earlier

contains-keys-insert :
    (a k : String) (v : ℕ) (m : Map String ℕ)
    → contains a (keys (insert k v m)) ≡ ((a == k) || contains a (keys m))
unfolding insert
contains-keys-insert a k v [] = refl
contains-keys-insert a k v ((j, w) ∷ m) = ground (arith, contains-keys-insert a k v m)

Distinct-insert :
    (k : String) (v : ℕ) (m : Map String ℕ) → Distinct (keys m) → Distinct (keys (insert k v m))
unfolding insert
Distinct-insert k v [] d = (refl, tt)
Distinct-insert k v ((j, w) ∷ m) d = elim (Bool-cases (j == k)) [
  | inl e ↦ rw e d
  | inr e ↦ rw e (ground (arith, contains-keys-insert j k v m), Distinct-insert k v m d.1)
]

absent-failing :
    (s : String) (m : Map String ℕ)
    → contains s (keys m) ≡ false
    → contains s (failing_names m) ≡ false
absent-failing s [] h = refl
absent-failing s ((j, w) ∷ m) h = ground (arith, absent-failing s m)

contains-failing :
    (s : String) (m : Map String ℕ)
    → Distinct (keys m)
    → contains s (failing_names m) ≡ is_failing (get_or (lookup s m) 0)
unfolding lookup
contains-failing s [] d = refl
contains-failing s ((j, w) ∷ m) d = ground (arith, contains-failing s m d.1, absent-failing s m)

pub Distinct-run :
    (probes : List (String × Bool)) → Distinct (keys (run probes).consecutive_failures)
unfolding run record_probe
Distinct-run [] = tt
Distinct-run ((s, ok) ∷ probes) = Distinct-insert s _ _ (Distinct-run probes)

failures-record_probe :
    (t : HealthTracker) (k s : String) (ok : Bool)
    → failures_of (record_probe t k ok).0 s
      ≡ (if k == s then (if ok then 0 else saturating_succ (failures_of t s)) else failures_of t s)
unfolding record_probe
failures-record_probe t k s ok = elim (text_dec k s) [
  | yes p ↦ ground (
    arith,
    p,
    lookup-insert {V = ℕ} k s (if ok then 0 else saturating_succ (failures_of t k))
        t.consecutive_failures,
    ap (λ x. saturating_succ (failures_of t x)) p,
  )
  | no n ↦ ground (
    arith,
    lookup-insert {V = ℕ} k s (if ok then 0 else saturating_succ (failures_of t k))
        t.consecutive_failures,
  )
]

failures-run :
    (s : String) (probes : List (String × Bool))
    → failures_of (run probes) s ≡ min (streak s probes) (2 ^ 32 - 1)
unfolding run streak lookup saturating_succ
failures-run s [] = omega arith
failures-run s ((service, ok) ∷ probes) =
    ground (arith, failures-run s probes, failures-record_probe (run probes) service s ok)

-- After any run of probes from a new tracker on, a service is in the report exactly when its last two probes, or more,
-- failed.
pub unhealthy-run :
    (s : String) (probes : List (String × Bool))
    → contains s (unhealthy (run probes)) ≡ leb 2 (streak s probes)
unfolding unhealthy
unhealthy-run s probes = ground (
  arith,
  contains-sort s (failing_names (run probes).consecutive_failures),
  contains-failing s (run probes).consecutive_failures (Distinct-run probes),
  failures-run s probes,
)
