-- ===== src/Subscribe/Balancer/Outliers.antt =====
-- Passive ejection: when a node is put out of rotation, for how long, and what ends it.
use native.Mathlib.Nat.{pow-le-pow_right}
use stouter.Prelude.{
  ℕ, ◌+◌, ◌-◌, ◌*◌, ◌%◌, ◌^◌, ◌≤◌, ◌<◌, String, true, false, Option, none, some, List, [], ◌∷◌, min,
  lookup-insert, ◌==◌, nat_key, string_key, if◌then◌else◌, ◌≡◌, ◌≢◌, refl, ap, ◌∙◌, inl, inr, arith,
  lookup, get_or, ltb, Option-cases, dec_lt,
}
use stouter.Subscribe.Balancer.{
  Inner, OutlierState, no_failures, is_ejected, ejection_time, fail, record_failure, record_success,
  base_ejection, max_ejection, eject_after_failures,
}

-- What the balancer knows of a node's failures.
abbrev pub state_of : Inner → String → OutlierState
state_of s id = get_or (lookup id s.outliers) no_failures

-- Failures counted towards the next ejection, and ejections that fit a `u32`.
pub record IsCounted (o : OutlierState) : Type 0 where
  pub below : o.consecutive_failures < eject_after_failures
  pub fits : o.ejections + 1 < 2 ^ 32

-- The first ejection lasts ten seconds, each further one twice as long, up to two minutes.
ejection_time-doubles :
    (e : ℕ) → e + 1 < 2 ^ 32 → ejection_time (e + 1) ≡ min (base_ejection * 2 ^ e) max_ejection
unfolding ejection_time
ejection_time-doubles e h =
    let shift = min ((e + 1 + 2 ^ 32 - 1) % 2 ^ 32) 16 in
    elim (dec_lt 16 e) [
      | yes k ↦
          let far : 2 ^ 16 ≤ 2 ^ e =
            pow-le-pow_right {n = 2} (omega arith) {i = 16} (omega arith) in
          let at : shift ≡ 16 = omega arith in rw at (omega arith)
      | no k ↦ let at : shift ≡ e = omega arith in rw at (omega arith)
    ]

pub ejection_time_bounds :
    (e : ℕ)
    → e + 1 < 2 ^ 32
    → (base_ejection ≤ ejection_time (e + 1)) × (ejection_time (e + 1) ≤ max_ejection)
ejection_time_bounds e h =
    let one : 2 ^ 0 ≤ 2 ^ e = pow-le-pow_right {n = 2} (omega arith) {i = 0} (omega arith) in
    rw (ejection_time-doubles, h) (omega arith)

fail_cases :
    (o : OutlierState) (now : ℕ)
    → IsCounted o
    → (fail o now).1 ≡ (
        if is_ejected o now
        then none
        else if o.consecutive_failures == 2
        then some (ejection_time (o.ejections + 1))
        else none)
unfolding fail
fail_cases o now c =
    let w : (o.ejections + 1) % 2 ^ 32 ≡ o.ejections + 1 = omega arith in
    ground (arith, ap ejection_time w)

-- A failure ejects a node exactly when it is the third in a row, counted since the last success or
-- ejection, and the node is not ejected already, for the backed-off time. Its counts are in range.
pub record_failure-ejects :
    (s : Inner) (id : String) (now : ℕ)
    → IsCounted (state_of s id)
    → (record_failure s id now).1 ≡ (
        if is_ejected (state_of s id) now
        then none
        else if (state_of s id).consecutive_failures == 2
        then some (min (base_ejection * 2 ^ (state_of s id).ejections) max_ejection)
        else none)
unfolding record_failure
record_failure-ejects s id now c =
    rw (fail_cases _ now c, ejection_time-doubles (state_of s id).ejections c.fits)

pub state_of-record_failure :
    (s : Inner) (id j : String) (now : ℕ)
    → state_of (record_failure s id now).0 j
      ≡ (if id == j then (fail (state_of s id) now).0 else state_of s j)
unfolding record_failure
state_of-record_failure s id j now =
    ground (arith, lookup-insert id j (fail (state_of s id) now).0 s.outliers)

-- One failure, by what it makes of its node.
pub record_failure_step :
    (s : Inner) (id : String) (now : ℕ) (o : OutlierState) (r : Option ℕ)
    → fail (state_of s id) now ≡ (o, r)
    → ((record_failure s id now).1 ≡ r)
      × ((j : String)
          → state_of (record_failure s id now).0 j ≡ (if id == j then o else state_of s j))
unfolding record_failure
record_failure_step s id now o r e = (
  ap (λ (x : OutlierState × Option ℕ). x.1) e,
  λ j.
      ground
        (arith, state_of-record_failure s id j now, ap (λ (x : OutlierState × Option ℕ). x.0) e),
)

-- Three failures in a row.
pub strike : Inner → String → ℕ → ℕ → ℕ → Inner × List (Option ℕ)
strike s id t₁ t₂ t₃ =
    let one = record_failure s id t₁ in
    let two = record_failure one.0 id t₂ in
    let three = record_failure two.0 id t₃ in (three.0, one.1 ∷ two.1 ∷ three.1 ∷ [])

pub fail_counted :
    (o : OutlierState) (now : ℕ)
    → is_ejected o now ≡ false
    → o.consecutive_failures + 1 < eject_after_failures
    → fail o now ≡ (record o { consecutive_failures = o.consecutive_failures + 1 }, none)
unfolding fail
fail_counted o now free few =
    let w : (o.consecutive_failures + 1) % 2 ^ 32 ≡ o.consecutive_failures + 1 = omega arith in
    rw (free, w) (ground arith)

-- The state that an ejection at `now` leaves.
abbrev pub ejected : ℕ → ℕ → OutlierState
ejected ejections now = record {
  consecutive_failures = 0;
  ejections = ejections;
  ejected_until = some (now + ejection_time ejections);
}

fail_last :
    (o : OutlierState) (now : ℕ)
    → is_ejected o now ≡ false
    → o.consecutive_failures ≡ 2
    → o.ejections + 1 < 2 ^ 32
    → fail o now ≡ (ejected (o.ejections + 1) now, some (ejection_time (o.ejections + 1)))
unfolding fail
fail_last o now free two fits =
    let w : (o.ejections + 1) % 2 ^ 32 ≡ o.ejections + 1 = omega arith in
    rw (free, w) (ground arith)

is_ejected_later :
    (o : OutlierState) (t u : ℕ) → is_ejected o t ≡ false → t ≤ u → is_ejected o u ≡ false
unfolding is_ejected
is_ejected_later o t u h le = ground arith

-- The same node with another failure count.
abbrev counting : OutlierState → ℕ → OutlierState
counting o n = record o { consecutive_failures = n }

is_ejected-counting : (o : OutlierState) (n t : ℕ) → is_ejected (counting o n) t ≡ is_ejected o t
unfolding is_ejected
is_ejected-counting o n t = refl

fail_thrice :
    (o : OutlierState) (t₁ t₂ t₃ : ℕ)
    → o.consecutive_failures ≡ 0
    → o.ejections + 1 < 2 ^ 32
    → is_ejected o t₁ ≡ false
    → t₁ ≤ t₂
    → t₂ ≤ t₃
    → (fail o t₁ ≡ (counting o 1, none))
      × (fail (counting o 1) t₂ ≡ (counting o 2, none))
      × (fail (counting o 2) t₃
          ≡ (ejected (o.ejections + 1) t₃, some (ejection_time (o.ejections + 1))))
fail_thrice o t₁ t₂ t₃ z fits free le₁ le₂ =
    let free₂ = is_ejected_later o t₁ t₂ free le₁ in
    let free₃ = is_ejected_later o t₂ t₃ free₂ le₂ in
    (
      rw (fail_counted o t₁ free (omega arith), z),
      fail_counted (counting o 1) t₂ (rw is_ejected-counting free₂) (omega arith),
      fail_last (counting o 2) t₃ (rw is_ejected-counting free₃) refl fits,
    )

is_ejected-ejected : (e now u : ℕ) → is_ejected (ejected e now) u ≡ ltb u (now + ejection_time e)
unfolding is_ejected
is_ejected-ejected e now u = refl

pub if_same : (id : String) (x y : OutlierState) → (if id == id then x else y) ≡ x
if_same id x y = ground arith

-- Three failures of a node in rotation, none counted before: the third ejects it, for ten seconds
-- doubled once for each ejection since the last success and at most two minutes. It is out of
-- rotation exactly until then, other nodes are as before, and counting starts anew. The times do not
-- go back and the ejections stay below 2 ^ 32.
pub strike-ejects :
    (s : Inner) (id : String) (t₁ t₂ t₃ : ℕ)
    → (state_of s id).consecutive_failures ≡ 0
    → (state_of s id).ejections + 1 < 2 ^ 32
    → is_ejected (state_of s id) t₁ ≡ false
    → t₁ ≤ t₂
    → t₂ ≤ t₃
    → (d : ℕ) × (d ≡ min (base_ejection * 2 ^ (state_of s id).ejections) max_ejection)
      × ((strike s id t₁ t₂ t₃).1 ≡ none ∷ none ∷ some d ∷ [])
      × ((u : ℕ) → is_ejected (state_of (strike s id t₁ t₂ t₃).0 id) u ≡ ltb u (t₃ + d))
      × ((state_of (strike s id t₁ t₂ t₃).0 id).consecutive_failures ≡ 0)
      × ((state_of (strike s id t₁ t₂ t₃).0 id).ejections ≡ (state_of s id).ejections + 1)
      × ((j : String) → id ≢ j → state_of (strike s id t₁ t₂ t₃).0 j ≡ state_of s j)
unfolding strike
strike-ejects s id t₁ t₂ t₃ z fits free le₁ le₂ =
    let o = state_of s id in
    let d = ejection_time (o.ejections + 1) in
    let (f₁, f₂, f₃) = fail_thrice o t₁ t₂ t₃ z fits free le₁ le₂ in
    let (r₁, at₁) = record_failure_step s id t₁ (counting o 1) none f₁ in
    let s₁ = (record_failure s id t₁).0 in
    let o₁ : state_of s₁ id ≡ counting o 1 = at₁ id ∙ if_same id _ _ in
    let (r₂, at₂) = record_failure_step s₁ id t₂ (counting o 2) none (rw o₁ f₂) in
    let s₂ = (record_failure s₁ id t₂).0 in
    let o₂ : state_of s₂ id ≡ counting o 2 = at₂ id ∙ if_same id _ _ in
    let (r₃, at₃) =
      record_failure_step s₂ id t₃ (ejected (o.ejections + 1) t₃) (some d) (rw o₂ f₃) in
    let last = at₃ id ∙ if_same id _ _ in
    (
      d,
      ejection_time-doubles o.ejections fits,
      rw (r₁, r₂, r₃),
      λ u. rw last (is_ejected-ejected (o.ejections + 1) t₃ u),
      rw last,
      rw last,
      λ j h. ground (arith, at₁ j, at₂ j, at₃ j),
    )

-- While a node is ejected its failures change nothing.
pub record_failure-ejected :
    (s : Inner) (id : String) (now : ℕ)
    → is_ejected (state_of s id) now ≡ true
    → ((record_failure s id now).1 ≡ none)
      × ((j : String) → state_of (record_failure s id now).0 j ≡ state_of s j)
unfolding fail
record_failure-ejected s id now e =
    let (r, at) = record_failure_step s id now (state_of s id) none (rw e) in
    (r, λ j. ground (arith, at j))

-- A success forgets every failure and ejection of its node, and nothing of another.
pub state_of-record_success :
    (s : Inner) (id j : String)
    → state_of (record_success s id) j ≡ (if id == j then no_failures else state_of s j)
unfolding record_success
state_of-record_success s id j = elim (Option-cases (lookup id s.outliers)) [
  | inl e ↦ ground arith
  | inr (o, e) ↦ ground (arith, lookup-insert id j no_failures s.outliers)
]
