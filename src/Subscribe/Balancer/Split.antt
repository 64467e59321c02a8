-- ===== src/Subscribe/Balancer/Split.antt =====
-- Runs of `pick` over candidates without connection limits: every node gets its weight's share.
use mathlib.Core.Option
use mathlib.Core.Path.{fun_ext}
use native.Mathlib.Nat.{lt_of_mul-lt-mul_left}
use stouter.Prelude.{
  Map, ℕ, zero, suc, ◌+◌, ◌*◌, ◌≤◌, ◌<◌, String, false, none, some, List, [], ◌∷◌, map, is_empty,
  In, here, All, Distinct, string_key, ◌≡◌, refl, sym, ap, ◌∙◌, arith, count,
}
use stouter.Prelude.Int.{ℤ, pos, pos_part, neg_part, eq_of_parts}
use stouter.Subscribe.Balancer.{
  Backend, Candidate, Inner, chosen, id_of, running, gain, settle, choose, total_weight, weight_of,
  drop_slot, pick, picks, eligible, open_candidates, untried,
}
use stouter.Subscribe.Balancer.Gain.{ids}
use stouter.Subscribe.Balancer.Filters.{
  open-unlimited, eligible-outliers, eligible-nonempty, Distinct-eligible,
}
use stouter.Subscribe.Balancer.Choice.{choose-Choice, current-drop_slot, outliers-settle}
use stouter.Subscribe.Balancer.Shares.{
  counted-zero, counted-full, Fair, counted, bump, Fair-after, total_weight-pos,
}

-- What the runs below ask of the candidates: no connection limits, one node each, one not tried.
pub record Balanced (bs : List Backend) (tried : List String) : Type 0 where
  pub unlimited : All (λ b. b.max_connections ≡ none) bs
  pub distinct : Distinct (map (λ b. b.node.id) bs)
  pub some_untried : is_empty (untried bs tried) ≡ false

abbrev pub pool : Inner → List Backend → List String → ℕ → List Candidate
pool s bs tried now = eligible s now (open_candidates s bs tried)

module _ {bs : List Backend} {tried : List String} (b : Balanced bs tried) (now : ℕ) where
  -- A pick is one choice from the pool.
  pick-choose : (s : Inner) → pick s bs tried now ≡ choose s (pool s bs tried now)
  unfolding pick
  pick-choose s = rw (b.some_untried, open-unlimited s bs tried b.unlimited, b.some_untried)

  pool-nonempty : (s : Inner) → is_empty (pool s bs tried now) ≡ false
  pool-nonempty s =
      eligible-nonempty s now _ (rw (open-unlimited s bs tried b.unlimited) b.some_untried)

  -- The pool changes only with the ejections.
  pub pool-outliers :
      (s t : Inner) → s.outliers ≡ t.outliers → pool s bs tried now ≡ pool t bs tried now
  pool-outliers s t e =
      rw (open-unlimited s bs tried b.unlimited, open-unlimited t bs tried b.unlimited)
        (eligible-outliers s t now (untried bs tried) e)

-- Fair counts do not depend on more than the running weights.
Fair-current :
    (set : List Candidate) {k l : ℕ} {p q : String → ℕ} {s t : Inner}
    → k ≡ l
    → ((j : String) → p j ≡ q j)
    → s.current ≡ t.current
    → Fair set k p s
    → Fair set l q t
Fair-current set {k} {l} {p} {q} {s} {t} kl h e f = record {
  sum = ap (counted set) (sym (fun_ext h)) ∙ f.sum ∙ kl;
  shares = λ c i.
      let share = f.shares c i in
      let atp = ap (λ (x : ℕ). total_weight set * x) (h (id_of c)) in
      let atk = ap (λ (x : ℕ). x * weight_of c) kl in
      record {
        exact = omega (
          arith,
          share.exact,
          ap (λ (m : Map String ℤ). pos_part (running m (id_of c))) e,
          ap (λ (m : Map String ℤ). neg_part (running m (id_of c))) e,
          atp,
          atk,
        );
        bound = omega (arith, share.bound, atp, atk);
      };
}

picks-suc :
    (n : ℕ) (s t u : Inner) (bs : List Backend) (tried : List String) (now i : ℕ) (id : String)
    (out : List String)
    → pick s bs tried now ≡ some (chosen i id, t)
    → picks n (drop_slot t id) bs tried now ≡ some (out, u)
    → picks (suc n) s bs tried now ≡ some (id ∷ out, u)
unfolding picks
picks-suc n s t u bs tried now i id out e r =
    rw (e, picks) (ap (Option.map (λ r. (id ∷ r.0, r.1))) r)

-- A run of picks goes through, each from the same pool, and keeps the counts fair.
pub picks-Fair :
    {bs : List Backend} {tried : List String} (b : Balanced bs tried) (now : ℕ)
    (set : List Candidate) (n k : ℕ) (p : String → ℕ) (s : Inner)
    → pool s bs tried now ≡ set
    → Fair set k p s
    → (out : List String) × (t : Inner) × (picks n s bs tried now ≡ some (out, t))
      × Fair set (k + n) (λ j. p j + count j out) t
unfolding picks count
picks-Fair b now set zero k p s e f =
    ([], s, refl, Fair-current set (omega arith) (λ j. omega arith) refl f)
picks-Fair {bs} {tried} b now set (suc n) k p s e f =
    let d : Distinct (ids set) = rw (← e) (Distinct-eligible s now bs tried b.distinct) in
    let (c, ch) = choose-Choice s set (rw (← e) (pool-nonempty b now s)) d in
    let s₁ = settle s (gain set s.current none).0 c (total_weight set) in
    let s₂ = drop_slot s₁ (id_of c) in
    let same : pool s₂ bs tried now ≡ set =
      pool-outliers b now s₂ s (outliers-settle s (gain set s.current none).0 c (total_weight set))
      ∙ e in
    let next =
      Fair-current set refl (λ j. refl) (sym (current-drop_slot s₁ (id_of c)))
        (Fair-after set d k p s f c ch) in
    let (out, t, run, fair) = picks-Fair b now set n (k + 1) (bump p (id_of c)) s₂ same next in
    (
      id_of c ∷ out,
      t,
      picks-suc n s s₁ t bs tried now c.0 (id_of c) out (rw (pick-choose b now s, e) ch.result) run,
      Fair-current set (omega arith) (λ j. omega arith) refl fair,
    )

-- Every running weight of the pool is 0, as in a new balancer and after every full turn.
abbrev pub IsLevel : List Candidate → Inner → Type 0
IsLevel set s = (c : Candidate) → In c set → running s.current (id_of c) ≡ pos 0

IsLevel-Fair :
    (set : List Candidate) (s : Inner)
    → 0 < total_weight set
    → IsLevel set s
    → Fair set 0 (λ _. 0) s
IsLevel-Fair set s pos_total h = record {
  sum = counted-zero set;
  shares = λ c i. record { exact = rw (h c i) (omega arith); bound = omega arith };
}

pool-total :
    {bs : List Backend} {tried : List String} (b : Balanced bs tried) (now : ℕ) (s : Inner)
    → 0 < total_weight (pool s bs tried now)
pool-total {bs} {tried} b now s = go (pool s bs tried now) (pool-nonempty b now s)
  where
    go : (set : List Candidate) → is_empty set ≡ false → 0 < total_weight set
    go [] h = absurd (cc)
    go (c ∷ cs) h = total_weight-pos {c = c} here

-- With no connection limits, one candidate a node and one of them not tried: from a level start, a
-- run of `n` picks, each slot dropped before the next pick, goes through, and no node of the pool
-- has then been picked as much as one pick more than `n` times its weight over the total weight.
pub picks-share :
    {bs : List Backend} {tried : List String} (b : Balanced bs tried) (now n : ℕ) (s : Inner)
    → IsLevel (pool s bs tried now) s
    → (out : List String) × (t : Inner) × (picks n s bs tried now ≡ some (out, t))
      × ((c : Candidate)
          → In c (pool s bs tried now)
          → total_weight (pool s bs tried now) * count (id_of c) out
            < n * weight_of c + total_weight (pool s bs tried now))
picks-share {bs} {tried} b now n s level =
    let set = pool s bs tried now in
    let start = IsLevel-Fair set s (pool-total b now s) level in
    let (out, t, run, fair) = picks-Fair b now set n 0 (λ _. 0) s refl start in
    (out, t, run, λ c i. omega (arith, (fair.shares c i).bound))

at_most : (t m w p : ℕ) → t * p < m * t * w + t → p ≤ m * w
at_most t m w p h = let below : p < m * w + 1 = lt_of_mul-lt-mul_left t (omega arith) in omega arith

-- With no connection limits, one candidate a node and one of them not tried, each slot dropped before
-- the next pick: from a level start, `m` full turns, of as many picks as the total weight each, pick
-- every node of the pool exactly `m` times its weight, and end level.
pub picks-split :
    {bs : List Backend} {tried : List String} (b : Balanced bs tried) (now m : ℕ) (s : Inner)
    → IsLevel (pool s bs tried now) s
    → (out : List String) × (t : Inner) × (picks
          (m * total_weight (pool s bs tried now))
          s
          bs
          tried
          now
        ≡ some (out, t))
      × ((c : Candidate) → In c (pool s bs tried now) → count (id_of c) out ≡ m * weight_of c)
      × IsLevel (pool s bs tried now) t
picks-split {bs} {tried} b now m s level =
    let set = pool s bs tried now in
    let total = total_weight set in
    let start = IsLevel-Fair set s (pool-total b now s) level in
    let (out, t, run, fair) = picks-Fair b now set (m * total) 0 (λ _. 0) s refl start in
    let p = λ (j : String). 0 + count j out in
    let most : (c : Candidate) → In c set → p (id_of c) ≤ m * weight_of c =
      λ c i. at_most total m (weight_of c) (p (id_of c)) (omega (arith, (fair.shares c i).bound)) in
    let equal = counted-full set m p most (omega (arith, fair.sum)) in
    (
      out,
      t,
      run,
      λ c i. omega (arith, equal c i),
      λ c i.
          eq_of_parts _ _
            (omega (arith, (fair.shares c i).exact, ap (λ (x : ℕ). total * x) (equal c i))),
    )
