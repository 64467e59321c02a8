-- ===== src/Subscribe/Balancer/Gain.antt =====
-- The weighted loop of `pick`: what every node gains, and which node it keeps.
use stouter.Prelude.{
  none, ℕ, ◌+◌, ◌<◌, String, true, false, Option, some, List, [], ◌∷◌, map, Map, insert, contains,
  In, In-cons, here, there, Distinct, ◌==◌, string_key, nat_key, if◌then◌else◌, ◌≡◌, refl, ◌∙◌, ◌⊎◌,
  inl, inr, arith, lookup-insert, Bool-cases,
}
use stouter.Prelude.Int.{ℤ, pos, ◌+ℤ◌, ◌≤ℤ◌, ltb_ℤ, int_laws, +ℤ_assoc, +ℤ_parts}
use stouter.Subscribe.Balancer.{Candidate, id_of, weight_of, running, better, gain}

abbrev pub ids : List Candidate → List String
ids = map id_of

-- What the loop adds to a node's running weight.
pub gain_of : List Candidate → String → ℕ
gain_of [] id = 0
gain_of (c ∷ cs) id = (if id_of c == id then weight_of c else 0) + gain_of cs id

pub weight_of-pos : (c : Candidate) → 0 < weight_of c
unfolding weight_of
weight_of-pos c = omega arith

pub running-insert :
    (id j : String) (v : ℤ) (m : Map String ℤ)
    → running (insert id v m) j ≡ (if id == j then v else running m j)
unfolding running
running-insert id j v m = ground (arith, lookup-insert id j v m)

-- The loop adds `gain_of`, and changes no other running weight.
pub running-gain :
    (cs : List Candidate) (m : Map String ℤ) (best : Option (Candidate × ℤ)) (id : String)
    → running (gain cs m best).0 id ≡ running m id +ℤ pos (gain_of cs id)
unfolding gain gain_of
running-gain [] m best id = omega int_laws
running-gain (c ∷ cs) m best id =
    let m' = insert (id_of c) (running m (id_of c) +ℤ pos (weight_of c)) m in
    let b' = better best c (running m (id_of c) +ℤ pos (weight_of c)) in
    let ih = running-gain cs m' b' id in
    let at = running-insert (id_of c) id (running m (id_of c) +ℤ pos (weight_of c)) m in
    ground (
      arith,
      ih,
      at,
      +ℤ_assoc (running m id) (pos (weight_of c)) (pos (gain_of cs id)),
      +ℤ_parts (pos (weight_of c)) (pos (gain_of cs id)),
    )

gain_of-absent :
    (cs : List Candidate) (id : String) → contains id (ids cs) ≡ false → gain_of cs id ≡ 0
unfolding gain_of
gain_of-absent [] id h = refl
gain_of-absent (c ∷ cs) id h = ground (arith, gain_of-absent cs id)

pub ids-In : {c : Candidate} {cs : List Candidate} → In c cs → contains (id_of c) (ids cs) ≡ true
ids-In here = ground arith
ids-In (there i) = ground (arith, ids-In i)

pub gain_of-In :
    {c : Candidate} {cs : List Candidate}
    → In c cs
    → Distinct (ids cs)
    → gain_of cs (id_of c) ≡ weight_of c
unfolding gain_of
gain_of-In {c} (here {xs = cs}) d = ground (arith, gain_of-absent cs (id_of c))
gain_of-In {c} (there {y = y} {xs = cs} i) d = ground (arith, ids-In i, gain_of-In i)

-- The state of the loop after `cs`, started from the best node `b` so far: the node that it keeps
-- was `b` or is in `cs`, its running weight is the one it is kept with, and no other is higher.
pub record Highest (cs : List Candidate) (b : Candidate × ℤ) (out : Map String ℤ)
    (r : Candidate × ℤ) : Type 0 where
  pub from : (r.0 ≡ b.0) ⊎ In r.0 cs
  pub weight : r.1 ≡ running out (id_of r.0)
  pub above : b.1 ≤ℤ r.1
  pub highest : (c : Candidate) → In c cs → running out (id_of c) ≤ℤ r.1

module _ (c : Candidate) (cs : List Candidate) (m : Map String ℤ) where
  gained : ℤ
  gained = running m (id_of c) +ℤ pos (weight_of c)

  after : Map String ℤ
  unfolding gained
  after = insert (id_of c) gained m

  running-first :
      (best : Option (Candidate × ℤ))
      → contains (id_of c) (ids cs) ≡ false
      → running (gain cs after best).0 (id_of c) ≡ gained
  unfolding after
  running-first best h =
      let e = gain_of-absent cs (id_of c) h in
      let f = running-gain cs after best (id_of c) in
      let g : running after (id_of c) ≡ gained =
        ground (arith, running-insert (id_of c) (id_of c) gained m) in
      rw (f, e, g) (omega int_laws)

pub kept :
    (c : Candidate) (cs : List Candidate) {r b b' : Candidate}
    → (r ≡ b') ⊎ In r cs
    → (b' ≡ b) ⊎ (b' ≡ c)
    → (r ≡ b) ⊎ In r (c ∷ cs)
kept c cs (inr i) at = inr (there i)
kept c cs (inl e) (inl f) = inl (e ∙ f)
kept c cs (inl e) (inr f) = inr (rw (e ∙ f) here)

Highest-from :
    (c : Candidate) (cs : List Candidate) {b b' : Candidate × ℤ} {out : Map String ℤ}
    {r : Candidate × ℤ}
    → Highest cs b' out r
    → (b'.0 ≡ b.0) ⊎ (b'.0 ≡ c)
    → b.1 ≤ℤ b'.1
    → running out (id_of c) ≤ℤ b'.1
    → Highest (c ∷ cs) b out r
Highest-from c cs {out = out} {r = r} h at le first = record {
  from = kept c cs h.from at;
  weight = h.weight;
  above = omega (arith, h.above);
  highest = In-cons (λ d. running out (id_of d) ≤ℤ r.1) (omega (arith, h.above)) h.highest;
}

-- The loop keeps a node of the highest running weight.
pub gain-Highest :
    (cs : List Candidate) (m : Map String ℤ) (b : Candidate × ℤ)
    → b.1 ≡ running m (id_of b.0)
    → contains (id_of b.0) (ids cs) ≡ false
    → Distinct (ids cs)
    → (r : Candidate × ℤ) × ((gain cs m (some b)).1 ≡ some r)
      × Highest cs b (gain cs m (some b)).0 r
unfolding gain better gained after
gain-Highest [] m b w away d = (
  b,
  refl,
  record { from = inl refl; weight = w; above = omega arith; highest = λ c i. elim i [ ] },
)
gain-Highest (c ∷ cs) m b w away d =
    let m' = after c cs m in
    let first = λ (best : Option (Candidate × ℤ)). running-first c cs m best d.0 in
    let now = running-insert (id_of c) (id_of c) (gained c cs m) m in
    let same = running-insert (id_of c) (id_of b.0) (gained c cs m) m in
    elim (Bool-cases (ltb_ℤ b.1 (gained c cs m))) [
      | inl e ↦
          let (r, q, h) = gain-Highest cs m' (c, gained c cs m) (ground arith) d.0 d.1 in
          rw (e, gain)
            (
              r,
              q,
              Highest-from c cs h (inr refl) (ground arith)
                  (rw (first (some (c, gained c cs m))) (omega arith)),
            )
      | inr e ↦
          let (r, q, h) = gain-Highest cs m' b (ground (arith, same)) (ground arith) d.1 in
          rw (e, gain)
            (
              r,
              q,
              Highest-from c cs h (inl refl) (ground arith) (rw (first (some b)) (ground arith)),
            )
    ]

-- The whole loop, from no best node: it keeps a node of the set, and none is higher.
pub record Kept (set : List Candidate) (m : Map String ℤ) (r : Candidate × ℤ) : Type 0 where
  pub result : (gain set m none).1 ≡ some r
  pub member : In r.0 set
  pub highest :
      (d : Candidate)
      → In d set
      → running (gain set m none).0 (id_of d) ≤ℤ running (gain set m none).0 (id_of r.0)

pub first_or :
    (c : Candidate) (cs : List Candidate) {r : Candidate} → (r ≡ c) ⊎ In r cs → In r (c ∷ cs)
first_or c cs (inl e) = rw e here
first_or c cs (inr i) = there i

pub gain-Kept :
    (c : Candidate) (cs : List Candidate) (m : Map String ℤ)
    → Distinct (ids (c ∷ cs))
    → (r : Candidate × ℤ) × Kept (c ∷ cs) m r
unfolding gain better gained after
gain-Kept c cs m d =
    let best : Option (Candidate × ℤ) = some (c, gained c cs m) in
    let now = running-insert (id_of c) (id_of c) (gained c cs m) m in
    let (r, q, h) = gain-Highest cs (after c cs m) (c, gained c cs m) (ground arith) d.0 d.1 in
    (
      r,
      record {
        result = q;
        member = first_or c cs h.from;
        highest = rw (← h.weight) (
            In-cons (λ e. running (gain cs (after c cs m) best).0 (id_of e) ≤ℤ r.1)
              (rw (running-first c cs m best d.0) h.above) h.highest);
      },
    )
