-- ===== src/Subscribe/Balancer/Shares.antt =====
-- Smooth weighted round-robin in numbers: after `k` choices of which `p` went to a node of weight
-- `w`, its running weight is `k * w - total * p`, and it is never a whole turn ahead.
use stouter.Prelude.{
  ℕ, ◌+◌, ◌*◌, ◌≤◌, ◌<◌, String, false, none, List, [], ◌∷◌, In, here, there, In-cons, Distinct,
  ◌==◌, string_key, if◌then◌else◌, ◌≡◌, refl, sym, ap, ◌∙◌, inl, inr, arith, dec_lt, contains,
  Bool-cases,
}
use stouter.Prelude.Int.{pos, pos_part, neg_part, ◌+ℤ◌, int_laws}
use stouter.Subscribe.Balancer.{
  Candidate, Inner, id_of, running, gain, settle, total_weight, weight_of,
}
use stouter.Subscribe.Balancer.Gain.{ids, ids-In, gain_of, gain_of-In, running-gain, weight_of-pos}
use stouter.Subscribe.Balancer.Choice.{Choice, running-settle}

-- The choices of a set's nodes, by a count for each id.
pub counted : List Candidate → (String → ℕ) → ℕ
counted [] p = 0
counted (c ∷ cs) p = p (id_of c) + counted cs p

-- One more choice of `id`.
abbrev pub bump : (String → ℕ) → String → String → ℕ
bump p id j = p j + (if id == j then 1 else 0)

counted-bump_absent :
    (set : List Candidate) (p : String → ℕ) (id : String)
    → contains id (ids set) ≡ false
    → counted set (bump p id) ≡ counted set p
unfolding counted
counted-bump_absent [] p id h = refl
counted-bump_absent (c ∷ cs) p id h = ground (arith, counted-bump_absent cs p id)

counted-bump :
    {c : Candidate} {set : List Candidate} (p : String → ℕ)
    → In c set
    → Distinct (ids set)
    → counted set (bump p (id_of c)) ≡ counted set p + 1
unfolding counted
counted-bump {c} p (here {xs = cs}) d = ground (arith, counted-bump_absent cs p (id_of c))
counted-bump {c} p (there {y = y} {xs = cs} i) d = ground (arith, ids-In i, counted-bump p i)

-- If no node is above its share, neither is their sum.
averaging :
    (set : List Candidate) (k t : ℕ) (p : String → ℕ)
    → ((d : Candidate) → In d set → k * weight_of d ≤ t * p (id_of d))
    → k * total_weight set ≤ t * counted set p
unfolding counted total_weight
averaging [] k t p h = omega arith
averaging (c ∷ cs) k t p h = omega (arith, h c here, averaging cs k t p (λ d i. h d (there i)))

pub record Share (t k : ℕ) (p : String → ℕ) (s : Inner) (c : Candidate) : Type 0 where
  pub exact :
      pos_part (running s.current (id_of c)) + t * p (id_of c)
      ≡ neg_part (running s.current (id_of c)) + k * weight_of c
  pub bound : t * p (id_of c) < k * weight_of c + t

pub record Fair (set : List Candidate) (k : ℕ) (p : String → ℕ) (s : Inner) : Type 0 where
  pub sum : counted set p ≡ k
  pub shares : (c : Candidate) → In c set → Share (total_weight set) k p s c

pub total_weight-pos : {c : Candidate} {set : List Candidate} → In c set → 0 < total_weight set
unfolding total_weight
total_weight-pos {c} here = omega (arith, weight_of-pos c)
total_weight-pos (there i) = omega (arith, total_weight-pos i)

module _ (set : List Candidate) (d : Distinct (ids set)) (k : ℕ) (p : String → ℕ) (s : Inner)
    (f : Fair set k p s) (c : Candidate) (ch : Choice s set c) where
  abbrev pub after : Inner
  after = settle s (gain set s.current none).0 c (total_weight set)

  gained :
      {e : Candidate}
      → In e set
      → running (gain set s.current none).0 (id_of e)
        ≡ running s.current (id_of e) +ℤ pos (weight_of e)
  gained {e} i = rw (running-gain set s.current none (id_of e), gain_of-In i d)

  -- The chosen node was due: its running weight, its gain included, was positive.
  due : total_weight set * p (id_of c) < (k + 1) * weight_of c
  due = elim (dec_lt (total_weight set * p (id_of c)) ((k + 1) * weight_of c)) [
    | yes h ↦ h
    | no h ↦
        let all_over : (e : Candidate)
            → In e set
            → (k + 1) * weight_of e ≤ total_weight set * p (id_of e) =
          λ e i. omega (
            int_laws,
            ch.highest e i,
            ap pos_part (gained i),
            ap neg_part (gained i),
            ap pos_part (gained ch.member),
            ap neg_part (gained ch.member),
            (f.shares c ch.member).exact,
            (f.shares e i).exact,
          ) in
        absurd (
          omega (
            arith,
            averaging set (k + 1) (total_weight set) p all_over,
            ap (λ (x : ℕ). total_weight set * x) f.sum,
            total_weight-pos ch.member,
          ))
  ]

  Share-after :
      (e : Candidate) → In e set → Share (total_weight set) (k + 1) (bump p (id_of c)) after e
  Share-after e i =
      let run = running-settle s set c (id_of e) in
      let old = f.shares e i in
      let w = gain_of-In i d in
      elim (Bool-cases (id_of c == id_of e)) [
        | inl same ↦
            let t = total_weight set in
            let q : id_of c ≡ id_of e = ground arith in
            let cw = gain_of-In ch.member d in
            let both : weight_of c ≡ weight_of e = sym cw ∙ ap (gain_of set) q ∙ w in
            let here_due : t * p (id_of e) < (k + 1) * weight_of e =
              omega
                (arith, due, ap (λ (x : String). t * p x) q, ap (λ (x : ℕ). (k + 1) * x) both) in
            record {
              exact = rw (run, same, w) (omega (int_laws, old.exact));
              bound = rw same (omega (arith, here_due));
            }
        | inr other ↦ record {
          exact = rw (run, other, w) (omega (int_laws, old.exact));
          bound = rw other (omega (arith, old.bound));
        }
      ]

  -- A choice keeps the shares.
  pub Fair-after : Fair set (k + 1) (bump p (id_of c)) after
  Fair-after = record {
    sum = omega (arith, counted-bump p ch.member d, f.sum);
    shares = Share-after;
  }

pub counted-zero : (set : List Candidate) → counted set (λ _. 0) ≡ 0
unfolding counted
counted-zero [] = refl
counted-zero (c ∷ cs) = omega (arith, counted-zero cs)

counted-le :
    (set : List Candidate) (m : ℕ) (p : String → ℕ)
    → ((c : Candidate) → In c set → p (id_of c) ≤ m * weight_of c)
    → counted set p ≤ m * total_weight set
unfolding counted total_weight
counted-le [] m p h = omega arith
counted-le (c ∷ cs) m p h = omega (arith, h c here, counted-le cs m p (λ d i. h d (there i)))

-- If the sum is full, so is every count.
pub counted-full :
    (set : List Candidate) (m : ℕ) (p : String → ℕ)
    → ((c : Candidate) → In c set → p (id_of c) ≤ m * weight_of c)
    → m * total_weight set ≤ counted set p
    → (c : Candidate) → In c set
    → p (id_of c) ≡ m * weight_of c
unfolding counted total_weight
counted-full [] m p h full = λ c i. elim i [ ]
counted-full (c ∷ cs) m p h full =
    let below = counted-le cs m p (λ d i. h d (there i)) in
    In-cons (λ d. p (id_of d) ≡ m * weight_of d) (omega (arith, h c here))
      (counted-full cs m p (λ d i. h d (there i)) (omega (arith, h c here)))
