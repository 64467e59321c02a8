-- ===== src/Subscribe/Balancer/Choice.antt =====
-- What one choice among the eligible candidates does.
use stouter.Prelude.{
  ℕ, Map, String, false, none, some, List, [], ◌∷◌, is_empty, In, Distinct, ◌==◌, string_key,
  if◌then◌else◌, ◌≡◌, arith,
}
use stouter.Prelude.Int.{ℤ, pos, ◌+ℤ◌, ◌-ℤ◌, ◌≤ℤ◌}
use stouter.Subscribe.Balancer.{
  Candidate, Inner, chosen, id_of, running, gain, settle, choose, total_weight, drop_slot,
}
use stouter.Subscribe.Balancer.Gain.{ids, gain_of, running-insert, running-gain, gain-Kept}

-- `choose` takes a candidate of the set and settles it; no candidate's running weight was higher.
pub record Choice (s : Inner) (set : List Candidate) (c : Candidate) : Type 0 where
  pub member : In c set
  pub result :
      choose s set
      ≡ some (chosen c.0 (id_of c), settle s (gain set s.current none).0 c (total_weight set))
  pub highest :
      (d : Candidate)
      → In d set
      → running (gain set s.current none).0 (id_of d)
        ≤ℤ running (gain set s.current none).0 (id_of c)

pub choose-Choice :
    (s : Inner) (set : List Candidate)
    → is_empty set ≡ false
    → Distinct (ids set)
    → (c : Candidate) × Choice s set c
unfolding choose
choose-Choice s [] h d = absurd (cc)
choose-Choice s (c ∷ cs) h d =
    let (r, k) = gain-Kept c cs s.current d in
    (r.0, record { member = k.member; result = rw (k.result, choose); highest = k.highest })

-- A settled choice pays the total back and leaves every other running weight.
pub running-settle :
    (s : Inner) (set : List Candidate) (c : Candidate) (id : String)
    → running (settle s (gain set s.current none).0 c (total_weight set)).current id ≡ (
        if id_of c == id
        then running s.current id +ℤ pos (gain_of set id) -ℤ pos (total_weight set)
        else running s.current id +ℤ pos (gain_of set id))
unfolding settle
running-settle s set c id =
    let m = (gain set s.current none).0 in
    ground (
      arith,
      running-insert (id_of c) id (running m (id_of c) -ℤ pos (total_weight set)) m,
      running-gain set s.current none id,
      running-gain set s.current none (id_of c),
    )

pub current-drop_slot : (s : Inner) (id : String) → (drop_slot s id).current ≡ s.current
unfolding drop_slot
current-drop_slot s id = ground arith

pub outliers-drop_slot : (s : Inner) (id : String) → (drop_slot s id).outliers ≡ s.outliers
unfolding drop_slot
outliers-drop_slot s id = ground arith

pub outliers-settle :
    (s : Inner) (m : Map String ℤ) (c : Candidate) (total : ℕ)
    → (drop_slot (settle s m c total) (id_of c)).outliers ≡ s.outliers
unfolding settle
outliers-settle s m c total = outliers-drop_slot (settle s m c total) (id_of c)
