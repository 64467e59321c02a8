-- ===== src/Subscribe/Balancer/Slots.antt =====
-- Connection slots over the life of a balancer: every open slot is counted, and limits hold.
use stouter.Prelude.{
  get_elem?-In, ℕ, ◌+◌, ◌-◌, ◌^◌, ◌≤◌, ◌<◌, String, true, Option, none, some, List, [], ◌∷◌, length,
  lookup-insert, lookup-remove, In, All, All-at, ◌==◌, string_key, nat_key, if◌then◌else◌, ◌≡◌, ◌≢◌,
  refl, inl, inr, arith, lookup, count, erase, count-erase, count-pos, count-le-length,
  Option-cases,
}
use stouter.Subscribe.Balancer.{
  Backend, Candidate, Inner, chosen, id_of, drop_slot, pick, has_room, active_of, retain_nodes,
  record_success, record_failure, new,
}
use stouter.Subscribe.Balancer.Picking.{Allowed, Reserved, tried_all, full, reserved, pick-Outcome}

-- The balancer of a service and the ids of the slots that its connections hold.
pub record Session : Type 0 where
  pub inner : Inner
  pub held : List String

-- Every instance of the service is configured with its node's limit.
abbrev pub HasLimits : (String → Option ℕ) → List Backend → Type 0
HasLimits limit bs = All (λ b. b.max_connections ≡ limit b.node.id) bs

-- The calls that connections make, in any order. A slot is a connection, so 2 ^ 32 of them are
-- never open at once.
pub data Step (limit : String → Option ℕ) : Session → Session → Type 0 where
  picked :
      (s : Session) (bs : List Backend) (tried : List String) (now i : ℕ) (id : String) (t : Inner)
      → HasLimits limit bs
      → length s.held + 1 < 2 ^ 32
      → pick s.inner bs tried now ≡ some (chosen i id, t)
      → Step limit s (record { inner = t; held = id ∷ s.held })
  closed :
      (s : Session) (id : String)
      → In id s.held
      → Step limit s (record { inner = drop_slot s.inner id; held = erase id s.held })
  retained :
      (s : Session) (bs : List Backend)
      → Step limit s (record s { inner = retain_nodes s.inner bs })
  succeeded :
      (s : Session) (id : String) → Step limit s (record s { inner = record_success s.inner id })
  failed :
      (s : Session) (id : String) (now : ℕ)
      → Step limit s (record s { inner = (record_failure s.inner id now).0 })

pub data Reach (limit : String → Option ℕ) (s : Session) : Session → Type 0 where
  start : Reach limit s s
  next : {t u : Session} → Reach limit s t → Step limit t u → Reach limit s u

-- Every slot is counted once, nodes without connections have no entry, and no limit is passed.
pub record Accounts (limit : String → Option ℕ) (s : Session) : Type 0 where
  pub counts : (id : String) → active_of s.inner id ≡ count id s.held
  pub no_zero : (id : String) → lookup id s.inner.active ≢ some 0
  pub capped : (id : String) (m : ℕ) → limit id ≡ some m → count id s.held ≤ m

-- What a pick that reserves a slot has promised.
picked_inv :
    (s : Inner) (bs : List Backend) (tried : List String) (now i : ℕ) (id : String) (t : Inner)
    → pick s bs tried now ≡ some (chosen i id, t)
    → (c : Candidate) × (id_of c ≡ id) × Allowed s bs tried now c × Reserved s c t
picked_inv s bs tried now i id t e = elim (pick-Outcome s bs tried now) [
  | tried_all f _ ↦ absurd (cc)
  | full f _ _ ↦ absurd (cc)
  | reserved c u f a r ↦ (c, cc, a, let q : u ≡ t = cc in rw (← q) r)
]

module _ (limit : String → Option ℕ) where
  room_left :
      (s : Inner) (c : Candidate) (m : ℕ)
      → has_room s c ≡ true
      → c.1.max_connections ≡ some m
      → active_of s (id_of c) < m
  unfolding has_room
  room_left s c m room e = ground arith

  picked-Accounts :
      (s : Session) (bs : List Backend) (tried : List String) (now i : ℕ) (id : String) (t : Inner)
      → HasLimits limit bs
      → length s.held + 1 < 2 ^ 32
      → pick s.inner bs tried now ≡ some (chosen i id, t)
      → Accounts limit s
      → Accounts limit (record { inner = t; held = id ∷ s.held })
  unfolding count active_of
  picked-Accounts s bs tried now i id t limits small e v =
      let (c, q, a, r) = picked_inv s.inner bs tried now i id t e in
      let in_bs = get_elem?-In bs c.0 a.indexed in
      let its_limit = All-at (λ (b : Backend). b.max_connections ≡ limit b.node.id) in_bs limits in
      record {
        counts = λ j. ground (arith, r.active j, v.counts j, q, count-le-length j s.held);
        no_zero =
            λ j z. ground (arith, r.active j, v.counts j, v.no_zero j, q, count-le-length j s.held);
        capped = λ j m h.
            ground (arith, v.counts j, q, room_left s.inner c m a.room, v.capped j m h, its_limit);
      }

  active-drop_slot :
      (s : Inner) (id j : String)
      → lookup id s.active ≢ some 0
      → lookup j (drop_slot s id).active ≡ (
          if id == j
          then (if active_of s id - 1 == 0 then none else some (active_of s id - 1))
          else lookup j s.active)
  unfolding drop_slot active_of
  active-drop_slot s id j h = elim (Option-cases (lookup id s.active)) [
    | inl e ↦ ground (arith, lookup-remove id j s.active)
    | inr (n, e) ↦ ground (arith, lookup-remove id j s.active, lookup-insert id j (n - 1) s.active)
  ]

  closed-Accounts :
      (s : Session) (id : String)
      → In id s.held
      → Accounts limit s
      → Accounts limit (record { inner = drop_slot s.inner id; held = erase id s.held })
  unfolding active_of
  closed-Accounts s id i v =
      let at = λ (j : String). active-drop_slot s.inner id j (v.no_zero id) in
      record {
        counts = λ j.
            ground (arith, at j, v.counts j, v.counts id, count-erase id j s.held i, count-pos i);
        no_zero = λ j z. ground (arith, at j, v.no_zero j, v.counts id, count-pos i);
        capped = λ j m h. ground (arith, v.capped j m h, count-erase id j s.held i);
      }

  active-record_success : (s : Inner) (id : String) → (record_success s id).active ≡ s.active
  unfolding record_success
  active-record_success s id = ground arith

  -- Every call keeps the accounts.
  Step-Accounts : {s t : Session} → Step limit s t → Accounts limit s → Accounts limit t
  unfolding active_of retain_nodes record_failure
  Step-Accounts (picked s bs tried now i id t limits small e) v =
      picked-Accounts s bs tried now i id t limits small e v
  Step-Accounts (closed s id i) v = closed-Accounts s id i v
  Step-Accounts (retained s bs) v = record {
    counts = v.counts;
    no_zero = v.no_zero;
    capped = v.capped;
  }
  Step-Accounts (succeeded s id) v =
      let same = active-record_success s.inner id in
      record {
        counts = λ j. rw same (v.counts j);
        no_zero = λ j. rw same (v.no_zero j);
        capped = v.capped;
      }
  Step-Accounts (failed s id now) v = record {
    counts = v.counts;
    no_zero = v.no_zero;
    capped = v.capped;
  }

  empty-Accounts : Accounts limit (record { inner = new; held = [] })
  unfolding active_of lookup count
  empty-Accounts = record {
    counts = λ id. refl;
    no_zero = λ id z. cc;
    capped = λ id m h. omega arith;
  }

  -- Whatever the calls and their order, from a new balancer on: a node's count is the number of its
  -- open slots, a node without one has no entry, and no node has more than its limit. A node's limit
  -- is the same in every call, and fewer than 2 ^ 32 slots are open at once.
  pub Reach-Accounts :
      {t : Session} → Reach limit (record { inner = new; held = [] }) t → Accounts limit t
  Reach-Accounts start = empty-Accounts
  Reach-Accounts (next r st) = Step-Accounts st (Reach-Accounts r)
