-- ===== src/Gossip/Health.antt =====
-- What merging the nodes of a `Sync` of src/gossip/mod.rs does to the health reports that a node
-- holds.
use stouter.Prelude.{
  ℕ, ◌<◌, String, Option, some, List, [], ◌∷◌, Map, lookup, string_key, nat_key, text_dec, ◌≡◌,
  refl, arith, Bool-cases, inl, inr, ◌⊎◌, leb, Option-cases, lookup-insert, sym, ap, ◌∙◌, true, In,
  here, there,
}
use stouter.Config.{NodeInfo, ServiceHealth, unset_health}
use stouter.Gossip.Merge.{
  merge_health, update_entry, own_health_removed, merge_node, merge_nodes, is_valid_node_id,
}

-- A node that is received under a valid name, with the name `k`.
abbrev pub IsTold : String → NodeInfo → Type 0
IsTold k n = (is_valid_node_id n.id ≡ true) × (n.id ≡ k)

-- Only a later report of the node `k` counts, of those received, and none about the node itself.
pub record Reported (own_id k : String) (nodes : List NodeInfo) (before after : ServiceHealth)
    : Type 0 where
  pub newer :
      (after ≡ before)
      ⊎ ((before.version < after.version)
          × (n : NodeInfo) × In n nodes
          × IsTold k n
          × (n.health ≡ after))
  pub own : k ≡ own_id → after ≡ before

In-first : {n m : NodeInfo} (nodes : List NodeInfo) → In m (n ∷ []) → In m (n ∷ nodes)
In-first nodes here = here
In-first nodes (there i) = elim i [ ]

Reported-trans :
    (own_id k : String) (n : NodeInfo) (nodes : List NodeInfo) (a b c : ServiceHealth)
    → Reported own_id k (n ∷ []) a b
    → Reported own_id k nodes b c
    → Reported own_id k (n ∷ nodes) a c
Reported-trans own_id k n nodes a b c r s = record {
  newer = elim s.newer [
    | inl q ↦ elim r.newer [
      | inl p ↦ inl (q ∙ p)
      | inr (h, m, i, told, e) ↦ inr (
        omega (arith, ap (λ (x : ServiceHealth). x.version) q),
        m,
        In-first nodes i,
        told,
        e ∙ sym q,
      )
    ]
    | inr (h, m, i, told, e) ↦ inr (
      elim r.newer [
        | inl p ↦ omega (arith, ap (λ (x : ServiceHealth). x.version) p)
        | inr later ↦ let j = later.0 in omega arith
      ],
      m,
      there i,
      told,
      e,
    )
  ];
  own = λ e. s.own e ∙ r.own e;
}

merge_health-newer :
    (e n : NodeInfo)
    → ((merge_health e n).health ≡ e.health)
      ⊎ ((e.health.version < (merge_health e n).health.version)
          × ((merge_health e n).health ≡ n.health))
unfolding merge_health
merge_health-newer e n = elim (Bool-cases (leb n.health.version e.health.version)) [
  | inl p ↦ inl (ground arith)
  | inr p ↦ inr (ground arith)
]

merge_health-unset :
    (e n : NodeInfo) → n.health ≡ unset_health → (merge_health e n).health ≡ e.health
unfolding merge_health
merge_health-unset e n h =
    let z : n.health.version ≡ 0 = ap (λ (x : ServiceHealth). x.version) h in ground arith

pub removed-id : (own_id : String) (n : NodeInfo) → (own_health_removed own_id n).id ≡ n.id
unfolding own_health_removed
removed-id own_id n = ground arith

pub removed-own :
    (own_id : String) (n : NodeInfo)
    → n.id ≡ own_id
    → (own_health_removed own_id n).health ≡ unset_health
unfolding own_health_removed
removed-own own_id n h = ground arith

update_entry-health : (e n : NodeInfo) → (update_entry e n).0.health ≡ e.health
unfolding update_entry
update_entry-health e n = refl

pub removed-other :
    (own_id : String) (n : NodeInfo)
    → ¬ (n.id ≡ own_id)
    → (own_health_removed own_id n).health ≡ n.health
unfolding own_health_removed
removed-other own_id n h = ground arith

-- The entry that a received node leaves for an entry that was there.
entry-Reported :
    (own_id k : String) (e received : NodeInfo)
    → IsTold k received
    → Reported own_id k
        (received ∷ [])
        e.health
        (update_entry
          (merge_health e (own_health_removed own_id received))
          (own_health_removed own_id received)).0.health
unfolding update_entry
entry-Reported own_id k e received told =
    let node = own_health_removed own_id received in
    let unset : k ≡ own_id → (merge_health e node).health ≡ e.health =
      λ p. merge_health-unset e node (removed-own own_id received (told.1 ∙ p)) in
    record {
      newer = elim (text_dec k own_id) [
        | yes p ↦ inl (unset p)
        | no q ↦ elim (merge_health-newer e node) [
          | inl same ↦ inl same
          | inr (later, taken) ↦ inr (
            later,
            received,
            here,
            told,
            sym (taken ∙ removed-other own_id received (λ z. q (sym told.1 ∙ z))),
          )
        ]
      ];
      own = unset;
    }

-- An entry and what becomes of it.
abbrev pub Kept : String → String → List NodeInfo → NodeInfo → Option NodeInfo → Type 0
Kept own_id k nodes before found =
    (after : NodeInfo) × (found ≡ some after) × Reported own_id k nodes before.health after.health

pub Kept-refl :
    (own_id k : String) (nodes : List NodeInfo) (e : NodeInfo) → Kept own_id k nodes e (some e)
Kept-refl own_id k nodes e = (e, refl, record { newer = inl refl; own = λ p. refl })

-- One turn of the merge, on an entry that is there.
merge_node-Kept :
    (own_id : String) (now : ℕ) (kn : Map String NodeInfo) (received : NodeInfo) (k : String)
    (e : NodeInfo)
    → lookup k kn ≡ some e
    → Kept own_id k (received ∷ []) e (lookup k (merge_node own_id now kn received).0)
unfolding merge_node
merge_node-Kept own_id now kn received k e found =
    let node = own_health_removed own_id received in
    let entry : NodeInfo = (update_entry (merge_health e node) node).0 in
    let fresh : NodeInfo = record node { last_seen = some now } in
    let unchanged = Kept-refl own_id k (received ∷ []) e in
    elim (Bool-cases (is_valid_node_id received.id)) [
      | inr v ↦ rw (v, found) unchanged
      | inl v ↦ elim (text_dec node.id k) [
        | yes p ↦
            let present : lookup node.id kn ≡ some e = ap (λ x. lookup x kn) p ∙ found in
            rw (v, present, lookup-insert node.id k entry kn)
              (
                entry,
                ground (arith, p),
                entry-Reported own_id k e received (v, sym (removed-id own_id received) ∙ p),
              )
        | no n ↦ elim (Option-cases (lookup node.id kn)) [
          | inl absent ↦
              rw (v, absent, lookup-insert node.id k fresh kn)
                (e, ground (arith, found), record { newer = inl refl; own = λ q. refl })
          | inr (other, present) ↦
              rw
                (
                  v,
                  present,
                  lookup-insert node.id k (update_entry (merge_health other node) node).0 kn,
                )
                (e, ground (arith, found), record { newer = inl refl; own = λ q. refl })
        ]
      ]
    ]

pub merge_nodes-known :
    (own_id : String) (now : ℕ) (nodes : List NodeInfo) (kn : Map String NodeInfo) (k : String)
    (e : NodeInfo)
    → lookup k kn ≡ some e
    → Kept own_id k nodes e (lookup k (merge_nodes own_id now kn nodes).0)
unfolding merge_nodes
merge_nodes-known own_id now [] kn k e found = rw found (Kept-refl own_id k [] e)
merge_nodes-known own_id now (node ∷ nodes) kn k e found =
    let (e1, found1, r1) = merge_node-Kept own_id now kn node k e found in
    let (e2, found2, r2) =
      merge_nodes-known own_id now nodes (merge_node own_id now kn node).0 k e1 found1 in
    (e2, found2, Reported-trans own_id k node nodes e.health e1.health e2.health r1 r2)
