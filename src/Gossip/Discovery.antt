-- ===== src/Gossip/Discovery.antt =====
-- What merging the nodes of a `Sync` of src/gossip/mod.rs makes known, of any node.
use stouter.Prelude.{
  ℕ, String, Option, some, none, List, [], ◌∷◌, Map, lookup, string_key, text_dec, ◌≡◌, arith,
  Bool-cases, inl, inr, ◌⊎◌, Option-cases, lookup-insert, sym, ap, ◌∙◌, In, here, there, All, ◌==◌,
  if◌then◌else◌, nat_key, refl,
}
use stouter.Config.{NodeInfo, unset_health}
use stouter.Gossip.Merge.{
  merge_health, update_entry, own_health_removed, merge_node, merge_nodes, is_valid_node_id,
}
use stouter.Gossip.Health.{
  IsTold, Kept, Kept-refl, removed-id, removed-own, removed-other, merge_nodes-known,
}

-- What is known of the node `k` after the merge, by what was known of it before.
pub data Merged (own_id k : String) (nodes : List NodeInfo)
    : Option NodeInfo → Option NodeInfo → Type 0 where
  kept :
      {e : NodeInfo} {found : Option NodeInfo}
      → Kept own_id k nodes e found
      → Merged own_id k nodes (some e) found
  unknown : All (λ n. ¬ IsTold k n) nodes → Merged own_id k nodes none none
  learned :
      {after : NodeInfo} (n : NodeInfo)
      → In n nodes
      → IsTold k n
      → after.health ≡ (if k == own_id then unset_health else n.health)
      → Merged own_id k nodes none (some after)

merge_node-unknown :
    (own_id : String) (now : ℕ) (kn : Map String NodeInfo) (received : NodeInfo) (k : String)
    → lookup k kn ≡ none
    → ((¬ IsTold k received) × (lookup k (merge_node own_id now kn received).0 ≡ none))
      ⊎ (IsTold k received
          × (after : NodeInfo) × (lookup k (merge_node own_id now kn received).0 ≡ some after)
          × (after.health ≡ (if k == own_id then unset_health else received.health)))
unfolding merge_node
merge_node-unknown own_id now kn received k absent =
    let node = own_health_removed own_id received in
    let fresh : NodeInfo = record node { last_seen = some now } in
    let same_id = removed-id own_id received in
    elim (Bool-cases (is_valid_node_id received.id)) [
      | inr v ↦ inl (λ told. absurd (cc), rw (v, absent) refl)
      | inl v ↦ elim (text_dec node.id k) [
        | yes p ↦
            let none_held : lookup node.id kn ≡ none = ap (λ x. lookup x kn) p ∙ absent in
            inr (
              (v, sym same_id ∙ p),
              fresh,
              rw (v, none_held, lookup-insert node.id k fresh kn) (ground (arith, p)),
              elim (text_dec k own_id) [
                | yes q ↦ removed-own own_id received (sym same_id ∙ p ∙ q) ∙ ground (arith, q)
                | no q ↦
                    removed-other own_id received (λ z. q (sym p ∙ same_id ∙ z)) ∙ ground (arith, q)
              ],
            )
        | no n ↦ inl (
          λ told. n (same_id ∙ told.1),
          elim (Option-cases (lookup node.id kn)) [
            | inl gone ↦ rw (v, gone, lookup-insert node.id k fresh kn) (ground (arith, absent))
            | inr (other, present) ↦
                rw
                  (
                    v,
                    present,
                    lookup-insert node.id k (update_entry (merge_health other node) node).0 kn,
                  )
                  (ground (arith, absent))
          ],
        )
      ]
    ]

later-Merged :
    (own_id k : String) (node : NodeInfo) (nodes : List NodeInfo) {found : Option NodeInfo}
    → ¬ IsTold k node
    → Merged own_id k nodes none found
    → Merged own_id k (node ∷ nodes) none found
later-Merged own_id k node nodes h (unknown all) = unknown (h, all)
later-Merged own_id k node nodes h (learned n i told e) = learned n (there i) told e

-- The first entry for a node, and what the later nodes of the list make of it.
learned-Merged :
    (own_id k : String) (node : NodeInfo) (nodes : List NodeInfo) (e : NodeInfo)
    {found : Option NodeInfo}
    → IsTold k node
    → e.health ≡ (if k == own_id then unset_health else node.health)
    → Kept own_id k nodes e found
    → Merged own_id k (node ∷ nodes) none found
learned-Merged own_id k node nodes e told h (after, is_found, r) = rw is_found (elim r.newer [
  | inl p ↦ learned node here told (p ∙ h)
  | inr (later, n, i, told', p) ↦ elim (text_dec k own_id) [
    | yes q ↦ learned node here told (r.own q ∙ h)
    | no q ↦ learned n (there i) told' (sym p ∙ ground (arith, q))
  ]
])

-- After a merge of received nodes, of any node `k`: a node that was known is still known, with its
-- report or with a later one that was received for it under a valid name, and the node's own entry
-- keeps its report; a node that was unknown is known if and only if it was received under a valid
-- name, with a report that was received for it, or with no report where it is the node itself.
pub merge_nodes-Merged :
    (own_id : String) (now : ℕ) (nodes : List NodeInfo) (kn : Map String NodeInfo) (k : String)
    → Merged own_id k nodes (lookup k kn) (lookup k (merge_nodes own_id now kn nodes).0)
unfolding merge_nodes
merge_nodes-Merged own_id now [] kn k = elim (Option-cases (lookup k kn)) [
  | inl e ↦ rw e (unknown tt)
  | inr (held, e) ↦ rw e (kept (Kept-refl own_id k [] held))
]
merge_nodes-Merged own_id now (node ∷ nodes) kn k =
    let first = (merge_node own_id now kn node).0 in
    elim (Option-cases (lookup k kn)) [
      | inr (held, e) ↦ rw e (kept (merge_nodes-known own_id now (node ∷ nodes) kn k held e))
      | inl e ↦ elim (merge_node-unknown own_id now kn node k e) [
        | inl (h, absent) ↦
            let rest : Merged own_id k nodes none
                (lookup k (merge_nodes own_id now first nodes).0) =
              rw absent at (merge_nodes-Merged own_id now nodes first k) in
            rw e (later-Merged own_id k node nodes h rest)
        | inr (told, entry, present, h) ↦ rw e (
            learned-Merged own_id k node nodes entry told h
              (merge_nodes-known own_id now nodes first k entry present))
      ]
    ]
