-- ===== src/Gossip/Snapshot.antt =====
-- What a node of src/gossip/mod.rs tells the others of itself and of the nodes that it knows.
use stouter.Prelude.{
  String, Bool, true, false, none, some, List, [], ◌∷◌, values, find, ◌==◌, string_key,
  if◌then◌else◌, ◌≡◌, refl, arith, ap, ◌∙◌, Option-cases, inl, inr, find-update_first_self,
  find-update_first_ne, find-append,
}
use mathlib.Core.Option
use stouter.Config.{NodeInfo}
use stouter.State.{SharedState}
use stouter.Gossip.Merge.{is_set, snapshot_nodes}

abbrev pub has_id : String → NodeInfo → Bool
has_id id n = n.id == id

-- The address under which the node can be reached.
abbrev pub own_addr : SharedState → String
own_addr s = if s.config.outbound_only then "" else s.config.peer_addr

-- The node's own entry says its address and the report of its own checks; the other entries are
-- those of the known nodes.
pub record Told (s : SharedState) (nodes : List NodeInfo) : Type 0 where
  pub own :
      (e : NodeInfo) × (find (has_id s.config.node_id) nodes ≡ some e)
      × (e.addr ≡ own_addr s)
      × (e.health ≡ s.local_health)
  pub others :
      (id : String)
      → (s.config.node_id == id) ≡ false
      → find (has_id id) nodes ≡ find (has_id id) (values s.known_nodes)

-- A node with an identity tells its own address and health, and of every other node what it knows.
pub snapshot_nodes-Told :
    (s : SharedState) → is_set s.config.node_id ≡ true → Told s (snapshot_nodes s)
unfolding snapshot_nodes
snapshot_nodes-Told s named =
    let me = has_id s.config.node_id in
    let nodes = values s.known_nodes in
    let update : NodeInfo → NodeInfo =
      λ n. record n { addr = own_addr s; health = s.local_health } in
    let fresh : NodeInfo = record {
      id = s.config.node_id;
      addr = own_addr s;
      relay = none;
      last_seen = none;
      health = s.local_health;
    } in
    elim (Option-cases (find me nodes)) [
      | inl e ↦
          rw (snapshot_nodes, named, e)
            (record {
              own = (fresh, ground (arith, e, find-append me nodes (fresh ∷ [])), refl, refl);
              others =
                  λ id other. ground (arith, other, find-append (has_id id) nodes (fresh ∷ []));
            })
      | inr (n, e) ↦
          rw (snapshot_nodes, named, e)
            (record {
              own = (
                update n,
                find-update_first_self me update nodes (λ x h. h) ∙ ap (Option.map update) e,
                refl,
                refl,
              );
              others = λ id other.
                  find-update_first_ne me (has_id id) update nodes (λ x h. ground (arith, h, other))
                    (λ x h. ground (arith, h, other));
            })
    ]
