-- ===== src/Config/Renaming.antt =====
-- `rename_service` of src/config.rs: its errors and its effect.
use mathlib.Core.Option
use stouter.Prelude.{
  ◌+◌, ◌%◌, ◌^◌, String, false, ◌&&◌, none, some, List, [], ◌∷◌, find, update_first, ◌==◌,
  string_key, nat_key, ok, err, find-none, find-any, if_true, ◌||◌, ◌≡◌, refl, arith, inl, inr,
  Option-cases, Bool, any, ◌++◌, ◌∙◌, update_first-splits, text_dec,
}
use stouter.Config.{
  Service, ServiceGroup, DynamicConfig, group_not_found, service_not_found, duplicate_service,
}
use stouter.Config.Mutate.{
  is_group, is_instance, renamed, rename_in, rename_service, with_groups, bump_version,
}
use stouter.Config.Groups.{instance_of, services_of, services_of-update, services_of-found}

-- `d` is `c` one version on, with the instance `s` of `node`, the first under its old name, in its
-- place under its new name.
pub record Renamed (c d : DynamicConfig) (group node from to : String) (s : Service) : Type 0 where
  pub version : d.version ≡ (c.version + 1) % 2 ^ 64
  pub routes : d.routes ≡ c.routes
  pub before : List Service
  pub after : List Service
  pub was : services_of c group ≡ before ++ s ∷ after
  pub first : any (is_instance node from) before ≡ false
  pub becomes : services_of d group ≡ before ++ record s { name = to } ∷ after
  pub old_name : instance_of d group node from ≡ find (is_instance node from) after
  pub other_groups :
      (other : String) → (group == other) ≡ false → services_of d other ≡ services_of c other
  pub new_name : instance_of d group node to ≡ some (renamed to s)
  pub others :
      (other node' name' : String)
      → (group == other && (node == node' && (from == name' || to == name'))) ≡ false
      → instance_of d other node' name' ≡ instance_of c other node' name'

pub data RenameOutcome (c : DynamicConfig) (group node from to : String) : Type 0 where
  no_group :
      find (is_group group) c.service_groups ≡ none
      → rename_service c group node from to ≡ err (group_not_found group)
      → RenameOutcome c group node from to
  taken :
      (s : Service)
      → instance_of c group node to ≡ some s
      → rename_service c group node from to ≡ err (duplicate_service group node to)
      → RenameOutcome c group node from to
  no_instance :
      (g : ServiceGroup)
      → find (is_group group) c.service_groups ≡ some g
      → instance_of c group node to ≡ none
      → instance_of c group node from ≡ none
      → rename_service c group node from to ≡ err (service_not_found group node from)
      → RenameOutcome c group node from to
  done :
      (s : Service) (d : DynamicConfig)
      → instance_of c group node to ≡ none
      → instance_of c group node from ≡ some s
      → rename_service c group node from to ≡ ok d
      → Renamed c d group node from to s
      → RenameOutcome c group node from to

find-rename_self :
    (node from to : String) (ss : List Service)
    → find (is_instance node to) ss ≡ none
    → find (is_instance node to) (update_first (is_instance node from) (renamed to) ss)
      ≡ Option.map (renamed to) (find (is_instance node from) ss)
unfolding update_first renamed
find-rename_self node from to [] h = refl
find-rename_self node from to (s ∷ ss) h = ground (arith, find-rename_self node from to ss)

find-rename_other :
    (node from to node' name' : String) (ss : List Service)
    → (node == node' && (from == name' || to == name')) ≡ false
    → find (is_instance node' name') (update_first (is_instance node from) (renamed to) ss)
      ≡ find (is_instance node' name') ss
unfolding update_first renamed
find-rename_other node from to node' name' [] h = refl
find-rename_other node from to node' name' (s ∷ ss) h =
    ground (arith, find-rename_other node from to node' name' ss)

-- The old name is another one, since the new one was free.
renamed_away :
    (node from to : String) (ss : List Service) (s : Service)
    → find (is_instance node to) ss ≡ none
    → find (is_instance node from) ss ≡ some s
    → is_instance node from (renamed to s) ≡ false
unfolding renamed
renamed_away node from to ss s free f = elim (text_dec from to) [
  | yes e ↦ absurd (let f' : find (is_instance node to) ss ≡ some s = rw e at f in cc)
  | no n ↦ ground arith
]

find-later :
    (p : Service → Bool) (before after : List Service) (s : Service)
    → any p before ≡ false
    → p s ≡ false
    → find p (before ++ s ∷ after) ≡ find p after
find-later p [] after s h e = rw e
find-later p (x ∷ before) after s h e = ground (arith, find-later p before after s)

rename_service-Renamed :
    (c : DynamicConfig) (group node from to : String) (g : ServiceGroup) (s : Service)
    → find (is_group group) c.service_groups ≡ some g
    → find (is_instance node to) g.services ≡ none
    → find (is_instance node from) g.services ≡ some s
    → Renamed c
        (with_groups c (update_first (is_group group) (rename_in node from to) c.service_groups))
        group
        node
        from
        to
        s
unfolding rename_in bump_version renamed
rename_service-Renamed c group node from to g s e free f =
    let at = λ (other : String).
      services_of-update c group other (rename_in node from to) g (λ x. refl) e in
    let (before, after, whole, fresh, changed) =
      update_first-splits (is_instance node from) (renamed to) g.services f in
    let d =
      with_groups c (update_first (is_group group) (rename_in node from to) c.service_groups) in
    let becomes : services_of d group ≡ before ++ renamed to s ∷ after =
      rw (at group) (ground (arith, changed)) in
    record {
      before = before;
      after = after;
      was = services_of-found c group g e ∙ whole;
      first = fresh;
      becomes = becomes;
      old_name = rw becomes (
          find-later (is_instance node from) before after (renamed to s) fresh
            (renamed_away node from to g.services s free f));
      other_groups = λ other h. rw (at other) (ground arith);
      version = refl;
      routes = refl;
      new_name = rw (at group) (ground (arith, find-rename_self node from to g.services));
      others = λ other node' name' h. rw (at other) (
          ground (
            arith,
            services_of-found c group g e,
            find-rename_other node from to node' name' g.services,
          ));
    }

-- A rename reports a missing group, a name that is taken or a missing instance, in this order, or
-- gives the first instance under the old name, in its place in the list, the new name. Under the old
-- name only a later entry of the same name and node is left, and every instance of a third name, node
-- or group stays as it was.
pub rename_service-Outcome :
    (c : DynamicConfig) (group node from to : String) → RenameOutcome c group node from to
unfolding rename_service
rename_service-Outcome c group node from to =
    elim (Option-cases (find (is_group group) c.service_groups)) [
      | inl e ↦ RenameOutcome.no_group e (rw (e, rename_service))
      | inr (g, e) ↦
          let at = services_of-found c group g e in
          elim (Option-cases (find (is_instance node to) g.services)) [
            | inr (t, f) ↦
                taken t (rw at f) (
                  rw (e, rename_service)
                    (if_true _ _ (find-any (is_instance node to) g.services f)))
            | inl f ↦
                let free = find-none (is_instance node to) g.services f in
                elim (Option-cases (find (is_instance node from) g.services)) [
                  | inl k ↦
                      RenameOutcome.no_instance g e (rw at f) (rw at k)
                        (rw (e, rename_service, free, k))
                  | inr (s, k) ↦
                      RenameOutcome.done s _ (rw at f) (rw at k) (rw (e, rename_service, free, k))
                        (rename_service-Renamed c group node from to g s e f k)
                ]
          ]
    ]
