-- ===== src/Subscribe/Proxy/Attempts.antt =====
-- Which nodes a client's connection is tried on, for `serve_client` of src/subscribe/proxy.rs.
use stouter.Prelude.{
  ℕ, zero, suc, ◌+◌, ◌<◌, ◌≤◌, min, String, Bool, true, false, ◌||◌, some, List, [], ◌∷◌, ◌++◌,
  is_empty, length, contains, Distinct, get_elem?, string_key, ◌≡◌, refl, arith, Bool-cases, inl,
  inr, length-append, All, not,
}
use stouter.Subscribe.Balancer.{
  Backend, Inner, id_of, retain_nodes, drop_slot, record_success, record_failure, untried, has_room,
  enumerate,
}
use stouter.Subscribe.Balancer.Picking.{Outcome, tried_all, full, reserved, pick-Outcome}
use stouter.State.{SharedState}
use stouter.Subscribe.Proxy.{
  Served, no_nodes, circuit_open, unreachable, forwarded, World, attempt, serve_client,
  service_backends, prefer_healthy,
}

-- Every attempt in the list failed, the list's places being the attempts' numbers.
abbrev pub AllFailed : World → ℕ → List String → Type 0
AllFailed w i [] = Unit
AllFailed w i (id ∷ ids) = (w.connects i id ≡ false) × AllFailed w (suc i) ids

-- What is known of the nodes tried at any time: none twice, and each failed.
pub record Progress (w : World) (tried : List String) : Type 0 where
  pub distinct : Distinct tried
  pub failed : AllFailed w 0 tried

-- There are backends that were not tried, and each is at its limit.
pub record RestFull (s : Inner) (bs : List Backend) (tried : List String) : Type 0 where
  pub some_left : is_empty (untried bs tried) ≡ false
  pub no_room : All (λ c. has_room s c ≡ false) (untried bs tried)

-- Why no further backend is tried: enough were, all were, or those left are full.
pub data Spent (s : Inner) (bs : List Backend) (limit : ℕ) (tried : List String) : Type 0 where
  limit_reached : length tried ≡ limit → Spent s bs limit tried
  all_were_tried :
      All (λ c. contains (id_of c) tried ≡ true) (enumerate 0 bs) → Spent s bs limit tried
  rest_full : is_empty tried ≡ false → RestFull s bs tried → Spent s bs limit tried

-- How a client is served.
pub data Ended (w : World) (bs : List Backend) (limit : ℕ)
    : Served × List String × Inner → Type 0 where
  refused : (s : Inner) → RestFull s bs [] → Ended w bs limit (circuit_open, [], s)
  exhausted :
      (tried : List String) (s : Inner)
      → Progress w tried
      → length tried ≤ limit
      → Spent s bs limit tried
      → Ended w bs limit (unreachable, tried, s)
  tunnelled :
      (index : ℕ) (b : Backend) (before : List String) (s : Inner)
      → Progress w before
      → length before < limit
      → get_elem? bs index ≡ some b
      → contains b.node.id before ≡ false
      → w.connects (length before) b.node.id ≡ true
      → Ended w bs limit (forwarded index, before ++ b.node.id ∷ [], s)

contains-append :
    (a : String) (xs ys : List String) → contains a (xs ++ ys) ≡ (contains a xs || contains a ys)
contains-append a [] ys = refl
contains-append a (x ∷ xs) ys = ground (arith, contains-append a xs ys)

pub Distinct-snoc :
    (xs : List String) (a : String) → Distinct xs → contains a xs ≡ false → Distinct (xs ++ a ∷ [])
Distinct-snoc [] a d h = (refl, tt)
Distinct-snoc (x ∷ xs) a d h =
    (ground (arith, d, contains-append x xs (a ∷ [])), Distinct-snoc xs a d.1 (ground arith))

AllFailed-snoc :
    (w : World) (i : ℕ) (xs : List String) (a : String)
    → AllFailed w i xs
    → w.connects (i + length xs) a ≡ false
    → AllFailed w i (xs ++ a ∷ [])
AllFailed-snoc w i [] a f h = let e : i + 0 ≡ i = omega arith in (rw e at h, tt)
AllFailed-snoc w i (x ∷ xs) a f h =
    let e : i + suc (length xs) ≡ suc i + length xs = omega arith in
    (f.0, AllFailed-snoc w (suc i) xs a f.1 (rw e at h))

-- The loop has a result, of one of the kinds above.
abbrev Ends : World → ℕ → ℕ → Inner → List Backend → List String → Bool → Type 0
Ends w n limit s bs tried failed =
    (r : Served × List String × Inner) × (attempt w n s bs tried failed ≡ some r)
    × Ended w bs limit r

pub snoc-nonempty {ℓ} : {A : Type ℓ} (xs : List A) (x : A) → is_empty (xs ++ x ∷ []) ≡ false
snoc-nonempty [] x = refl
snoc-nonempty (y ∷ xs) x = refl

refused_at_first :
    (w : World) (bs : List Backend) (limit : ℕ) (tried : List String) (s : Inner)
    → is_empty tried ≡ true
    → RestFull s bs tried
    → Ended w bs limit (circuit_open, tried, s)
refused_at_first w bs limit [] s e rest = refused s rest
refused_at_first w bs limit (id ∷ tried) s e rest = absurd (cc)

attempt-step :
    (w : World) (n limit : ℕ) (s : Inner) (bs : List Backend) (tried : List String) (failed : Bool)
    → Progress w tried
    → length tried + suc n ≡ limit
    → failed ≡ not (is_empty tried)
    → ((t : Inner) (more : List String)
        → Progress w more
        → length more + n ≡ limit
        → is_empty more ≡ false
        → Ends w n limit t bs more true)
    → Outcome (w.meanwhile (length tried) s) bs tried (w.picked_at (length tried))
    → Ends w (suc n) limit s bs tried failed
unfolding attempt
attempt-step w n limit s bs tried failed p size first ih (tried_all e all) = (
  (unreachable, tried, w.meanwhile (length tried) s),
  rw (attempt, e),
  exhausted tried _ p (omega arith) (all_were_tried all),
)
attempt-step w n limit s bs tried failed p size first ih (full e left all) =
    let s' = w.meanwhile (length tried) s in
    let rest : RestFull s' bs tried = record { some_left = left; no_room = all } in
    elim (Bool-cases failed) [
      | inl f ↦ (
        (unreachable, tried, s'),
        rw (attempt, e, f),
        exhausted tried s' p (omega arith) (rest_full (ground arith) rest),
      )
      | inr f ↦ (
        (circuit_open, tried, s'),
        rw (attempt, e, f),
        refused_at_first w bs limit tried s' (ground arith) rest,
      )
    ]
attempt-step w n limit s bs tried failed p size first ih (reserved c t e ok counted) =
    elim (Bool-cases (w.connects (length tried) (id_of c))) [
      | inl up ↦ (
        (forwarded c.0, tried ++ id_of c ∷ [], drop_slot (record_success t (id_of c)) (id_of c)),
        rw (attempt, e, up),
        tunnelled c.0 c.1 tried _ p (omega arith) ok.indexed ok.not_tried up,
      )
      | inr down ↦
          let t' =
            drop_slot (record_failure t (id_of c) (w.failed_at (length tried))).0 (id_of c) in
          let more : Progress w (tried ++ id_of c ∷ []) = record {
            distinct = Distinct-snoc tried (id_of c) p.distinct ok.not_tried;
            failed =
                let e0 : 0 + length tried ≡ length tried = omega arith in
                AllFailed-snoc w 0 tried (id_of c) p.failed (rw e0 down);
          } in
          let (r, result, how) =
            ih t' (tried ++ id_of c ∷ []) more (omega (arith, length-append tried (id_of c ∷ [])))
              (snoc-nonempty tried (id_of c)) in
          (r, rw (attempt, e, down) result, how)
    ]

attempt-Ends :
    (w : World) (n limit : ℕ) (s : Inner) (bs : List Backend) (tried : List String) (failed : Bool)
    → Progress w tried
    → length tried + n ≡ limit
    → failed ≡ not (is_empty tried)
    → Ends w n limit s bs tried failed
unfolding attempt
attempt-Ends w zero limit s bs tried failed p size first =
    ((unreachable, tried, s), refl, exhausted tried s p (omega arith) (limit_reached (omega arith)))
attempt-Ends w (suc n) limit s bs tried failed p size first =
    attempt-step w n limit s bs tried failed p size first
      (λ t more q e some_tried. attempt-Ends w n limit t bs more true q e (rw some_tried))
      (pick-Outcome (w.meanwhile (length tried) s) bs tried (w.picked_at (length tried)))

-- How a client of a service is served: not at all if no node is known, else by the loop on the
-- preferred nodes.
pub data Serving (w : World) (now : ℕ) (name : String) (state : SharedState)
    : Served × List String × Inner → Type 0 where
  none_known :
      (s : Inner)
      → is_empty (prefer_healthy now (service_backends name state) name state) ≡ true
      → Serving w now name state (no_nodes, [], s)
  looped :
      {r : Served × List String × Inner}
      → is_empty (prefer_healthy now (service_backends name state) name state) ≡ false
      → Ended w
          (prefer_healthy now (service_backends name state) name state)
          (min (length (prefer_healthy now (service_backends name state) name state)) 3)
          r
      → Serving w now name state r

-- Serving a client never panics, whatever other connections do to the balancer between two attempts.
-- At most three nodes are tried, and no more than there are, none twice. Either a tunnel is up on the
-- last one, which was not tried before, after every attempt before it failed; or one or more were
-- tried and all of them failed, and three were, or as many as there are, or every backend was, or
-- every backend left is at its limit; or none was tried, since every one is at its limit, of which
-- there is at least one; or no node is known.
pub serve_client-Serving :
    (w : World) (now : ℕ) (s : Inner) (name : String) (state : SharedState)
    → (r : Served × List String × Inner) × (serve_client w now s name state ≡ some r)
      × Serving w now name state r
unfolding serve_client
serve_client-Serving w now s name state =
    let bs = prefer_healthy now (service_backends name state) name state in
    let kept = retain_nodes s (service_backends name state) in
    elim (Bool-cases (is_empty bs)) [
      | inl e ↦ ((no_nodes, [], kept), rw (serve_client, e), none_known kept e)
      | inr e ↦
          let (r, result, how) =
            attempt-Ends w (min (length bs) 3) (min (length bs) 3) kept bs [] false
              (record { distinct = tt; failed = tt }) (omega arith) refl in
          (r, rw (serve_client, e) result, looped e how)
    ]
