-- ===== src/Subscribe/Http/Looping.antt =====
-- The loop of `HttpProxy::attempt` of src/subscribe/http.rs, over all its attempts.
use stouter.Prelude.{
  ℕ, zero, suc, ◌+◌, String, true, false, Option, some, List, [], ◌∷◌, ◌++◌, is_empty, length,
  contains, Distinct, string_key, nat_key, ◌≡◌, refl, arith, Bool-cases, inl, inr, length-append,
  get_elem?, get_elem?-In, ◌==◌, sym, ◌∙◌,
}
use stouter.Subscribe.Balancer.{Backend, Inner, id_of}
use stouter.Subscribe.Balancer.Picking.{Outcome, tried_all, full, reserved, pick-Outcome}
use stouter.Subscribe.Proxy.Attempts.{Distinct-snoc}
use stouter.Subscribe.Http.{
  RequestBody, is_replayable, answered, not_connected, Sent, error, circuit_open,
  no_backend_reachable, HttpWorld, AttemptLog, settle_reply, unreachable, Next, stop, again,
  attempt_on, Result, attempts,
}
use stouter.Subscribe.Proxy.Attempts.{limit_reached, all_were_tried, rest_full, RestFull}
use stouter.Subscribe.Http.Retries.{MayRepeat, All-snoc, Held-more}
use stouter.Subscribe.Http.Endings.{IsServed, spent, all_full, Reason}
use stouter.Subscribe.Http.Attempting.{
  Attempted, not_sent, attempted, attempt_on-Attempted, Ready, Serves, Made, over, unable,
  unreached,
}
use stouter.Subscribe.Http.Finishing.{logged, asked-more, ends, cannot_send, over_at, AllCame-more}

-- The loop goes on from any state that is ready.
abbrev pub Continues : HttpWorld → String → RequestBody → ℕ → ℕ → List Backend → Type 0
Continues w method origin limit n bs =
    (s : Inner) (body : RequestBody) (log : AttemptLog) (fallback : Option (ℕ × String))
    → Ready w bs method origin body log fallback
    → length log.tried + n ≡ limit
    → Serves w method origin limit n s bs body log fallback

-- The loop's result after an attempt.
abbrev Follows :
    HttpWorld
    → String
    → RequestBody
    → ℕ
    → ℕ
    → List Backend
    → AttemptLog
    → Option (ℕ × String)
    → String
    → (Next × Inner) × List (String × Sent)
    → Type 0
Follows w method origin limit n bs log fallback id made =
    (r : Result) × (elim made.0.0 [
      | stop reply ↦ some (settle_reply fallback reply made.0.1, logged log id made.1)
      | again rest fallback' ↦ attempts w method n made.0.1 bs rest (logged log id made.1) fallback'
    ]
      ≡ some r)
    × IsServed w method origin bs limit r.0.0 r.0.1 r.1

after_request :
    (w : HttpWorld) (method : String) (origin body rest : RequestBody) (limit n : ℕ)
    (bs : List Backend) (log : AttemptLog) (fallback : Option (ℕ × String)) (id : String)
    {made : (Next × Inner) × List (String × Sent)}
    → Ready w bs method origin body log fallback
    → length log.tried + suc n ≡ limit
    → Distinct (log.tried ++ id ∷ [])
    → is_replayable rest ≡ is_replayable origin
    → Continues w method origin limit n bs
    → Made w bs method (n == 0) (length log.tried) id rest fallback made
    → Follows w method origin limit n bs log fallback id made
after_request w method origin body rest limit n bs log fallback id ready size distinct same more
      (over reply t e c says) =
    (_, refl, over_at w method origin bs limit n ready same size distinct c t says)
after_request w method origin body rest limit n bs log fallback id ready size distinct same more
      (unable status t c b may) =
    more t rest (logged log id ((id, some (answered status)) ∷ [])) (some (status, id))
      (record {
        distinct = distinct;
        asked = asked-more log id (some (answered status)) ready.asked;
        came_of = AllCame-more w method origin bs limit ready c;
        repeatable =
            All-snoc (MayRepeat method) log.sent (id, some (answered status)) ready.repeatable may;
        held = record { before = log.sent; later = []; whole = refl; none_since = tt };
        same_body = same;
        replays = inl (sym same ∙ b);
      })
      (omega (arith, length-append log.tried (id ∷ [])))
after_request w method origin body rest limit n bs log fallback id ready size distinct same more
      (unreached t c b) =
    more t rest (logged log id ((id, some not_connected) ∷ [])) fallback
      (record {
        distinct = distinct;
        asked = asked-more log id (some not_connected) ready.asked;
        came_of = AllCame-more w method origin bs limit ready c;
        repeatable =
            All-snoc (MayRepeat method) log.sent (id, some not_connected) ready.repeatable tt;
        held = Held-more fallback log.sent (id, some not_connected) ready.held tt;
        same_body = same;
        replays = inl (sym same ∙ b);
      })
      (omega (arith, length-append log.tried (id ∷ [])))

after_attempt :
    (w : HttpWorld) (method : String) (origin body : RequestBody) (limit n : ℕ) (bs : List Backend)
    (log : AttemptLog) (fallback : Option (ℕ × String)) (id : String)
    {made : (Next × Inner) × List (String × Sent)}
    → Ready w bs method origin body log fallback
    → length log.tried + suc n ≡ limit
    → contains id log.tried ≡ false
    → Continues w method origin limit n bs
    → Attempted w bs method (n == 0) (length log.tried) id body fallback made
    → Follows w method origin limit n bs log fallback id made
after_attempt w method origin body limit n bs log fallback id ready size new more (not_sent t why) =
    (
      _,
      refl,
      cannot_send w method origin bs limit ready why t
          (Distinct-snoc log.tried id ready.distinct new)
          (omega (arith, length-append log.tried (id ∷ []))),
    )
after_attempt w method origin body limit n bs log fallback id ready size new more
      (attempted rest same m) =
    after_request w method origin body rest limit n bs log fallback id ready size
      (Distinct-snoc log.tried id ready.distinct new) (same ∙ ready.same_body) more m

nothing_tried :
    (w : HttpWorld) (method : String) (body : RequestBody) (bs : List Backend) (limit : ℕ)
    (s : Inner) (log : AttemptLog) (tried : List String)
    → log.tried ≡ tried
    → is_empty tried ≡ true
    → RestFull s bs tried
    → Reason w method body bs limit s log (error 503 circuit_open)
nothing_tried w method body bs limit s log [] e f rest = all_full e rest
nothing_tried w method body bs limit s log (id ∷ tried) e f rest = absurd (cc)

attempts-step :
    (w : HttpWorld) (method : String) (origin : RequestBody) (limit n : ℕ) (s : Inner)
    (bs : List Backend) (body : RequestBody) (log : AttemptLog) (fallback : Option (ℕ × String))
    → Ready w bs method origin body log fallback
    → length log.tried + suc n ≡ limit
    → Continues w method origin limit n bs
    → Outcome (w.meanwhile (length log.tried) s) bs log.tried (w.picked_at (length log.tried))
    → Serves w method origin limit (suc n) s bs body log fallback
unfolding attempts
attempts-step w method origin limit n s bs body log fallback ready size more (tried_all e all) = (
  (settle_reply fallback unreachable (w.meanwhile (length log.tried) s), log),
  rw (attempts, e),
  ends w method origin bs limit ready 502 no_backend_reachable _ (omega arith)
      (spent (all_were_tried all)),
)
attempts-step w method origin limit n s bs body log fallback ready size more (full e left all) =
    let s' = w.meanwhile (length log.tried) s in
    let rest : RestFull s' bs log.tried = record { some_left = left; no_room = all } in
    elim (Bool-cases (is_empty log.tried)) [
      | inl f ↦ (
        (settle_reply fallback (error 503 circuit_open) s', log),
        rw (attempts, e, f),
        ends w method origin bs limit ready 503 circuit_open s' (omega arith)
            (nothing_tried w method origin bs limit s' log log.tried refl f rest),
      )
      | inr f ↦ (
        (settle_reply fallback unreachable s', log),
        rw (attempts, e, f),
        ends w method origin bs limit ready 502 no_backend_reachable s' (omega arith)
            (spent (rest_full f rest)),
      )
    ]
attempts-step w method origin limit n s bs body log fallback ready size more
      (reserved c t e ok counted) =
    let i = length log.tried in
    let backend = get_elem? bs c.0 in
    let made = attempt_on w method (n == 0) i backend (id_of c) body fallback t in
    let (r, result, served) =
      after_attempt w method origin body limit n bs log fallback (id_of c) {made = made} ready size
        ok.not_tried more
        (attempt_on-Attempted w bs method (n == 0) i backend c.1 body fallback t ok.indexed
          (get_elem?-In bs c.0 ok.indexed)) in
    (r, rw (attempts, e) result, served)

pub attempts-Serves :
    (w : HttpWorld) (method : String) (origin : RequestBody) (limit n : ℕ) (bs : List Backend)
    → Continues w method origin limit n bs
unfolding attempts
attempts-Serves w method origin limit zero bs s body log fallback ready size = (
  _,
  refl,
  ends w method origin bs limit ready 502 no_backend_reachable s (omega arith)
      (spent (limit_reached (omega arith))),
)
attempts-Serves w method origin limit (suc n) bs s body log fallback ready size =
    attempts-step w method origin limit n s bs body log fallback ready size
      (attempts-Serves w method origin limit n bs)
      (pick-Outcome (w.meanwhile (length log.tried) s) bs log.tried
        (w.picked_at (length log.tried)))
