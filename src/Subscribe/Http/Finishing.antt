-- ===== src/Subscribe/Http/Finishing.antt =====
-- The ends of the loop of `HttpProxy::attempt` of src/subscribe/http.rs, each serving the request.
use stouter.Prelude.{
  ℕ, suc, ◌+◌, ◌≤◌, String, true, false, Option, none, some, List, [], ◌∷◌, ◌++◌, length, Distinct,
  string_key, nat_key, ◌≡◌, arith, Bool-cases, inl, inr, ◌⊎◌, length-append, ◌==◌, ◌∙◌, ap, sym,
  refl,
}
use stouter.Subscribe.Balancer.{Backend, Inner}
use stouter.Subscribe.Http.{
  RequestBody, is_replayable, answered, not_connected, failed, Sent, error, Cause, timeout,
  upstream_error, no_backend_reachable, HttpWorld, AttemptLog, settle_reply, unreachable, Reply,
  is_final, is_retryable_status, is_idempotent,
}
use stouter.Subscribe.Http.Retries.{Held, Held-more, append-[], In-last, Repeats-All, Repeats-snoc}
use stouter.Subscribe.Http.Endings.{
  CannotSend, Returned, not_retryable, not_idempotent, not_kept, at_limit, no_budget, Reason,
  not_resent, late, broken, came, Ending, after_all, unsendable, IsServed, SettledAs, targets,
  AllCame, CameOf, AllCame-snoc, targets-snoc, settle_reply-error, settle_reply-response,
}
use stouter.Subscribe.Http.Attempting.{
  ReplyOf, answers_with, times_out, breaks, gives_up, Ready, CannotSend-origin, at_most_one,
  none_or_one,
}

-- The log after an attempt on a node.
abbrev pub logged : AttemptLog → String → List (String × Sent) → AttemptLog
logged log id sent = record { tried = log.tried ++ id ∷ []; sent = log.sent ++ sent }

pub asked-more :
    (log : AttemptLog) (id : String) (e : Sent)
    → targets log.sent ≡ log.tried
    → targets (log.sent ++ (id, e) ∷ []) ≡ log.tried ++ id ∷ []
asked-more log id e h = targets-snoc log.sent (id, e) ∙ ap (λ xs. xs ++ id ∷ []) h

length-targets : (sent : List (String × Sent)) → length (targets sent) ≡ length sent
length-targets [] = refl
length-targets (e ∷ sent) = ap suc (length-targets sent)

module _ (w : HttpWorld) (method : String) (origin : RequestBody) (bs : List Backend)
    (limit : ℕ) where
  abbrev EndingAt : AttemptLog → Inner → Reply → Type 0
  EndingAt log s reply = Ending w method origin bs limit s log reply

  -- The end without a further request.
  pub ends :
      {body : RequestBody} {log : AttemptLog} {fallback : Option (ℕ × String)}
      → Ready w bs method origin body log fallback
      → (code : ℕ) (cause : Cause) (s : Inner) → length log.tried ≤ limit
      → Reason w method origin bs limit s log (error code cause)
      → let r = settle_reply fallback (error code cause) s in
        IsServed w method origin bs limit r.0 r.1 log
  ends {log = log} {fallback = fallback} ready code cause s bound why =
      let (answers, ended) =
        settle_reply-error (EndingAt log) fallback log.sent code cause s ready.held
          (after_all ready.asked why) in
      record {
        distinct = ready.distinct;
        bounded = bound;
        repeats = Repeats-All method log.sent ready.repeatable;
        came_of = ready.came_of;
        replays = none_or_one (is_replayable origin) log.sent ready.replays;
        answers = answers;
        ended = ended;
      }

  -- The end where a chosen node cannot be sent the request.
  pub cannot_send :
      {body : RequestBody} {log : AttemptLog} {fallback : Option (ℕ × String)} {id : String}
      → Ready w bs method origin body log fallback
      → CannotSend w body id
      → (s : Inner) → Distinct (log.tried ++ id ∷ [])
      → length (log.tried ++ id ∷ []) ≤ limit
      → let r = settle_reply fallback unreachable s in
        IsServed w method origin bs limit r.0 r.1 (logged log id [])
  cannot_send {log = log} {fallback = fallback} {id = id} ready cannot s distinct bound =
      let same : log.sent ++ [] ≡ log.sent = append-[] log.sent in
      let held : Held fallback (log.sent ++ []) = rw same ready.held in
      let (answers, ended) =
        settle_reply-error (EndingAt (logged log id [])) fallback (log.sent ++ []) 502
          no_backend_reachable s held
          (unsendable id (rw same (ap (λ xs. xs ++ id ∷ []) ready.asked))
            (CannotSend-origin ready cannot)) in
      record {
        distinct = distinct;
        bounded = bound;
        repeats = rw same (Repeats-All method log.sent ready.repeatable);
        came_of = rw same ready.came_of;
        replays = rw same (none_or_one (is_replayable origin) log.sent ready.replays);
        answers = answers;
        ended = ended;
      }

  final-Returned :
      (rest : RequestBody) (n status : ℕ) (tried : List String) (id : String)
      → is_replayable rest ≡ is_replayable origin
      → length tried + suc n ≡ limit
      → (is_final method rest (n == 0) status ≡ true) ⊎ (w.withdraws (length tried) ≡ false)
      → Returned w method origin limit (tried ++ id ∷ []) status
  unfolding is_final
  final-Returned rest n status tried id same size (inr e) = no_budget tried id refl e
  final-Returned rest n status tried id same size (inl e) =
      elim (Bool-cases (is_retryable_status status)) [
        | inr f ↦ not_retryable f
        | inl f ↦ elim (Bool-cases (is_idempotent method)) [
          | inr g ↦ not_idempotent g
          | inl g ↦ elim (Bool-cases (is_replayable rest)) [
            | inr h ↦ not_kept (sym same ∙ h)
            | inl h ↦
                let z : n ≡ 0 = ground arith in
                at_limit (omega (arith, length-append tried (id ∷ []), z))
          ]
        ]
      ]

  -- How the reply to the last request is settled.
  over-SettledAs :
      {body rest : RequestBody} {log : AttemptLog} {fallback : Option (ℕ × String)} {id : String}
      {reply : Reply} {e : Sent} (n : ℕ)
      → Ready w bs method origin body log fallback
      → is_replayable rest ≡ is_replayable origin
      → length log.tried + suc n ≡ limit
      → (s : Inner) → ReplyOf w method rest (n == 0) (length log.tried) id reply e
      → SettledAs
          (EndingAt (logged log id ((id, e) ∷ [])))
          (log.sent ++ (id, e) ∷ [])
          (settle_reply fallback reply s)
  over-SettledAs {rest = rest} {log = log} {fallback = fallback} {id = id} n ready same size s
        (answers_with status why) =
      settle_reply-response (EndingAt (logged log id ((id, some (answered status)) ∷ []))) fallback
        _ status id s (In-last log.sent (id, some (answered status)))
        (λ t. after_all (asked-more log id (some (answered status)) ready.asked) (
          came status id (log.sent, refl)
            (final-Returned rest n status log.tried id same size why)))
  over-SettledAs {log = log} {fallback = fallback} {id = id} n ready same size s times_out =
      settle_reply-error (EndingAt (logged log id ((id, none) ∷ []))) fallback _ 504 timeout s
        (Held-more fallback log.sent (id, none) ready.held tt)
        (after_all (asked-more log id none ready.asked) (late id (log.sent, refl)))
  over-SettledAs {log = log} {fallback = fallback} {id = id} n ready same size s breaks =
      settle_reply-error (EndingAt (logged log id ((id, some failed) ∷ []))) fallback _ 502
        upstream_error s (Held-more fallback log.sent (id, some failed) ready.held tt)
        (after_all (asked-more log id (some failed) ready.asked) (broken id (log.sent, refl)))
  over-SettledAs {log = log} {fallback = fallback} {id = id} n ready same size s (gives_up e) =
      settle_reply-error (EndingAt (logged log id ((id, some not_connected) ∷ []))) fallback _ 502
        no_backend_reachable s (Held-more fallback log.sent (id, some not_connected) ready.held tt)
        (after_all (asked-more log id (some not_connected) ready.asked)
          (not_resent id (log.sent, refl) (sym same ∙ e)))

  pub AllCame-more :
      {body : RequestBody} {log : AttemptLog} {fallback : Option (ℕ × String)} {id : String}
      {e : Sent}
      → Ready w bs method origin body log fallback
      → CameOf w bs (length log.tried) (id, e)
      → AllCame w bs 0 (log.sent ++ (id, e) ∷ [])
  AllCame-more {log = log} {id = id} {e = e} ready came_now =
      let same : length log.tried ≡ 0 + length log.sent =
        omega (arith, length-targets log.sent, ap length ready.asked) in
      AllCame-snoc w bs 0 log.sent (id, e) ready.came_of (rw same at came_now)

  -- The end with what came of the last request.
  pub over_at :
      {body rest : RequestBody} {log : AttemptLog} {fallback : Option (ℕ × String)} {id : String}
      {reply : Reply} {e : Sent} (n : ℕ)
      → Ready w bs method origin body log fallback
      → is_replayable rest ≡ is_replayable origin
      → length log.tried + suc n ≡ limit
      → Distinct (log.tried ++ id ∷ [])
      → CameOf w bs (length log.tried) (id, e)
      → (s : Inner) → ReplyOf w method rest (n == 0) (length log.tried) id reply e
      → let r = settle_reply fallback reply s in
        IsServed w method origin bs limit r.0 r.1 (logged log id ((id, e) ∷ []))
  over_at {log = log} {id = id} {e = e} n ready same size distinct came_now s says =
      let (answers, ended) = over-SettledAs n ready same size s says in
      record {
        distinct = distinct;
        bounded = omega (arith, length-append log.tried (id ∷ []));
        repeats = Repeats-snoc method log.sent (id, e) ready.repeatable;
        came_of = AllCame-more ready came_now;
        replays = at_most_one (is_replayable origin) log.sent (id, e) ready.replays;
        answers = answers;
        ended = ended;
      }
