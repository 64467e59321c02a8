-- ===== src/Subscribe/Http/Attempting.antt =====
-- One attempt of `HttpProxy::attempt` of src/subscribe/http.rs, and what holds before each of them.
use stouter.Prelude.{
  ℕ, String, Bool, true, false, Option, none, some, List, [], ◌∷◌, ◌++◌, length, Distinct,
  string_key, nat_key, ◌≡◌, arith, Bool-cases, Option-cases, inl, inr, refl, ◌⊎◌, In, All, ◌≤◌, ◌∙◌,
}
use stouter.Subscribe.Balancer.{Backend, Inner}
use stouter.Subscribe.Http.{
  RequestBody, replayable, stream, is_replayable, for_attempt, Sent, HttpWorld, AttemptLog, send,
  Next, attempt_on, Result, attempts, answered, not_connected, failed, is_retryable_status,
  is_idempotent, is_final, judge, stop, again, Reply, response, error, timeout, upstream_error,
  unreachable,
}
use stouter.Subscribe.Http.Retries.{MayRepeat, Held}
use stouter.Subscribe.Http.Endings.{
  CannotSend, no_uri, used_up, IsServed, targets, AllCame, CameOf, send-Came,
}

-- What a reply says of the last request, the `i`-th.
pub data ReplyOf (w : HttpWorld) (method : String) (body : RequestBody) (last : Bool) (i : ℕ)
    (id : String) : Reply → Sent → Type 0 where
  answers_with :
      (status : ℕ)
      → (is_final method body last status ≡ true) ⊎ (w.withdraws i ≡ false)
      → ReplyOf w method body last i id (response status id) (some (answered status))
  times_out : ReplyOf w method body last i id (error 504 timeout) none
  breaks : ReplyOf w method body last i id (error 502 upstream_error) (some failed)
  gives_up :
      is_replayable body ≡ false → ReplyOf w method body last i id unreachable (some not_connected)

-- What a request leads to: the end, or another attempt.
pub data Made (w : HttpWorld) (bs : List Backend) (method : String) (last : Bool) (i : ℕ)
    (id : String) (body : RequestBody) (fallback : Option (ℕ × String))
    : (Next × Inner) × List (String × Sent) → Type 0 where
  over :
      (reply : Reply) (t : Inner) (e : Sent)
      → CameOf w bs i (id, e)
      → ReplyOf w method body last i id reply e
      → Made w bs method last i id body fallback ((stop reply, t), (id, e) ∷ [])
  unable :
      (status : ℕ) (t : Inner)
      → CameOf w bs i (id, some (answered status))
      → is_replayable body ≡ true
      → (is_retryable_status status ≡ true) × (is_idempotent method ≡ true)
      → Made w bs method last i id body fallback
          ((again body (some (status, id)), t), (id, some (answered status)) ∷ [])
  unreached :
      (t : Inner)
      → CameOf w bs i (id, some not_connected)
      → is_replayable body ≡ true
      → Made w bs method last i id body fallback
          ((again body fallback, t), (id, some not_connected) ∷ [])

repeatable :
    (method : String) (body : RequestBody) (last : Bool) (status : ℕ)
    → is_final method body last status ≡ false
    → (is_retryable_status status ≡ true)
      × (is_idempotent method ≡ true)
      × (is_replayable body ≡ true)
unfolding is_final
repeatable method body last status h = ground arith

judge-Made :
    (w : HttpWorld) (bs : List Backend) (method : String) (last : Bool) (i : ℕ) (id : String)
    (body : RequestBody) (fallback : Option (ℕ × String)) (s : Inner) (e : Sent)
    → CameOf w bs i (id, e)
    → Made w bs method last i id body fallback
        (judge w method last i id body fallback s e, (id, e) ∷ [])
unfolding judge
judge-Made w bs method last i id body fallback s none c = over _ _ none c times_out
judge-Made w bs method last i id body fallback s (some failed) c = over _ _ _ c breaks
judge-Made w bs method last i id body fallback s (some not_connected) c =
    elim (Bool-cases (is_replayable body)) [
      | inl e ↦ rw e (unreached _ c e)
      | inr e ↦ rw e (over _ _ _ c (gives_up e))
    ]
judge-Made w bs method last i id body fallback s (some (answered status)) c =
    elim (Bool-cases (is_final method body last status)) [
      | inl e ↦ rw e (over _ _ _ c (answers_with status (inl e)))
      | inr e ↦ elim (Bool-cases (w.withdraws i)) [
        | inl f ↦
            rw (e, f)
              (let (r, m, b) = repeatable method body last status e in unable status _ c b (r, m))
        | inr f ↦ rw (e, f) (over _ _ _ c (answers_with status (inr f)))
      ]
    ]

for_attempt-keeps :
    (body rest : RequestBody)
    → for_attempt body ≡ some rest
    → is_replayable rest ≡ is_replayable body
unfolding for_attempt is_replayable
for_attempt-keeps replayable rest h = ground arith
for_attempt-keeps (stream true) rest h = ground arith
for_attempt-keeps (stream false) rest h = absurd (cc)

-- An attempt: nothing can be sent, or the request is sent, with a body that is as replayable as the
-- one before it.
pub data Attempted (w : HttpWorld) (bs : List Backend) (method : String) (last : Bool) (i : ℕ)
    (id : String) (body : RequestBody) (fallback : Option (ℕ × String))
    : (Next × Inner) × List (String × Sent) → Type 0 where
  not_sent :
      (t : Inner)
      → CannotSend w body id
      → Attempted w bs method last i id body fallback ((stop unreachable, t), [])
  attempted :
      {made : (Next × Inner) × List (String × Sent)} (rest : RequestBody)
      → is_replayable rest ≡ is_replayable body
      → Made w bs method last i id rest fallback made
      → Attempted w bs method last i id body fallback made

pub attempt_on-Attempted :
    (w : HttpWorld) (bs : List Backend) (method : String) (last : Bool) (i : ℕ)
    (backend : Option Backend) (b : Backend) (body : RequestBody) (fallback : Option (ℕ × String))
    (s : Inner)
    → backend ≡ some b
    → In b bs
    → Attempted w bs method last i b.node.id body fallback
        (attempt_on w method last i backend b.node.id body fallback s)
unfolding attempt_on
attempt_on-Attempted w bs method last i backend b body fallback s chosen member =
    let id = b.node.id in
    let came : CameOf w bs i (id, send w i backend id) =
      (b, member, refl, rw chosen (send-Came w i b)) in
    elim (Bool-cases (w.makes_uri id)) [
      | inr e ↦ rw e (not_sent _ (no_uri e))
      | inl e ↦ elim (Option-cases (for_attempt body)) [
        | inl f ↦ rw (e, f) (not_sent _ (used_up f))
        | inr (rest, f) ↦
            rw (e, f)
              (attempted rest (for_attempt-keeps body rest f)
                (judge-Made w bs method last i id rest fallback s (send w i backend id) came))
      ]
    ]

-- What holds before each attempt.
pub record Ready (w : HttpWorld) (bs : List Backend) (method : String) (origin body : RequestBody)
    (log : AttemptLog) (fallback : Option (ℕ × String)) : Type 0 where
  pub distinct : Distinct log.tried
  pub asked : targets log.sent ≡ log.tried
  pub came_of : AllCame w bs 0 log.sent
  pub repeatable : All (MayRepeat method) log.sent
  pub held : Held fallback log.sent
  pub same_body : is_replayable body ≡ is_replayable origin
  pub replays : (is_replayable origin ≡ true) ⊎ ((log.sent ≡ []) × (body ≡ origin))

-- The loop has a result, which serves the request.
abbrev pub Serves :
    HttpWorld
    → String
    → RequestBody
    → ℕ
    → ℕ
    → Inner
    → List Backend
    → RequestBody
    → AttemptLog
    → Option (ℕ × String)
    → Type 0
Serves w method origin limit n s bs body log fallback =
    (r : Result) × (attempts w method n s bs body log fallback ≡ some r)
    × IsServed w method origin bs limit r.0.0 r.0.1 r.1

for_attempt-replayable :
    (body : RequestBody) → is_replayable body ≡ true → ¬ (for_attempt body ≡ none)
unfolding for_attempt is_replayable
for_attempt-replayable replayable h e = absurd (cc)
for_attempt-replayable (stream b) h e = absurd (cc)

-- What cannot be sent to a node could not be sent at first either.
pub CannotSend-origin :
    {method : String} {origin body : RequestBody} {log : AttemptLog}
    {fallback : Option (ℕ × String)} {w : HttpWorld} {bs : List Backend} {id : String}
    → Ready w bs method origin body log fallback
    → CannotSend w body id
    → CannotSend w origin id
CannotSend-origin ready (no_uri e) = no_uri e
CannotSend-origin {body = body} ready (used_up e) = elim ready.replays [
  | inl h ↦ absurd (for_attempt-replayable body (ready.same_body ∙ h) e)
  | inr (fresh, same) ↦ used_up (rw same at e)
]

pub at_most_one :
    {P : Type 0} (b : Bool) (sent : List (String × Sent)) (e : String × Sent)
    → (b ≡ true) ⊎ ((sent ≡ []) × P)
    → (b ≡ true) ⊎ (length (sent ++ e ∷ []) ≤ 1)
at_most_one b sent e (inl h) = inl h
at_most_one b sent e (inr (h, p)) = inr (rw h (omega arith))

pub none_or_one :
    {P : Type 0} (b : Bool) (sent : List (String × Sent))
    → (b ≡ true) ⊎ ((sent ≡ []) × P)
    → (b ≡ true) ⊎ (length sent ≤ 1)
none_or_one b sent (inl h) = inl h
none_or_one b sent (inr (h, p)) = inr (rw h (omega arith))
