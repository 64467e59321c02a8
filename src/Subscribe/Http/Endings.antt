-- ===== src/Subscribe/Http/Endings.antt =====
-- How `HttpProxy::attempt` of src/subscribe/http.rs ends: the reason of each reply, and the use of an
-- earlier answer in place of an error.
use stouter.Prelude.{
  ℕ, if◌then◌else◌, suc, ◌+◌, Bool-cases, inl, inr, arith, ◌≤◌, String, true, false, Option, none,
  some, List, [], ◌∷◌, ◌++◌, length, map, Distinct, string_key, ◌≡◌, ◌⊎◌, In, All, refl,
}
use stouter.Subscribe.Balancer.{Backend, Inner}
use stouter.Subscribe.Proxy.Attempts.{RestFull, Spent}
use stouter.Subscribe.Http.{
  RequestBody, is_replayable, for_attempt, is_retryable_status, is_idempotent, answered,
  not_connected, failed, Sent, Reply, response, error, Cause, circuit_open, timeout, upstream_error,
  HttpWorld, AttemptLog, settle_reply, unreachable, send,
}
use stouter.Subscribe.Http.Retries.{Unanswered, Repeats, LastAnswer, LastAnswer-In, Held}

-- The nodes that a request was sent to.
abbrev pub targets : List (String × Sent) → List String
targets sent = map (λ e. e.0) sent

pub targets-snoc :
    (sent : List (String × Sent)) (e : String × Sent)
    → targets (sent ++ e ∷ []) ≡ targets sent ++ e.0 ∷ []
targets-snoc [] e = refl
targets-snoc (d ∷ sent) e = rw (targets-snoc sent e)

-- What comes of the `i`-th request, sent to a node under its backend's limit: silence beyond the limit,
-- or what the node makes of it.
pub data Came (w : HttpWorld) (i : ℕ) (id : String) : Option ℕ → Sent → Type 0 where
  unlimited : Came w i id none (some (w.sends i id))
  in_time :
      (limit : ℕ) → w.exceeds i id limit ≡ false → Came w i id (some limit) (some (w.sends i id))
  too_late : (limit : ℕ) → w.exceeds i id limit ≡ true → Came w i id (some limit) none

-- The same of an entry of the log, whose backend is one of those given.
abbrev pub CameOf : HttpWorld → List Backend → ℕ → String × Sent → Type 0
CameOf w bs i (id, e) = (b : Backend) × In b bs × (b.node.id ≡ id) × Came w i id b.request_timeout e

-- Every entry, the requests being numbered from `i` on.
abbrev pub AllCame : HttpWorld → List Backend → ℕ → List (String × Sent) → Type 0
AllCame w bs i [] = Unit
AllCame w bs i (e ∷ sent) = CameOf w bs i e × AllCame w bs (suc i) sent

pub AllCame-snoc :
    (w : HttpWorld) (bs : List Backend) (i : ℕ) (sent : List (String × Sent)) (e : String × Sent)
    → AllCame w bs i sent
    → CameOf w bs (i + length sent) e
    → AllCame w bs i (sent ++ e ∷ [])
AllCame-snoc w bs i [] e h c = let z : i + 0 ≡ i = omega arith in (rw z at c, tt)
AllCame-snoc w bs i (d ∷ sent) e h c =
    let z : i + suc (length sent) ≡ suc i + length sent = omega arith in
    (h.0, AllCame-snoc w bs (suc i) sent e h.1 (rw z at c))

limited-Came :
    (w : HttpWorld) (i : ℕ) (id : String) (timeout : Option ℕ)
    → Came w i id timeout (elim timeout [
      | none ↦ some (w.sends i id)
      | some limit ↦ if w.exceeds i id limit then none else some (w.sends i id)
    ])
limited-Came w i id none = unlimited
limited-Came w i id (some limit) = elim (Bool-cases (w.exceeds i id limit)) [
  | inl e ↦ rw e (too_late limit e)
  | inr e ↦ rw e (in_time limit e)
]

pub send-Came :
    (w : HttpWorld) (i : ℕ) (b : Backend)
    → Came w i b.node.id b.request_timeout (send w i (some b) b.node.id)
unfolding send
send-Came w i b = limited-Came w i b.node.id b.request_timeout

-- Why nothing is sent to a node that was chosen.
pub data CannotSend (w : HttpWorld) (body : RequestBody) (id : String) : Type 0 where
  no_uri : w.makes_uri id ≡ false → CannotSend w body id
  used_up : for_attempt body ≡ none → CannotSend w body id

-- Why an answer goes to the client at once.
pub data Returned (w : HttpWorld) (method : String) (body : RequestBody) (limit : ℕ)
    (tried : List String) (status : ℕ) : Type 0 where
  not_retryable : is_retryable_status status ≡ false → Returned w method body limit tried status
  not_idempotent : is_idempotent method ≡ false → Returned w method body limit tried status
  not_kept : is_replayable body ≡ false → Returned w method body limit tried status
  at_limit : length tried ≡ limit → Returned w method body limit tried status
  no_budget :
      (before : List String) (id : String)
      → tried ≡ before ++ id ∷ []
      → w.withdraws (length before) ≡ false
      → Returned w method body limit tried status

-- The last request, and what came of it.
abbrev pub EndsWith : List (String × Sent) → String → Sent → Type 0
EndsWith sent id e = (before : List (String × Sent)) × (sent ≡ before ++ (id, e) ∷ [])

-- Why there is no further attempt after what was sent, by the reply that it makes.
pub data Reason (w : HttpWorld) (method : String) (body : RequestBody) (bs : List Backend)
    (limit : ℕ) (s : Inner) (log : AttemptLog) : Reply → Type 0 where
  spent : Spent s bs limit log.tried → Reason w method body bs limit s log unreachable
  all_full :
      log.tried ≡ []
      → RestFull s bs []
      → Reason w method body bs limit s log (error 503 circuit_open)
  not_resent :
      (id : String)
      → EndsWith log.sent id (some not_connected)
      → is_replayable body ≡ false
      → Reason w method body bs limit s log unreachable
  late :
      (id : String)
      → EndsWith log.sent id none
      → Reason w method body bs limit s log (error 504 timeout)
  broken :
      (id : String)
      → EndsWith log.sent id (some failed)
      → Reason w method body bs limit s log (error 502 upstream_error)
  came :
      (status : ℕ) (id : String)
      → EndsWith log.sent id (some (answered status))
      → Returned w method body limit log.tried status
      → Reason w method body bs limit s log (response status id)

-- The end of the attempts: every node tried was sent the request, or all but the last, where it could
-- not be sent.
pub data Ending (w : HttpWorld) (method : String) (body : RequestBody) (bs : List Backend)
    (limit : ℕ) (s : Inner) (log : AttemptLog) : Reply → Type 0 where
  after_all :
      {reply : Reply}
      → targets log.sent ≡ log.tried
      → Reason w method body bs limit s log reply
      → Ending w method body bs limit s log reply
  unsendable :
      (id : String)
      → targets log.sent ++ id ∷ [] ≡ log.tried
      → CannotSend w body id
      → Ending w method body bs limit s log unreachable

-- The client gets the reply that the attempts end with, or the last answer in place of an error.
pub data Settled (E : Reply → Type 0) (sent : List (String × Sent)) : Reply → Type 0 where
  as_ended : {reply : Reply} → E reply → Settled E sent reply
  falls_back :
      (code : ℕ) (cause : Cause) (status : ℕ) (id : String)
      → E (error code cause)
      → LastAnswer id status sent
      → Settled E sent (response status id)

-- A response is an answer of a node that was asked, and an error means that none answered.
abbrev pub Answers : Reply → List (String × Sent) → Type 0
Answers (response status id) sent = In (id, some (answered status)) sent
Answers (error status cause) sent = All Unanswered sent

-- How a request is served, with the balancer's state after it.
pub record IsServed (w : HttpWorld) (method : String) (body : RequestBody) (bs : List Backend)
    (limit : ℕ) (reply : Reply) (s : Inner) (log : AttemptLog) : Type 0 where
  pub distinct : Distinct log.tried
  pub bounded : length log.tried ≤ limit
  pub came_of : AllCame w bs 0 log.sent
  pub repeats : Repeats method log.sent
  pub replays : (is_replayable body ≡ true) ⊎ (length log.sent ≤ 1)
  pub answers : Answers reply log.sent
  pub ended : Settled (Ending w method body bs limit s log) log.sent reply

-- A reply in its state, as it is settled.
abbrev pub SettledAs : (Inner → Reply → Type 0) → List (String × Sent) → Reply × Inner → Type 0
SettledAs E sent r = Answers r.0 sent × Settled (E r.1) sent r.0

pub settle_reply-error :
    (E : Inner → Reply → Type 0) (fallback : Option (ℕ × String)) (sent : List (String × Sent))
    (code : ℕ) (cause : Cause) (s : Inner)
    → Held fallback sent
    → E s (error code cause)
    → SettledAs E sent (settle_reply fallback (error code cause) s)
unfolding settle_reply
settle_reply-error E none sent code cause s h e = (h, as_ended e)
settle_reply-error E (some (status, node)) sent code cause s h e =
    (LastAnswer-In h, falls_back code cause status node e h)

pub settle_reply-response :
    (E : Inner → Reply → Type 0) (fallback : Option (ℕ × String)) (sent : List (String × Sent))
    (status : ℕ) (id : String) (s : Inner)
    → In (id, some (answered status)) sent
    → ((t : Inner) → E t (response status id))
    → SettledAs E sent (settle_reply fallback (response status id) s)
unfolding settle_reply
settle_reply-response E none sent status id s i e = (i, as_ended (e s))
settle_reply-response E (some (held, node)) sent status id s i e = (i, as_ended (e _))
