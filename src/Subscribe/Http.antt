-- ===== src/Subscribe/Http.antt =====
-- src/subscribe/http.rs: one request to an `http` service. What the nodes answer, the retry budget,
-- the clock and what other requests do to the balancer are arguments.
mod Requests
pub mod Retries
pub mod Endings
pub mod Attempting
pub mod Finishing
pub mod Looping
pub mod Serving
pub mod Choosing
pub mod Tickets
pub mod Bytes
pub mod Hex
pub mod Headers
pub mod Stripping
pub mod Trace
pub mod TraceText
pub mod Hops
pub mod Outgoing
pub mod Forwarding
pub mod Authority
use stouter.Prelude.{
  ◌*◌, get_elem?, ℕ, zero, suc, ◌+◌, min, String, Bool, true, false, not, ◌&&◌, ◌||◌, Option, none,
  some, List, [], ◌∷◌, ◌++◌, Map, filter, is_empty, length, ltb, ◌==◌, string_key, nat_key,
  if◌then◌else◌,
}
unfoldable pub use Requests.*
use stouter.Config.Routes.{labels_match}
use stouter.State.{SharedState}
use stouter.Subscribe.Balancer.{
  Backend, Inner, chosen, all_tried, at_capacity, pick, retain_nodes, drop_slot, record_success,
  record_failure,
}
use stouter.Subscribe.Proxy.{service_backends, prefer_healthy, max_tunnel_attempts}

-- What comes of sending a request to a node: a status, no connection, or another failure.
pub data Answer : Type 0 where
  answered : ℕ → Answer
  not_connected failed : Answer

-- The same, or `none` for silence beyond the service's limit.
abbrev pub Sent : Type 0
Sent = Option Answer

pub data Cause : Type 0 where
  no_route_backend no_backend_reachable circuit_open timeout upstream_error : Cause

-- A node's response, whose slot is still held, or an answer of the proxy's own.
pub data Reply : Type 0 where
  response : ℕ → String → Reply
  error : ℕ → Cause → Reply

-- The world around one request, by the number of attempts made before.
pub record HttpWorld : Type 0 where
  pub picked_at : ℕ → ℕ
  pub failed_at : ℕ → ℕ
  pub meanwhile : ℕ → Inner → Inner
  pub sends : ℕ → String → Answer
  pub exceeds : ℕ → String → ℕ → Bool
  pub makes_uri : String → Bool
  pub withdraws : ℕ → Bool

-- `AttemptLog`, with what came of each request sent.
pub record AttemptLog : Type 0 where
  pub tried : List String
  pub sent : List (String × Sent)

abbrev pub no_attempts : AttemptLog
no_attempts = record { tried = []; sent = [] }

-- The end of the loop: an earlier answer is used in place of an error, and dropped if there is a
-- better one.
unfoldable pub settle_reply : Option (ℕ × String) → Reply → Inner → Reply × Inner
settle_reply none reply s = (reply, s)
settle_reply (some (status, node)) (error code cause) s = (response status node, s)
settle_reply (some (status, node)) (response code id) s = (response code id, drop_slot s node)

unfoldable pub drop_fallback : Option (ℕ × String) → Inner → Inner
drop_fallback none s = s
drop_fallback (some (status, node)) s = drop_slot s node

-- `client.request` under `timeout`, if the backend has a limit.
unfoldable pub send : HttpWorld → ℕ → Option Backend → String → Sent
send w i none id = some (w.sends i id)
send w i (some b) id = elim b.request_timeout [
  | none ↦ some (w.sends i id)
  | some limit ↦ if w.exceeds i id limit then none else some (w.sends i id)
]

abbrev pub unreachable : Reply
unreachable = error 502 no_backend_reachable

-- The loop ends with a reply, or goes on with the body that is left and the answer to fall back on.
pub data Next : Type 0 where
  stop : Reply → Next
  again : RequestBody → Option (ℕ × String) → Next

-- `!is_retryable_status(..) || !is_idempotent(..) || !body.is_replayable() || tried >= max`
unfoldable pub is_final : String → RequestBody → Bool → ℕ → Bool
unfolding is_retryable_status is_idempotent is_replayable
is_final method body last status =
    not (is_retryable_status status)
    || not (is_idempotent method)
    || not (is_replayable body)
    || last

-- What follows from an answer, for the `i`-th attempt on the node `id` whose slot is held.
unfoldable pub judge :
    HttpWorld
    → String
    → Bool
    → ℕ
    → String
    → RequestBody
    → Option (ℕ × String)
    → Inner
    → Sent
    → Next × Inner
unfolding is_final is_replayable drop_fallback
judge w method last i id body fallback s none = (stop (error 504 timeout), drop_slot s id)
judge w method last i id body fallback s (some (answered status)) =
    let s' = record_success s id in
    if is_final method body last status
    then (stop (response status id), s')
    else if not (w.withdraws i)
    then (stop (response status id), s')
    else (again body (some (status, id)), drop_fallback fallback s')
judge w method last i id body fallback s (some not_connected) =
    let s' = drop_slot (record_failure s id (w.failed_at i)).0 id in
    if is_replayable body then (again body fallback, s') else (stop unreachable, s')
judge w method last i id body fallback s (some failed) =
    (stop (error 502 upstream_error), drop_slot s id)

-- The attempt on a chosen backend, with what was sent.
unfoldable pub attempt_on :
    HttpWorld
    → String
    → Bool
    → ℕ
    → Option Backend
    → String
    → RequestBody
    → Option (ℕ × String)
    → Inner
    → (Next × Inner) × List (String × Sent)
unfolding for_attempt send judge
attempt_on w method last i backend id body fallback s =
    let sent = send w i backend id in
    let tried : (Next × Inner) × List (String × Sent) = elim (for_attempt body) [
      | none ↦ ((stop unreachable, drop_slot s id), [])
      | some rest ↦ (judge w method last i id rest fallback s sent, (id, sent) ∷ [])
    ] in
    if w.makes_uri id then tried else ((stop unreachable, drop_slot s id), [])

abbrev pub Result : Type 0
Result = (Reply × Inner) × AttemptLog

-- The loop, with the attempts that are left. `none` is a panic of `pick`.
unfoldable pub attempts :
    HttpWorld
    → String
    → ℕ
    → Inner
    → List Backend
    → RequestBody
    → AttemptLog
    → Option (ℕ × String)
    → Option Result
unfolding settle_reply attempt_on
attempts w method zero s backends body log fallback =
    some (settle_reply fallback unreachable s, log)
attempts w method (suc n) s backends body log fallback =
    let i = length log.tried in
    elim (pick (w.meanwhile i s) backends log.tried (w.picked_at i)) [
      | none ↦ none
      | some (all_tried, s') ↦ some (settle_reply fallback unreachable s', log)
      | some (at_capacity, s') ↦ some (
        settle_reply fallback (if is_empty log.tried then error 503 circuit_open else unreachable)
            s',
        log,
      )
      | some (chosen index id, s') ↦
          let made =
            attempt_on w method (n == 0) i (get_elem? backends index) id body fallback s' in
          let log' : AttemptLog = record {
            tried = log.tried ++ id ∷ [];
            sent = log.sent ++ made.1;
          } in
          elim made.0.0 [
            | stop reply ↦ some (settle_reply fallback reply made.0.1, log')
            | again rest fallback' ↦ attempts w method n made.0.1 backends rest log' fallback'
          ]
    ]

-- `HttpProxy::attempt`; `subset` are the labels of a matched route.
unfoldable pub candidates_of : List Backend → Option (Map String String) → List Backend
unfolding labels_match
candidates_of every none = every
candidates_of every (some labels) = filter (λ b. labels_match b.labels labels) every

abbrev pub is_routed : Option (Map String String) → Bool
is_routed none = false
is_routed (some labels) = true

unfoldable pub attempt :
    HttpWorld
    → ℕ
    → String
    → Inner
    → String
    → SharedState
    → Option (Map String String)
    → RequestBody
    → Option Result
unfolding service_backends prefer_healthy candidates_of attempts
attempt w now method s service_name state subset body =
    let every = service_backends service_name state in
    let candidates = candidates_of every subset in
    let backends = prefer_healthy now candidates service_name state in
    let kept = retain_nodes s every in
    if is_empty candidates && is_routed subset
    then some ((error 503 no_route_backend, kept), no_attempts)
    else attempts w method (min (length backends) max_tunnel_attempts) kept backends body
        no_attempts none
