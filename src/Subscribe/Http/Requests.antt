-- ===== src/Subscribe/Http/Requests.antt =====
-- Requests in src/subscribe/http.rs: their bodies, and when one may be sent again.
use stouter.Prelude.{
  ◌*◌, ℕ, String, Bool, true, false, ◌||◌, Option, none, some, ltb, ◌==◌, string_key, nat_key,
  if◌then◌else◌,
}

-- `RequestBody`: buffered, or a stream that is still there or already used.
pub data RequestBody : Type 0 where
  replayable : RequestBody
  stream : Bool → RequestBody

unfoldable pub is_replayable : RequestBody → Bool
is_replayable replayable = true
is_replayable (stream there) = false

-- The body after `for_attempt`, or `none` if a stream was used before.
unfoldable pub for_attempt : RequestBody → Option RequestBody
for_attempt replayable = some replayable
for_attempt (stream true) = some (stream false)
for_attempt (stream false) = none

abbrev pub max_buffered_body : ℕ
max_buffered_body = 64 * 1024

-- `RequestBody::prepare`, by the end of the stream, the declared upper bound of its size and whether
-- reading it succeeds.
unfoldable pub prepare : Bool → Option ℕ → Bool → Option RequestBody
prepare true upper readable = some replayable
prepare false none readable = some (stream true)
prepare false (some n) readable =
    if ltb max_buffered_body n
    then some (stream true)
    else if readable
    then some replayable
    else none

unfoldable pub is_retryable_status : ℕ → Bool
is_retryable_status status = status == 502 || status == 503 || status == 504

unfoldable pub is_idempotent : String → Bool
is_idempotent method =
    method == "GET"
    || method == "HEAD"
    || method == "OPTIONS"
    || method == "PUT"
    || method == "DELETE"
    || method == "TRACE"
