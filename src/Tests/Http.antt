-- ===== src/Tests/Http.antt =====
-- The HTTP proxy of src/subscribe/http.rs on small inputs.
use stouter.Prelude.{
  ℕ, zero, suc, ◌<◌, true, false, none, some, List, [], ◌∷◌, ◌≡◌, ◌≢◌, refl, arith, ◌==◌, nat_key,
  if◌then◌else◌, All, ℕ_discrete,
}
use stouter.Config.Routes.{matches}
use stouter.Subscribe.Http.{
  HttpWorld, answered, replayable, for_attempt, prepare, is_idempotent, is_retryable_status, stream,
}
use stouter.Subscribe.Http.Authority.{node_host, node_id_from_host, node_id_from_host-node_host}
use stouter.Subscribe.Http.Bytes.{
  split_on, trim, trim_start, is_space, codes_dec, same_head, text_key, Text, to_hex, hex_digit,
}
use stouter.Subscribe.Http.Choosing.{select_route}
use stouter.Subscribe.Http.Forwarding.{Forwarded, outgoing-Forwarded}
use stouter.Subscribe.Http.Headers.{
  connection_tokens, pieces, lower, HeaderMap, upgrade, connection,
}
use stouter.Subscribe.Http.Hops.{Drawn, Traced, trace_of-Traced}
use stouter.Subscribe.Http.Tickets.{Selected, select_route-Selected}
use stouter.Subscribe.Http.Trace.{Draws}
use stouter.Tests.Config.{route}

requests_are_buffered_if_small :
    (prepare false (some 65536) true ≡ some replayable)
    × (prepare false (some 65537) true ≡ some (stream true))
    × (prepare false none true ≡ some (stream true))
unfolding prepare
requests_are_buffered_if_small = (refl, refl, refl)

-- "n1", with the host that addresses it
hosts_are_hexadecimal :
    (node_host (b'n' ∷ b'1' ∷ [])
      ≡ b'6' ∷ b'e' ∷ b'3' ∷ b'1' ∷ b'.' ∷ b's' ∷ b't' ∷ b'o' ∷ b'u' ∷ b't' ∷ b'e' ∷ b'r' ∷ [])
unfolding node_host stouter.Subscribe.Http.Authority.chunks stouter.Subscribe.Http.Authority.join
    stouter.Subscribe.Http.Authority.chunks_from to_hex hex_digit
hosts_are_hexadecimal = refl

node_id_from_host-node_host_example :
    node_id_from_host (node_host (b'n' ∷ 255 ∷ [])) ≡ some (b'n' ∷ 255 ∷ [])
node_id_from_host-node_host_example =
    node_id_from_host-node_host (b'n' ∷ 255 ∷ []) (omega arith, (omega arith, tt))

-- The first node answers 503, the second 200.
abbrev world : HttpWorld
world = record {
  picked_at = λ i. i;
  failed_at = λ i. i;
  meanwhile = λ i s. s;
  sends = λ i id. if i == 0 then answered 503 else answered 200;
  exceeds = λ i id limit. false;
  makes_uri = λ id. true;
  withdraws = λ i. true;
}

select_route-Selected_example :
    Selected
      (route "a" ∷ [])
      (λ r. matches r.matches "GET" (b'/' ∷ b'v' ∷ b'1' ∷ []) (λ name. none))
      (λ n. 0)
      (select_route (route "a" ∷ []) "GET" (b'/' ∷ b'v' ∷ b'1' ∷ []) (λ name. none) (λ n. 0))
unfolding stouter.Subscribe.Http.Choosing.total_route_weight
select_route-Selected_example =
    select_route-Selected (route "a" ∷ []) "GET" (b'/' ∷ b'v' ∷ b'1' ∷ []) (λ name. none) (λ n. 0)
      (weighted, tt) (λ n positive. positive)
  where
    weighted : 0 < stouter.Subscribe.Http.Choosing.total_route_weight (route "a").backends
    weighted = omega arith

abbrev bytes : ℕ → List ℕ
bytes zero = []
bytes (suc n) = 7 ∷ bytes n

abbrev draws : Draws
draws = record {
  trace_id = bytes 16 ∷ [];
  span_id = bytes 8 ∷ [];
  hop = (0 ∷ 0 ∷ 0 ∷ 0 ∷ 0 ∷ 0 ∷ 0 ∷ 0 ∷ []) ∷ bytes 8 ∷ [];
}

bytes-small : (n : ℕ) → All (λ b. b < 256) (bytes n)
bytes-small zero = tt
bytes-small (suc n) = (omega arith, bytes-small n)

draws-Drawn : Drawn draws
unfolding ℕ_discrete
draws-Drawn = record {
  trace_id = ((refl, bytes-small 16), tt);
  span_id = ((refl, bytes-small 8), tt);
  hop = ((refl, zeros), ((refl, bytes-small 8), tt));
  trace_id_ends = refl;
  span_id_ends = refl;
  hop_ends = refl;
}
  where
    zeros : All (λ b. b < 256) (0 ∷ 0 ∷ 0 ∷ 0 ∷ 0 ∷ 0 ∷ 0 ∷ 0 ∷ [])
    zeros = (
      omega arith,
      (
        omega arith,
        (
          omega arith,
          (omega arith, (omega arith, (omega arith, (omega arith, (omega arith, tt))))),
        ),
      ),
    )

trace_of-Traced_example : Traced (some (b'0' ∷ [])) true draws
trace_of-Traced_example = trace_of-Traced (some (b'0' ∷ [])) true draws draws-Drawn

-- A map of headers as the list of its entries, whose values are texts.
abbrev Entries : Type 0
Entries = List (Text × Text)

abbrev values_of : Entries → Text → List Text
values_of [] n = []
values_of (e ∷ h) n = let rest = values_of h n in if e.0 == n then e.1 ∷ rest else rest

abbrev without : Entries → Text → Entries
without [] n = []
without (e ∷ h) n = let rest = without h n in if e.0 == n then rest else e ∷ rest

values_of-without_same : (h : Entries) (n : Text) → values_of (without h n) n ≡ []
values_of-without_same [] n = refl
values_of-without_same (e ∷ h) n = ground (arith, values_of-without_same h n)

values_of-without_other :
    (h : Entries) (n m : Text) → n ≢ m → values_of (without h n) m ≡ values_of h m
values_of-without_other [] n m ne = refl
values_of-without_other (e ∷ h) n m ne = ground (arith, values_of-without_other h n m ne)

values_of-put_same : (h : Entries) (n v : Text) → values_of ((n, v) ∷ without h n) n ≡ v ∷ []
values_of-put_same h n v = ground (arith, values_of-without_same h n)

values_of-put_other :
    (h : Entries) (n m v : Text) → n ≢ m → values_of ((n, v) ∷ without h n) m ≡ values_of h m
values_of-put_other h n m v ne = ground (arith, values_of-without_other h n m ne)

abbrev headers : HeaderMap Entries Text
headers = record {
  get_all = values_of;
  remove = without;
  insert = λ h n v. (n, v) ∷ without h n;
  to_str = λ v. some v;
  from_str = λ t. some t;
  remove_same = values_of-without_same;
  remove_other = values_of-without_other;
  insert_same = values_of-put_same;
  insert_other = values_of-put_other;
  printable = λ t p. (t, refl, refl);
}

abbrev request : Entries
request =
    (connection, b'U' ∷ b'p' ∷ b'g' ∷ b'r' ∷ b'a' ∷ b'd' ∷ b'e' ∷ b',' ∷ b'x' ∷ [])
    ∷ (upgrade, b'w' ∷ b's' ∷ [])
    ∷ (b'x' ∷ [], b'1' ∷ [])
    ∷ []

outgoing-Forwarded_example : Forwarded headers request (b'a' ∷ []) true draws
outgoing-Forwarded_example = outgoing-Forwarded headers request (b'a' ∷ []) true draws draws-Drawn

-- "Close, X" names two headers.
connection_tokens_are_trimmed :
    connection_tokens headers
      ((connection, b'C' ∷ b'l' ∷ b'o' ∷ b's' ∷ b'e' ∷ b',' ∷ b' ' ∷ b'X' ∷ []) ∷ [])
    ≡ (b'c' ∷ b'l' ∷ b'o' ∷ b's' ∷ b'e' ∷ []) ∷ (b'x' ∷ []) ∷ []
unfolding connection_tokens pieces split_on trim trim_start is_space lower codes_dec same_head
    ℕ_discrete
connection_tokens_are_trimmed = refl
