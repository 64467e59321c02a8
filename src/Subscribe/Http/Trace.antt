-- ===== src/Subscribe/Http/Trace.antt =====
-- `TraceContext` and `random_hex` of src/subscribe/http.rs: the W3C trace context of a request.
use stouter.Prelude.{
  ℕ, ◌+◌, ◌*◌, Bool, false, not, ◌&&◌, ◌||◌, Option, none, some, List, [], ◌∷◌, ◌++◌, all, any, leb,
  ◌==◌, nat_key, is_empty, length, if◌then◌else◌, ◌%◌,
}
use stouter.Subscribe.Http.Bytes.{Text, text_key, split_on, trim, to_hex, digit_of}

pub record TraceContext : Type 0 where
  pub trace_id : Text
  pub span_id : Text
  pub flags : Text

unfoldable pub is_hex_digit : ℕ → Bool
is_hex_digit c = (leb b'0' c && leb c b'9') || (leb b'a' c && leb c b'f')

-- The closure `is_hex` of `from_headers`.
unfoldable pub is_hex : Text → ℕ → Bool
unfolding is_hex_digit
is_hex text len = length text == len && all is_hex_digit text

abbrev pub is_nonzero : Text → Bool
is_nonzero text = any (λ c. not (c == b'0')) text

-- The tests of `valid` on the fields.
unfoldable pub is_valid : TraceContext → Bool
unfolding is_hex
is_valid c =
    is_hex c.trace_id 32
    && is_nonzero c.trace_id
    && is_hex c.span_id 16
    && is_nonzero c.span_id
    && is_hex c.flags 2

unfoldable pub context_of : Text → TraceContext → Option TraceContext
unfolding is_hex is_valid
context_of version c =
    if is_hex version 2 && not (version == b'f' ∷ b'f' ∷ []) && is_valid c then some c else none

unfoldable pub from_parts : List Text → Option TraceContext
unfolding context_of
from_parts [] = none
from_parts (version ∷ []) = none
from_parts (version ∷ trace_id ∷ []) = none
from_parts (version ∷ trace_id ∷ span_id ∷ []) = none
from_parts (version ∷ trace_id ∷ span_id ∷ flags ∷ rest) =
    if version == b'0' ∷ b'0' ∷ [] && not (is_empty rest)
    then none
    else context_of version (record { trace_id = trace_id; span_id = span_id; flags = flags })

-- `TraceContext::from_headers`, by the text of the `traceparent` header, if there is one.
unfoldable pub from_header : Option Text → Option TraceContext
unfolding from_parts trim split_on
from_header none = none
from_header (some value) = from_parts (split_on b'-' (trim value))

unfoldable pub to_header : TraceContext → Text
to_header c = b'0' ∷ b'0' ∷ b'-' ∷ c.trace_id ++ (b'-' ∷ (c.span_id ++ (b'-' ∷ c.flags)))

-- `random_hex`, by the bytes that each round of its loop draws; `none` when the loop goes on.
unfoldable pub random_hex : List (List ℕ) → Option Text
unfolding to_hex
random_hex [] = none
random_hex (raw ∷ draws) =
    if any (λ b. not (b == 0)) raw then some (to_hex raw) else random_hex draws

-- `u8::from_str_radix(.., 16)`, after the sign.
unfoldable pub byte_of : ℕ → Text → Option ℕ
unfolding digit_of
byte_of n [] = some n
byte_of n (c ∷ cs) = elim (digit_of c) [
  | none ↦ none
  | some d ↦ if leb (n * 16 + d) 255 then byte_of (n * 16 + d) cs else none
]

unfoldable pub is_sampled : TraceContext → Bool
unfolding byte_of
is_sampled c = elim c.flags [
  | [] ↦ false
  | sign ∷ [] ↦ elim (byte_of 0 (sign ∷ [])) [ none ↦ false | some f ↦ f % 2 == 1 ]
  | sign ∷ d ∷ ds ↦ elim (byte_of 0 (if sign == b'+' then d ∷ ds else sign ∷ d ∷ ds)) [
    | none ↦ false
    | some f ↦ f % 2 == 1
  ]
]

-- `new_root` and `child`, by what `random_hex` drew.
unfoldable pub new_root : Bool → Text → Text → TraceContext
new_root sampled trace_id span_id = record {
  trace_id = trace_id;
  span_id = span_id;
  flags = if sampled then b'0' ∷ b'1' ∷ [] else b'0' ∷ b'0' ∷ [];
}

unfoldable pub child : TraceContext → Text → TraceContext
child c span_id = record { trace_id = c.trace_id; span_id = span_id; flags = c.flags }

-- What `random_hex` draws for one request.
pub record Draws : Type 0 where
  pub trace_id : List (List ℕ)
  pub span_id : List (List ℕ)
  pub hop : List (List ℕ)

-- The trace of a request in `handle`, and the one that goes upstream.
unfoldable pub trace_of : Option Text → Bool → Draws → Option TraceContext
unfolding from_header random_hex new_root
trace_of value sampled draws = elim (from_header value) [
  | some incoming ↦ some incoming
  | none ↦ elim (random_hex draws.trace_id) [
    | none ↦ none
    | some trace_id ↦ elim (random_hex draws.span_id) [
      | none ↦ none
      | some span_id ↦ some (new_root sampled trace_id span_id)
    ]
  ]
]

unfoldable pub upstream_trace : TraceContext → Draws → Option TraceContext
unfolding random_hex child
upstream_trace trace draws = elim (random_hex draws.hop) [
  | none ↦ none
  | some span_id ↦ some (child trace span_id)
]
