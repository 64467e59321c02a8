-- ===== src/Subscribe/Http/Hops.antt =====
-- The trace that a request of src/subscribe/http.rs carries upstream.
use stouter.Prelude.{
  ℕ, zero, suc, ◌+◌, ◌*◌, ◌-◌, ◌/◌, ◌%◌, ◌<◌, ◌≤◌, Bool, true, false, not, ◌&&◌, ◌||◌, Option, none,
  some, List, [], ◌∷◌, ◌++◌, all, any, leb, ltb, ◌==◌, nat_key, is_empty, length, if◌then◌else◌,
  ◌≡◌, refl, sym, ap, ◌∙◌, arith, All, Bool-cases, Option-cases, inl, inr, if_true, if_false,
  dec_lt,
}
use stouter.Subscribe.Http.Bytes.{Text, to_hex, hex_digit, digit_of}
use stouter.Subscribe.Http.Trace.{
  TraceContext, is_hex_digit, is_hex, is_nonzero, is_valid, from_header, to_header, random_hex,
  new_root, child, Draws, trace_of, upstream_trace, is_sampled, byte_of,
}
use stouter.Subscribe.Http.TraceText.{valid-read, parts-valid}

hex_digit-digit : (n : ℕ) → n < 16 → is_hex_digit (hex_digit n) ≡ true
unfolding is_hex_digit hex_digit
hex_digit-digit n small = ground arith

hex_digit-nonzero : (n : ℕ) → 0 < n → n < 16 → not (hex_digit n == 48) ≡ true
unfolding hex_digit
hex_digit-nonzero n some_of small = ground arith

digits-all : (bytes : List ℕ) → All (λ b. b < 256) bytes → all is_hex_digit (to_hex bytes) ≡ true
unfolding to_hex
digits-all [] small = refl
digits-all (b ∷ bs) small =
    rw
      (
        hex_digit-digit (b / 16) (let s = small.0 in omega arith),
        hex_digit-digit (b % 16) (omega arith),
      )
      (digits-all bs small.1)

length-to_hex : (bytes : List ℕ) → length (to_hex bytes) ≡ length bytes * 2
unfolding to_hex
length-to_hex [] = omega arith
length-to_hex (b ∷ bs) = omega (arith, length-to_hex bs)

byte-nonzero :
    (b : ℕ)
    → b < 256
    → 0 < b
    → (not (hex_digit (b / 16) == 48) || not (hex_digit (b % 16) == 48)) ≡ true
byte-nonzero b small pos = elim (dec_lt 0 (b / 16)) [
  | yes h ↦ rw (hex_digit-nonzero (b / 16) h (omega arith)) refl
  | no h ↦ let e = hex_digit-nonzero (b % 16) (omega arith) (omega arith) in ground arith
]

to_hex-nonzero :
    (bytes : List ℕ)
    → All (λ b. b < 256) bytes
    → any (λ b. not (b == 0)) bytes ≡ true
    → is_nonzero (to_hex bytes) ≡ true
unfolding to_hex
to_hex-nonzero [] small e = absurd (cc)
to_hex-nonzero (b ∷ bs) small e = elim (dec_lt 0 b) [
  | yes h ↦ let z = byte-nonzero b small.0 h in ground arith
  | no h ↦ let z = to_hex-nonzero bs small.1 (ground arith) in ground arith
]

-- Each round of the loop draws `n` bytes.
abbrev pub Bytes : ℕ → List ℕ → Type 0
Bytes n raw = (length raw ≡ n) × All (λ b. b < 256) raw

-- A round draws a byte that is not zero.
abbrev pub Ends : List (List ℕ) → Type 0
Ends draws = any (any (λ b. not (b == 0))) draws ≡ true

id-good :
    (n : ℕ) (raw : List ℕ)
    → Bytes n raw
    → any (λ b. not (b == 0)) raw ≡ true
    → (is_hex (to_hex raw) (n * 2) && is_nonzero (to_hex raw)) ≡ true
unfolding is_hex
id-good n raw drawn e =
    let l : length (to_hex raw) ≡ n * 2 = length-to_hex raw ∙ ap (λ (k : ℕ). k * 2) drawn.0 in
    let d = digits-all raw drawn.1 in let z = to_hex-nonzero raw drawn.1 e in ground arith

abbrev IdOf : ℕ → List (List ℕ) → Type 0
IdOf n draws =
    (id : Text) × (random_hex draws ≡ some id) × ((is_hex id (n * 2) && is_nonzero id) ≡ true)

random_hex-Ends : (n : ℕ) (draws : List (List ℕ)) → All (Bytes n) draws → Ends draws → IdOf n draws
unfolding random_hex is_hex
random_hex-Ends n [] drawn ends = absurd (cc)
random_hex-Ends n (raw ∷ draws) drawn ends = elim (Bool-cases (any (λ b. not (b == 0)) raw)) [
  | inl e ↦ (to_hex raw, if_true (some (to_hex raw)) (random_hex draws) e, id-good n raw drawn.0 e)
  | inr e ↦
      let (id, made, good) = random_hex-Ends n draws drawn.1 (ground arith) in
      (id, if_false (some (to_hex raw)) (random_hex draws) e ∙ made, good)
]

child-valid :
    (c : TraceContext) (id : Text)
    → is_valid c ≡ true
    → (is_hex id 16 && is_nonzero id) ≡ true
    → is_valid (child c id) ≡ true
unfolding is_valid child
child-valid c id v good = ground arith

flags-hex :
    (sampled : Bool) → is_hex (if sampled then b'0' ∷ b'1' ∷ [] else b'0' ∷ b'0' ∷ []) 2 ≡ true
unfolding is_hex is_hex_digit stouter.Prelude.ℕ_discrete
flags-hex true = refl
flags-hex false = refl

new_root-valid :
    (sampled : Bool) (trace_id span_id : Text)
    → (is_hex trace_id 32 && is_nonzero trace_id) ≡ true
    → (is_hex span_id 16 && is_nonzero span_id) ≡ true
    → is_valid (new_root sampled trace_id span_id) ≡ true
unfolding is_valid new_root
new_root-valid sampled trace_id span_id t s = let f = flags-hex sampled in ground arith

new_root-sampled :
    (sampled : Bool) (trace_id span_id : Text)
    → is_sampled (new_root sampled trace_id span_id) ≡ sampled
unfolding is_sampled new_root byte_of digit_of stouter.Prelude.ℕ_discrete
new_root-sampled true trace_id span_id = refl
new_root-sampled false trace_id span_id = refl

-- Where the trace of a request comes from: the client, or the proxy's own decision to sample it.
pub data Origin (sampled : Bool) : Option TraceContext → TraceContext → Type 0 where
  received : {c : TraceContext} → Origin sampled (some c) c
  started : {c : TraceContext} → is_sampled c ≡ sampled → Origin sampled none c

pub record Traced (value : Option Text) (sampled : Bool) (draws : Draws) : Type 0 where
  pub trace : TraceContext
  pub upstream : TraceContext
  pub traced : trace_of value sampled draws ≡ some trace
  pub sent : upstream_trace trace draws ≡ some upstream
  pub origin : Origin sampled (from_header value) trace
  pub same_trace : upstream.trace_id ≡ trace.trace_id
  pub same_flags : upstream.flags ≡ trace.flags
  pub read : from_header (some (to_header upstream)) ≡ some upstream

-- Every identifier is drawn in the end.
pub record Drawn (draws : Draws) : Type 0 where
  pub trace_id : All (Bytes 16) draws.trace_id
  pub span_id : All (Bytes 8) draws.span_id
  pub hop : All (Bytes 8) draws.hop
  pub trace_id_ends : Ends draws.trace_id
  pub span_id_ends : Ends draws.span_id
  pub hop_ends : Ends draws.hop

record Begun (value : Option Text) (sampled : Bool) (draws : Draws) : Type 0 where
  trace : TraceContext
  traced : trace_of value sampled draws ≡ some trace
  origin : Origin sampled (from_header value) trace
  valid : is_valid trace ≡ true

pub header-valid :
    (value : Option Text) {c : TraceContext} → from_header value ≡ some c → is_valid c ≡ true
unfolding from_header
header-valid none e = absurd (cc)
header-valid (some text) e = parts-valid _ e

begin-received :
    (value : Option Text) (sampled : Bool) (draws : Draws) (c : TraceContext)
    → from_header value ≡ some c
    → Begun value sampled draws
unfolding trace_of
begin-received value sampled draws c e = record {
  trace = c;
  traced = rw (trace_of, e) refl;
  origin = rw e received;
  valid = header-valid value e;
}

begin-started :
    (value : Option Text) (sampled : Bool) (draws : Draws)
    → Drawn draws
    → from_header value ≡ none
    → Begun value sampled draws
unfolding trace_of
begin-started value sampled draws d e =
    let (trace_id, p, good) = random_hex-Ends 16 draws.trace_id d.trace_id d.trace_id_ends in
    let (span_id, q, fine) = random_hex-Ends 8 draws.span_id d.span_id d.span_id_ends in
    record {
      trace = new_root sampled trace_id span_id;
      traced = rw (trace_of, e, p, q) refl;
      origin = rw e (started (new_root-sampled sampled trace_id span_id));
      valid = new_root-valid sampled trace_id span_id good fine;
    }

begin :
    (value : Option Text) (sampled : Bool) (draws : Draws) → Drawn draws → Begun value sampled draws
begin value sampled draws d = elim (Option-cases (from_header value)) [
  | inl e ↦ begin-started value sampled draws d e
  | inr (c, e) ↦ begin-received value sampled draws c e
]

-- For every `traceparent` of a request, and for random bytes that are not zero for ever: the request
-- has a trace, the client's if its header is valid and else a new one with the sampling decision; and
-- the header that goes upstream is read by the next hop as the trace with the same id and flags.
pub trace_of-Traced :
    (value : Option Text) (sampled : Bool) (draws : Draws)
    → Drawn draws
    → Traced value sampled draws
unfolding upstream_trace child
trace_of-Traced value sampled draws d =
    let b = begin value sampled draws d in
    let (id, p, good) = random_hex-Ends 8 draws.hop d.hop d.hop_ends in
    record {
      trace = b.trace;
      upstream = child b.trace id;
      traced = b.traced;
      sent = rw (upstream_trace, p) refl;
      origin = b.origin;
      same_trace = refl;
      same_flags = refl;
      read = valid-read (child b.trace id) (child-valid b.trace id b.valid good);
    }
