-- ===== src/Subscribe/Http/TraceText.antt =====
-- The texts of trace contexts in src/subscribe/http.rs, read back.
use mathlib.Core.List.{reverse, reverse-reverse, reverse-cons}
use stouter.Prelude.{
  ℕ, zero, suc, ◌+◌, ◌*◌, ◌-◌, ◌/◌, ◌%◌, ◌<◌, ◌≤◌, Bool, true, false, not, ◌&&◌, ◌||◌, Option, none,
  some, List, [], ◌∷◌, ◌++◌, all, any, leb, ltb, ◌==◌, nat_key, is_empty, length, if◌then◌else◌,
  ◌≡◌, refl, sym, ap, ◌∙◌, arith, All, All-append, All-map, Bool-cases, inl, inr, if_true, if_false,
}
use stouter.Subscribe.Http.Bytes.{
  Text, text_key, split_on, codes_dec, same_head, trim, trim_start, is_space,
}
use stouter.Subscribe.Http.Trace.{
  TraceContext, is_hex_digit, is_hex, is_valid, context_of, from_parts, from_header, to_header,
}

-- A digit is neither white space nor a separator.
abbrev Plain : ℕ → Type 0
Plain c = (is_space c ≡ false) × ((c == b'-') ≡ false)

digit-Plain : (c : ℕ) → is_hex_digit c ≡ true → Plain c
unfolding is_hex_digit is_space
digit-Plain c e = ground arith

digits-Plain : (x : Text) → all is_hex_digit x ≡ true → All Plain x
digits-Plain [] e = tt
digits-Plain (c ∷ cs) e = (digit-Plain c (ground arith), digits-Plain cs (ground arith))

split_on-piece :
    (x rest : Text) → All Plain x → split_on b'-' (x ++ b'-' ∷ rest) ≡ x ∷ split_on b'-' rest
unfolding split_on
split_on-piece [] rest p = ground arith
split_on-piece (c ∷ cs) rest p = rw (p.0.1, split_on-piece cs rest p.1) refl

split_on-whole : (x : Text) → All Plain x → split_on b'-' x ≡ x ∷ []
unfolding split_on
split_on-whole [] p = refl
split_on-whole (c ∷ cs) p = rw (p.0.1, split_on-whole cs p.1) refl

abbrev NotSpace : ℕ → Type 0
NotSpace c = is_space c ≡ false

All-reverse {κ} : (P : ℕ → Type κ) (x : Text) → All P x → All P (reverse x)
All-reverse P [] a = tt
All-reverse P (c ∷ cs) a =
    rw (reverse-cons c cs) (All-append P (reverse cs) (c ∷ []) (All-reverse P cs a.1) (a.0, tt))

trim_start-plain : (x : Text) → All NotSpace x → trim_start x ≡ x
unfolding trim_start
trim_start-plain [] a = refl
trim_start-plain (c ∷ cs) a = rw a.0 refl

trim-plain : (x : Text) → All NotSpace x → trim x ≡ x
unfolding trim
trim-plain x a =
    rw
      (
        trim_start-plain x a,
        trim_start-plain (reverse x) (All-reverse NotSpace x a),
        reverse-reverse x,
      )
      refl

version-Accepted : (c : TraceContext) → is_valid c ≡ true → context_of (b'0' ∷ b'0' ∷ []) c ≡ some c
unfolding context_of is_hex is_hex_digit codes_dec same_head stouter.Prelude.ℕ_discrete
version-Accepted c v = rw v refl

parts-Accepted :
    (c : TraceContext)
    → is_valid c ≡ true
    → from_parts ((b'0' ∷ b'0' ∷ []) ∷ c.trace_id ∷ c.span_id ∷ c.flags ∷ []) ≡ some c
unfolding from_parts codes_dec same_head stouter.Prelude.ℕ_discrete
parts-Accepted c v = version-Accepted c v

record Digits (c : TraceContext) : Type 0 where
  trace_id : All Plain c.trace_id
  span_id : All Plain c.span_id
  flags : All Plain c.flags

valid-Digits : (c : TraceContext) → is_valid c ≡ true → Digits c
unfolding is_valid is_hex
valid-Digits c v = record {
  trace_id = digits-Plain c.trace_id (ground arith);
  span_id = digits-Plain c.span_id (ground arith);
  flags = digits-Plain c.flags (ground arith);
}

-- What holds of the zeros, the separators and the fields holds of the header.
header-All :
    (P : ℕ → Type 0) (c : TraceContext)
    → P b'0'
    → P b'-'
    → All P c.trace_id
    → All P c.span_id
    → All P c.flags
    → All P (to_header c)
unfolding to_header
header-All P c zero_P dash_P trace_id span_id flags = (
  zero_P,
  (
    zero_P,
    (
      dash_P,
      All-append P c.trace_id (b'-' ∷ (c.span_id ++ (b'-' ∷ c.flags))) trace_id
          (dash_P, All-append P c.span_id (b'-' ∷ c.flags) span_id (dash_P, flags)),
    ),
  ),
)

header-Plain : (c : TraceContext) → Digits c → All NotSpace (to_header c)
unfolding is_space stouter.Prelude.ℕ_discrete
header-Plain c d =
    let spaceless : (x : Text) → All Plain x → All NotSpace x =
      λ x a. All-map Plain NotSpace x (λ n p. p.0) a in
    header-All NotSpace c refl refl (spaceless c.trace_id d.trace_id)
      (spaceless c.span_id d.span_id) (spaceless c.flags d.flags)

abbrev pub Printable : ℕ → Type 0
Printable c = (leb 32 c && leb c 126) ≡ true

digit-Printable : (c : ℕ) → is_hex_digit c ≡ true → Printable c
unfolding is_hex_digit
digit-Printable c e = ground arith

digits-Printable : (x : Text) → all is_hex_digit x ≡ true → All Printable x
digits-Printable [] e = tt
digits-Printable (c ∷ cs) e = (digit-Printable c (ground arith), digits-Printable cs (ground arith))

pub header-Printable : (c : TraceContext) → is_valid c ≡ true → All Printable (to_header c)
unfolding is_valid is_hex
header-Printable c v =
    header-All Printable c refl refl (digits-Printable c.trace_id (ground arith))
      (digits-Printable c.span_id (ground arith)) (digits-Printable c.flags (ground arith))

header-pieces :
    (c : TraceContext)
    → Digits c
    → split_on b'-' (to_header c) ≡ (b'0' ∷ b'0' ∷ []) ∷ c.trace_id ∷ c.span_id ∷ c.flags ∷ []
unfolding to_header is_space stouter.Prelude.ℕ_discrete
header-pieces c d =
    split_on-piece (b'0' ∷ b'0' ∷ []) (c.trace_id ++ (b'-' ∷ (c.span_id ++ (b'-' ∷ c.flags))))
      ((refl, refl), ((refl, refl), tt))
    ∙ ap (λ (r : List Text). (b'0' ∷ b'0' ∷ []) ∷ r)
        (split_on-piece c.trace_id (c.span_id ++ b'-' ∷ c.flags) d.trace_id
          ∙ ap (λ (r : List Text). c.trace_id ∷ r)
              (split_on-piece c.span_id c.flags d.span_id
                ∙ ap (λ (r : List Text). c.span_id ∷ r) (split_on-whole c.flags d.flags)))

pub valid-read : (c : TraceContext) → is_valid c ≡ true → from_header (some (to_header c)) ≡ some c
unfolding from_header
valid-read c v =
    let d = valid-Digits c v in
    ap (λ (t : Text). from_parts (split_on b'-' t)) (trim-plain (to_header c) (header-Plain c d))
    ∙ ap from_parts (header-pieces c d)
    ∙ parts-Accepted c v

if-some {ℓ} :
    {A : Type ℓ} (t : Bool) {x y : A} → (if t then some x else none) ≡ some y → (t ≡ true) × (x ≡ y)
if-some true e = (refl, cc)
if-some false e = absurd (cc)

all_three : (a b c : Bool) → (a && b && c) ≡ true → c ≡ true
all_three a b c e = ground arith

context_of-valid :
    (version : Text) (c : TraceContext) {d : TraceContext}
    → context_of version c ≡ some d
    → is_valid d ≡ true
unfolding context_of
context_of-valid version c e =
    let (t, q) = if-some (is_hex version 2 && not (version == b'f' ∷ b'f' ∷ []) && is_valid c) e in
    rw (← q) (all_three (is_hex version 2) (not (version == b'f' ∷ b'f' ∷ [])) (is_valid c) t)

none-else {ℓ} :
    {A : Type ℓ} (t : Bool) {o : Option A} {y : A} → (if t then none else o) ≡ some y → o ≡ some y
none-else true e = absurd (cc)
none-else false e = e

pub parts-valid :
    (parts : List Text) {c : TraceContext} → from_parts parts ≡ some c → is_valid c ≡ true
unfolding from_parts
parts-valid [] e = absurd (cc)
parts-valid (a ∷ []) e = absurd (cc)
parts-valid (a ∷ b ∷ []) e = absurd (cc)
parts-valid (a ∷ b ∷ c ∷ []) e = absurd (cc)
parts-valid (a ∷ b ∷ c ∷ d ∷ rest) {c = x} e =
    context_of-valid a (record { trace_id = b; span_id = c; flags = d })
      (none-else (a == b'0' ∷ b'0' ∷ [] && not (is_empty rest)) e)
