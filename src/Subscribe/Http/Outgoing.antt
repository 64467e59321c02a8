-- ===== src/Subscribe/Http/Outgoing.antt =====
-- The headers that `handle` of src/subscribe/http.rs sends to a node: stripped, with a host and the
-- trace context.
use stouter.Prelude.{
  List-cases, Option, none, some, List, [], ◌∷◌, ◌==◌, nat_key, is_empty, if◌then◌else◌, ◌≡◌, refl,
  sym, inl, inr,
}
use stouter.Subscribe.Http.Bytes.{Text, text_key, codes_dec}
use stouter.Subscribe.Http.Headers.{
  HeaderMap, host, traceparent, first, is_upgrade, strip_hop_by_hop,
}
use stouter.Subscribe.Http.Stripping.{test-same, test-other}
use stouter.Subscribe.Http.Trace.{TraceContext, to_header}

if-same {ℓ} :
    {A : Type ℓ} (n m : Text) (x : A) (f : Text → A) → x ≡ f m → f n ≡ (if n == m then x else f n)
if-same n m x f e = elim (codes_dec n m) [
  | yes p ↦ rw (test-same n m p, p, e) refl
  | no ne ↦ rw (test-other n m ne) refl
]

module _ {H V : Type 0} (headers : HeaderMap H V) where
  -- `headers.get("traceparent")?.to_str().ok()?`
  unfoldable pub trace_value : H → Option Text
  trace_value h = elim (first (headers.get_all h traceparent)) [
    | none ↦ none
    | some value ↦ headers.to_str value
  ]

  unfoldable pub with_host : Option V → H → H
  with_host none h = h
  with_host (some name) h =
      if is_empty (headers.get_all h host) then headers.insert h host name else h

  unfoldable pub with_trace : Option V → H → Option H
  with_trace none h = none
  with_trace (some value) h = some (headers.insert h traceparent value)

  -- The headers after the changes; `none` is a value that `from_static` or `expect` refuses.
  unfoldable pub outgoing : H → Text → TraceContext → Option H
  unfolding strip_hop_by_hop is_upgrade with_host with_trace to_header
  outgoing h service_name upstream = elim (strip_hop_by_hop headers h (is_upgrade headers h)) [
    | none ↦ none
    | some left ↦
        with_trace (headers.from_str (to_header upstream))
          (with_host (headers.from_str service_name) left)
  ]

  -- The host of a request without one is the service's name, if that is a header's value.
  unfoldable pub host_values : Option V → List V → List V
  host_values (some name) [] = name ∷ []
  host_values none [] = []
  host_values name (v ∷ vs) = v ∷ vs

  -- The values under a name in what is sent, by those that are left by the stripping.
  unfoldable pub sent_values : V → Option V → (Text → List V) → Text → List V
  unfolding host_values
  sent_values trace name values n =
      if n == traceparent
      then trace ∷ []
      else if n == host
      then host_values name (values host)
      else values n

  none-values : (vs : List V) → host_values none vs ≡ vs
  unfolding host_values
  none-values [] = refl
  none-values (v ∷ vs) = refl

  hosted-values :
      (name : Option V) (h : H) (n : Text)
      → headers.get_all (with_host name h) n
        ≡ (if n == host then host_values name (headers.get_all h host) else headers.get_all h n)
  unfolding with_host host_values
  hosted-values none h n =
      if-same n host (host_values none (headers.get_all h host)) (headers.get_all h)
        (none-values (headers.get_all h host))
  hosted-values (some name) h n = elim (List-cases (headers.get_all h host)) [
    | inl e ↦
        rw (with_host, e)
          (elim (codes_dec n host) [
            | yes p ↦ rw (test-same n host p, p) (headers.insert_same h host name)
            | no ne ↦
                rw (test-other n host ne) (headers.insert_other h host n name (λ p. ne (sym p)))
          ])
    | inr (v, vs, e) ↦ rw (with_host, e) (if-same n host (v ∷ vs) (headers.get_all h) (sym e))
  ]

  pub sent-values :
      (trace : V) (name : Option V) (h : H) (n : Text)
      → headers.get_all (headers.insert (with_host name h) traceparent trace) n
        ≡ sent_values trace name (headers.get_all h) n
  unfolding sent_values
  sent-values trace name h n = elim (codes_dec n traceparent) [
    | yes e ↦
        rw (test-same n traceparent e, e) (headers.insert_same (with_host name h) traceparent trace)
    | no ne ↦
        rw
          (
            test-other n traceparent ne,
            headers.insert_other (with_host name h) traceparent n trace (λ p. ne (sym p)),
          )
          (hosted-values name h n)
  ]
