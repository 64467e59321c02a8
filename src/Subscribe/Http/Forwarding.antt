-- ===== src/Subscribe/Http/Forwarding.antt =====
-- What a node receives of a request's headers, after `handle` of src/subscribe/http.rs.
use stouter.Prelude.{
  List-cases, ℕ, Bool, true, false, not, ◌&&◌, ◌||◌, Option, none, some, List, [], ◌∷◌, ◌++◌,
  filter, map, ◌==◌, nat_key, is_empty, if◌then◌else◌, ◌≡◌, ◌≢◌, contains, All, refl, sym, ap, ◌∙◌,
  arith, Bool-cases, inl, inr, ◌⊎◌,
}
use stouter.Subscribe.Http.Bytes.{
  Text, text_key, codes_dec, same_head, split_on, trim, trim_start, is_space,
}
use stouter.Subscribe.Http.Headers.{
  HeaderMap, upgrade, connection, traceparent, hop_by_hop, first, pieces, connection_tokens,
  is_upgrade, lower,
}
use stouter.Subscribe.Http.Stripping.{stripped_values, put_back, bare, strip_hop_by_hop-Stripped}
use stouter.Subscribe.Http.Trace.{
  TraceContext, Draws, from_header, to_header, trace_of, upstream_trace,
}
use stouter.Subscribe.Http.TraceText.{header-Printable}
use stouter.Subscribe.Http.Hops.{Drawn, trace_of-Traced, header-valid}
use stouter.Subscribe.Http.Outgoing.{
  trace_value, with_host, with_trace, outgoing, sent_values, sent-values,
}

module _ {H V : Type 0} (headers : HeaderMap H V) where
  -- The values of every name in the headers that are sent.
  abbrev Values : H → V → Option V → V → H → Type 0
  Values h trace name value out =
      (n : Text)
      → headers.get_all out n
        ≡ sent_values headers trace name
            (stripped_values headers
              (put_back headers (is_upgrade headers h) (first (headers.get_all h upgrade)) value)
              (hop_by_hop ++ connection_tokens headers h) h)
            n

  -- The text `upgrade` of `Connection` is read as that token alone.
  tokens-upgrade :
      (out : H) (value : V)
      → headers.get_all out connection ≡ value ∷ []
      → headers.to_str value ≡ some upgrade
      → connection_tokens headers out ≡ upgrade ∷ []
  unfolding connection_tokens pieces split_on trim trim_start is_space lower
      stouter.Prelude.ℕ_discrete
  tokens-upgrade out value e reads = rw (e, pieces, reads) refl

  upgrade-put_back :
      (out : H) (kept value : V)
      → headers.get_all out upgrade ≡ kept ∷ []
      → headers.get_all out connection ≡ value ∷ []
      → headers.to_str value ≡ some upgrade
      → is_upgrade headers out ≡ true
  unfolding is_upgrade codes_dec same_head stouter.Prelude.ℕ_discrete
  upgrade-put_back out kept value u c reads = rw (u, tokens-upgrade out value c reads) refl

  upgrade-gone : (out : H) → headers.get_all out upgrade ≡ [] → is_upgrade headers out ≡ false
  unfolding is_upgrade
  upgrade-gone out e = rw e refl

  upgrade-some :
      (h : H)
      → is_upgrade headers h ≡ true
      → (kept : V) × (first (headers.get_all h upgrade) ≡ some kept)
  unfolding is_upgrade
  upgrade-some h e = elim (List-cases (headers.get_all h upgrade)) [
    | inl q ↦ let g = upgrade-gone h q in absurd (cc)
    | inr (v, vs, q) ↦ (v, rw q refl)
  ]

  -- A request to upgrade stays one, and no other becomes one.
  upgrade-Values :
      (h out : H) (trace value : V) (name : Option V)
      → Values h trace name value out
      → headers.to_str value ≡ some upgrade
      → is_upgrade headers out ≡ is_upgrade headers h
  unfolding sent_values stripped_values put_back bare codes_dec same_head stouter.Prelude.ℕ_discrete
  upgrade-Values h out trace value name values reads = elim (Bool-cases (is_upgrade headers h)) [
    | inl e ↦
        let (kept, q) = upgrade-some h e in
        let u : headers.get_all out upgrade ≡ kept ∷ [] = values upgrade ∙ rw (e, q) refl in
        let c : headers.get_all out connection ≡ value ∷ [] = values connection ∙ rw (e, q) refl in
        upgrade-put_back out kept value u c reads ∙ sym e
    | inr e ↦ upgrade-gone out (values upgrade ∙ rw e refl) ∙ sym e
  ]

  record Sent (h : H) (service_name : Text) (upstream : TraceContext) : Type 0 where
    out : H
    trace : V
    value : V
    sent : outgoing headers h service_name upstream ≡ some out
    trace_reads : headers.to_str trace ≡ some (to_header upstream)
    reads : headers.to_str value ≡ some upgrade
    values : Values h trace (headers.from_str service_name) value out

  send-Sent :
      (h : H) (service_name : Text) (upstream : TraceContext)
      → from_header (some (to_header upstream)) ≡ some upstream
      → Sent h service_name upstream
  unfolding outgoing with_trace
  send-Sent h service_name upstream read =
      let valid = header-valid (some (to_header upstream)) read in
      let (trace, made, trace_reads) =
        headers.printable (to_header upstream) (header-Printable upstream valid) in
      let s = strip_hop_by_hop-Stripped headers h (is_upgrade headers h) in
      let name = headers.from_str service_name in
      record {
        out = headers.insert (with_host headers name s.left) traceparent trace;
        trace = trace;
        value = s.value;
        sent = rw (outgoing, s.stripped, made) refl;
        trace_reads = trace_reads;
        reads = s.reads;
        values = λ n.
            sent-values headers trace name s.left n
            ∙ (λ i. sent_values headers trace name (λ m. s.values m i) n);
      }

  pub record Forwarded (h : H) (service_name : Text) (sampled : Bool) (draws : Draws) : Type 0 where
    pub trace : TraceContext
    pub upstream : TraceContext
    pub out : H
    pub trace_header : V
    pub upgrade_header : V
    pub traced : trace_of (trace_value headers h) sampled draws ≡ some trace
    pub hop : upstream_trace trace draws ≡ some upstream
    pub sent : outgoing headers h service_name upstream ≡ some out
    pub read : from_header (trace_value headers out) ≡ some upstream
    pub upgrades : is_upgrade headers out ≡ is_upgrade headers h
    pub values : Values h trace_header (headers.from_str service_name) upgrade_header out

  read-Sent :
      (out : H) (trace : V) (upstream : TraceContext)
      → headers.get_all out traceparent ≡ trace ∷ []
      → headers.to_str trace ≡ some (to_header upstream)
      → from_header (some (to_header upstream)) ≡ some upstream
      → from_header (trace_value headers out) ≡ some upstream
  unfolding trace_value
  read-Sent out trace upstream e reads read =
      let q : trace_value headers out ≡ some (to_header upstream) =
        rw (trace_value, e, reads) refl in
      ap from_header q ∙ read

  -- For every request's headers, and for random bytes that are not zero for ever: the proxy sends
  -- headers to the node, in which the trace context is read as the request's trace with a span of this
  -- hop; they ask for an upgrade exactly if the request did; and under every name stand the values of
  -- before, but for hop-by-hop names and those that `Connection` lists, the upgrade, the host of a
  -- request without one, and the trace context.
  pub outgoing-Forwarded :
      (h : H) (service_name : Text) (sampled : Bool) (draws : Draws)
      → Drawn draws
      → Forwarded h service_name sampled draws
  unfolding sent_values codes_dec same_head stouter.Prelude.ℕ_discrete
  outgoing-Forwarded h service_name sampled draws d =
      let t = trace_of-Traced (trace_value headers h) sampled draws d in
      let s = send-Sent h service_name t.upstream t.read in
      record {
        trace = t.trace;
        upstream = t.upstream;
        out = s.out;
        trace_header = s.trace;
        upgrade_header = s.value;
        traced = t.traced;
        hop = t.sent;
        sent = s.sent;
        read = read-Sent s.out s.trace t.upstream (s.values traceparent) s.trace_reads t.read;
        upgrades =
            upgrade-Values h s.out s.trace s.value (headers.from_str service_name) s.values s.reads;
        values = s.values;
      }
