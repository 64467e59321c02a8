-- ===== src/Telemetry/Delivery.antt =====
-- What becomes of the spans that src/telemetry.rs is given.
use mathlib.Core.List.{append-nil, append_assoc}
use stouter.Prelude.{
  ℕ, Option, none, some, List, [], ◌∷◌, ◌++◌, is_empty, length, ltb, leb, if◌then◌else◌, ◌≡◌, refl,
  sym, ap, ◌∙◌, Bool-cases, inl, inr, true,
}
use stouter.Telemetry.{
  Command, span, flush, Exporter, Pipeline, Event, recorded, flush_sent, received, ticked,
  Collector, account, export, push_span, handle, record_span, send_flush, receive_from, step, run,
  finish, close, queue_capacity, max_batch,
}

module _ {Span : Type 0} where
  abbrev pub concat : List (List Span) → List Span
  concat [] = []
  concat (x ∷ xs) = x ++ concat xs

  abbrev pub spans_of : List (Command Span) → List Span
  spans_of [] = []
  spans_of (span s ∷ rest) = s ∷ spans_of rest
  spans_of (flush ∷ rest) = spans_of rest

  -- The spans that a pipeline was given and keeps or has posted, oldest first.
  abbrev pub held : Exporter Span → List Span
  held e = concat e.posts ++ e.batch

  abbrev pub carried : Pipeline Span → List Span
  carried p = held p.exporter ++ spans_of p.queue

  pub concat-snoc : (xs : List (List Span)) (x : List Span) → concat (xs ++ x ∷ []) ≡ concat xs ++ x
  concat-snoc [] x = append-nil x
  concat-snoc (y ∷ ys) x = ap (λ r. y ++ r) (concat-snoc ys x) ∙ sym (append_assoc y (concat ys) x)

  spans_of-snoc :
      (q : List (Command Span)) (c : Command Span)
      → spans_of (q ++ c ∷ []) ≡ spans_of q ++ spans_of (c ∷ [])
  spans_of-snoc [] c = refl
  spans_of-snoc (span s ∷ q) c = ap (λ r. s ∷ r) (spans_of-snoc q c)
  spans_of-snoc (flush ∷ q) c = spans_of-snoc q c

  -- A post keeps the spans.
  account-held : (answer : Option ℕ) (e : Exporter Span) → held (account answer e.batch e) ≡ held e
  unfolding account
  account-held none e = append-nil (concat (e.posts ++ e.batch ∷ [])) ∙ concat-snoc e.posts e.batch
  account-held (some r) e =
      append-nil (concat (e.posts ++ e.batch ∷ [])) ∙ concat-snoc e.posts e.batch

  export-held : (answers : Collector Span) (e : Exporter Span) → held (export answers e) ≡ held e
  unfolding export
  export-held answers e = elim (Bool-cases (is_empty e.batch)) [
    | inl t ↦ rw (export, t) refl
    | inr t ↦ rw (export, t) (account-held (answers (length e.posts) e.batch) e)
  ]

  push_span-held : (s : Span) (e : Exporter Span) → held (push_span s e) ≡ held e ++ s ∷ []
  unfolding push_span
  push_span-held s e = sym (append_assoc (concat e.posts) e.batch (s ∷ []))

  handle-held :
      (answers : Collector Span) (c : Command Span) (e : Exporter Span)
      → held (handle answers c e) ≡ held e ++ spans_of (c ∷ [])
  unfolding handle
  handle-held answers (span s) e =
      elim (Bool-cases (leb max_batch (length (push_span s e).batch))) [
        | inl t ↦ rw (handle, t) (export-held answers (push_span s e) ∙ push_span-held s e)
        | inr t ↦ rw (handle, t) (push_span-held s e)
      ]
  handle-held answers flush e = export-held answers e ∙ sym (append-nil (held e))

  -- The spans that an event adds: one that is recorded while the queue has room.
  abbrev pub taken : Event Span → Pipeline Span → List Span
  taken (recorded s) p = if ltb (length p.queue) queue_capacity then s ∷ [] else []
  taken flush_sent p = []
  taken received p = []
  taken ticked p = []

  enqueue-carried :
      (p : Pipeline Span) (c : Command Span)
      → held p.exporter ++ spans_of (p.queue ++ c ∷ []) ≡ carried p ++ spans_of (c ∷ [])
  enqueue-carried p c =
      ap (λ r. held p.exporter ++ r) (spans_of-snoc p.queue c)
      ∙ sym (append_assoc (held p.exporter) (spans_of p.queue) (spans_of (c ∷ [])))

  spans_of-cons :
      (c : Command Span) (q : List (Command Span))
      → spans_of (c ∷ q) ≡ spans_of (c ∷ []) ++ spans_of q
  spans_of-cons (span s) q = refl
  spans_of-cons flush q = refl

  receive-carried :
      (answers : Collector Span) (q : List (Command Span)) (p : Pipeline Span)
      → p.queue ≡ q
      → carried (receive_from answers q p) ≡ carried p
  unfolding receive_from
  receive-carried answers [] p e = refl
  receive-carried answers (c ∷ rest) p e =
      let h = held p.exporter in
      ap (λ r. r ++ spans_of rest) (handle-held answers c p.exporter)
      ∙ append_assoc h (spans_of (c ∷ [])) (spans_of rest)
      ∙ ap (λ r. h ++ r) (sym (spans_of-cons c rest))
      ∙ ap (λ r. h ++ spans_of r) (sym e)

  step-carried :
      (answers : Collector Span) (event : Event Span) (p : Pipeline Span)
      → carried (step answers event p) ≡ carried p ++ taken event p
  unfolding step record_span send_flush receive_from
  step-carried answers (recorded s) p = elim (Bool-cases (ltb (length p.queue) queue_capacity)) [
    | inl t ↦ rw (record_span, t) (enqueue-carried p (span s))
    | inr t ↦ rw (record_span, t) (sym (append-nil (carried p)))
  ]
  step-carried answers flush_sent p = elim (Bool-cases (ltb (length p.queue) queue_capacity)) [
    | inl t ↦ rw (send_flush, t) (enqueue-carried p flush)
    | inr t ↦ rw (send_flush, t) (sym (append-nil (carried p)))
  ]
  step-carried answers received p =
      receive-carried answers p.queue p refl ∙ sym (append-nil (carried p))
  step-carried answers ticked p =
      ap (λ r. r ++ spans_of p.queue) (export-held answers p.exporter)
      ∙ sym (append-nil (carried p))

  -- The spans that a run takes in, in their order.
  abbrev pub taken_in : Collector Span → List (Event Span) → Pipeline Span → List Span
  taken_in answers [] p = []
  taken_in answers (event ∷ events) p =
      taken event p ++ taken_in answers events (step answers event p)

  pub run-carried :
      (answers : Collector Span) (events : List (Event Span)) (p : Pipeline Span)
      → carried (run answers events p) ≡ carried p ++ taken_in answers events p
  unfolding run
  run-carried answers [] p = sym (append-nil (carried p))
  run-carried answers (event ∷ events) p =
      run-carried answers events (step answers event p)
      ∙ ap (λ r. r ++ taken_in answers events (step answers event p)) (step-carried answers event p)
      ∙ append_assoc (carried p) (taken event p) (taken_in answers events (step answers event p))

  empty_is_nil : (x : List Span) → is_empty x ≡ true → x ≡ []
  empty_is_nil [] e = refl
  empty_is_nil (s ∷ x) e = absurd (cc)

  account-batch :
      (answer : Option ℕ) (x : List Span) (e : Exporter Span) → (account answer x e).batch ≡ []
  unfolding account
  account-batch none x e = refl
  account-batch (some r) x e = refl

  export-batch : (answers : Collector Span) (e : Exporter Span) → (export answers e).batch ≡ []
  unfolding export
  export-batch answers e = elim (Bool-cases (is_empty e.batch)) [
    | inl t ↦ rw (export, t) (empty_is_nil e.batch t)
    | inr t ↦ rw (export, t) (account-batch (answers (length e.posts) e.batch) e.batch e)
  ]

  finish-posts :
      (answers : Collector Span) (q : List (Command Span)) (e : Exporter Span)
      → concat (finish answers q e).posts ≡ held e ++ spans_of q
  unfolding finish
  finish-posts answers [] e =
      sym (append-nil (concat (export answers e).posts))
      ∙ ap (λ r. concat (export answers e).posts ++ r) (sym (export-batch answers e))
      ∙ export-held answers e
      ∙ sym (append-nil (held e))
  finish-posts answers (c ∷ rest) e =
      finish-posts answers rest (handle answers c e)
      ∙ ap (λ r. r ++ spans_of rest) (handle-held answers c e)
      ∙ append_assoc (held e) (spans_of (c ∷ [])) (spans_of rest)
      ∙ ap (λ r. held e ++ r) (sym (spans_of-cons c rest))

  -- A closed pipeline has posted all that it carried.
  pub close-posts :
      (answers : Collector Span) (p : Pipeline Span)
      → concat (close answers p).exporter.posts ≡ carried p
  unfolding close
  close-posts answers p = finish-posts answers p.queue p.exporter
