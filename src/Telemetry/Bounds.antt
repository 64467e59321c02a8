-- ===== src/Telemetry/Bounds.antt =====
-- The sizes of the queue, the batch and the posts of src/telemetry.rs, and its counters.
use stouter.Prelude.{
  ℕ, ◌+◌, ◌≤◌, ◌<◌, true, false, Option, none, some, List, [], ◌∷◌, ◌++◌, is_empty, length, ltb,
  leb, ◌≡◌, refl, ap, ◌∙◌, arith, Bool-cases, inl, inr, length-append, All, All-append, ltb→lt,
}
use stouter.Telemetry.{
  Command, span, flush, Exporter, Pipeline, Event, recorded, flush_sent, received, ticked,
  Collector, account, export, push_span, handle, record_span, send_flush, receive_from, step, run,
  finish, close, queue_capacity, max_batch, started,
}
use stouter.Telemetry.Delivery.{concat, concat-snoc, carried, taken_in, run-carried, close-posts}

module _ {Span : Type 0} where
  -- A post has spans, and not more than a batch may have.
  abbrev pub FullPost : List Span → Type 0
  FullPost spans = (0 < length spans) × (length spans ≤ 512)

  -- The spans that the counters account for.
  abbrev pub settled : Exporter Span → ℕ
  settled e = e.exported + e.rejected + e.failed

  pub record Within (n : ℕ) (e : Exporter Span) : Type 0 where
    pub batch : length e.batch ≤ n
    pub posts : All FullPost e.posts
    pub counted : length (concat e.posts) ≤ settled e

  posted-length :
      (posts : List (List Span)) (x : List Span)
      → length (concat (posts ++ x ∷ [])) ≡ length (concat posts) + length x
  posted-length posts x = ap length (concat-snoc posts x) ∙ length-append (concat posts) x

  account-Within :
      (answer : Option ℕ) (e : Exporter Span)
      → 0 < length e.batch
      → Within 512 e
      → Within 0 (account answer e.batch e)
  unfolding account
  account-Within none e full w = record {
    batch = omega arith;
    posts = All-append FullPost e.posts (e.batch ∷ []) w.posts ((full, w.batch), tt);
    counted = let c = w.counted in let l = posted-length e.posts e.batch in omega arith;
  }
  account-Within (some r) e full w = record {
    batch = omega arith;
    posts = All-append FullPost e.posts (e.batch ∷ []) w.posts ((full, w.batch), tt);
    counted = let c = w.counted in let l = posted-length e.posts e.batch in omega arith;
  }

  empty-length : (x : List Span) → is_empty x ≡ true → length x ≡ 0
  empty-length [] e = refl
  empty-length (s ∷ x) e = absurd (cc)

  full-length : (x : List Span) → is_empty x ≡ false → 0 < length x
  full-length [] e = absurd (cc)
  full-length (s ∷ x) e = omega arith

  export-Within :
      (answers : Collector Span) (e : Exporter Span) → Within 512 e → Within 0 (export answers e)
  unfolding export
  export-Within answers e w = elim (Bool-cases (is_empty e.batch)) [
    | inl t ↦
        rw (export, t)
          (record {
            batch = let l = empty-length e.batch t in omega arith;
            posts = w.posts;
            counted = w.counted;
          })
    | inr t ↦
        rw (export, t)
          (account-Within (answers (length e.posts) e.batch) e (full-length e.batch t) w)
  ]

  wider : {n m : ℕ} (e : Exporter Span) → n ≤ m → Within n e → Within m e
  wider e h w = record {
    batch = let b = w.batch in omega arith;
    posts = w.posts;
    counted = w.counted;
  }

  push_span-Within : (s : Span) (e : Exporter Span) → Within 511 e → Within 512 (push_span s e)
  unfolding push_span
  push_span-Within s e w = record {
    batch = let b = w.batch in omega (arith, length-append e.batch (s ∷ []));
    posts = w.posts;
    counted = w.counted;
  }

  handle-Within :
      (answers : Collector Span) (c : Command Span) (e : Exporter Span)
      → Within 511 e
      → Within 511 (handle answers c e)
  unfolding handle
  handle-Within answers (span s) e w =
      let pushed = push_span-Within s e w in
      elim (Bool-cases (leb max_batch (length (push_span s e).batch))) [
        | inl t ↦
            rw (handle, t)
              (wider (export answers (push_span s e)) (omega arith)
                (export-Within answers (push_span s e) pushed))
        | inr t ↦
            rw (handle, t)
              (record { batch = ground arith; posts = pushed.posts; counted = pushed.counted })
      ]
  handle-Within answers flush e w =
      let x = export-Within answers e (wider e (omega arith) w) in
      record { batch = let b = x.batch in omega arith; posts = x.posts; counted = x.counted }

  pub record Bounded (p : Pipeline Span) : Type 0 where
    pub queue : length p.queue ≤ queue_capacity
    pub exporter : Within 511 p.exporter

  receive-Bounded :
      (answers : Collector Span) (q : List (Command Span)) (p : Pipeline Span)
      → p.queue ≡ q
      → Bounded p
      → Bounded (receive_from answers q p)
  unfolding receive_from
  receive-Bounded answers [] p e b = b
  receive-Bounded answers (c ∷ rest) p e b = record {
    queue = let l = b.queue in let k = ap length e in omega arith;
    exporter = handle-Within answers c p.exporter b.exporter;
  }

  step-Bounded :
      (answers : Collector Span) (event : Event Span) (p : Pipeline Span)
      → Bounded p
      → Bounded (step answers event p)
  unfolding step record_span send_flush
  step-Bounded answers (recorded s) p b = elim (Bool-cases (ltb (length p.queue) queue_capacity)) [
    | inl t ↦
        rw (record_span, t)
          (record {
            queue =
                let l = ltb→lt (length p.queue) queue_capacity t in
                omega (arith, length-append p.queue (span s ∷ []));
            exporter = b.exporter;
          })
    | inr t ↦ rw (record_span, t) (record { queue = b.queue; exporter = b.exporter })
  ]
  step-Bounded answers flush_sent p b = elim (Bool-cases (ltb (length p.queue) queue_capacity)) [
    | inl t ↦
        rw (send_flush, t)
          (record {
            queue =
                let l = ltb→lt (length p.queue) queue_capacity t in
                omega (arith, length-append p.queue (flush ∷ []));
            exporter = b.exporter;
          })
    | inr t ↦ rw (send_flush, t) b
  ]
  step-Bounded answers received p b = receive-Bounded answers p.queue p refl b
  step-Bounded answers ticked p b = record {
    queue = b.queue;
    exporter =
        wider (export answers p.exporter) (omega arith)
          (export-Within answers p.exporter (wider p.exporter (omega arith) b.exporter));
  }

  run-Bounded :
      (answers : Collector Span) (events : List (Event Span)) (p : Pipeline Span)
      → Bounded p
      → Bounded (run answers events p)
  unfolding run
  run-Bounded answers [] p b = b
  run-Bounded answers (event ∷ events) p b =
      run-Bounded answers events (step answers event p) (step-Bounded answers event p b)

  finish-Within :
      (answers : Collector Span) (q : List (Command Span)) (e : Exporter Span)
      → Within 511 e
      → Within 0 (finish answers q e)
  unfolding finish
  finish-Within answers [] e w = export-Within answers e (wider e (omega arith) w)
  finish-Within answers (c ∷ rest) e w =
      finish-Within answers rest (handle answers c e) (handle-Within answers c e w)

  close-Within :
      (answers : Collector Span) (p : Pipeline Span)
      → Bounded p
      → Within 0 (close answers p).exporter
  unfolding close
  close-Within answers p b = finish-Within answers p.queue p.exporter b.exporter

  -- For any order of recorded spans, flushes, ticks and commands taken, and whatever the collector
  -- answers: every span that found room in the queue is posted once, in the order of recording, or
  -- still waits in the batch or the queue; the queue, the batch and every post keep their limits, no
  -- post is empty, and the counters account for at least every span posted. When the queue is closed
  -- after them, every span that found room is posted, with the same limits, and none is left.
  pub run-delivers :
      (answers : Collector Span) (events : List (Event Span))
      → (carried (run answers events started) ≡ taken_in answers events started)
        × Bounded (run answers events started)
        × (concat (close answers (run answers events started)).exporter.posts
            ≡ taken_in answers events started)
        × Within 0 (close answers (run answers events started)).exporter
  run-delivers answers events =
      let bounded = run-Bounded answers events started (record {
        queue = omega arith;
        exporter = record { batch = omega arith; posts = tt; counted = omega arith };
      }) in
      (
        run-carried answers events started,
        bounded,
        close-posts answers (run answers events started) ∙ run-carried answers events started,
        close-Within answers (run answers events started) bounded,
      )
