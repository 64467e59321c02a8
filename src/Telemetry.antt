-- ===== src/Telemetry.antt =====
-- src/telemetry.rs: the queue of spans and the task that exports them. What a span holds does not
-- matter here, and what the collector answers is an argument.
pub mod Delivery
pub mod Bounds
use stouter.Prelude.{
  ℕ, suc, ◌+◌, ◌-◌, Bool, true, false, Option, none, some, List, [], ◌∷◌, ◌++◌, is_empty, length,
  ltb, leb, if◌then◌else◌,
}

abbrev pub queue_capacity : ℕ
queue_capacity = 4096

abbrev pub max_batch : ℕ
max_batch = 512

module _ (Span : Type 0) where
  pub data Command : Type 0 where
    span : Span → Command
    flush : Command

  -- The variables of `run_exporter` and the counters, with the requests posted and the flushes
  -- acknowledged.
  pub record Exporter : Type 0 where
    pub batch : List Span
    pub failing : Bool
    pub posts : List (List Span)
    pub exported : ℕ
    pub rejected : ℕ
    pub failed : ℕ
    pub acknowledged : ℕ

  -- The queue with the exporter behind it. `dropped` counts the spans that found it full.
  pub record Pipeline : Type 0 where
    pub queue : List Command
    pub dropped : ℕ
    pub exporter : Exporter

  -- What the program does: a request records a span or asks for a flush, the exporter takes a command
  -- or its interval ticks.
  pub data Event : Type 0 where
    recorded : Span → Event
    flush_sent received ticked : Event

  -- The collector's answer to a post, by the number of posts before: the spans it rejects, or `none`
  -- for a failure.
  abbrev pub Collector : Type 0
  Collector = ℕ → List Span → Option ℕ

module _ {Span : Type 0} where
  unfoldable pub account : Option ℕ → List Span → Exporter Span → Exporter Span
  account (some rejected) spans e = record e {
    batch = [];
    failing = false;
    posts = e.posts ++ spans ∷ [];
    exported = e.exported + (length spans - rejected);
    rejected = e.rejected + rejected;
  }
  account none spans e = record e {
    batch = [];
    failing = true;
    posts = e.posts ++ spans ∷ [];
    failed = e.failed + length spans;
  }

  -- `export`
  unfoldable pub export : Collector Span → Exporter Span → Exporter Span
  unfolding account
  export answers e =
      if is_empty e.batch then e else account (answers (length e.posts) e.batch) e.batch e

  unfoldable pub push_span : Span → Exporter Span → Exporter Span
  push_span s e = record e { batch = e.batch ++ s ∷ [] }

  -- The arms of the loop in `run_exporter` that take a command. The arm for the closed queue is in
  -- `finish`.
  unfoldable pub handle : Collector Span → Command Span → Exporter Span → Exporter Span
  unfolding export push_span
  handle answers (span s) e =
      let pushed = push_span s e in
      if leb max_batch (length pushed.batch) then export answers pushed else pushed
  handle answers flush e =
      let exported = export answers e in
      record exported { acknowledged = suc exported.acknowledged }

  -- `Tracer::record`
  unfoldable pub record_span : Span → Pipeline Span → Pipeline Span
  record_span s p =
      if ltb (length p.queue) queue_capacity
      then record p { queue = p.queue ++ span s ∷ [] }
      else record p { dropped = suc p.dropped }

  -- `Tracer::flush` waits while the queue is full.
  unfoldable pub send_flush : Pipeline Span → Pipeline Span
  send_flush p =
      if ltb (length p.queue) queue_capacity then record p { queue = p.queue ++ flush ∷ [] } else p

  -- `rx.recv()`, by what the queue holds.
  unfoldable pub receive_from : Collector Span → List (Command Span) → Pipeline Span → Pipeline Span
  unfolding handle
  receive_from answers [] p = p
  receive_from answers (command ∷ rest) p = record p {
    queue = rest;
    exporter = handle answers command p.exporter;
  }

  unfoldable pub step : Collector Span → Event Span → Pipeline Span → Pipeline Span
  unfolding record_span send_flush receive_from export
  step answers (recorded s) p = record_span s p
  step answers flush_sent p = send_flush p
  step answers received p = receive_from answers p.queue p
  step answers ticked p = record p { exporter = export answers p.exporter }

  unfoldable pub run : Collector Span → List (Event Span) → Pipeline Span → Pipeline Span
  unfolding step
  run answers [] p = p
  run answers (event ∷ events) p = run answers events (step answers event p)

  -- The end of the loop, once no `Tracer` is left to send: `rx.recv()` still yields what the queue holds,
  -- and then `None`, at which the last batch is exported.
  unfoldable pub finish : Collector Span → List (Command Span) → Exporter Span → Exporter Span
  unfolding handle export
  finish answers [] e = export answers e
  finish answers (command ∷ rest) e = finish answers rest (handle answers command e)

  unfoldable pub close : Collector Span → Pipeline Span → Pipeline Span
  unfolding finish
  close answers p = record p { queue = []; exporter = finish answers p.queue p.exporter }

  -- The exporter at its start.
  abbrev pub empty_exporter : Exporter Span
  empty_exporter = record {
    batch = [];
    failing = false;
    posts = [];
    exported = 0;
    rejected = 0;
    failed = 0;
    acknowledged = 0;
  }

  abbrev pub started : Pipeline Span
  started = record { queue = []; dropped = 0; exporter = empty_exporter }
