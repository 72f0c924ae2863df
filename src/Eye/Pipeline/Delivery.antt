-- ===== src/Eye/Pipeline/Delivery.antt =====
-- What the pipeline of crates/nova-eye/src/pipeline.rs delivers.
use mathlib.Core.List.{append_assoc, append-nil}
use nova_vm.Common.{
  ℕ, zero, suc, ◌+◌, ◌≡◌, refl, sym, ap, ap₂, ◌∙◌, ◌⊎◌, inl, inr, Bool, true, false, List, [], ◌∷◌,
  ◌++◌, Result, ok, err, is_ok, if◌then◌else◌, length, String, map, arith, length-append,
  Bool-cases, Result-cases,
}
use nova_vm.Eye.Events.{EventFilter, matches}
use nova_vm.Eye.Sources.{RawEvent, EyeError, SensorSource}
use nova_vm.Eye.Pipeline.{
  Tagged, EventAggregator, push_event, push_all, process_events, TelemetrySink, SensorPipeline,
  send_to, handle_event, poll_sources, tick, run_cycles,
}

-- A source's events with its name.
unfoldable pub tagged : String → List RawEvent → List Tagged
tagged name [] = []
tagged name ((header, raw) ∷ events) =
    record { header = header; raw = raw; source_name = name } ∷ tagged name events

-- The events that pass a filter.
unfoldable pub passing : EventFilter → List Tagged → List Tagged
passing f [] = []
passing f (e ∷ es) = let rest = passing f es in if matches f e.header then e ∷ rest else rest

-- A sink that is sent these events, one after the other.
unfoldable pub fed : {K : Type 0} ⦃sink : TelemetrySink K⦄ → List Tagged → K → K
fed [] k = k
fed (e ∷ es) k = fed es (send_to e k)

push_all-tagged :
    (name : String) (events : List RawEvent) (a : EventAggregator)
    → push_all name events a ≡ a ++ tagged name events
unfolding push_all push_event tagged
push_all-tagged name [] a = sym (append-nil a)
push_all-tagged name ((header, raw) ∷ events) a =
    push_all-tagged name events _ ∙ append_assoc a _ (tagged name events)

-- A round of polling: the events of the sources before the first that fails, whether none does, and the
-- sources after it.
module _ {S : Type 0} ⦃source : SensorSource S⦄ where
  unfoldable pub given : List S → List Tagged
  unfolding tagged
  given [] = []
  given (s ∷ ss) = elim ((source.poll_events s).0) [
    | ok events ↦ tagged (source.name s) events ++ given ss
    | err e ↦ []
  ]

  unfoldable pub none_fails : List S → Bool
  none_fails [] = true
  none_fails (s ∷ ss) = elim ((source.poll_events s).0) [
    | ok events ↦ none_fails ss
    | err e ↦ false
  ]

  unfoldable pub after : List S → List S
  after [] = []
  after (s ∷ ss) =
      let s' = (source.poll_events s).1 in
      elim ((source.poll_events s).0) [ ok events ↦ s' ∷ after ss | err e ↦ s' ∷ ss ]

  record Round (ss : List S) (total : ℕ) (a : EventAggregator) : Type 0 where
    pending : (poll_sources ss total a).2 ≡ a ++ given ss
    sources : (poll_sources ss total a).1 ≡ after ss
    succeeds : is_ok (poll_sources ss total a).0 ≡ none_fails ss

  poll_sources-Round : (ss : List S) (total : ℕ) (a : EventAggregator) → Round ss total a
  unfolding poll_sources given none_fails after
  poll_sources-Round [] total a = record {
    pending = sym (append-nil a);
    sources = refl;
    succeeds = refl;
  }
  poll_sources-Round (s ∷ ss) total a = elim (Result-cases ((source.poll_events s).0)) [
    | inl (events, e) ↦
        let name = source.name s in
        let rest = poll_sources-Round ss (total + length events) (push_all name events a) in
        record {
          pending =
              rw (e, poll_sources, given)
                (rest.pending
                  ∙ ap (λ b. b ++ given ss) (push_all-tagged name events a)
                  ∙ append_assoc a (tagged name events) (given ss));
          sources =
              rw (e, poll_sources, after) (ap (λ t. (source.poll_events s).1 ∷ t) rest.sources);
          succeeds = rw (e, poll_sources, none_fails) rest.succeeds;
        }
    | inr (x, e) ↦ record {
      pending = rw (e, poll_sources, given) (sym (append-nil a));
      sources = rw (e, poll_sources, after);
      succeeds = rw (e, poll_sources, none_fails);
    }
  ]

  -- All that the sources give in `n` rounds, of which the last is the first with a failure.
  unfoldable pub polled : ℕ → List S → List Tagged
  unfolding given none_fails after
  polled zero ss = []
  polled (suc n) ss =
      let rest = polled n (after ss) in if none_fails ss then given ss ++ rest else given ss

passing-append :
    (f : EventFilter) (es ds : List Tagged) → passing f (es ++ ds) ≡ passing f es ++ passing f ds
unfolding passing
passing-append f [] ds = refl
passing-append f (e ∷ es) ds = ground (arith, passing-append f es ds)

module _ {K : Type 0} ⦃sink : TelemetrySink K⦄ where
  fed-append : (es ds : List Tagged) (k : K) → fed (es ++ ds) k ≡ fed ds (fed es k)
  unfolding fed
  fed-append [] ds k = refl
  fed-append (e ∷ es) ds k = fed-append es ds (send_to e k)

  map-fed :
      (es ds : List Tagged) (ks : List K) → map (fed ds) (map (fed es) ks) ≡ map (fed (es ++ ds)) ks
  map-fed es ds [] = refl
  map-fed es ds (k ∷ ks) = ap₂ (λ x xs. x ∷ xs) (sym (fed-append es ds k)) (map-fed es ds ks)

  map-fed_nil : (ks : List K) → map (fed []) ks ≡ ks
  unfolding fed
  map-fed_nil [] = refl
  map-fed_nil (k ∷ ks) = ap (λ t. k ∷ t) (map-fed_nil ks)

  map-send :
      (e : Tagged) (es : List Tagged) (ks : List K)
      → map (fed es) (map (send_to e) ks) ≡ map (fed (e ∷ es)) ks
  unfolding fed
  map-send e es [] = refl
  map-send e es (k ∷ ks) = ap (λ t. fed es (send_to e k) ∷ t) (map-send e es ks)

  -- Every sink is sent the events that pass, in their order, and these are counted.
  process_events-passing :
      (f : EventFilter) (es : List Tagged) (ks : List K) (n : ℕ)
      → process_events (handle_event f) es (ks, n)
        ≡ (map (fed (passing f es)) ks, n + length (passing f es))
  unfolding process_events handle_event passing
  process_events-passing f [] ks n = ap₂ (λ a b. (a, b)) (sym (map-fed_nil ks)) (omega arith)
  process_events-passing f (e ∷ es) ks n = elim (Bool-cases (matches f e.header)) [
    | inl y ↦ rw y (
        process_events-passing f es (map (send_to e) ks) (n + 1)
        ∙ ap₂ (λ a b. (a, b)) (map-send e (passing f es) ks) (omega arith))
    | inr y ↦ rw y (process_events-passing f es ks n)
  ]

module _ {S K : Type 0} ⦃source : SensorSource S⦄ ⦃sink : TelemetrySink K⦄ where
  -- The pipeline after a round that succeeds, and after one that does not.
  sent : SensorPipeline S K → SensorPipeline S K
  sent p = record p {
    sources = after p.sources;
    aggregator = [];
    sinks = map (fed (passing p.filter (p.aggregator ++ given p.sources))) p.sinks;
  }

  stopped : SensorPipeline S K → SensorPipeline S K
  stopped p = record p { sources = after p.sources; aggregator = p.aggregator ++ given p.sources }

  tick-cases :
      (p : SensorPipeline S K)
      → ((none_fails p.sources ≡ true)
          × (tick p ≡ (ok (length (passing p.filter (p.aggregator ++ given p.sources))), sent p)))
        ⊎ ((none_fails p.sources ≡ false) × (e : EyeError) × (tick p ≡ (err e, stopped p)))
  unfolding tick sent stopped
  tick-cases p =
      let r = poll_sources-Round p.sources 0 p.aggregator in
      let all = p.aggregator ++ given p.sources in
      elim (Result-cases ((poll_sources p.sources 0 p.aggregator).0)) [
        | inl (n, e) ↦ inl (
          sym r.succeeds ∙ ap is_ok e,
          rw (e, tick)
              (rw (r.sources, r.pending)
                (rw (process_events-passing p.filter all p.sinks 0) (
                  ap (λ k. (ok k, sent p)) {x = 0 + length (passing p.filter all)} (omega arith)))),
        )
        | inr (x, e) ↦
            inr (sym r.succeeds ∙ ap is_ok e, x, rw (e, tick) (rw (r.sources, r.pending) refl))
      ]

  -- What the cycles have done with the events that were pending and those that were polled.
  pub record Delivery (n total : ℕ) (p p' : SensorPipeline S K) (r : Result EyeError ℕ)
      : Type 0 where
    pub delivered : List Tagged
    pub conserved : p.aggregator ++ polled n p.sources ≡ delivered ++ p'.aggregator
    pub sinks_fed : p'.sinks ≡ map (fed (passing p.filter delivered)) p.sinks
    pub counted : (m : ℕ) → r ≡ ok m → m ≡ total + length (passing p.filter delivered)
    pub filter_kept : p'.filter ≡ p.filter

  -- A round that succeeds, before what the others do.
  extend :
      (n total : ℕ) (p p' : SensorPipeline S K) (r : Result EyeError ℕ)
      → none_fails p.sources ≡ true
      → Delivery n
          (total + length (passing p.filter (p.aggregator ++ given p.sources)))
          (sent p)
          p'
          r
      → Delivery (suc n) total p p' r
  unfolding polled sent
  extend n total p p' r fine d =
      let all = p.aggregator ++ given p.sources in
      record {
        delivered = all ++ d.delivered;
        conserved = rw fine (
            sym (append_assoc p.aggregator (given p.sources) (polled n (after p.sources)))
            ∙ ap (λ t. all ++ t) d.conserved
            ∙ sym (append_assoc all d.delivered p'.aggregator));
        sinks_fed =
            d.sinks_fed
            ∙ map-fed (passing p.filter all) (passing p.filter d.delivered) p.sinks
            ∙ ap (λ t. map (fed t) p.sinks) (sym (passing-append p.filter all d.delivered));
        counted = λ m h. omega (
          arith,
          d.counted m h,
          ap (length {A = Tagged}) (passing-append p.filter all d.delivered),
          length-append (passing p.filter all) (passing p.filter d.delivered),
        );
        filter_kept = d.filter_kept;
      }

  result : {a b : Result EyeError ℕ × SensorPipeline S K} → a ≡ b → a.0 ≡ b.0
  result e = ap (λ (x : Result EyeError ℕ × SensorPipeline S K). x.0) e

  pipeline : {a b : Result EyeError ℕ × SensorPipeline S K} → a ≡ b → a.1 ≡ b.1
  pipeline e = ap (λ (x : Result EyeError ℕ × SensorPipeline S K). x.1) e

  -- However many cycles run, and whether or not one fails: the events that were pending and those that the
  -- sources give, in their order, are first those delivered and then those still pending. Each sink has
  -- been sent, in that order, exactly the delivered events that pass the filter; on success that is
  -- the number returned. No event is lost, repeated or out of order.
  pub run_cycles-Delivery :
      (n total : ℕ) (p : SensorPipeline S K)
      → Delivery n total p (run_cycles n total p).1 (run_cycles n total p).0
  unfolding run_cycles polled passing stopped
  run_cycles-Delivery zero total p = record {
    delivered = [];
    conserved = append-nil p.aggregator;
    sinks_fed = sym (map-fed_nil p.sinks);
    counted = λ m h. ground (arith, h);
    filter_kept = refl;
  }
  run_cycles-Delivery (suc n) total p = elim (tick-cases p) [
    | inl (fine, e) ↦
        let more = length (passing p.filter (p.aggregator ++ given p.sources)) in
        rw (result e, run_cycles)
          (rw (pipeline e)
            (extend n total p _ _ fine (run_cycles-Delivery n (total + more) (sent p))))
    | inr (bad, x, e) ↦
        rw (result e, run_cycles)
          (rw (pipeline e) (record {
            delivered = [];
            conserved = rw bad refl;
            sinks_fed = sym (map-fed_nil p.sinks);
            counted = λ m h. cc;
            filter_kept = refl;
          }))
  ]
