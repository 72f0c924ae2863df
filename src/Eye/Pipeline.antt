-- ===== src/Eye/Pipeline.antt =====
-- crates/nova-eye/src/aggregator.rs and pipeline.rs: sources to aggregator to filter to sinks.
use nova_vm.Common.{
  ℕ, zero, suc, ◌+◌, Bool, true, false, List, [], ◌∷◌, ◌++◌, Result, ok, err, if◌then◌else◌, length,
  String, map,
}
use nova_vm.Eye.Events.{EventHeader, EventFilter, matches, permissive}
use nova_vm.Eye.Sources.{RawEvent, EyeError, SensorSource}
pub mod Delivery

-- An event with the name of its source.
pub record Tagged : Type 0 where
  pub header : EventHeader
  pub raw : List ℕ
  pub source_name : String

-- `EventAggregator`: its pending events.
abbrev pub EventAggregator : Type 0
EventAggregator = List Tagged

unfoldable pub push_event : EventHeader → List ℕ → String → EventAggregator → EventAggregator
push_event header raw source_name a =
    a ++ (record { header = header; raw = raw; source_name = source_name } ∷ [])

-- The inner loop of `poll_sources`.
unfoldable pub push_all : String → List RawEvent → EventAggregator → EventAggregator
unfolding push_event
push_all name [] a = a
push_all name ((header, raw) ∷ events) a = push_all name events (push_event header raw name a)

unfoldable pub pending_count : EventAggregator → ℕ
pending_count a = length a

-- `process_events` with a handler over a state.
unfoldable pub process_events {ℓ} : {H : Type ℓ} → (Tagged → H → H) → EventAggregator → H → H
process_events handle [] h = h
process_events handle (e ∷ es) h = process_events handle es (handle e h)

-- The trait `TelemetrySink`, over the state of a sink.
pub record TelemetrySink (K : Type 0) : Type 0 where
  pub send : EventHeader → List ℕ → String → K → Result EyeError (Unit {0}) × K

-- `SensorPipeline`
pub record SensorPipeline (S K : Type 0) : Type 0 where
  pub sources : List S
  pub aggregator : EventAggregator
  pub filter : EventFilter
  pub sinks : List K

-- `SensorPipeline::new`
abbrev pub new : {S K : Type 0} → SensorPipeline S K
new = record { sources = []; aggregator = []; filter = permissive; sinks = [] }

module _ {S K : Type 0} where
  unfoldable pub add_source : S → SensorPipeline S K → SensorPipeline S K
  add_source s p = record p { sources = p.sources ++ (s ∷ []) }

  unfoldable pub add_sink : K → SensorPipeline S K → SensorPipeline S K
  add_sink k p = record p { sinks = p.sinks ++ (k ∷ []) }

  unfoldable pub set_filter : EventFilter → SensorPipeline S K → SensorPipeline S K
  set_filter f p = record p { filter = f }

-- `PipelineSinkHandler`: its filter stays, the sinks and the count of dispatched events change. A sink
-- that fails is passed over.
module _ {K : Type 0} ⦃sink : TelemetrySink K⦄ where
  unfoldable pub send_to : Tagged → K → K
  send_to e k = (sink.send e.header e.raw e.source_name k).1

  unfoldable pub handle_event : EventFilter → Tagged → List K × ℕ → List K × ℕ
  unfolding send_to
  handle_event f e (sinks, dispatched) =
      if matches f e.header then (map (send_to e) sinks, dispatched + 1) else (sinks, dispatched)

-- The loop of `poll_sources`, which stops at the first source that fails: the number of events so far or
-- the error, the sources and the aggregator.
unfoldable pub poll_sources :
    {S : Type 0} ⦃source : SensorSource S⦄
    → List S
    → ℕ
    → EventAggregator
    → Result EyeError ℕ × List S × EventAggregator
unfolding push_all
poll_sources [] total a = (ok total, [], a)
poll_sources ⦃source⦄ (s ∷ ss) total a =
    let (polled, s') = source.poll_events s in
    elim polled [
      | ok events ↦
          let (result, ss', a') =
            poll_sources ss (total + length events) (push_all (source.name s) events a) in
          (result, s' ∷ ss', a')
      | err e ↦ (err e, s' ∷ ss, a)
    ]

module _ {S K : Type 0} ⦃source : SensorSource S⦄ ⦃sink : TelemetrySink K⦄ where
  unfoldable pub tick : SensorPipeline S K → Result EyeError ℕ × SensorPipeline S K
  unfolding poll_sources process_events handle_event
  tick p =
      let (polled, sources, pending) = poll_sources p.sources 0 p.aggregator in
      elim polled [
        | ok _ ↦
            let (sinks, dispatched) = process_events (handle_event p.filter) pending (p.sinks, 0) in
            (ok dispatched, record p { sources = sources; aggregator = []; sinks = sinks })
        | err e ↦ (err e, record p { sources = sources; aggregator = pending })
      ]

  -- The loop of `run_cycles`.
  unfoldable pub run_cycles : ℕ → ℕ → SensorPipeline S K → Result EyeError ℕ × SensorPipeline S K
  unfolding tick
  run_cycles zero total p = (ok total, p)
  run_cycles (suc n) total p =
      let (ticked, p') = tick p in
      elim ticked [ ok dispatched ↦ run_cycles n (total + dispatched) p' | err e ↦ (err e, p') ]
