-- ===== src/Tests/EyeTests.antt =====
-- The sensor pipeline over two simulated sources and a sink that keeps what it is sent, and the guest's
-- forwarding.
use nova_vm.Common.{
  ℕ, ◌≡◌, refl, true, false, drop, Option, none, some, List, [], ◌∷◌, ◌++◌, ok, replicate, String,
  arith,
}
use nova_vm.Eye.Events.{EventHeader, matches, read_header}
use nova_vm.Eye.Sources.{SimulatedSource, PerfBuffer, simulated, receive_events, poll_cpus}
use nova_vm.Eye.Forward.{Counters, drain_buffers, first, keep, receive-drain_buffers}
use nova_vm.Eye.Pipeline.{TelemetrySink, SensorPipeline, run_cycles, tick}
use nova_vm.Eye.Pipeline.Delivery.{Delivery, run_cycles-Delivery}

-- A sink that keeps the names of the sources.
abbrev Names : Type 0
Names = List String

instance abbrev keeping : TelemetrySink Names
keeping = record { send = λ header raw name seen. (ok tt, seen ++ (name ∷ [])) }

abbrev header : ℕ → EventHeader
header pid = record {
  event_type = 1;
  timestamp_ns = 0;
  pid = pid;
  tid = pid;
  uid = 0;
  gid = 0;
  comm = replicate 16 0;
}

abbrev pipeline : SensorPipeline SimulatedSource Names
pipeline = record {
  sources =
      record { name = "a"; events = (header 7, []) ∷ (header 8, []) ∷ [] }
      ∷ record { name = "b"; events = (header 7, []) ∷ [] }
      ∷ [];
  aggregator = [];
  filter = record { allowed_types = []; allowed_pids = 7 ∷ [] };
  sinks = [] ∷ [];
}

-- Two of the three events pass, one of each source.
two_cycles : run_cycles 2 0 pipeline ≡ (
  ok 2,
  record pipeline {
    sources = record { name = "a"; events = [] } ∷ record { name = "b"; events = [] } ∷ [];
    sinks = ("a" ∷ "b" ∷ []) ∷ [];
  },
)
unfolding run_cycles tick matches
two_cycles = refl

run_cycles-Delivery_example :
    Delivery 2 0 pipeline (run_cycles 2 0 pipeline).1 (run_cycles 2 0 pipeline).0
run_cycles-Delivery_example = run_cycles-Delivery 2 0 pipeline

-- A perf buffer as the list of what waits; none if its read fails.
abbrev Ring : Type 0
Ring = Option (List (List ℕ))

abbrev left : ℕ → Ring → Ring
left n none = none
left n (some ev) = some (drop n ev)

instance abbrev ring_buffer : PerfBuffer Ring
ring_buffer = record { read_events = λ n ring. (first n ring, left n ring) }

-- One buffer that fails, and one with two events and a short record. The first event is lost.
abbrev buffers : List Ring
buffers = none ∷ some (replicate 48 1 ∷ replicate 5 2 ∷ replicate 48 3 ∷ []) ∷ []

abbrev no_counts : Counters
no_counts = record { total_events = 0; total_polls = 0; total_errors = 0 }

receive-drain_buffers_example :
    receive_events (keep (false ∷ true ∷ []) (drain_buffers buffers no_counts).0)
    ≡ (read_header (replicate 48 3), replicate 48 3) ∷ []
unfolding poll_cpus
receive-drain_buffers_example =
    receive-drain_buffers (λ ring. ring) (λ n ring. refl) buffers no_counts (false ∷ true ∷ [])
      (omega arith)

abbrev after_a_day : Counters
after_a_day = record { total_events = 1000000; total_polls = 864000; total_errors = 0 }
