-- ===== src/Eye/Sources.antt =====
-- crates/nova-eye/src/source.rs, guest_source.rs and bpf_source.rs: where events come from.
use nova_vm.Common.{
  ℕ, Option, none, some, List, [], ◌∷◌, ◌++◌, Result, ok, leb, if◌then◌else◌, length, take, String,
}
use nova_vm.Eye.Events.{EventHeader, header_size, read_header, make_header, header_to_bytes}

-- A header and the whole event.
abbrev pub RawEvent : Type 0
RawEvent = EventHeader × List ℕ

-- `EyeError`, of which only that there was one is looked at.
pub data EyeError : Type 0 where
  load_error map_error event_error io_error : EyeError

-- The trait `SensorSource`, over the state of a source.
pub record SensorSource (S : Type 0) : Type 0 where
  pub poll_events : S → Result EyeError (List RawEvent) × S
  pub name : S → String

-- `SimulatedSource`; a `ReplaySource` is one too, once its file is read.
pub record SimulatedSource : Type 0 where
  pub name : String
  pub events : List RawEvent

unfoldable pub add_raw : EventHeader → List ℕ → SimulatedSource → SimulatedSource
add_raw header raw s = record s { events = s.events ++ ((header, raw) ∷ []) }

-- `add_process_exec`, `add_file_open` and `add_net_connect`, by the number of the event type.
unfoldable pub add_event : List ℕ → ℕ → ℕ → ℕ → List ℕ → SimulatedSource → SimulatedSource
unfolding add_raw
add_event pad now event_type pid comm s =
    let header = make_header now event_type pid comm in
    add_raw header (header_to_bytes pad header) s

instance abbrev pub simulated : SensorSource SimulatedSource
simulated = record {
  poll_events = λ s. (ok s.events, record s { events = [] });
  name = λ s. s.name;
}

-- A `GuestEventSource`: the datagrams that wait at its socket. A receive that fails, or would block, is the
-- end of the list.
pub record GuestEventSource : Type 0 where
  pub source_name : String
  pub waiting : List (List ℕ)

abbrev pub receive_buffer : ℕ
receive_buffer = 4096

-- What the socket hands over of a datagram: as much as the buffer holds.
abbrev pub received : List ℕ → List ℕ
received datagram = take receive_buffer datagram

-- The loop of `poll_events` over the datagrams.
unfoldable pub receive_events : List (List ℕ) → List RawEvent
receive_events [] = []
receive_events (d ∷ ds) =
    let rest = receive_events ds in
    let bytes = received d in
    if leb header_size (length bytes) then (read_header bytes, bytes) ∷ rest else rest

instance abbrev pub guest : SensorSource GuestEventSource
guest = record {
  poll_events = λ s. (ok (receive_events s.waiting), record s { waiting = [] });
  name = λ s. s.source_name;
}

-- A perf buffer of the `aya` library over the state of its ring: `read_events` with so many buffers for
-- the events gives those that it has read, or nothing if it fails.
pub record PerfBuffer (B : Type 0) : Type 0 where
  pub read_events : ℕ → B → Option (List (List ℕ)) × B

unfoldable pub keep_events : List (List ℕ) → List RawEvent
keep_events [] = []
keep_events (d ∷ ds) =
    let rest = keep_events ds in
    if leb header_size (length d) then (read_header d, d) ∷ rest else rest

-- The buffers for events of a poll
abbrev pub source_out_bufs : ℕ
source_out_bufs = 64

-- An `AyaBpfSource` polls the buffer of each CPU; a failed read gives nothing.
module _ {B : Type 0} ⦃perf : PerfBuffer B⦄ where
  unfoldable pub poll_cpus : List B → List RawEvent × List B
  unfolding keep_events
  poll_cpus [] = ([], [])
  poll_cpus (buf ∷ bufs) =
      let (read, buf') = perf.read_events source_out_bufs buf in
      let (events, bufs') = poll_cpus bufs in
      (elim read [ none ↦ events | some ev ↦ keep_events ev ++ events ], buf' ∷ bufs')
