-- ===== src/Eye/Forward.antt =====
-- The poll loop of crates/nova-eye-agent/src/main.rs, which forwards the guest's events to the host in
-- datagrams, and what crates/nova-eye/src/guest_source.rs makes of them.
use native.Mathlib.Nat.{pow-suc}
use nova_vm.Common.{
  ℕ, zero, suc, ◌+◌, ◌/◌, ◌%◌, ◌^◌, ◌≤◌, ◌<◌, ◌≡◌, refl, sym, ap, ap₂, ◌∙◌, Bool, true, false,
  Option, none, some, List, [], ◌∷◌, ◌++◌, ltb, leb, lt→leb, le→leb, leb→le, map, subst,
  Option-cases, if◌then◌else◌, length, take, length-append, Bool-cases, inl, inr, arith,
}
use nova_vm.Eye.Events.{header_size, read_header}
use nova_vm.Eye.Sources.{
  RawEvent, PerfBuffer, receive_buffer, receive_events, keep_events, source_out_bufs, poll_cpus,
}

pub record Counters : Type 0 where
  pub total_events : ℕ
  pub total_polls : ℕ
  pub total_errors : ℕ

-- The events of one buffer: what is sent, and how often.
unfoldable pub forward_read : List (List ℕ) → List (List ℕ)
forward_read [] = []
forward_read (d ∷ ds) =
    let rest = forward_read ds in if leb header_size (length d) then d ∷ rest else rest

-- The buffers for events of a read
abbrev pub agent_out_bufs : ℕ
agent_out_bufs = 32

-- The loops over the probes and their buffers: the datagrams handed to `send_to`, whose outcome is not
-- looked at, the counters, and what is left in the buffers.
module _ {B : Type 0} ⦃perf : PerfBuffer B⦄ where
  unfoldable pub drain_buffers : List B → Counters → List (List ℕ) × Counters × List B
  unfolding forward_read
  drain_buffers [] c = ([], c, [])
  drain_buffers (buf ∷ bufs) c =
      let (read, buf') = perf.read_events agent_out_bufs buf in
      let (sent, counted) : List (List ℕ) × Counters = elim read [
        | none ↦ ([], record c { total_errors = c.total_errors + 1 })
        | some ev ↦
            let sent = forward_read ev in
            (sent, record c { total_events = c.total_events + length sent })
      ] in
      let (more, c', bufs') = drain_buffers bufs counted in (sent ++ more, c', buf' ∷ bufs')

-- A number in decimal digits, as many as the fuel at most. A `u64` has at most 20.
unfoldable pub decimal : ℕ → ℕ → List ℕ
decimal zero n = []
decimal (suc fuel) n =
    let front = decimal fuel (n / 10) in
    if ltb n 10 then (b'0' + n) ∷ [] else front ++ ((b'0' + n % 10) ∷ [])

-- "NOVA-EYE-HB:polls=", ",events=" and ",errors="
abbrev polls_label : List ℕ
polls_label =
    b'N' ∷ b'O' ∷ b'V' ∷ b'A' ∷ b'-' ∷ b'E' ∷ b'Y' ∷ b'E' ∷ b'-' ∷ b'H' ∷ b'B' ∷ b':' ∷ b'p' ∷ b'o'
    ∷ b'l' ∷ b'l' ∷ b's' ∷ b'=' ∷ []

abbrev events_label : List ℕ
events_label = b',' ∷ b'e' ∷ b'v' ∷ b'e' ∷ b'n' ∷ b't' ∷ b's' ∷ b'=' ∷ []

abbrev errors_label : List ℕ
errors_label = b',' ∷ b'e' ∷ b'r' ∷ b'r' ∷ b'o' ∷ b'r' ∷ b's' ∷ b'=' ∷ []

unfoldable pub heartbeat : Counters → List ℕ
heartbeat c =
    polls_label
    ++ (decimal 20 c.total_polls
        ++ (events_label
            ++ (decimal 20 c.total_events ++ (errors_label ++ decimal 20 c.total_errors))))

-- One turn of the loop; `due` says whether five seconds have passed since the last heartbeat.
module _ {B : Type 0} ⦃perf : PerfBuffer B⦄ where
  unfoldable pub turn : List B → Bool → Counters → List (List ℕ) × Counters × List B
  unfolding drain_buffers heartbeat
  turn bufs due c =
      let (sent, c', bufs') = drain_buffers bufs c in
      let c'' = record c' { total_polls = c'.total_polls + 1 } in
      (if due then sent ++ (heartbeat c'' ∷ []) else sent, c'', bufs')

take-all : {A : Type 0} (n : ℕ) (xs : List A) → length xs ≤ n → take n xs ≡ xs
take-all zero [] h = refl
take-all zero (x ∷ xs) h = absurd (omega arith)
take-all (suc n) [] h = refl
take-all (suc n) (x ∷ xs) h = ap (λ t. x ∷ t) (take-all n xs (omega arith))

-- Which of the packets arrive: those at the places that say so.
abbrev pub keep : {A : Type 0} → List Bool → List A → List A
keep [] xs = []
keep (b ∷ bs) [] = []
keep (b ∷ bs) (x ∷ xs) = if b then x ∷ keep bs xs else keep bs xs

-- Each event is at most as long as the receiver's buffer.
abbrev AllShort : List (List ℕ) → Type 0
AllShort [] = Unit {0}
AllShort (d ∷ ds) = (length d ≤ receive_buffer) × AllShort ds

-- As documented of `read_events`: the events that wait, in order, as many as there are buffers for
abbrev pub first : ℕ → Option (List (List ℕ)) → Option (List (List ℕ))
first n none = none
first n (some ev) = some (take n ev)

-- No buffer has more waiting than one read takes.
abbrev pub AllRead : {B : Type 0} → (B → Option (List (List ℕ))) → List B → Type 0
AllRead waiting [] = Unit {0}
AllRead waiting (buf ∷ bufs) =
    elim (waiting buf) [ none ↦ Unit {0} | some ev ↦ (length ev ≤ agent_out_bufs) × AllShort ev ]
    × AllRead waiting bufs

-- Packets that are each as long as an event, and no longer than the receiver's buffer
abbrev AllEvents : List (List ℕ) → Type 0
AllEvents [] = Unit {0}
AllEvents (d ∷ ds) = (header_size ≤ length d) × (length d ≤ receive_buffer) × AllEvents ds

abbrev parsed : List ℕ → RawEvent
parsed d = (read_header d, d)

receive-AllEvents : (ds : List (List ℕ)) → AllEvents ds → receive_events ds ≡ map parsed ds
unfolding receive_events
receive-AllEvents [] h = refl
receive-AllEvents (d ∷ ds) h =
    rw (take-all receive_buffer d h.1)
      (rw (le→leb header_size (length d) h.0) (ap (λ t. parsed d ∷ t) (receive-AllEvents ds h.2)))

forward_read-AllEvents : (ds : List (List ℕ)) → AllShort ds → AllEvents (forward_read ds)
unfolding forward_read
forward_read-AllEvents [] h = tt
forward_read-AllEvents (d ∷ ds) h = elim (Bool-cases (leb header_size (length d))) [
  | inl y ↦ rw y (leb→le header_size (length d) y, h.0, forward_read-AllEvents ds h.1)
  | inr y ↦ rw y (forward_read-AllEvents ds h.1)
]

keep-AllEvents : (bs : List Bool) (ds : List (List ℕ)) → AllEvents ds → AllEvents (keep bs ds)
keep-AllEvents [] ds h = tt
keep-AllEvents (b ∷ bs) [] h = tt
keep-AllEvents (true ∷ bs) (d ∷ ds) h = (h.0, h.1, keep-AllEvents bs ds h.2)
keep-AllEvents (false ∷ bs) (d ∷ ds) h = keep-AllEvents bs ds h.2

append-AllEvents : (xs ys : List (List ℕ)) → AllEvents xs → AllEvents ys → AllEvents (xs ++ ys)
append-AllEvents [] ys h k = k
append-AllEvents (x ∷ xs) ys h k = (h.0, h.1, append-AllEvents xs ys h.2 k)

keep-map :
    {A B : Type 0}
    → (f : A → B) (bs : List Bool) (xs : List A) → keep bs (map f xs) ≡ map f (keep bs xs)
keep-map f [] xs = refl
keep-map f (b ∷ bs) [] = refl
keep-map f (true ∷ bs) (x ∷ xs) = ap (λ t. f x ∷ t) (keep-map f bs xs)
keep-map f (false ∷ bs) (x ∷ xs) = keep-map f bs xs

append-map : {A B : Type 0} → (f : A → B) (xs ys : List A) → map f (xs ++ ys) ≡ map f xs ++ map f ys
append-map f [] ys = refl
append-map f (x ∷ xs) ys = ap (λ t. f x ∷ t) (append-map f xs ys)

keep_events-forward_read : (ds : List (List ℕ)) → keep_events ds ≡ map parsed (forward_read ds)
unfolding keep_events forward_read
keep_events-forward_read [] = refl
keep_events-forward_read (d ∷ ds) = elim (Bool-cases (leb header_size (length d))) [
  | inl y ↦ rw y (ap (λ t. parsed d ∷ t) (keep_events-forward_read ds))
  | inr y ↦ rw y (keep_events-forward_read ds)
]

module _ {B : Type 0} ⦃perf : PerfBuffer B⦄ (waiting : B → Option (List (List ℕ)))
    (reads : (n : ℕ) (buf : B) → (perf.read_events n buf).0 ≡ first n (waiting buf)) where
  -- Where a read takes all that waits, a read of any larger number gives the same.
  read_whole :
      (n : ℕ) (buf : B) (ev : List (List ℕ))
      → waiting buf ≡ some ev
      → length ev ≤ n
      → (perf.read_events n buf).0 ≡ some ev
  read_whole n buf ev w h = reads n buf ∙ rw w (ap some (take-all n ev h))

  read_none : (n : ℕ) (buf : B) → waiting buf ≡ none → (perf.read_events n buf).0 ≡ none
  read_none n buf w = reads n buf ∙ rw w refl

  -- What is forwarded is what a local source gives.
  drain_buffers-poll_cpus :
      (bufs : List B) (c : Counters)
      → AllRead waiting bufs
      → AllEvents (drain_buffers bufs c).0
        × ((poll_cpus bufs).0 ≡ map parsed (drain_buffers bufs c).0)
  unfolding drain_buffers poll_cpus
  drain_buffers-poll_cpus [] c h = (tt, refl)
  drain_buffers-poll_cpus (buf ∷ bufs) c h = elim (Option-cases (waiting buf)) [
    | inl w ↦
        let here = read_none agent_out_bufs buf w in
        let there = read_none source_out_bufs buf w in
        rw here (rw there (drain_buffers-poll_cpus bufs _ h.1))
    | inr (ev, w) ↦
        let short : (length ev ≤ agent_out_bufs) × AllShort ev =
          subst
            (λ r. elim r [ none ↦ Unit {0} | some ev ↦ (length ev ≤ agent_out_bufs) × AllShort ev ])
            w h.0 in
        let here = read_whole agent_out_bufs buf ev w short.0 in
        let there = read_whole source_out_bufs buf ev w (omega (arith, short.0)) in
        let sent = forward_read ev in
        let rest =
          drain_buffers-poll_cpus bufs (record c { total_events = c.total_events + length sent })
            h.1 in
        rw here (
          rw there (
            append-AllEvents sent _ (forward_read-AllEvents ev short.1) rest.0,
            ap₂ (λ xs ys. xs ++ ys) (keep_events-forward_read ev) rest.1
                ∙ sym (append-map parsed sent _),
          ))
  ]

  -- The host receives, of the events that a guest forwards in a poll, those whose datagrams arrive, in
  -- the order sent, and nothing else: as many of the same headers and bytes as a local source would
  -- give that polls the same buffers. This is so where no buffer has more than the 32 events waiting
  -- that the agent reads of it at a time (a local source reads 64), and no event is longer than the
  -- 4096 bytes of the receiver. `arrives` says of each datagram whether it does; one that `send_to`
  -- refuses or that UDP loses does not, and none is repeated or overtaken. A buffer whose read fails
  -- gives neither side anything.
  pub receive-drain_buffers :
      (bufs : List B) (c : Counters) (arrives : List Bool)
      → AllRead waiting bufs
      → receive_events (keep arrives (drain_buffers bufs c).0) ≡ keep arrives (poll_cpus bufs).0
  receive-drain_buffers bufs c arrives h =
      let (events, same) = drain_buffers-poll_cpus bufs c h in
      receive-AllEvents (keep arrives (drain_buffers bufs c).0)
        (keep-AllEvents arrives (drain_buffers bufs c).0 events)
      ∙ sym (keep-map parsed arrives (drain_buffers bufs c).0)
      ∙ ap (keep arrives) (sym same)

length-decimal_le : (fuel n : ℕ) → length (decimal fuel n) ≤ fuel
unfolding decimal
length-decimal_le zero n = omega arith
length-decimal_le (suc fuel) n = ground (
  arith,
  length-append (decimal fuel (n / 10)) ((b'0' + n % 10) ∷ []),
  length-decimal_le fuel (n / 10),
)

one_le_pow : (k : ℕ) → 1 ≤ 10 ^ k
one_le_pow zero = omega arith
one_le_pow (suc k) = omega (arith, pow-suc 10 k, one_le_pow k)

length-decimal_ge : (fuel k n : ℕ) → k < fuel → 10 ^ k ≤ n → k < length (decimal fuel n)
unfolding decimal
length-decimal_ge zero k n lt h = elim lt [ ]
length-decimal_ge (suc fuel) zero n lt h =
    ground (arith, length-append (decimal fuel (n / 10)) ((b'0' + n % 10) ∷ []))
length-decimal_ge (suc fuel) (suc k) n lt h =
    let power = pow-suc 10 k in
    let big : 10 ^ k ≤ n / 10 = omega (arith, power) in
    let large : ltb n 10 ≡ false = ground (arith, power, one_le_pow k) in
    rw large (
      omega (
        arith,
        length-append (decimal fuel (n / 10)) ((b'0' + n % 10) ∷ []),
        length-decimal_ge fuel k (n / 10) (omega arith) big,
      ))

some_digit : (n : ℕ) → 0 < length (decimal 20 n)
unfolding decimal
some_digit n = ground (arith, length-append (decimal 19 (n / 10)) ((b'0' + n % 10) ∷ []))

length-decimal_lt : (fuel k n : ℕ) → n < 10 ^ suc k → length (decimal fuel n) ≤ suc k
unfolding decimal
length-decimal_lt zero k n h = omega arith
length-decimal_lt (suc fuel) zero n h = ground arith
length-decimal_lt (suc fuel) (suc k) n h = ground (
  arith,
  pow-suc 10 (suc k),
  length-append (decimal fuel (n / 10)) ((b'0' + n % 10) ∷ []),
  length-decimal_lt fuel k (n / 10),
)

length-heartbeat :
    (c : Counters)
    → length (heartbeat c)
      ≡ 34
        + (length (decimal 20 c.total_polls)
            + (length (decimal 20 c.total_events) + length (decimal 20 c.total_errors)))
unfolding heartbeat
length-heartbeat c =
    let errors = decimal 20 c.total_errors in
    let events = decimal 20 c.total_events in
    omega (
      arith,
      length-append (decimal 20 c.total_polls)
          (events_label ++ (events ++ (errors_label ++ errors))),
      length-append events (errors_label ++ errors),
    )

-- What the host makes of a heartbeat depends on its length alone.
receive-heartbeat :
    (c : Counters)
    → receive_events (heartbeat c ∷ []) ≡ (
        if leb header_size (length (heartbeat c))
        then (read_header (heartbeat c), heartbeat c) ∷ []
        else [])
unfolding receive_events
receive-heartbeat c =
    rw
      (take-all receive_buffer (heartbeat c) (
        omega (
          arith,
          length-heartbeat c,
          length-decimal_le 20 c.total_polls,
          length-decimal_le 20 c.total_events,
          length-decimal_le 20 c.total_errors,
        )))
      refl

-- A heartbeat grows with its counters. The host drops it while all three are below 10,000; but once there
-- have been 100,000 polls and a million events, it is as long as an event, and the host takes it for
-- one.
pub heartbeat_received :
    (c : Counters)
    → (c.total_polls < 10 ^ 4
        → c.total_events < 10 ^ 4
        → c.total_errors < 10 ^ 4
        → receive_events (heartbeat c ∷ []) ≡ [])
      × (10 ^ 5 ≤ c.total_polls
          → 10 ^ 6 ≤ c.total_events
          → receive_events (heartbeat c ∷ []) ≡ (read_header (heartbeat c), heartbeat c) ∷ [])
heartbeat_received c = (
  λ p e r.
      let short = lt→leb header_size (length (heartbeat c)) (
        omega (
          arith,
          length-heartbeat c,
          length-decimal_lt 20 3 c.total_polls p,
          length-decimal_lt 20 3 c.total_events e,
          length-decimal_lt 20 3 c.total_errors r,
        )) in
      receive-heartbeat c ∙ rw short refl,
  λ p e.
      let long = le→leb header_size (length (heartbeat c)) (
        omega (
          arith,
          length-heartbeat c,
          length-decimal_ge 20 5 c.total_polls (omega arith) p,
          length-decimal_ge 20 6 c.total_events (omega arith) e,
          some_digit c.total_errors,
        )) in
      receive-heartbeat c ∙ rw long refl,
)
