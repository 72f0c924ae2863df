-- ===== src/Eye/Events.antt =====
-- crates/nova-eye-common/src/events.rs and crates/nova-eye/src/filter.rs: the header that every event
-- begins with, as `repr(C)` lays it out, and the filter over headers.
use nova_vm.Common.{
  ℕ, ◌-◌, Bool, true, false, ◌&&◌, ◌||◌, List, [], ◌∷◌, ◌++◌, ◌==◌, if◌then◌else◌, length, slice,
  take, ◌≡◌, ◌<◌, ◌^◌, arith, take-append, replicate,
}
use nova_vm.Common.Bytes.{to_le, from_le, from_le-to_le}

pub record EventHeader : Type 0 where
  pub event_type : ℕ
  pub timestamp_ns : ℕ
  pub pid : ℕ
  pub tid : ℕ
  pub uid : ℕ
  pub gid : ℕ
  pub comm : List ℕ

abbrev pub max_comm_len : ℕ
max_comm_len = 16

-- `size_of::<EventHeader>()`: four bytes of padding stand before the timestamp.
abbrev pub header_size : ℕ
header_size = 48

-- `header_to_bytes`, whatever the four bytes of padding hold.
unfoldable pub header_to_bytes : List ℕ → EventHeader → List ℕ
header_to_bytes pad h =
    to_le 4 h.event_type
    ++ (pad
        ++ (to_le 8 h.timestamp_ns
            ++ (to_le 4 h.pid ++ (to_le 4 h.tid ++ (to_le 4 h.uid ++ (to_le 4 h.gid ++ h.comm))))))

-- `ptr::read_unaligned` of a header at the front of a buffer.
unfoldable pub read_header : List ℕ → EventHeader
read_header bs = record {
  event_type = from_le (slice bs 0 4);
  timestamp_ns = from_le (slice bs 8 8);
  pid = from_le (slice bs 16 4);
  tid = from_le (slice bs 20 4);
  uid = from_le (slice bs 24 4);
  gid = from_le (slice bs 28 4);
  comm = slice bs 32 16;
}

-- `make_header`: the first 16 bytes of the command's name, padded with zeros.
unfoldable pub make_header : ℕ → ℕ → ℕ → List ℕ → EventHeader
make_header now event_type pid comm = record {
  event_type = event_type;
  timestamp_ns = now;
  pid = pid;
  tid = pid;
  uid = 1000;
  gid = 1000;
  comm = take 16 comm ++ replicate (16 - length comm) 0;
}

-- `comm_str`, as bytes: up to the first zero.
unfoldable pub comm_str : List ℕ → List ℕ
comm_str [] = []
comm_str (b ∷ bs) = if b == 0 then [] else b ∷ comm_str bs

-- `HashSet<u32>`, in the order of insertion.
unfoldable pub contains : List ℕ → ℕ → Bool
contains [] a = false
contains (x ∷ xs) a = (x == a) || contains xs a

unfoldable pub insert_once : ℕ → List ℕ → List ℕ
unfolding contains
insert_once a xs = if contains xs a then xs else xs ++ (a ∷ [])

abbrev pub is_empty : List ℕ → Bool
is_empty [] = true
is_empty (x ∷ xs) = false

pub record EventFilter : Type 0 where
  pub allowed_types : List ℕ
  pub allowed_pids : List ℕ

-- `EventFilter::new`
abbrev pub permissive : EventFilter
permissive = record { allowed_types = []; allowed_pids = [] }

unfoldable pub allow_type : ℕ → EventFilter → EventFilter
unfolding insert_once
allow_type t f = record f { allowed_types = insert_once t f.allowed_types }

unfoldable pub allow_pid : ℕ → EventFilter → EventFilter
unfolding insert_once
allow_pid pid f = record f { allowed_pids = insert_once pid f.allowed_pids }

unfoldable pub matches : EventFilter → EventHeader → Bool
unfolding contains
matches f h =
    (is_empty f.allowed_types || contains f.allowed_types h.event_type)
    && (is_empty f.allowed_pids || contains f.allowed_pids h.pid)

-- A header whose fields fit their widths.
pub record Fits (h : EventHeader) : Type 0 where
  pub type_fits : h.event_type < 2 ^ 32
  pub time_fits : h.timestamp_ns < 2 ^ 64
  pub pid_fits : h.pid < 2 ^ 32
  pub tid_fits : h.tid < 2 ^ 32
  pub uid_fits : h.uid < 2 ^ 32
  pub gid_fits : h.gid < 2 ^ 32
  pub comm_fits : length h.comm ≡ max_comm_len

take_comm : (comm rest : List ℕ) → length comm ≡ 16 → take 16 (comm ++ rest) ≡ comm
take_comm comm rest e = rw e at (take-append comm rest)

-- A header is read back from its bytes, whatever its padding holds and whatever follows.
pub read_header-header_to_bytes :
    (a b c d : ℕ) (h : EventHeader) (rest : List ℕ)
    → Fits h
    → read_header (header_to_bytes (a ∷ b ∷ c ∷ d ∷ []) h ++ rest) ≡ h
unfolding read_header header_to_bytes
read_header-header_to_bytes a b c d h rest f = ground (
  arith,
  from_le-to_le 4 h.event_type f.type_fits,
  from_le-to_le 8 h.timestamp_ns f.time_fits,
  from_le-to_le 4 h.pid f.pid_fits,
  from_le-to_le 4 h.tid f.tid_fits,
  from_le-to_le 4 h.uid f.uid_fits,
  from_le-to_le 4 h.gid f.gid_fits,
  take_comm h.comm rest f.comm_fits,
)
