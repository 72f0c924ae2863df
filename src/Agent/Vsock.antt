-- ===== src/Agent/Vsock.antt =====
-- crates/nova-agent/src/vsock.rs, protocol.rs and error.rs: messages over a stream socket, each behind its
-- length in four bytes, the highest first. `serde_json` is given from outside.
use nova_vm.Common.{
  ℕ, zero, suc, ◌+◌, ◌-◌, ◌*◌, ◌/◌, ◌%◌, ◌^◌, Bool, true, false, Option, none, some, List, [], ◌∷◌,
  ◌++◌, Result, ok, err, ◌>>=◌, ok_or, leb, ltb, ◌==◌, if◌then◌else◌, length, take, drop, min,
  String, StringMap,
}
pub mod Frames

-- `AgentError`, without its messages.
pub data AgentError : Type 0 where
  vsock_error exec_error io_error json_error : AgentError

pub data Request : Type 0 where
  exec : List String → StringMap String → Option String → Request
  health_check shutdown version : Request

-- An exit code is an `i32`, here as the 32 bits that stand for it.
pub data Response : Type 0 where
  exec_result : ℕ → String → String → Response
  health_result : Bool → ℕ → ℕ → Response
  version_result : String → Response
  error : String → Response

-- `to_be_bytes` and `from_be_bytes` of a `u32`.
abbrev pub to_be32 : ℕ → List ℕ
to_be32 n = (n / 2 ^ 24 % 256) ∷ (n / 2 ^ 16 % 256) ∷ (n / 2 ^ 8 % 256) ∷ (n % 256) ∷ []

abbrev pub from_be32 : List ℕ → ℕ
from_be32 (a ∷ (b ∷ (c ∷ (d ∷ [])))) = a * 2 ^ 24 + b * 2 ^ 16 + c * 2 ^ 8 + d
from_be32 _ = 0

-- The receiving side of a connected socket. `incoming` is what the peer sends before it closes; `turns` is
-- how each `read` goes: it fails, or gives at most so many bytes beyond one. Past the list it
-- gives what is asked for.
pub record Inbound : Type 0 where
  pub incoming : List ℕ
  pub turns : List (Option ℕ)

-- `libc::read` of at most `wanted` bytes: none at the end of the stream.
unfoldable pub read_turn : ℕ → Inbound → Option (List ℕ) × Inbound
read_turn wanted s = elim s.turns [
  | [] ↦ (some (take wanted s.incoming), record { incoming = drop wanted s.incoming; turns = [] })
  | none ∷ turns ↦ (none, record { incoming = s.incoming; turns = turns })
  | some k ∷ turns ↦ (
    some (take (min wanted (suc k)) s.incoming),
    record { incoming = drop (min wanted (suc k)) s.incoming; turns = turns },
  )
]

-- What a turn of `read_exact` makes of a read, with the loop that goes on.
unfoldable pub read_more :
    (ℕ → Inbound → Result AgentError (List ℕ) × Inbound)
    → ℕ
    → Option (List ℕ)
    → Inbound
    → Result AgentError (List ℕ) × Inbound
read_more next wanted none s = (err io_error, s)
read_more next wanted (some []) s = (err vsock_error, s)
read_more next wanted (some (b ∷ bs)) s =
    let (rest, s') = next (wanted - suc (length bs)) s in
    (rest >>= λ more. ok ((b ∷ bs) ++ more), s')

-- Its loop, on fuel: each turn that goes on gives a byte at least.
unfoldable pub read_loop : ℕ → ℕ → Inbound → Result AgentError (List ℕ) × Inbound
unfolding read_turn read_more
read_loop zero wanted s = (ok [], s)
read_loop (suc fuel) wanted s =
    let (got, s') = read_turn wanted s in
    if wanted == 0 then (ok [], s) else read_more (read_loop fuel) wanted got s'

unfoldable pub read_exact : ℕ → Inbound → Result AgentError (List ℕ) × Inbound
unfolding read_loop
read_exact wanted s = read_loop wanted wanted s

abbrev pub max_message : ℕ
max_message = 1024 * 1024

module _ (from_slice : List ℕ → Option Request) where
  -- The rest of `recv_request`, once the length is read.
  unfoldable pub recv_body : ℕ → Inbound → Result AgentError Request × Inbound
  unfolding read_exact
  recv_body len s =
      if ltb max_message len
      then (err vsock_error, s)
      else (let (buf, s') = read_exact len s in
          (buf >>= λ bytes. ok_or (from_slice bytes) json_error, s'))

  unfoldable pub recv_request : Inbound → Result AgentError Request × Inbound
  unfolding read_exact recv_body
  recv_request s =
      let (len_buf, s') = read_exact 4 s in
      elim len_buf [ ok bytes ↦ recv_body (from_be32 bytes) s' | err e ↦ (err e, s') ]

-- `write_all` where each `libc::write` takes at most so many bytes or fails: what reaches the socket, and
-- whether all did. Past the list a write takes all.
unfoldable pub write_all : List ℕ → List (Option ℕ) → List ℕ × Result AgentError (List (Option ℕ))
write_all [] turns = ([], ok turns)
write_all (b ∷ bs) [] = (b ∷ bs, ok [])
write_all (b ∷ bs) (none ∷ turns) = ([], err io_error)
write_all (b ∷ bs) (some k ∷ turns) =
    let (sent, result) = write_all (drop k (b ∷ bs)) turns in (take k (b ∷ bs) ++ sent, result)

-- The bytes of a message on the wire.
unfoldable pub frame : List ℕ → List ℕ
frame json = to_be32 (length json % 2 ^ 32) ++ json

module _ (to_vec : Response → List ℕ) where
  -- `send_response`, whose two writes follow one another.
  unfoldable pub send_response :
      Response → List (Option ℕ) → List ℕ × Result AgentError (List (Option ℕ))
  unfolding write_all
  send_response response turns =
      let json = to_vec response in
      let (head, result) = write_all (to_be32 (length json % 2 ^ 32)) turns in
      elim result [
        | ok turns' ↦ let (tail, result') = write_all json turns' in (head ++ tail, result')
        | err e ↦ (head, err e)
      ]
