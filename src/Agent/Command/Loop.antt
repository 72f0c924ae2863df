-- ===== src/Agent/Command/Loop.antt =====
-- What the agent's loop answers, crates/nova-agent/src/main.rs, over a stream of requests.
use mathlib.Core.List.{append_assoc, append-nil}
use nova_vm.Common.{
  ℕ, zero, suc, ◌+◌, ◌%◌, ◌^◌, ◌≤◌, ◌≡◌, refl, sym, ap, ap₂, ◌∙◌, inl, inr, Bool, true, false,
  Option, none, some, List, [], ◌∷◌, ◌++◌, ok, if◌then◌else◌, length, drop, arith, Bool-cases,
  ok_or,
}
use nova_vm.Agent.Vsock.{
  Request, Response, exec, health_check, shutdown, version, Inbound, recv_request, send_response,
  frame, write_all, max_message, json_error, to_be32,
}
use nova_vm.Agent.Vsock.Frames.{NoneFails, recv_request-frame, send_response-frame}
use nova_vm.Agent.Command.{
  System, HealthMonitor, handle_request, is_shutdown, shut_down, Outcome, after_send, command_loop,
}

-- Writes that do not fail let everything through, and so do those after them.
write_all-NoneFails :
    (bs : List ℕ) (turns : List (Option ℕ))
    → NoneFails turns
    → (left : List (Option ℕ)) × ((write_all bs turns).1 ≡ ok left) × NoneFails left
unfolding write_all
write_all-NoneFails [] turns f = (turns, refl, f)
write_all-NoneFails (b ∷ bs) [] f = ([], refl, tt)
write_all-NoneFails (b ∷ bs) (none ∷ turns) f = absurd f
write_all-NoneFails (b ∷ bs) (some k ∷ turns) f = write_all-NoneFails (drop k (b ∷ bs)) turns f

send_response-NoneFails :
    (to_vec : Response → List ℕ) (r : Response) (turns : List (Option ℕ))
    → NoneFails turns
    → (left : List (Option ℕ)) × (send_response to_vec r turns ≡ (frame (to_vec r), ok left))
      × NoneFails left
unfolding send_response
send_response-NoneFails to_vec r turns f =
    let json = to_vec r in
    let (mid, e, f') = write_all-NoneFails (to_be32 (length json % 2 ^ 32)) turns f in
    let (left, e', f'') = write_all-NoneFails json mid f' in
    let done : (send_response to_vec r turns).1 ≡ ok left = rw (e, send_response) e' in
    (left, ap₂ (λ a b. (a, b)) (send_response-frame to_vec r turns left done) done, f'')

-- A message of the host with the request that it stands for.
abbrev pub Message : Type 0
Message = List ℕ × Request

abbrev pub wire : List Message → List ℕ
wire [] = []
wire ((json, r) ∷ ms) = frame json ++ wire ms

abbrev pub AllDecode : System → List Message → Type 0
AllDecode sys [] = Unit {0}
AllDecode sys ((json, r) ∷ ms) =
    (sys.from_slice json ≡ some r) × (length json ≤ max_message) × AllDecode sys ms

abbrev pub has_shutdown : List Message → Bool
has_shutdown [] = false
has_shutdown ((json, r) ∷ ms) = if is_shutdown r then true else has_shutdown ms

-- The answers, up to that to the first shutdown, and the commands executed on the way.
module _ (sys : System) (uptime : ℕ → ℕ) where
  unfoldable pub answers : ℕ → HealthMonitor → List Message → List Response
  answers turn h [] = []
  answers turn h ((json, r) ∷ ms) =
      let (response, h') = handle_request sys (uptime turn) r h in
      let rest = answers (suc turn) h' ms in response ∷ (if is_shutdown r then [] else rest)

-- The answers on the wire.
unfoldable pub replies : System → List Response → List ℕ
replies sys [] = []
replies sys (r ∷ rs) = frame (sys.to_vec r) ++ replies sys rs

abbrev executed : Request → ℕ
executed (exec command env workdir) = 1
executed health_check = 0
executed shutdown = 0
executed version = 0

unfoldable pub executions : List Message → ℕ
executions [] = 0
executions ((json, r) ∷ ms) =
    let rest = executions ms in executed r + (if is_shutdown r then 0 else rest)

-- The loop has shut down, with these answers sent and these commands counted.
pub record Served (sys : System) (uptime : ℕ → ℕ) (turn : ℕ) (h : HealthMonitor) (ms : List Message)
    (o : Outcome) : Type 0 where
  pub ended : o.ending ≡ shut_down
  pub replied : o.sent ≡ replies sys (answers sys uptime turn h ms)
  pub counted : o.health.commands_executed ≡ h.commands_executed + executions ms

handle_request-executed :
    (sys : System) (t : ℕ) (r : Request) (h : HealthMonitor)
    → (handle_request sys t r h).1.commands_executed ≡ h.commands_executed + executed r
unfolding handle_request
handle_request-executed sys t (exec command env workdir) h = refl
handle_request-executed sys t health_check h = omega arith
handle_request-executed sys t shutdown h = omega arith
handle_request-executed sys t version h = omega arith

module _ (sys : System) (uptime : ℕ → ℕ) (turn : ℕ) (h : HealthMonitor) (json : List ℕ)
    (r : Request) (ms : List Message) where
  replies_last :
      is_shutdown r ≡ true
      → replies sys (answers sys uptime turn h ((json, r) ∷ ms))
        ≡ frame (sys.to_vec (handle_request sys (uptime turn) r h).0)
  unfolding replies answers
  replies_last y = rw y (append-nil _)

  replies_more :
      is_shutdown r ≡ false
      → replies sys (answers sys uptime turn h ((json, r) ∷ ms))
        ≡ frame (sys.to_vec (handle_request sys (uptime turn) r h).0)
          ++ replies sys (answers sys uptime (suc turn) (handle_request sys (uptime turn) r h).1 ms)
  unfolding replies answers
  replies_more n = rw n refl

module _ (sys : System) (t : ℕ) (h : HealthMonitor) (json : List ℕ) (r : Request)
    (ms : List Message) where
  executed_last :
      is_shutdown r ≡ true
      → (handle_request sys t r h).1.commands_executed
        ≡ h.commands_executed + executions ((json, r) ∷ ms)
  unfolding executions
  executed_last y = rw y (omega (arith, handle_request-executed sys t r h))

  executed_more :
      is_shutdown r ≡ false
      → (handle_request sys t r h).1.commands_executed + executions ms
        ≡ h.commands_executed + executions ((json, r) ∷ ms)
  unfolding executions
  executed_more n = rw n (omega (arith, handle_request-executed sys t r h))

-- A host that sends requests, one of them a shutdown, gets an answer to each up to and including the first
-- shutdown, in order, and to none after it; the loop then ends. It needs no more turns than there are
-- requests, however the stream is cut into reads and writes, and the health counter has
-- grown by the commands executed.
pub command_loop-Served :
    (sys : System) (uptime : ℕ → ℕ) (fuel turn : ℕ) (h : HealthMonitor) (writes : List (Option ℕ))
    (s : Inbound) (ms : List Message) (rest : List ℕ)
    → s.incoming ≡ wire ms ++ rest
    → AllDecode sys ms
    → has_shutdown ms ≡ true
    → NoneFails s.turns
    → NoneFails writes
    → length ms ≤ fuel
    → Served sys uptime turn h ms (command_loop sys uptime fuel turn h writes s)
unfolding command_loop
command_loop-Served sys uptime fuel turn h writes s [] rest e d last fine fine' le = cc
command_loop-Served sys uptime zero turn h writes s ((json, r) ∷ ms) rest e d last fine fine' le =
    absurd (omega arith)
command_loop-Served sys uptime (suc fuel) turn h writes s ((json, r) ∷ ms) rest e d last fine fine'
      le =
    let (got, left, fine2) =
      recv_request-frame sys.from_slice json (wire ms ++ rest) s
        (e ∙ append_assoc (frame json) (wire ms) rest) d.1 fine in
    let got' : (recv_request sys.from_slice s).0 ≡ ok r =
      got ∙ ap (λ (x : Option Request). ok_or x json_error) d.0 in
    let h' = (handle_request sys (uptime turn) r h).1 in
    let response = (handle_request sys (uptime turn) r h).0 in
    let (writes', sent, fine3) = send_response-NoneFails sys.to_vec response writes fine' in
    rw (got', command_loop)
      (rw sent (elim (Bool-cases (is_shutdown r)) [
        | inl y ↦
            rw (y, after_send)
              (record {
                ended = refl;
                replied = sym (replies_last sys uptime turn h json r ms y);
                counted = executed_last sys (uptime turn) h json r ms y;
              })
        | inr n ↦
            let left_shutdown : has_shutdown ms ≡ true = rw n at last in
            let later =
              command_loop-Served sys uptime fuel (suc turn) h' writes'
                ((recv_request sys.from_slice s).1) ms rest left d.2 left_shutdown fine2 fine3
                (omega arith) in
            rw (n, after_send)
              (record {
                ended = later.ended;
                replied =
                    ap (λ t. frame (sys.to_vec response) ++ t) later.replied
                    ∙ sym (replies_more sys uptime turn h json r ms n);
                counted = later.counted ∙ executed_more sys (uptime turn) h json r ms n;
              })
      ]))
