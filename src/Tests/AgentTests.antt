-- ===== src/Tests/AgentTests.antt =====
-- The agent served with a check of its health and a shutdown, which come in uneven pieces. A stand-in for
-- JSON codes a request by one byte.
use nova_vm.Common.{
  ℕ, ◌≡◌, refl, Option, none, some, List, [], ◌∷◌, ◌++◌, ok, ◌==◌, if◌then◌else◌, arith,
}
use nova_vm.Agent.Vsock.{
  Request, Response, exec, health_check, shutdown, exec_result, health_result, version_result,
  error, Inbound, frame, recv_request, send_response,
}
use nova_vm.Agent.Vsock.Frames.{NoneFails, recv_request-frame}
use nova_vm.Agent.Command.{System, HealthMonitor, execute_to_response, handle_request, command_loop}
use nova_vm.Agent.Command.Loop.{Message, wire, Served, command_loop-Served}

abbrev decode : List ℕ → Option Request
decode [] = none
decode (b ∷ bs) =
    if b == 1
    then some health_check
    else if b == 2
    then some shutdown
    else if b == 3
    then some (exec ("ls" ∷ []) [] none)
    else none

abbrev encode : Response → List ℕ
encode (exec_result code out err_) = 10 ∷ []
encode (health_result healthy uptime count) = 11 ∷ count ∷ []
encode (version_result v) = 12 ∷ []
encode (error message) = 13 ∷ []

abbrev system : System
system = record {
  output = λ program args env workdir. some (record { exit_code = 0; stdout = ""; stderr = "" });
  to_string = λ e. "error";
  version_string = "0.1.0";
  from_slice = decode;
  to_vec = encode;
}

abbrev messages : List Message
messages =
    (3 ∷ [], exec ("ls" ∷ []) [] none)
    ∷ (1 ∷ [], health_check)
    ∷ (2 ∷ [], shutdown)
    ∷ (1 ∷ [], health_check)
    ∷ []

abbrev inbound : Inbound
inbound = record { incoming = wire messages; turns = some 0 ∷ some 1 ∷ some 0 ∷ some 7 ∷ [] }

abbrev fresh : HealthMonitor
fresh = record { commands_executed = 0 }

abbrev clock : ℕ → ℕ
clock turn = turn

served :
    (command_loop system clock 9 0 fresh (some 2 ∷ []) inbound).sent
    ≡ 0 ∷ 0 ∷ 0 ∷ 1 ∷ 10 ∷ 0 ∷ 0 ∷ 0 ∷ 2 ∷ 11 ∷ 1 ∷ 0 ∷ 0 ∷ 0 ∷ 2 ∷ 11 ∷ 1 ∷ []
unfolding command_loop recv_request frame handle_request execute_to_response send_response
served = refl

command_loop-Served_example :
    Served system clock 0 fresh messages (command_loop system clock 4 0 fresh (some 2 ∷ []) inbound)
unfolding frame
command_loop-Served_example =
    command_loop-Served system clock 4 0 fresh (some 2 ∷ []) inbound messages [] refl
      (refl, omega arith, (refl, omega arith, (refl, omega arith, (refl, omega arith, tt)))) refl tt
      tt (omega arith)

recv_request-frame_example :
    ((recv_request decode inbound).0 ≡ ok (exec ("ls" ∷ []) [] none))
    × ((recv_request decode inbound).1.incoming
        ≡ frame (1 ∷ []) ++ (frame (2 ∷ []) ++ frame (1 ∷ [])))
    × NoneFails (recv_request decode inbound).1.turns
unfolding frame
recv_request-frame_example =
    recv_request-frame decode (3 ∷ []) (frame (1 ∷ []) ++ (frame (2 ∷ []) ++ frame (1 ∷ [])))
      inbound refl (omega arith) tt
