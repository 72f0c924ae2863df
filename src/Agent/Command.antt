-- ===== src/Agent/Command.antt =====
-- crates/nova-agent/src/exec.rs, health.rs and main.rs: the agent's answer to a request and its loop. What a
-- child process gives, the clock and `serde_json` are given from outside.
use nova_vm.Common.{
  ℕ, zero, suc, ◌+◌, ◌-◌, Bool, true, false, Option, none, some, List, [], ◌∷◌, ◌++◌, Result, ok,
  err, String, StringMap, if◌then◌else◌,
}
use nova_vm.Agent.Vsock.{
  AgentError, exec_error, Request, Response, exec, health_check, shutdown, version, exec_result,
  health_result, version_result, error, Inbound, recv_request, send_response,
}
pub mod Loop

-- `ExecOutput`, with the exit code as 32 bits.
pub record ExecOutput : Type 0 where
  pub exit_code : ℕ
  pub stdout : String
  pub stderr : String

-- What the host of the agent gives: the output of a program with its arguments, environment and directory,
-- or a failure to start it; the text of an error; the seconds since the start; its version.
pub record System : Type 0 where
  pub output : String → List String → StringMap String → Option String → Option ExecOutput
  pub to_string : AgentError → String
  pub version_string : String
  pub from_slice : List ℕ → Option Request
  pub to_vec : Response → List ℕ

-- `HealthMonitor`, without the start time.
pub record HealthMonitor : Type 0 where
  pub commands_executed : ℕ

unfoldable pub record_command : HealthMonitor → HealthMonitor
record_command h = record h { commands_executed = h.commands_executed + 1 }

unfoldable pub health_response : ℕ → HealthMonitor → Response
health_response uptime h = health_result true uptime h.commands_executed

module _ (sys : System) where
  unfoldable pub execute_command :
      List String → StringMap String → Option String → Result AgentError ExecOutput
  execute_command [] env workdir = err exec_error
  execute_command (program ∷ args) env workdir = elim (sys.output program args env workdir) [
    | some out ↦ ok out
    | none ↦ err exec_error
  ]

  unfoldable pub execute_to_response : List String → StringMap String → Option String → Response
  unfolding execute_command
  execute_to_response args env workdir = elim (execute_command args env workdir) [
    | ok out ↦ exec_result out.exit_code out.stdout out.stderr
    | err e ↦ error (sys.to_string e)
  ]

  unfoldable pub handle_request : ℕ → Request → HealthMonitor → Response × HealthMonitor
  unfolding execute_to_response record_command health_response
  handle_request uptime (exec command env workdir) h =
      (execute_to_response command env workdir, record_command h)
  handle_request uptime health_check h = (health_response uptime h, h)
  handle_request uptime version h = (version_result sys.version_string, h)
  handle_request uptime shutdown h = (health_result true uptime h.commands_executed, h)

abbrev pub is_shutdown : Request → Bool
is_shutdown shutdown = true
is_shutdown (exec command env workdir) = false
is_shutdown health_check = false
is_shutdown version = false

-- How the loop of `main` has ended, and with it what it has sent and the state it leaves.
pub data Ending : Type 0 where
  shut_down send_failed receive_failed out_of_fuel : Ending

pub record Outcome : Type 0 where
  pub ending : Ending
  pub sent : List ℕ
  pub health : HealthMonitor
  pub inbound : Inbound

-- What a turn has sent goes in front of what the later turns send.
abbrev pub with_sent : List ℕ → Outcome → Outcome
with_sent bytes o = record o { sent = bytes ++ o.sent }

module _ (sys : System) (uptime : ℕ → ℕ) where
  -- The turn's end: break off after a failed send or a shutdown, else go on.
  unfoldable pub after_send :
      (HealthMonitor → List (Option ℕ) → Inbound → Outcome)
      → Bool
      → HealthMonitor
      → Inbound
      → List ℕ × Result AgentError (List (Option ℕ))
      → Outcome
  after_send next last h s (sent, err e) = record {
    ending = send_failed;
    sent = sent;
    health = h;
    inbound = s;
  }
  after_send next true h s (sent, ok writes) = record {
    ending = shut_down;
    sent = sent;
    health = h;
    inbound = s;
  }
  after_send next false h s (sent, ok writes) = with_sent sent (next h writes s)

  -- The loop of `main`, on fuel; the clock is read at each turn.
  unfoldable pub command_loop : ℕ → ℕ → HealthMonitor → List (Option ℕ) → Inbound → Outcome
  unfolding handle_request after_send
  command_loop zero turn h writes s = record {
    ending = out_of_fuel;
    sent = [];
    health = h;
    inbound = s;
  }
  command_loop (suc fuel) turn h writes s =
      let (received, s') = recv_request sys.from_slice s in
      elim received [
        | err e ↦ record { ending = receive_failed; sent = []; health = h; inbound = s' }
        | ok request ↦
            let (response, h') = handle_request sys (uptime turn) request h in
            after_send (command_loop fuel (suc turn)) (is_shutdown request) h' s'
              (send_response sys.to_vec response writes)
      ]
