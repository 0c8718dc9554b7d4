-- ===== src/Campd/Supervisor.antt =====
-- cmd/campd/src/runtime.rs: the state of the supervisor, and the system calls that it makes.
pub mod Reap
pub mod Drive
pub mod Startup
pub mod Shutdown
pub mod Keeps
use sandcamp.Base.{
  ℕ, ◌+◌, Bool, true, false, not, ◌&&◌, ◌||◌, Option, none, some, List, [], ◌∷◌, ◌++◌, ◌==◌,
  if◌then◌else◌, Bytes, all, any, is_some, Result,
}
use sandcamp.Campd.Spec.{NumericUser, ProcessKind, service, run_to_completion, Probe}
use sandcamp.Campd.Probe.{ProbeHealth, ready, ProbeState}
use sandcamp.Campd.Launch.{Command}

-- Durations are in milliseconds.
abbrev pub shutdown_grace : ℕ
shutdown_grace = 5000

abbrev pub kill_grace : ℕ
kill_grace = 1000

abbrev pub poll_interval : ℕ
poll_interval = 50

abbrev pub sigkill : ℕ
sigkill = 9

abbrev pub sigterm : ℕ
sigterm = 15

-- A wait status as the macros of `libc` take it apart.
pub data WaitStatus : Type 0 where
  exited signaled other : ℕ → WaitStatus

unfoldable pub exit_code : WaitStatus → ℕ
exit_code (exited code) = code
exit_code (signaled signal) = 128 + signal
exit_code (other _) = 1

-- `probe_cancel` is the flag that the probe's thread shares: `some true` tells it to stop.
pub record ManagedProcess : Type 0 where
  pub name : Bytes
  pub kind : ProcessKind
  pub pid : ℕ
  pub alive : Bool
  pub exit_status : Option WaitStatus
  pub residual_group : Bool
  pub probe : Option ProbeState
  pub probe_cancel : Option Bool

pub record ProbeEvent : Type 0 where
  pub process_index : ℕ
  pub success : Bool

pub record PendingCleanup : Type 0 where
  pub group : ℕ
  pub kill_at : ℕ
  pub give_up_at : ℕ
  pub killed : Bool

-- The reasons for which the start fails; each is a message of the source.
pub data Failure : Type 0 where
  not_started : (name reason : Bytes) → Failure
  service_exited : Bytes → WaitStatus → Failure
  probe_timed_out : Bytes → ℕ → Failure
  job_failed : Bytes → WaitStatus → Failure
  job_left_descendants : Bytes → Failure
  job_timed_out : Bytes → ℕ → Failure

-- `ready` is the flag that the ready endpoint serves. The channel of probe events is outside.
pub record Supervisor : Type 0 where
  pub ready : Bool
  pub processes : List ManagedProcess
  pub cleanups : List PendingCleanup
  pub initialization_complete : Bool
  pub startup_failure : Option Failure

unfoldable pub new_supervisor : Supervisor
new_supervisor = record {
  ready = false;
  processes = [];
  cleanups = [];
  initialization_complete = false;
  startup_failure = none;
}

-- What `waitpid(-1, WNOHANG)` reports.
pub data Waited : Type 0 where
  reaped : (pid : ℕ) → WaitStatus → Waited
  none_ready interrupted no_child : Waited
  wait_failed : Bytes → Waited

-- The kernel, the clock and the threads, as the supervisor meets them: each call may change the
-- world. `start` forks, makes a process group, takes on the identity and executes a command; `start_probe` spawns the thread of a probe, which
-- sends its events into the channel that `try_recv` and `recv_timeout` read.
pub record Os : Type 1 where
  pub World : Type 0
  pub waitpid : World → Waited × World
  pub group_exists : ℕ → World → Bool × World
  pub signal_group : (group signal : ℕ) → World → World
  pub reap_pid : ℕ → World → World
  pub now : World → ℕ × World
  pub sleep : ℕ → World → World
  pub try_recv : World → Option ProbeEvent × World
  pub recv_timeout : ℕ → World → Option ProbeEvent × World
  pub signal_flag : World → ℕ × World
  pub start : Command → Option NumericUser → World → Result Bytes ℕ × World
  pub start_probe : ℕ → Probe → World → Option Bytes × World

-- What ends `run` with an error; `out_of_rounds` is the end of the model's fuel.
pub data RunError : Type 0 where
  wait_error : Bytes → RunError
  panicked : RunError
  out_of_rounds : RunError

-- A service is healthy if it is alive and its probe, if it has one, is ready.
abbrev pub is_ready : Option ProbeState → Bool
is_ready none = true
is_ready (some p) = elim p.health [ ready ↦ true | _ ↦ false ]

abbrev pub is_service : ProcessKind → Bool
is_service service = true
is_service run_to_completion = false

abbrev pub passes : ManagedProcess → Bool
passes p = not (is_service p.kind) || (p.alive && is_ready p.probe)

unfoldable pub services_ready : List ManagedProcess → Bool
unfolding all
services_ready = all passes

-- What `update_ready` stores.
unfoldable pub ready_now : Supervisor → Bool
ready_now s =
    s.initialization_complete && (not (is_some s.startup_failure) && services_ready s.processes)

unfoldable pub update_ready : Supervisor → Supervisor
update_ready s = record s { ready = ready_now s }

-- The first failure stays.
abbrev pub first_failure : Option Failure → Failure → Option Failure
first_failure none f = some f
first_failure (some g) _ = some g

unfoldable pub fail_startup : Supervisor → Failure → Supervisor
unfolding update_ready
fail_startup s reason = update_ready (record s {
  startup_failure = first_failure s.startup_failure reason;
  initialization_complete = false;
})
