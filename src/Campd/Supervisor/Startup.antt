-- ===== src/Campd/Supervisor/Startup.antt =====
-- cmd/campd/src/runtime.rs: `spawn` and `run`.
pub mod Order
pub mod Begin
pub mod Outcome
pub mod Ready
use sandcamp.Base.{
  ℕ, zero, suc, ◌+◌, Bool, true, false, not, Option, none, some, List, [], ◌∷◌, ◌++◌, length,
  is_some, if◌then◌else◌, Bytes, Result, ok, err, ◌>>=◌,
}
use sandcamp.Campd.Spec.{NumericUser, ProcessKind, service, run_to_completion, Probe}
use sandcamp.Campd.Probe.{new_probe}
use sandcamp.Campd.Launch.{ProcessSource, main, sidecar, LaunchProcess, Command, build_command}
use sandcamp.Campd.Supervisor.{
  poll_interval, sigkill, ManagedProcess, Failure, not_started, Supervisor, Os, RunError, panicked,
  out_of_rounds, update_ready, fail_startup,
}
use sandcamp.Campd.Supervisor.Drive.{
  WaitOutcome, completed, failed, signal, drive, wait_for_service, wait_for_job,
}
use sandcamp.Campd.Supervisor.Shutdown.{shutdown}

abbrev pub map_option {ℓ κ} : {A : Type ℓ} {B : Type κ} → (A → B) → Option A → Option B
map_option f none = none
map_option f (some a) = some (f a)

-- The entry that `spawn` pushes.
unfoldable pub managed : LaunchProcess → ℕ → ManagedProcess
managed p pid = record {
  name = p.name;
  kind = p.kind;
  pid = pid;
  alive = true;
  exit_status = none;
  residual_group = false;
  probe = map_option new_probe p.readiness_probe;
  probe_cancel = map_option (λ _. false) p.readiness_probe;
}

-- The identity that a main process takes on.
abbrev pub identity_of : ProcessSource → Option NumericUser
identity_of (main user) = user
identity_of (sidecar _) = none

abbrev pub adds : Supervisor → ManagedProcess → Supervisor
adds s m = update_ready (record s { processes = s.processes ++ m ∷ [] })

module _ (os : Os) (rounds : ℕ) (sandrun : Bytes) where
  open os use {World, signal_group, reap_pid, start, start_probe}

  -- `spawn` behind the start of the probe's thread: if that cannot be spawned, the process is
  -- killed and reaped.
  unfoldable pub probe_attached :
      Option Bytes → LaunchProcess → ℕ → Supervisor → World → Result Bytes Supervisor × World
  probe_attached (some message) p pid s w = (err message, reap_pid pid (signal_group pid sigkill w))
  probe_attached none p pid s w = (ok (adds s (managed p pid)), w)

  unfoldable pub attach_probe :
      Option Probe → LaunchProcess → ℕ → Supervisor → World → Result Bytes Supervisor × World
  attach_probe none p pid s w = (ok (adds s (managed p pid)), w)
  attach_probe (some probe) p pid s w =
      let (refused, w₁) = start_probe (length s.processes) probe w in
      probe_attached refused p pid s w₁

  unfoldable pub started :
      Result Bytes ℕ → LaunchProcess → Supervisor → World → Result Bytes Supervisor × World
  started (err message) p s w = (err message, w)
  started (ok pid) p s w = attach_probe p.readiness_probe p pid s w

  -- `spawn`: an error of the system leaves the supervisor as it is.
  unfoldable pub spawn :
      LaunchProcess → Command → Supervisor → World → Result Bytes Supervisor × World
  spawn p command s w =
      let (result, w₁) = start command (identity_of p.source) w in started result p s w₁

  abbrev pub Waited : Type 0
  Waited = Result RunError (WaitOutcome × Supervisor × World)

  -- The wait behind a start; `expect("validated completion timeout")`.
  unfoldable pub await_kind :
      ProcessKind → Option Probe → Option ℕ → ℕ → Supervisor → World → Waited
  await_kind service none timeout index s w = ok (completed, s, w)
  await_kind service (some probe) timeout index s w =
      wait_for_service os rounds index probe.startup_timeout_ms s w
  await_kind run_to_completion probe none index s w = err panicked
  await_kind run_to_completion probe (some timeout) index s w =
      wait_for_job os rounds index timeout s w

  unfoldable pub await_start : LaunchProcess → ℕ → Supervisor → World → Waited
  await_start p index s w = await_kind p.kind p.readiness_probe p.completion_timeout_ms index s w

  -- The end of the loop over the declarations: its end, a `break`, or a signal.
  abbrev pub Launched : Type 0
  Launched = Result RunError (Option ℕ × Supervisor × World)

  -- One process: `none` goes on with the next, `some none` is the `break` behind `fail_startup`,
  -- and `some (some n)` is a signal.
  abbrev pub Step : Type 0
  Step = Result RunError (Option (Option ℕ) × Supervisor × World)

  unfoldable pub after_wait : WaitOutcome → Supervisor → World → Step
  after_wait completed s w = ok (none, s, w)
  after_wait (failed reason) s w = ok (some none, fail_startup s reason, w)
  after_wait (signal n) s w = ok (some (some n), s, w)

  unfoldable pub after_spawn : LaunchProcess → Supervisor → Result Bytes Supervisor → World → Step
  after_spawn p s (err message) w = ok (some none, fail_startup s (not_started p.name message), w)
  after_spawn p s (ok t) w = do
    waited ← await_start p (length s.processes) t w
    after_wait waited.0 waited.1 waited.2

  unfoldable pub launch : LaunchProcess → Command → Supervisor → World → Step
  launch p command s w = let (spawned, w₁) = spawn p command s w in after_spawn p s spawned w₁

  -- `build_command` indexes the command, which panics if it is empty.
  unfoldable pub launch_command :
      {E : Type 0} → Result E Command → LaunchProcess → Supervisor → World → Step
  launch_command (err e) p s w = err panicked
  launch_command (ok command) p s w = launch p command s w

  -- The body of the loop behind `drive` and the test of the failure.
  unfoldable pub launch_unless : Option Failure → LaunchProcess → Supervisor → World → Step
  launch_unless (some reason) p s w = ok (some none, fail_startup s reason, w)
  launch_unless none p s w = launch_command (build_command sandrun p) p s w

  unfoldable pub launch_turn : Option ℕ → LaunchProcess → Supervisor → World → Step
  launch_turn (some n) p s w = ok (some (some n), s, w)
  launch_turn none p s w = launch_unless s.startup_failure p s w

  -- The body of the loop.
  unfoldable pub launch_next : LaunchProcess → Supervisor → World → Step
  launch_next p s w = do turn ← drive os rounds 0 s w; launch_turn turn.0 p turn.1 turn.2

  abbrev pub Rest : Type 0
  Rest = Supervisor → World → Launched

  unfoldable pub launch_rest : Option (Option ℕ) → Rest → Supervisor → World → Launched
  launch_rest (some end) rest s w = ok (end, s, w)
  launch_rest none rest s w = rest s w

  unfoldable pub launch_all : List LaunchProcess → Supervisor → World → Launched
  launch_all [] s w = ok (none, s, w)
  launch_all (p ∷ ps) s w = do
    step ← launch_next p s w
    launch_rest step.0 (launch_all ps) step.1 step.2

  -- What `run` does between the loop and `supervise`, if no signal comes: the start is complete
  -- unless it has failed.
  unfoldable pub complete : Supervisor → World → Launched
  complete s w = ok (
    none,
    update_ready (record s {
      initialization_complete =
          if is_some s.startup_failure then s.initialization_complete else true;
    }),
    w,
  )

  unfoldable pub conclude_turn : Option ℕ → Supervisor → World → Launched
  conclude_turn (some n) s w = ok (some n, s, w)
  conclude_turn none s w = complete s w

  -- The last `drive`, which only a start that has not failed makes.
  unfoldable pub conclude_unless : Option Failure → Supervisor → World → Launched
  conclude_unless (some reason) s w = complete s w
  conclude_unless none s w = do turn ← drive os rounds 0 s w; conclude_turn turn.0 turn.1 turn.2

  unfoldable pub conclude : Option ℕ → Supervisor → World → Launched
  conclude (some n) s w = ok (some n, s, w)
  conclude none s w = conclude_unless s.startup_failure s w

  -- The start as a whole: a signal to shut down on, or the state in which `supervise` begins.
  unfoldable pub start_up : List LaunchProcess → Supervisor → World → Launched
  start_up declarations s w = do
    launched ← launch_all declarations s w
    conclude launched.0 launched.1 launched.2

  abbrev pub Ended : Type 0
  Ended = Result RunError (ℕ × Supervisor × World)

  unfoldable pub end_or : Option ℕ → (Supervisor → World → Ended) → Supervisor → World → Ended
  end_or (some n) rest s w = ok (shutdown os rounds n s w)
  end_or none rest s w = rest s w

  -- `supervise` ends by a signal only; `fuel` bounds its turns.
  unfoldable pub supervise : ℕ → Supervisor → World → Ended
  supervise zero s w = err out_of_rounds
  supervise (suc fuel) s w = do
    turn ← drive os rounds poll_interval s w
    end_or turn.0 (supervise fuel) turn.1 turn.2

  -- `run` behind `flatten`.
  unfoldable pub run : ℕ → List LaunchProcess → Supervisor → World → Ended
  run fuel declarations s w = do
    launched ← start_up declarations s w
    end_or launched.0 (supervise fuel) launched.1 launched.2
