-- ===== src/Campd/Supervisor/Drive.antt =====
-- cmd/campd/src/runtime.rs: one turn of the supervisor, and the waits for a service and for a job.
pub mod Returns
pub mod Total
use sandcamp.Base.{
  ℕ, zero, suc, ◌+◌, ◌-◌, Bool, true, false, not, ◌&&◌, ◌||◌, Option, none, some, List, [], ◌∷◌,
  min, ◌==◌, leb, if◌then◌else◌, get_elem?, Bytes, Result, ok, err, ◌>>=◌,
}
use sandcamp.Campd.Supervisor.{
  poll_interval, WaitStatus, exit_code, ManagedProcess, ProbeEvent, Failure, probe_timed_out,
  job_failed, job_left_descendants, job_timed_out, Supervisor, Os, RunError, panicked,
  out_of_rounds, is_ready, update_ready,
}
use sandcamp.Campd.Supervisor.Reap.{
  apply_probe_event, schedule_cleanup, reap_available, drain_probe_events, process_cleanups,
}

-- `received_signal`: 0 is no signal.
abbrev pub signal_of : ℕ → Option ℕ
signal_of zero = none
signal_of (suc n) = some (suc n)

pub data WaitOutcome : Type 0 where
  completed : WaitOutcome
  failed : Failure → WaitOutcome
  signal : ℕ → WaitOutcome

-- The probe of a service that has one and is ready.
abbrev pub probe_passed : ManagedProcess → Bool
probe_passed p = elim p.probe [ none ↦ false | some s ↦ is_ready (some s) ]

-- What a finished job means for the start.
unfoldable pub job_outcome : ManagedProcess → WaitStatus → WaitOutcome
job_outcome p status =
    if not (exit_code status == 0)
    then failed (job_failed p.name status)
    else if p.residual_group
    then failed (job_left_descendants p.name)
    else completed

-- What `wait_for_service` finds behind `drive`, before it looks at the clock.
unfoldable pub service_outcome : ManagedProcess → Supervisor → Option WaitOutcome
service_outcome p s = elim s.startup_failure [
  | some reason ↦ some (failed reason)
  | none ↦ if probe_passed p then some completed else none
]

-- What `wait_for_job` finds behind `drive`, with the group that it cleans up.
unfoldable pub job_state :
    Option Failure → Option WaitStatus → ManagedProcess → Option (WaitOutcome × Option ℕ)
job_state (some reason) status p = some (failed reason, if p.alive then some p.pid else none)
job_state none (some status) p = some (job_outcome p status, none)
job_state none none p = none

unfoldable pub job_found : ManagedProcess → Supervisor → Option (WaitOutcome × Option ℕ)
job_found p s = job_state s.startup_failure p.exit_status p

-- `rounds` bounds each loop below `run`.
module _ (os : Os) (rounds : ℕ) where
  open os use {World, now, try_recv, recv_timeout, signal_flag}

  abbrev pub Turn : Type 0
  Turn = Result RunError (Option ℕ × Supervisor × World)

  -- Exits, events and cleanups, then the readiness.
  unfoldable pub settle : Supervisor → World → Result RunError (Supervisor × World)
  settle s w = do
    reaped ← reap_available os rounds s w
    drained ← drain_probe_events os rounds reaped.0 reaped.1
    let (t, w₁) = process_cleanups os drained.0 drained.1
    ok (update_ready t, w₁)

  unfoldable pub take_event :
      Option ProbeEvent → Supervisor → World → Result RunError (Supervisor × World)
  take_event none s w = ok (s, w)
  take_event (some e) s w = drain_probe_events os rounds (apply_probe_event s e) w

  -- The second half of `drive`, which does not drain the channel again behind the reaping.
  unfoldable pub finish_turn : Option ProbeEvent → Supervisor → World → Turn
  finish_turn event s w = do
    taken ← take_event event s w
    reaped ← reap_available os rounds taken.0 taken.1
    let (t, w₁) = process_cleanups os reaped.0 reaped.1
    let (flag, w₂) = signal_flag w₁
    ok (signal_of flag, update_ready t, w₂)

  unfoldable pub poll : ℕ → World → Option ProbeEvent × World
  poll wait w = if wait == 0 then try_recv w else recv_timeout (min wait poll_interval) w

  -- `drive` behind its first half: a signal ends it at once.
  unfoldable pub turn_on : Option ℕ → ℕ → Supervisor → World → Turn
  turn_on (some n) wait s w = ok (some n, s, w)
  turn_on none wait s w = let (event, w₁) = poll wait w in finish_turn event s w₁

  unfoldable pub drive : ℕ → Supervisor → World → Turn
  drive wait s w = do
    settled ← settle s w
    let (flag, w₁) = signal_flag settled.1
    turn_on (signal_of flag) wait settled.0 w₁

  -- `wait_duration`
  unfoldable pub wait_duration : ℕ → World → ℕ × World
  wait_duration deadline w = let (time, w₁) = now w in (min (deadline - time) poll_interval, w₁)

  abbrev pub Waiting : Type 0
  Waiting = Result RunError (WaitOutcome × Supervisor × World)

  abbrev pub Next : Type 0
  Next = Supervisor → World → Waiting

  -- The clock is read only where nothing else has ended the wait.
  unfoldable pub service_clock : ℕ → ℕ → ManagedProcess → Next → Option WaitOutcome → Next
  service_clock deadline timeout p rest (some outcome) s w = ok (outcome, s, w)
  service_clock deadline timeout p rest none s w =
      let (time, w₁) = now w in
      elim (leb deadline time) [
        | true ↦ ok (failed (probe_timed_out p.name timeout), s, w₁)
        | false ↦ rest s w₁
      ]

  -- `&self.processes[process_index]` panics out of range.
  unfoldable pub service_process : ℕ → ℕ → Next → Option ManagedProcess → Next
  service_process deadline timeout rest none s w = err panicked
  service_process deadline timeout rest (some p) s w =
      service_clock deadline timeout p rest (service_outcome p s) s w

  unfoldable pub service_turn : ℕ → ℕ → ℕ → Next → Option ℕ → Next
  service_turn index deadline timeout rest (some n) s w = ok (signal n, s, w)
  service_turn index deadline timeout rest none s w =
      service_process deadline timeout rest (get_elem? s.processes index) s w

  unfoldable pub service_loop : ℕ → ℕ → ℕ → ℕ → Next
  service_loop zero index deadline timeout s w = err out_of_rounds
  service_loop (suc fuel) index deadline timeout s w = do
    let (wait, w₁) = wait_duration deadline w
    turn ← drive wait s w₁
    service_turn index deadline timeout (service_loop fuel index deadline timeout) turn.0 turn.1
        turn.2

  unfoldable pub wait_for_service : ℕ → ℕ → Supervisor → World → Waiting
  wait_for_service index timeout s w =
      let (start, w₁) = now w in service_loop rounds index (start + timeout) timeout s w₁

  unfoldable pub clean_up : Option ℕ → Supervisor → World → Supervisor × World
  clean_up none s w = (s, w)
  clean_up (some group) s w = schedule_cleanup os group s w

  unfoldable pub job_clock : ℕ → ℕ → ManagedProcess → Next → Option (WaitOutcome × Option ℕ) → Next
  job_clock deadline timeout p rest (some found) s w =
      let (t, w₁) = clean_up found.1 s w in ok (found.0, t, w₁)
  job_clock deadline timeout p rest none s w =
      let (time, w₁) = now w in
      elim (leb deadline time) [
        | true ↦
            let (t, w₂) = schedule_cleanup os p.pid s w₁ in
            ok (failed (job_timed_out p.name timeout), t, w₂)
        | false ↦ rest s w₁
      ]

  unfoldable pub job_process : ℕ → ℕ → Next → Option ManagedProcess → Next
  job_process deadline timeout rest none s w = err panicked
  job_process deadline timeout rest (some p) s w =
      job_clock deadline timeout p rest (job_found p s) s w

  unfoldable pub job_turn : ℕ → ℕ → ℕ → Next → Option ℕ → Next
  job_turn index deadline timeout rest (some n) s w = ok (signal n, s, w)
  job_turn index deadline timeout rest none s w =
      job_process deadline timeout rest (get_elem? s.processes index) s w

  unfoldable pub job_loop : ℕ → ℕ → ℕ → ℕ → Next
  job_loop zero index deadline timeout s w = err out_of_rounds
  job_loop (suc fuel) index deadline timeout s w = do
    let (wait, w₁) = wait_duration deadline w
    turn ← drive wait s w₁
    job_turn index deadline timeout (job_loop fuel index deadline timeout) turn.0 turn.1 turn.2

  unfoldable pub wait_for_job : ℕ → ℕ → Supervisor → World → Waiting
  wait_for_job index timeout s w =
      let (start, w₁) = now w in job_loop rounds index (start + timeout) timeout s w₁
