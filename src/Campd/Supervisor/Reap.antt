-- ===== src/Campd/Supervisor/Reap.antt =====
-- cmd/campd/src/runtime.rs: exited processes, probe events and the cleanup of process groups.
use sandcamp.Base.{
  ℕ, zero, suc, ◌+◌, Bool, true, false, not, ◌&&◌, ◌||◌, Option, none, some, List, [], ◌∷◌, ◌++◌,
  ◌==◌, leb, if◌then◌else◌, any, get_elem?, set, Result, ok, err,
}
use sandcamp.Campd.Probe.{observe}
use sandcamp.Campd.Supervisor.{
  shutdown_grace, kill_grace, sigkill, sigterm, WaitStatus, ManagedProcess, ProbeEvent,
  PendingCleanup, Failure, service_exited, Supervisor, Waited, reaped, none_ready, interrupted,
  no_child, wait_failed, Os, RunError, wait_error, out_of_rounds, is_service, first_failure,
}

-- The place of the process that is alive under a pid.
unfoldable pub position : ℕ → List ManagedProcess → Option ℕ
position pid [] = none
position pid (p ∷ ps) =
    if p.pid == pid && p.alive
    then some 0
    else (elim (position pid ps) [ none ↦ none | some i ↦ some (suc i) ])

abbrev pub cancelled : Option Bool → Option Bool
cancelled none = none
cancelled (some _) = some true

-- A process that has exited; the flag of its probe tells the thread to stop.
unfoldable pub mark_exited : WaitStatus → Bool → ManagedProcess → ManagedProcess
mark_exited status residual p = record p {
  alive = false;
  exit_status = some status;
  residual_group = residual;
  probe_cancel = cancelled p.probe_cancel;
}

-- A service that exits before the initialization is complete is a failure of the start.
unfoldable pub exit_failure : Supervisor → ManagedProcess → WaitStatus → Option Failure
exit_failure s p status =
    if is_service p.kind && not s.initialization_complete
    then first_failure s.startup_failure (service_exited p.name status)
    else s.startup_failure

-- `apply_probe_event` at the process that the event names.
abbrev pub observe_process : Bool → ManagedProcess → ManagedProcess
observe_process success p =
    if not p.alive
    then p
    else (elim p.probe [ none ↦ p | some s ↦ record p { probe = some (observe s success) } ])

unfoldable pub apply_probe_event : Supervisor → ProbeEvent → Supervisor
apply_probe_event s event = elim (get_elem? s.processes event.process_index) [
  | none ↦ s
  | some p ↦ record s {
    processes = set s.processes event.process_index (observe_process event.success p);
  }
]

module _ (os : Os) where
  open os use {World, waitpid, group_exists, signal_group, now, try_recv}

  -- The second half of `schedule_cleanup`: SIGTERM, and the times of what follows.
  unfoldable pub add_cleanup : ℕ → Supervisor → World → Supervisor × World
  add_cleanup group s w =
      let (time, w₁) = now (signal_group group sigterm w) in
      (
        record s {
          cleanups =
              s.cleanups
              ++ record {
                group = group;
                kill_at = time + shutdown_grace;
                give_up_at = time + shutdown_grace + kill_grace;
                killed = false;
              }
                ∷ [];
        },
        w₁,
      )

  unfoldable pub schedule_cleanup : ℕ → Supervisor → World → Supervisor × World
  schedule_cleanup group s w =
      let (exists, w₁) = group_exists group w in
      if not exists || any (λ (c : PendingCleanup). c.group == group) s.cleanups
      then (s, w₁)
      else add_cleanup group s w₁

  -- `reap_available` at a process that has exited.
  unfoldable pub record_exit :
      ℕ → WaitStatus → ℕ → ManagedProcess → Supervisor → World → Supervisor × World
  record_exit pid status index p s w =
      let (residual, w₁) = group_exists pid w in
      let t : Supervisor = record s {
        processes = set s.processes index (mark_exited status residual p);
        startup_failure = exit_failure s p status;
      } in
      if residual then schedule_cleanup pid t w₁ else (t, w₁)

  unfoldable pub reap_at : ℕ → WaitStatus → Option ℕ → Supervisor → World → Supervisor × World
  reap_at pid status none s w = (s, w)
  reap_at pid status (some index) s w = elim (get_elem? s.processes index) [
    | none ↦ (s, w)
    | some p ↦ record_exit pid status index p s w
  ]

  -- A pid that no process is alive under is passed over.
  unfoldable pub reap_one : ℕ → WaitStatus → Supervisor → World → Supervisor × World
  reap_one pid status s w = reap_at pid status (position pid s.processes) s w

  -- The body of the loop of `reap_available`, and what it goes on with.
  unfoldable pub reap_result :
      Waited
      → (Supervisor → World → Result RunError (Supervisor × World))
      → Supervisor
      → World
      → Result RunError (Supervisor × World)
  reap_result (reaped pid status) rest s w = let (t, w₁) = reap_one pid status s w in rest t w₁
  reap_result none_ready rest s w = ok (s, w)
  reap_result interrupted rest s w = rest s w
  reap_result no_child rest s w = ok (s, w)
  reap_result (wait_failed message) rest s w = err (wait_error message)

  unfoldable pub reap_available : ℕ → Supervisor → World → Result RunError (Supervisor × World)
  reap_available zero s w = err out_of_rounds
  reap_available (suc rounds) s w =
      let (result, w₁) = waitpid w in reap_result result (reap_available rounds) s w₁

  unfoldable pub drain_event :
      Option ProbeEvent
      → (Supervisor → World → Result RunError (Supervisor × World))
      → Supervisor
      → World
      → Result RunError (Supervisor × World)
  drain_event none rest s w = ok (s, w)
  drain_event (some event) rest s w = rest (apply_probe_event s event) w

  unfoldable pub drain_probe_events : ℕ → Supervisor → World → Result RunError (Supervisor × World)
  drain_probe_events zero s w = err out_of_rounds
  drain_probe_events (suc rounds) s w =
      let (event, w₁) = try_recv w in drain_event event (drain_probe_events rounds) s w₁

  -- One cleanup at the time `time`: it is kept, marked as killed, or dropped.
  unfoldable pub process_cleanup : ℕ → PendingCleanup → World → Option PendingCleanup × World
  process_cleanup time c w =
      let (exists, w₁) = group_exists c.group w in
      let kills = not c.killed && leb c.kill_at time in
      let w₂ : World = if kills then signal_group c.group sigkill w₁ else w₁ in
      let c' : PendingCleanup = if kills then record c { killed = true } else c in
      if not exists then (none, w₁) else if leb c.give_up_at time then (none, w₂) else (some c', w₂)

  -- `retain_mut`
  unfoldable pub retain_cleanups : ℕ → List PendingCleanup → World → List PendingCleanup × World
  retain_cleanups time [] w = ([], w)
  retain_cleanups time (c ∷ cs) w =
      let (kept, w₁) = process_cleanup time c w in
      let (rest, w₂) = retain_cleanups time cs w₁ in
      (elim kept [ none ↦ rest | some c' ↦ c' ∷ rest ], w₂)

  unfoldable pub process_cleanups : Supervisor → World → Supervisor × World
  process_cleanups s w =
      let (time, w₁) = now w in
      let (kept, w₂) = retain_cleanups time s.cleanups w₁ in (record s { cleanups = kept }, w₂)
