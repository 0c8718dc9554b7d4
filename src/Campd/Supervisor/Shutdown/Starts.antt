-- ===== src/Campd/Supervisor/Shutdown/Starts.antt =====
-- A signal on which the start ends is one that campd has received.
use sandcamp.Base.{ℕ, Option, none, some, List, [], ◌∷◌, Bytes, Result, ok, err}
use sandcamp.Campd.Launch.{LaunchProcess, Command, build_command}
use sandcamp.Campd.Supervisor.{Failure, Supervisor, Os, RunError}
use sandcamp.Campd.Spec.{ProcessKind, service, run_to_completion, Probe}
use sandcamp.Campd.Supervisor.Drive.{
  WaitOutcome, completed, failed, signal, wait_for_service, wait_for_job,
}
use sandcamp.Campd.Supervisor.Startup.{
  await_kind, await_start, after_wait, after_spawn, launch, launch_command, launch_unless,
  launch_turn, launch_next, launch_rest, launch_all, complete, conclude_turn, conclude_unless,
  conclude, start_up,
}
use sandcamp.Campd.Supervisor.Shutdown.Received.{
  Heard, HeardWait, HeardStep, Heeds, ends, fails, bind-Heeds, HeedsNext, drive-Heeds,
  service_loop-Heeds, job_loop-Heeds,
}

module _ (os : Os) (rounds : ℕ) (sandrun : Bytes) where
  await_kind-Heeds :
      (kind : ProcessKind) (probe : Option Probe) (timeout : Option ℕ) (index : ℕ)
      → HeedsNext os rounds (await_kind os rounds sandrun kind probe timeout index)
  unfolding await_kind wait_for_service wait_for_job
  await_kind-Heeds service none timeout index s w = ends os tt
  await_kind-Heeds service (some probe) timeout index s w =
      service_loop-Heeds os rounds rounds index _ probe.startup_timeout_ms s _
  await_kind-Heeds run_to_completion probe none index s w = fails os
  await_kind-Heeds run_to_completion probe (some timeout) index s w =
      job_loop-Heeds os rounds rounds index _ timeout s _

  after_wait-Heeds :
      (outcome : WaitOutcome) (s : Supervisor) (w : os.World)
      → HeardWait os outcome
      → Heeds os (HeardStep os) (after_wait os rounds sandrun outcome s w)
  unfolding after_wait
  after_wait-Heeds completed s w h = ends os tt
  after_wait-Heeds (failed reason) s w h = ends os tt
  after_wait-Heeds (signal n) s w h = ends os h

  after_spawn-Heeds :
      (p : LaunchProcess) (s : Supervisor) (spawned : Result Bytes Supervisor) (w : os.World)
      → Heeds os (HeardStep os) (after_spawn os rounds sandrun p s spawned w)
  unfolding after_spawn await_start
  after_spawn-Heeds p s (err message) w = ends os tt
  after_spawn-Heeds p s (ok t) w =
      bind-Heeds os _ (await_kind-Heeds p.kind p.readiness_probe p.completion_timeout_ms _ t w)
        (λ outcome u v h. after_wait-Heeds outcome u v h)

  launch_turn-Heeds :
      (flag : Option ℕ) (p : LaunchProcess) (s : Supervisor) (w : os.World)
      → Heard os flag
      → Heeds os (HeardStep os) (launch_turn os rounds sandrun flag p s w)
  unfolding launch_turn launch_unless launch_command launch
  launch_turn-Heeds (some n) p s w h = ends os h
  launch_turn-Heeds none p s w h = go s.startup_failure
    where
      command :
          {E : Type 0} (built : Result E Command)
          → Heeds os (HeardStep os) (launch_command os rounds sandrun built p s w)
      command (err e) = fails os
      command (ok c) = after_spawn-Heeds p s _ _

      go :
          (failure : Option Failure)
          → Heeds os (HeardStep os) (launch_unless os rounds sandrun failure p s w)
      go (some reason) = ends os tt
      go none = command (build_command sandrun p)

  launch_rest-Heeds :
      (end : Option (Option ℕ))
      (rest : Supervisor → os.World → Result RunError (Option ℕ × Supervisor × os.World))
      (s : Supervisor) (w : os.World)
      → HeardStep os end
      → Heeds os (Heard os) (rest s w)
      → Heeds os (Heard os) (launch_rest os rounds sandrun end rest s w)
  unfolding launch_rest
  launch_rest-Heeds (some end) rest s w h k = ends os h
  launch_rest-Heeds none rest s w h k = k

  launch_all-Heeds :
      (ps : List LaunchProcess) (s : Supervisor) (w : os.World)
      → Heeds os (Heard os) (launch_all os rounds sandrun ps s w)
  unfolding launch_all launch_next
  launch_all-Heeds [] s w = ends os tt
  launch_all-Heeds (p ∷ ps) s w =
      bind-Heeds os _
        (bind-Heeds os _ (drive-Heeds os rounds 0 s w)
          (λ flag t v h. launch_turn-Heeds flag p t v h))
        (λ end t v h.
          launch_rest-Heeds end (launch_all os rounds sandrun ps) t v h (launch_all-Heeds ps t v))

  conclude-Heeds :
      (end : Option ℕ) (s : Supervisor) (w : os.World)
      → Heard os end
      → Heeds os (Heard os) (conclude os rounds sandrun end s w)
  unfolding conclude conclude_turn conclude_unless complete
  conclude-Heeds (some n) s w h = ends os h
  conclude-Heeds none s w h = go s.startup_failure
    where
      turn :
          (flag : Option ℕ) (t : Supervisor) (v : os.World)
          → Heard os flag
          → Heeds os (Heard os) (conclude_turn os rounds sandrun flag t v)
      turn (some n) t v k = ends os k
      turn none t v k = ends os tt

      go :
          (failure : Option Failure)
          → Heeds os (Heard os) (conclude_unless os rounds sandrun failure s w)
      go (some reason) = ends os tt
      go none = bind-Heeds os _ (drive-Heeds os rounds 0 s w) turn

  pub start_up-Heeds :
      (ps : List LaunchProcess) (s : Supervisor) (w : os.World)
      → Heeds os (Heard os) (start_up os rounds sandrun ps s w)
  unfolding start_up
  start_up-Heeds ps s w = bind-Heeds os _ (launch_all-Heeds ps s w) conclude-Heeds
