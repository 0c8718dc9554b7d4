-- ===== src/Tests/Supervision.antt =====
-- Runs of campd on the machine.
use sandcamp.Base.{
  All, Bytes, List, Option, [], all, any, arith, ascii, err, false, none, ok, refl, some, true, ℕ,
  ◌∷◌, ◌≡◌, ◌⊎◌,
}
use sandcamp.Campd.Launch.{LaunchProcess, build_command, main, set_vars, start_command}
use sandcamp.Campd.Probe.{new_probe, observe, ready}
use sandcamp.Campd.Spec.{Probe, run_to_completion, service}
use sandcamp.Campd.Supervisor.{
  ManagedProcess, Supervisor, exit_code, exited, fail_startup, new_supervisor, poll_interval,
  ready_now, services_ready, sigterm, update_ready, wait_error,
}
use sandcamp.Campd.Supervisor.Drive.{
  clean_up, completed, drive, finish_turn, job_clock, job_found, job_loop, job_outcome, job_process,
  job_state, job_turn, poll, service_clock, service_loop, service_outcome, service_process,
  service_turn, settle, take_event, turn_on, wait_duration, wait_for_job, wait_for_service,
}
use sandcamp.Campd.Supervisor.Drive.Total.{drive-returns}
use sandcamp.Campd.Supervisor.Keeps.{IsHeld}
use sandcamp.Campd.Supervisor.Keeps.Waits.{JobPassed, ServicePassed, wait_for_service-passed}
use sandcamp.Campd.Supervisor.Keeps.Jobs.{wait_for_job-passed}
use sandcamp.Campd.Supervisor.Reap.{
  add_cleanup, apply_probe_event, drain_event, drain_probe_events, exit_failure, mark_exited,
  position, process_cleanup, process_cleanups, reap_at, reap_available, reap_one, reap_result,
  record_exit, retain_cleanups, schedule_cleanup,
}
use sandcamp.Campd.Supervisor.Shutdown.{
  await_groups, collect, groups_to_end, process_groups, reap_any, retain_groups, shutdown,
  signal_all, terminate_groups,
}
use sandcamp.Campd.Supervisor.Shutdown.Signals.{noting, Terminates, shutdown-Terminates}
use sandcamp.Campd.Supervisor.Startup.{
  after_spawn, after_wait, attach_probe, await_kind, await_start, conclude, conclude_turn,
  conclude_unless, end_or, launch, launch_all, launch_command, launch_next, launch_rest,
  launch_turn, launch_unless, managed, probe_attached, run, spawn, start_up, started, supervise,
  complete,
}
use sandcamp.Campd.Supervisor.Startup.Begin.{Fails}
use sandcamp.Campd.Supervisor.Startup.Ready.{
  Running, start_up-outcome, stay, supervised-outcome, turn,
}
use sandcamp.Tests.Machine.{Machine, machine, fresh, machine-Finite}

abbrev health : Probe
health = record {
  path = ascii "/health";
  port = 8080;
  startup_timeout_ms = 5000;
  period_ms = 500;
  timeout_ms = 300;
  failure_threshold = 3;
  success_threshold = 1;
}

-- A job, and then a service with a probe.
abbrev launches : List LaunchProcess
launches =
    record {
      name = ascii "seed";
      kind = run_to_completion;
      command = ascii "/bin/seed" ∷ ascii "now" ∷ [];
      env = [];
      workdir = [];
      readiness_probe = none;
      completion_timeout_ms = some 2000;
      source = main none;
    }
    ∷ record {
      name = ascii "api";
      kind = service;
      command = ascii "/bin/api" ∷ [];
      env = [];
      workdir = [];
      readiness_probe = some health;
      completion_timeout_ms = none;
      source = main none;
    }
    ∷ []

abbrev seed_done : ManagedProcess
seed_done = record {
  name = ascii "seed";
  kind = run_to_completion;
  pid = 100;
  alive = false;
  exit_status = some (exited 0);
  residual_group = false;
  probe = none;
  probe_cancel = none;
}

abbrev api_ready : ManagedProcess
api_ready = record {
  name = ascii "api";
  kind = service;
  pid = 101;
  alive = true;
  exit_status = none;
  residual_group = false;
  probe = some (record {
    health = ready;
    consecutive_successes = 1;
    consecutive_failures = 0;
    success_threshold = 1;
    failure_threshold = 3;
  });
  probe_cancel = some false;
}

abbrev begun : Supervisor
begun = record {
  ready = true;
  processes = seed_done ∷ api_ready ∷ [];
  cleanups = [];
  initialization_complete = true;
  startup_failure = none;
}

abbrev later : Machine
later = record fresh { next_pid = 102; clock = 100 }

abbrev sandrun : Bytes
sandrun = ascii "/usr/bin/sandrun"

run_campd : Unit {0}
unfolding exit_code new_supervisor services_ready ready_now update_ready fail_startup position
    mark_exited exit_failure apply_probe_event add_cleanup schedule_cleanup record_exit reap_at
    reap_one reap_result reap_available drain_event drain_probe_events process_cleanup
    retain_cleanups process_cleanups job_outcome service_outcome job_state job_found settle
    take_event finish_turn poll turn_on drive wait_duration service_clock service_process
    service_turn service_loop wait_for_service clean_up job_clock job_process job_turn job_loop
    wait_for_job managed probe_attached attach_probe started spawn await_kind await_start after_wait
    after_spawn launch launch_command launch_unless launch_turn launch_next launch_rest launch_all
    complete conclude_turn conclude_unless conclude start_up end_or supervise run process_groups
    collect groups_to_end reap_any signal_all retain_groups await_groups terminate_groups shutdown
    new_probe observe start_command build_command set_vars all any
run_campd = tt

starts : start_up machine 10 sandrun launches new_supervisor fresh ≡ ok (none, begun, later)
unfolding run_campd
starts = refl

start_up-outcome_example : Fails begun ⊎ (Running launches begun × All IsHeld begun.processes)
start_up-outcome_example = start_up-outcome machine 10 sandrun launches fresh later begun starts

turns : drive machine 10 poll_interval begun later ≡ ok (none, begun, record later { clock = 150 })
unfolding run_campd
turns = refl

supervised-outcome_example : Fails begun ⊎ Running launches begun
supervised-outcome_example =
    supervised-outcome machine 10 sandrun launches fresh later (record later { clock = 150 }) begun
      begun starts (turn turns stay)

drive-returns_example :
    ((r : Option ℕ × Supervisor × Machine) × (drive machine 10 50 begun later ≡ ok r))
    ⊎ ((message : Bytes) × (drive machine 10 50 begun later ≡ err (wait_error message)))
drive-returns_example = drive-returns machine machine-Finite 10 50 begun later (omega arith)

-- SIGTERM comes behind the start: its five turns look at the flag ten times.
abbrev signalled : Machine
signalled = record fresh { flags = 0 ∷ 0 ∷ 0 ∷ 0 ∷ 0 ∷ 0 ∷ 0 ∷ 0 ∷ 0 ∷ 0 ∷ 15 ∷ [] }

abbrev stopped : Supervisor
stopped = record begun {
  ready = false;
  processes = seed_done ∷ record api_ready { probe_cancel = some true } ∷ [];
}

-- The service has been started when the wait for it begins.
abbrev api_starting : Supervisor
api_starting = record {
  ready = false;
  processes =
      seed_done
      ∷ managed
          (record {
            name = ascii "api";
            kind = service;
            command = ascii "/bin/api" ∷ [];
            env = [];
            workdir = [];
            readiness_probe = some health;
            completion_timeout_ms = none;
            source = main none;
          })
          101
      ∷ [];
  cleanups = [];
  initialization_complete = false;
  startup_failure = none;
}

abbrev api_passed : Supervisor
api_passed = record begun { ready = false; initialization_complete = false }

abbrev event_due : Machine
event_due = record later { due = record { process_index = 1; success = true } ∷ [] }

api-waited :
    wait_for_service machine 10 1 5000 api_starting event_due
    ≡ ok (completed, api_passed, record later { clock = 150 })
unfolding run_campd
api-waited = refl

wait_for_service-passed_example : ServicePassed 1 api_passed
wait_for_service-passed_example =
    wait_for_service-passed machine 10 1 5000 api_starting api_passed event_due
      (record later { clock = 150 }) api-waited

-- The job that has just been started, and its exit.
abbrev seed_running : Supervisor
seed_running = record api_starting {
  processes = record seed_done { alive = true; exit_status = none } ∷ [];
}

abbrev seed_passed : Supervisor
seed_passed = record api_starting { processes = seed_done ∷ [] }

abbrev exit_due : Machine
exit_due = record later { exits = (100, exited 0) ∷ [] }

seed-waited :
    wait_for_job machine 10 0 2000 seed_running exit_due
    ≡ ok (completed, seed_passed, record later { clock = 150 })
unfolding run_campd
seed-waited = refl

wait_for_job-passed_example : JobPassed 0 seed_passed
wait_for_job-passed_example =
    wait_for_job-passed machine 10 0 2000 seed_running seed_passed exit_due
      (record later { clock = 150 }) seed-waited

-- A dead process with descendants, a live one, and a cleanup of the first one's group.
abbrev mixed : Supervisor
mixed = record begun {
  processes = record seed_done { residual_group = true } ∷ api_ready ∷ [];
  cleanups = record { group = 100; kill_at = 5000; give_up_at = 6000; killed = false } ∷ [];
}

mixed-groups : groups_to_end mixed ≡ 101 ∷ 100 ∷ []
unfolding groups_to_end process_groups collect any
mixed-groups = refl

shutdown-Terminates_example :
    Terminates machine 10 mixed sigterm (shutdown (noting machine) 10 sigterm mixed (later, [])).2.1
shutdown-Terminates_example = shutdown-Terminates machine 10 sigterm mixed later
