-- ===== src/Campd/Supervisor/Startup/Begin.antt =====
-- The states of a start that goes on, and of one that has failed; the start of one process.
use sandcamp.Base.{
  ℕ, ◌≡◌, refl, sym, ◌∙◌, subst, false, Option, none, some, List, [], ◌∷◌, ◌++◌, length, All-append,
  arith, Result, ok, err, Bytes,
}
use sandcamp.Campd.Spec.{ProcessKind, service, run_to_completion, Probe}
use sandcamp.Campd.Launch.{LaunchProcess, Command}
use sandcamp.Campd.Supervisor.{
  Supervisor, Failure, update_ready, ready_now, fail_startup, Os, first_failure,
}
use sandcamp.Campd.Supervisor.Startup.{
  identity_of, managed, adds, probe_attached, attach_probe, started, spawn, await_kind,
}
use sandcamp.Campd.Supervisor.Startup.Order.{AllStarted, AllStarted-Follow, StartPassed}
use sandcamp.Campd.Supervisor.Keeps.{Keeps, Keeps-refl, IsFormed, IsConsistent, IsHeld}
use sandcamp.Campd.Supervisor.Keeps.Turns.{Settled}
use sandcamp.Campd.Supervisor.Keeps.Waits.{Waits, wait_for_service-Waits}
use sandcamp.Campd.Supervisor.Keeps.Jobs.{wait_for_job-Waits}

-- A start that goes on: the declarations so far are launched, and the endpoint says unready.
pub record Progress (ps : List LaunchProcess) (s : Supervisor) : Type 0 where
  pub formed : IsFormed s
  pub incomplete : s.initialization_complete ≡ false
  pub unready : s.ready ≡ false
  pub started : AllStarted ps s.processes

-- A start that has failed.
pub record Fails (s : Supervisor) : Type 0 where
  pub incomplete : s.initialization_complete ≡ false
  pub unready : s.ready ≡ false
  pub reason : Failure
  pub failed : s.startup_failure ≡ some reason

pub Progress-Keeps :
    (ps : List LaunchProcess) {s t : Supervisor} → Progress ps s → Keeps s t → Progress ps t
Progress-Keeps ps {s} {t} h k = record {
  formed = k.formed h.formed;
  incomplete = k.complete ∙ h.incomplete;
  unready = k.quiet h.incomplete h.unready;
  started = AllStarted-Follow ps s.processes t.processes h.started k.processes k.count;
}

pub fail_startup-Fails : (s : Supervisor) (reason : Failure) → Fails (fail_startup s reason)
unfolding fail_startup update_ready ready_now
fail_startup-Fails s reason = go s.startup_failure refl
  where
    go :
        (f : Option Failure)
        → s.startup_failure ≡ f
        → Fails (record s {
          ready = false;
          startup_failure = first_failure f reason;
          initialization_complete = false;
        })
    go none e = record { incomplete = refl; unready = refl; reason = reason; failed = refl }
    go (some g) e = record { incomplete = refl; unready = refl; reason = g; failed = refl }

-- A process that has just been started.
pub record Added (p : LaunchProcess) (s t : Supervisor) : Type 0 where
  pub pid : ℕ
  pub same : t ≡ adds s (managed p pid)

abbrev pub Adds : {W : Type 0} → LaunchProcess → Supervisor → Result Bytes Supervisor × W → Type 0
Adds p s (ok t, w) = Added p s t
Adds p s (err e, w) = Unit

managed-IsConsistent : (p : LaunchProcess) (pid : ℕ) → IsConsistent (managed p pid)
unfolding managed
managed-IsConsistent p pid = refl

managed-IsHeld : (p : LaunchProcess) (pid : ℕ) → IsHeld (managed p pid)
unfolding managed
managed-IsHeld p pid = ground arith

-- The state behind a start of a process.
pub record Extended (p : LaunchProcess) (s t : Supervisor) : Type 0 where
  pub formed : IsFormed t
  pub incomplete : t.initialization_complete ≡ false
  pub unready : t.ready ≡ false
  pub settled : Settled t t
  pub pid : ℕ
  pub processes : t.processes ≡ s.processes ++ managed p pid ∷ []

adds-Extended :
    (ps : List LaunchProcess) (p : LaunchProcess) (s : Supervisor) (pid : ℕ)
    → Progress ps s
    → Extended p s (adds s (managed p pid))
unfolding update_ready ready_now
adds-Extended ps p s pid h = record {
  formed = record {
    consistent =
        All-append IsConsistent s.processes (managed p pid ∷ []) h.formed.consistent
          (managed-IsConsistent p pid, tt);
    held = λ c n.
        All-append IsHeld s.processes (managed p pid ∷ []) (h.formed.held c n)
          (managed-IsHeld p pid, tt);
  };
  incomplete = h.incomplete;
  unready = rw h.incomplete;
  settled = record { keeps = Keeps-refl (adds s (managed p pid)); fresh = refl };
  pid = pid;
  processes = refl;
}

pub Added-Extended :
    (ps : List LaunchProcess) (p : LaunchProcess) (s t : Supervisor)
    → Progress ps s
    → Added p s t
    → Extended p s t
Added-Extended ps p s t h a = subst (Extended p s) (sym a.same) (adds-Extended ps p s a.pid h)

module _ (os : Os) (rounds : ℕ) (sandrun : Bytes) where
  open os use {World, start, start_probe}

  probe_attached-Adds :
      (refused : Option Bytes) (p : LaunchProcess) (pid : ℕ) (s : Supervisor) (w : World)
      → Adds p s (probe_attached os rounds sandrun refused p pid s w)
  unfolding probe_attached
  probe_attached-Adds (some m) p pid s w = tt
  probe_attached-Adds none p pid s w = record { pid = pid; same = refl }

  attach_probe-Adds :
      (probe : Option Probe) (p : LaunchProcess) (pid : ℕ) (s : Supervisor) (w : World)
      → Adds p s (attach_probe os rounds sandrun probe p pid s w)
  unfolding attach_probe
  attach_probe-Adds none p pid s w = record { pid = pid; same = refl }
  attach_probe-Adds (some probe) p pid s w =
      let (refused, w₁) = start_probe (length s.processes) probe w in
      probe_attached-Adds refused p pid s w₁

  started-Adds :
      (r : Result Bytes ℕ) (p : LaunchProcess) (s : Supervisor) (w : World)
      → Adds p s (started os rounds sandrun r p s w)
  unfolding started
  started-Adds (ok pid) p s w = attach_probe-Adds p.readiness_probe p pid s w
  started-Adds (err e) p s w = tt

  pub spawn-Adds :
      (p : LaunchProcess) (c : Command) (s : Supervisor) (w : World)
      → Adds p s (spawn os rounds sandrun p c s w)
  unfolding spawn
  spawn-Adds p c s w = let (r, w₁) = start c (identity_of p.source) w in started-Adds r p s w₁

  pub await_kind-Waits :
      (k : ProcessKind) (probe : Option Probe) (timeout : Option ℕ) (index : ℕ) (s : Supervisor)
      (w : World)
      → Settled s s
      → Waits (StartPassed k probe index) s (await_kind os rounds sandrun k probe timeout index s w)
  unfolding await_kind
  await_kind-Waits service none timeout index s w h = (h, tt)
  await_kind-Waits service (some p) timeout index s w h =
      wait_for_service-Waits os rounds index p.startup_timeout_ms s w
  await_kind-Waits run_to_completion probe none index s w h = tt
  await_kind-Waits run_to_completion probe (some timeout) index s w h =
      wait_for_job-Waits os rounds index timeout s w
