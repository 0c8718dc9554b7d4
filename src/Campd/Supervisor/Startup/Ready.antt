-- ===== src/Campd/Supervisor/Startup/Ready.antt =====
-- When the ready endpoint says ready: behind the start, and in every later turn.
use sandcamp.Base.{
  ℕ, ◌≡◌, refl, ◌∙◌, subst, ◌⊎◌, inl, inr, true, Option, none, some, List, [], All, arith, Result,
  ok, err, ◌>>=◌, is_some, if◌then◌else◌, Bytes,
}
use sandcamp.Campd.Launch.{LaunchProcess}
use sandcamp.Campd.Supervisor.{
  poll_interval, Supervisor, Failure, new_supervisor, services_ready, update_ready, ready_now, Os,
  RunError,
}
use sandcamp.Campd.Supervisor.Drive.{drive}
use sandcamp.Campd.Supervisor.Startup.{
  launch_all, complete, conclude_turn, conclude_unless, conclude, start_up,
}
use sandcamp.Campd.Supervisor.Startup.Order.{AllStarted, AllStarted-Follow}
use sandcamp.Campd.Supervisor.Startup.Begin.{Progress, Fails, Progress-Keeps}
use sandcamp.Campd.Supervisor.Startup.Outcome.{Loops, launch_all-Loops}
use sandcamp.Campd.Supervisor.Keeps.{IsHeld}
use sandcamp.Campd.Supervisor.Keeps.Turns.{Settled, Settles, drive-Settles}

-- A start that is complete: all declarations are launched, in order, and the endpoint tells whether
-- all services are alive and pass their probes.
pub record Running (ps : List LaunchProcess) (s : Supervisor) : Type 0 where
  pub completed : s.initialization_complete ≡ true
  pub unfailed : s.startup_failure ≡ none
  pub started : AllStarted ps s.processes
  pub told : s.ready ≡ services_ready s.processes

-- The state in which `supervise` begins: failed, or running with all services alive.
abbrev pub Begins : List LaunchProcess → Supervisor → Type 0
Begins ps s = Fails s ⊎ (Running ps s × All IsHeld s.processes)

completing :
    (ps : List LaunchProcess) (s : Supervisor) (f : Option Failure)
    → Progress ps s
    → s.startup_failure ≡ f
    → Begins ps (
        update_ready (record s {
          initialization_complete =
              if is_some s.startup_failure then s.initialization_complete else true;
        }))
unfolding update_ready ready_now
completing ps s none h e = inr (
  record { completed = rw e; unfailed = e; started = h.started; told = rw e },
  h.formed.held h.incomplete e,
)
completing ps s (some f) h e = inl (record {
  incomplete = ground (arith, h.incomplete);
  unready = rw (e, h.incomplete);
  reason = f;
  failed = e;
})

abbrev Concludes :
    {W : Type 0} → List LaunchProcess → Result RunError (Option ℕ × Supervisor × W) → Type 0
Concludes ps (ok (none, t, w)) = Begins ps t
Concludes ps (ok (some n, t, w)) = Unit
Concludes ps (err e) = Unit

new_supervisor-Progress : Progress [] new_supervisor
unfolding new_supervisor
new_supervisor-Progress = record {
  formed = record { consistent = tt; held = λ c n. tt };
  incomplete = refl;
  unready = refl;
  started = tt;
}

pub Begins-Settled :
    (ps : List LaunchProcess) {s t : Supervisor}
    → Fails s ⊎ Running ps s
    → Settled s t
    → Fails t ⊎ Running ps t
unfolding ready_now
Begins-Settled ps {s} {t} (inl f) k = inl (record {
  incomplete = k.keeps.complete ∙ f.incomplete;
  unready = k.keeps.quiet f.incomplete f.unready;
  reason = f.reason;
  failed = k.keeps.failure f.reason f.failed;
})
Begins-Settled ps {s} {t} (inr r) k =
    let completed = k.keeps.complete ∙ r.completed in
    let unfailed = k.keeps.steady r.completed ∙ r.unfailed in
    inr (record {
      completed = completed;
      unfailed = unfailed;
      started =
          AllStarted-Follow ps s.processes t.processes r.started k.keeps.processes k.keeps.count;
      told = k.fresh ∙ rw (completed, unfailed);
    })

module _ (os : Os) (rounds : ℕ) (sandrun : Bytes) where
  open os use {World}

  complete-Concludes :
      (ps : List LaunchProcess) (s : Supervisor) (w : World)
      → Progress ps s
      → Concludes ps (complete os rounds sandrun s w)
  unfolding complete
  complete-Concludes ps s w h = completing ps s s.startup_failure h refl

  conclude_turn-Concludes :
      (ps : List LaunchProcess) (s : Supervisor)
      (r : Result RunError (Option ℕ × Supervisor × World))
      → Progress ps s
      → Settles s r
      → Concludes ps (r >>= λ x. conclude_turn os rounds sandrun x.0 x.1 x.2)
  unfolding conclude_turn
  conclude_turn-Concludes ps s (ok (some n, t, w)) h k = tt
  conclude_turn-Concludes ps s (ok (none, t, w)) h k =
      complete-Concludes ps t w (Progress-Keeps ps h k.keeps)
  conclude_turn-Concludes ps s (err e) h k = tt

  conclude_unless-Concludes :
      (ps : List LaunchProcess) (s : Supervisor) (w : World) (f : Option Failure)
      → Progress ps s
      → Concludes ps (conclude_unless os rounds sandrun f s w)
  unfolding conclude_unless
  conclude_unless-Concludes ps s w (some f) h = complete-Concludes ps s w h
  conclude_unless-Concludes ps s w none h =
      conclude_turn-Concludes ps s (drive os rounds 0 s w) h (drive-Settles os rounds 0 s w)

  -- A failed start is not completed.
  failed-Concludes :
      (ps : List LaunchProcess) (s : Supervisor) (w : World) (f : Option Failure)
      → s.startup_failure ≡ f
      → Fails s
      → Concludes ps (conclude_unless os rounds sandrun f s w)
  unfolding conclude_unless complete update_ready ready_now
  failed-Concludes ps s w none e h = let unfailed = h.failed in cc
  failed-Concludes ps s w (some f) e h = inl (record {
    incomplete = ground (arith, h.incomplete);
    unready = rw (e, h.incomplete);
    reason = f;
    failed = e;
  })

  conclude-Concludes :
      (ps : List LaunchProcess) (r : Result RunError (Option ℕ × Supervisor × World))
      → Loops os rounds sandrun ps r
      → Concludes ps (r >>= λ x. conclude os rounds sandrun x.0 x.1 x.2)
  unfolding conclude
  conclude-Concludes ps (ok (none, t, w)) (inl h) = failed-Concludes ps t w t.startup_failure refl h
  conclude-Concludes ps (ok (none, t, w)) (inr h) =
      conclude_unless-Concludes ps t w t.startup_failure h
  conclude-Concludes ps (ok (some n, t, w)) h = tt
  conclude-Concludes ps (err e) h = tt

  -- If the start returns and no signal has ended it, `supervise` begins in one of two states: the start has failed and
  -- the endpoint says unready; or all declarations are launched in their order, every job has
  -- exited with 0 and left no descendants, all services are alive, and the endpoint says ready
  -- exactly if all services pass their probes.
  pub start_up-outcome :
      (ps : List LaunchProcess) (w v : World) (s : Supervisor)
      → start_up os rounds sandrun ps new_supervisor w ≡ ok (none, s, v)
      → Fails s ⊎ (Running ps s × All IsHeld s.processes)
  unfolding start_up
  start_up-outcome ps w v s e = subst (Concludes ps) e (
      conclude-Concludes ps (launch_all os rounds sandrun ps new_supervisor w)
        (launch_all-Loops os rounds sandrun [] ps new_supervisor w new_supervisor-Progress))

  -- The states and worlds that turns of `supervise` without a signal lead to.
  pub data Reaches : Supervisor → World → Supervisor → World → Type 0 where
    stay : {s : Supervisor} {w : World} → Reaches s w s w
    turn :
        {s t u : Supervisor} {w v x : World}
        → drive os rounds poll_interval s w ≡ ok (none, t, v)
        → Reaches t v u x
        → Reaches s w u x

  Reaches-outcome :
      (ps : List LaunchProcess) {s t : Supervisor} {w v : World}
      → Reaches s w t v
      → Fails s ⊎ Running ps s
      → Fails t ⊎ Running ps t
  Reaches-outcome ps stay h = h
  Reaches-outcome ps (turn {s} {t} {u} {w} {v} {x} e r) h =
      Reaches-outcome ps r
        (Begins-Settled ps h (subst (Settles s) e (drive-Settles os rounds poll_interval s w)))

  -- In every state that supervision reaches behind a start: if the start has failed, the endpoint
  -- still says unready; otherwise it still says ready exactly if all services are alive and pass
  -- their probes, and the launched processes are those declared.
  pub supervised-outcome :
      (ps : List LaunchProcess) (w v x : World) (s t : Supervisor)
      → start_up os rounds sandrun ps new_supervisor w ≡ ok (none, s, v)
      → Reaches s v t x
      → Fails t ⊎ Running ps t
  supervised-outcome ps w v x s t e r = elim (start_up-outcome ps w v s e) [
    | inl f ↦ Reaches-outcome ps r (inl f)
    | inr h ↦ Reaches-outcome ps r (inr h.0)
  ]
