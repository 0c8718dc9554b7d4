-- ===== src/Campd/Supervisor/Startup/Outcome.antt =====
-- The loop of `run` over the declarations, and the states in which `supervise` begins.
use sandcamp.Base.{
  ℕ, ◌≡◌, sym, ◌∙◌, ap, subst, ◌⊎◌, inl, inr, Option, none, some, List, [], ◌∷◌, ◌++◌, length,
  get_elem?, append_assoc, append-nil, Result, ok, err, ◌>>=◌, Bytes,
}
use sandcamp.Campd.Launch.{LaunchProcess, Command, build_command}
use sandcamp.Campd.Supervisor.{ManagedProcess, Supervisor, Failure, Os, RunError, not_started}
use sandcamp.Campd.Supervisor.Drive.{WaitOutcome, completed, failed, signal, drive}
use sandcamp.Campd.Supervisor.Startup.{
  managed, spawn, await_start, after_wait, after_spawn, launch, launch_command, launch_unless,
  launch_turn, launch_next, launch_rest, launch_all, Rest,
}
use sandcamp.Campd.Supervisor.Startup.Order.{
  AllStarted-snoc, StartPassed, StartPassed-Done, Started,
}
use sandcamp.Campd.Supervisor.Startup.Begin.{
  Progress, Fails, Progress-Keeps, fail_startup-Fails, Adds, Extended, Added-Extended, spawn-Adds,
  await_kind-Waits,
}
use sandcamp.Campd.Supervisor.Keeps.{Same, Follow}
use sandcamp.Campd.Supervisor.Keeps.Turns.{Settled, Settles, drive-Settles}
use sandcamp.Campd.Supervisor.Keeps.Waits.{Waits}

-- A step of the loop, which goes on behind `ps`, breaks, or ends by a signal.
abbrev pub Steps :
    {W : Type 0}
    → List LaunchProcess
    → Result RunError (Option (Option ℕ) × Supervisor × W)
    → Type 0
Steps ps (ok (none, t, w)) = Progress ps t
Steps ps (ok (some none, t, w)) = Fails t
Steps ps (ok (some (some n), t, w)) = Unit
Steps ps (err e) = Unit

Extended-Progress :
    (ps : List LaunchProcess) (p : LaunchProcess) (s t u : Supervisor)
    → Progress ps s
    → Extended p s t
    → Settled t u
    → StartPassed p.kind p.readiness_probe (length s.processes) u
    → Progress (ps ++ p ∷ []) u
unfolding managed
Extended-Progress ps p s t u h x k passed =
    let m = managed p x.pid in
    let formed = k.keeps.formed x.formed in
    let last : (n : ManagedProcess)
        → get_elem? u.processes (length s.processes) ≡ some n
        → Same m n
        → Started p n =
      λ n e same. record {
        name = same.name;
        kind = same.kind;
        done = StartPassed-Done p.kind p.readiness_probe (length s.processes) u n formed passed e;
      } in
    record {
      formed = formed;
      incomplete = k.keeps.complete ∙ x.incomplete;
      unready = k.keeps.quiet x.incomplete x.unready;
      started =
          AllStarted-snoc ps p s.processes m u.processes h.started
            (subst (λ ms. Follow ms u.processes) x.processes k.keeps.processes)
            (k.keeps.count ∙ ap length x.processes) last;
    }

module _ (os : Os) (rounds : ℕ) (sandrun : Bytes) where
  open os use {World}

  after_wait-Steps :
      (ps : List LaunchProcess) (p : LaunchProcess) (s t : Supervisor)
      (r : Result RunError (WaitOutcome × Supervisor × World))
      → Progress ps s
      → Extended p s t
      → Waits (StartPassed p.kind p.readiness_probe (length s.processes)) t r
      → Steps (ps ++ p ∷ []) (r >>= λ x. after_wait os rounds sandrun x.0 x.1 x.2)
  unfolding after_wait
  after_wait-Steps ps p s t (ok (completed, u, w)) h x k = Extended-Progress ps p s t u h x k.0 k.1
  after_wait-Steps ps p s t (ok (failed f, u, w)) h x k = fail_startup-Fails u f
  after_wait-Steps ps p s t (ok (signal n, u, w)) h x k = tt
  after_wait-Steps ps p s t (err e) h x k = tt

  after_spawn-Steps :
      (ps : List LaunchProcess) (p : LaunchProcess) (s : Supervisor) (r : Result Bytes Supervisor)
      (w : World)
      → Progress ps s
      → Adds p s (r, w)
      → Steps (ps ++ p ∷ []) (after_spawn os rounds sandrun p s r w)
  unfolding after_spawn await_start
  after_spawn-Steps ps p s (ok t) w h a =
      let x = Added-Extended ps p s t h a in
      after_wait-Steps ps p s t _ h x (
        await_kind-Waits os rounds sandrun p.kind p.readiness_probe p.completion_timeout_ms
          (length s.processes) t w x.settled)
  after_spawn-Steps ps p s (err m) w h a = fail_startup-Fails s (not_started p.name m)

  launch_command-Steps :
      {E : Type 0} (ps : List LaunchProcess) (p : LaunchProcess) (c : Result E Command)
      (s : Supervisor) (w : World)
      → Progress ps s
      → Steps (ps ++ p ∷ []) (launch_command os rounds sandrun c p s w)
  unfolding launch_command launch
  launch_command-Steps ps p (ok c) s w h =
      let (r, w₁) = spawn os rounds sandrun p c s w in
      after_spawn-Steps ps p s r w₁ h (spawn-Adds os rounds sandrun p c s w)
  launch_command-Steps ps p (err e) s w h = tt

  launch_unless-Steps :
      (ps : List LaunchProcess) (p : LaunchProcess) (f : Option Failure) (s : Supervisor)
      (w : World)
      → Progress ps s
      → Steps (ps ++ p ∷ []) (launch_unless os rounds sandrun f p s w)
  unfolding launch_unless
  launch_unless-Steps ps p (some f) s w h = fail_startup-Fails s f
  launch_unless-Steps ps p none s w h = launch_command-Steps ps p (build_command sandrun p) s w h

  launch_turn-Steps :
      (ps : List LaunchProcess) (p : LaunchProcess) (s : Supervisor)
      (r : Result RunError (Option ℕ × Supervisor × World))
      → Progress ps s
      → Settles s r
      → Steps (ps ++ p ∷ []) (r >>= λ x. launch_turn os rounds sandrun x.0 p x.1 x.2)
  unfolding launch_turn
  launch_turn-Steps ps p s (ok (some n, t, w)) h k = tt
  launch_turn-Steps ps p s (ok (none, t, w)) h k =
      launch_unless-Steps ps p t.startup_failure t w (Progress-Keeps ps h k.keeps)
  launch_turn-Steps ps p s (err e) h k = tt

  launch_next-Steps :
      (ps : List LaunchProcess) (p : LaunchProcess) (s : Supervisor) (w : World)
      → Progress ps s
      → Steps (ps ++ p ∷ []) (launch_next os rounds sandrun p s w)
  unfolding launch_next
  launch_next-Steps ps p s w h =
      launch_turn-Steps ps p s (drive os rounds 0 s w) h (drive-Settles os rounds 0 s w)

  -- The loop, by its end, a `break`, or a signal.
  abbrev pub Loops : List LaunchProcess → Result RunError (Option ℕ × Supervisor × World) → Type 0
  Loops ps (ok (none, t, w)) = Fails t ⊎ Progress ps t
  Loops ps (ok (some n, t, w)) = Unit
  Loops ps (err e) = Unit

  launch_rest-Loops :
      (ps qs : List LaunchProcess) (r : Result RunError (Option (Option ℕ) × Supervisor × World))
      (rest : Rest os rounds sandrun)
      → Steps ps r
      → ((t : Supervisor) (w : World) → Progress ps t → Loops qs (rest t w))
      → Loops qs (r >>= λ x. launch_rest os rounds sandrun x.0 rest x.1 x.2)
  unfolding launch_rest
  launch_rest-Loops ps qs (ok (none, t, w)) rest h k = k t w h
  launch_rest-Loops ps qs (ok (some none, t, w)) rest h k = inl h
  launch_rest-Loops ps qs (ok (some (some n), t, w)) rest h k = tt
  launch_rest-Loops ps qs (err e) rest h k = tt

  pub launch_all-Loops :
      (ps qs : List LaunchProcess) (s : Supervisor) (w : World)
      → Progress ps s
      → Loops (ps ++ qs) (launch_all os rounds sandrun qs s w)
  unfolding launch_all
  launch_all-Loops ps [] s w h = inr (subst (λ ds. Progress ds s) (sym (append-nil ps)) h)
  launch_all-Loops ps (q ∷ qs) s w h =
      launch_rest-Loops (ps ++ q ∷ []) (ps ++ q ∷ qs) (launch_next os rounds sandrun q s w)
        (launch_all os rounds sandrun qs) (launch_next-Steps ps q s w h)
        (λ t v k.
          subst (λ ds. Loops ds (launch_all os rounds sandrun qs t v)) (append_assoc ps (q ∷ []) qs)
            (launch_all-Loops (ps ++ q ∷ []) qs t v k))
