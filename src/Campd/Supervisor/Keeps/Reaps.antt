-- ===== src/Campd/Supervisor/Keeps/Reaps.antt =====
-- `reap_available`, `drain_probe_events` and the cleanups keep what is settled.
use sandcamp.Base.{
  ℕ, zero, suc, ◌≡◌, refl, true, not, ◌||◌, Option, none, some, List, ◌==◌, if-cases, All-set, any,
  get_elem?, set, Result,
}
use sandcamp.Campd.Supervisor.{
  WaitStatus, ManagedProcess, ProbeEvent, PendingCleanup, Supervisor, Waited, reaped, none_ready,
  interrupted, no_child, wait_failed, Os, RunError,
}
use sandcamp.Campd.Supervisor.Reap.{
  position, mark_exited, exit_failure, apply_probe_event, add_cleanup, schedule_cleanup,
  record_exit, reap_at, reap_one, reap_result, reap_available, drain_event, drain_probe_events,
  process_cleanups,
}
use sandcamp.Campd.Supervisor.Keeps.{
  Follow-refl, Follow-set, length-set, position-alive, Keeps, Keeps-refl, Keeps-trans, IsConsistent,
  IsHeld, mark_exited-IsConsistent,
}
use sandcamp.Campd.Supervisor.Keeps.Exits.{
  apply_probe_event-Keeps, mark_exited-Same, exit_failure-keeps, exit_failure-none,
  exit_failure-steady, exit_failure-IsHeld, Yields, Yields-trans,
}

module _ (os : Os) where
  open os use {World, waitpid, group_exists, signal_group, now, try_recv, signal_flag}

  -- The second of two states that come with a world.
  abbrev pub On : Supervisor → Supervisor × World → Type 0
  On s r = Keeps s r.0

  pub cleanups_only :
      (t : Supervisor) (cs : List PendingCleanup) → Keeps t (record t { cleanups = cs })
  cleanups_only t cs = record {
    processes = Follow-refl t.processes;
    count = refl;
    complete = refl;
    failure = λ f e. e;
    quiet = λ c r. r;
    formed = λ h. record { consistent = h.consistent; held = h.held };
    steady = λ c. refl;
  }

  add_cleanup-Keeps :
      (group : ℕ) (s : Supervisor) (w : World) → Keeps s (add_cleanup os group s w).0
  unfolding add_cleanup
  add_cleanup-Keeps group s w = cleanups_only s (add_cleanup os group s w).0.cleanups

  pub schedule_cleanup-Keeps :
      (group : ℕ) (s : Supervisor) (w : World) → Keeps s (schedule_cleanup os group s w).0
  unfolding schedule_cleanup
  schedule_cleanup-Keeps group s w =
      let w₁ = (group_exists group w).1 in
      if-cases (On s)
        (not (group_exists group w).0 || any (λ (c : PendingCleanup). c.group == group) s.cleanups)
        (s, w₁) (add_cleanup os group s w₁) (λ e. Keeps-refl s) (λ e. add_cleanup-Keeps group s w₁)

  record_exit-Keeps :
      (pid : ℕ) (status : WaitStatus) (i : ℕ) (p : ManagedProcess) (s : Supervisor) (w : World)
      → get_elem? s.processes i ≡ some p
      → p.alive ≡ true
      → Keeps s (record_exit os pid status i p s w).0
  unfolding record_exit
  record_exit-Keeps pid status i p s w found alive =
      let residual = (group_exists pid w).0 in
      let t : Supervisor = record s {
        processes = set s.processes i (mark_exited status residual p);
        startup_failure = exit_failure s p status;
      } in
      let first : Keeps s t = record {
        processes =
            Follow-set s.processes i p (mark_exited status residual p) found
              (mark_exited-Same status residual p alive);
        count = length-set s.processes i (mark_exited status residual p);
        complete = refl;
        failure = λ f e. exit_failure-keeps s p status f e;
        quiet = λ c r. r;
        formed = λ h. record {
          consistent =
              All-set IsConsistent s.processes i (mark_exited status residual p) h.consistent
                (mark_exited-IsConsistent status residual p);
          held = λ c n.
              All-set IsHeld s.processes i (mark_exited status residual p)
                (h.held c (exit_failure-none s p status n).0)
                (exit_failure-IsHeld s p status residual c n);
        };
        steady = λ c. exit_failure-steady s p status c;
      } in
      let w₁ = (group_exists pid w).1 in
      if-cases (On s) residual (schedule_cleanup os pid t w₁) (t, w₁)
        (λ e. Keeps-trans first (schedule_cleanup-Keeps pid t w₁)) (λ e. first)

  reap_at-Keeps :
      (pid : ℕ) (status : WaitStatus) (found : Option ℕ) (s : Supervisor) (w : World)
      → position pid s.processes ≡ found
      → Keeps s (reap_at os pid status found s w).0
  unfolding reap_at
  reap_at-Keeps pid status none s w e = Keeps-refl s
  reap_at-Keeps pid status (some i) s w e = go (get_elem? s.processes i) refl
    where
      go :
          (found : Option ManagedProcess)
          → get_elem? s.processes i ≡ found
          → On s (elim found [ none ↦ (s, w) | some p ↦ record_exit os pid status i p s w ])
      go none f = Keeps-refl s
      go (some p) f =
          record_exit-Keeps pid status i p s w f (position-alive pid s.processes i p e f)

  reap_one-Keeps :
      (pid : ℕ) (status : WaitStatus) (s : Supervisor) (w : World)
      → Keeps s (reap_one os pid status s w).0
  unfolding reap_one
  reap_one-Keeps pid status s w = reap_at-Keeps pid status (position pid s.processes) s w refl

  -- A loop that keeps the state from wherever it starts.
  abbrev pub Rest : (Supervisor → World → Result RunError (Supervisor × World)) → Type 0
  Rest rest = (s : Supervisor) (w : World) → Yields s (rest s w)

  reap_result-Yields :
      (r : Waited) (rest : Supervisor → World → Result RunError (Supervisor × World))
      → Rest rest
      → Rest (reap_result os r rest)
  unfolding reap_result
  reap_result-Yields (reaped pid status) rest h s w =
      let (t, w₁) = reap_one os pid status s w in
      Yields-trans (rest t w₁) (reap_one-Keeps pid status s w) (h t w₁)
  reap_result-Yields none_ready rest h s w = Keeps-refl s
  reap_result-Yields interrupted rest h s w = h s w
  reap_result-Yields no_child rest h s w = Keeps-refl s
  reap_result-Yields (wait_failed m) rest h s w = tt

  pub reap_available-Yields : (rounds : ℕ) → Rest (reap_available os rounds)
  unfolding reap_available
  reap_available-Yields zero s w = tt
  reap_available-Yields (suc rounds) s w =
      let (r, w₁) = waitpid w in
      reap_result-Yields r (reap_available os rounds) (reap_available-Yields rounds) s w₁

  drain_event-Yields :
      (e : Option ProbeEvent) (rest : Supervisor → World → Result RunError (Supervisor × World))
      → Rest rest
      → Rest (drain_event os e rest)
  unfolding drain_event
  drain_event-Yields none rest h s w = Keeps-refl s
  drain_event-Yields (some e) rest h s w =
      Yields-trans (rest (apply_probe_event s e) w) (apply_probe_event-Keeps s e)
        (h (apply_probe_event s e) w)

  pub drain_probe_events-Yields : (rounds : ℕ) → Rest (drain_probe_events os rounds)
  unfolding drain_probe_events
  drain_probe_events-Yields zero s w = tt
  drain_probe_events-Yields (suc rounds) s w =
      let (e, w₁) = try_recv w in
      drain_event-Yields e (drain_probe_events os rounds) (drain_probe_events-Yields rounds) s w₁

  pub process_cleanups-Keeps : (s : Supervisor) (w : World) → Keeps s (process_cleanups os s w).0
  unfolding process_cleanups
  process_cleanups-Keeps s w = cleanups_only s (process_cleanups os s w).0.cleanups
