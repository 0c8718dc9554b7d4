-- ===== src/Campd/Supervisor/Drive/Returns.antt =====
-- A turn of the supervisor returns: its loops end where the system reports finitely often.
use sandcamp.Base.{
  ℕ, zero, suc, ◌+◌, ◌≤◌, ◌<◌, not, ◌||◌, Option, none, some, List, [], ◌∷◌, arith, get_elem?, any,
  ◌==◌, set, if-cases, Result, ok, err,
}
use sandcamp.Campd.Supervisor.{
  sigkill, sigterm, WaitStatus, ManagedProcess, ProbeEvent, PendingCleanup, Supervisor, Waited,
  reaped, none_ready, interrupted, no_child, wait_failed, Os, RunError, wait_error, panicked,
  out_of_rounds,
}
use sandcamp.Campd.Supervisor.Reap.{
  apply_probe_event, add_cleanup, schedule_cleanup, record_exit, reap_at, reap_one, reap_result,
  reap_available, drain_event, drain_probe_events, process_cleanup, retain_cleanups,
  process_cleanups, position, mark_exited, exit_failure,
}

-- An exit or an interruption is a report; other answers of `waitpid` are none.
abbrev pub reports : Waited → ℕ
reports (reaped pid status) = 1
reports interrupted = 1
reports _ = 0

abbrev pub events : Option ProbeEvent → ℕ
events none = 0
events (some e) = 1

-- A bound on the reports that the system will still make before campd starts another process: each
-- report uses it up, and no call of a turn raises it.
pub record Finite (os : Os) : Type 0 where
  pub left : os.World → ℕ
  pub waitpid : (w : os.World) → left (os.waitpid w).1 + reports (os.waitpid w).0 ≤ left w
  pub try_recv : (w : os.World) → left (os.try_recv w).1 + events (os.try_recv w).0 ≤ left w
  pub recv_timeout : (n : ℕ) (w : os.World) → left (os.recv_timeout n w).1 ≤ left w
  pub group_exists : (g : ℕ) (w : os.World) → left (os.group_exists g w).1 ≤ left w
  pub signal_group : (g n : ℕ) (w : os.World) → left (os.signal_group g n w) ≤ left w
  pub now : (w : os.World) → left (os.now w).1 ≤ left w
  pub signal_flag : (w : os.World) → left (os.signal_flag w).1 ≤ left w

module _ (os : Os) (finite : Finite os) where
  open os use {World, waitpid, group_exists, signal_group, now, try_recv, recv_timeout, signal_flag}
  open finite use {left}

  -- A state and a world in which no more is left than before.
  abbrev Below : World → Supervisor × World → Type 0
  Below w r = left r.1 ≤ left w

  add_cleanup-Below : (group : ℕ) (s : Supervisor) (w : World) → Below w (add_cleanup os group s w)
  unfolding add_cleanup
  add_cleanup-Below group s w =
      omega (arith, finite.now (signal_group group sigterm w), finite.signal_group group sigterm w)

  schedule_cleanup-Below :
      (group : ℕ) (s : Supervisor) (w : World) → Below w (schedule_cleanup os group s w)
  unfolding schedule_cleanup
  schedule_cleanup-Below group s w =
      let w₁ = (group_exists group w).1 in
      let first = finite.group_exists group w in
      if-cases (Below w)
        (not (group_exists group w).0 || any (λ (c : PendingCleanup). c.group == group) s.cleanups)
        (s, w₁) (add_cleanup os group s w₁) (λ e. first)
        (λ e. omega (arith, first, add_cleanup-Below group s w₁))

  record_exit-Below :
      (pid : ℕ) (status : WaitStatus) (i : ℕ) (p : ManagedProcess) (s : Supervisor) (w : World)
      → Below w (record_exit os pid status i p s w)
  unfolding record_exit
  record_exit-Below pid status i p s w =
      let residual = (group_exists pid w).0 in
      let w₁ = (group_exists pid w).1 in
      let first = finite.group_exists pid w in
      let t : Supervisor = record s {
        processes = set s.processes i (mark_exited status residual p);
        startup_failure = exit_failure s p status;
      } in
      if-cases (Below w) residual (schedule_cleanup os pid t w₁) (t, w₁)
        (λ e. omega (arith, first, schedule_cleanup-Below pid t w₁)) (λ e. first)

  reap_found-Below :
      (pid : ℕ) (status : WaitStatus) (i : ℕ) (found : Option ManagedProcess) (s : Supervisor)
      (w : World)
      → Below w (elim found [ none ↦ (s, w) | some p ↦ record_exit os pid status i p s w ])
  reap_found-Below pid status i none s w = omega arith
  reap_found-Below pid status i (some p) s w = record_exit-Below pid status i p s w

  reap_at-Below :
      (pid : ℕ) (status : WaitStatus) (at : Option ℕ) (s : Supervisor) (w : World)
      → Below w (reap_at os pid status at s w)
  unfolding reap_at
  reap_at-Below pid status none s w = omega arith
  reap_at-Below pid status (some i) s w =
      reap_found-Below pid status i (get_elem? s.processes i) s w

  -- A loop that returns from every world in which fewer than `rounds` reports are left, or stops
  -- with the error of `waitpid`.
  abbrev pub Finishes : World → Result RunError (Supervisor × World) → Type 0
  Finishes w (ok (t, v)) = left v ≤ left w
  Finishes w (err (wait_error m)) = Unit
  Finishes w (err panicked) = ⊥
  Finishes w (err out_of_rounds) = ⊥

  pub Finishes-trans :
      (w v : World) (r : Result RunError (Supervisor × World))
      → left v ≤ left w
      → Finishes v r
      → Finishes w r
  Finishes-trans w v (ok (t, x)) a b = omega (arith, a, b)
  Finishes-trans w v (err (wait_error m)) a b = tt
  Finishes-trans w v (err panicked) a b = b
  Finishes-trans w v (err out_of_rounds) a b = b

  abbrev Rest : ℕ → (Supervisor → World → Result RunError (Supervisor × World)) → Type 0
  Rest rounds rest = (s : Supervisor) (w : World) → left w < rounds → Finishes w (rest s w)

  reap_result-Finishes :
      (rounds : ℕ) (r : Waited) (rest : Supervisor → World → Result RunError (Supervisor × World))
      (s : Supervisor) (w : World)
      → Rest rounds rest
      → left w + reports r < suc rounds
      → Finishes w (reap_result os r rest s w)
  unfolding reap_result reap_one
  reap_result-Finishes rounds (reaped pid status) rest s w h e =
      let (t, v) = reap_at os pid status (position pid s.processes) s w in
      let below = reap_at-Below pid status (position pid s.processes) s w in
      Finishes-trans w v (rest t v) below (h t v (omega (arith, below, e)))
  reap_result-Finishes rounds none_ready rest s w h e = omega arith
  reap_result-Finishes rounds interrupted rest s w h e = h s w (omega (arith, e))
  reap_result-Finishes rounds no_child rest s w h e = omega arith
  reap_result-Finishes rounds (wait_failed m) rest s w h e = tt

  pub reap_available-Finishes : (rounds : ℕ) → Rest rounds (reap_available os rounds)
  unfolding reap_available
  reap_available-Finishes zero s w e = absurd (omega (arith, e))
  reap_available-Finishes (suc rounds) s w e =
      let (r, v) = waitpid w in
      let used = finite.waitpid w in
      Finishes-trans w v (reap_result os r (reap_available os rounds) s v) (omega (arith, used)) (
        reap_result-Finishes rounds r (reap_available os rounds) s v
          (reap_available-Finishes rounds) (omega (arith, used, e)))

  drain_event-Finishes :
      (rounds : ℕ) (event : Option ProbeEvent)
      (rest : Supervisor → World → Result RunError (Supervisor × World)) (s : Supervisor)
      (w : World)
      → Rest rounds rest
      → left w + events event < suc rounds
      → Finishes w (drain_event os event rest s w)
  unfolding drain_event
  drain_event-Finishes rounds none rest s w h e = omega arith
  drain_event-Finishes rounds (some event) rest s w h e =
      h (apply_probe_event s event) w (omega (arith, e))

  pub drain_probe_events-Finishes : (rounds : ℕ) → Rest rounds (drain_probe_events os rounds)
  unfolding drain_probe_events
  drain_probe_events-Finishes zero s w e = absurd (omega (arith, e))
  drain_probe_events-Finishes (suc rounds) s w e =
      let (event, v) = try_recv w in
      let used = finite.try_recv w in
      Finishes-trans w v (drain_event os event (drain_probe_events os rounds) s v)
        (omega (arith, used))
        (drain_event-Finishes rounds event (drain_probe_events os rounds) s v
          (drain_probe_events-Finishes rounds) (omega (arith, used, e)))

  process_cleanup-Below :
      (time : ℕ) (c : PendingCleanup) (w : World) → left (process_cleanup os time c w).1 ≤ left w
  unfolding process_cleanup
  process_cleanup-Below time c w =
      let first = finite.group_exists c.group w in
      let second = finite.signal_group c.group sigkill (group_exists c.group w).1 in
      ground (arith, first, second)

  retain_cleanups-Below :
      (time : ℕ) (cs : List PendingCleanup) (w : World)
      → left (retain_cleanups os time cs w).1 ≤ left w
  unfolding retain_cleanups
  retain_cleanups-Below time [] w = omega arith
  retain_cleanups-Below time (c ∷ cs) w = omega (
    arith,
    process_cleanup-Below time c w,
    retain_cleanups-Below time cs (process_cleanup os time c w).1,
  )

  pub process_cleanups-Below :
      (s : Supervisor) (w : World) → left (process_cleanups os s w).1 ≤ left w
  unfolding process_cleanups
  process_cleanups-Below s w =
      omega (arith, finite.now w, retain_cleanups-Below (now w).0 s.cleanups (now w).1)
