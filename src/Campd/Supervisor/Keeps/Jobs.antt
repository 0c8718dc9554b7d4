-- ===== src/Campd/Supervisor/Keeps/Jobs.antt =====
-- What `wait_for_job` has found where it lets the start go on.
use sandcamp.Base.{
  ℕ, zero, suc, ◌+◌, ◌≡◌, refl, sym, subst, ◌∙◌, true, false, not, ◌||◌, Option, none, some,
  get_elem?, if-cases, any, ◌==◌, ok, leb, arith,
}
use sandcamp.Campd.Supervisor.{
  ManagedProcess, WaitStatus, exit_code, PendingCleanup, Supervisor, Os, ready_now, Failure,
  job_timed_out,
}
use sandcamp.Campd.Supervisor.Reap.{add_cleanup, schedule_cleanup}
use sandcamp.Campd.Supervisor.Drive.{
  WaitOutcome, completed, failed, signal, drive, wait_duration, job_outcome, job_state, job_found,
  clean_up, job_clock, job_process, job_turn, job_loop, wait_for_job, Next,
}
use sandcamp.Campd.Supervisor.Keeps.{Keeps-trans}
use sandcamp.Campd.Supervisor.Keeps.Reaps.{schedule_cleanup-Keeps}
use sandcamp.Campd.Supervisor.Keeps.Turns.{Settled, drive-Settles}
use sandcamp.Campd.Supervisor.Keeps.Waits.{
  JobPassed, Waits, Waits-trans, RestWaits, StepWaits, drive-Waits,
}

job_outcome-passes :
    (p : ManagedProcess) (status : WaitStatus)
    → job_outcome p status ≡ completed
    → (exit_code status ≡ 0) × (p.residual_group ≡ false)
unfolding job_outcome
job_outcome-passes p status e = (ground arith, ground arith)

-- What a job is found to have done where it completes.
record JobDone (p : ManagedProcess) (f : Option Failure) (x : Option WaitStatus) : Type 0 where
  unfailed : f ≡ none
  status : WaitStatus
  exited : x ≡ some status
  outcome : job_outcome p status ≡ completed

job_state-passes :
    (f : Option Failure) (x : Option WaitStatus) (p : ManagedProcess) (group : Option ℕ)
    → job_state f x p ≡ some (completed, group)
    → JobDone p f x
unfolding job_state
job_state-passes (some f) x p group e = cc
job_state-passes none none p group e = cc
job_state-passes none (some status) p group e = record {
  unfailed = refl;
  status = status;
  exited = refl;
  outcome = cc;
}

job_found-passes :
    (p : ManagedProcess) (s : Supervisor) (group : Option ℕ) (index : ℕ)
    → get_elem? s.processes index ≡ some p
    → job_found p s ≡ some (completed, group)
    → JobPassed index s
unfolding job_found
job_found-passes p s group index found e =
    let done = job_state-passes s.startup_failure p.exit_status p group e in
    let passes = job_outcome-passes p done.status done.outcome in
    record {
      process = p;
      found = found;
      status = done.status;
      exited = done.exited;
      succeeded = passes.0;
      alone = passes.1;
      unfailed = done.unfailed;
    }

job_state-group :
    (f : Option Failure) (x : Option WaitStatus) (p : ManagedProcess) (group : Option ℕ)
    → job_state f x p ≡ some (completed, group)
    → group ≡ none
unfolding job_state
job_state-group (some f) x p group e = cc
job_state-group none none p group e = cc
job_state-group none (some status) p group e = cc

job_found-group :
    (p : ManagedProcess) (s : Supervisor) (group : Option ℕ)
    → job_found p s ≡ some (completed, group)
    → group ≡ none
unfolding job_found
job_found-group p s group e = job_state-group s.startup_failure p.exit_status p group e

module _ (os : Os) (rounds : ℕ) where
  open os use {World, now, group_exists}

  -- A cleanup that is scheduled leaves the readiness as it is.
  abbrev Kept : Supervisor → Supervisor × World → Type 0
  Kept s r = (r.0.ready ≡ s.ready) × (ready_now r.0 ≡ ready_now s)

  schedule_cleanup-Kept :
      (group : ℕ) (s : Supervisor) (w : World) → Kept s (schedule_cleanup os group s w)
  unfolding schedule_cleanup add_cleanup ready_now
  schedule_cleanup-Kept group s w =
      let w₁ = (group_exists group w).1 in
      if-cases (Kept s)
        (not (group_exists group w).0 || any (λ (c : PendingCleanup). c.group == group) s.cleanups)
        (s, w₁) (add_cleanup os group s w₁) (λ e. (refl, refl)) (λ e. (refl, refl))

  schedule_cleanup-Settled :
      (group : ℕ) (s t : Supervisor) (w : World)
      → Settled s t
      → Settled s (schedule_cleanup os group t w).0
  schedule_cleanup-Settled group s t w h =
      let kept = schedule_cleanup-Kept group t w in
      record {
        keeps = Keeps-trans h.keeps (schedule_cleanup-Keeps os group t w);
        fresh = kept.0 ∙ h.fresh ∙ sym kept.1;
      }

  clean_up-Settled :
      (group : Option ℕ) (s t : Supervisor) (w : World)
      → Settled s t
      → Settled s (clean_up os rounds group t w).0
  unfolding clean_up
  clean_up-Settled none s t w h = h
  clean_up-Settled (some g) s t w h = schedule_cleanup-Settled g s t w h

  job_clock-Waits :
      (index deadline timeout : ℕ) (p : ManagedProcess) (rest : Next os rounds)
      (found : Option (WaitOutcome × Option ℕ)) (s t : Supervisor) (w : World)
      → RestWaits os rounds (JobPassed index) rest
      → get_elem? t.processes index ≡ some p
      → job_found p t ≡ found
      → Settled s t
      → Waits (JobPassed index) s (job_clock os rounds deadline timeout p rest found t w)
  unfolding job_clock clean_up
  job_clock-Waits index deadline timeout p rest (some (completed, none)) s t w r e f h =
      (h, job_found-passes p t none index e f)
  job_clock-Waits index deadline timeout p rest (some (completed, some g)) s t w r e f h =
      let none_there = job_found-group p t (some g) f in cc
  job_clock-Waits index deadline timeout p rest (some (failed x, g)) s t w r e f h =
      clean_up-Settled g s t w h
  job_clock-Waits index deadline timeout p rest (some (signal n, g)) s t w r e f h =
      clean_up-Settled g s t w h
  job_clock-Waits index deadline timeout p rest none s t w r e f h =
      let (time, w₁) = now w in
      let late = schedule_cleanup os p.pid t w₁ in
      elim (leb deadline time)
        as (λ b. Waits (JobPassed index) s (elim b [
          | true ↦ ok (failed (job_timed_out p.name timeout), late.0, late.1)
          | false ↦ rest t w₁
        ])) [
          | true ↦ schedule_cleanup-Settled p.pid s t w₁ h
          | false ↦ Waits-trans (JobPassed index) (rest t w₁) h.keeps (r t w₁)
        ]

  job_turn-Waits :
      (index deadline timeout : ℕ) (rest : Next os rounds) (flag : Option ℕ)
      → RestWaits os rounds (JobPassed index) rest
      → StepWaits os rounds (JobPassed index) (job_turn os rounds index deadline timeout rest flag)
  unfolding job_turn job_process
  job_turn-Waits index deadline timeout rest (some n) r s t w h = h
  job_turn-Waits index deadline timeout rest none r s t w h = go (get_elem? t.processes index) refl
    where
      go :
          (x : Option ManagedProcess)
          → get_elem? t.processes index ≡ x
          → Waits (JobPassed index) s (job_process os rounds deadline timeout rest x t w)
      go none e = tt
      go (some p) e = job_clock-Waits index deadline timeout p rest (job_found p t) s t w r e refl h

  job_loop-Waits :
      (fuel index deadline timeout : ℕ)
      → RestWaits os rounds (JobPassed index) (job_loop os rounds fuel index deadline timeout)
  unfolding job_loop
  job_loop-Waits zero index deadline timeout s w = tt
  job_loop-Waits (suc fuel) index deadline timeout s w =
      let (wait, w₁) = wait_duration os rounds deadline w in
      let rest = job_loop os rounds fuel index deadline timeout in
      drive-Waits os rounds (JobPassed index) s (drive os rounds wait s w₁)
        (job_turn os rounds index deadline timeout rest) (drive-Settles os rounds wait s w₁)
        (λ flag.
          job_turn-Waits index deadline timeout rest flag
            (job_loop-Waits fuel index deadline timeout))

  pub wait_for_job-Waits :
      (index timeout : ℕ)
      → RestWaits os rounds (JobPassed index) (wait_for_job os rounds index timeout)
  unfolding wait_for_job
  wait_for_job-Waits index timeout s w =
      let (start, w₁) = now w in job_loop-Waits rounds index (start + timeout) timeout s w₁

  -- The start goes on behind a job only if the job has exited with 0 and left no descendants, and
  -- nothing has failed.
  pub wait_for_job-passed :
      (index timeout : ℕ) (s t : Supervisor) (w v : World)
      → wait_for_job os rounds index timeout s w ≡ ok (completed, t, v)
      → JobPassed index t
  wait_for_job-passed index timeout s t w v e =
      (subst (Waits (JobPassed index) s) e (wait_for_job-Waits index timeout s w)).1
