-- ===== src/Campd/Supervisor/Keeps/Waits.antt =====
-- What `wait_for_service` has found where it lets the start go on.
use sandcamp.Base.{
  ℕ, zero, suc, ◌+◌, ◌≡◌, refl, subst, true, false, Option, none, some, get_elem?, Result, ok, err,
  ◌>>=◌, leb, arith,
}
use sandcamp.Campd.Supervisor.{
  ManagedProcess, WaitStatus, exit_code, Supervisor, Os, RunError, probe_timed_out,
}
use sandcamp.Campd.Supervisor.Drive.{
  WaitOutcome, completed, failed, signal, drive, wait_duration, probe_passed, service_outcome,
  service_clock, service_process, service_turn, service_loop, wait_for_service, Next,
}
use sandcamp.Campd.Supervisor.Keeps.{Keeps}
use sandcamp.Campd.Supervisor.Keeps.Turns.{Settled, Settled-trans, Settles, drive-Settles}

-- The service at an index has passed its probe, and nothing has failed.
pub record ServicePassed (index : ℕ) (t : Supervisor) : Type 0 where
  pub process : ManagedProcess
  pub found : get_elem? t.processes index ≡ some process
  pub passed : probe_passed process ≡ true
  pub unfailed : t.startup_failure ≡ none

-- The job at an index has exited with 0 and left no descendants, and nothing has failed.
pub record JobPassed (index : ℕ) (t : Supervisor) : Type 0 where
  pub process : ManagedProcess
  pub found : get_elem? t.processes index ≡ some process
  pub status : WaitStatus
  pub exited : process.exit_status ≡ some status
  pub succeeded : exit_code status ≡ 0
  pub alone : process.residual_group ≡ false
  pub unfailed : t.startup_failure ≡ none

-- A wait that ends in a settled state, where it completes one with `P`.
abbrev pub Waits :
    {W : Type 0}
    → (Supervisor → Type 0)
    → Supervisor
    → Result RunError (WaitOutcome × Supervisor × W)
    → Type 0
Waits P s (ok (completed, t, w)) = Settled s t × P t
Waits P s (ok (failed f, t, w)) = Settled s t
Waits P s (ok (signal n, t, w)) = Settled s t
Waits P s (err e) = Unit

pub Waits-trans :
    {W : Type 0} (P : Supervisor → Type 0) {s t : Supervisor}
    (r : Result RunError (WaitOutcome × Supervisor × W))
    → Keeps s t
    → Waits P t r
    → Waits P s r
Waits-trans P (ok (completed, u, w)) a b = (Settled-trans a b.0, b.1)
Waits-trans P (ok (failed f, u, w)) a b = Settled-trans a b
Waits-trans P (ok (signal n, u, w)) a b = Settled-trans a b
Waits-trans P (err e) a b = tt

service_outcome-passes :
    (p : ManagedProcess) (s : Supervisor)
    → service_outcome p s ≡ some completed
    → (probe_passed p ≡ true) × (s.startup_failure ≡ none)
unfolding service_outcome
service_outcome-passes p s e = (ground arith, ground arith)

module _ (os : Os) (rounds : ℕ) where
  open os use {World, now, group_exists}

  -- A loop that waits for `P` from wherever it starts.
  abbrev pub RestWaits : (Supervisor → Type 0) → Next os rounds → Type 0
  RestWaits P rest = (s : Supervisor) (w : World) → Waits P s (rest s w)

  -- What a step of a wait makes of a settled state.
  abbrev pub StepWaits : (Supervisor → Type 0) → Next os rounds → Type 0
  StepWaits P step = (s t : Supervisor) (w : World) → Settled s t → Waits P s (step t w)

  service_clock-Waits :
      (index deadline timeout : ℕ) (p : ManagedProcess) (rest : Next os rounds)
      (found : Option WaitOutcome) (s t : Supervisor) (w : World)
      → RestWaits (ServicePassed index) rest
      → get_elem? t.processes index ≡ some p
      → service_outcome p t ≡ found
      → Settled s t
      → Waits (ServicePassed index) s (service_clock os rounds deadline timeout p rest found t w)
  unfolding service_clock
  service_clock-Waits index deadline timeout p rest (some completed) s t w r e f h =
      let passes = service_outcome-passes p t f in
      (h, record { process = p; found = e; passed = passes.0; unfailed = passes.1 })
  service_clock-Waits index deadline timeout p rest (some (failed x)) s t w r e f h = h
  service_clock-Waits index deadline timeout p rest (some (signal n)) s t w r e f h = h
  service_clock-Waits index deadline timeout p rest none s t w r e f h =
      let (time, w₁) = now w in
      elim (leb deadline time)
        as (λ b. Waits (ServicePassed index) s (elim b [
          | true ↦ ok (failed (probe_timed_out p.name timeout), t, w₁)
          | false ↦ rest t w₁
        ])) [ true ↦ h | false ↦ Waits-trans (ServicePassed index) (rest t w₁) h.keeps (r t w₁) ]

  service_turn-Waits :
      (index deadline timeout : ℕ) (rest : Next os rounds) (flag : Option ℕ)
      → RestWaits (ServicePassed index) rest
      → StepWaits (ServicePassed index) (service_turn os rounds index deadline timeout rest flag)
  unfolding service_turn service_process
  service_turn-Waits index deadline timeout rest (some n) r s t w h = h
  service_turn-Waits index deadline timeout rest none r s t w h =
      go (get_elem? t.processes index) refl
    where
      go :
          (x : Option ManagedProcess)
          → get_elem? t.processes index ≡ x
          → Waits (ServicePassed index) s (service_process os rounds deadline timeout rest x t w)
      go none e = tt
      go (some p) e =
          service_clock-Waits index deadline timeout p rest (service_outcome p t) s t w r e refl h

  pub drive-Waits :
      (P : Supervisor → Type 0) (s : Supervisor)
      (m : Result RunError (Option ℕ × Supervisor × World)) (step : Option ℕ → Next os rounds)
      → Settles s m
      → ((flag : Option ℕ) → StepWaits P (step flag))
      → Waits P s (m >>= λ turn. step turn.0 turn.1 turn.2)
  drive-Waits P s (ok (flag, t, w)) step h k = k flag s t w h
  drive-Waits P s (err e) step h k = tt

  service_loop-Waits :
      (fuel index deadline timeout : ℕ)
      → RestWaits (ServicePassed index) (service_loop os rounds fuel index deadline timeout)
  unfolding service_loop
  service_loop-Waits zero index deadline timeout s w = tt
  service_loop-Waits (suc fuel) index deadline timeout s w =
      let (wait, w₁) = wait_duration os rounds deadline w in
      let rest = service_loop os rounds fuel index deadline timeout in
      drive-Waits (ServicePassed index) s (drive os rounds wait s w₁)
        (service_turn os rounds index deadline timeout rest) (drive-Settles os rounds wait s w₁)
        (λ flag.
          service_turn-Waits index deadline timeout rest flag
            (service_loop-Waits fuel index deadline timeout))

  pub wait_for_service-Waits :
      (index timeout : ℕ)
      → RestWaits (ServicePassed index) (wait_for_service os rounds index timeout)
  unfolding wait_for_service
  wait_for_service-Waits index timeout s w =
      let (start, w₁) = now w in service_loop-Waits rounds index (start + timeout) timeout s w₁

  -- The start goes on behind a service with a probe only if the probe is ready and nothing has
  -- failed.
  pub wait_for_service-passed :
      (index timeout : ℕ) (s t : Supervisor) (w v : World)
      → wait_for_service os rounds index timeout s w ≡ ok (completed, t, v)
      → ServicePassed index t
  wait_for_service-passed index timeout s t w v e =
      (subst (Waits (ServicePassed index) s) e (wait_for_service-Waits index timeout s w)).1
