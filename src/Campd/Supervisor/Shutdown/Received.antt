-- ===== src/Campd/Supervisor/Shutdown/Received.antt =====
-- A signal on which a turn or a wait ends is one that campd has received.
use sandcamp.Base.{
  ℕ, zero, suc, ◌≡◌, refl, Bool, true, false, not, Option, none, some, leb, ◌==◌, if◌then◌else◌,
  get_elem?, Result, ok, err, ◌>>=◌,
}
use sandcamp.Campd.Supervisor.{
  WaitStatus, exit_code, ManagedProcess, Failure, probe_timed_out, job_failed, job_left_descendants,
  job_timed_out, Supervisor, Os, RunError,
}
use sandcamp.Campd.Supervisor.Reap.{schedule_cleanup, reap_available, process_cleanups}
use sandcamp.Campd.Supervisor.Drive.{
  signal_of, WaitOutcome, completed, failed, signal, probe_passed, job_outcome, service_outcome,
  job_state, job_found, settle, take_event, finish_turn, poll, turn_on, drive, service_clock,
  service_process, service_turn, service_loop, job_clock, job_process, job_turn, job_loop,
}

-- The flag that the handler sets was seen to hold the signal.
abbrev pub Received : (os : Os) → ℕ → Type 0
Received os n = (world : os.World) × (signal_of (os.signal_flag world).0 ≡ some n)

module _ (os : Os) where
  abbrev pub Heard : Option ℕ → Type 0
  Heard none = Unit
  Heard (some n) = Received os n

  abbrev pub HeardWait : WaitOutcome → Type 0
  HeardWait completed = Unit
  HeardWait (failed reason) = Unit
  HeardWait (signal n) = Received os n

  abbrev pub HeardStep : Option (Option ℕ) → Type 0
  HeardStep none = Unit
  HeardStep (some end) = Heard end

  -- What a computation returns, if it returns.
  abbrev pub Returns :
      {A : Type 0} → (A → Type 0) → Result RunError (A × Supervisor × os.World) → Type 0
  Returns P (ok (a, s, w)) = P a
  Returns P (err e) = Unit

  pub record Heeds {A : Type 0} (P : A → Type 0) (m : Result RunError (A × Supervisor × os.World))
      : Type 0 where
    pub heeds : Returns P m

  pub ends :
      {A : Type 0} {P : A → Type 0} {a : A} {s : Supervisor} {w : os.World}
      → P a
      → Heeds P (ok (a, s, w))
  ends h = record { heeds = h }

  pub fails : {A : Type 0} {P : A → Type 0} {e : RunError} → Heeds P (err e)
  fails = record { heeds = tt }

  pub bind-Heeds :
      {A B : Type 0} {P : A → Type 0} {Q : B → Type 0}
      {m : Result RunError (A × Supervisor × os.World)}
      (f : A × Supervisor × os.World → Result RunError (B × Supervisor × os.World))
      → Heeds P m
      → ((a : A) (s : Supervisor) (w : os.World) → P a → Heeds Q (f (a, s, w)))
      → Heeds Q (m >>= f)
  bind-Heeds {A = A} {P = P} {Q = Q} {m = m} f h k = go m h.heeds
    where
      go : (r : Result RunError (A × Supervisor × os.World)) → Returns P r → Heeds Q (r >>= f)
      go (ok (a, s, w)) g = k a s w g
      go (err e) g = record { heeds = tt }

  then-Heeds :
      {X B : Type 0} {Q : B → Type 0} (m : Result RunError X)
      (f : X → Result RunError (B × Supervisor × os.World))
      → ((x : X) → Heeds Q (f x))
      → Heeds Q (m >>= f)
  then-Heeds (ok x) f k = k x
  then-Heeds (err e) f k = record { heeds = tt }

  flag-Heard : (w : os.World) → Heard (signal_of (os.signal_flag w).0)
  flag-Heard w = go (signal_of (os.signal_flag w).0) refl
    where
      go : (o : Option ℕ) → signal_of (os.signal_flag w).0 ≡ o → Heard o
      go none e = tt
      go (some n) e = (w, e)

  module _ (rounds : ℕ) where
    turn_on-Heeds :
        (flag : Option ℕ) (wait : ℕ) (s : Supervisor) (w : os.World)
        → Heard flag
        → Heeds Heard (turn_on os rounds flag wait s w)
    unfolding turn_on finish_turn
    turn_on-Heeds (some n) wait s w h = ends h
    turn_on-Heeds none wait s w h =
        let (event, w₁) = poll os rounds wait w in
        then-Heeds (take_event os rounds event s w₁) _ (λ taken.
          then-Heeds (reap_available os rounds taken.0 taken.1) _
            (λ reaped. ends (flag-Heard (process_cleanups os reaped.0 reaped.1).1)))

    pub drive-Heeds :
        (wait : ℕ) (s : Supervisor) (w : os.World) → Heeds Heard (drive os rounds wait s w)
    unfolding drive
    drive-Heeds wait s w =
        then-Heeds (settle os rounds s w) _
          (λ settled. turn_on-Heeds _ wait settled.0 _ (flag-Heard settled.1))

    abbrev pub HeedsNext :
        (Supervisor → os.World → Result RunError (WaitOutcome × Supervisor × os.World)) → Type 0
    HeedsNext rest = (s : Supervisor) (w : os.World) → Heeds HeardWait (rest s w)

    service_clock-Heeds :
        (deadline timeout : ℕ) (p : ManagedProcess)
        (rest : Supervisor → os.World → Result RunError (WaitOutcome × Supervisor × os.World))
        (failure : Option Failure) (passed : Bool)
        → HeedsNext rest
        → HeedsNext (
            service_clock os rounds deadline timeout p rest (elim failure [
              | some reason ↦ some (failed reason)
              | none ↦ if passed then some completed else none
            ]))
    unfolding service_clock
    service_clock-Heeds deadline timeout p rest (some reason) passed h s w = ends tt
    service_clock-Heeds deadline timeout p rest none true h s w = ends tt
    service_clock-Heeds deadline timeout p rest none false h s w =
        go (leb deadline (os.now w).0) (os.now w).1
      where
        go :
            (late : Bool) (w₁ : os.World)
            → Heeds HeardWait (elim late [
              | true ↦ ok (failed (probe_timed_out p.name timeout), s, w₁)
              | false ↦ rest s w₁
            ])
        go true w₁ = ends tt
        go false w₁ = h s w₁

    service_turn-Heeds :
        (index deadline timeout : ℕ)
        (rest : Supervisor → os.World → Result RunError (WaitOutcome × Supervisor × os.World))
        (flag : Option ℕ) (s : Supervisor) (w : os.World)
        → HeedsNext rest
        → Heard flag
        → Heeds HeardWait (service_turn os rounds index deadline timeout rest flag s w)
    unfolding service_turn service_process service_outcome
    service_turn-Heeds index deadline timeout rest (some n) s w h k = ends k
    service_turn-Heeds index deadline timeout rest none s w h k = go (get_elem? s.processes index)
      where
        go :
            (found : Option ManagedProcess)
            → Heeds HeardWait (service_process os rounds deadline timeout rest found s w)
        go none = fails
        go (some p) =
            service_clock-Heeds deadline timeout p rest s.startup_failure (probe_passed p) h s w

    pub service_loop-Heeds :
        (fuel index deadline timeout : ℕ)
        → HeedsNext (service_loop os rounds fuel index deadline timeout)
    unfolding service_loop
    service_loop-Heeds zero index deadline timeout s w = fails
    service_loop-Heeds (suc fuel) index deadline timeout s w =
        bind-Heeds _ (drive-Heeds _ s _) (λ flag t v k.
          service_turn-Heeds index deadline timeout
            (service_loop os rounds fuel index deadline timeout) flag t v
            (service_loop-Heeds fuel index deadline timeout) k)

    job_outcome-HeardWait :
        (p : ManagedProcess) (status : WaitStatus) → HeardWait (job_outcome p status)
    unfolding job_outcome
    job_outcome-HeardWait p status = go (not (exit_code status == 0)) p.residual_group
      where
        go :
            (bad left : Bool)
            → HeardWait (
                if bad
                then failed (job_failed p.name status)
                else if left
                then failed (job_left_descendants p.name)
                else completed)
        go true left = tt
        go false true = tt
        go false false = tt

    job_clock-Heeds :
        (deadline timeout : ℕ) (p : ManagedProcess)
        (rest : Supervisor → os.World → Result RunError (WaitOutcome × Supervisor × os.World))
        (failure : Option Failure) (status : Option WaitStatus)
        → HeedsNext rest
        → HeedsNext (job_clock os rounds deadline timeout p rest (job_state failure status p))
    unfolding job_clock job_state
    job_clock-Heeds deadline timeout p rest (some reason) status h s w = ends tt
    job_clock-Heeds deadline timeout p rest none (some status) h s w =
        ends (job_outcome-HeardWait p status)
    job_clock-Heeds deadline timeout p rest none none h s w =
        go (leb deadline (os.now w).0) (os.now w).1
      where
        go :
            (late : Bool) (w₁ : os.World)
            → Heeds HeardWait (elim late [
              | true ↦
                  let (t, w₂) = schedule_cleanup os p.pid s w₁ in
                  ok (failed (job_timed_out p.name timeout), t, w₂)
              | false ↦ rest s w₁
            ])
        go true w₁ = ends tt
        go false w₁ = h s w₁

    job_turn-Heeds :
        (index deadline timeout : ℕ)
        (rest : Supervisor → os.World → Result RunError (WaitOutcome × Supervisor × os.World))
        (flag : Option ℕ) (s : Supervisor) (w : os.World)
        → HeedsNext rest
        → Heard flag
        → Heeds HeardWait (job_turn os rounds index deadline timeout rest flag s w)
    unfolding job_turn job_process job_found
    job_turn-Heeds index deadline timeout rest (some n) s w h k = ends k
    job_turn-Heeds index deadline timeout rest none s w h k = go (get_elem? s.processes index)
      where
        go :
            (found : Option ManagedProcess)
            → Heeds HeardWait (job_process os rounds deadline timeout rest found s w)
        go none = fails
        go (some p) = job_clock-Heeds deadline timeout p rest s.startup_failure p.exit_status h s w

    pub job_loop-Heeds :
        (fuel index deadline timeout : ℕ)
        → HeedsNext (job_loop os rounds fuel index deadline timeout)
    unfolding job_loop
    job_loop-Heeds zero index deadline timeout s w = fails
    job_loop-Heeds (suc fuel) index deadline timeout s w =
        bind-Heeds _ (drive-Heeds _ s _) (λ flag t v k.
          job_turn-Heeds index deadline timeout (job_loop os rounds fuel index deadline timeout)
            flag t v (job_loop-Heeds fuel index deadline timeout) k)
