-- ===== src/Campd/Supervisor/Keeps/Exits.antt =====
-- What is settled stays when a probe reports or a process exits.
use sandcamp.Base.{
  ◌≡◌, refl, Bool, true, false, Option, none, some, arith, All-set, All-get, get_elem?, set, Result,
  ok, err, ◌>>=◌,
}
use sandcamp.Campd.Supervisor.{
  WaitStatus, ManagedProcess, ProbeEvent, Failure, Supervisor, RunError, is_service,
}
use sandcamp.Campd.Supervisor.Reap.{mark_exited, exit_failure, observe_process, apply_probe_event}
use sandcamp.Campd.Supervisor.Keeps.{
  Same, Follow-set, length-set, Keeps, Keeps-refl, Keeps-trans, observe_process-Same, IsConsistent,
  IsHeld, observe_process-IsConsistent, observe_process-IsHeld,
}

pub apply_probe_event-Keeps : (s : Supervisor) (e : ProbeEvent) → Keeps s (apply_probe_event s e)
unfolding apply_probe_event
apply_probe_event-Keeps s e = go (get_elem? s.processes e.process_index) refl
  where
    go :
        (found : Option ManagedProcess)
        → get_elem? s.processes e.process_index ≡ found
        → Keeps s (elim found [
          | none ↦ s
          | some p ↦ record s {
            processes = set s.processes e.process_index (observe_process e.success p);
          }
        ])
    go none f = Keeps-refl s
    go (some p) f = record {
      processes =
          Follow-set s.processes e.process_index p (observe_process e.success p) f
            (observe_process-Same e.success p);
      count = length-set s.processes e.process_index (observe_process e.success p);
      complete = refl;
      failure = λ g h. h;
      quiet = λ c r. r;
      formed = λ h. record {
        consistent =
            All-set IsConsistent s.processes e.process_index (observe_process e.success p)
              h.consistent
              (observe_process-IsConsistent e.success p
                (All-get IsConsistent s.processes e.process_index p h.consistent f));
        held = λ c n.
            All-set IsHeld s.processes e.process_index (observe_process e.success p) (h.held c n) (
              observe_process-IsHeld e.success p
                (All-get IsHeld s.processes e.process_index p (h.held c n) f));
      };
      steady = λ c. refl;
    }

pub mark_exited-Same :
    (status : WaitStatus) (residual : Bool) (p : ManagedProcess)
    → p.alive ≡ true
    → Same p (mark_exited status residual p)
unfolding mark_exited
mark_exited-Same status residual p alive = record {
  name = refl;
  kind = refl;
  pid = refl;
  frozen = λ dead. cc;
}

pub exit_failure-keeps :
    (s : Supervisor) (p : ManagedProcess) (status : WaitStatus) (f : Failure)
    → s.startup_failure ≡ some f
    → exit_failure s p status ≡ some f
unfolding exit_failure
exit_failure-keeps s p status f e = ground arith

pub exit_failure-none :
    (s : Supervisor) (p : ManagedProcess) (status : WaitStatus)
    → exit_failure s p status ≡ none
    → (s.startup_failure ≡ none) × (s.initialization_complete ≡ false → is_service p.kind ≡ false)
unfolding exit_failure
exit_failure-none s p status e = (ground arith, λ c. ground arith)

pub exit_failure-steady :
    (s : Supervisor) (p : ManagedProcess) (status : WaitStatus)
    → s.initialization_complete ≡ true
    → exit_failure s p status ≡ s.startup_failure
unfolding exit_failure
exit_failure-steady s p status c = ground arith

pub exit_failure-IsHeld :
    (s : Supervisor) (p : ManagedProcess) (status : WaitStatus) (residual : Bool)
    → s.initialization_complete ≡ false
    → exit_failure s p status ≡ none
    → IsHeld (mark_exited status residual p)
unfolding mark_exited
exit_failure-IsHeld s p status residual c n =
    let job = (exit_failure-none s p status n).1 c in ground arith

-- A result that keeps the state, if there is one.
abbrev pub Yields : {W : Type 0} → Supervisor → Result RunError (Supervisor × W) → Type 0
Yields s (ok (t, w)) = Keeps s t
Yields s (err e) = Unit

pub Yields-trans :
    {W : Type 0} {s t : Supervisor} (r : Result RunError (Supervisor × W))
    → Keeps s t
    → Yields t r
    → Yields s r
Yields-trans (ok (u, w)) a b = Keeps-trans a b
Yields-trans (err e) a b = tt

pub Yields-bind :
    {W : Type 0} (s : Supervisor) (m : Result RunError (Supervisor × W))
    (f : Supervisor × W → Result RunError (Supervisor × W))
    → Yields s m
    → ((x : Supervisor × W) → Yields x.0 (f x))
    → Yields s (m >>= f)
Yields-bind s (ok (t, w)) f a b = Yields-trans (f (t, w)) a (b (t, w))
Yields-bind s (err e) f a b = tt
