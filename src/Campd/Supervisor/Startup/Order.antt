-- ===== src/Campd/Supervisor/Startup/Order.antt =====
-- The processes that a start has launched, against their declarations.
use sandcamp.Base.{
  ℕ, ◌≡◌, refl, sym, ◌∙◌, subst, false, Option, none, some, List, [], ◌∷◌, ◌++◌, length, get_elem?,
  All-get, arith,
}
use sandcamp.Campd.Spec.{ProcessKind, service, run_to_completion, Probe}
use sandcamp.Campd.Launch.{LaunchProcess}
use sandcamp.Campd.Supervisor.{WaitStatus, exit_code, ManagedProcess, Supervisor}
use sandcamp.Campd.Supervisor.Keeps.{Same, Follow, IsFormed, IsConsistent}
use sandcamp.Campd.Supervisor.Keeps.Waits.{ServicePassed, JobPassed}

-- A job that has exited with 0 and left no descendants.
pub record Succeeded (m : ManagedProcess) : Type 0 where
  pub dead : m.alive ≡ false
  pub status : WaitStatus
  pub exited : m.exit_status ≡ some status
  pub succeeded : exit_code status ≡ 0
  pub alone : m.residual_group ≡ false

abbrev pub Done : ProcessKind → ManagedProcess → Type 0
Done service m = Unit
Done run_to_completion m = Succeeded m

-- A declared process behind its start.
pub record Started (p : LaunchProcess) (m : ManagedProcess) : Type 0 where
  pub name : m.name ≡ p.name
  pub kind : m.kind ≡ p.kind
  pub done : Done p.kind m

-- All declarations, in their order.
abbrev pub AllStarted : List LaunchProcess → List ManagedProcess → Type 0
AllStarted [] [] = Unit
AllStarted [] (m ∷ ms) = ⊥
AllStarted (p ∷ ps) [] = ⊥
AllStarted (p ∷ ps) (m ∷ ms) = Started p m × AllStarted ps ms

Succeeded-Same : {m n : ManagedProcess} → Succeeded m → Same m n → Succeeded n
Succeeded-Same {m} {n} h s = subst Succeeded (sym (s.frozen h.dead)) h

Done-Same : (k : ProcessKind) {m n : ManagedProcess} → Done k m → Same m n → Done k n
Done-Same service h s = tt
Done-Same run_to_completion h s = Succeeded-Same h s

Started-Same : {p : LaunchProcess} {m n : ManagedProcess} → Started p m → Same m n → Started p n
Started-Same {p} h s = record {
  name = s.name ∙ h.name;
  kind = s.kind ∙ h.kind;
  done = Done-Same p.kind h.done s;
}

pub AllStarted-Follow :
    (ps : List LaunchProcess) (ms ns : List ManagedProcess)
    → AllStarted ps ms
    → Follow ms ns
    → length ns ≡ length ms
    → AllStarted ps ns
AllStarted-Follow [] [] [] a f e = tt
AllStarted-Follow [] [] (n ∷ ns) a f e = absurd (omega (arith, e))
AllStarted-Follow [] (m ∷ ms) ns a f e = absurd a
AllStarted-Follow (p ∷ ps) [] ns a f e = absurd a
AllStarted-Follow (p ∷ ps) (m ∷ ms) [] a f e = absurd f
AllStarted-Follow (p ∷ ps) (m ∷ ms) (n ∷ ns) a f e =
    (Started-Same a.0 f.0, AllStarted-Follow ps ms ns a.1 f.1 (omega (arith, e)))

-- One more, at the end.
pub AllStarted-snoc :
    (ps : List LaunchProcess) (p : LaunchProcess) (ms : List ManagedProcess) (m : ManagedProcess)
    (ns : List ManagedProcess)
    → AllStarted ps ms
    → Follow (ms ++ m ∷ []) ns
    → length ns ≡ length (ms ++ m ∷ [])
    → ((n : ManagedProcess) → get_elem? ns (length ms) ≡ some n → Same m n → Started p n)
    → AllStarted (ps ++ p ∷ []) ns
AllStarted-snoc [] p [] m [] a f e last = absurd f
AllStarted-snoc [] p [] m (n ∷ []) a f e last = (last n refl f.0, tt)
AllStarted-snoc [] p [] m (n ∷ x ∷ ns) a f e last = absurd (omega (arith, e))
AllStarted-snoc [] p (x ∷ ms) m ns a f e last = absurd a
AllStarted-snoc (q ∷ ps) p [] m ns a f e last = absurd a
AllStarted-snoc (q ∷ ps) p (x ∷ ms) m [] a f e last = absurd f
AllStarted-snoc (q ∷ ps) p (x ∷ ms) m (n ∷ ns) a f e last =
    (Started-Same a.0 f.0, AllStarted-snoc ps p ms m ns a.1 f.1 (omega (arith, e)) last)

-- What the wait behind a start has found where the start goes on.
abbrev pub StartPassed : ProcessKind → Option Probe → ℕ → Supervisor → Type 0
StartPassed service none index t = Unit
StartPassed service (some probe) index t = ServicePassed index t
StartPassed run_to_completion probe index t = JobPassed index t

exited-dead :
    (n : ManagedProcess) (status : WaitStatus)
    → IsConsistent n
    → n.exit_status ≡ some status
    → n.alive ≡ false
exited-dead n status c e = ground arith

JobPassed-Succeeded :
    (index : ℕ) (t : Supervisor) (n : ManagedProcess)
    → IsFormed t
    → JobPassed index t
    → get_elem? t.processes index ≡ some n
    → Succeeded n
JobPassed-Succeeded index t n formed h e =
    let same : h.process ≡ n = cc in
    let consistent = All-get IsConsistent t.processes index h.process formed.consistent h.found in
    subst Succeeded same record {
      dead = exited-dead h.process h.status consistent h.exited;
      status = h.status;
      exited = h.exited;
      succeeded = h.succeeded;
      alone = h.alone;
    }

pub StartPassed-Done :
    (k : ProcessKind) (probe : Option Probe) (index : ℕ) (t : Supervisor) (n : ManagedProcess)
    → IsFormed t
    → StartPassed k probe index t
    → get_elem? t.processes index ≡ some n
    → Done k n
StartPassed-Done service probe index t n formed h e = tt
StartPassed-Done run_to_completion probe index t n formed h e =
    JobPassed-Succeeded index t n formed h e
