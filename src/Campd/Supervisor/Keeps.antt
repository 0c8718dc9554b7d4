-- ===== src/Campd/Supervisor/Keeps.antt =====
-- What every turn of the supervisor leaves as it was.
pub mod Reaps
pub mod Turns
pub mod Waits
pub mod Jobs
pub mod Exits
use sandcamp.Base.{
  ℕ, zero, suc, ◌≡◌, refl, sym, ◌∙◌, Bool, true, false, Option, none, some, List, [], ◌∷◌, ◌++◌, ap,
  subst, arith, Bytes, length, get_elem?, set, All, is_some, not, ◌&&◌, ◌||◌, if◌then◌else◌,
}
use sandcamp.Campd.Supervisor.{
  WaitStatus, ManagedProcess, Failure, Supervisor, ready_now, update_ready, is_service,
}
use sandcamp.Campd.Supervisor.Reap.{
  position, mark_exited, observe_process, apply_probe_event, exit_failure,
}

-- The same process later: an exited one is left as it is.
pub record Same (p q : ManagedProcess) : Type 0 where
  pub name : q.name ≡ p.name
  pub kind : q.kind ≡ p.kind
  pub pid : q.pid ≡ p.pid
  pub frozen : p.alive ≡ false → q ≡ p

-- The processes later, perhaps with new ones behind them.
abbrev pub Follow : List ManagedProcess → List ManagedProcess → Type 0
Follow [] qs = Unit
Follow (p ∷ ps) [] = ⊥
Follow (p ∷ ps) (q ∷ qs) = Same p q × Follow ps qs

pub Same-refl : (p : ManagedProcess) → Same p p
Same-refl p = record { name = refl; kind = refl; pid = refl; frozen = λ _. refl }

pub Same-trans : {p q r : ManagedProcess} → Same p q → Same q r → Same p r
Same-trans {p} {q} {r} a b = record {
  name = b.name ∙ a.name;
  kind = b.kind ∙ a.kind;
  pid = b.pid ∙ a.pid;
  frozen =
      λ dead. let e = a.frozen dead in b.frozen (ap (λ (x : ManagedProcess). x.alive) e ∙ dead) ∙ e;
}

pub Follow-refl : (ps : List ManagedProcess) → Follow ps ps
Follow-refl [] = tt
Follow-refl (p ∷ ps) = (Same-refl p, Follow-refl ps)

pub Follow-trans : (ps qs rs : List ManagedProcess) → Follow ps qs → Follow qs rs → Follow ps rs
Follow-trans [] qs rs a b = tt
Follow-trans (p ∷ ps) [] rs a b = absurd a
Follow-trans (p ∷ ps) (q ∷ qs) [] a b = absurd b
Follow-trans (p ∷ ps) (q ∷ qs) (r ∷ rs) a b = (Same-trans a.0 b.0, Follow-trans ps qs rs a.1 b.1)

pub Follow-append : (ps qs : List ManagedProcess) → Follow ps (ps ++ qs)
Follow-append [] qs = tt
Follow-append (p ∷ ps) qs = (Same-refl p, Follow-append ps qs)

pub Follow-set :
    (ps : List ManagedProcess) (i : ℕ) (p q : ManagedProcess)
    → get_elem? ps i ≡ some p
    → Same p q
    → Follow ps (set ps i q)
Follow-set [] i p q e s = tt
Follow-set (x ∷ ps) zero p q e s =
    let same : p ≡ x = cc in (subst (λ (y : ManagedProcess). Same y q) same s, Follow-refl ps)
Follow-set (x ∷ ps) (suc i) p q e s = (Same-refl x, Follow-set ps i p q e s)

pub length-set :
    (ps : List ManagedProcess) (i : ℕ) (q : ManagedProcess) → length (set ps i q) ≡ length ps
length-set [] i q = refl
length-set (x ∷ ps) zero q = refl
length-set (x ∷ ps) (suc i) q = ap suc (length-set ps i q)

-- Only a process that is alive is found.
pub position-alive :
    (pid : ℕ) (ps : List ManagedProcess) (i : ℕ) (p : ManagedProcess)
    → position pid ps ≡ some i
    → get_elem? ps i ≡ some p
    → p.alive ≡ true
unfolding position
position-alive pid [] i p e f = cc
position-alive pid (x ∷ ps) zero p e f = ground (arith)
position-alive pid (x ∷ ps) (suc i) p e f = position-alive pid ps i p (ground arith) f

-- What `mark_exited` sets, all or nothing: no status and no descendants while a process is alive,
-- and a status and a cancelled probe behind it.
abbrev pub is_consistent : ManagedProcess → Bool
is_consistent p =
    if p.alive
    then not (is_some p.exit_status) && not p.residual_group
    else is_some p.exit_status && elim p.probe_cancel [ some false ↦ false | _ ↦ true ]

abbrev pub is_held : ManagedProcess → Bool
is_held p = not (is_service p.kind) || p.alive

abbrev pub IsConsistent : ManagedProcess → Type 0
IsConsistent p = is_consistent p ≡ true

abbrev pub IsHeld : ManagedProcess → Type 0
IsHeld p = is_held p ≡ true

-- Before the initialization is complete, all services are alive unless the start has failed.
pub record IsFormed (s : Supervisor) : Type 0 where
  pub consistent : All IsConsistent s.processes
  pub held : s.initialization_complete ≡ false → s.startup_failure ≡ none → All IsHeld s.processes

-- One state of the supervisor later than another.
pub record Keeps (s t : Supervisor) : Type 0 where
  pub processes : Follow s.processes t.processes
  pub count : length t.processes ≡ length s.processes
  pub complete : t.initialization_complete ≡ s.initialization_complete
  pub failure : (f : Failure) → s.startup_failure ≡ some f → t.startup_failure ≡ some f
  pub quiet : s.initialization_complete ≡ false → s.ready ≡ false → t.ready ≡ false
  pub formed : IsFormed s → IsFormed t
  pub steady : s.initialization_complete ≡ true → t.startup_failure ≡ s.startup_failure

pub Keeps-refl : (s : Supervisor) → Keeps s s
Keeps-refl s = record {
  processes = Follow-refl s.processes;
  count = refl;
  complete = refl;
  failure = λ f e. e;
  quiet = λ c r. r;
  formed = λ h. h;
  steady = λ c. refl;
}

pub Keeps-trans : {s t u : Supervisor} → Keeps s t → Keeps t u → Keeps s u
Keeps-trans {s} {t} {u} a b = record {
  processes = Follow-trans s.processes t.processes u.processes a.processes b.processes;
  count = b.count ∙ a.count;
  complete = b.complete ∙ a.complete;
  failure = λ f e. b.failure f (a.failure f e);
  quiet = λ c r. b.quiet (a.complete ∙ c) (a.quiet c r);
  formed = λ h. b.formed (a.formed h);
  steady = λ c. b.steady (a.complete ∙ c) ∙ a.steady c;
}

pub update_ready-Keeps : (s : Supervisor) → Keeps s (update_ready s)
unfolding update_ready ready_now
update_ready-Keeps s = record {
  processes = Follow-refl s.processes;
  count = refl;
  complete = refl;
  failure = λ f e. e;
  quiet = λ c r. ground arith;
  formed = λ h. record { consistent = h.consistent; held = h.held };
  steady = λ c. refl;
}

observe_process-Same : (b : Bool) (p : ManagedProcess) → Same p (observe_process b p)
observe_process-Same b p = record {
  name = ground arith;
  kind = ground arith;
  pid = ground arith;
  frozen = λ dead. ground arith;
}

pub observe_process-IsConsistent :
    (b : Bool) (p : ManagedProcess) → IsConsistent p → IsConsistent (observe_process b p)
observe_process-IsConsistent b p h = ground arith

pub observe_process-IsHeld :
    (b : Bool) (p : ManagedProcess) → IsHeld p → IsHeld (observe_process b p)
observe_process-IsHeld b p h = ground arith

pub mark_exited-IsConsistent :
    (status : WaitStatus) (residual : Bool) (p : ManagedProcess)
    → IsConsistent (mark_exited status residual p)
unfolding mark_exited
mark_exited-IsConsistent status residual p = ground arith
