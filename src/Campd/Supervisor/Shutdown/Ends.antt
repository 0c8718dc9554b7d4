-- ===== src/Campd/Supervisor/Shutdown/Ends.antt =====
-- How campd itself ends.
use sandcamp.Base.{ℕ, ◌+◌, ◌≡◌, ◌≢◌, false, some, All, Result, ok, err}
use sandcamp.Campd.Supervisor.{ManagedProcess, Supervisor, Os, RunError}
use sandcamp.Campd.Supervisor.Shutdown.Received.{Received}

-- What is left behind the end of campd by a signal that it has received.
pub record EndedBy (os : Os) (code : ℕ) (t : Supervisor) : Type 0 where
  pub signal : ℕ
  pub received : Received os signal
  pub exit : code ≡ 128 + signal
  pub unready : t.ready ≡ false
  pub cancelled : All (λ (p : ManagedProcess). p.probe_cancel ≢ some false) t.processes

abbrev Ends : (os : Os) → Result RunError (ℕ × Supervisor × os.World) → Type 0
Ends os (ok (code, t, w)) = EndedBy os code t
Ends os (err e) = Unit
