-- ===== src/Campd/Supervisor/Shutdown.antt =====
-- cmd/campd/src/runtime.rs: the end of campd on a signal.
pub mod Ends
pub mod Groups
pub mod Received
pub mod Starts
pub mod Signals
use sandcamp.Base.{
  ℕ, zero, suc, ◌+◌, Bool, true, false, not, ◌&&◌, ◌||◌, Option, none, some, List, [], ◌∷◌, ◌++◌,
  map, ◌==◌, ltb, if◌then◌else◌, any, is_empty,
}
use sandcamp.Campd.Supervisor.{
  shutdown_grace, kill_grace, poll_interval, sigkill, ManagedProcess, PendingCleanup, Supervisor,
  Waited, reaped, Os,
}
use sandcamp.Campd.Supervisor.Reap.{cancelled}

abbrev pub cancel_probe : ManagedProcess → ManagedProcess
cancel_probe p = record p { probe_cancel = cancelled p.probe_cancel }

-- The groups of processes that are alive or have left descendants.
unfoldable pub process_groups : List ManagedProcess → List ℕ
process_groups [] = []
process_groups (p ∷ ps) =
    let rest = process_groups ps in if p.alive || p.residual_group then p.pid ∷ rest else rest

abbrev pub group_of : PendingCleanup → ℕ
group_of c = c.group

-- `collect::<HashSet<_>>`: each group once.
unfoldable pub collect : List ℕ → List ℕ
collect [] = []
collect (g ∷ gs) = let rest = collect gs in if any (λ h. h == g) rest then rest else g ∷ rest

unfoldable pub groups_to_end : Supervisor → List ℕ
groups_to_end s = collect (process_groups s.processes ++ map group_of s.cleanups)

module _ (os : Os) (rounds : ℕ) where
  open os use {World, waitpid, group_exists, signal_group, now, sleep}

  abbrev pub is_reaped : Waited → Bool
  is_reaped (reaped _ _) = true
  is_reaped _ = false

  -- `reap_any_available`; out of rounds it leaves the rest for the next call.
  unfoldable pub reap_any : ℕ → World → World
  reap_any zero w = w
  reap_any (suc fuel) w =
      let (result, w₁) = waitpid w in
      elim (is_reaped result) [ true ↦ reap_any fuel w₁ | false ↦ w₁ ]

  unfoldable pub signal_all : ℕ → List ℕ → World → World
  signal_all signal [] w = w
  signal_all signal (g ∷ gs) w = signal_all signal gs (signal_group g signal w)

  -- `remaining.retain(|group| process_group_exists(*group))`
  unfoldable pub retain_groups : List ℕ → World → List ℕ × World
  retain_groups [] w = ([], w)
  retain_groups (g ∷ gs) w =
      let (exists, w₁) = group_exists g w in
      let (rest, w₂) = retain_groups gs w₁ in (if exists then g ∷ rest else rest, w₂)

  -- One of the two loops of `terminate_groups`: until no group is left or the deadline has come.
  unfoldable pub await_groups : ℕ → ℕ → List ℕ → World → List ℕ × World
  await_groups zero deadline remaining w = (remaining, w)
  await_groups (suc fuel) deadline [] w = ([], w)
  await_groups (suc fuel) deadline (g ∷ gs) w =
      let (time, w₁) = now w in
      elim (ltb time deadline) [
        | false ↦ (g ∷ gs, w₁)
        | true ↦
            let (rest, w₂) = retain_groups (g ∷ gs) (reap_any rounds w₁) in
            await_groups fuel deadline rest (if is_empty rest then w₂ else sleep poll_interval w₂)
      ]

  -- The groups that have survived, too.
  unfoldable pub terminate_groups : List ℕ → ℕ → World → List ℕ × World
  terminate_groups groups signal w =
      let (time, w₁) = now (signal_all signal groups w) in
      let (remaining, w₂) = await_groups rounds (time + shutdown_grace) groups w₁ in
      let (time', w₃) = now (signal_all sigkill remaining w₂) in
      await_groups rounds (time' + kill_grace) remaining w₃

  -- The exit code, with the state that is left.
  unfoldable pub shutdown : ℕ → Supervisor → World → ℕ × Supervisor × World
  shutdown signal s w =
      let (survivors, w₁) = terminate_groups (groups_to_end s) signal w in
      (128 + signal, record s { ready = false; processes = map cancel_probe s.processes }, w₁)
