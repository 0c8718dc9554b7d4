-- ===== src/Campd/Launch/Total.antt =====
-- Where the launch could panic: the `expect`s on resolved users and timeouts, and `command[0]`.
use sandcamp.Base.{
  ℕ, ◌≡◌, refl, true, Option, none, some, List, [], ◌∷◌, ◌++◌, map, arith, Bytes, Result, ok, ◌>>=◌,
  is_some, ok_or, All, All-append,
}
use sandcamp.Campd.Spec.{
  ProcessKind, service, run_to_completion, Probe, Spec, SidecarProcess, MainProcess, ProcessUser,
  named, numeric, NumericUser,
}
use sandcamp.Campd.Passwd.{
  RuntimeError, panicked, Resolved, resolved_user, asked_name, resolve_main_users,
}
use sandcamp.Campd.Spec.Validate.{validate, valid_executable, spec_environment}
use sandcamp.Campd.Spec.Validate.Lifecycle.{
  Declared, IsValidProcess, IsValidLifecycle, of_sidecar, of_main,
}
use sandcamp.Campd.Spec.Validate.Accepts.{validate_iff}
use sandcamp.Campd.Launch.{
  main, LaunchProcess, Command, from_sidecar, from_main, from_mains, main_user, flatten, start_main,
  start_command, build_command, set_vars,
}
use sandcamp.Campd.Launch.Users.{Has, HasUser, resolved-HasUser}

-- What `run` relies on when it starts a process.
abbrev pub HasTimeout : ProcessKind → Option ℕ → Type 0
HasTimeout service timeout = Unit
HasTimeout run_to_completion none = ⊥
HasTimeout run_to_completion (some t) = Unit

pub record Launchable (sandrun : Bytes) (p : LaunchProcess) : Type 0 where
  pub command : Command
  pub built : build_command sandrun p ≡ ok command
  pub timeout : HasTimeout p.kind p.completion_timeout_ms

lifecycle-HasTimeout :
    (k : ProcessKind) (probe : Option Probe) (t : Option ℕ)
    → IsValidLifecycle k probe t
    → HasTimeout k t
lifecycle-HasTimeout service probe t h = tt
lifecycle-HasTimeout run_to_completion none none h = h
lifecycle-HasTimeout run_to_completion (some p) none h = h
lifecycle-HasTimeout run_to_completion none (some t) h = tt
lifecycle-HasTimeout run_to_completion (some p) (some t) h = tt

sidecar-Launchable :
    (sandrun : Bytes) (p : SidecarProcess)
    → IsValidProcess (of_sidecar p)
    → Launchable sandrun (from_sidecar p)
unfolding from_sidecar build_command start_command
sidecar-Launchable sandrun p h = record {
  command = _;
  built = refl;
  timeout = lifecycle-HasTimeout p.kind p.readiness_probe p.completion_timeout_ms h.lifecycle;
}

main_user-total :
    (resolved : Resolved) (user : Option ProcessUser)
    → Has resolved (asked_name user)
    → (u : Option NumericUser) × (main_user resolved user ≡ ok u)
unfolding main_user asked_name
main_user-total resolved none h = (none, refl)
main_user-total resolved (some (numeric user)) h = (some user, refl)
main_user-total resolved (some (named name)) h = go (resolved_user name resolved) refl h
  where
    go :
        (found : Option NumericUser)
        → resolved_user name resolved ≡ found
        → is_some (resolved_user name resolved) ≡ true
        → (u : Option NumericUser) × ((ok_or (resolved_user name resolved) panicked >>= λ user.
              ok (some user))
            ≡ ok u)
    go none e h' = absurd (ground arith)
    go (some u) e h' = (some u, rw e refl)

start_main-total :
    (p : LaunchProcess) (command : List Bytes)
    → valid_executable command ≡ true
    → (c : Command) × (start_main p command ≡ ok c)
unfolding valid_executable
start_main-total p [] h = cc
start_main-total p (x ∷ xs) h = (_, refl)

from_main-Launchable :
    (sandrun : Bytes) (resolved : Resolved) (p : MainProcess)
    → HasUser resolved p
    → IsValidProcess (of_main p)
    → (q : LaunchProcess) × (from_main resolved p ≡ ok q) × Launchable sandrun q
unfolding from_main build_command start_command
from_main-Launchable sandrun resolved p h v =
    let (user, found) = main_user-total resolved p.user h in
    let q : LaunchProcess = record {
      name = p.name;
      kind = p.kind;
      command = p.command;
      env = p.env;
      workdir = p.workdir;
      readiness_probe = p.readiness_probe;
      completion_timeout_ms = p.completion_timeout_ms;
      source = main user;
    } in
    let (c, started) = start_main-total q p.command v.executable in
    (
      q,
      rw found refl,
      record {
        command = record c { vars = (spec_environment, none) ∷ set_vars p.env c.vars };
        built = rw started refl;
        timeout = lifecycle-HasTimeout p.kind p.readiness_probe p.completion_timeout_ms v.lifecycle;
      },
    )

sidecars-Launchable :
    (sandrun : Bytes) (ss : List SidecarProcess) (ds : List Declared)
    → All IsValidProcess (map of_sidecar ss ++ ds)
    → All (Launchable sandrun) (map from_sidecar ss) × All IsValidProcess ds
sidecars-Launchable sandrun [] ds h = (tt, h)
sidecars-Launchable sandrun (s ∷ ss) ds h =
    let later = sidecars-Launchable sandrun ss ds h.1 in
    ((sidecar-Launchable sandrun s h.0, later.0), later.1)

mains-Launchable :
    (sandrun : Bytes) (resolved : Resolved) (ps : List MainProcess)
    → All (HasUser resolved) ps
    → All IsValidProcess (map of_main ps)
    → (qs : List LaunchProcess) × (from_mains resolved ps ≡ ok qs) × All (Launchable sandrun) qs
unfolding from_mains
mains-Launchable sandrun resolved [] h v = ([], refl, tt)
mains-Launchable sandrun resolved (p ∷ ps) h v =
    let (q, first, launchable) = from_main-Launchable sandrun resolved p h.0 v.0 in
    let (qs, rest, later) = mains-Launchable sandrun resolved ps h.1 v.1 in
    (q ∷ qs, rw (first, rest) refl, (launchable, later))

-- For a valid specification whose main users are resolved, `flatten` succeeds, the command of every
-- process can be built, and every job has a timeout, so that neither an `expect` of the launch nor
-- `command[0]` panics.
pub flatten-Launchable :
    (sandrun : Bytes) (read : Result RuntimeError Bytes) (spec : Spec) (resolved : Resolved)
    → validate spec ≡ ok tt
    → resolve_main_users read spec.main ≡ ok resolved
    → (ps : List LaunchProcess) × (flatten read spec ≡ ok ps) × All (Launchable sandrun) ps
unfolding flatten
flatten-Launchable sandrun read spec resolved accepted found =
    let valid = (validate_iff spec).0 accepted in
    let (sidecars, mains) =
      sidecars-Launchable sandrun spec.sidecars (map of_main spec.main) valid.processes in
    let (qs, there, launchable) =
      mains-Launchable sandrun resolved spec.main (resolved-HasUser read spec.main resolved found)
        mains in
    (
      map from_sidecar spec.sidecars ++ qs,
      rw (found, there) refl,
      All-append (Launchable sandrun) (map from_sidecar spec.sidecars) qs sidecars launchable,
    )
