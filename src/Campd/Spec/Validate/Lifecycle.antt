-- ===== src/Campd/Spec/Validate/Lifecycle.antt =====
-- What a process of a declaration has to satisfy, and what `validate_lifecycle` accepts of it.
use sandcamp.Base.{
  ℕ, ◌+◌, ◌≤◌, ◌≡◌, ◌≢◌, ◌↔◌, ◌⊎◌, true, false, Option, none, some, List, [], ◌∷◌, arith, Bytes,
  bytes_eq_iff, any, All, ok,
}
use sandcamp.Rust.Bytes.{contains}
use sandcamp.Rust.Int.{u64_max}
use sandcamp.Campd.Spec.{
  ProcessKind, service, run_to_completion, Probe, Env, SidecarProcess, MainProcess, control_port,
  ags_ready_timeout_ms,
}
use sandcamp.Campd.Spec.Text.{
  valid_http_origin_form, valid_name, valid_environment_name, valid_path,
}
use sandcamp.Campd.Spec.Validate.{
  Totals, spec_environment, add_startup_budget, validate_probe, validate_environment,
  validate_lifecycle, valid_executable,
}

-- The fields that sidecars and main processes share.
pub record Declared : Type 0 where
  pub name : Bytes
  pub kind : ProcessKind
  pub command : List Bytes
  pub env : Env
  pub workdir : Bytes
  pub probe : Option Probe
  pub completion_timeout_ms : Option ℕ

abbrev pub of_sidecar : SidecarProcess → Declared
of_sidecar p = record {
  name = p.name;
  kind = p.kind;
  command = p.command;
  env = p.env;
  workdir = p.workdir;
  probe = p.readiness_probe;
  completion_timeout_ms = p.completion_timeout_ms;
}

abbrev pub of_main : MainProcess → Declared
of_main p = record {
  name = p.name;
  kind = p.kind;
  command = p.command;
  env = p.env;
  workdir = p.workdir;
  probe = p.readiness_probe;
  completion_timeout_ms = p.completion_timeout_ms;
}

pub record IsValidProbe (p : Probe) : Type 0 where
  pub path : valid_http_origin_form p.path ≡ true
  pub port : (p.port ≢ 0) × (p.port ≢ control_port)
  pub startup : (1000 ≤ p.startup_timeout_ms) × (p.startup_timeout_ms ≤ ags_ready_timeout_ms)
  pub period : (100 ≤ p.period_ms) × (p.period_ms ≤ ags_ready_timeout_ms)
  pub timeout : (100 ≤ p.timeout_ms) × (p.timeout_ms ≤ p.startup_timeout_ms)
  pub thresholds : (p.failure_threshold ≢ 0) × (p.success_threshold ≢ 0)

-- A service may have a probe and has no timeout; a job has a timeout and no probe.
abbrev pub IsValidLifecycle : ProcessKind → Option Probe → Option ℕ → Type 0
IsValidLifecycle service none none = Unit
IsValidLifecycle service (some p) none = IsValidProbe p
IsValidLifecycle run_to_completion none (some t) = (100 ≤ t) × (t ≤ ags_ready_timeout_ms)
IsValidLifecycle _ _ _ = ⊥

abbrev pub IsValidVariable : Bytes × Bytes → Type 0
IsValidVariable (key, value) =
    (valid_environment_name key ≡ true) × (contains 0 value ≡ false) × (key ≢ spec_environment)

pub record IsValidProcess (d : Declared) : Type 0 where
  pub name : valid_name d.name ≡ true
  pub executable : valid_executable d.command ≡ true
  pub command : any (contains 0) d.command ≡ false
  pub workdir : (d.workdir ≡ []) ⊎ (valid_path d.workdir true ≡ true)
  pub env : All IsValidVariable d.env
  pub lifecycle : IsValidLifecycle d.kind d.probe d.completion_timeout_ms

-- What a process can keep the start of the others waiting.
abbrev pub duration_of : ProcessKind → Option Probe → Option ℕ → ℕ
duration_of service (some p) _ = p.startup_timeout_ms
duration_of service none _ = 0
duration_of run_to_completion _ (some t) = t
duration_of run_to_completion _ none = 0

abbrev pub duration : Declared → ℕ
duration d = duration_of d.kind d.probe d.completion_timeout_ms

abbrev pub services_of : ProcessKind → ℕ
services_of service = 1
services_of run_to_completion = 0

abbrev pub advance : Totals → Declared → Totals
advance t d = record {
  names = d.name ∷ t.names;
  startup_budget_ms = t.startup_budget_ms + duration d;
  service_count = t.service_count + services_of d.kind;
}

validate_probe_iff : (name : Bytes) (p : Probe) → (validate_probe name p ≡ ok tt) ↔ IsValidProbe p
unfolding validate_probe
validate_probe_iff name p = (λ h. ground arith, λ v. ground arith)

pub validate_environment_iff :
    (name : Bytes) (v : Bytes × Bytes) → (validate_environment name v ≡ ok tt) ↔ IsValidVariable v
unfolding validate_environment
validate_environment_iff name (key, value) = (
  λ h. ground (arith, bytes_eq_iff key spec_environment),
  λ h. ground (arith, bytes_eq_iff key spec_environment),
)

-- The totals after the `match kind`, which leaves the names alone.
abbrev counted : Totals → ProcessKind → Option Probe → Option ℕ → Totals
counted t kind probe timeout = record t {
  startup_budget_ms = t.startup_budget_ms + duration_of kind probe timeout;
  service_count = t.service_count + services_of kind;
}

abbrev Fits : Totals → ProcessKind → Option Probe → Option ℕ → Type 0
Fits t kind probe timeout = t.startup_budget_ms + duration_of kind probe timeout ≤ u64_max

pub lifecycle_sound :
    (name : Bytes) (kind : ProcessKind) (probe : Option Probe) (timeout : Option ℕ) (t t' : Totals)
    → t.startup_budget_ms ≤ u64_max
    → validate_lifecycle name kind probe timeout t ≡ ok t'
    → IsValidLifecycle kind probe timeout
      × Fits t kind probe timeout
      × (t' ≡ counted t kind probe timeout)
unfolding validate_lifecycle add_startup_budget
lifecycle_sound name service none none t t' b h = (tt, omega arith, ground arith)
lifecycle_sound name service (some p) none t t' b h =
    ((validate_probe_iff name p).0 (ground arith), ground arith, ground arith)
lifecycle_sound name run_to_completion none (some n) t t' b h =
    (ground arith, ground arith, ground arith)
lifecycle_sound name service none (some n) t t' b h = cc
lifecycle_sound name service (some p) (some n) t t' b h = cc
lifecycle_sound name run_to_completion none none t t' b h = cc
lifecycle_sound name run_to_completion (some p) timeout t t' b h = cc

pub lifecycle_complete :
    (name : Bytes) (kind : ProcessKind) (probe : Option Probe) (timeout : Option ℕ) (t : Totals)
    → IsValidLifecycle kind probe timeout
    → Fits t kind probe timeout
    → validate_lifecycle name kind probe timeout t ≡ ok (counted t kind probe timeout)
unfolding validate_lifecycle add_startup_budget
lifecycle_complete name service none none t v f = ground arith
lifecycle_complete name service (some p) none t v f =
    rw ((validate_probe_iff name p).1 v) (ground arith)
lifecycle_complete name run_to_completion none (some n) t v f = ground arith
lifecycle_complete name service none (some n) t v f = absurd v
lifecycle_complete name service (some p) (some n) t v f = absurd v
lifecycle_complete name run_to_completion none none t v f = absurd v
lifecycle_complete name run_to_completion (some p) timeout t v f = absurd v
