-- ===== src/Campd/Probe.antt =====
-- cmd/campd/src/runtime.rs: the health of a service, by its probe's successes and failures.
pub mod History
use sandcamp.Base.{
  ℕ, ◌+◌, Bool, true, false, Option, none, some, List, [], ◌∷◌, min, leb, if◌then◌else◌,
}
use sandcamp.Rust.Int.{u32_max}
use sandcamp.Campd.Spec.{Probe}

pub data ProbeHealth : Type 0 where
  starting ready unready : ProbeHealth

pub record ProbeState : Type 0 where
  pub health : ProbeHealth
  pub consecutive_successes : ℕ  -- u32
  pub consecutive_failures : ℕ  -- u32
  pub success_threshold : ℕ  -- u32
  pub failure_threshold : ℕ  -- u32

unfoldable pub new_probe : Probe → ProbeState
new_probe probe = record {
  health = starting;
  consecutive_successes = 0;
  consecutive_failures = 0;
  success_threshold = probe.success_threshold;
  failure_threshold = probe.failure_threshold;
}

-- `saturating_add(1)`
abbrev pub count_up : ℕ → ℕ
count_up n = min (n + 1) u32_max

-- The state after an observation.
unfoldable pub observe : ProbeState → Bool → ProbeState
observe s true =
    let successes = count_up s.consecutive_successes in
    record s {
      consecutive_failures = 0;
      consecutive_successes = successes;
      health = if leb s.success_threshold successes then ready else s.health;
    }
observe s false =
    let failures = count_up s.consecutive_failures in
    record s {
      consecutive_successes = 0;
      consecutive_failures = failures;
      health = if leb s.failure_threshold failures then unready else s.health;
    }

abbrev pub same_health : ProbeHealth → ProbeHealth → Bool
same_health starting starting = true
same_health ready ready = true
same_health unready unready = true
same_health _ _ = false

-- What `observe` returns: the change, if the health has changed.
unfoldable pub health_change : ProbeState → Bool → Option (ProbeHealth × ProbeHealth)
unfolding observe
health_change s success =
    let current = (observe s success).health in
    if same_health s.health current then none else some (s.health, current)
