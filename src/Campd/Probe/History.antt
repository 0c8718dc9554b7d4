-- ===== src/Campd/Probe/History.antt =====
-- The counters and the health of a probe, as a function of what has been observed.
use sandcamp.Base.{
  ℕ, suc, ◌≤◌, ◌≡◌, refl, Bool, true, false, List, [], ◌∷◌, arith, min, leb, if◌then◌else◌,
}
use sandcamp.Rust.Int.{u32_max}
use sandcamp.Campd.Spec.{Probe}
use sandcamp.Campd.Probe.{ProbeHealth, starting, ready, unready, ProbeState, new_probe, observe}

-- Observations, the newest first.
abbrev pub History : Type 0
History = List Bool

-- How many of the newest observations are all successes, and all failures.
abbrev pub successes : History → ℕ
successes [] = 0
successes (true ∷ h) = suc (successes h)
successes (false ∷ h) = 0

abbrev pub failures : History → ℕ
failures [] = 0
failures (true ∷ h) = 0
failures (false ∷ h) = suc (failures h)

-- The health changes at an observation that ends a long enough run of its kind, and stays at any
-- other; the counters do not saturate.
abbrev pub health_of : Probe → History → ProbeHealth
health_of p [] = starting
health_of p (true ∷ h) =
    if leb p.success_threshold (suc (successes h)) then ready else health_of p h
health_of p (false ∷ h) =
    if leb p.failure_threshold (suc (failures h)) then unready else health_of p h

pub observe_all : ProbeState → History → ProbeState
observe_all s [] = s
observe_all s (b ∷ h) = observe (observe_all s h) b

abbrev pub summary : Probe → History → ProbeState
summary p h = record {
  health = health_of p h;
  consecutive_successes = min (successes h) u32_max;
  consecutive_failures = min (failures h) u32_max;
  success_threshold = p.success_threshold;
  failure_threshold = p.failure_threshold;
}

observe-summary :
    (p : Probe) (h : History) (b : Bool)
    → p.success_threshold ≤ u32_max
    → p.failure_threshold ≤ u32_max
    → observe (summary p h) b ≡ summary p (b ∷ h)
unfolding observe
observe-summary p h true s f = ground arith
observe-summary p h false s f = ground arith

-- After any observations the state of a probe (its thresholds in `u32`) is the summary of its
-- history: the lengths of the newest runs, up to the width, and the health of `health_of`.
pub observe_all-summary :
    (p : Probe) (h : History)
    → p.success_threshold ≤ u32_max
    → p.failure_threshold ≤ u32_max
    → observe_all (new_probe p) h ≡ summary p h
unfolding observe_all new_probe
observe_all-summary p [] s f = refl
observe_all-summary p (b ∷ h) s f = rw (observe_all-summary p h s f) (observe-summary p h b s f)
