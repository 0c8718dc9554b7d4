-- ===== src/Campd/Spec/Validate/Accepts.antt =====
-- The declarations that `validate` accepts, described without its loops and totals.
use sandcamp.Base.{
  ◌+◌, ◌≤◌, ◌≡◌, refl, sym, ap, ◌∙◌, ◌↔◌, ◌⊎◌, Bool, true, not, ◌||◌, List, [], ◌∷◌, ◌++◌, map,
  arith, length, All, All-append, Pairs, Result, ok, ◌>>=◌, ◌>>◌, ltb, ◌==◌, guard, fold_each,
  >>=-eq-ok, guard-bind_iff,
}
use sandcamp.Rust.Int.{u64_max}
use sandcamp.Campd.Spec.{
  SidecarProcess, MainProcess, Spec, SpecError, legacy_runtime_spec_version, runtime_spec_version,
  max_startup_budget_ms,
}
use sandcamp.Campd.Spec.Validate.{
  Totals, no_totals, validate, validate_sidecar, validate_main, validate_mounts, validate_user,
  when_some,
}
use sandcamp.Campd.Spec.Validate.Mounts.{validate_mounts_iff}
use sandcamp.Campd.Spec.Validate.Targets.{
  IsValidSidecar, IsValidUser, WhenSome, validate_user_iff, when_some_iff,
}
use sandcamp.Campd.Spec.Validate.Lifecycle.{Declared, of_sidecar, of_main, IsValidProcess}
use sandcamp.Campd.Spec.Validate.Rounds.{
  advance_all, advance_all-append, advance_all-budget, advance_all-services, total_duration,
  total_services, AllFresh, AllFresh-append, AllFresh-iff, Differ, rounds_sound, rounds_complete,
}

-- The processes in the order in which campd starts them.
abbrev pub declared : Spec → List Declared
declared spec = map of_sidecar spec.sidecars ++ map of_main spec.main

abbrev pub HasValidUser : MainProcess → Type 0
HasValidUser p = WhenSome IsValidUser p.user

pub record IsValid (spec : Spec) : Type 0 where
  pub version : (spec.version ≡ legacy_runtime_spec_version) ⊎ (spec.version ≡ runtime_spec_version)
  pub processes : All IsValidProcess (declared spec)
  pub sidecars : All IsValidSidecar spec.sidecars
  pub users : All HasValidUser spec.main
  pub names : Pairs Differ (declared spec)
  pub services : 1 ≤ total_services (declared spec)
  pub budget : total_duration (declared spec) ≤ max_startup_budget_ms

abbrev user_check : MainProcess → Result SpecError (Unit {0})
user_check p = when_some p.user (validate_user p.name)

user_check_iff : (p : MainProcess) → (user_check p ≡ ok tt) ↔ HasValidUser p
user_check_iff p = when_some_iff p.user (validate_user p.name) (validate_user_iff p.name)

sidecars_sound :
    (xs : List SidecarProcess) (t t' : Totals)
    → t.startup_budget_ms ≤ u64_max
    → fold_each xs t validate_sidecar ≡ ok t'
    → All (λ x. IsValidProcess (of_sidecar x)) xs
      × All IsValidSidecar xs
      × AllFresh t (map of_sidecar xs)
      × (t' ≡ advance_all t (map of_sidecar xs))
      × (t'.startup_budget_ms ≤ u64_max)
unfolding validate_sidecar
sidecars_sound = rounds_sound of_sidecar IsValidSidecar validate_mounts validate_mounts_iff

mains_sound :
    (xs : List MainProcess) (t t' : Totals)
    → t.startup_budget_ms ≤ u64_max
    → fold_each xs t validate_main ≡ ok t'
    → All (λ x. IsValidProcess (of_main x)) xs
      × All HasValidUser xs
      × AllFresh t (map of_main xs)
      × (t' ≡ advance_all t (map of_main xs))
      × (t'.startup_budget_ms ≤ u64_max)
unfolding validate_main
mains_sound = rounds_sound of_main HasValidUser user_check user_check_iff

sidecars_complete :
    (xs : List SidecarProcess) (t : Totals)
    → All (λ x. IsValidProcess (of_sidecar x)) xs
    → All IsValidSidecar xs
    → AllFresh t (map of_sidecar xs)
    → t.startup_budget_ms + total_duration (map of_sidecar xs) ≤ u64_max
    → fold_each xs t validate_sidecar ≡ ok (advance_all t (map of_sidecar xs))
unfolding validate_sidecar
sidecars_complete = rounds_complete of_sidecar IsValidSidecar validate_mounts validate_mounts_iff

mains_complete :
    (xs : List MainProcess) (t : Totals)
    → All (λ x. IsValidProcess (of_main x)) xs
    → All HasValidUser xs
    → AllFresh t (map of_main xs)
    → t.startup_budget_ms + total_duration (map of_main xs) ≤ u64_max
    → fold_each xs t validate_main ≡ ok (advance_all t (map of_main xs))
unfolding validate_main
mains_complete = rounds_complete of_main HasValidUser user_check user_check_iff

total_duration-append :
    (xs ys : List Declared) → total_duration (xs ++ ys) ≡ total_duration xs + total_duration ys
total_duration-append [] ys = omega arith
total_duration-append (x ∷ xs) ys = omega (arith, total_duration-append xs ys)

All-view :
    {A : Type 0} (view : A → Declared) (xs : List A)
    → All (λ x. IsValidProcess (view x)) xs ↔ All IsValidProcess (map view xs)
All-view view [] = (λ _. tt, λ _. tt)
All-view view (x ∷ xs) =
    let rest = All-view view xs in (λ h. (h.0, rest.0 h.1), λ h. (h.0, rest.1 h.1))

All-split :
    (xs ys : List Declared)
    → All IsValidProcess (xs ++ ys)
    → All IsValidProcess xs × All IsValidProcess ys
All-split [] ys h = (tt, h)
All-split (x ∷ xs) ys h = let rest = All-split xs ys h.1 in ((h.0, rest.0), rest.1)

no_services_of_no_processes :
    (ss : List SidecarProcess) (ms : List MainProcess)
    → length ss + length ms ≡ 0
    → total_services (map of_sidecar ss ++ map of_main ms) ≡ 0
no_services_of_no_processes [] [] h = refl
no_services_of_no_processes [] (m ∷ ms) h = absurd (omega arith)
no_services_of_no_processes (s ∷ ss) ms h = absurd (omega arith)

abbrev version_passes : Spec → Bool
version_passes spec =
    spec.version == legacy_runtime_spec_version || spec.version == runtime_spec_version

version_iff :
    (spec : Spec)
    → (version_passes spec ≡ true)
      ↔ ((spec.version ≡ legacy_runtime_spec_version) ⊎ (spec.version ≡ runtime_spec_version))
version_iff spec = (λ h. ground arith, λ h. ground arith)

abbrev last_checks : Totals → Result SpecError (Unit {0})
last_checks final = do
  guard (not (final.service_count == 0)) SpecError.no_services
  guard (not (ltb max_startup_budget_ms final.startup_budget_ms))
      (SpecError.budget_exceeded final.startup_budget_ms)

abbrev process_checks : Spec → Result SpecError (Unit {0})
process_checks spec = fold_each spec.sidecars no_totals validate_sidecar >>= λ totals.
    fold_each spec.main totals validate_main >>= last_checks

last_checks_iff :
    (final : Totals)
    → (last_checks final ≡ ok tt)
      ↔ ((1 ≤ final.service_count) × (final.startup_budget_ms ≤ max_startup_budget_ms))
last_checks_iff final = (λ h. ground arith, λ h. ground arith)

process_checks_sound :
    (spec : Spec)
    → process_checks spec ≡ ok tt
    → All IsValidProcess (declared spec)
      × All IsValidSidecar spec.sidecars
      × All HasValidUser spec.main
      × Pairs Differ (declared spec)
      × (1 ≤ total_services (declared spec))
      × (total_duration (declared spec) ≤ max_startup_budget_ms)
process_checks_sound spec h =
    let ss = map of_sidecar spec.sidecars in
    let ms = map of_main spec.main in
    let (totals, first, rest) =
      >>=-eq-ok (fold_each spec.sidecars no_totals validate_sidecar)
        (λ totals. fold_each spec.main totals validate_main >>= last_checks) h in
    let (final, second, last) =
      >>=-eq-ok (fold_each spec.main totals validate_main) last_checks rest in
    let (ps, sidecars, fresh, here, bound) =
      sidecars_sound spec.sidecars no_totals totals (omega arith) first in
    let (qs, users, fresh', there, _) = mains_sound spec.main totals final bound second in
    let (services, budget) = (last_checks_iff final).0 last in
    let end : final ≡ advance_all no_totals (declared spec) =
      there ∙ rw here (sym (advance_all-append no_totals ss ms)) in
    (
      All-append IsValidProcess ss ms ((All-view of_sidecar spec.sidecars).0 ps)
          ((All-view of_main spec.main).0 qs),
      sidecars,
      users,
      ((AllFresh-iff no_totals (declared spec)).0
          ((AllFresh-append no_totals ss ms).1 (fresh, rw here at fresh'))).1,
      omega (
        arith,
        advance_all-services no_totals (declared spec),
        ap (λ (t : Totals). t.service_count) end,
      ),
      omega (
        arith,
        advance_all-budget no_totals (declared spec),
        ap (λ (t : Totals). t.startup_budget_ms) end,
      ),
    )

no_names : (ds : List Declared) → All (λ (d : Declared). Unit {0}) ds
no_names [] = tt
no_names (d ∷ ds) = (tt, no_names ds)

process_checks_complete : (spec : Spec) → IsValid spec → process_checks spec ≡ ok tt
process_checks_complete spec v =
    let ss = map of_sidecar spec.sidecars in
    let ms = map of_main spec.main in
    let (ps, qs) = All-split ss ms v.processes in
    let (fresh, fresh') =
      (AllFresh-append no_totals ss ms).0
        ((AllFresh-iff no_totals (declared spec)).1 (no_names (declared spec), v.names)) in
    let small = v.budget in
    let first =
      sidecars_complete spec.sidecars no_totals ((All-view of_sidecar spec.sidecars).1 ps)
        v.sidecars fresh (omega (arith, total_duration-append ss ms)) in
    let second =
      mains_complete spec.main (advance_all no_totals ss) ((All-view of_main spec.main).1 qs)
        v.users fresh'
        (omega (arith, total_duration-append ss ms, advance_all-budget no_totals ss)) in
    let end = advance_all-append no_totals ss ms in
    rw (first, second, ← end)
      ((last_checks_iff (advance_all no_totals (declared spec))).1 (
        omega (arith, advance_all-services no_totals (declared spec), v.services),
        omega (arith, advance_all-budget no_totals (declared spec)),
      ))

-- `validate` accepts exactly the declarations that satisfy `IsValid`: version 2 or 3; processes
-- that are each well formed; sidecars whose mount targets are clean and apart; names that differ;
-- a service; and startup durations that sum up to at most 25000 ms.
pub validate_iff : (spec : Spec) → (validate spec ≡ ok tt) ↔ IsValid spec
unfolding validate
validate_iff spec =
    let n =
      guard-bind_iff (not (length spec.sidecars + length spec.main == 0)) SpecError.no_processes
        (process_checks spec) tt in
    let v =
      guard-bind_iff (version_passes spec) (SpecError.unsupported_version spec.version)
        (guard (not (length spec.sidecars + length spec.main == 0)) SpecError.no_processes
          >> process_checks spec)
        tt in
    (
      λ h.
          let (version, rest) = v.0 h in
          let (processes, sidecars, users, names, services, budget) =
            process_checks_sound spec (n.0 rest).1 in
          record {
            version = (version_iff spec).0 version;
            processes = processes;
            sidecars = sidecars;
            users = users;
            names = names;
            services = services;
            budget = budget;
          },
      λ i. v.1 (
        (version_iff spec).1 i.version,
        n.1 (
          ground (arith, i.services, no_services_of_no_processes spec.sidecars spec.main),
          process_checks_complete spec i,
        ),
      ),
    )
