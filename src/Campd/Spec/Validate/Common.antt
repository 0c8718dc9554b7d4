-- ===== src/Campd/Spec/Validate/Common.antt =====
-- What `validate_common` accepts of a process, and what it adds to the totals.
use sandcamp.Base.{
  ◌+◌, ◌≤◌, ◌≡◌, ◌↔◌, ◌⊎◌, Bool, true, false, not, ◌&&◌, List, [], ◌∷◌, arith, Bytes, bytes_eq, any,
  is_empty, All, All-map_iff, Result, ok, ◌>>◌, guard, for_each, for_each_iff, guard-bind_iff,
  then_iff,
}
use sandcamp.Rust.Bytes.{contains}
use sandcamp.Rust.Int.{u64_max}
use sandcamp.Campd.Spec.{SpecError}
use sandcamp.Campd.Spec.Text.{valid_name, valid_path}
use sandcamp.Campd.Spec.Validate.{
  Totals, validate_environment, validate_lifecycle, valid_executable, validate_common,
}
use sandcamp.Campd.Spec.Validate.Lifecycle.{
  Declared, IsValidVariable, IsValidProcess, duration, advance, validate_environment_iff,
  lifecycle_sound, lifecycle_complete,
}

abbrev pub common : Declared → Totals → Result SpecError Totals
common d t =
    validate_common d.name d.kind d.command d.env d.workdir d.probe d.completion_timeout_ms t

-- A name that no earlier process has.
abbrev pub IsFresh : Bytes → List Bytes → Type 0
IsFresh name names = any (bytes_eq name) names ≡ false

-- The checks of `validate_common`, one pair of a test and what it decides after another.
module _ (d : Declared) (t t' : Totals) where
  abbrev entered : Totals
  entered = record t { names = d.name ∷ t.names }

  abbrev after_env : Result SpecError Totals
  after_env = validate_lifecycle d.name d.kind d.probe d.completion_timeout_ms entered

  abbrev after_workdir : Result SpecError Totals
  after_workdir = for_each d.env (validate_environment d.name) >> after_env

  abbrev workdir_passes : Bool
  workdir_passes = not (not (is_empty d.workdir) && not (valid_path d.workdir true))

  abbrev after_command : Result SpecError Totals
  after_command = guard workdir_passes (SpecError.workdir_unclean d.name) >> after_workdir

  abbrev after_executable : Result SpecError Totals
  after_executable =
      guard (not (any (contains 0) d.command)) (SpecError.command_nul d.name) >> after_command

  workdir_iff : (workdir_passes ≡ true) ↔ ((d.workdir ≡ []) ⊎ (valid_path d.workdir true ≡ true))
  workdir_iff = (λ h. ground arith, λ h. ground arith)

  env_iff : (for_each d.env (validate_environment d.name) ≡ ok tt) ↔ All IsValidVariable d.env
  env_iff =
      let loop = for_each_iff d.env (validate_environment d.name) in
      let each = All-map_iff d.env (validate_environment_iff d.name) in
      (λ h. each.0 (loop.0 h), λ h. loop.1 (each.1 h))

  tail_iff : (after_executable ≡ ok t') ↔ (
      (any (contains 0) d.command ≡ false)
      × ((d.workdir ≡ []) ⊎ (valid_path d.workdir true ≡ true))
      × All IsValidVariable d.env
      × (after_env ≡ ok t'))
  tail_iff =
      let c =
        guard-bind_iff (not (any (contains 0) d.command)) (SpecError.command_nul d.name)
          after_command t' in
      let w = guard-bind_iff workdir_passes (SpecError.workdir_unclean d.name) after_workdir t' in
      let e = then_iff (for_each d.env (validate_environment d.name)) after_env t' in
      (
        λ h. (
          ground (arith, (c.0 h).0),
          workdir_iff.0 (w.0 (c.0 h).1).0,
          env_iff.0 (e.0 (w.0 (c.0 h).1).1).0,
          (e.0 (w.0 (c.0 h).1).1).1,
        ),
        λ h. c.1 (ground arith, w.1 (workdir_iff.1 h.1, e.1 (env_iff.1 h.2, h.3))),
      )

  head_iff : (common d t ≡ ok t') ↔ (
      (valid_name d.name ≡ true)
      × IsFresh d.name t.names
      × (valid_executable d.command ≡ true)
      × (after_executable ≡ ok t'))
  unfolding validate_common
  head_iff =
      let x =
        guard-bind_iff (valid_executable d.command) (SpecError.executable_unclean d.name)
          after_executable t' in
      let f =
        guard-bind_iff (not (any (bytes_eq d.name) t.names)) (SpecError.name_duplicated d.name)
          (guard (valid_executable d.command) (SpecError.executable_unclean d.name)
            >> after_executable)
          t' in
      let n =
        guard-bind_iff (valid_name d.name) (SpecError.name_invalid d.name)
          (guard (not (any (bytes_eq d.name) t.names)) (SpecError.name_duplicated d.name)
            >> (guard (valid_executable d.command) (SpecError.executable_unclean d.name)
                >> after_executable))
          t' in
      (
        λ h. (
          (n.0 h).0,
          ground (arith, (f.0 (n.0 h).1).0),
          (x.0 (f.0 (n.0 h).1).1).0,
          (x.0 (f.0 (n.0 h).1).1).1,
        ),
        λ h. n.1 (h.0, f.1 (ground arith, x.1 (h.2, h.3))),
      )

pub common_sound :
    (d : Declared) (t t' : Totals)
    → t.startup_budget_ms ≤ u64_max
    → common d t ≡ ok t'
    → IsValidProcess d
      × IsFresh d.name t.names
      × (t.startup_budget_ms + duration d ≤ u64_max)
      × (t' ≡ advance t d)
common_sound d t t' b h =
    let (name, fresh, executable, tail) = (head_iff d t t').0 h in
    let (command, workdir, env, last) = (tail_iff d t t').0 tail in
    let (lifecycle, fits, same) =
      lifecycle_sound d.name d.kind d.probe d.completion_timeout_ms (entered d t t') t' b last in
    (
      record {
        name = name;
        executable = executable;
        command = command;
        workdir = workdir;
        env = env;
        lifecycle = lifecycle;
      },
      fresh,
      fits,
      same,
    )

pub common_complete :
    (d : Declared) (t : Totals)
    → IsValidProcess d
    → IsFresh d.name t.names
    → t.startup_budget_ms + duration d ≤ u64_max
    → common d t ≡ ok (advance t d)
common_complete d t v fresh fits =
    let last =
      lifecycle_complete d.name d.kind d.probe d.completion_timeout_ms (entered d t (advance t d))
        v.lifecycle fits in
    let tail = (tail_iff d t (advance t d)).1 (v.command, v.workdir, v.env, last) in
    (head_iff d t (advance t d)).1 (v.name, fresh, v.executable, tail)
