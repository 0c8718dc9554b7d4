-- ===== src/Campd/Spec/Validate.antt =====
-- cmd/campd/src/spec.rs: `decode` and `validate`.
pub mod Mounts
pub mod Common
pub mod Rounds
pub mod Accepts
pub mod Decode
pub mod Lifecycle
pub mod Targets
use sandcamp.Base.{
  ℕ, ◌+◌, Bool, true, false, not, ◌&&◌, ◌||◌, Option, none, some, List, [], ◌∷◌, ◌++◌, map, ◌==◌,
  ltb, leb, if◌then◌else◌, Bytes, ascii, bytes_eq, any, length, is_empty, is_some, Result, ok, err,
  ◌>>=◌, ◌>>◌, guard, ok_or, map_err, for_each, fold_each,
}
use sandcamp.Rust.Bytes.{contains}
use sandcamp.Rust.Int.{u32_max, u64_max}
use sandcamp.Rust.Path.{path_eq, starts_with}
use sandcamp.Campd.Spec.{
  ProcessKind, service, run_to_completion, NumericUser, ProcessUser, named, numeric, Bind, Probe,
  Env, SidecarProcess, MainProcess, Spec, legacy_runtime_spec_version, runtime_spec_version,
  max_encoded_bytes, ags_ready_timeout_ms, max_startup_budget_ms, control_port, SpecError,
}
use sandcamp.Campd.Spec.Text.{
  valid_http_origin_form, valid_name, valid_user_name, valid_environment_name, valid_path,
}

abbrev pub spec_environment : Bytes
spec_environment = ascii "SANDCAMP_SPEC"

abbrev pub standard_mount_targets : List Bytes
standard_mount_targets =
    ascii "/proc"
    ∷ ascii "/dev"
    ∷ ascii "/sys"
    ∷ ascii "/tmp"
    ∷ ascii "/run"
    ∷ ascii "/etc/resolv.conf"
    ∷ ascii "/etc/hosts"
    ∷ []

-- The three variables that `validate` hands to `validate_common`. The count of services is at
-- most the number of processes in memory, so its width is not written out.
pub record Totals : Type 0 where
  pub names : List Bytes
  pub startup_budget_ms : ℕ  -- u64
  pub service_count : ℕ

abbrev pub in_range : ℕ → ℕ → ℕ → Bool
in_range lo hi x = leb lo x && leb x hi

-- `checked_add`
unfoldable pub add_startup_budget : ℕ → ℕ → Result SpecError ℕ
add_startup_budget budget duration =
    if ltb u64_max (budget + duration)
    then err SpecError.budget_overflow
    else ok (budget + duration)

unfoldable pub validate_probe : Bytes → Probe → Result SpecError (Unit {0})
validate_probe name probe = do
  guard (valid_http_origin_form probe.path) (SpecError.probe_path name)
  guard (not (probe.port == 0)) (SpecError.probe_port name)
  guard (not (probe.port == control_port)) (SpecError.probe_port_reserved name)
  guard (in_range 1000 ags_ready_timeout_ms probe.startup_timeout_ms)
      (SpecError.probe_startup_range name)
  guard (in_range 100 ags_ready_timeout_ms probe.period_ms) (SpecError.probe_period_range name)
  guard (in_range 100 ags_ready_timeout_ms probe.timeout_ms) (SpecError.probe_timeout_range name)
  guard (not (ltb probe.startup_timeout_ms probe.timeout_ms)) (SpecError.probe_timeout_long name)
  guard (not (probe.failure_threshold == 0 || probe.success_threshold == 0))
      (SpecError.probe_thresholds name)

unfoldable pub validate_user : Bytes → ProcessUser → Result SpecError (Unit {0})
validate_user process_name (named user) =
    guard (valid_user_name user) (SpecError.user_name_invalid process_name)
validate_user process_name (numeric user) =
    guard (not (user.uid == u32_max || user.gid == u32_max))
      (SpecError.user_id_reserved process_name)

unfoldable pub validate_environment : Bytes → Bytes × Bytes → Result SpecError (Unit {0})
validate_environment name (key, value) = do
  guard (not (not (valid_environment_name key) || contains 0 value))
      (SpecError.environment_invalid name key)
  guard (not (bytes_eq key spec_environment)) (SpecError.environment_reserved name)

-- The `match kind` of `validate_common`: the duration that counts against the startup budget.
unfoldable pub validate_lifecycle :
    Bytes → ProcessKind → Option Probe → Option ℕ → Totals → Result SpecError Totals
validate_lifecycle name service probe completion_timeout_ms totals = do
  let counted = record totals { service_count = totals.service_count + 1 }
  guard (not (is_some completion_timeout_ms)) (SpecError.service_timeout name)
  elim probe [
    | none ↦ ok counted
    | some p ↦ do
      validate_probe name p
      budget ← add_startup_budget counted.startup_budget_ms p.startup_timeout_ms
      ok (record counted { startup_budget_ms = budget })
  ]
validate_lifecycle name run_to_completion probe completion_timeout_ms totals = do
  guard (not (is_some probe)) (SpecError.job_probe name)
  timeout ← ok_or completion_timeout_ms (SpecError.job_timeout_missing name)
  guard (in_range 100 ags_ready_timeout_ms timeout) (SpecError.job_timeout_range name)
  budget ← add_startup_budget totals.startup_budget_ms timeout
  ok (record totals { startup_budget_ms = budget })

-- `command.is_empty() || !valid_path(&command[0], false)`, negated.
unfoldable pub valid_executable : List Bytes → Bool
valid_executable [] = false
valid_executable (executable ∷ _) = valid_path executable false

unfoldable pub validate_common :
    (name : Bytes) (kind : ProcessKind) (command : List Bytes) (env : Env) (workdir : Bytes)
    (probe : Option Probe) (completion_timeout_ms : Option ℕ)
    → Totals
    → Result SpecError Totals
validate_common name kind command env workdir probe completion_timeout_ms totals = do
  guard (valid_name name) (SpecError.name_invalid name)
  guard (not (any (bytes_eq name) totals.names)) (SpecError.name_duplicated name)
  guard (valid_executable command) (SpecError.executable_unclean name)
  guard (not (any (contains 0) command)) (SpecError.command_nul name)
  guard (not (not (is_empty workdir) && not (valid_path workdir true)))
      (SpecError.workdir_unclean name)
  for_each env (validate_environment name)
  validate_lifecycle name kind probe completion_timeout_ms
      (record totals { names = name ∷ totals.names })

-- The loop over the targets seen before, with the two errors of the caller.
unfoldable pub check_target :
    (duplicated : SpecError) (overlaps : Bytes → SpecError) (target previous : Bytes)
    → Result SpecError (Unit {0})
check_target duplicated overlaps target previous = do
  guard (not (path_eq target previous)) duplicated
  guard (not (starts_with target previous || starts_with previous target)) (overlaps previous)

unfoldable pub validate_disk_mount : Bytes → List Bytes → Bytes → Result SpecError (List Bytes)
validate_disk_mount name bind_targets target = do
  guard (valid_path target false) (SpecError.disk_target_unclean name)
  for_each bind_targets (
      check_target (SpecError.disk_target_duplicated name target)
        (SpecError.disk_target_overlaps name target) target)
  ok (bind_targets ++ target ∷ [])

unfoldable pub validate_bind : Bytes → List Bytes → Bind → Result SpecError (List Bytes)
validate_bind name bind_targets bind = do
  guard (not (not (valid_path bind.source false) || not (valid_path bind.target false)))
      (SpecError.bind_paths_unclean name)
  for_each bind_targets (
      check_target (SpecError.bind_target_duplicated name bind.target)
        (SpecError.bind_target_overlaps name bind.target) bind.target)
  ok (bind_targets ++ bind.target ∷ [])

-- An absent value passes.
abbrev pub when_some {ℓ κ} :
    {A : Type ℓ} {E : Type κ} → Option A → (A → Result E (Unit {0})) → Result E (Unit {0})
when_some none f = ok tt
when_some (some a) f = f a

-- What the loop over the sidecars checks after `validate_common`.
unfoldable pub validate_mounts : SidecarProcess → Result SpecError (Unit {0})
validate_mounts p = do
  guard (valid_path p.rootfs false) (SpecError.rootfs_unclean p.name)
  when_some p.overlay_device
      λ device. guard (valid_path device false) (SpecError.overlay_device_unclean p.name)
  when_some p.user (validate_user p.name)
  targets ←
      fold_each p.disk_mounts (if p.standard_mounts then standard_mount_targets else [])
        (validate_disk_mount p.name)
  all_targets ← fold_each p.binds targets (validate_bind p.name)
  ok tt

unfoldable pub validate_sidecar : Totals → SidecarProcess → Result SpecError Totals
validate_sidecar totals p = do
  after ←
      validate_common p.name p.kind p.command p.env p.workdir p.readiness_probe
        p.completion_timeout_ms totals
  validate_mounts p
  ok after

unfoldable pub validate_main : Totals → MainProcess → Result SpecError Totals
validate_main totals p = do
  after ←
      validate_common p.name p.kind p.command p.env p.workdir p.readiness_probe
        p.completion_timeout_ms totals
  when_some p.user (validate_user p.name)
  ok after

abbrev pub no_totals : Totals
no_totals = record { names = []; startup_budget_ms = 0; service_count = 0 }

unfoldable pub validate : Spec → Result SpecError (Unit {0})
validate spec = do
  guard (spec.version == legacy_runtime_spec_version || spec.version == runtime_spec_version)
      (SpecError.unsupported_version spec.version)
  guard (not (length spec.sidecars + length spec.main == 0)) SpecError.no_processes
  totals ← fold_each spec.sidecars no_totals validate_sidecar
  final ← fold_each spec.main totals validate_main
  guard (not (final.service_count == 0)) SpecError.no_services
  guard (not (ltb max_startup_budget_ms final.startup_budget_ms))
      (SpecError.budget_exceeded final.startup_budget_ms)

-- The crates `base64` and `serde_json` are parameters; their errors are the messages they display.
module _ (decode_base64 : Bytes → Result Bytes Bytes) (from_json : Bytes → Result Bytes Spec) where
  unfoldable pub decode : Bytes → Result SpecError Spec
  decode value = do
    guard (not (ltb max_encoded_bytes (length value))) SpecError.encoded_too_large
    bytes ← map_err SpecError.invalid_base64 (decode_base64 value)
    spec ← map_err SpecError.invalid_json (from_json bytes)
    validate spec
    ok spec
