-- ===== src/Campd/Spec.antt =====
-- cmd/campd/src/spec.rs: the declaration, and the character classes that its checks go by.
pub mod Text
pub mod Validate
use sandcamp.Base.{ℕ, Bool, List, Option, Bytes}

abbrev pub legacy_runtime_spec_version : ℕ
legacy_runtime_spec_version = 2

abbrev pub runtime_spec_version : ℕ
runtime_spec_version = 3

abbrev pub max_encoded_bytes : ℕ
max_encoded_bytes = 122880

abbrev pub ags_ready_timeout_ms : ℕ
ags_ready_timeout_ms = 30000

abbrev pub max_startup_budget_ms : ℕ
max_startup_budget_ms = 25000

abbrev pub control_port : ℕ
control_port = 49982

-- `process_kind` of the declaration.
pub data ProcessKind : Type 0 where
  service run_to_completion : ProcessKind

pub record NumericUser : Type 0 where
  pub uid : ℕ
  pub gid : ℕ

-- `Named` holds the field of the one-field struct `NamedUser`.
pub data ProcessUser : Type 0 where
  named : Bytes → ProcessUser
  numeric : NumericUser → ProcessUser

pub record Bind : Type 0 where
  pub source : Bytes
  pub target : Bytes
  pub readonly : Bool

pub record Probe : Type 0 where
  pub path : Bytes
  pub port : ℕ  -- u16
  pub startup_timeout_ms : ℕ  -- u64
  pub period_ms : ℕ  -- u64
  pub timeout_ms : ℕ  -- u64
  pub failure_threshold : ℕ  -- u32
  pub success_threshold : ℕ  -- u32

-- A `BTreeMap<String, String>` is the list of its entries in the order of the keys.
abbrev pub Env : Type 0
Env = List (Bytes × Bytes)

pub record SidecarProcess : Type 0 where
  pub name : Bytes
  pub kind : ProcessKind
  pub rootfs : Bytes
  pub overlay_device : Option Bytes
  pub standard_mounts : Bool
  pub disk_mounts : List Bytes
  pub binds : List Bind
  pub command : List Bytes
  pub env : Env
  pub workdir : Bytes
  pub user : Option ProcessUser
  pub readiness_probe : Option Probe
  pub completion_timeout_ms : Option ℕ

pub record MainProcess : Type 0 where
  pub name : Bytes
  pub kind : ProcessKind
  pub command : List Bytes
  pub env : Env
  pub workdir : Bytes
  pub user : Option ProcessUser
  pub readiness_probe : Option Probe
  pub completion_timeout_ms : Option ℕ

pub record Spec : Type 0 where
  pub version : ℕ  -- u8
  pub sidecars : List SidecarProcess
  pub main : List MainProcess

-- `SpecError` is a message; here each message is a constructor over what is written into it.
pub data SpecError : Type 0 where
  encoded_too_large : SpecError
  invalid_base64 : Bytes → SpecError
  invalid_json : Bytes → SpecError
  unsupported_version : ℕ → SpecError
  no_processes no_services : SpecError
  budget_exceeded : ℕ → SpecError
  budget_overflow : SpecError
  rootfs_unclean overlay_device_unclean disk_target_unclean bind_paths_unclean : Bytes → SpecError
  disk_target_duplicated bind_target_duplicated : (name target : Bytes) → SpecError
  disk_target_overlaps bind_target_overlaps : (name target previous : Bytes) → SpecError
  user_name_invalid user_id_reserved : Bytes → SpecError
  name_invalid name_duplicated : Bytes → SpecError
  executable_unclean command_nul workdir_unclean : Bytes → SpecError
  environment_invalid : (name key : Bytes) → SpecError
  environment_reserved : Bytes → SpecError
  service_timeout job_probe job_timeout_missing job_timeout_range : Bytes → SpecError
  probe_path probe_port probe_port_reserved probe_startup_range : Bytes → SpecError
  probe_period_range probe_timeout_range probe_timeout_long probe_thresholds : Bytes → SpecError
