-- ===== src/Sandrun/Config.antt =====
-- cmd/sandrun/src/lib.rs: what the command line declares, its errors, and the checks of paths,
-- users and mount targets.
pub mod Laws
use sandcamp.Base.{
  ℕ, Bool, true, false, not, ◌&&◌, ◌||◌, Option, none, some, List, [], ◌∷◌, ◌++◌, map, ◌==◌, leb,
  if◌then◌else◌, Bytes, ascii, all, length, is_empty, Result, ok, err, ◌>>=◌, ◌>>◌, guard, ok_or,
  for_each,
}
use sandcamp.Rust.Bytes.{is_ascii_digit, is_ascii_alphabetic, is_ascii_alphanumeric}
use sandcamp.Rust.Int.{u32_max, parse_u32}
use sandcamp.Rust.Path.{path_eq, starts_with, is_absolute, components, is_root_or_normal}

abbrev pub standard_targets : List Bytes
standard_targets =
    ascii "/proc"
    ∷ ascii "/dev"
    ∷ ascii "/sys"
    ∷ ascii "/tmp"
    ∷ ascii "/run"
    ∷ ascii "/etc/resolv.conf"
    ∷ ascii "/etc/hosts"
    ∷ []

pub record Bind : Type 0 where
  pub source : Bytes
  pub target : Bytes
  pub readonly : Bool

pub data ProcessUser : Type 0 where
  named : Bytes → ProcessUser
  numeric : (uid gid : ℕ) → ProcessUser

pub record Config : Type 0 where
  pub rootfs : Bytes
  pub overlay_device : Option Bytes
  pub overlay_id : Option Bytes
  pub workdir : Bytes
  pub user : Option ProcessUser
  pub standard_mounts : Bool
  pub disk_mounts : List Bytes
  pub binds : List Bind
  pub tmpfs : List Bytes
  pub command : List Bytes

pub data ConfigError : Type 0 where
  missing_option missing_value : Bytes → ConfigError
  missing_separator missing_command : ConfigError
  unknown_option : Bytes → ConfigError
  invalid_overlay_id : ConfigError
  invalid_user_name : Bytes → ConfigError
  invalid_user_id : (option value : Bytes) → ConfigError
  duplicate_user_option : Bytes → ConfigError
  conflicting_user_options incomplete_numeric_user : ConfigError
  disk_mount_requires_overlay_device : ConfigError
  invalid_path : (field path : Bytes) → ConfigError
  duplicate_mount_target : Bytes → ConfigError
  overlapping_mount_targets : (first second : Bytes) → ConfigError

-- A digit string that fits `u32` and is not the reserved value. `to_str` needs no model: a value
-- that is no UTF-8 has a byte that is no digit.
unfoldable pub read_user_id : Bytes → Option ℕ
read_user_id value =
    if not (is_empty value) && all is_ascii_digit value
    then (elim (parse_u32 value) [
      | none ↦ none
      | some id ↦ if id == u32_max then none else some id
    ])
    else none

unfoldable pub parse_user_id : Bytes → Bytes → Result ConfigError ℕ
parse_user_id option value = ok_or (read_user_id value) (ConfigError.invalid_user_id option value)

unfoldable pub is_user_byte : ℕ → Bool
is_user_byte c = is_ascii_alphanumeric c || c == b'_' || c == b'.' || c == b'-'

-- Again, a name that is no UTF-8 has a byte that is refused.
unfoldable pub valid_user_name : Bytes → Bool
valid_user_name [] = false
valid_user_name (first ∷ others) =
    if not (leb (length (first ∷ others)) 64)
    then false
    else if not (is_ascii_alphabetic first) && not (first == b'_')
    then false
    else all is_user_byte others

unfoldable pub clean_absolute : Bytes → Bool → Bool
clean_absolute path allow_root =
    if not (is_absolute path) || (not allow_root && path_eq path (ascii "/"))
    then false
    else all is_root_or_normal (components path)

unfoldable pub validate_outer_path : Bytes → Bytes → Result ConfigError (Unit {0})
validate_outer_path field path =
    guard (clean_absolute path false) (ConfigError.invalid_path field path)

unfoldable pub validate_inner_path : Bytes → Bytes → Bool → Result ConfigError (Unit {0})
validate_inner_path field path allow_root =
    guard (clean_absolute path allow_root) (ConfigError.invalid_path field path)

-- One pair of the double loop.
unfoldable pub check_pair : Bytes → Bytes → Result ConfigError (Unit {0})
check_pair target previous = do
  guard (not (path_eq target previous)) (ConfigError.duplicate_mount_target target)
  guard (not (starts_with target previous || starts_with previous target))
      (ConfigError.overlapping_mount_targets previous target)

-- The outer loop, with the slice `targets[..index]` and the targets from `index` on.
unfoldable pub validate_targets_from : List Bytes → List Bytes → Result ConfigError (Unit {0})
validate_targets_from previous [] = ok tt
validate_targets_from previous (target ∷ targets) = do
  for_each previous (check_pair target)
  validate_targets_from (previous ++ target ∷ []) targets

unfoldable pub validate_target_paths : List Bytes → Result ConfigError (Unit {0})
validate_target_paths targets = validate_targets_from [] targets

abbrev pub bind_target : Bind → Bytes
bind_target bind = bind.target

unfoldable pub validate_mount_targets :
    Bool → List Bytes → List Bind → List Bytes → Result ConfigError (Unit {0})
validate_mount_targets standard_mounts disk_mounts binds tmpfs = validate_target_paths (
    (if standard_mounts then standard_targets else [])
    ++ (disk_mounts ++ (map bind_target binds ++ tmpfs)))
