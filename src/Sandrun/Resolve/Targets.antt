-- ===== src/Sandrun/Resolve/Targets.antt =====
-- cmd/sandrun/src/linux.rs: `validate_resolved_mount_targets`, the mount targets where they really are.
pub mod Distinct
use sandcamp.Base.{
  ℕ, Bool, true, false, List, [], ◌∷◌, ◌++◌, map, if◌then◌else◌, Bytes, ascii, Result, ok, err,
  ◌>>=◌, map_err,
}
use sandcamp.Rust.Bytes.{join_with}
use sandcamp.Sandrun.Config.{Config, ConfigError, bind_target, validate_target_paths}
use sandcamp.Sandrun.Resolve.{Names, Entry, ResolveError, resolve_target}

pub data TargetError : Type 0 where
  unresolved : ResolveError → TargetError
  target_is_root : Bytes → TargetError
  targets_invalid : ConfigError → TargetError

-- `Path::new("/").join(relative)`
abbrev pub inner_text : Names → Bytes
inner_text names = b'/' ∷ join_with b'/' names

unfoldable pub inner_path : Names → Bytes → Result TargetError Bytes
inner_path [] original = err (target_is_root original)
inner_path (name ∷ names) original = ok (inner_text (name ∷ names))

abbrev pub directories : List Bytes
directories = ascii "/proc" ∷ ascii "/dev" ∷ ascii "/sys" ∷ ascii "/tmp" ∷ ascii "/run" ∷ []

module _ (entry : Names → Entry) where
  unfoldable pub resolve_inner_target : Bytes → Result TargetError Bytes
  resolve_inner_target target = do
    names ← map_err unresolved (resolve_target entry target)
    inner_path names target

  unfoldable pub resolve_all : List Bytes → Result TargetError (List Bytes)
  resolve_all [] = ok []
  resolve_all (target ∷ rest) = do
    first ← resolve_inner_target target
    others ← resolve_all rest
    ok (first ∷ others)

  -- The files in /etc need not exist: they are put where /etc is.
  unfoldable pub etc_files : Result TargetError (List Bytes)
  etc_files = do
    etc ← map_err unresolved (resolve_target entry (ascii "/etc"))
    directory ← inner_path etc (ascii "/etc")
    resolv_conf ← inner_path (etc ++ ascii "resolv.conf" ∷ []) (ascii "/etc/resolv.conf")
    hosts ← inner_path (etc ++ ascii "hosts" ∷ []) (ascii "/etc/hosts")
    ok (resolv_conf ∷ hosts ∷ [])

  unfoldable pub standard_places : Bool → Result TargetError (List Bytes)
  standard_places false = ok []
  standard_places true = do
    places ← resolve_all directories
    files ← etc_files
    ok (places ++ files)

  unfoldable pub resolved_targets : Config → Result TargetError (List Bytes)
  resolved_targets config = do
    standard ← standard_places config.standard_mounts
    disks ← resolve_all config.disk_mounts
    binds ← resolve_all (map bind_target config.binds)
    tmpfs ← resolve_all config.tmpfs
    ok (standard ++ (disks ++ (binds ++ tmpfs)))

  unfoldable pub validate_resolved_mount_targets : Config → Result TargetError (Unit {0})
  validate_resolved_mount_targets config = do
    targets ← resolved_targets config
    map_err targets_invalid (validate_target_paths targets)
