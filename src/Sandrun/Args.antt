-- ===== src/Sandrun/Args.antt =====
-- cmd/sandrun/src/lib.rs: `parse_args`. Arguments are the bytes of an `OsString`.
pub mod Laws
pub mod Accepts
use sandcamp.Base.{
  ℕ, zero, suc, Bool, true, false, not, ◌&&◌, ◌||◌, Option, none, some, List, [], ◌∷◌, ◌++◌, leb,
  if◌then◌else◌, Bytes, ascii, bytes_eq, length, is_empty, is_some, Result, ok, err, ◌>>=◌, ◌>>◌,
  guard, ok_or, for_each,
}
use sandcamp.Sandrun.Config.{
  Bind, ProcessUser, named, numeric, Config, ConfigError, parse_user_id, valid_user_name,
  validate_outer_path, validate_inner_path, validate_mount_targets,
}

-- The variables of the loop.
pub record Options : Type 0 where
  pub rootfs : Option Bytes
  pub overlay_device : Option Bytes
  pub overlay_id : Option Bytes
  pub workdir : Bytes
  pub user_name : Option Bytes
  pub uid : Option ℕ
  pub gid : Option ℕ
  pub standard_mounts : Bool
  pub disk_mounts : List Bytes
  pub binds : List Bind
  pub tmpfs : List Bytes

abbrev pub no_options : Options
no_options = record {
  rootfs = none;
  overlay_device = none;
  overlay_id = none;
  workdir = ascii "/";
  user_name = none;
  uid = none;
  gid = none;
  standard_mounts = false;
  disk_mounts = [];
  binds = [];
  tmpfs = [];
}

-- The next argument, and those after it; the source moves `index`.
unfoldable pub path_value : Bytes → List Bytes → Result ConfigError (Bytes × List Bytes)
path_value option [] = err (ConfigError.missing_value option)
path_value option (value ∷ rest) = ok (value, rest)

unfoldable pub read_user : Options → List Bytes → Result ConfigError (Options × List Bytes)
read_user o rest = do
  v ← path_value (ascii "--user") rest
  guard (valid_user_name v.0) (ConfigError.invalid_user_name v.0)
  guard (not (is_some o.user_name)) (ConfigError.duplicate_user_option (ascii "--user"))
  ok (record o { user_name = some v.0 }, v.1)

unfoldable pub read_uid : Options → List Bytes → Result ConfigError (Options × List Bytes)
read_uid o rest = do
  v ← path_value (ascii "--uid") rest
  id ← parse_user_id (ascii "--uid") v.0
  guard (not (is_some o.uid)) (ConfigError.duplicate_user_option (ascii "--uid"))
  ok (record o { uid = some id }, v.1)

unfoldable pub read_gid : Options → List Bytes → Result ConfigError (Options × List Bytes)
read_gid o rest = do
  v ← path_value (ascii "--gid") rest
  id ← parse_user_id (ascii "--gid") v.0
  guard (not (is_some o.gid)) (ConfigError.duplicate_user_option (ascii "--gid"))
  ok (record o { gid = some id }, v.1)

unfoldable pub read_bind :
    Bytes → Bool → Options → List Bytes → Result ConfigError (Options × List Bytes)
read_bind option readonly o rest = do
  source ← path_value option rest
  target ← path_value option source.1
  ok (
    record o {
      binds = o.binds ++ record { source = source.0; target = target.0; readonly = readonly } ∷ [];
    },
    target.1,
  )

-- The `match` of the loop: the variables and the arguments after those that the option takes.
-- An argument that is no UTF-8 equals none of the options.
unfoldable pub read_option :
    Options → Bytes → List Bytes → Result ConfigError (Options × List Bytes)
read_option o argument rest =
    if bytes_eq argument (ascii "--rootfs")
    then (do v ← path_value (ascii "--rootfs") rest; ok (record o { rootfs = some v.0 }, v.1))
    else if bytes_eq argument (ascii "--overlay-device")
    then (do
      v ← path_value (ascii "--overlay-device") rest
      ok (record o { overlay_device = some v.0 }, v.1))
    else if bytes_eq argument (ascii "--overlay-id")
    then (do
      v ← path_value (ascii "--overlay-id") rest
      ok (record o { overlay_id = some v.0 }, v.1))
    else if bytes_eq argument (ascii "--workdir")
    then (do v ← path_value (ascii "--workdir") rest; ok (record o { workdir = v.0 }, v.1))
    else if bytes_eq argument (ascii "--user")
    then read_user o rest
    else if bytes_eq argument (ascii "--uid")
    then read_uid o rest
    else if bytes_eq argument (ascii "--gid")
    then read_gid o rest
    else if bytes_eq argument (ascii "--standard-mounts")
    then ok (record o { standard_mounts = true }, rest)
    else if bytes_eq argument (ascii "--disk-mount")
    then (do
      v ← path_value (ascii "--disk-mount") rest
      ok (record o { disk_mounts = o.disk_mounts ++ v.0 ∷ [] }, v.1))
    else if bytes_eq argument (ascii "--bind")
    then read_bind (ascii "--bind") false o rest
    else if bytes_eq argument (ascii "--ro-bind")
    then read_bind (ascii "--ro-bind") true o rest
    else if bytes_eq argument (ascii "--tmpfs")
    then (do
      v ← path_value (ascii "--tmpfs") rest
      ok (record o { tmpfs = o.tmpfs ++ v.0 ∷ [] }, v.1))
    else err (ConfigError.unknown_option argument)

-- The loop: the variables, and the arguments behind "--" if there is one. Each round takes at
-- least one argument, so as many rounds as arguments end the loop by its own test.
unfoldable pub scan : ℕ → Options → List Bytes → Result ConfigError (Options × Option (List Bytes))
scan zero o arguments = ok (o, none)
scan (suc rounds) o [] = ok (o, none)
scan (suc rounds) o (argument ∷ rest) =
    if bytes_eq argument (ascii "--")
    then ok (o, some rest)
    else (do next ← read_option o argument rest; scan rounds next.0 next.1)

unfoldable pub select_user :
    Option Bytes → Option ℕ → Option ℕ → Result ConfigError (Option ProcessUser)
select_user (some name) none none = ok (some (named name))
select_user (some _) _ _ = err ConfigError.conflicting_user_options
select_user none (some uid) (some gid) = ok (some (numeric uid gid))
select_user none none none = ok none
select_user none _ _ = err ConfigError.incomplete_numeric_user

abbrev pub when_some :
    {A : Type 0} → Option A → (A → Result ConfigError (Unit {0})) → Result ConfigError (Unit {0})
when_some none f = ok tt
when_some (some a) f = f a

unfoldable pub validate_overlay_id : Bytes → Result ConfigError (Unit {0})
validate_overlay_id id =
    guard (not (is_empty id || not (leb (length id) 256))) ConfigError.invalid_overlay_id

unfoldable pub validate_bind_paths : Bind → Result ConfigError (Unit {0})
validate_bind_paths bind = do
  validate_outer_path (ascii "bind source") bind.source
  validate_inner_path (ascii "bind target") bind.target false

-- The part behind the loop, at a command that is not empty.
unfoldable pub finish : Options → Bytes → List Bytes → Result ConfigError Config
finish o executable command_arguments = do
  rootfs ← ok_or o.rootfs (ConfigError.missing_option (ascii "--rootfs"))
  validate_outer_path (ascii "rootfs") rootfs
  when_some o.overlay_device (validate_outer_path (ascii "overlay device"))
  when_some o.overlay_id validate_overlay_id
  guard (not (is_some o.overlay_device && not (is_some o.overlay_id)))
      (ConfigError.missing_option (ascii "--overlay-id"))
  guard (not (not (is_empty o.disk_mounts) && not (is_some o.overlay_device)))
      ConfigError.disk_mount_requires_overlay_device
  validate_inner_path (ascii "workdir") o.workdir true
  validate_inner_path (ascii "command") executable false
  for_each o.disk_mounts (λ target. validate_inner_path (ascii "disk mount target") target false)
  for_each o.binds validate_bind_paths
  for_each o.tmpfs (λ target. validate_inner_path (ascii "tmpfs target") target false)
  validate_mount_targets o.standard_mounts o.disk_mounts o.binds o.tmpfs
  user ← select_user o.user_name o.uid o.gid
  ok (record {
    rootfs = rootfs;
    overlay_device = o.overlay_device;
    overlay_id = o.overlay_id;
    workdir = o.workdir;
    user = user;
    standard_mounts = o.standard_mounts;
    disk_mounts = o.disk_mounts;
    binds = o.binds;
    tmpfs = o.tmpfs;
    command = executable ∷ command_arguments;
  })

unfoldable pub with_command : Options → Option (List Bytes) → Result ConfigError Config
with_command o none = err ConfigError.missing_separator
with_command o (some []) = err ConfigError.missing_command
with_command o (some (executable ∷ command_arguments)) = finish o executable command_arguments

unfoldable pub parse_args : List Bytes → Result ConfigError Config
parse_args arguments = do
  scanned ← scan (length arguments) no_options arguments
  with_command scanned.0 scanned.1
