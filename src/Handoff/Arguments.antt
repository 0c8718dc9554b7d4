-- ===== src/Handoff/Arguments.antt =====
-- The arguments that campd writes for a sidecar, and sandrun's loop over them.
use sandcamp.Base.{
  ℕ, ◌≤◌, ◌≡◌, refl, ap, ◌∙◌, Bool, true, false, Option, none, some, List, [], ◌∷◌, ◌++◌, map,
  arith, if◌then◌else◌, Bytes, ascii, is_empty, ok,
}
use sandcamp.Rust.Int.{u32_max, print_u32}
use sandcamp.Campd.Spec as Spec
use sandcamp.Campd.Spec.{named, numeric, SidecarProcess}
use sandcamp.Campd.Spec.Validate.Targets.{IsValidUser, WhenSome}
use sandcamp.Campd.Launch.{
  SidecarSource, from_sidecar, overlay_arguments, disk_arguments, bind_arguments, workdir_arguments,
  user_arguments, sidecar_arguments,
}
use sandcamp.Sandrun.Config as Config
use sandcamp.Sandrun.Config.{
  ConfigError, Config, Bind, check_pair, bind_target, validate_outer_path, validate_inner_path,
  validate_targets_from, validate_target_paths, validate_mount_targets, standard_targets,
  disk_mount_requires_overlay_device,
}
use sandcamp.Sandrun.Args.{Options, no_options}
use sandcamp.Handoff.Checks.{valid_user_name_agrees}
use sandcamp.Handoff.Scan.{
  scan_all, to_bind, scan-rootfs, scan-overlay_id, scan-standard_mounts, scan-user, scan-uid,
  scan-gid, scan-separator, scan-overlay_arguments, scan-disk_arguments, scan-bind_arguments,
  scan-workdir_arguments,
}

abbrev pub name_of : Option Spec.ProcessUser → Option Bytes
name_of (some (named name)) = some name
name_of _ = none

abbrev pub uid_of : Option Spec.ProcessUser → Option ℕ
uid_of (some (numeric user)) = some user.uid
uid_of _ = none

abbrev pub gid_of : Option Spec.ProcessUser → Option ℕ
gid_of (some (numeric user)) = some user.gid
gid_of _ = none

abbrev pub to_user : Option Spec.ProcessUser → Option Config.ProcessUser
to_user none = none
to_user (some (named name)) = some (Config.named name)
to_user (some (numeric user)) = some (Config.numeric user.uid user.gid)

-- The numbers of the declaration lie in their Rust types.
abbrev pub FitsU32 : Spec.ProcessUser → Type 0
FitsU32 (named _) = Unit
FitsU32 (numeric user) = (user.uid ≤ u32_max) × (user.gid ≤ u32_max)

scan-standard :
    (o : Options) (standard : Bool) (rest : List Bytes)
    → o.standard_mounts ≡ false
    → scan_all o ((if standard then ascii "--standard-mounts" ∷ [] else []) ++ rest)
      ≡ scan_all (record o { standard_mounts = standard }) rest
scan-standard o true rest first = scan-standard_mounts o rest
scan-standard o false rest first = rw (← first)

scan-user_arguments :
    (o : Options) (user : Option Spec.ProcessUser) (rest : List Bytes)
    → WhenSome IsValidUser user
    → WhenSome FitsU32 user
    → o.user_name ≡ none
    → o.uid ≡ none
    → o.gid ≡ none
    → scan_all o (user_arguments user ++ rest)
      ≡ scan_all (record o { user_name = name_of user; uid = uid_of user; gid = gid_of user }) rest
unfolding user_arguments
scan-user_arguments o none rest v f n u g =
    ap (λ (x : Options). scan_all x rest) (λ i. record o { user_name = n i; uid = u i; gid = g i })
scan-user_arguments o (some (named name)) rest v f n u g =
    scan-user o name rest (valid_user_name_agrees name ∙ v) n
    ∙ ap (λ (x : Options). scan_all x rest)
        (λ i. record o { user_name = some name; uid = u i; gid = g i })
scan-user_arguments o (some (numeric user)) rest v f n u g =
    scan-uid o user.uid (ascii "--gid" ∷ print_u32 user.gid ∷ rest) (omega (arith, v.0, f.0)) u
    ∙ scan-gid (record o { uid = some user.uid }) user.gid rest (omega (arith, v.1, f.1)) g
    ∙ ap (λ (x : Options). scan_all x rest)
        (λ i. record o { user_name = n i; uid = some user.uid; gid = some user.gid })

-- The variables of sandrun's loop when it reaches the separator.
abbrev pub options_of : SidecarProcess → Options
options_of p = record {
  rootfs = some p.rootfs;
  overlay_device = p.overlay_device;
  overlay_id = some p.name;
  workdir = if is_empty p.workdir then ascii "/" else p.workdir;
  user_name = name_of p.user;
  uid = uid_of p.user;
  gid = gid_of p.user;
  standard_mounts = p.standard_mounts;
  disk_mounts = p.disk_mounts;
  binds = map to_bind p.binds;
  tmpfs = [];
}

-- The configuration that the declaration asks for.
abbrev pub config_of : SidecarProcess → Config
config_of p = record {
  rootfs = p.rootfs;
  overlay_device = p.overlay_device;
  overlay_id = some p.name;
  workdir = if is_empty p.workdir then ascii "/" else p.workdir;
  user = to_user p.user;
  standard_mounts = p.standard_mounts;
  disk_mounts = p.disk_mounts;
  binds = map to_bind p.binds;
  tmpfs = [];
  command = p.command;
}

abbrev pub source_of : SidecarProcess → SidecarSource
source_of p = record {
  rootfs = p.rootfs;
  overlay_device = p.overlay_device;
  standard_mounts = p.standard_mounts;
  disk_mounts = p.disk_mounts;
  binds = p.binds;
  user = p.user;
}

-- What campd hands over.
abbrev pub arguments_of : SidecarProcess → List Bytes
arguments_of p = sidecar_arguments (from_sidecar p) (source_of p)

pub scan-arguments :
    (p : SidecarProcess)
    → WhenSome IsValidUser p.user
    → WhenSome FitsU32 p.user
    → scan_all no_options (arguments_of p) ≡ ok (options_of p, some p.command)
unfolding sidecar_arguments from_sidecar
scan-arguments p v f =
    let separator = ascii "--" ∷ p.command in
    let user = user_arguments p.user ++ separator in
    let workdir = workdir_arguments p.workdir ++ user in
    let binds = bind_arguments p.binds ++ workdir in
    let disks = disk_arguments p.disk_mounts ++ binds in
    let standard = (if p.standard_mounts then ascii "--standard-mounts" ∷ [] else []) ++ disks in
    let o₁ : Options = record no_options { rootfs = some p.rootfs } in
    let o₂ : Options = record o₁ { overlay_device = p.overlay_device } in
    let o₃ : Options = record o₂ { overlay_id = some p.name } in
    let o₄ : Options = record o₃ { standard_mounts = p.standard_mounts } in
    let o₅ : Options = record o₄ { disk_mounts = p.disk_mounts } in
    let o₆ : Options = record o₅ { binds = map to_bind p.binds } in
    let o₇ : Options = record o₆ {
      workdir = if is_empty p.workdir then ascii "/" else p.workdir;
    } in
    scan-rootfs no_options p.rootfs
      (overlay_arguments p.overlay_device ++ (ascii "--overlay-id" ∷ p.name ∷ standard))
    ∙ scan-overlay_arguments o₁ p.overlay_device (ascii "--overlay-id" ∷ p.name ∷ standard) refl
    ∙ scan-overlay_id o₂ p.name standard
    ∙ scan-standard o₃ p.standard_mounts disks refl
    ∙ scan-disk_arguments o₄ p.disk_mounts binds
    ∙ scan-bind_arguments o₅ p.binds workdir
    ∙ scan-workdir_arguments o₆ p.workdir user
    ∙ scan-user_arguments o₇ p.user separator v f refl refl refl
    ∙ scan-separator (options_of p) p.command
