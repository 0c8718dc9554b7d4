-- ===== src/Handoff/Finish.antt =====
-- Sandrun's checks behind its loop, on what campd has accepted.
use sandcamp.Base.{
  ◌≡◌, ◌≢◌, refl, sym, ap, ◌∙◌, ◌⊎◌, inl, inr, Bool, true, false, not, ◌&&◌, Option, none, some,
  List, [], ◌∷◌, ◌++◌, map, arith, if◌then◌else◌, Bytes, ascii, All, is_empty, is_some, Result, ok,
  err, for_each, append-nil, any, all, bytes_eq,
}
use sandcamp.Rust.Bytes.{contains, split_on}
use sandcamp.Rust.Path.{
  path_eq, starts_with, is_prefix, is_absolute, components, same_components, component_eq,
  body_components, add_segment, is_root_or_normal,
}
use sandcamp.Rust.Path.Apart.{Separate, Separate-append}
use sandcamp.Campd.Spec as Spec
use sandcamp.Campd.Spec.{named, numeric, SidecarProcess}
use sandcamp.Campd.Spec.Text.{valid_path}
use sandcamp.Campd.Spec.Validate.{valid_executable, standard_mount_targets}
use sandcamp.Campd.Spec.Validate.Targets.{
  IsMountPath, IsValidBind, IsValidSidecar, WhenSome, target_of, standard_part,
}
use sandcamp.Campd.Spec.Validate.Lifecycle.{IsValidProcess, of_sidecar}
use sandcamp.Sandrun.Config.{
  ConfigError, check_pair, bind_target, validate_outer_path, validate_inner_path,
  validate_targets_from, validate_target_paths, validate_mount_targets,
  disk_mount_requires_overlay_device,
}
use sandcamp.Sandrun.Args.{
  select_user, when_some, validate_bind_paths, finish, with_command, parse_args,
}
use sandcamp.Sandrun.Config.Laws.{validate_targets_of_Separate, Separate-of_validated}
use sandcamp.Handoff.Checks.{outer_of_valid, inner_of_valid, overlay_id_of_name}
use sandcamp.Handoff.Scan.{to_bind}
use sandcamp.Handoff.Arguments.{
  name_of, uid_of, gid_of, to_user, FitsU32, options_of, config_of, arguments_of, scan-arguments,
}

device_passes :
    (device : Option Bytes)
    → WhenSome IsMountPath device
    → when_some device (validate_outer_path (ascii "overlay device")) ≡ ok tt
device_passes none h = refl
device_passes (some d) h = outer_of_valid (ascii "overlay device") d h

root_is_valid : valid_path (ascii "/") true ≡ true
unfolding valid_path contains any is_absolute path_eq components same_components component_eq
    split_on body_components add_segment bytes_eq is_root_or_normal all
root_is_valid = refl

root_is_clean : validate_inner_path (ascii "workdir") (ascii "/") true ≡ ok tt
root_is_clean = inner_of_valid (ascii "workdir") (ascii "/") true root_is_valid

workdir_passes :
    (workdir : Bytes)
    → (workdir ≡ []) ⊎ (valid_path workdir true ≡ true)
    → validate_inner_path (ascii "workdir") (if is_empty workdir then ascii "/" else workdir) true
      ≡ ok tt
workdir_passes [] h = root_is_clean
workdir_passes (c ∷ w) (inl e) = cc
workdir_passes (c ∷ w) (inr v) = inner_of_valid (ascii "workdir") (c ∷ w) true v

disks_pass :
    (ts : List Bytes)
    → All IsMountPath ts
    → for_each ts (λ target. validate_inner_path (ascii "disk mount target") target false) ≡ ok tt
unfolding for_each
disks_pass [] h = refl
disks_pass (t ∷ ts) h =
    rw (inner_of_valid (ascii "disk mount target") t false h.0) (disks_pass ts h.1)

binds_pass :
    (bs : List Spec.Bind)
    → All IsValidBind bs
    → for_each (map to_bind bs) validate_bind_paths ≡ ok tt
unfolding for_each validate_bind_paths
binds_pass [] h = refl
binds_pass (b ∷ bs) h =
    rw
      (
        outer_of_valid (ascii "bind source") b.source h.0.0,
        inner_of_valid (ascii "bind target") b.target false h.0.1,
      )
      (binds_pass bs h.1)

targets_of_binds : (bs : List Spec.Bind) → map bind_target (map to_bind bs) ≡ map target_of bs
targets_of_binds [] = refl
targets_of_binds (b ∷ bs) = ap (λ (ts : List Bytes). b.target ∷ ts) (targets_of_binds bs)

standard_targets_pass : validate_targets_from [] standard_mount_targets ≡ ok tt
unfolding validate_targets_from for_each check_pair path_eq starts_with is_prefix is_absolute
    components same_components component_eq split_on body_components add_segment bytes_eq
standard_targets_pass = refl

standard_part_is_Separate : (standard : Bool) → Separate [] (standard_part standard)
standard_part_is_Separate true =
    Separate-of_validated [] standard_mount_targets standard_targets_pass
standard_part_is_Separate false = tt

targets_pass :
    (p : SidecarProcess)
    → IsValidSidecar p
    → validate_mount_targets p.standard_mounts p.disk_mounts (map to_bind p.binds) [] ≡ ok tt
unfolding validate_mount_targets validate_target_paths
targets_pass p v =
    rw (targets_of_binds p.binds, append-nil)
      (validate_targets_of_Separate []
        (standard_part p.standard_mounts ++ (p.disk_mounts ++ map target_of p.binds))
        ((Separate-append [] (standard_part p.standard_mounts)
            (p.disk_mounts ++ map target_of p.binds)).1
          (standard_part_is_Separate p.standard_mounts, v.separate)))

user_selected :
    (user : Option Spec.ProcessUser)
    → select_user (name_of user) (uid_of user) (gid_of user) ≡ ok (to_user user)
unfolding select_user
user_selected none = refl
user_selected (some (named name)) = refl
user_selected (some (numeric user)) = refl

-- Sandrun binds disk mounts on the overlay device only.
abbrev pub DiskHasDevice : SidecarProcess → Type 0
DiskHasDevice p = (p.disk_mounts ≡ []) ⊎ (is_some p.overlay_device ≡ true)

disk_test :
    (p : SidecarProcess)
    → DiskHasDevice p
    → (not (is_empty p.disk_mounts) && not (is_some p.overlay_device)) ≡ false
disk_test p h = ground arith

and_false : (b : Bool) → (b && false) ≡ false
and_false b = ground arith

no_tmpfs : (f : Bytes → Result ConfigError (Unit {0})) → for_each [] f ≡ ok tt
unfolding for_each
no_tmpfs f = refl

finish_passes :
    (p : SidecarProcess) (executable : Bytes) (arguments : List Bytes)
    → p.command ≡ executable ∷ arguments
    → IsValidProcess (of_sidecar p)
    → IsValidSidecar p
    → DiskHasDevice p
    → finish (options_of p) executable arguments ≡ ok (config_of p)
unfolding finish valid_executable
finish_passes p executable arguments e d v h =
    let start = d.executable in
    let run : valid_path executable false ≡ true = rw e at start in
    rw
      (
        outer_of_valid (ascii "rootfs") p.rootfs v.rootfs,
        device_passes p.overlay_device v.overlay_device,
        overlay_id_of_name p.name d.name,
        disk_test p h,
        workdir_passes p.workdir d.workdir,
        inner_of_valid (ascii "command") executable false run,
        disks_pass p.disk_mounts v.disk_mounts,
        binds_pass p.binds v.binds,
        targets_pass p v,
        and_false (is_some p.overlay_device),
        no_tmpfs (λ target. validate_inner_path (ascii "tmpfs target") target false),
        user_selected p.user,
      )
      (ap (λ (c : List Bytes). ok (record (config_of p) { command = c })) (sym e))

executable_of :
    (command : List Bytes)
    → valid_executable command ≡ true
    → (executable : Bytes) × (arguments : List Bytes) × (command ≡ executable ∷ arguments)
unfolding valid_executable
executable_of [] h = cc
executable_of (x ∷ xs) h = (x, xs, refl)

-- What campd has accepted sandrun reads back as it was declared.
pub parse_args_of_valid :
    (p : SidecarProcess)
    → IsValidProcess (of_sidecar p)
    → IsValidSidecar p
    → WhenSome FitsU32 p.user
    → DiskHasDevice p
    → parse_args (arguments_of p) ≡ ok (config_of p)
unfolding parse_args with_command
parse_args_of_valid p d v f h =
    let (executable, arguments, e) = executable_of p.command d.executable in
    rw (scan-arguments p v.user f) (
      ap (λ (c : List Bytes). with_command (options_of p) (some c)) e
      ∙ finish_passes p executable arguments e d v h)

-- A disk mount with no device is refused.
pub parse_args_of_disk_without_device :
    (p : SidecarProcess)
    → IsValidProcess (of_sidecar p)
    → IsValidSidecar p
    → WhenSome FitsU32 p.user
    → p.disk_mounts ≢ []
    → p.overlay_device ≡ none
    → parse_args (arguments_of p) ≡ err disk_mount_requires_overlay_device
unfolding parse_args with_command finish
parse_args_of_disk_without_device p d v f disks device =
    let (executable, arguments, e) = executable_of p.command d.executable in
    let refused : (not (is_empty p.disk_mounts) && not false) ≡ true = ground arith in
    rw (scan-arguments p v.user f) (
      ap (λ (c : List Bytes). with_command (options_of p) (some c)) e
      ∙ rw (
        device,
        outer_of_valid (ascii "rootfs") p.rootfs v.rootfs,
        overlay_id_of_name p.name d.name,
        refused,
      ))
