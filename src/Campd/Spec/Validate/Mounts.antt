-- ===== src/Campd/Spec/Validate/Mounts.antt =====
-- What `validate` accepts of a sidecar's rootfs, device, user and mount targets.
use sandcamp.Base.{
  ◌≡◌, ◌↔◌, false, ◌++◌, map, All, Result, ok, ◌>>=◌, ◌>>◌, guard, guard_iff, >>-eq-ok_iff,
  >>=-eq-ok, fold_each,
}
use sandcamp.Rust.Path.Apart.{Separate, Separate-append}
use sandcamp.Campd.Spec.{SidecarProcess, SpecError}
use sandcamp.Campd.Spec.Text.{valid_path}
use sandcamp.Campd.Spec.Validate.{
  validate_user, validate_disk_mount, validate_bind, when_some, validate_mounts,
}
use sandcamp.Campd.Spec.Validate.Targets.{
  collect_sound, collect_complete, IsMountPath, IsValidBind, target_of, standard_part,
  IsValidSidecar, validate_user_iff, when_some_iff, validate_disk_mount_iff, validate_bind_iff,
  itself, map-itself,
}

-- The two loops over the targets, one behind the other.
abbrev check_all_targets : SidecarProcess → Result SpecError (Unit {0})
check_all_targets p = do
  targets ← fold_each p.disk_mounts (standard_part p.standard_mounts) (validate_disk_mount p.name)
  all_targets ← fold_each p.binds targets (validate_bind p.name)
  ok tt

targets_sound :
    (p : SidecarProcess)
    → check_all_targets p ≡ ok tt
    → All IsMountPath p.disk_mounts
      × All IsValidBind p.binds
      × Separate (standard_part p.standard_mounts) (p.disk_mounts ++ map target_of p.binds)
targets_sound p h =
    let start = standard_part p.standard_mounts in
    let (disks, first, rest) =
      >>=-eq-ok (fold_each p.disk_mounts start (validate_disk_mount p.name))
        (λ targets. fold_each p.binds targets (validate_bind p.name) >>= λ _. ok tt) h in
    let (binds, second, _) =
      >>=-eq-ok (fold_each p.binds disks (validate_bind p.name)) (λ _. ok tt) rest in
    let (valid_disks, apart_disks, same) =
      collect_sound IsMountPath itself (validate_disk_mount p.name) (validate_disk_mount_iff p.name)
        start p.disk_mounts disks first in
    let (valid_binds, apart_binds, _) =
      collect_sound IsValidBind target_of (validate_bind p.name) (validate_bind_iff p.name) disks
        p.binds binds second in
    (
      valid_disks,
      valid_binds,
      (Separate-append start p.disk_mounts (map target_of p.binds)).1
          (rw map-itself at apart_disks, rw (same, map-itself) at apart_binds),
    )

targets_complete :
    (p : SidecarProcess)
    → All IsMountPath p.disk_mounts
    → All IsValidBind p.binds
    → Separate (standard_part p.standard_mounts) (p.disk_mounts ++ map target_of p.binds)
    → check_all_targets p ≡ ok tt
targets_complete p vd vb s =
    let start = standard_part p.standard_mounts in
    let (apart_disks, apart_binds) =
      (Separate-append start p.disk_mounts (map target_of p.binds)).0 s in
    let first =
      collect_complete IsMountPath itself (validate_disk_mount p.name)
        (validate_disk_mount_iff p.name) start p.disk_mounts vd (rw map-itself apart_disks) in
    let second =
      collect_complete IsValidBind target_of (validate_bind p.name) (validate_bind_iff p.name)
        (start ++ p.disk_mounts) p.binds vb apart_binds in
    rw (first, map-itself) (rw second)

-- `validate` accepts the mounts of exactly the sidecars that satisfy `IsValidSidecar`.
pub validate_mounts_iff : (p : SidecarProcess) → (validate_mounts p ≡ ok tt) ↔ IsValidSidecar p
unfolding validate_mounts
validate_mounts_iff p =
    let root =
      >>-eq-ok_iff (guard (valid_path p.rootfs false) (SpecError.rootfs_unclean p.name))
        (device_check >> (user_check >> check_all_targets p)) in
    let device = >>-eq-ok_iff device_check (user_check >> check_all_targets p) in
    let user = >>-eq-ok_iff user_check (check_all_targets p) in
    let device_iff =
      when_some_iff p.overlay_device
        (λ d. guard (valid_path d false) (SpecError.overlay_device_unclean p.name))
        (λ d. guard_iff (valid_path d false) (SpecError.overlay_device_unclean p.name)) in
    let user_iff = when_some_iff p.user (validate_user p.name) (validate_user_iff p.name) in
    let rootfs_iff = guard_iff (valid_path p.rootfs false) (SpecError.rootfs_unclean p.name) in
    (
      λ h.
          let (a, h') = root.0 h in
          let (b, h'') = device.0 h' in
          let (c, d) = user.0 h'' in
          let (disks, binds, separate) = targets_sound p d in
          record {
            rootfs = rootfs_iff.0 a;
            overlay_device = device_iff.0 b;
            user = user_iff.0 c;
            disk_mounts = disks;
            binds = binds;
            separate = separate;
          },
      λ v. root.1 (
        rootfs_iff.1 v.rootfs,
        device.1 (
          device_iff.1 v.overlay_device,
          user.1 (user_iff.1 v.user, targets_complete p v.disk_mounts v.binds v.separate),
        ),
      ),
    )
  where
    device_check : Result SpecError (Unit {0})
    device_check =
        when_some p.overlay_device
          λ d. guard (valid_path d false) (SpecError.overlay_device_unclean p.name)

    user_check : Result SpecError (Unit {0})
    user_check = when_some p.user (validate_user p.name)
