-- ===== src/Tests/Sandbox.antt =====
-- Runs of the sandbox on the small host.
use sandcamp.Base.{
  ◌≡◌, refl, true, false, Option, none, some, List, [], ◌∷◌, ◌++◌, Bytes, ascii, bytes_eq, any, all,
  ok, for_each,
}
use sandcamp.Base.Steps.{continue, each, collect_each}
use sandcamp.Rust.Bytes.{split_on, contains, lines, is_ascii_digit}
use sandcamp.Rust.Utf8.{is_utf8, utf8_from, utf8_lead}
use sandcamp.Rust.Int.{parse_u32, parse_digits}
use sandcamp.Sandrun.Passwd.{
  parse_passwd, passwd_lines, passwd_line, read_entry, parse_passwd_id, is_skipped, is_of_user,
}
use sandcamp.Rust.Path.{
  add_segment, body_components, relative_components, is_absolute, components, component_eq,
  is_prefix, same_components, path_eq, starts_with, ends_open, join, path_from, split_last, parent,
  file_name,
}
use sandcamp.Sandrun.Config.{
  Config, named, numeric, check_pair, validate_targets_from, validate_target_paths,
}
use sandcamp.Sandrun.Resolve.{
  normalize_from, reverse_onto, normalize_components, normalize_inner_path, redirect, enter,
  find_link, link_target, follow, resolve_found, resolve_loop, resolve_target,
}
use sandcamp.Sandrun.Resolve.Targets.{
  inner_path, resolve_inner_target, resolve_all, etc_files, standard_places, resolved_targets,
  validate_resolved_mount_targets,
}
use sandcamp.Sandrun.Sandbox.{
  Effect, make_directory, set_mode, unshare, mount, perform, c_string, c_string_if, place, attempt,
  inspect, mount_raw,
}
use sandcamp.Sandrun.Sandbox.Encoding.{escape_path, overlay_options}
use sandcamp.Sandrun.Sandbox.Identity.{resolve_user, select_identity, perform_if, apply_identity}
use sandcamp.Sandrun.Sandbox.Places.{
  entry_of, has_execute, entry_at, resolve_below, prepare_rootfs, resolve_directory,
  prepare_workdir, prepare_executable,
}
use sandcamp.Sandrun.Sandbox.Overlay.{
  ensure_private_directory, workspace_made, workspace_from, create_overlay_workspace, created,
  adopt, ensure_overlay_upper_directory, ensure_overlay_directories, fresh_overlay_paths,
  overlay_paths, mount_overlay_rootfs, prepare_overlay_base,
}
use sandcamp.Sandrun.Sandbox.Binds.{
  directory_made, create_directory, parent_linked, parent_created, parent_present, parent_found,
  walk_target, ensure_bind_target_directory, target_created, create_target, target_found,
  ensure_bind_target, prepare_bind_targets, prepare_bind_with_recursion, prepare_disk_binds,
}
use sandcamp.Sandrun.Sandbox.Binds.Sources.{
  source_created, source_linked, source_found, walk_source, ensure_bind_source_directory,
  source_resolved, prepare_bind_sources,
}
use sandcamp.Sandrun.Sandbox.Mounts.{
  standard_operations, bind_operation, tmpfs_operation, prepare_mounts, remount_if, apply_mount,
}
use sandcamp.Sandrun.Sandbox.Launch.{
  private_root, unshare_mount_namespace, make_mounts_private, change_directory, enter_rootfs,
  validate_targets, prepare_cgroup_target, identify, exec_command, disk_binds, furnish, run,
}
use sandcamp.Sandrun.Sandbox.Protocol.{executed}
use sandcamp.Sandrun.Sandbox.Protocol.Moves.{Arrives}
use sandcamp.Sandrun.Sandbox.Protocol.Whole.{run-Arrives}
use sandcamp.Sandrun.Sandbox.Protocol.Traces.{Confined, begun, effects_of, run-Confined}
use sandcamp.Sandrun.Sandbox.Protocol.Started.{Started}
use sandcamp.Tests.Host.{host, Host, new_host}

-- A digest is not looked at here.
abbrev no_digest : Bytes → Bytes
no_digest text = text

abbrev container : Option Bytes → Bytes → Config
container device source = record {
  rootfs = ascii "/images/app";
  overlay_device = device;
  overlay_id = none;
  workdir = ascii "/";
  user = some (numeric 1000 100);
  standard_mounts = false;
  disk_mounts = [];
  binds = record { source = source; target = ascii "/data"; readonly = true } ∷ [];
  tmpfs = [];
  command = ascii "/bin/app" ∷ [];
}

unfoldable pub run_sandbox : Unit {0}
unfolding split_on contains any bytes_eq for_each is_absolute components body_components
    relative_components add_segment same_components component_eq path_eq starts_with is_prefix
    ends_open join path_from split_last parent file_name normalize_from reverse_onto
    normalize_components normalize_inner_path redirect enter find_link link_target follow
    resolve_found resolve_loop resolve_target validate_resolved_mount_targets resolved_targets
    standard_places etc_files resolve_all resolve_inner_target inner_path validate_target_paths
    validate_targets_from check_pair continue each collect_each c_string c_string_if place attempt
    perform inspect mount_raw entry_of has_execute entry_at resolve_below prepare_rootfs
    resolve_directory prepare_workdir prepare_executable select_identity perform_if apply_identity
    ensure_private_directory workspace_made workspace_from create_overlay_workspace created adopt
    ensure_overlay_upper_directory ensure_overlay_directories fresh_overlay_paths overlay_paths
    mount_overlay_rootfs prepare_overlay_base escape_path overlay_options directory_made
    create_directory source_created source_linked source_found walk_source
    ensure_bind_source_directory source_resolved prepare_bind_sources parent_linked parent_created
    parent_present parent_found walk_target ensure_bind_target_directory target_created
    create_target target_found ensure_bind_target prepare_bind_targets prepare_bind_with_recursion
    prepare_disk_binds standard_operations bind_operation tmpfs_operation prepare_mounts remount_if
    apply_mount unshare_mount_namespace make_mounts_private change_directory enter_rootfs
    validate_targets prepare_cgroup_target identify exec_command disk_binds furnish run
run_sandbox = tt

run-Arrives_example :
    Arrives host
      (container none (ascii "/srv/data"))
      (λ _. executed)
      (λ _. Unit {0})
      (run host no_digest (container none (ascii "/srv/data")) (begun new_host))
run-Arrives_example = run-Arrives host (container none (ascii "/srv/data")) no_digest new_host

started : (run host no_digest (container none (ascii "/srv/data")) (begun new_host)).0 ≡ ok tt
unfolding run_sandbox
started = refl

-- The user has a name, which the passwd file of the image knows.
abbrev named_container : Config
named_container = record (container none (ascii "/srv/data")) { user = some (named (ascii "app")) }

abbrev with_passwd : Host
with_passwd = record new_host {
  paths = ascii "/images/app/etc" ∷ ascii "/images/app/etc/passwd" ∷ new_host.paths;
  file = ascii "/images/app/etc/passwd";
}

run_named : Unit {0}
unfolding run_sandbox resolve_user parse_passwd passwd_lines passwd_line read_entry parse_passwd_id
    is_skipped is_of_user lines is_utf8 utf8_from utf8_lead parse_u32 parse_digits is_ascii_digit
    all
run_named = tt

-- The source of the bind is made, and the device is missing.
abbrev before_private : List Effect
before_private = unshare ∷ set_mode (ascii "/new") 511 ∷ make_directory (ascii "/new") 511 ∷ []

device_missing :
    effects_of
      (run host no_digest (container (some (ascii "/dev/disk")) (ascii "/new")) (begun new_host))
    ≡ [] ++ mount private_root ∷ before_private
unfolding run_sandbox
device_missing = refl

run-Confined_example : Confined private_root before_private
run-Confined_example =
    run-Confined host (container (some (ascii "/dev/disk")) (ascii "/new")) no_digest new_host []
      before_private private_root device_missing
