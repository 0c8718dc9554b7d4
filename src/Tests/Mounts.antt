-- ===== src/Tests/Mounts.antt =====
-- Mount targets in a root whose /run is a link.
use sandcamp.Base.{
  All, All, none, true, List, Bytes, for_each, ◌≡◌, ◌≢◌, refl, some, [], ◌∷◌, ascii, bytes_eq,
  if◌then◌else◌, ok, err,
}
use sandcamp.Rust.Bytes.{split_on}
use sandcamp.Rust.Path.{is_absolute, components, body_components, relative_components, add_segment}
use sandcamp.Sandrun.Resolve.{
  Names, Entry, plain, link, out_of_rounds, normalize_from, reverse_onto, normalize_components,
  normalize_inner_path, redirect, enter, find_link, link_target, follow, resolve_found,
  resolve_loop, resolve_target,
}
use sandcamp.Sandrun.Config.{
  Bind, Config, overlapping_mount_targets, check_pair, validate_targets_from, validate_target_paths,
}
use sandcamp.Rust.Path.{path_eq, starts_with, is_prefix, same_components, component_eq}
use sandcamp.Sandrun.Resolve.Targets.{
  targets_invalid, inner_path, resolve_inner_target, resolve_all, standard_places, etc_files,
  resolved_targets, validate_resolved_mount_targets,
}
use sandcamp.Sandrun.Resolve.Targets.Distinct.{Mountable, validate_resolved_mount_targets-Mountable}
use sandcamp.Rust.Path.Proper.{IsName}
use sandcamp.Sandrun.Resolve.Plain.{IsPlain, resolve_target-IsPlain, resolve_target_of_IsPlain}
use sandcamp.Rust.Path.Proper.{IsName}
use sandcamp.Sandrun.Resolve.Bounded.{resolve_target-Bounded}

-- /run is a relative link, and all else is plain.
abbrev image : Names → Entry
image (name ∷ []) = if bytes_eq name (ascii "run") then link (ok (ascii "./var//run")) else plain
image _ = plain

abbrev behind : Names
behind = ascii "var" ∷ ascii "run" ∷ ascii "app" ∷ []

run_resolve : Unit {0}
unfolding split_on is_absolute components body_components relative_components add_segment bytes_eq
    normalize_from reverse_onto normalize_components normalize_inner_path redirect enter find_link
    link_target follow resolve_found resolve_loop resolve_target
run_resolve = tt

link-followed : resolve_target image (ascii "/run/app") ≡ ok behind
unfolding run_resolve
link-followed = refl

resolve_target-IsPlain_example : IsPlain image [] behind × All IsName behind
resolve_target-IsPlain_example =
    resolve_target-IsPlain image (ascii "/run/app") behind link-followed

etc-normalized : normalize_inner_path (ascii "/etc/../data") ≡ some (ascii "data" ∷ [])
unfolding run_resolve
etc-normalized = refl

data-IsPlain : IsPlain image [] (ascii "data" ∷ [])
unfolding run_resolve
data-IsPlain = (refl, tt)

resolve_target_of_IsPlain_example :
    resolve_target image (ascii "/etc/../data") ≡ ok (ascii "data" ∷ [])
resolve_target_of_IsPlain_example =
    resolve_target_of_IsPlain image (ascii "/etc/../data") (ascii "data" ∷ []) etc-normalized
      data-IsPlain

-- A root whose /run is a link to itself.
abbrev looping : Names → Entry
looping names = link (ok (ascii "/run"))

resolve_target-Bounded_example : resolve_target looping (ascii "/run") ≢ err out_of_rounds
resolve_target-Bounded_example = resolve_target-Bounded looping (ascii "/run")

abbrev mounting : List Bind → Config
mounting binds = record {
  rootfs = ascii "/images/app";
  overlay_device = none;
  overlay_id = none;
  workdir = ascii "/";
  user = none;
  standard_mounts = true;
  disk_mounts = [];
  binds = binds;
  tmpfs = ascii "/cache" ∷ [];
  command = ascii "/bin/app" ∷ [];
}

abbrev bound : Bytes → Bind
bound target = record { source = ascii "/srv"; target = target; readonly = true }

run_targets : Unit {0}
unfolding run_resolve validate_resolved_mount_targets resolved_targets standard_places etc_files
    resolve_all resolve_inner_target inner_path validate_target_paths validate_targets_from
    check_pair for_each path_eq starts_with is_prefix same_components component_eq
run_targets = tt

one_bind-accepted :
    validate_resolved_mount_targets image (mounting (bound (ascii "/data") ∷ [])) ≡ ok tt
unfolding run_targets
one_bind-accepted = refl

-- A target of its own name that is where /run really is.
abbrev clash : List Bind
clash = bound (ascii "/var/run/app") ∷ []

clash-refused :
    validate_resolved_mount_targets image (mounting clash)
    ≡ err (targets_invalid (overlapping_mount_targets (ascii "/var/run") (ascii "/var/run/app")))
unfolding run_targets
clash-refused = refl

validate_resolved_mount_targets-Mountable_example :
    Mountable image (mounting (bound (ascii "/data") ∷ []))
validate_resolved_mount_targets-Mountable_example =
    validate_resolved_mount_targets-Mountable image (mounting (bound (ascii "/data") ∷ []))
      one_bind-accepted
