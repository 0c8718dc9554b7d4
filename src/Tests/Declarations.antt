-- ===== src/Tests/Declarations.antt =====
-- A declaration as campd gets it, and what becomes of it.
use sandcamp.Base.{
  All, Bytes, List, Option, Result, [], all, any, arith, ascii, bytes_eq, err, false, fold_each,
  for_each, here, if◌then◌else◌, inr, map, none, ok, refl, some, true, ◌++◌, ◌↔◌, ◌∷◌, ◌≡◌, ◌≢◌,
}
use sandcamp.Campd.Launch.{
  Command, LaunchProcess, bind_arguments, bind_option, build_command, child_env, disk_arguments,
  flatten, from_main, from_mains, from_sidecar, main, main_user, overlay_arguments, set_vars,
  sidecar_arguments, start_command, user_arguments, workdir_arguments,
}
use sandcamp.Campd.Launch.Environment.{build_command-env, intended}
use sandcamp.Campd.Launch.Order.{flatten-order, launch_key, main_key, sidecar_key}
use sandcamp.Campd.Launch.Total.{Launchable, flatten-Launchable}
use sandcamp.Campd.Passwd.{
  Resolved, asked_name, names_user, parse_main_passwd, parse_main_passwd_id, read_fields, read_line,
  read_lines, resolve_main_users, resolve_name, resolve_names, resolved_user, skips_line,
}
use sandcamp.Campd.Passwd.Unique.{IsOnly, parse_main_passwd_iff}
use sandcamp.Campd.Probe.{new_probe}
use sandcamp.Campd.Probe.History.{History, observe_all, observe_all-summary, summary}
use sandcamp.Campd.Spec.{
  MainProcess, NumericUser, Probe, SidecarProcess, Spec, named, numeric, run_to_completion, service,
}
use sandcamp.Campd.Spec.Text.{
  is_environment_byte, is_name_byte, origin_form_from, valid_environment_name,
  valid_http_origin_form, valid_name, valid_path, valid_user_name,
}
use sandcamp.Campd.Spec.Text.Laws.{
  IsCleanPath, OriginForm, valid_http_origin_form_iff, valid_path_iff,
}
use sandcamp.Campd.Spec.Validate.{
  add_startup_budget, check_target, decode, spec_environment, valid_executable, validate,
  validate_bind, validate_common, validate_disk_mount, validate_environment, validate_lifecycle,
  validate_main, validate_mounts, validate_probe, validate_sidecar, validate_user,
}
use sandcamp.Campd.Spec.Validate.Accepts.{IsValid, validate_iff}
use sandcamp.Campd.Spec.Validate.Decode.{Encodes, decode_iff}
use sandcamp.Handoff.Accepts.{handoff, handoff_refused}
use sandcamp.Handoff.Arguments.{arguments_of, config_of}
use sandcamp.Rust.Bytes.{
  contains, is_ascii_alphabetic, is_ascii_alphanumeric, is_ascii_digit, is_ascii_hexdigit, lines,
  split_on,
}
use sandcamp.Rust.Int.{parse_u32, print_u32}
use sandcamp.Rust.Path.{
  add_segment, body_components, component_eq, components, is_absolute, is_prefix, is_root_or_normal,
  path_eq, relative_components, same_components, starts_with,
}
use sandcamp.Sandrun.Passwd.{parse_passwd}
use sandcamp.Sandrun.Passwd.Agrees.{Same, parse_passwd-Same}
use sandcamp.Sandrun.Args.{
  finish, parse_args, path_value, read_bind, read_gid, read_option, read_uid, read_user, scan,
  select_user, validate_bind_paths, validate_overlay_id, with_command,
}
use sandcamp.Sandrun.Args.Accepts.{IsConfig, parse_args-IsConfig}
use sandcamp.Sandrun.Config.{
  check_pair, clean_absolute, disk_mount_requires_overlay_device, is_user_byte, parse_user_id,
  read_user_id, validate_inner_path, validate_mount_targets, validate_outer_path,
  validate_target_paths, validate_targets_from,
}

abbrev probe : Probe
probe = record {
  path = ascii "/health?full=%31";
  port = 8080;
  startup_timeout_ms = 5000;
  period_ms = 500;
  timeout_ms = 300;
  failure_threshold = 3;
  success_threshold = 1;
}

abbrev proxy : SidecarProcess
proxy = record {
  name = ascii "proxy";
  kind = service;
  rootfs = ascii "/images/proxy";
  overlay_device = some (ascii "/dev/vdb");
  standard_mounts = true;
  disk_mounts = ascii "/data" ∷ [];
  binds = record { source = ascii "/srv/certs"; target = ascii "/certs"; readonly = true } ∷ [];
  command = ascii "/usr/bin/proxy" ∷ ascii "--port" ∷ ascii "80" ∷ [];
  env = (ascii "MODE", ascii "test") ∷ [];
  workdir = ascii "/";
  user = some (numeric (record { uid = 1000; gid = 1001 }));
  readiness_probe = some probe;
  completion_timeout_ms = none;
}

-- The same with disk mounts and no device for them.
abbrev no_device : SidecarProcess
no_device = record proxy { overlay_device = none }

abbrev seed : MainProcess
seed = record {
  name = ascii "seed";
  kind = run_to_completion;
  command = ascii "/bin/seed" ∷ ascii "now" ∷ [];
  env = [];
  workdir = [];
  user = some (named (ascii "app"));
  readiness_probe = none;
  completion_timeout_ms = some 2000;
}

abbrev spec_of : SidecarProcess → Spec
spec_of p = record { version = 3; sidecars = p ∷ []; main = seed ∷ [] }

run_validate : Unit {0}
unfolding add_startup_budget validate_probe validate_user validate_environment validate_lifecycle
    valid_executable validate_common check_target validate_disk_mount validate_bind validate_mounts
    validate_sidecar validate_main validate origin_form_from valid_http_origin_form is_name_byte
    valid_name valid_user_name is_environment_byte valid_environment_name valid_path add_segment
    body_components relative_components is_absolute components component_eq is_prefix
    same_components path_eq starts_with is_root_or_normal is_ascii_digit is_ascii_alphabetic
    is_ascii_alphanumeric is_ascii_hexdigit contains split_on bytes_eq all any for_each fold_each
run_validate = tt

proxy-accepted : validate (spec_of proxy) ≡ ok tt
unfolding run_validate
proxy-accepted = refl

no_device-accepted : validate (spec_of no_device) ≡ ok tt
unfolding run_validate
no_device-accepted = refl

validate_iff_example : (validate (spec_of proxy) ≡ ok tt) ↔ IsValid (spec_of proxy)
validate_iff_example = validate_iff (spec_of proxy)

abbrev sandrun : Bytes
sandrun = ascii "/usr/bin/sandrun"

handoff_example :
    (c : Command) × (build_command sandrun (from_sidecar proxy) ≡ ok c)
    × (c.program ≡ sandrun)
    × (parse_args c.args ≡ ok (config_of proxy))
handoff_example =
    handoff (spec_of proxy) proxy sandrun proxy-accepted here (omega arith, omega arith) (inr refl)

has_disks : no_device.disk_mounts ≢ []
has_disks e = cc

handoff_refused_example :
    (c : Command) × (build_command sandrun (from_sidecar no_device) ≡ ok c)
    × (parse_args c.args ≡ err disk_mount_requires_overlay_device)
handoff_refused_example =
    handoff_refused (spec_of no_device) no_device sandrun no_device-accepted here
      (omega arith, omega arith) has_disks refl

-- Two decoders that know one text.
abbrev known_base64 : Bytes → Result Bytes Bytes
known_base64 value = if bytes_eq value (ascii "e30=") then ok (ascii "{}") else err []

abbrev known_json : Bytes → Result Bytes Spec
known_json value = if bytes_eq value (ascii "{}") then ok (spec_of proxy) else err []

decode_iff_example :
    (decode known_base64 known_json (ascii "e30=") ≡ ok (spec_of proxy))
    ↔ Encodes known_base64 known_json (ascii "e30=") (spec_of proxy)
decode_iff_example = decode_iff known_base64 known_json (ascii "e30=") (spec_of proxy)

known-decodes : decode known_base64 known_json (ascii "e30=") ≡ ok (spec_of proxy)
unfolding decode add_startup_budget validate_probe validate_user validate_environment
    validate_lifecycle valid_executable validate_common check_target validate_disk_mount
    validate_bind validate_mounts validate_sidecar validate_main validate origin_form_from
    valid_http_origin_form is_name_byte valid_name valid_user_name is_environment_byte
    valid_environment_name valid_path add_segment body_components relative_components is_absolute
    components component_eq is_prefix same_components path_eq starts_with is_root_or_normal
    is_ascii_digit is_ascii_alphabetic is_ascii_alphanumeric is_ascii_hexdigit contains split_on
    bytes_eq all any for_each fold_each
known-decodes = refl

abbrev passwd : Bytes
passwd =
    ascii "#app:x:1:1::/:/bin/sh\napp:x:1000:1001:App:/home/app:/bin/sh\nroot:x:0:0::/:/bin/sh\n"

abbrev app : NumericUser
app = record { uid = 1000; gid = 1001 }

abbrev resolved : Resolved
resolved = (ascii "app", app) ∷ []

seed-resolved : resolve_main_users (ok passwd) (seed ∷ []) ≡ ok resolved
unfolding parse_main_passwd_id skips_line names_user read_fields read_line read_lines
    parse_main_passwd resolved_user asked_name resolve_name resolve_names resolve_main_users lines
    split_on parse_u32 is_ascii_digit all any bytes_eq
seed-resolved = refl

parse_main_passwd_iff_example :
    (parse_main_passwd passwd (ascii "app") ≡ ok app) ↔ IsOnly (ascii "app") (lines passwd) app
parse_main_passwd_iff_example = parse_main_passwd_iff passwd (ascii "app") app

parse_passwd-Same_example :
    Same (parse_passwd passwd (ascii "app")) (parse_main_passwd passwd (ascii "app"))
parse_passwd-Same_example = parse_passwd-Same passwd (ascii "app")

flatten-Launchable_example :
    (ps : List LaunchProcess) × (flatten (ok passwd) (spec_of proxy) ≡ ok ps)
    × All (Launchable sandrun) ps
flatten-Launchable_example =
    flatten-Launchable sandrun (ok passwd) (spec_of proxy) resolved proxy-accepted seed-resolved

abbrev seed_launch : LaunchProcess
seed_launch = record {
  name = seed.name;
  kind = seed.kind;
  command = seed.command;
  env = seed.env;
  workdir = seed.workdir;
  readiness_probe = seed.readiness_probe;
  completion_timeout_ms = seed.completion_timeout_ms;
  source = main (some app);
}

proxy-flattened : flatten (ok passwd) (spec_of proxy) ≡ ok (from_sidecar proxy ∷ seed_launch ∷ [])
unfolding flatten from_mains from_main main_user parse_main_passwd_id skips_line names_user
    read_fields read_line read_lines parse_main_passwd resolved_user asked_name resolve_name
    resolve_names resolve_main_users lines split_on parse_u32 is_ascii_digit all any bytes_eq
proxy-flattened = refl

flatten-order_example :
    map launch_key (from_sidecar proxy ∷ seed_launch ∷ [])
    ≡ map sidecar_key (proxy ∷ []) ++ map main_key (seed ∷ [])
flatten-order_example =
    flatten-order (ok passwd) (spec_of proxy) (from_sidecar proxy ∷ seed_launch ∷ [])
      proxy-flattened

abbrev proxy_command : Command
proxy_command = record {
  program = sandrun;
  args = arguments_of proxy;
  current_dir = none;
  env_cleared = true;
  vars = (spec_environment, none) ∷ (ascii "MODE", some (ascii "test")) ∷ [];
}

proxy-built : build_command sandrun (from_sidecar proxy) ≡ ok proxy_command
unfolding build_command start_command from_sidecar set_vars
proxy-built = refl

-- Campd itself has every variable set.
abbrev everything : Bytes → Option Bytes
everything key = some key

build_command-env_example :
    child_env proxy_command everything (ascii "MODE")
    ≡ intended (from_sidecar proxy) everything (ascii "MODE")
build_command-env_example =
    build_command-env sandrun (from_sidecar proxy) proxy_command everything (ascii "MODE")
      proxy-built

proxy-intended : intended (from_sidecar proxy) everything (ascii "MODE") ≡ some (ascii "test")
unfolding from_sidecar bytes_eq
proxy-intended = refl

proxy-parsed : parse_args (arguments_of proxy) ≡ ok (config_of proxy)
unfolding read_user_id parse_user_id is_user_byte clean_absolute validate_outer_path
    validate_inner_path check_pair validate_targets_from validate_target_paths
    validate_mount_targets path_value read_user read_uid read_gid read_bind read_option scan
    select_user validate_overlay_id validate_bind_paths finish with_command parse_args add_segment
    body_components relative_components is_absolute components component_eq is_prefix
    same_components path_eq starts_with is_root_or_normal is_ascii_digit is_ascii_alphabetic
    is_ascii_alphanumeric is_ascii_hexdigit contains split_on parse_u32 print_u32 bytes_eq all any
    for_each fold_each overlay_arguments disk_arguments bind_option bind_arguments workdir_arguments
    user_arguments sidecar_arguments from_sidecar
proxy-parsed = refl

parse_args-IsConfig_example : IsConfig (config_of proxy)
parse_args-IsConfig_example =
    parse_args-IsConfig (arguments_of proxy) (config_of proxy) proxy-parsed

valid_path_iff_example :
    (valid_path (ascii "//srv/./data") false ≡ true)
    ↔ ((contains 0 (ascii "//srv/./data") ≡ false) × IsCleanPath (ascii "//srv/./data") false)
valid_path_iff_example = valid_path_iff (ascii "//srv/./data") false

valid_http_origin_form_iff_example :
    (valid_http_origin_form (ascii "/health?full=%31") ≡ true)
    ↔ ((is_absolute (ascii "/health?full=%31") ≡ true) × OriginForm (ascii "/health?full=%31"))
valid_http_origin_form_iff_example = valid_http_origin_form_iff (ascii "/health?full=%31")

-- Two successes behind a failure, at a threshold of 1.
abbrev history : History
history = true ∷ true ∷ false ∷ []

observe_all-summary_example : observe_all (new_probe probe) history ≡ summary probe history
observe_all-summary_example = observe_all-summary probe history (omega arith) (omega arith)
