-- ===== src/Campd/Launch.antt =====
-- cmd/campd/src/runtime.rs: from the declaration to the commands that campd starts.
pub mod Environment
pub mod Order
pub mod Total
pub mod Users
use sandcamp.Base.{
  ℕ, Bool, true, false, not, Option, none, some, List, [], ◌∷◌, ◌++◌, map, if◌then◌else◌, Bytes,
  ascii, bytes_eq, is_empty, Result, ok, err, ◌>>=◌, ok_or,
}
use sandcamp.Rust.Int.{print_u32}
use sandcamp.Campd.Spec.{
  ProcessKind, NumericUser, ProcessUser, named, numeric, Bind, Probe, Env, SidecarProcess,
  MainProcess, Spec,
}
use sandcamp.Campd.Spec.Validate.{spec_environment}
use sandcamp.Campd.Passwd.{RuntimeError, panicked, Resolved, resolved_user, resolve_main_users}

pub record SidecarSource : Type 0 where
  pub rootfs : Bytes
  pub overlay_device : Option Bytes
  pub standard_mounts : Bool
  pub disk_mounts : List Bytes
  pub binds : List Bind
  pub user : Option ProcessUser

pub data ProcessSource : Type 0 where
  main : Option NumericUser → ProcessSource
  sidecar : SidecarSource → ProcessSource

pub record LaunchProcess : Type 0 where
  pub name : Bytes
  pub kind : ProcessKind
  pub command : List Bytes
  pub env : Env
  pub workdir : Bytes
  pub readiness_probe : Option Probe
  pub completion_timeout_ms : Option ℕ
  pub source : ProcessSource

unfoldable pub from_sidecar : SidecarProcess → LaunchProcess
from_sidecar p = record {
  name = p.name;
  kind = p.kind;
  command = p.command;
  env = p.env;
  workdir = p.workdir;
  readiness_probe = p.readiness_probe;
  completion_timeout_ms = p.completion_timeout_ms;
  source = sidecar (record {
    rootfs = p.rootfs;
    overlay_device = p.overlay_device;
    standard_mounts = p.standard_mounts;
    disk_mounts = p.disk_mounts;
    binds = p.binds;
    user = p.user;
  });
}

-- `expect("all named main users are resolved before launch")`
unfoldable pub main_user : Resolved → Option ProcessUser → Result RuntimeError (Option NumericUser)
main_user resolved none = ok none
main_user resolved (some (numeric user)) = ok (some user)
main_user resolved (some (named name)) = do
  user ← ok_or (resolved_user name resolved) panicked
  ok (some user)

unfoldable pub from_main : Resolved → MainProcess → Result RuntimeError LaunchProcess
from_main resolved p = do
  user ← main_user resolved p.user
  ok (record {
    name = p.name;
    kind = p.kind;
    command = p.command;
    env = p.env;
    workdir = p.workdir;
    readiness_probe = p.readiness_probe;
    completion_timeout_ms = p.completion_timeout_ms;
    source = main user;
  })

unfoldable pub from_mains : Resolved → List MainProcess → Result RuntimeError (List LaunchProcess)
from_mains resolved [] = ok []
from_mains resolved (p ∷ ps) = do
  launch ← from_main resolved p
  rest ← from_mains resolved ps
  ok (launch ∷ rest)

unfoldable pub flatten : Result RuntimeError Bytes → Spec → Result RuntimeError (List LaunchProcess)
flatten read spec = do
  main_users ← resolve_main_users read spec.main
  mains ← from_mains main_users spec.main
  ok (map from_sidecar spec.sidecars ++ mains)

-- `std::process::Command`: what the builder has been told. A variable that is set holds `some`, a
-- variable that is removed holds `none`; the newest entry comes first.
pub record Command : Type 0 where
  pub program : Bytes
  pub args : List Bytes
  pub current_dir : Option Bytes
  pub env_cleared : Bool
  pub vars : List (Bytes × Option Bytes)

unfoldable pub find_var : Bytes → List (Bytes × Option Bytes) → Option (Option Bytes)
find_var key [] = none
find_var key ((k, v) ∷ rest) = if bytes_eq k key then some v else find_var key rest

-- The environment of the child, over the one that campd itself has.
unfoldable pub child_env : Command → (Bytes → Option Bytes) → Bytes → Option Bytes
child_env c inherited key = elim (find_var key c.vars) [
  | some v ↦ v
  | none ↦ if c.env_cleared then none else inherited key
]

-- `command.envs(env)`
unfoldable pub set_vars : Env → List (Bytes × Option Bytes) → List (Bytes × Option Bytes)
set_vars [] vars = vars
set_vars ((k, v) ∷ rest) vars = set_vars rest ((k, some v) ∷ vars)

unfoldable pub overlay_arguments : Option Bytes → List Bytes
overlay_arguments none = []
overlay_arguments (some device) = ascii "--overlay-device" ∷ device ∷ []

unfoldable pub disk_arguments : List Bytes → List Bytes
disk_arguments [] = []
disk_arguments (target ∷ rest) = ascii "--disk-mount" ∷ target ∷ disk_arguments rest

unfoldable pub bind_option : Bool → Bytes
bind_option readonly = if readonly then ascii "--ro-bind" else ascii "--bind"

unfoldable pub bind_arguments : List Bind → List Bytes
bind_arguments [] = []
bind_arguments (bind ∷ rest) =
    bind_option bind.readonly ∷ bind.source ∷ bind.target ∷ bind_arguments rest

unfoldable pub workdir_arguments : Bytes → List Bytes
workdir_arguments workdir = if not (is_empty workdir) then ascii "--workdir" ∷ workdir ∷ [] else []

unfoldable pub user_arguments : Option ProcessUser → List Bytes
user_arguments none = []
user_arguments (some (named name)) = ascii "--user" ∷ name ∷ []
user_arguments (some (numeric user)) =
    ascii "--uid" ∷ print_u32 user.uid ∷ ascii "--gid" ∷ print_u32 user.gid ∷ []

-- The arguments that a sidecar's command hands to sandrun, in the order of the calls.
unfoldable pub sidecar_arguments : LaunchProcess → SidecarSource → List Bytes
sidecar_arguments p s =
    ascii "--rootfs"
    ∷ s.rootfs
    ∷ (overlay_arguments s.overlay_device
        ++ (ascii "--overlay-id"
            ∷ p.name
            ∷ ((if s.standard_mounts then ascii "--standard-mounts" ∷ [] else [])
                ++ (disk_arguments s.disk_mounts
                    ++ (bind_arguments s.binds
                        ++ (workdir_arguments p.workdir
                            ++ (user_arguments s.user ++ (ascii "--" ∷ p.command))))))))

abbrev pub start_main : LaunchProcess → List Bytes → Result RuntimeError Command
start_main p [] = err panicked
start_main p (executable ∷ arguments) = ok (record {
  program = executable;
  args = arguments;
  current_dir = if not (is_empty p.workdir) then some p.workdir else none;
  env_cleared = false;
  vars = [];
})

-- The `match` on the source; `command[0]` panics on an empty command.
unfoldable pub start_command : Bytes → LaunchProcess → ProcessSource → Result RuntimeError Command
start_command sandrun p (main _) = start_main p p.command
start_command sandrun p (sidecar s) = ok (record {
  program = sandrun;
  args = sidecar_arguments p s;
  current_dir = none;
  env_cleared = true;
  vars = [];
})

-- The standard streams are not modelled.
unfoldable pub build_command : Bytes → LaunchProcess → Result RuntimeError Command
build_command sandrun p = do
  c ← start_command sandrun p p.source
  ok (record c { vars = (spec_environment, none) ∷ set_vars p.env c.vars })
