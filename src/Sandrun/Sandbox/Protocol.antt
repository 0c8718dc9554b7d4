-- ===== src/Sandrun/Sandbox/Protocol.antt =====
-- The order in which the effects of `run` (cmd/sandrun/src/linux.rs) may come, as a step relation,
-- and the acts that keep to it.
pub mod Looks
pub mod Fill
pub mod Overlays
pub mod Whole
pub mod Users
pub mod Traces
pub mod Moves
pub mod Mounting
pub mod Started
use sandcamp.Base.{
  ℕ, ◌+◌, ◌≡◌, ◌⊎◌, refl, Bool, true, false, Option, none, some, List, [], ◌∷◌, ◌++◌, ◌==◌, not,
  if◌then◌else◌, Bytes, ascii, Result, ok, err, map_err, guard, All, In, here, there,
}
use sandcamp.Base.Steps.{Step, lift, pure, fail, ◌>>=◌, ◌>>◌, each, collect_each, continue}
use sandcamp.Sandrun.Config.{Config, ProcessUser, named, numeric}
use sandcamp.Sandrun.Resolve.{Names}
use sandcamp.Sandrun.Passwd.{UserIdentity, parse_passwd}
use sandcamp.Rust.Path.{join}
use sandcamp.Rust.Path.Proper.{IsName}
use sandcamp.Sandrun.Sandbox.Places.Found.{Leads, IsReal}
use sandcamp.Sandrun.Sandbox.Encoding.{hex_lower}
use sandcamp.Sandrun.Sandbox.Binds.{disk_mount_namespace}
use sandcamp.Sandrun.Sandbox.Overlay.{overlay_base, overlay_device_mount, overlay_device_namespace}
use sandcamp.Sandrun.Sandbox.Launch.{private_root}
use sandcamp.Sandrun.Sandbox.{
  ErrorKind, missing, exists, another, IoError, Metadata, RuntimeError, invalid_rootfs,
  invalid_mount_target, incompatible_bind, invalid_numeric_user, invalid_passwd, unreadable_passwd,
  unresolved, unusable_targets, operation, MountFlag, ms_rdonly, ms_nosuid, ms_nodev, ms_noexec,
  ms_remount, ms_bind, ms_rec, ms_private, MountCall, Effect, make_directory, make_directories,
  create_file, set_mode, write_file, set_owner, remove_file, open_lock, lock_file, inherit_lock,
  unshare, pivot_root, detach_old_root, mount, change_to, clear_ambient, clear_groups,
  clear_capabilities, set_no_new_privileges, set_gids, set_uids, execute, Ids, Kernel, perform,
  Trace, c_string, c_string_if, place, Act, attempt, look, inspect, mount_raw,
}

-- A path that names of the image lead to from its root.
abbrev pub Below : Bytes → Bytes → Type 0
Below root path = (names : Names) × All IsName names × (path ≡ place root names)

-- Effects on directories and files alone.
abbrev pub IsFileEffect : Effect → Type 0
IsFileEffect (make_directory _ _) = Unit
IsFileEffect (make_directories _ _) = Unit
IsFileEffect (create_file _ _) = Unit
IsFileEffect (set_mode _ _) = Unit
IsFileEffect (write_file _ _) = Unit
IsFileEffect (set_owner _ _) = Unit
IsFileEffect (remove_file _) = Unit
IsFileEffect (open_lock _) = Unit
IsFileEffect (lock_file _) = Unit
IsFileEffect (inherit_lock _) = Unit
IsFileEffect _ = ⊥

-- Where the writable layers of the sandbox are.
abbrev pub base_of : Option Bytes → Bytes
base_of none = overlay_base
base_of (some _) = join overlay_device_mount overlay_device_namespace

-- The directory of all disk mounts, or that of one, which a digest names.
abbrev pub HoldsDisks : Config → Bytes → Type 0
HoldsDisks config path =
    let base = join (base_of config.overlay_device) disk_mount_namespace in
    (path ≡ base) ⊎ ((digest : Bytes) × (path ≡ join base (hex_lower digest)))

-- Effects on the image's files, below its root, and the directories that hold disk mounts.
abbrev pub IsFilling : Config → Bytes → Effect → Type 0
IsFilling config root (make_directories path _) = HoldsDisks config path
IsFilling config root (make_directory path _) = Below root path
IsFilling config root (create_file path _) = Below root path
IsFilling config root (set_mode path _) = Below root path
IsFilling config root (remove_file path) = Below root path
IsFilling config root _ = ⊥

abbrev pub only_if : Bool → Effect → List Effect → List Effect
only_if false e es = es
only_if true e es = e ∷ es

-- The credentials that are given up for a user, in order.
unfoldable pub drops : UserIdentity → List Effect
drops i =
    let non_root = not (i.uid == 0) in
    only_if non_root clear_ambient (
      clear_groups
      ∷ set_gids i.gid
      ∷ set_uids i.uid
      ∷ only_if non_root clear_capabilities (only_if non_root set_no_new_privileges []))

abbrev pub all_drops : Option UserIdentity → List Effect
all_drops none = []
all_drops (some i) = drops i

-- The ids of a user in the passwd file below a root, where the file was found and as it was read.
pub record HasEntry (kernel : Kernel) (root user : Bytes) (i : UserIdentity) : Type 0 where
  pub passwd : Bytes
  pub found : Leads kernel root (ascii "/etc/passwd") passwd
  pub reading : kernel.World
  pub text : Bytes
  pub read : kernel.read_file passwd reading ≡ ok text
  pub entry : parse_passwd text user ≡ ok i

-- The identity is the one that the configuration asks for: that of a named user is the one that the
-- passwd file of the image gives.
abbrev pub AskedOf : Kernel → (rootfs : Bytes) → Option ProcessUser → Option UserIdentity → Type 0
AskedOf kernel rootfs none i = i ≡ none
AskedOf kernel rootfs (some (numeric uid gid)) i = i ≡ some (record { uid = uid; gid = gid })
AskedOf kernel rootfs (some (named user)) i =
    (image : Bytes) × IsReal kernel rootfs image
    × (j : UserIdentity) × HasEntry kernel image user j
    × (i ≡ some j)

abbrev pub Asked : Kernel → Config → Option UserIdentity → Type 0
Asked kernel config = AskedOf kernel config.rootfs config.user

pub data Phase : Type 0 where
  outside separated hidden entered pivoted detached rooted executed : Phase
  mounted : (root : Bytes) → Phase
  dropping : List Effect → Phase

pub data Follows (kernel : Kernel) (config : Config) : Phase → Effect → Phase → Type 0 where
  host_directory :
      (path : Bytes) (mode : ℕ) → Follows kernel config outside (make_directory path mode) outside
  host_mode : (path : Bytes) (mode : ℕ) → Follows kernel config outside (set_mode path mode) outside
  separate : Follows kernel config outside unshare separated
  hide : Follows kernel config separated (mount private_root) hidden
  device :
      (call : MountCall)
      → call.target ≡ overlay_device_mount
      → Follows kernel config hidden (mount call) hidden
  prepare : (e : Effect) → IsFileEffect e → Follows kernel config hidden e hidden
  mount_overlay :
      (call : MountCall)
      → call.filesystem ≡ some (ascii "overlay")
      → Follows kernel config hidden (mount call) (mounted call.target)
  fill :
      (e : Effect) (root : Bytes)
      → IsFilling config root e
      → Follows kernel config (mounted root) e (mounted root)
  mount_below :
      (call : MountCall) (root : Bytes)
      → Below root call.target
      → Follows kernel config (mounted root) (mount call) (mounted root)
  enter : (root : Bytes) → Follows kernel config (mounted root) (change_to root) entered
  pivot : Follows kernel config entered pivot_root pivoted
  detach : Follows kernel config pivoted detach_old_root detached
  new_root : Follows kernel config detached (change_to (ascii "/")) rooted
  enter_workdir :
      (i : Option UserIdentity)
      → Asked kernel config i
      → Follows kernel config rooted (change_to config.workdir) (dropping (all_drops i))
  drop : (e : Effect) (es : List Effect) → Follows kernel config (dropping (e ∷ es)) e (dropping es)
  start : Follows kernel config (dropping []) (execute config.command) executed

-- The effects, the last one first, lead to a phase.
pub data Reaches (kernel : Kernel) (config : Config) : List Effect → Phase → Type 0 where
  begin : Reaches kernel config [] outside
  and_then :
      {es : List Effect} {p q : Phase} (e : Effect)
      → Reaches kernel config es p
      → Follows kernel config p e q
      → Reaches kernel config (e ∷ es) q
