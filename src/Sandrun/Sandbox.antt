-- ===== src/Sandrun/Sandbox.antt =====
-- cmd/sandrun/src/linux.rs: the system that the sandbox is set up on, and its errors. What changes
-- the system is a value, `Effect`, so that the effects of a run can be listed.
pub mod Protocol
pub mod Places
pub mod Identity
pub mod Encoding
pub mod Overlay
pub mod Binds
pub mod Mounts
pub mod Launch
use sandcamp.Base.{
  ℕ, ◌+◌, ◌≡◌, Bool, true, false, not, ◌&&◌, ◌||◌, Option, none, some, List, [], ◌∷◌, ◌++◌, ◌==◌,
  if◌then◌else◌, Bytes, ascii, Result, ok, err, map_err, guard,
}
use sandcamp.Base.Steps.{Step, lift, ◌>>=◌, ◌>>◌}
use sandcamp.Rust.Bytes.{contains}
use sandcamp.Rust.Path.{join}
use sandcamp.Sandrun.Resolve.{Names, ResolveError, Entry, unreadable, plain, link}
use sandcamp.Sandrun.Resolve.Targets.{TargetError}
use sandcamp.Sandrun.Passwd.{PasswdError, UserIdentity}

pub data ErrorKind : Type 0 where
  missing exists another : ErrorKind

pub record IoError : Type 0 where
  pub kind : ErrorKind
  pub message : Bytes

pub record Metadata : Type 0 where
  pub is_dir : Bool
  pub is_file : Bool
  pub is_symlink : Bool
  pub is_block_device : Bool
  pub mode : ℕ
  pub owner : UserIdentity
  pub size : ℕ

-- `panicked` is the `expect` of a stable overlay identity.
pub data RuntimeError : Type 0 where
  invalid_rootfs : Bytes → RuntimeError
  invalid_mount_target : (target reason : Bytes) → RuntimeError
  incompatible_bind : (source target : Bytes) → RuntimeError
  invalid_numeric_user : (uid gid : ℕ) → RuntimeError
  invalid_passwd : PasswdError → RuntimeError
  unreadable_passwd : (reason : Bytes) → RuntimeError
  unresolved : ResolveError → RuntimeError
  unusable_targets : TargetError → RuntimeError
  panicked : RuntimeError
  operation : (operation : Bytes) → Option Bytes → IoError → RuntimeError

pub data MountFlag : Type 0 where
  ms_rdonly ms_nosuid ms_nodev ms_noexec ms_remount ms_bind ms_rec ms_private : MountFlag

-- The arguments of `mount`.
pub record MountCall : Type 0 where
  pub source : Option Bytes
  pub target : Bytes
  pub filesystem : Option Bytes
  pub flags : List MountFlag
  pub data' : Option Bytes

pub data Effect : Type 0 where
  -- Directories and files.
  make_directory make_directories create_file set_mode : (path : Bytes) (mode : ℕ) → Effect
  write_file : (path contents : Bytes) → Effect
  set_owner : (path : Bytes) → UserIdentity → Effect
  remove_file open_lock lock_file inherit_lock : (path : Bytes) → Effect
  -- Namespace, mounts and root.
  unshare pivot_root detach_old_root : Effect
  mount : MountCall → Effect
  change_to : (path : Bytes) → Effect
  -- Credentials and the command.
  clear_ambient clear_groups clear_capabilities set_no_new_privileges : Effect
  set_gids set_uids : ℕ → Effect
  execute : List Bytes → Effect

-- What `getuid`, `geteuid`, `getgid` and `getegid` say.
pub record Ids : Type 0 where
  pub uid : ℕ
  pub euid : ℕ
  pub gid : ℕ
  pub egid : ℕ

-- The kernel and the file systems. An effect may change the world; a look does not.
pub record Kernel : Type 1 where
  pub World : Type 0
  pub perform : Effect → World → Result IoError (Unit {0}) × World
  pub metadata : Bytes → World → Result IoError Metadata
  pub symlink_metadata : Bytes → World → Result IoError Metadata
  pub read_link : Bytes → World → Result IoError Bytes
  pub read_file : Bytes → World → Result IoError Bytes
  pub canonicalize : Bytes → World → Result IoError Bytes
  pub ids : World → Ids
  -- The process id and the time that make the name of a new workspace.
  pub workspace_name : (attempt : ℕ) → World → Bytes

-- The world, and the effects that were tried, the last one first.
pub record Trace (World : Type 0) : Type 0 where
  pub world : World
  pub effects : List Effect

-- `CString::new`
unfoldable pub c_string : Bytes → Bytes → Option Bytes → Result RuntimeError (Unit {0})
c_string value name path =
    guard (not (contains 0 value)) (
      operation name path
        (record { kind = ErrorKind.another; message = ascii "path contains NUL" }))

unfoldable pub c_string_if : Option Bytes → Bytes → Result RuntimeError (Unit {0})
c_string_if none name = ok tt
c_string_if (some value) name = c_string value name none

-- A name below a root: `push` of one name after the other.
unfoldable pub place : Bytes → Names → Bytes
place root [] = root
place root (name ∷ names) = place (join root name) names

abbrev pub Act : Kernel → Type 0 → Type 0
Act kernel A = Step (Trace kernel.World) RuntimeError A

module _ (kernel : Kernel) where
  abbrev pub logged :
      Effect
      → List Effect
      → Result IoError (Unit {0}) × kernel.World
      → Result RuntimeError (Result IoError (Unit {0})) × Trace kernel.World
  logged effect effects (r, w) = (ok r, record { world = w; effects = effect ∷ effects })

  -- A call whose failure the code looks at.
  unfoldable pub attempt : Effect → Act kernel (Result IoError (Unit {0}))
  attempt effect = λ s. logged effect s.effects (kernel.perform effect s.world)

  -- A call whose failure is an error of its name.
  unfoldable pub perform : Bytes → Option Bytes → Effect → Act kernel (Unit {0})
  perform name path effect = do result ← attempt effect; lift (map_err (operation name path) result)

  abbrev pub look : {A : Type 0} → (kernel.World → A) → Act kernel A
  look f = λ s. (ok (f s.world), s)

  -- A look whose failure is an error of its name.
  unfoldable pub inspect :
      {A : Type 0} → Bytes → Option Bytes → (kernel.World → Result IoError A) → Act kernel A
  inspect name path f = λ s. (map_err (operation name path) (f s.world), s)

  unfoldable pub mount_raw : Bytes → MountCall → Act kernel (Unit {0})
  mount_raw name call = do
    lift (c_string_if call.source name)
    lift (c_string call.target name (some call.target))
    lift (c_string_if call.filesystem name)
    lift (c_string_if call.data' name)
    perform name (some call.target) (mount call)
