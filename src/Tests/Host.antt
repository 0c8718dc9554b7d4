-- ===== src/Tests/Host.antt =====
-- A host of directories and files, on which every permitted call succeeds.
use sandcamp.Base.{
  ℕ, Bool, true, false, not, Option, none, some, List, [], ◌∷◌, ◌++◌, if◌then◌else◌, Bytes, ascii,
  bytes_eq, Result, ok, err,
}
use sandcamp.Sandrun.Sandbox.{
  missing, exists, another, IoError, Metadata, Effect, make_directory, make_directories,
  create_file, mount, set_gids, set_uids, Kernel,
}
use sandcamp.Sandrun.Sandbox.Overlay.{io_error}

-- The paths that exist, the only file among them, and the ids of the process.
pub record Host : Type 0 where
  pub paths : List Bytes
  pub file : Bytes
  pub uid : ℕ
  pub gid : ℕ

abbrev pub has : Bytes → List Bytes → Bool
has path [] = false
has path (p ∷ ps) = if bytes_eq path p then true else has path ps

abbrev pub describe : Bool → Metadata
describe is_file = record {
  is_dir = not is_file;
  is_file = is_file;
  is_symlink = false;
  is_block_device = false;
  mode = 493;
  owner = record { uid = 0; gid = 0 };
  size = 0;
}

abbrev pub find : Bytes → Host → Result IoError Metadata
find path h =
    if has path h.paths
    then ok (describe (bytes_eq path h.file))
    else err (io_error missing (ascii "missing"))

abbrev pub add_path : Bytes → Host → Host
add_path path h = record h { paths = path ∷ h.paths }

-- An overlay shows the image.
abbrev pub show_image : Option Bytes → Bytes → Host → Host
show_image none target h = h
show_image (some kind) target h =
    if bytes_eq kind (ascii "overlay")
    then record h {
      paths = join' (ascii "/bin") ∷ join' (ascii "/bin/app") ∷ h.paths;
      file = join' (ascii "/bin/app");
    }
    else h
  where
    join' : Bytes → Bytes
    join' name = target ++ name

abbrev pub effect_on : Effect → Host → Result IoError (Unit {0}) × Host
effect_on (make_directory path _) h =
    if has path h.paths
    then (err (io_error exists (ascii "exists")), h)
    else (ok tt, add_path path h)
effect_on (make_directories path _) h = (ok tt, add_path path h)
effect_on (create_file path _) h = (ok tt, add_path path h)
effect_on (mount call) h = (ok tt, show_image call.filesystem call.target h)
effect_on (set_uids uid) h = (ok tt, record h { uid = uid })
effect_on (set_gids gid) h = (ok tt, record h { gid = gid })
effect_on _ h = (ok tt, h)

abbrev pub found_path : Bytes → Bool → Result IoError Bytes
found_path path true = ok path
found_path path false = err (io_error missing (ascii "missing"))

abbrev pub passwd_text : Bytes
passwd_text = ascii "app:x:1000:100::/:/bin/app"

abbrev pub host : Kernel
host = record {
  World = Host;
  perform = effect_on;
  metadata = find;
  symlink_metadata = find;
  read_link = λ path h. err (io_error another (ascii "no link"));
  read_file = λ path h. ok passwd_text;
  canonicalize = λ path h. found_path path (has path h.paths);
  ids = λ h. record { uid = h.uid; euid = h.uid; gid = h.gid; egid = h.gid };
  workspace_name = λ attempt h. ascii "work";
}

abbrev pub new_host : Host
new_host = record {
  paths = ascii "/images/app" ∷ ascii "/srv" ∷ ascii "/srv/data" ∷ [];
  file = ascii "/none";
  uid = 0;
  gid = 0;
}
