-- ===== src/Sandrun/Sandbox/Identity.antt =====
-- cmd/sandrun/src/linux.rs: the identity that the command runs with.
pub mod Verified
use sandcamp.Base.{
  ℕ, ◌+◌, Bool, true, false, not, ◌&&◌, ◌||◌, Option, none, some, leb, ◌==◌, take, length, Bytes,
  ascii, map_err, guard,
}
use sandcamp.Base.Steps.{lift, pure, ◌>>=◌, ◌>>◌}
use sandcamp.Rust.Int.{u32_max}
use sandcamp.Rust.Utf8.{is_utf8}
use sandcamp.Sandrun.Config.{ProcessUser, named, numeric}
use sandcamp.Sandrun.Passwd.{UserIdentity, parse_passwd}
use sandcamp.Sandrun.Sandbox.{
  another, IoError, invalid_numeric_user, invalid_passwd, unreadable_passwd, operation, Effect,
  clear_ambient, clear_groups, clear_capabilities, set_no_new_privileges, set_gids, set_uids, Ids,
  Kernel, perform, Act, look, inspect,
}
use sandcamp.Sandrun.Sandbox.Places.{resolve_below}

abbrev pub max_passwd_bytes : ℕ
max_passwd_bytes = 1048576

abbrev pub efbig : IoError
efbig = record { kind = another; message = ascii "EFBIG" }

abbrev pub eperm : IoError
eperm = record { kind = another; message = ascii "EPERM" }

abbrev pub has_ids : UserIdentity → Ids → Bool
has_ids identity ids =
    ids.uid == identity.uid
    && ids.euid == identity.uid
    && ids.gid == identity.gid
    && ids.egid == identity.gid

module _ (kernel : Kernel) where
  unfoldable pub resolve_user : Bytes → Bytes → Act kernel UserIdentity
  resolve_user rootfs user = do
    passwd ← resolve_below kernel rootfs (ascii "/etc/passwd")
    metadata ← inspect kernel (ascii "passwd_stat_failed") (some passwd) (kernel.metadata passwd)
    lift (guard metadata.is_file (unreadable_passwd (ascii "/etc/passwd is not a regular file")))
    lift (
        guard (leb metadata.size max_passwd_bytes)
          (operation (ascii "passwd_too_large") (some passwd) efbig))
    text ← inspect kernel (ascii "passwd_read_failed") (some passwd) (kernel.read_file passwd)
    let contents = take (max_passwd_bytes + 1) text
    lift (
        guard (leb (length contents) max_passwd_bytes)
          (operation (ascii "passwd_too_large") (some passwd) efbig))
    lift (guard (is_utf8 contents) (unreadable_passwd (ascii "/etc/passwd is not UTF-8")))
    lift (map_err invalid_passwd (parse_passwd contents user))

  -- The identity that the configuration asks for, below the image of the host.
  unfoldable pub select_identity : Bytes → Option ProcessUser → Act kernel (Option UserIdentity)
  select_identity lower none = pure none
  select_identity lower (some (named user)) = do
    identity ← resolve_user lower user
    pure (some identity)
  select_identity lower (some (numeric uid gid)) = do
    lift (guard (not (uid == u32_max || gid == u32_max)) (invalid_numeric_user uid gid))
    pure (some (record { uid = uid; gid = gid }))

  -- A call that is made for a user other than root only.
  unfoldable pub perform_if : Bool → Bytes → Effect → Act kernel (Unit {0})
  perform_if false name effect = pure tt
  perform_if true name effect = perform kernel name none effect

  unfoldable pub apply_identity : UserIdentity → Act kernel (Unit {0})
  apply_identity identity = do
    let non_root = not (identity.uid == 0)
    perform_if non_root (ascii "ambient_capabilities_clear_failed") clear_ambient
    perform kernel (ascii "supplementary_groups_clear_failed") none clear_groups
    perform kernel (ascii "setresgid_failed") none (set_gids identity.gid)
    perform kernel (ascii "setresuid_failed") none (set_uids identity.uid)
    perform_if non_root (ascii "capabilities_clear_failed") clear_capabilities
    perform_if non_root (ascii "no_new_privileges_failed") set_no_new_privileges
    ids ← look kernel kernel.ids
    lift
        (guard (has_ids identity ids) (operation (ascii "identity_verification_failed") none eperm))
