-- ===== src/Sandrun/Passwd.antt =====
-- cmd/sandrun/src/linux.rs: `parse_passwd`, the ids of a user in the image's passwd text.
pub mod Agrees
use sandcamp.Base.{
  ℕ, suc, Bool, true, false, not, Option, none, some, List, [], ◌∷◌, ◌==◌, if◌then◌else◌, Bytes,
  bytes_eq, is_some, Result, ok, err, ◌>>=◌, ◌>>◌, guard, ok_or,
}
use sandcamp.Rust.Bytes.{split_on, lines}
use sandcamp.Rust.Int.{u32_max, parse_u32}

pub record UserIdentity : Type 0 where
  pub uid : ℕ
  pub gid : ℕ

-- The four reasons of `InvalidPasswdEntry`, and `UserNotFound`.
pub data PasswdError : Type 0 where
  duplicated not_seven_fields invalid_uid invalid_gid : (line : ℕ) → PasswdError
  not_found : Bytes → PasswdError

unfoldable pub parse_passwd_id : Bytes → PasswdError → Result PasswdError ℕ
parse_passwd_id value reason = do
  id ← ok_or (parse_u32 value) reason
  guard (not (id == u32_max)) reason
  ok id

unfoldable pub read_entry : ℕ → List Bytes → Result PasswdError UserIdentity
read_entry line (_ ∷ _ ∷ uid ∷ gid ∷ _ ∷ _ ∷ _ ∷ []) = do
  u ← parse_passwd_id uid (invalid_uid line)
  g ← parse_passwd_id gid (invalid_gid line)
  ok (record { uid = u; gid = g })
read_entry line _ = err (not_seven_fields line)

unfoldable pub is_skipped : Bytes → Bool
is_skipped [] = true
is_skipped (c ∷ _) = c == b'#'

unfoldable pub is_of_user : Bytes → List Bytes → Bool
is_of_user user [] = false
is_of_user user (first ∷ _) = bytes_eq first user

-- One round of the loop.
unfoldable pub passwd_line :
    Bytes → ℕ → Option UserIdentity → Bytes → Result PasswdError (Option UserIdentity)
passwd_line user number found line =
    if is_skipped line
    then ok found
    else if not (is_of_user user (split_on b':' line))
    then ok found
    else (do
      guard (not (is_some found)) (duplicated number)
      identity ← read_entry number (split_on b':' line)
      ok (some identity))

unfoldable pub passwd_lines :
    Bytes → ℕ → Option UserIdentity → List Bytes → Result PasswdError UserIdentity
passwd_lines user number found [] = ok_or found (not_found user)
passwd_lines user number found (line ∷ rest) = do
  next ← passwd_line user number found line
  passwd_lines user (suc number) next rest

unfoldable pub parse_passwd : Bytes → Bytes → Result PasswdError UserIdentity
parse_passwd contents user = passwd_lines user 1 none (lines contents)
