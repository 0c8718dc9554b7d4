-- ===== src/Campd/Passwd.antt =====
-- cmd/campd/src/runtime.rs: the identities of main processes, from the text of /etc/passwd.
-- `read_main_passwd` reads the file: its outcome is an argument here.
pub mod Unique
pub mod Read
use sandcamp.Base.{
  ℕ, suc, Bool, true, false, not, ◌||◌, Option, none, some, List, [], ◌∷◌, ◌==◌, if◌then◌else◌,
  Bytes, bytes_eq, is_some, any, Result, ok, err, ◌>>=◌, ◌>>◌, guard, ok_or,
}
use sandcamp.Rust.Bytes.{split_on, lines}
use sandcamp.Rust.Int.{u32_max, parse_u32}
use sandcamp.Campd.Spec.{NumericUser, ProcessUser, named, numeric, MainProcess}

-- The messages of `RuntimeError`; `panicked` stands for an `expect` that fails.
pub data RuntimeError : Type 0 where
  passwd_unreadable : Bytes → RuntimeError
  name_duplicated fields_not_seven uid_invalid gid_invalid : (line : ℕ) → RuntimeError
  user_not_found : Bytes → RuntimeError
  panicked : RuntimeError

-- `reason` is the error of the caller's field, at its line.
unfoldable pub parse_main_passwd_id : Bytes → RuntimeError → Result RuntimeError ℕ
parse_main_passwd_id value reason = do
  id ← ok_or (parse_u32 value) reason
  guard (not (id == u32_max)) reason
  ok id

unfoldable pub skips_line : Bytes → Bool
skips_line [] = true
skips_line (c ∷ _) = c == b'#'

unfoldable pub names_user : Bytes → List Bytes → Bool
names_user user [] = false
names_user user (first ∷ _) = bytes_eq first user

-- `fields.len() != 7`, then fields 2 and 3.
unfoldable pub read_fields : ℕ → List Bytes → Result RuntimeError NumericUser
read_fields line (_ ∷ _ ∷ uid ∷ gid ∷ _ ∷ _ ∷ _ ∷ []) = do
  u ← parse_main_passwd_id uid (uid_invalid line)
  g ← parse_main_passwd_id gid (gid_invalid line)
  ok (record { uid = u; gid = g })
read_fields line _ = err (fields_not_seven line)

-- One round of the loop: `found` behind the line with this number.
unfoldable pub read_line :
    Bytes → ℕ → Option NumericUser → Bytes → Result RuntimeError (Option NumericUser)
read_line user number found line =
    if skips_line line
    then ok found
    else if not (names_user user (split_on b':' line))
    then ok found
    else (do
      guard (not (is_some found)) (name_duplicated number)
      u ← read_fields number (split_on b':' line)
      ok (some u))

unfoldable pub read_lines :
    Bytes → ℕ → Option NumericUser → List Bytes → Result RuntimeError NumericUser
read_lines user number found [] = ok_or found (user_not_found user)
read_lines user number found (line ∷ rest) = do
  found' ← read_line user number found line
  read_lines user (suc number) found' rest

unfoldable pub parse_main_passwd : Bytes → Bytes → Result RuntimeError NumericUser
parse_main_passwd contents user = read_lines user 1 none (lines contents)

-- A `BTreeMap<String, NumericUser>`: only lookups by key are made.
abbrev pub Resolved : Type 0
Resolved = List (Bytes × NumericUser)

unfoldable pub resolved_user : Bytes → Resolved → Option NumericUser
resolved_user name [] = none
resolved_user name ((key, user) ∷ rest) =
    if bytes_eq key name then some user else resolved_user name rest

-- The user name that a process asks for.
unfoldable pub asked_name : Option ProcessUser → Option Bytes
asked_name (some (named name)) = some name
asked_name _ = none

unfoldable pub resolve_name : Bytes → Resolved → Option Bytes → Result RuntimeError Resolved
resolve_name contents resolved none = ok resolved
resolve_name contents resolved (some name) =
    if is_some (resolved_user name resolved)
    then ok resolved
    else (do user ← parse_main_passwd contents name; ok ((name, user) ∷ resolved))

unfoldable pub resolve_names : Bytes → Resolved → List MainProcess → Result RuntimeError Resolved
resolve_names contents resolved [] = ok resolved
resolve_names contents resolved (process ∷ rest) = do
  next ← resolve_name contents resolved (asked_name process.user)
  resolve_names contents next rest

abbrev pub asks_name : MainProcess → Bool
asks_name process = is_some (asked_name process.user)

unfoldable pub resolve_main_users :
    Result RuntimeError Bytes → List MainProcess → Result RuntimeError Resolved
resolve_main_users read processes =
    if not (any asks_name processes)
    then ok []
    else (do contents ← read; resolve_names contents [] processes)
